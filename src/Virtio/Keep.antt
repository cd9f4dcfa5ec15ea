-- ===== src/Virtio/Keep.antt =====
-- What the requests of src/virtio.rs leave alone: the size of the disk, and its contents unless the
-- guest writes.
use cuddles.Base.{
  ℕ, zero, suc, ◌+◌, ◌^◌, ◌≡◌, ◌≢◌, refl, ap, ◌∙◌, Bool, true, false, List, [], ◌∷◌, bit_and, ◌==◌,
  leb, u64, if_both, ◌<◌, ◌/◌, ◌%◌, ◌*◌, length, set, length-set, Bool-cases, inl, inr, arith,
}
use cuddles.Memory.{Memory, read_u8, read_u16, read_u32}
use cuddles.Virtio.{
  VirtioBlk, Desc, Moved, copy_out, read_buffers, write_buffers, id_buffers, read, carry_out,
  capacity, but_last, start_of, avail_ring, desc_ring, queue_size, walk_chain, serve, request,
  round, notify, notify_loop, raise, write,
}

length-copy_out :
    (mem : Memory) (offset addr i left : ℕ) (disk : List ℕ)
    → length (copy_out mem offset addr i left disk).0 ≡ length disk
unfolding copy_out
length-copy_out mem offset addr i zero disk = refl
length-copy_out mem offset addr i (suc left) disk =
    let at = u64 (offset + i) in
    let disk' = set disk at (read_u8 mem (u64 (addr + i))) in
    let rest =
      length-copy_out mem offset addr (i + 1) left disk'
      ∙ length-set disk at (read_u8 mem (u64 (addr + i))) in
    elim (Bool-cases (leb (length disk) at)) [
      | inl past ↦ rw past refl
      | inr within ↦ rw within rest
    ]

read_buffers-disk : (buffers : List Desc) (s : Moved) → (read_buffers buffers s).disk ≡ s.disk
unfolding read_buffers
read_buffers-disk [] s = refl
read_buffers-disk (d ∷ rest) s =
    if_both (λ (m : Moved). m.disk ≡ s.disk) (bit_and d.flags 2 == 0) refl
      (read_buffers-disk rest _)

id_buffers-disk : (buffers : List Desc) (s : Moved) → (id_buffers buffers s).disk ≡ s.disk
unfolding id_buffers
id_buffers-disk [] s = refl
id_buffers-disk (d ∷ rest) s = id_buffers-disk rest _

length-write_buffers :
    (buffers : List Desc) (s : Moved) → length (write_buffers buffers s).disk ≡ length s.disk
unfolding write_buffers
length-write_buffers [] s = refl
length-write_buffers (d ∷ rest) s =
    length-write_buffers rest _ ∙ length-copy_out s.mem s.offset d.addr 0 d.len s.disk

-- Only a write request changes the disk.
carry_out-disk :
    (req_type : ℕ) (buffers : List Desc) (s : Moved)
    → req_type ≢ 1
    → (carry_out req_type buffers s).0.disk ≡ s.disk
unfolding carry_out
carry_out-disk req_type buffers s h =
    ground (arith, read_buffers-disk buffers s, id_buffers-disk buffers s)

length-carry_out :
    (req_type : ℕ) (buffers : List Desc) (s : Moved)
    → length (carry_out req_type buffers s).0.disk ≡ length s.disk
unfolding carry_out
length-carry_out req_type buffers s = ground (
  arith,
  ap (length {A = ℕ}) (read_buffers-disk buffers s),
  ap (length {A = ℕ}) (id_buffers-disk buffers s),
  length-write_buffers buffers s,
)

-- The type of the request that a chain makes.
abbrev pub type_of : List Desc → Memory → ℕ
type_of [] mem = 0
type_of (header ∷ rest) mem = read_u32 mem header.addr

-- A request whose header does not ask for a write leaves the disk as it was.
pub serve-disk :
    (chain : List Desc) (disk : List ℕ) (mem : Memory)
    → type_of chain mem ≢ 1
    → (serve chain disk mem).0 ≡ disk
unfolding serve
serve-disk [] disk mem h = refl
serve-disk (header ∷ []) disk mem h = refl
serve-disk (header ∷ d ∷ rest) disk mem h =
    carry_out-disk (read_u32 mem header.addr) (but_last (d ∷ rest)) (start_of header disk mem) h

length-serve :
    (chain : List Desc) (disk : List ℕ) (mem : Memory)
    → length (serve chain disk mem).0 ≡ length disk
unfolding serve
length-serve [] disk mem = refl
length-serve (header ∷ []) disk mem = refl
length-serve (header ∷ d ∷ rest) disk mem =
    length-carry_out (read_u32 mem header.addr) (but_last (d ∷ rest)) (start_of header disk mem)

length-round : (s : VirtioBlk × Memory) → length (round s).0.disk ≡ length s.0.disk
unfolding round request
length-round s =
    let head = read_u16 s.1 (avail_ring s.0.queue_pfn + 4 + s.0.last_avail % queue_size * 2) in
    length-serve (walk_chain s.1 (desc_ring s.0.queue_pfn) queue_size head) s.0.disk s.1

length-notify_loop :
    (fuel avail_idx : ℕ) (worked : Bool) (s : VirtioBlk × Memory)
    → length (notify_loop fuel avail_idx worked s).0.disk ≡ length s.0.disk
unfolding notify_loop
length-notify_loop zero avail_idx worked s = refl
length-notify_loop (suc fuel) avail_idx worked s =
    ground (arith, length-round s, length-notify_loop fuel avail_idx true (round s))

raise-disk : (r : VirtioBlk × Memory × Bool × Bool) → (raise r).0.disk ≡ r.0.disk
unfolding raise
raise-disk r = if_both (λ (d : VirtioBlk). d.disk ≡ r.0.disk) r.2 refl refl

length-notify : (d : VirtioBlk) (mem : Memory) → length (notify d mem).0.disk ≡ length d.disk
unfolding notify
length-notify d mem =
    let avail_idx = read_u16 mem (avail_ring d.queue_pfn + 2) in
    if_both (λ (r : VirtioBlk × Memory). length r.0.disk ≡ length d.disk) (d.queue_pfn == 0) refl
      (ap (length {A = ℕ}) (raise-disk (notify_loop (2 ^ 16) avail_idx false (d, mem)))
        ∙ length-notify_loop (2 ^ 16) avail_idx false (d, mem))

-- No write of a register, a notification included, changes the size of the disk, from which the
-- capacity that the guest reads is computed.
pub capacity-write :
    (offset value : ℕ) (d : VirtioBlk) (mem : Memory)
    → capacity (write offset value d mem).0 ≡ capacity d
unfolding write capacity
capacity-write offset value d mem = ground (arith, length-notify d mem)

-- The two 32-bit reads of the configuration space make up the capacity.
pub capacity-read :
    (d : VirtioBlk)
    → length d.disk < 2 ^ 64
    → (read 0x14 4 d).1 + 2 ^ 32 * (read 0x18 4 d).1 ≡ length d.disk / 512
unfolding read
capacity-read d h = omega arith
