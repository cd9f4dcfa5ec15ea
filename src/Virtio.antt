-- ===== src/Virtio.antt =====
-- The virtio block device of src/virtio.rs: its register window, the walk of a descriptor chain,
-- the requests and the ring. Sums of an address or an offset wrap at 64 bits, and counts of bytes
-- at 32, as the arithmetic of a release build does.
pub mod Ring
pub mod Chain
pub mod Copy
pub mod Keep
mod Tests
use cuddles.Base.{
  ℕ, zero, suc, ◌+◌, ◌-◌, ◌*◌, ◌/◌, ◌%◌, ◌^◌, Bool, true, false, not, ◌&&◌, ◌||◌, Option, none,
  some, List, [], ◌∷◌, bit_and, bit_or, ◌==◌, ltb, leb, if◌then◌else◌, ◌>>>◌, has_bits, u8, u16,
  u32, u64, length, get_elem?, set,
}
use cuddles.Memory.{Memory, read_u8, read_u16, read_u32, read_u64, write_u8, write_u16, write_u32}

abbrev pub vring_desc_f_next : ℕ
vring_desc_f_next = 1

abbrev pub vring_desc_f_write : ℕ
vring_desc_f_write = 2

abbrev pub queue_size : ℕ
queue_size = 128

abbrev pub queue_align : ℕ
queue_align = 4096

abbrev pub sector_size : ℕ
sector_size = 512

pub record VirtioBlk : Type 0 where
  pub disk : List ℕ
  pub guest_features : ℕ
  pub status : ℕ
  pub queue_sel : ℕ
  pub queue_pfn : ℕ
  pub isr : ℕ
  pub irq : Bool
  pub last_avail : ℕ

unfoldable pub new : VirtioBlk
new = record {
  disk = [];
  guest_features = 0;
  status = 0;
  queue_sel = 0;
  queue_pfn = 0;
  isr = 0;
  irq = false;
  last_avail = 0;
}

unfoldable pub attach : List ℕ → VirtioBlk → VirtioBlk
attach image d = record d { disk = image }

unfoldable pub present : VirtioBlk → Bool
present d = not (length d.disk == 0)

unfoldable pub capacity : VirtioBlk → ℕ
capacity d = length d.disk / sector_size

-- The read of the configuration space, and of the window.
unfoldable pub read_config : ℕ → ℕ → ℕ → ℕ
read_config capacity offset size =
    let value = capacity >>> ((offset - 0x14) * 8) in
    if size == 1 then bit_and value 0xFF else if size == 2 then bit_and value 0xFFFF else u32 value

unfoldable pub read : ℕ → ℕ → VirtioBlk → VirtioBlk × ℕ
unfolding capacity read_config
read offset size d =
    if offset == 0x00
    then (d, 0)
    else if offset == 0x04
    then (d, d.guest_features)
    else if offset == 0x08
    then (d, d.queue_pfn)
    else if offset == 0x0C
    then (d, queue_size)
    else if offset == 0x0E
    then (d, d.queue_sel)
    else if offset == 0x12
    then (d, d.status)
    else if offset == 0x13
    then (record d { isr = 0; irq = false }, d.isr)
    else if leb 0x14 offset && leb offset 0x1B
    then (d, read_config (capacity d) offset size)
    else (d, 0)

-- The ring addresses: descriptors, available and used.
unfoldable pub desc_ring : ℕ → ℕ
desc_ring pfn = pfn * 4096

unfoldable pub avail_ring : ℕ → ℕ
unfolding desc_ring
avail_ring pfn = desc_ring pfn + 16 * queue_size

unfoldable pub used_ring : ℕ → ℕ
unfolding avail_ring
used_ring pfn =
    let used_unaligned = avail_ring pfn + 4 + 2 * queue_size + 2 in
    (used_unaligned + (queue_align - 1)) / queue_align * queue_align

-- A descriptor as the walk collects it.
pub record Desc : Type 0 where
  pub addr : ℕ
  pub len : ℕ
  pub flags : ℕ

unfoldable pub desc_at : Memory → ℕ → ℕ → Desc
desc_at mem desc index =
    let entry = desc + index * 16 in
    record {
      addr = read_u64 mem entry;
      len = read_u32 mem (entry + 8);
      flags = read_u16 mem (entry + 12);
    }

unfoldable pub next_at : Memory → ℕ → ℕ → ℕ
next_at mem desc index = read_u16 mem (desc + index * 16 + 14)

-- The walk, with `left` rounds to go.
unfoldable pub walk_chain : Memory → ℕ → ℕ → ℕ → List Desc
unfolding desc_at next_at
walk_chain mem desc zero index = []
walk_chain mem desc (suc left) index =
    let entry = desc_at mem desc index in
    let rest = walk_chain mem desc left (next_at mem desc index) in
    entry ∷ (if bit_and entry.flags vring_desc_f_next == 0 then [] else rest)

-- The inner loop of a read: bytes `i` to `i + left` of a buffer from the disk.
unfoldable pub copy_in : List ℕ → ℕ → ℕ → ℕ → ℕ → Memory → Memory × Bool
copy_in disk offset addr i zero mem = (mem, true)
copy_in disk offset addr i (suc left) mem = elim (get_elem? disk (u64 (offset + i))) [
  | none ↦ (mem, false)
  | some b ↦ copy_in disk offset addr (i + 1) left (write_u8 (u64 (addr + i)) b mem)
]

-- What a loop over the buffers carries.
pub record Moved : Type 0 where
  pub offset : ℕ
  pub written : ℕ
  pub fine : Bool  -- `ok`
  pub disk : List ℕ
  pub mem : Memory

-- The loop of VIRTIO_BLK_T_IN over the data buffers.
unfoldable pub read_buffers : List Desc → Moved → Moved
unfolding copy_in
read_buffers [] s = s
read_buffers (d ∷ rest) s =
    let (mem', fine') = copy_in s.disk s.offset d.addr 0 d.len s.mem in
    let after = record s {
      offset = u64 (s.offset + d.len);
      written = u32 (s.written + d.len);
      fine = s.fine && fine';
      mem = mem';
    } in
    let more = read_buffers rest after in
    if bit_and d.flags vring_desc_f_write == 0 then record s { fine = false } else more

-- The inner loop of a write.
unfoldable pub copy_out : Memory → ℕ → ℕ → ℕ → ℕ → List ℕ → List ℕ × Bool
copy_out mem offset addr i zero disk = (disk, true)
copy_out mem offset addr i (suc left) disk =
    let at = u64 (offset + i) in
    let rest = copy_out mem offset addr (i + 1) left (set disk at (read_u8 mem (u64 (addr + i)))) in
    if leb (length disk) at then (disk, false) else rest

-- The loop of VIRTIO_BLK_T_OUT.
unfoldable pub write_buffers : List Desc → Moved → Moved
unfolding copy_out
write_buffers [] s = s
write_buffers (d ∷ rest) s =
    let (disk', fine') = copy_out s.mem s.offset d.addr 0 d.len s.disk in
    write_buffers rest
      (record s { offset = u64 (s.offset + d.len); fine = s.fine && fine'; disk = disk' })

-- The loops of VIRTIO_BLK_T_GET_ID.
unfoldable pub zero_bytes : ℕ → ℕ → ℕ → Memory → Memory
zero_bytes addr i zero mem = mem
zero_bytes addr i (suc left) mem = zero_bytes addr (i + 1) left (write_u8 (u64 (addr + i)) 0 mem)

unfoldable pub id_buffers : List Desc → Moved → Moved
unfolding zero_bytes
id_buffers [] s = s
id_buffers (d ∷ rest) s =
    id_buffers rest
      (record s { written = u32 (s.written + d.len); mem = zero_bytes d.addr 0 d.len s.mem })

abbrev pub status_of : Bool → ℕ
status_of true = 0
status_of false = 1

-- The `match` on the request type: what was moved, and the status byte.
unfoldable pub carry_out : ℕ → List Desc → Moved → Moved × ℕ
unfolding read_buffers write_buffers id_buffers
carry_out req_type buffers s =
    let inward = read_buffers buffers s in
    let outward = write_buffers buffers s in
    if req_type == 0
    then (inward, status_of inward.fine)
    else if req_type == 1
    then (outward, status_of outward.fine)
    else if req_type == 4
    then (s, 0)
    else if req_type == 8
    then (id_buffers buffers s, 0)
    else (s, 2)

-- All but the last of a list, and the address in the last.
unfoldable pub but_last : List Desc → List Desc
but_last [] = []
but_last (d ∷ []) = []
but_last (d ∷ e ∷ rest) = d ∷ but_last (e ∷ rest)

unfoldable pub last_addr : Desc → List Desc → ℕ
last_addr d [] = d.addr
last_addr d (e ∷ rest) = last_addr e rest

-- A request on a chain of a header and more: the disk and memory after it, and the count.
unfoldable pub finish : ℕ → Moved × ℕ → List ℕ × Memory × ℕ
finish status_at (moved, status) =
    (moved.disk, write_u8 status_at status moved.mem, u32 (moved.written + 1))

abbrev pub start_of : Desc → List ℕ → Memory → Moved
start_of header disk mem = record {
  offset = u64 (read_u64 mem (u64 (header.addr + 8)) * sector_size);
  written = 0;
  fine = true;
  disk = disk;
  mem = mem;
}

unfoldable pub serve : List Desc → List ℕ → Memory → List ℕ × Memory × ℕ
unfolding carry_out but_last last_addr finish
serve [] disk mem = (disk, mem, 0)
serve (header ∷ []) disk mem = (disk, mem, 0)
serve (header ∷ d ∷ rest) disk mem =
    let moved =
      carry_out (read_u32 mem header.addr) (but_last (d ∷ rest)) (start_of header disk mem) in
    finish (last_addr d rest) moved

unfoldable pub request : ℕ → ℕ → List ℕ → Memory → List ℕ × Memory × ℕ
unfolding walk_chain serve
request desc head disk mem = serve (walk_chain mem desc queue_size head) disk mem

-- The used entry for chain `head`, and the new used index.
unfoldable pub complete : ℕ → ℕ → ℕ → Memory → Memory
complete used head written mem =
    let used_slot = read_u16 mem (used + 2) % queue_size in
    let entry = used + 4 + used_slot * 8 in
    let filled = write_u32 (entry + 4) written (write_u32 entry head mem) in
    write_u16 (used + 2) (u16 (read_u16 filled (used + 2) + 1)) filled

-- One round of the loop of `notify`.
unfoldable pub round : VirtioBlk × Memory → VirtioBlk × Memory
unfolding avail_ring desc_ring used_ring
round (d, mem) =
    let slot = d.last_avail % queue_size in
    let head = read_u16 mem (avail_ring d.queue_pfn + 4 + slot * 2) in
    let (disk', mem', written) = request (desc_ring d.queue_pfn) head d.disk mem in
    (
      record d { disk = disk'; last_avail = u16 (d.last_avail + 1) },
      complete (used_ring d.queue_pfn) head written mem',
    )

-- `avail_idx.wrapping_sub(self.last_avail)`.
abbrev pub behind : ℕ → ℕ → ℕ
behind avail_idx last = u16 (avail_idx + 2 ^ 16 - last)

-- The loop, with fuel; also whether any round was made, and whether the test ended it.
unfoldable pub notify_loop : ℕ → ℕ → Bool → VirtioBlk × Memory → VirtioBlk × Memory × Bool × Bool
notify_loop zero avail_idx worked (d, mem) = (d, mem, worked, false)
notify_loop (suc fuel) avail_idx worked (d, mem) = elim (behind avail_idx d.last_avail == 0) [
  | true ↦ (d, mem, worked, true)
  | false ↦ notify_loop fuel avail_idx true (round (d, mem))
]

unfoldable pub raise : VirtioBlk × Memory × Bool × Bool → VirtioBlk × Memory
raise (d, mem, worked, ended) =
    ((if worked then record d { isr = bit_or d.isr 1; irq = true } else d), mem)

unfoldable pub notify : VirtioBlk → Memory → VirtioBlk × Memory
unfolding avail_ring
notify d mem =
    let avail_idx = read_u16 mem (avail_ring d.queue_pfn + 2) in
    if d.queue_pfn == 0 then (d, mem) else raise (notify_loop (2 ^ 16) avail_idx false (d, mem))

-- The write of the status register.
unfoldable pub write_status : ℕ → VirtioBlk → VirtioBlk
write_status value d =
    let set' = record d { status = u8 value } in
    if value == 0 then record set' { queue_pfn = 0; last_avail = 0; isr = 0; irq = false } else set'

unfoldable pub write : ℕ → ℕ → VirtioBlk → Memory → VirtioBlk × Memory
unfolding write_status
write offset value d mem =
    if offset == 0x04
    then (record d { guest_features = value }, mem)
    else if offset == 0x08
    then (record d { queue_pfn = value; last_avail = 0 }, mem)
    else if offset == 0x0E
    then (record d { queue_sel = u16 value }, mem)
    else if offset == 0x10
    then notify d mem
    else if offset == 0x12
    then (write_status value d, mem)
    else (d, mem)
