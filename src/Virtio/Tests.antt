-- ===== src/Virtio/Tests.antt =====
-- Runs of the block device of src/virtio.rs, and instances of the theorems.
use cuddles.Base.{
  ℕ, ◌+◌, ◌-◌, ◌^◌, ◌≤◌, ◌<◌, ◌≢◌, ◌≡◌, refl, true, false, not, ◌&&◌, ◌||◌, List, [], ◌∷◌, some,
  ◌==◌, leb, ltb, if◌then◌else◌, u64, length, get_elem?, get_or, replicate, arith,
}
use cuddles.Memory.{Memory, slot, with_size, read_u8, read_u16, read_u32, read_u64, write_u8}
use cuddles.Memory.Layout.{IsValid, with_size-IsValid}
use cuddles.Memory.Bytes.{write_u8-IsValid}
use cuddles.Virtio.{
  VirtioBlk, Desc, new, attach, avail_ring, desc_ring, used_ring, behind, notify, notify_loop,
  walk_chain, copy_out, read, write_status,
}
use cuddles.Virtio.Ring.{rounds, notify_loop_lem, notify_lem}
use cuddles.Virtio.Chain.{IsChain, walk_chain-IsChain}
use cuddles.Virtio.Copy.{copy_out_lem}
use cuddles.Virtio.Keep.{type_of}

-- A disk of eight bytes, and memory with one request made available in the ring at page 16.
abbrev small_disk : List ℕ
small_disk = 1 ∷ 2 ∷ 3 ∷ 4 ∷ 5 ∷ 6 ∷ 7 ∷ 8 ∷ []

abbrev device : VirtioBlk
unfolding new attach
device = record (attach small_disk new) { queue_pfn = 16 }

abbrev index_at : ℕ
index_at = 0x1_0802

abbrev ready : Memory
ready = write_u8 index_at 1 (with_size 0x20_0000)

blank-IsValid : IsValid (with_size 0x20_0000)
blank-IsValid = (with_size-IsValid 0x20_0000 (omega arith)).0

ready-IsValid : IsValid ready
ready-IsValid = write_u8-IsValid index_at 1 (with_size 0x20_0000) blank-IsValid (omega arith)

ring_layout : (desc_ring 16 ≡ 0x1_0000) × (avail_ring 16 ≡ 0x1_0800) × (used_ring 16 ≡ 0x1_1000)
unfolding desc_ring avail_ring used_ring
ring_layout = (refl, refl, refl)

reset_register : (write_status 0 device).queue_pfn ≡ 0
unfolding write_status
reset_register = refl

capacity_of_two : (read 0x14 4 (attach (replicate 1024 0) new)).1 ≡ 2
unfolding read attach new
capacity_of_two = refl

notify_loop_lem_example :
    let n = behind (read_u16 ready (avail_ring 16 + 2)) 0 in
    notify_loop (2 ^ 16) (read_u16 ready (avail_ring 16 + 2)) false (device, ready)
    ≡ ((rounds n (device, ready)).0, (rounds n (device, ready)).1, not (n == 0), true)
unfolding device
notify_loop_lem_example = notify_loop_lem device ready ready-IsValid (omega arith)

notify_lem_example :
    let avail_idx = read_u16 ready (avail_ring 16 + 2) in
    let n = behind avail_idx 0 in
    ((notify device ready).0.last_avail ≡ avail_idx)
    × ((notify device ready).1 ≡ (rounds n (device, ready)).1)
    × ((notify device ready).0.disk ≡ (rounds n (device, ready)).0.disk)
    × ((notify device ready).0.irq ≡ (not (n == 0) || false))
unfolding device
notify_lem_example =
    notify_lem device ready ready-IsValid (omega arith)
      (λ (e : ◌≡◌ {A = ℕ} 16 0). absurd (omega arith))

-- A driver's table at page 16 in which entry 0 names entry 5 as its next one.
abbrev chained : Memory
chained = write_u8 0x1_000E 5 (write_u8 0x1_000C 1 (with_size 0x20_0000))

abbrev first_and_fifth : List Desc
first_and_fifth =
    record { addr = 0; len = 0; flags = 1 } ∷ record { addr = 0; len = 0; flags = 0 } ∷ []

first_then_fifth : walk_chain chained 0x1_0000 128 0 ≡ first_and_fifth
unfolding walk_chain read_u64 read_u32 read_u16 read_u8 write_u8 with_size slot
first_then_fifth = refl

walk_chain-IsChain_example :
    (length (walk_chain chained 0x1_0000 128 0) ≤ 128)
    × IsChain chained 0x1_0000 128 0 (walk_chain chained 0x1_0000 128 0)
walk_chain-IsChain_example = walk_chain-IsChain 128 chained 0x1_0000 0

copy_out_lem_example : get_elem? (copy_out ready 2 0x3000 0 4 small_disk).0 3 ≡ (
    if leb (2 + 0) 3 && ltb 3 (2 + 0 + 4)
    then some (read_u8 ready (u64 (0x3000 + (3 - 2))))
    else get_elem? small_disk 3)
copy_out_lem_example = copy_out_lem ready 2 0x3000 0 4 small_disk 3 (omega arith) (omega arith)

-- Each element of the disk is a byte, and what is past its end reads as 0.
small_bytes : (k : ℕ) → get_or small_disk k 0 < 2 ^ 8
small_bytes k = ground arith

-- A chain whose header is at an address with nothing behind it, where reads give all ones.
abbrev flush_chain : List Desc
flush_chain =
    record { addr = 2 ^ 40; len = 16; flags = 1 }
    ∷ record { addr = 0x3000; len = 1; flags = 2 }
    ∷ []

not_a_write : type_of flush_chain ready ≢ 1
unfolding read_u32 write_u8 with_size slot
not_a_write e =
    let value : type_of flush_chain ready ≡ 0xFFFF_FFFF = refl in absurd (omega (arith, e, value))
