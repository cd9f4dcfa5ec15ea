-- ===== src/Pci.antt =====
-- The PCI bus: src/pci.rs. The configuration space, the BAR sizes and the slots are functions of
-- their index.
pub mod Probe
pub mod Bars
mod Tests
use cuddles.Base.{
  ℕ, zero, suc, ◌+◌, ◌-◌, ◌*◌, ◌/◌, ◌%◌, ◌^◌, Bool, true, false, not, ◌&&◌, ◌||◌, Option, none,
  some, bit_and, bit_or, ◌==◌, ltb, leb, if◌then◌else◌, ◌<<<◌, ◌>>>◌, bit_not, has_bits, u8, u16,
  u32, update,
}

pub record Function : Type 0 where
  pub config : ℕ → ℕ
  pub bar_size : ℕ → ℕ

abbrev blank : Function
blank = record { config = λ i. 0; bar_size = λ i. 0 }

pub put16 : ℕ → ℕ → Function → Function
put16 off val f = record f {
  config = update (update f.config off (u8 val)) (off + 1) (u8 (val >>> 8));
}

pub put32 : ℕ → ℕ → Function → Function
put32 off val f = record f {
  config =
      update
        (update (update (update f.config off (u8 val)) (off + 1) (u8 (val >>> 8))) (off + 2)
          (u8 (val >>> 16)))
        (off + 3) (u8 (val >>> 24));
}

pub read32 : ℕ → Function → ℕ
read32 off f =
    f.config off
    + 2 ^ 8 * f.config (off + 1)
    + 2 ^ 16 * f.config (off + 2)
    + 2 ^ 24 * f.config (off + 3)

pub io_base : ℕ → Function → ℕ
unfolding read32
io_base bar f = u16 (bit_and (read32 (0x10 + bar * 4) f) (bit_not 32 0x3))

pub record Pci : Type 0 where
  pub address : ℕ
  pub slots : ℕ → Option Function

abbrev pub virtio_blk_io_base : ℕ
virtio_blk_io_base = 0xC000

abbrev pub virtio_blk_slot : ℕ
virtio_blk_slot = 1

abbrev pub virtio_irq : ℕ
virtio_irq = 11

abbrev put8 : ℕ → ℕ → Function → Function
put8 off val f = record f { config = update f.config off val }

pub bridge : Function
unfolding put16
bridge = put8 0x0E 0x00 (
    put8 0x0B 0x06 (
      put8 0x0A 0x00 (
        put8 0x08 0x02
          (put16 0x06 0x0200 (put16 0x04 0x0006 (put16 0x02 0x1237 (put16 0x00 0x8086 blank)))))))

pub blk : Function
unfolding put16 put32
blk =
    let ids = put16 0x06 0x0000 (put16 0x04 0x0001 (put16 0x02 0x1001 (put16 0x00 0x1AF4 blank))) in
    let class =
      put8 0x0E 0x00 (put8 0x0B 0x01 (put8 0x0A 0x00 (put8 0x09 0x00 (put8 0x08 0x00 ids)))) in
    let line =
      put8 0x3D 0x01 (put8 0x3C virtio_irq (put16 0x2E 0x0002 (put16 0x2C 0x1AF4 class))) in
    let bar = put32 0x10 (bit_or virtio_blk_io_base 1) line in
    record bar { bar_size = update bar.bar_size 0 64 }

pub new : Pci
unfolding bridge blk
new = record {
  address = 0;
  slots = update (update (λ i. none) 0 (some bridge)) virtio_blk_slot (some blk);
}

-- The slot and the register that the address latch names.
pub target : Pci → Option (ℕ × ℕ)
target p =
    let bus = bit_and (p.address >>> 16) 0xFF in
    let slot = bit_and (p.address >>> 11) 0x1F in
    let func = bit_and (p.address >>> 8) 0x07 in
    if bit_and p.address 0x8000_0000 == 0
    then none
    else if not (bus == 0) || not (func == 0)
    then none
    else some (slot, bit_and p.address 0xFC)

-- The loop of `read_data` at byte `i`, with `left` bytes to go.
pub gather : ℕ → ℕ → ℕ → ℕ → Function → ℕ
gather zero i off value f = value
gather (suc left) i off value f =
    let byte = if ltb (off + i) 256 then f.config (off + i) else 0xFF in
    gather left (i + 1) off (bit_or value (u32 (byte <<< (i * 8)))) f

-- The function that an access reaches, if any, with its slot and the register.
abbrev pub found : ℕ → ℕ → Option Function → Option (ℕ × ℕ × Function)
found slot reg none = none
found slot reg (some f) = some (slot, reg, f)

abbrev pub reached : Pci → Option (ℕ × ℕ) → Option (ℕ × ℕ × Function)
reached p none = none
reached p (some (slot, reg)) = found slot reg (p.slots slot)

-- A read of `size` bytes from the byte `lane` of what an access reaches.
pub read_at : ℕ → ℕ → Option (ℕ × ℕ × Function) → ℕ
read_at lane size none = 0xFFFF_FFFF
read_at lane size (some (slot, reg, f)) = gather size 0 (reg + lane) 0 f

pub read_data : ℕ → ℕ → Pci → ℕ
read_data lane size p = read_at lane size (reached p (target p))

pub read_only : ℕ → Bool
read_only off =
    leb off 0x03
    || leb 0x08 off && leb off 0x0B
    || off == 0x0E
    || leb 0x2C off && leb off 0x2F
    || off == 0x3D

-- The loop of `write_data` at byte `i`, with `left` bytes to go.
pub scatter : ℕ → ℕ → ℕ → ℕ → Function → Function
unfolding read_only
scatter zero i off value f = f
scatter (suc left) i off value f =
    let byte = bit_and (value >>> (i * 8)) 0xFF in
    let f' =
      if leb 256 (off + i) || read_only (off + i)
      then f
      else record f { config = update f.config (off + i) byte } in
    scatter left (i + 1) off value f'

-- A write of a whole base address register.
pub write_bar : ℕ → ℕ → Function → Function
unfolding put32
write_bar reg value f =
    let bar = (reg - 0x10) / 4 in
    let size_bytes = f.bar_size bar in
    let type_bits = if has_bits (f.config (0x10 + bar * 4)) 1 then 1 else 0 in
    let mask = bit_not 32 (size_bytes - 1) in
    let stored =
      if value == 0xFFFF_FFFF
      then bit_or mask type_bits
      else bit_or (bit_and value mask) type_bits in
    if size_bytes == 0 then f else put32 reg stored f

-- What a write does to the function that it reaches.
pub write_function : ℕ → ℕ → ℕ → ℕ → Function → Function
unfolding write_bar scatter
write_function reg lane size value f =
    if leb 0x10 reg && ltb reg 0x28 && size == 4 && lane == 0
    then write_bar reg value f
    else scatter size 0 (reg + lane) value f

-- A write to what an access reaches.
pub write_at : ℕ → ℕ → ℕ → Pci → Option (ℕ × ℕ × Function) → Pci
write_at lane size value p none = p
write_at lane size value p (some (slot, reg, f)) = record p {
  slots = update p.slots slot (some (write_function reg lane size value f));
}

pub write_data : ℕ → ℕ → ℕ → Pci → Pci
write_data lane size value p = write_at lane size value p (reached p (target p))

abbrev io_base_of : Option Function → Option ℕ
io_base_of none = none
io_base_of (some f) =
    if bit_and (f.config 0x04) 0x01 == 0
    then none
    else if io_base 0 f == 0
    then none
    else some (io_base 0 f)

unfoldable pub virtio_io_base : Pci → Option ℕ
unfolding io_base
virtio_io_base p = io_base_of (p.slots virtio_blk_slot)
