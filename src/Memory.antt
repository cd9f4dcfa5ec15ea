-- ===== src/Memory.antt =====
-- The physical memory of src/memory.rs. `data` and `vga_text` are functions of the index, which
-- `slot` and the VGA window keep in range. The store log and its watched address, a debugging aid
-- read from the environment, are left out.
pub mod Layout
pub mod Bytes
pub mod Words
pub mod Tables
pub mod Frame
mod Tests
use cuddles.Base.{
  ℕ, zero, suc, ◌+◌, ◌-◌, ◌*◌, ◌/◌, ◌%◌, ◌^◌, min, max, Bool, true, false, ◌&&◌, ◌||◌, Option, none,
  some, List, [], ◌∷◌, ◌++◌, bit_and, bit_or, ◌==◌, ltb, leb, if◌then◌else◌, ◌<<<◌, ◌>>>◌, bit_not,
  u8, u16, u32, u64, update,
}

pub record Memory : Type 0 where
  pub cells : ℕ → ℕ  -- `data`
  pub low_size : ℕ
  pub ram_size : ℕ
  pub vga_text : ℕ → ℕ

abbrev pub vga_text_base : ℕ
vga_text_base = 0xB8000

abbrev pub vga_text_size : ℕ
vga_text_size = 0x8000

abbrev pub mmio_hole_start : ℕ
mmio_hole_start = 0xC000_0000

abbrev pub high_ram_base : ℕ
high_ram_base = 0x1_0000_0000

-- `usize` addition that wraps.
abbrev pub wrapping_add : ℕ → ℕ → ℕ
wrapping_add a b = u64 (a + b)

-- An entry of the E820 map: base, length and type.
pub record E820Entry : Type 0 where
  pub base : ℕ
  pub len : ℕ
  pub kind : ℕ

abbrev pub entry : ℕ → ℕ → ℕ → E820Entry
entry base len kind = record { base = base; len = len; kind = kind }

pub e820_map : ℕ → List E820Entry
e820_map ram =
    let low = min ram mmio_hole_start in
    let fixed =
      entry 0x0000_0000 0x0009_FC00 1
      ∷ entry 0x0009_FC00 0x0000_0400 2
      ∷ entry 0x000A_0000 0x0006_0000 2
      ∷ [] in
    let extended =
      if ltb 0x0010_0000 low then entry 0x0010_0000 (low - 0x0010_0000) 1 ∷ [] else [] in
    let above =
      if ltb mmio_hole_start ram
      then entry mmio_hole_start (high_ram_base - mmio_hole_start) 2
        ∷ entry high_ram_base (ram - mmio_hole_start) 1
        ∷ []
      else [] in
    fixed ++ (extended ++ above)

-- `(bytes.max(1 << 20) + 0xFFF) & !0xFFF`, the rounding up to whole pages.
unfoldable pub round_up : ℕ → ℕ
round_up bytes = bit_and (max bytes (1 <<< 20) + 0xFFF) (bit_not 64 0xFFF)

unfoldable pub with_size : ℕ → Memory
unfolding round_up
with_size bytes =
    let size = round_up bytes in
    record {
      cells = λ i. 0;
      low_size = min size mmio_hole_start;
      ram_size = size;
      vga_text = λ i. 0x0720;
    }

pub top_of_ram : Memory → ℕ
top_of_ram m =
    if ltb mmio_hole_start m.ram_size
    then high_ram_base + (m.ram_size - mmio_hole_start)
    else m.ram_size

unfoldable pub slot : Memory → ℕ → Option ℕ
slot m addr =
    let off = wrapping_add (addr - high_ram_base) m.low_size in
    if ltb addr m.low_size
    then some addr
    else if leb high_ram_base addr
    then (if ltb off m.ram_size then some off else none)
    else none

unfoldable pub in_vga_text : ℕ → Bool
in_vga_text addr = leb vga_text_base addr && ltb addr (vga_text_base + vga_text_size)

-- A real-mode `segment:offset` pair.
unfoldable pub phys : ℕ → ℕ → ℕ
phys segment offset = bit_and ((segment <<< 4) + offset) 0xFFFFF

abbrev pub backed : Memory → Option ℕ → ℕ
backed m none = 0xFF
backed m (some a) = m.cells a

unfoldable pub read_u8_raw : Memory → ℕ → ℕ
read_u8_raw m addr = backed m (slot m addr)

unfoldable pub read_u8 : Memory → ℕ → ℕ
unfolding in_vga_text
read_u8 m addr =
    let cell = m.vga_text ((addr - vga_text_base) / 2) in
    if in_vga_text addr
    then (if (addr - vga_text_base) % 2 == 0 then bit_and cell 0xFF else u8 (cell >>> 8))
    else backed m (slot m addr)

abbrev pub join16 : ℕ → ℕ → ℕ
join16 lo hi = bit_or lo (hi <<< 8)

abbrev pub join32 : ℕ → ℕ → ℕ → ℕ → ℕ
join32 b0 b1 b2 b3 = bit_or (bit_or (bit_or b0 (b1 <<< 8)) (b2 <<< 16)) (b3 <<< 24)

-- The test of the fast paths: an index into `data` with room for `n` bytes.
abbrev pub room : Memory → ℕ → Option ℕ → Option ℕ
room m n none = none
room m n (some a) = if ltb (a + (n - 1)) m.ram_size then some a else none

unfoldable pub read_u16 : Memory → ℕ → ℕ
unfolding read_u8
read_u16 m addr =
    let slow = join16 (read_u8 m addr) (read_u8 m (wrapping_add addr 1)) in
    let fast = λ (a : ℕ). join16 (m.cells a) (m.cells (a + 1)) in
    if leb vga_text_base addr && ltb (addr + 1) (vga_text_base + vga_text_size)
    then m.vga_text ((addr - vga_text_base) / 2)
    else (elim (room m 2 (slot m addr)) [ none ↦ slow | some a ↦ fast a ])

unfoldable pub read_u32 : Memory → ℕ → ℕ
unfolding read_u8 read_u16
read_u32 m addr =
    let b = λ (i : ℕ). read_u8 m (wrapping_add addr i) in
    let slow = join32 (read_u8 m addr) (b 1) (b 2) (b 3) in
    let fast =
      λ (a : ℕ). join32 (m.cells a) (m.cells (a + 1)) (m.cells (a + 2)) (m.cells (a + 3)) in
    if ltb (addr + 3) (vga_text_base + vga_text_size) && leb vga_text_base (addr + 3)
    then bit_or (read_u16 m addr) (read_u16 m (addr + 2) <<< 16)
    else (elim (room m 4 (slot m addr)) [ none ↦ slow | some a ↦ fast a ])

-- `u64::from_le_bytes` of `n` bytes of `data` from `a`.
pub from_le_bytes : Memory → ℕ → ℕ → ℕ
from_le_bytes m zero a = 0
from_le_bytes m (suc n) a = m.cells a + 2 ^ 8 * from_le_bytes m n (a + 1)

unfoldable pub read_u64 : Memory → ℕ → ℕ
unfolding read_u32 from_le_bytes
read_u64 m addr =
    let halves = bit_or (read_u32 m addr) (read_u32 m (wrapping_add addr 4) <<< 32) in
    if leb vga_text_base (addr + 7) && ltb addr (vga_text_base + vga_text_size)
    then halves
    else (elim (room m 8 (slot m addr)) [ none ↦ halves | some a ↦ from_le_bytes m 8 a ])

abbrev store : Memory → ℕ → Option ℕ → Memory
store m val none = m
store m val (some a) = record m { cells = update m.cells a val }

unfoldable pub write_u8 : ℕ → ℕ → Memory → Memory
unfolding in_vga_text
write_u8 addr val m =
    let idx = (addr - vga_text_base) / 2 in
    let cell = m.vga_text idx in
    let changed =
      if (addr - vga_text_base) % 2 == 0
      then bit_or (bit_and cell 0xFF00) val
      else bit_or (bit_and cell 0x00FF) (val <<< 8) in
    if in_vga_text addr
    then record m { vga_text = update m.vga_text idx changed }
    else store m val (slot m addr)

pub write_u16 : ℕ → ℕ → Memory → Memory
unfolding write_u8
write_u16 addr val m =
    let slow =
      write_u8 (wrapping_add addr 1) (u8 (val >>> 8)) (write_u8 addr (bit_and val 0xFF) m) in
    let fast = λ (a : ℕ). record m {
      cells = update (update m.cells a (bit_and val 0xFF)) (a + 1) (u8 (val >>> 8));
    } in
    if leb vga_text_base addr && ltb (addr + 1) (vga_text_base + vga_text_size)
    then record m { vga_text = update m.vga_text ((addr - vga_text_base) / 2) val }
    else (elim (room m 2 (slot m addr)) [ none ↦ slow | some a ↦ fast a ])

-- `n` bytes of `val`, low byte first, stored one at a time from `addr`.
write_bytes : ℕ → ℕ → ℕ → Memory → Memory
unfolding write_u8
write_bytes zero addr val m = m
write_bytes (suc n) addr val m =
    write_bytes n (wrapping_add addr 1) (val >>> 8) (write_u8 addr (u8 val) m)

-- `n` bytes of `val`, low byte first, put into `data` from `a`.
pub put_bytes : ℕ → ℕ → ℕ → (ℕ → ℕ) → ℕ → ℕ
put_bytes zero a val f = f
put_bytes (suc n) a val f = put_bytes n (a + 1) (val >>> 8) (update f a (u8 val))

pub write_u32 : ℕ → ℕ → Memory → Memory
unfolding write_bytes write_u16 put_bytes
write_u32 addr val m =
    let fast = λ (a : ℕ). record m { cells = put_bytes 4 a val m.cells } in
    if ltb (addr + 3) (vga_text_base + vga_text_size) && leb vga_text_base (addr + 3)
    then write_u16 (addr + 2) (val >>> 16) (write_u16 addr (bit_and val 0xFFFF) m)
    else (elim (room m 4 (slot m addr)) [ none ↦ write_bytes 4 addr val m | some a ↦ fast a ])

pub write_u64 : ℕ → ℕ → Memory → Memory
unfolding write_bytes write_u32 put_bytes
write_u64 addr val m =
    let fast = λ (a : ℕ). record m { cells = put_bytes 8 a val m.cells } in
    if leb vga_text_base (addr + 7) && ltb addr (vga_text_base + vga_text_size)
    then write_u32 (wrapping_add addr 4) (val >>> 32) (write_u32 addr (u32 val) m)
    else (elim (room m 8 (slot m addr)) [ none ↦ write_bytes 8 addr val m | some a ↦ fast a ])

-- `load`, from the byte at index `i`.
load_from : ℕ → ℕ → List ℕ → Memory → Memory
load_from addr i [] m = m
load_from addr i (b ∷ bytes) m = load_from addr (i + 1) bytes (write_u8 (wrapping_add addr i) b m)

unfoldable pub load : ℕ → List ℕ → Memory → Memory
unfolding load_from
load addr bytes m = load_from addr 0 bytes m
