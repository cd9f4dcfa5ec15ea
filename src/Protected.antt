-- ===== src/Protected.antt =====
-- Segment descriptors: src/protected.rs.
mod Tests
use cuddles.Base.{
  ℕ, ◌+◌, ◌*◌, ◌^◌, Bool, true, false, bit_and, bit_or, ◌==◌, if◌then◌else◌, ◌<<<◌, ◌>>>◌, has_bits,
  u32,
}
use cuddles.Memory.{Memory, read_u64}

pub record Descriptor : Type 0 where
  pub base : ℕ
  pub limit : ℕ
  pub attr : ℕ
  pub g : Bool
  pub d_b : Bool
  pub l : Bool

unfoldable pub parse : ℕ → Descriptor
parse raw =
    let base =
      bit_or (bit_or (bit_and (raw >>> 16) 0xFFFF) (bit_and (raw >>> 32) 0xFF <<< 16))
        (bit_and (raw >>> 56) 0xFF <<< 24) in
    let limit20 = bit_or (bit_and raw 0xFFFF) (bit_and (raw >>> 48) 0xF <<< 16) in
    let g = bit_and (raw >>> 55) 1 == 1 in
    record {
      base = base;
      limit = if g then bit_or (u32 (limit20 <<< 12)) 0xFFF else limit20;
      attr = bit_and (raw >>> 40) 0xFF;
      g = g;
      d_b = bit_and (raw >>> 54) 1 == 1;
      l = bit_and (raw >>> 53) 1 == 1;
    }

unfoldable pub present : Descriptor → Bool
present d = has_bits d.attr 0x80

unfoldable pub is_code : Descriptor → Bool
is_code d = bit_and d.attr 0x18 == 0x18

unfoldable pub is_data : Descriptor → Bool
is_data d = bit_and d.attr 0x18 == 0x10

pub is_system : Descriptor → Bool
is_system d = bit_and d.attr 0x10 == 0

unfoldable pub dpl : Descriptor → ℕ
dpl d = bit_and (d.attr >>> 5) 0x3

abbrev pub read_descriptor : Memory → ℕ → Descriptor
read_descriptor mem entry_phys = parse (read_u64 mem entry_phys)

pub translate : Descriptor → ℕ → ℕ
translate seg offset = u32 (seg.base + offset)
