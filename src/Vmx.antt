-- ===== src/Vmx.antt =====
-- The working copy of a VMCS in src/vmx.rs: its slots, the reads and writes of its fields, and its
-- form of a segment descriptor. `feature_control` of the source's record is in the processor's.
pub mod Field
pub mod Error
pub mod Reason
pub mod Controls
pub mod Slots
pub mod Guest
pub mod Exits
pub mod Execute
pub mod Intercept
pub mod Capability
pub mod Saved
pub mod Switch
pub mod Region
pub mod Rights
mod Tests
use cuddles.Base.{
  ℕ, ◌+◌, ◌-◌, ◌*◌, ◌/◌, ◌%◌, ◌^◌, Bool, true, false, not, ◌||◌, Option, some, none, List, [], ◌∷◌,
  bit_or, bit_and, bit_not, ◌==◌, ltb, leb, if◌then◌else◌, ◌<<<◌, ◌>>>◌, u32, u64, u8, update,
  has_bits,
}
use cuddles.Protected.{Descriptor}

abbrev pub highest_index : ℕ
highest_index = 0x1A

abbrev pub launch_slot : ℕ
launch_slot = 31

abbrev pub slots : ℕ
slots = 512

unfoldable pub slot : ℕ → Option ℕ
slot enc =
    let index = bit_and (enc >>> 1) 0x1FF in
    let ty = bit_and (enc >>> 10) 3 in
    let width = bit_and (enc >>> 13) 3 in
    if ltb highest_index index || not (bit_and enc (bit_not 32 0x7FFF) == 0)
    then none
    else some ((width * 4 + ty) * 32 + index)

unfoldable pub width_of : ℕ → ℕ
width_of enc =
    let width = bit_and (enc >>> 13) 3 in
    if width == 0 then 16 else if width == 1 then 64 else if width == 2 then 32 else 64

unfoldable pub is_read_only : ℕ → Bool
is_read_only enc = bit_and (enc >>> 10) 3 == 1

abbrev pub mask_w : ℕ → ℕ
mask_w width = if leb 64 width then 2 ^ 64 - 1 else (1 <<< width) - 1

pub record Vmx : Type 0 where
  pub on : Bool
  pub vmxon_ptr : ℕ
  pub current : Option ℕ
  pub vmcs : ℕ → ℕ
  pub in_guest : Bool
  pub host_long : Bool

abbrev pub new : Vmx
new = record {
  on = false;
  vmxon_ptr = 0;
  current = none;
  vmcs = λ i. 0;
  in_guest = false;
  host_long = false;
}

-- Bit 0 of an encoding names the high half of a field.
unfoldable pub read_slot : ℕ → ℕ → ℕ
read_slot enc v = if bit_and enc 1 == 1 then v >>> 32 else bit_and v (mask_w (width_of enc))

unfoldable pub read : ℕ → Vmx → ℕ
read enc x = elim (slot enc) as (λ o. ℕ) [ some s ↦ read_slot enc (x.vmcs s) | none ↦ 0 ]

unfoldable pub written : ℕ → ℕ → ℕ → ℕ
written enc old v =
    let mask = mask_w (width_of enc) in
    if bit_and enc 1 == 1
    then bit_or (bit_and old 0xFFFF_FFFF) (u64 (v <<< 32))
    else bit_or (bit_and old (bit_not 64 mask)) (bit_and v mask)

unfoldable pub write : ℕ → ℕ → Vmx → Vmx
write enc v x = elim (slot enc) as (λ o. Vmx) [
  | some s ↦ record x { vmcs = update x.vmcs s (written enc (x.vmcs s) v) }
  | none ↦ x
]

unfoldable pub launched : Vmx → Bool
launched x = not (x.vmcs launch_slot == 0)

unfoldable pub set_launched : Bool → Vmx → Vmx
set_launched on x = record x { vmcs = update x.vmcs launch_slot (if on then 1 else 0) }

unfoldable pub bad_region_ptr : ℕ → Bool
bad_region_ptr p = not (bit_and p 0xFFF == 0) || not (p >>> 52 == 0)

-- A descriptor in the form of a VMCS: its attributes, then L, D/B, G and whether it is unusable.
abbrev pub flag_at : Bool → ℕ → ℕ
flag_at on bit = if on then bit else 0

unfoldable pub ar_of : Descriptor → Bool → ℕ
ar_of d usable =
    let sized = bit_or (bit_or d.attr (flag_at d.l (2 ^ 13))) (flag_at d.d_b (2 ^ 14)) in
    bit_or (bit_or sized (flag_at d.g (2 ^ 15))) (flag_at (not usable) (2 ^ 16))

unfoldable pub desc_of : ℕ → ℕ → ℕ → Descriptor
desc_of base limit ar = record {
  base = u32 base;
  limit = limit;
  attr = u8 (bit_and ar 0xFF);
  g = not (bit_and ar (2 ^ 15) == 0);
  d_b = not (bit_and ar (2 ^ 14) == 0);
  l = not (bit_and ar (2 ^ 13) == 0);
}

unfoldable pub cr_qual : ℕ → ℕ → ℕ → ℕ → ℕ
cr_qual cr ty reg lmsw = bit_or (bit_or (bit_or cr (ty <<< 4)) (reg <<< 8)) (lmsw <<< 16)

-- A list of writes, in order.
unfoldable pub write_all : List (ℕ × ℕ) → Vmx → Vmx
write_all [] x = x
write_all ((enc, v) ∷ rest) x = write_all rest (write enc v x)
