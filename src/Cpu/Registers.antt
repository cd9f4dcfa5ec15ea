-- ===== src/Cpu/Registers.antt =====
-- The register file of src/cpu.rs: one store read and written at several widths.
use cuddles.Base.{
  ℕ, ◌+◌, ◌-◌, ◌*◌, ◌/◌, ◌%◌, ◌^◌, ◌<◌, ◌≡◌, refl, ap, ◌∙◌, Bool, true, false, bit_and, bit_or,
  ◌==◌, if◌then◌else◌, ◌<<<◌, bit_not, bit_and_low, bit_and_shifted, bit_or_shifted, bit_and_fields,
  bit_or_fields, bit_or_low, arith,
}
use native.Mathlib.Nat.{mod-eq_of_lt}
use cuddles.Cpu.{Cpu, is_some, reg_w, merged, set_reg_w_raw, high_named, reg8_idx, set_reg8_idx}

-- The four widths.
pub data Width : Type 0 where
  byte : Width
  word : Width
  dword : Width
  qword : Width

abbrev pub bits : Width → ℕ
bits byte = 8
bits word = 16
bits dword = 32
bits qword = 64

-- A register after a write: a byte or a word keeps what is above it, a doubleword clears it.
abbrev pub after_write : Width → ℕ → ℕ → ℕ
after_write byte r v = r / 2 ^ 8 * 2 ^ 8 + v % 2 ^ 8
after_write word r v = r / 2 ^ 16 * 2 ^ 16 + v % 2 ^ 16
after_write dword r v = v % 2 ^ 32
after_write qword r v = v

-- `r & !mask | v` where the mask is of `k` low bits.
replaced :
    (k m r v : ℕ)
    → r / 2 ^ k < 2 ^ m
    → v < 2 ^ k
    → bit_or (bit_and r ((2 ^ m - 1) * 2 ^ k)) v ≡ r / 2 ^ k * 2 ^ k + v
replaced k m r v hr hv =
    let high : bit_and (r / 2 ^ k) (2 ^ m - 1) ≡ r / 2 ^ k =
      bit_and_low m (r / 2 ^ k) ∙ mod-eq_of_lt hr in
    rw (bit_and_shifted k r (2 ^ m - 1), high) (bit_or_shifted k (r / 2 ^ k) v hv)

merged_lem : (w : Width) (r v : ℕ) → r < 2 ^ 64 → merged (bits w) r v ≡ after_write w r v
unfolding merged
merged_lem byte r v h =
    rw (bit_and_low 8 v) (replaced 8 56 r (v % 2 ^ 8) (omega arith) (omega arith))
merged_lem word r v h =
    rw (bit_and_low 16 v) (replaced 16 48 r (v % 2 ^ 16) (omega arith) (omega arith))
merged_lem dword r v h = bit_and_low 32 v
merged_lem qword r v h = refl

-- A write of a register at a width: the register, and every other one.
pub set_reg_w_raw_lem :
    (w : Width) (i j v : ℕ) (c : Cpu)
    → c.regs (bit_and i 15) < 2 ^ 64
    → (set_reg_w_raw i (bits w) v c).regs j
      ≡ (if bit_and i 15 == j then after_write w (c.regs (bit_and i 15)) v else c.regs j)
unfolding set_reg_w_raw
set_reg_w_raw_lem w i j v c h = rw (merged_lem w (c.regs (bit_and i 15)) v h) (ground arith)

reg_w_lem :
    (w : Width) (i : ℕ) (c : Cpu)
    → c.regs (bit_and i 15) < 2 ^ 64
    → reg_w i (bits w) c ≡ c.regs (bit_and i 15) % 2 ^ bits w
unfolding reg_w
reg_w_lem byte i c h = bit_and_low 8 (c.regs (bit_and i 15))
reg_w_lem word i c h = bit_and_low 16 (c.regs (bit_and i 15))
reg_w_lem dword i c h = bit_and_low 32 (c.regs (bit_and i 15))
reg_w_lem qword i c h = omega arith

after_write-low :
    (w : Width) (r v : ℕ) → v < 2 ^ 64 → after_write w r v % 2 ^ bits w ≡ v % 2 ^ bits w
after_write-low byte r v h = omega arith
after_write-low word r v h = omega arith
after_write-low dword r v h = omega arith
after_write-low qword r v h = omega arith

after_write-lt : (w : Width) (r v : ℕ) → r < 2 ^ 64 → v < 2 ^ 64 → after_write w r v < 2 ^ 64
after_write-lt byte r v h g = omega arith
after_write-lt word r v h g = omega arith
after_write-lt dword r v h g = omega arith
after_write-lt qword r v h g = omega arith

-- What a register reads after a write at the same width.
pub reg_w-set_reg_w_raw :
    (w : Width) (i v : ℕ) (c : Cpu)
    → c.regs (bit_and i 15) < 2 ^ 64
    → v < 2 ^ 64
    → reg_w i (bits w) (set_reg_w_raw i (bits w) v c) ≡ v % 2 ^ bits w
reg_w-set_reg_w_raw w i v c h hv =
    let at = bit_and i 15 in
    let stored : (set_reg_w_raw i (bits w) v c).regs at ≡ after_write w (c.regs at) v =
      let self : (at == at) ≡ true = ground arith in
      set_reg_w_raw_lem w i at v c h ∙ rw self refl in
    let fits = after_write-lt w (c.regs at) v h hv in
    reg_w_lem w i (set_reg_w_raw i (bits w) v c) (rw stored fits)
    ∙ rw stored (after_write-low w (c.regs at) v hv)

-- The byte that an index names, of a register that holds `r`.
abbrev byte_of : Bool → ℕ → ℕ
byte_of high r = if high then r / 2 ^ 8 % 2 ^ 8 else r % 2 ^ 8

with_high :
    (r v : ℕ)
    → r < 2 ^ 64
    → v < 2 ^ 8
    → bit_or (bit_and r (bit_not 64 0xFF00)) (v <<< 8)
      ≡ r / 2 ^ 16 * 2 ^ 16 + (v * 2 ^ 8 + r % 2 ^ 8)
with_high r v hr hv =
    let low = r % 2 ^ 8 in
    let split : r ≡ r / 2 ^ 8 * 2 ^ 8 + low = omega arith in
    let top : bit_and (r / 2 ^ 8) (0xFFFFFFFFFFFF * 2 ^ 8) ≡ r / 2 ^ 8 / 2 ^ 8 * 2 ^ 8 =
      bit_and_shifted 8 (r / 2 ^ 8) 0xFFFFFFFFFFFF
      ∙ ap (λ (t : ℕ). t * 2 ^ 8)
          (bit_and_low 48 (r / 2 ^ 8 / 2 ^ 8) ∙ mod-eq_of_lt (omega arith)) in
    let cleared : bit_and r (bit_not 64 0xFF00) ≡ r / 2 ^ 8 / 2 ^ 8 * 2 ^ 8 * 2 ^ 8 + low =
      ap (λ (t : ℕ). bit_and t (bit_not 64 0xFF00)) split
      ∙ bit_and_fields 8 (r / 2 ^ 8) low (0xFFFFFFFFFFFF * 2 ^ 8) 0xFF (omega arith) (omega arith)
      ∙ omega (arith, top, bit_and_low 8 low) in
    let mixed = bit_or_fields 8 (r / 2 ^ 8 / 2 ^ 8 * 2 ^ 8) low v 0 (omega arith) (omega arith) in
    let plain : v * 2 ^ 8 + 0 ≡ v * 2 ^ 8 = omega arith in
    rw (cleared, ← plain)
      (mixed
        ∙ omega
            (arith, bit_or_shifted 8 (r / 2 ^ 8 / 2 ^ 8) v hv, bit_or_low 8 low 0 (omega arith)))

index_lem : (i : ℕ) → i < 16 → bit_and i 15 ≡ i
index_lem i h = bit_and_low 4 i ∙ mod-eq_of_lt h

byte_low :
    (r v : ℕ)
    → r < 2 ^ 64
    → v < 2 ^ 8
    → let w = merged 8 r v in (w % 2 ^ 8 ≡ v) × (w / 2 ^ 8 % 2 ^ 8 ≡ r / 2 ^ 8 % 2 ^ 8)
byte_low r v hr hv = rw (merged_lem byte r v hr) (omega arith)

byte_high :
    (r v : ℕ)
    → r < 2 ^ 64
    → v < 2 ^ 8
    → let w = bit_or (bit_and r (bit_not 64 0xFF00)) (v <<< 8) in
      (w % 2 ^ 8 ≡ r % 2 ^ 8) × (w / 2 ^ 8 % 2 ^ 8 ≡ v)
byte_high r v hr hv = rw (with_high r v hr hv) (omega arith)

-- Where the registers are 64 bits and no fault is pending, a write to one of the sixteen names of
-- bytes, with or without a REX prefix, changes the byte that it names and none that another name
-- does.
pub reg8_idx-set_reg8_idx :
    (i j v : ℕ) (c : Cpu)
    → i < 16
    → j < 16
    → v < 2 ^ 8
    → ((k : ℕ) → c.regs k < 2 ^ 64)
    → is_some c.pending_exception ≡ false
    → reg8_idx j (set_reg8_idx i v c) ≡ (if i == j then v else reg8_idx j c)
unfolding reg8_idx set_reg8_idx high_named
reg8_idx-set_reg8_idx i j v c hi hj hv small clear =
    let lo = byte_low (c.regs i) v (small i) hv in
    let hi' = byte_high (c.regs (i - 4)) v (small (i - 4)) hv in
    rw (clear, index_lem i hi, index_lem j hj)
      (ground (
        arith,
        lo,
        hi',
        ap c.regs {x = i} {y = j},
        ap c.regs {x = i - 4} {y = j - 4},
        ap c.regs {x = i} {y = j - 4},
        ap c.regs {x = i - 4} {y = j},
      ))
