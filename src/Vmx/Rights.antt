-- ===== src/Vmx/Rights.antt =====
-- The access rights of src/vmx.rs: a descriptor put into the form of a VMCS and taken out of it.
use cuddles.Base.{
  ℕ, ◌+◌, ◌*◌, ◌%◌, ◌^◌, ◌<◌, ◌≡◌, refl, ap, ◌∙◌, Bool, true, false, not, bit_or, bit_and, u32, u8,
  arith, testb, bit_and_low, bit_or_low, bit_or-zero,
}
use cuddles.Protected.{Descriptor}
use cuddles.Paging.Fields.{no_bit}
use cuddles.Vmx.{ar_of, desc_of, flag_at}

twice : (b : Bool) → not (not b) ≡ b
twice true = refl
twice false = refl

add_flag :
    (x n : ℕ) (on : Bool) → x < 2 ^ n → bit_or x (flag_at on (2 ^ n)) ≡ x + flag_at on (2 ^ n)
add_flag x n true h =
    let one : 2 ^ n ≡ 1 * 2 ^ n = omega arith in
    ap (bit_or x) one ∙ bit_or_low n x 1 h ∙ omega arith
add_flag x n false h = bit_or-zero x ∙ omega arith

abbrev sum_of : Descriptor → Bool → ℕ
sum_of d usable =
    d.attr
    + flag_at d.l (2 ^ 13)
    + flag_at d.d_b (2 ^ 14)
    + flag_at d.g (2 ^ 15)
    + flag_at (not usable) (2 ^ 16)

ar_of_lem : (d : Descriptor) (usable : Bool) → d.attr < 2 ^ 8 → ar_of d usable ≡ sum_of d usable
unfolding ar_of
ar_of_lem d usable h =
    let x1 = d.attr + flag_at d.l (2 ^ 13) in
    let x2 = x1 + flag_at d.d_b (2 ^ 14) in
    let x3 = x2 + flag_at d.g (2 ^ 15) in
    let s1 : x1 < 2 ^ 14 = ground arith in
    let s2 : x2 < 2 ^ 15 = ground (arith, s1) in
    let s3 : x3 < 2 ^ 16 = ground (arith, s2) in
    rw (add_flag d.attr 13 d.l (omega arith), add_flag x1 14 d.d_b s1, add_flag x2 15 d.g s2)
      (add_flag x3 16 (not usable) s3)

-- The bits of the sum.
sum_bits :
    (attr : ℕ) (l d_b g usable : Bool)
    → attr < 2 ^ 8
    → let y =
        attr
        + flag_at l (2 ^ 13)
        + flag_at d_b (2 ^ 14)
        + flag_at g (2 ^ 15)
        + flag_at (not usable) (2 ^ 16) in
      (y % 2 ^ 8 ≡ attr) × (testb y 13 ≡ l) × (testb y 14 ≡ d_b) × (testb y 15 ≡ g)
unfolding testb
sum_bits attr l d_b g usable h = ground arith

pub ar_of-lt : (d : Descriptor) (usable : Bool) → d.attr < 2 ^ 8 → ar_of d usable < 2 ^ 32
ar_of-lt d usable h = rw (ar_of_lem d usable h) (ground arith)

-- A descriptor survives the form of a VMCS, if its base and attributes are within their widths.
pub desc_of-ar_of :
    (d : Descriptor) (usable : Bool)
    → d.base < 2 ^ 32
    → d.attr < 2 ^ 8
    → desc_of d.base d.limit (ar_of d usable) ≡ d
unfolding desc_of
desc_of-ar_of d usable hb ha =
    let y = sum_of d usable in
    let b = sum_bits d.attr d.l d.d_b d.g usable ha in
    let base : u32 d.base ≡ d.base = omega arith in
    let attr : u8 (bit_and y 0xFF) ≡ d.attr = ap u8 (bit_and_low 8 y ∙ b.0) ∙ omega arith in
    rw
      (
        ar_of_lem d usable ha,
        base,
        attr,
        no_bit 15 y,
        no_bit 14 y,
        no_bit 13 y,
        b.1,
        b.2,
        b.3,
        twice d.g,
        twice d.d_b,
        twice d.l,
      )
      refl
