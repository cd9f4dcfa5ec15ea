-- ===== src/Interrupts/Flags.antt =====
-- The flags that a real-mode interrupt clears and its IRET restores.
use cuddles.Base.{
  ℕ, ◌-◌, ◌^◌, ◌<◌, ◌≡◌, refl, sym, ◌∙◌, Bool, true, false, not, ◌&&◌, ◌||◌, bit_or, bit_and,
  bit_not, ◌==◌, u16, arith, inl, inr, testb, testb_ext, testb-bit_and, testb-bit_or, bit_and-lt,
  bit_or-lt, holds_under, holds_under_lem, xor, Bool-cases, ==_iff, bit_and_low,
}
use cuddles.Alu.{IF, TF, set_flag, write_flags, writable_flags, always_set}

-- IRET puts the flags back that the delivery cleared: what becomes of each bit.
abbrev pub cleared : ℕ → ℕ
cleared flags = set_flag TF false (set_flag IF false flags)

abbrev bit_back : Bool → ℕ → Bool
bit_back b k =
    let old = (b && testb (bit_not 32 IF) k) && testb (bit_not 32 TF) k in
    let new = old && testb 0xFFFF_0000 k || b && testb (2 ^ 16 - 1) k in
    ((new && testb writable_flags k) || testb always_set k)
    || ((old && testb (bit_not 32 writable_flags) k) && testb (bit_not 32 always_set) k)

bits_checked : holds_under (λ k. bit_back true k && not (xor (bit_back false k) (k == 1))) 32 ≡ true
unfolding holds_under testb
bits_checked = refl

bit_back_lem : (b : Bool) (k : ℕ) → k < 32 → bit_back b k ≡ (b || k == 1)
bit_back_lem true k h = ground (
  arith,
  holds_under_lem (λ k. bit_back true k && not (xor (bit_back false k) (k == 1))) 32 k h
      bits_checked,
)
bit_back_lem false k h = ground (
  arith,
  holds_under_lem (λ k. bit_back true k && not (xor (bit_back false k) (k == 1))) 32 k h
      bits_checked,
)

cleared_bit :
    (flags k : ℕ)
    → testb (cleared flags) k
      ≡ ((testb flags k && testb (bit_not 32 IF) k) && testb (bit_not 32 TF) k)
unfolding set_flag
cleared_bit flags k =
    testb-bit_and (bit_and flags (bit_not 32 IF)) (bit_not 32 TF) k
    ∙ rw (testb-bit_and flags (bit_not 32 IF) k) refl

set_already : (flags k : ℕ) → testb flags 1 ≡ true → (testb flags k || k == 1) ≡ testb flags k
set_already flags k one = elim (Bool-cases (k == 1)) [
  | inl here ↦ rw ((==_iff k 1).0 here, one) refl
  | inr other ↦ ground (arith, other)
]

restored : ℕ → ℕ
restored flags =
    write_flags (cleared flags) (bit_or (bit_and (cleared flags) 0xFFFF_0000) (u16 flags))

restored_bit : (flags k : ℕ) → testb (restored flags) k ≡ bit_back (testb flags k) k
unfolding restored write_flags
restored_bit flags k =
    let old = cleared flags in
    let new = bit_or (bit_and old 0xFFFF_0000) (u16 flags) in
    let low = sym (bit_and_low 16 flags) in
    rw (low) (
      rw
        (
          testb-bit_or
              (bit_or
                (bit_and (bit_or (bit_and old 0xFFFF_0000) (bit_and flags (2 ^ 16 - 1)))
                  writable_flags)
                always_set)
              (bit_and (bit_and old (bit_not 32 writable_flags)) (bit_not 32 always_set)) k,
          testb-bit_or
              (bit_and (bit_or (bit_and old 0xFFFF_0000) (bit_and flags (2 ^ 16 - 1)))
                writable_flags)
              always_set k,
          testb-bit_and (bit_or (bit_and old 0xFFFF_0000) (bit_and flags (2 ^ 16 - 1)))
              writable_flags k,
          testb-bit_or (bit_and old 0xFFFF_0000) (bit_and flags (2 ^ 16 - 1)) k,
          testb-bit_and old 0xFFFF_0000 k,
          testb-bit_and flags (2 ^ 16 - 1) k,
          testb-bit_and (bit_and old (bit_not 32 writable_flags)) (bit_not 32 always_set) k,
          testb-bit_and old (bit_not 32 writable_flags) k,
          cleared_bit flags k,
        )
        refl)

restored_small : (flags : ℕ) → flags < 2 ^ 32 → restored flags < 2 ^ 32
unfolding restored write_flags set_flag
restored_small flags h =
    let old = cleared flags in
    let small =
      bit_and-lt 32 (bit_and flags (bit_not 32 IF)) (bit_not 32 TF)
        (bit_and-lt 32 flags (bit_not 32 IF) h) in
    let new =
      bit_or-lt 32 (bit_and old 0xFFFF_0000) (u16 flags) (bit_and-lt 32 old 0xFFFF_0000 small)
        (omega arith) in
    bit_or-lt 32 _ _ (bit_or-lt 32 _ always_set (bit_and-lt 32 _ writable_flags new) (omega arith))
      (bit_and-lt 32 _ (bit_not 32 always_set)
        (bit_and-lt 32 old (bit_not 32 writable_flags) small))

pub flags_back :
    (flags : ℕ)
    → flags < 2 ^ 32
    → testb flags 1 ≡ true
    → write_flags (cleared flags) (bit_or (bit_and (cleared flags) 0xFFFF_0000) (u16 flags)) ≡ flags
unfolding restored
flags_back flags h one =
    testb_ext 32 (restored flags) flags (restored_small flags h) h
      (λ k hk. restored_bit flags k ∙ bit_back_lem (testb flags k) k hk ∙ set_already flags k one)
