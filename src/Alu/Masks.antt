-- ===== src/Alu/Masks.antt =====
-- Writes of single bits in src/instructions.rs: the flags register loaded by software, and the bit
-- instructions.
use cuddles.Base.{
  ℕ, ◌^◌, ◌<◌, ◌≡◌, ap, Bool, true, false, not, bit_and, bit_or, ◌==◌, if◌then◌else◌, ◌<<<◌,
  bit_not, testb, testb-bit_and, testb-bit_or, testb-bit_xor, testb-bit_not, testb-pow, pow_lt,
  arith,
}
use cuddles.Alu.{write_flags, writable_flags, always_set}
use cuddles.Alu.Shift.{BitOp, test_bit, set_bit, reset_bit, complement_bit, apply_bit}

-- Loading the flags: bit 1 reads as one, the writable bits come from software, and the others stay.
pub testb-write_flags :
    (old new k : ℕ)
    → k < 32
    → testb (write_flags old new) k
      ≡ (if k == 1 then true else if testb writable_flags k then testb new k else testb old k)
unfolding write_flags
testb-write_flags old new k h =
    let writable = bit_and new writable_flags in
    let mask = bit_not 32 writable_flags in
    let mask' = bit_not 32 always_set in
    ground (
      arith,
      testb-bit_or (bit_or writable always_set) (bit_and (bit_and old mask) mask') k,
      testb-bit_or writable always_set k,
      testb-bit_and new writable_flags k,
      testb-bit_and (bit_and old mask) mask' k,
      testb-bit_and old mask k,
      testb-bit_not 32 writable_flags k (omega arith) h,
      testb-bit_not 32 always_set k (omega arith) h,
      testb-pow 1 k,
    )

-- What a bit instruction makes of the bit that it selects.
abbrev pub chosen : BitOp → Bool → Bool
chosen test_bit old = old
chosen set_bit old = true
chosen reset_bit old = false
chosen complement_bit old = not old

-- A bit instruction changes the selected bit as its name says, and no other bit of a quadword.
pub testb-apply_bit :
    (op : BitOp) (v b k : ℕ)
    → b < 64
    → k < 64
    → testb (apply_bit v b op) k ≡ (if b == k then chosen op (testb v b) else testb v k)
unfolding apply_bit
testb-apply_bit op v b k hb hk = at_bit op
  where
    one : 1 <<< b ≡ 2 ^ b
    one = omega arith

    same : b ≡ k → testb v b ≡ testb v k
    same e = ap (testb v) e

    at_bit :
        (op : BitOp)
        → testb (apply_bit v b op) k ≡ (if b == k then chosen op (testb v b) else testb v k)
    at_bit test_bit = ground (arith, same)
    at_bit set_bit = rw one (ground (arith, same, testb-bit_or v (2 ^ b) k, testb-pow b k))
    at_bit reset_bit = rw one (
        ground (
          arith,
          same,
          testb-bit_and v (bit_not 64 (2 ^ b)) k,
          testb-bit_not 64 (2 ^ b) k (pow_lt b 64 hb) hk,
          testb-pow b k,
        ))
    at_bit complement_bit = rw one (ground (arith, same, testb-bit_xor v (2 ^ b) k, testb-pow b k))
