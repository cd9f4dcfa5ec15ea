-- ===== src/Alu/Spec.antt =====
-- What the arithmetic instructions promise at a width of `w` bits, by the integers that their
-- operands stand for, with no reference to carries between bits.
use cuddles.Base.{
  ℕ, zero, suc, ◌+◌, ◌-◌, ◌*◌, ◌/◌, ◌%◌, Bool, false, not, ◌&&◌, ◌==◌, ltb, leb, bit_and, bit_or,
  if◌then◌else◌,
}
use Prim.Native.Nat.{bit_xor}
use cuddles.Alu.{AluOp, add, or, adc, sbb, and, sub, xor_op, cmp}
use cuddles.Alu.Status.{Status}

-- A two's complement word, moved up by 2 ^ (w - 1): an order on these is the signed order.
abbrev pub biased : ℕ → ℕ → ℕ
biased half a = if ltb a half then a + half else a - half

-- The number of ones among the lowest `n` binary digits.
unfoldable pub ones : ℕ → ℕ → ℕ
ones zero v = 0
ones (suc n) v = v % 2 + ones n (v / 2)

abbrev pub even_ones : ℕ → Bool
even_ones v = ones 8 v % 2 == 0

-- a + b + c, where `half` is half of the number of words.
abbrev pub sum : ℕ → ℕ → ℕ → ℕ → ℕ
sum half a b c = (a + b + c) % (2 * half)

abbrev pub sum_status : ℕ → ℕ → ℕ → ℕ → Status
sum_status half a b c = record {
  carry = leb (2 * half) (a + b + c);
  parity = even_ones (sum half a b c);
  adjust = leb 16 (a % 16 + b % 16 + c);
  zero = sum half a b c == 0;
  sign = leb half (sum half a b c);
  overflow = not (
      leb half (biased half a + biased half b + c)
      && ltb (biased half a + biased half b + c) (3 * half));
}

-- a - b - c.
abbrev pub difference : ℕ → ℕ → ℕ → ℕ → ℕ
difference half a b c = (a + 2 * half - b - c) % (2 * half)

abbrev pub difference_status : ℕ → ℕ → ℕ → ℕ → Status
difference_status half a b c = record {
  carry = ltb a (b + c);
  parity = even_ones (difference half a b c);
  adjust = ltb (a % 16) (b % 16 + c);
  zero = difference half a b c == 0;
  sign = leb half (difference half a b c);
  overflow = not (
      leb (biased half b + c) (biased half a + half)
      && ltb (biased half a) (biased half b + c + half));
}

-- An addition, a subtraction or a bitwise operation, the carry taken in where the instruction
-- does.
unfoldable pub result_spec : AluOp → ℕ → ℕ → ℕ → ℕ → ℕ
result_spec add half c a b = sum half a b 0
result_spec adc half c a b = sum half a b c
result_spec sub half c a b = difference half a b 0
result_spec cmp half c a b = difference half a b 0
result_spec sbb half c a b = difference half a b c
result_spec and half c a b = bit_and a b
result_spec or half c a b = bit_or a b
result_spec xor_op half c a b = bit_xor a b

-- The bitwise operations clear carry and overflow, and leave the adjust flag as it was.
unfoldable pub logic_status : ℕ → ℕ → Status → Status
logic_status half r before = record {
  carry = false;
  parity = even_ones r;
  adjust = before.adjust;
  zero = r == 0;
  sign = leb half r;
  overflow = false;
}

unfoldable pub status_spec : AluOp → ℕ → ℕ → ℕ → ℕ → Status → Status
status_spec add half c a b before = sum_status half a b 0
status_spec adc half c a b before = sum_status half a b c
status_spec sub half c a b before = difference_status half a b 0
status_spec cmp half c a b before = difference_status half a b 0
status_spec sbb half c a b before = difference_status half a b c
status_spec and half c a b before = logic_status half (bit_and a b) before
status_spec or half c a b before = logic_status half (bit_or a b) before
status_spec xor_op half c a b before = logic_status half (bit_xor a b) before
