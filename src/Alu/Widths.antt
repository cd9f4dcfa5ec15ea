-- ===== src/Alu/Widths.antt =====
-- The ALU of src/instructions.rs computes what Alu/Spec.antt says.
use cuddles.Base.{
  ℕ, suc, ◌+◌, ◌-◌, ◌*◌, ◌%◌, ◌^◌, ◌<◌, ◌≤◌, ◌≡◌, refl, Bool, true, not, ◌&&◌, ◌==◌, ltb, leb,
  if◌then◌else◌, bit_and, testb_top, has_bits-pow, testb, testb-bit_and, testb-bit_xor, xor,
  holds_under, holds_under_lem, u8, has_bits, arith,
}
use Prim.Native.Nat.{bit_xor}
use native.Mathlib.Nat.{pow-suc}
use cuddles.Alu.{parity}
use cuddles.Alu.Spec.{ones, even_ones, sum, sum_status, difference, difference_status}

agree : ℕ → Bool
agree v = not (xor (parity v) (even_ones v))

agree_table : holds_under agree 256 ≡ true
unfolding holds_under agree parity ones
agree_table = refl

pub parity_lem : (v : ℕ) → parity (u8 v) ≡ even_ones v
unfolding agree
parity_lem v =
    let at : agree (u8 v) ≡ true = holds_under_lem agree 256 (u8 v) (omega arith) agree_table in
    let same : ones 8 (u8 v) ≡ ones 8 v = unfold ones in omega arith in ground (arith, at, same)

-- Bit `k` of the words that the carries are read off.
module _ (a b r k : ℕ) where
  pub xor3 :
      has_bits (bit_xor (bit_xor a b) r) (2 ^ k) ≡ xor (xor (testb a k) (testb b k)) (testb r k)
  xor3 = simp (has_bits-pow, testb-bit_xor)

  pub differ_both :
      has_bits (bit_and (bit_xor a r) (bit_xor b r)) (2 ^ k)
      ≡ (xor (testb a k) (testb r k) && xor (testb b k) (testb r k))
  differ_both = simp (has_bits-pow, testb-bit_and, testb-bit_xor)

  pub differ_left :
      has_bits (bit_and (bit_xor a b) (bit_xor a r)) (2 ^ k)
      ≡ (xor (testb a k) (testb b k) && xor (testb a k) (testb r k))
  differ_left = simp (has_bits-pow, testb-bit_and, testb-bit_xor)

-- A carry out of the low digit.
adjust_sum :
    (a b c r : ℕ)
    → c < 2
    → r % 32 ≡ (a + b + c) % 32
    → xor (xor (testb a 4) (testb b 4)) (testb r 4) ≡ leb 16 (a % 16 + b % 16 + c)
unfolding testb
adjust_sum a b c r hc hr = ground arith

adjust_difference :
    (a b c r m : ℕ)
    → c < 2
    → b + c ≤ a + m * 32
    → r % 32 ≡ (a + m * 32 - b - c) % 32
    → xor (xor (testb a 4) (testb b 4)) (testb r 4) ≡ ltb (a % 16) (b % 16 + c)
unfolding testb
adjust_difference a b c r m hc fits hr = ground arith

-- A carry into the top digit against one out of it, on words of which there are twice `half`.
module _ (half a b c r : ℕ) (ha : a < 2 * half) (hb : b < 2 * half) (hc : c < 2) where
  overflow_sum :
      r ≡ (if leb (2 * half) (a + b + c) then a + b + c - 2 * half else a + b + c)
      → (xor (leb half a) (leb half r) && xor (leb half b) (leb half r))
        ≡ (sum_status half a b c).overflow
  overflow_sum hr = ground arith

  overflow_difference :
      r ≡ (if ltb a (b + c) then a + 2 * half - b - c else a - b - c)
      → (xor (leb half a) (leb half b) && xor (leb half a) (leb half r))
        ≡ (difference_status half a b c).overflow
  overflow_difference hr = ground arith

-- The fields that an addition writes, at a width of `k + 1` bits.
module _ (k a b c r : ℕ) (cf : Bool) (ha : a < 2 ^ suc k) (hb : b < 2 ^ suc k) (hc : c < 2) where
  pub sum_fields :
      r % 32 ≡ (a + b + c) % 32
      → cf ≡ leb (2 ^ suc k) (a + b + c)
      → r ≡ sum (2 ^ k) a b c
      → r ≡ (if cf then a + b + c - 2 ^ suc k else a + b + c)
      → (af of : Bool) → af ≡ has_bits (bit_xor (bit_xor a b) r) (2 ^ 4)
      → of ≡ has_bits (bit_and (bit_xor a r) (bit_xor b r)) (2 ^ k)
      → record {
        carry = cf;
        parity = parity (u8 r);
        adjust = af;
        zero = r == 0;
        sign = leb (2 ^ k) r;
        overflow = of;
      }
        ≡ sum_status (2 ^ k) a b c
  sum_fields low hcf hr hw af of haf hof =
      let double : 2 ^ suc k ≡ 2 * 2 ^ k = omega (arith, pow-suc 2 k) in
      let fits : r < 2 ^ suc k = ground arith in
      let over : (xor (leb (2 ^ k) a) (leb (2 ^ k) r) && xor (leb (2 ^ k) b) (leb (2 ^ k) r))
          ≡ (sum_status (2 ^ k) a b c).overflow =
        overflow_sum (2 ^ k) a b c r (ground arith) (ground arith) hc (ground arith) in
      ground (
        arith,
        over,
        parity_lem r,
        adjust_sum a b c r hc low,
        xor3 a b r 4,
        differ_both a b r k,
        testb_top k a ha,
        testb_top k b hb,
        testb_top k r fits,
      )

  pub difference_fields :
      (m : ℕ)
      → 2 ^ suc k ≡ m * 32
      → b + c ≤ 2 ^ suc k
      → cf ≡ ltb a (b + c)
      → r ≡ difference (2 ^ k) a b c
      → r ≡ (if cf then a + 2 ^ suc k - b - c else a - b - c)
      → (af of : Bool) → af ≡ has_bits (bit_xor (bit_xor a b) r) (2 ^ 4)
      → of ≡ has_bits (bit_and (bit_xor a b) (bit_xor a r)) (2 ^ k)
      → record {
        carry = cf;
        parity = parity (u8 r);
        adjust = af;
        zero = r == 0;
        sign = leb (2 ^ k) r;
        overflow = of;
      }
        ≡ difference_status (2 ^ k) a b c
  difference_fields m hm hbc hcf hr hw af of haf hof =
      let double : 2 ^ suc k ≡ 2 * 2 ^ k = omega (arith, pow-suc 2 k) in
      let fits : r < 2 ^ suc k = ground arith in
      let low' : r % 32 ≡ (a + m * 32 - b - c) % 32 = ground arith in
      let over : (xor (leb (2 ^ k) a) (leb (2 ^ k) b) && xor (leb (2 ^ k) a) (leb (2 ^ k) r))
          ≡ (difference_status (2 ^ k) a b c).overflow =
        overflow_difference (2 ^ k) a b c r (ground arith) (ground arith) hc (ground arith) in
      ground (
        arith,
        over,
        parity_lem r,
        adjust_difference a b c r m hc (omega arith) low',
        xor3 a b r 4,
        differ_left a b r k,
        testb_top k a ha,
        testb_top k b hb,
        testb_top k r fits,
      )
