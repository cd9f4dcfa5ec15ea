-- ===== src/Base/Bits.antt =====
-- The bits of a number, and what `&`, `|` and `!` do to each of them, at every width.
mod Digits
use Prim.Native.Nat.{
  ℕ, zero, suc, ◌+◌, ◌-◌, ◌*◌, ◌/◌, ◌%◌, ◌^◌, ◌≤◌, ◌<◌, bit_and, bit_or, bit_xor, differ, min, max,
  bit_and-bitwise,
}
use mathlib.Core.Path.{◌≡◌, refl, sym, ap, ◌∙◌}
use mathlib.Core.Bool.{Bool, true, false, not, ◌&&◌, ◌||◌}
use native.Mathlib.Nat.{pow-suc, one-le-pow, mod-lt, div-add-mod', div-div-eq-div-mul}
use native.Mathlib.Omega.{arith}
use mathlib.Core.Logic.{inl, inr}
use cuddles.Base.Tests.{◌==◌, leb, ==_iff, Bool-cases, if◌then◌else◌}
use cuddles.Base.Word.{bit_not, has_bits}
use Digits.{bit_and_digit, bit_or_digit, bit_xor_digit, bit_and-zero, bit_or_comm, double_pow}
pub use Digits.{bit_or-zero}

-- Bit `k` of `x`.
unfoldable pub testb : ℕ → ℕ → Bool
testb x zero = x % 2 == 1
testb x (suc k) = testb (x / 2) k

pub testb-zero : (k : ℕ) → testb 0 k ≡ false
unfolding testb
testb-zero zero = refl
testb-zero (suc k) = testb-zero k

pub testb-bit_or : (x y k : ℕ) → testb (bit_or x y) k ≡ testb x k || testb y k
unfolding testb
testb-bit_or x y zero = ground (arith, bit_or_digit x y)
testb-bit_or x y (suc k) =
    let half : bit_or x y / 2 ≡ bit_or (x / 2) (y / 2) = omega (arith, bit_or_digit x y) in
    rw half (testb-bit_or (x / 2) (y / 2) k)

pub testb-bit_and : (x y k : ℕ) → testb (bit_and x y) k ≡ testb x k && testb y k
unfolding testb
testb-bit_and x y zero = ground (arith, bit_and_digit x y)
testb-bit_and x y (suc k) =
    let half : bit_and x y / 2 ≡ bit_and (x / 2) (y / 2) = omega (arith, bit_and_digit x y) in
    rw half (testb-bit_and (x / 2) (y / 2) k)

pub testb-pow : (i k : ℕ) → testb (2 ^ i) k ≡ (i == k)
unfolding testb
testb-pow zero zero = refl
testb-pow zero (suc k) = ground (arith, testb-zero k)
testb-pow (suc i) zero = ground (arith, double_pow i)
testb-pow (suc i) (suc k) =
    let half : 2 ^ suc i / 2 ≡ 2 ^ i = omega (arith, double_pow i) in
    rw half (ground (arith, testb-pow i k))

pub testb-bit_not : (w x k : ℕ) → x < 2 ^ w → k < w → testb (bit_not w x) k ≡ not (testb x k)
unfolding testb
testb-bit_not zero x k hx hk = absurd (omega arith)
testb-bit_not (suc w) x zero hx hk = ground (arith, double_pow w)
testb-bit_not (suc w) x (suc k) hx hk =
    let half : bit_not (suc w) x / 2 ≡ bit_not w (x / 2) = omega (arith, double_pow w) in
    rw half (testb-bit_not w (x / 2) k (omega (arith, double_pow w)) (omega arith))

-- A test of one bit by a mask.
pub has_bits-pow : (x k : ℕ) → has_bits x (2 ^ k) ≡ testb x k
unfolding testb
has_bits-pow x zero = ground (arith, bit_and_digit x 1, bit_and-zero (x / 2))
has_bits-pow x (suc k) =
    let half : 2 ^ suc k / 2 ≡ 2 ^ k = omega (arith, double_pow k) in
    let even : 2 ^ suc k % 2 ≡ 0 = omega (arith, double_pow k) in
    let step : bit_and x (2 ^ suc k) ≡ bit_and (x / 2) (2 ^ k) * 2 =
      rw (← half) (omega (arith, bit_and_digit x (2 ^ suc k))) in
    ground (arith, step, has_bits-pow (x / 2) k)

-- Two numbers of `w` bits with the same bits are equal.
pub testb_ext :
    (w x y : ℕ) → x < 2 ^ w → y < 2 ^ w → ((k : ℕ) → k < w → testb x k ≡ testb y k) → x ≡ y
unfolding testb
testb_ext zero x y hx hy h = omega arith
testb_ext (suc w) x y hx hy h =
    let halves : x / 2 ≡ y / 2 =
      testb_ext w (x / 2) (y / 2) (omega (arith, double_pow w)) (omega (arith, double_pow w))
        (λ k hk. h (suc k) (omega arith)) in
    ground (arith, halves, h 0 (omega arith))

pub bit_or-lt : (w x y : ℕ) → x < 2 ^ w → y < 2 ^ w → bit_or x y < 2 ^ w
bit_or-lt zero x y hx hy =
    let ex : x ≡ 0 = omega arith in let ey : y ≡ 0 = omega arith in rw (ex, ey) (omega arith)
bit_or-lt (suc w) x y hx hy = omega (
  arith,
  bit_or_digit x y,
  double_pow w,
  bit_or-lt w (x / 2) (y / 2) (omega (arith, double_pow w)) (omega (arith, double_pow w)),
)

bit_and-le_fuel : (n x y : ℕ) → x ≤ n → bit_and x y ≤ x
bit_and-le_fuel n zero y h = omega (arith, bit_and-bitwise 0 y)
bit_and-le_fuel zero (suc x) y h = absurd (omega arith)
bit_and-le_fuel (suc n) (suc x) y h =
    omega (arith, bit_and_digit (suc x) y, bit_and-le_fuel n (suc x / 2) (y / 2) (omega arith))

pub bit_and-le : (x y : ℕ) → bit_and x y ≤ x
bit_and-le x y = bit_and-le_fuel x x y (omega arith)

low_fields : (k q r : ℕ) → r < 2 ^ k → bit_and (q * 2 ^ k + r) (2 ^ k - 1) ≡ r
low_fields zero q r h = omega (arith, bit_and-zero (q * 2 ^ 0 + r))
low_fields (suc k) q r h =
    let x = q * 2 ^ suc k + r in
    let split : x ≡ 2 * (q * 2 ^ k) + r = omega (arith, ap (λ (t : ℕ). q * t) (pow-suc 2 k)) in
    let half : x / 2 ≡ q * 2 ^ k + r / 2 = omega (arith, split) in
    let half_mask : (2 ^ suc k - 1) / 2 ≡ 2 ^ k - 1 = omega (arith, double_pow k) in
    let odd : (2 ^ suc k - 1) % 2 ≡ 1 = omega (arith, double_pow k, one-le-pow k 2) in
    let ih : bit_and (x / 2) ((2 ^ suc k - 1) / 2) ≡ r / 2 =
      rw (half, half_mask) (low_fields k q (r / 2) (omega (arith, double_pow k))) in
    omega (arith, ih, split, odd, bit_and_digit x (2 ^ suc k - 1))

-- A mask of `k` low ones is a remainder.
pub bit_and_low : (k x : ℕ) → bit_and x (2 ^ k - 1) ≡ x % 2 ^ k
bit_and_low k x =
    let fields : x / 2 ^ k * 2 ^ k + x % 2 ^ k ≡ x = div-add-mod' x (2 ^ k) in
    rw fields at (low_fields k (x / 2 ^ k) (x % 2 ^ k) (mod-lt x (one-le-pow k 2 (omega arith))))

-- `q << k | r` is a sum where `r` fits in `k` bits, in either order.
pub bit_or_shifted : (k q r : ℕ) → r < 2 ^ k → bit_or (q * 2 ^ k) r ≡ q * 2 ^ k + r
bit_or_shifted zero q r h = let e : r ≡ 0 = omega arith in rw e (omega (arith, bit_or-zero (q * 1)))
bit_or_shifted (suc k) q r h =
    let half : q * 2 ^ suc k / 2 ≡ q * 2 ^ k = omega (arith, ap (λ (t : ℕ). q * t) (pow-suc 2 k)) in
    let even : q * 2 ^ suc k % 2 ≡ 0 = omega (arith, ap (λ (t : ℕ). q * t) (pow-suc 2 k)) in
    let ih : bit_or (q * 2 ^ suc k / 2) (r / 2) ≡ q * 2 ^ k + r / 2 =
      rw half (bit_or_shifted k q (r / 2) (omega (arith, double_pow k))) in
    omega (arith, ih, half, even, bit_or_digit (q * 2 ^ suc k) r)

pub bit_or_low : (k r q : ℕ) → r < 2 ^ k → bit_or r (q * 2 ^ k) ≡ q * 2 ^ k + r
bit_or_low k r q h = bit_or_comm r (q * 2 ^ k) ∙ bit_or_shifted k q r h

-- Over a small range, a test is settled by running it on every value.
unfoldable pub holds_under : (ℕ → Bool) → ℕ → Bool
holds_under test zero = true
holds_under test (suc top) = if test top then holds_under test top else false

pub holds_under_lem :
    (test : ℕ → Bool) (bound i : ℕ) → i < bound → holds_under test bound ≡ true → test i ≡ true
unfolding holds_under
holds_under_lem test zero i below h = absurd (omega arith)
holds_under_lem test (suc top) i below h = elim (Bool-cases (i == top)) [
  | inl here ↦ rw ((==_iff i top).0 here) (ground arith)
  | inr lower ↦ holds_under_lem test top i (ground arith) (ground arith)
]

pub bit_and-lt : (w x y : ℕ) → x < 2 ^ w → bit_and x y < 2 ^ w
bit_and-lt w x y h = omega (arith, bit_and-le x y)

-- A mask of bits from `k` up.
pub bit_and_shifted : (k x m : ℕ) → bit_and x (m * 2 ^ k) ≡ bit_and (x / 2 ^ k) m * 2 ^ k
bit_and_shifted zero x m =
    let whole : x / 1 ≡ x = omega arith in
    let one : m * 1 ≡ m = omega arith in rw (whole, one) (omega arith)
bit_and_shifted (suc k) x m =
    let half : m * 2 ^ suc k / 2 ≡ m * 2 ^ k = omega (arith, ap (λ (t : ℕ). m * t) (pow-suc 2 k)) in
    let even : m * 2 ^ suc k % 2 ≡ 0 = omega (arith, ap (λ (t : ℕ). m * t) (pow-suc 2 k)) in
    let ih : bit_and (x / 2) (m * 2 ^ suc k / 2) ≡ bit_and (x / 2 / 2 ^ k) m * 2 ^ k =
      rw half (bit_and_shifted k (x / 2) m) in
    let quotient : x / 2 ^ suc k ≡ x / 2 / 2 ^ k =
      rw (double_pow k) (sym (div-div-eq-div-mul x 2 (2 ^ k))) in
    let r = bit_and (x / 2 / 2 ^ k) m in
    rw quotient (
      omega (arith, ih, even, ap (λ (t : ℕ). r * t) (pow-suc 2 k), bit_and_digit x (m * 2 ^ suc k)))

-- `x & 0xFF00` and `x & 0x00FF` of a 16-bit word.
pub high_byte : (x : ℕ) → x < 2 ^ 16 → bit_and x 0xFF00 ≡ x / 2 ^ 8 * 2 ^ 8
high_byte x h = omega (arith, bit_and_shifted 8 x 0xFF, bit_and_low 8 (x / 2 ^ 8))

pub low_byte : (x : ℕ) → bit_and x 0xFF ≡ x % 2 ^ 8
low_byte x = bit_and_low 8 x

-- The two bytes of a word put together, and taken apart.
pub join_bytes : (lo hi : ℕ) → lo < 2 ^ 8 → bit_or lo (hi * 2 ^ 8) ≡ hi * 2 ^ 8 + lo
join_bytes lo hi h = bit_or_low 8 lo hi h

pub pow_add : (a b : ℕ) → 2 ^ a * 2 ^ b ≡ 2 ^ (a + b)
pow_add a zero = ground arith
pow_add a (suc b) = grind (arith, pow_add a b, pow-suc 2 b, pow-suc 2 (a + b))

-- Exclusive or of two tests.
abbrev pub xor : Bool → Bool → Bool
xor true b = not b
xor false b = b

differ_bits : (m n : ℕ) → m < 2 → n < 2 → differ m n ≡ (m + n) % 2
differ_bits zero n p q = omega arith
differ_bits (suc zero) zero p q = refl
differ_bits (suc zero) (suc zero) p q = refl
differ_bits (suc zero) (suc (suc n)) p q = absurd (omega arith)
differ_bits (suc (suc m)) n p q = absurd (omega arith)

pub testb-bit_xor : (x y k : ℕ) → testb (bit_xor x y) k ≡ xor (testb x k) (testb y k)
unfolding testb
testb-bit_xor x y zero =
    let sum : differ (x % 2) (y % 2) ≡ (x % 2 + y % 2) % 2 =
      differ_bits (x % 2) (y % 2) (omega arith) (omega arith) in
    let digit : bit_xor x y % 2 ≡ (x % 2 + y % 2) % 2 = omega (arith, bit_xor_digit x y, sum) in
    ground (arith, digit)
testb-bit_xor x y (suc k) =
    let sum : differ (x % 2) (y % 2) ≡ (x % 2 + y % 2) % 2 =
      differ_bits (x % 2) (y % 2) (omega arith) (omega arith) in
    let half : bit_xor x y / 2 ≡ bit_xor (x / 2) (y / 2) = omega (arith, bit_xor_digit x y, sum) in
    rw half (testb-bit_xor (x / 2) (y / 2) k)

pub pow_lt : (i w : ℕ) → i < w → 2 ^ i < 2 ^ w
pow_lt i zero h = absurd (omega arith)
pow_lt zero (suc w) h = omega (arith, double_pow w, one-le-pow w 2)
pow_lt (suc i) (suc w) h = omega (arith, double_pow w, double_pow i, pow_lt i w (omega arith))

-- The top bit of a word.
pub testb_top : (k x : ℕ) → x < 2 ^ suc k → testb x k ≡ leb (2 ^ k) x
unfolding testb
testb_top zero x h = ground arith
testb_top (suc k) x h =
    let fits : x / 2 < 2 ^ suc k = omega (arith, double_pow (suc k)) in
    ground (arith, double_pow k, testb_top k (x / 2) fits)

pub testb_high : (w k x : ℕ) → w ≤ k → x < 2 ^ w → testb x k ≡ false
unfolding testb
testb_high zero k x h hx = let e : x ≡ 0 = omega arith in rw e (testb-zero k)
testb_high (suc w) zero x h hx = absurd (omega arith)
testb_high (suc w) (suc k) x h hx =
    testb_high w k (x / 2) (omega arith) (omega (arith, double_pow w))

pub bit_xor-lt : (w x y : ℕ) → x < 2 ^ w → y < 2 ^ w → bit_xor x y < 2 ^ w
bit_xor-lt zero x y hx hy =
    let ex : x ≡ 0 = omega arith in let ey : y ≡ 0 = omega arith in rw (ex, ey) (omega arith)
bit_xor-lt (suc w) x y hx hy = omega (
  arith,
  bit_xor_digit x y,
  differ_bits (x % 2) (y % 2) (omega arith) (omega arith),
  double_pow w,
  bit_xor-lt w (x / 2) (y / 2) (omega (arith, double_pow w)) (omega (arith, double_pow w)),
)

-- Two fields at once.
field_half : (k q l : ℕ) → (q * 2 ^ suc k + l) / 2 ≡ q * 2 ^ k + l / 2
field_half k q l = omega (arith, ap (λ (t : ℕ). q * t) (pow-suc 2 k))

field_odd : (k q l : ℕ) → (q * 2 ^ suc k + l) % 2 ≡ l % 2
field_odd k q l = omega (arith, ap (λ (t : ℕ). q * t) (pow-suc 2 k))

pub bit_and_fields :
    (k q l m n : ℕ)
    → l < 2 ^ k
    → n < 2 ^ k
    → bit_and (q * 2 ^ k + l) (m * 2 ^ k + n) ≡ bit_and q m * 2 ^ k + bit_and l n
bit_and_fields zero q l m n hl hn =
    let el : l ≡ 0 = omega arith in
    let en : n ≡ 0 = omega arith in
    let eq : q * 2 ^ 0 + 0 ≡ q = omega arith in
    let em : m * 2 ^ 0 + 0 ≡ m = omega arith in rw (el, en, eq, em) (omega (arith, bit_and-zero 0))
bit_and_fields (suc k) q l m n hl hn =
    let double = double_pow k in
    let half_x : (q * 2 ^ suc k + l) / 2 ≡ q * 2 ^ k + l / 2 = field_half k q l in
    let half_y : (m * 2 ^ suc k + n) / 2 ≡ m * 2 ^ k + n / 2 = field_half k m n in
    let odd_x : (q * 2 ^ suc k + l) % 2 ≡ l % 2 = field_odd k q l in
    let odd_y : (m * 2 ^ suc k + n) % 2 ≡ n % 2 = field_odd k m n in
    let ih = bit_and_fields k q (l / 2) m (n / 2) (omega arith) (omega arith) in
    let digit : bit_and (q * 2 ^ suc k + l) (m * 2 ^ suc k + n)
        ≡ bit_and (q * 2 ^ k + l / 2) (m * 2 ^ k + n / 2) * 2 + min (l % 2) (n % 2) =
      bit_and_digit (q * 2 ^ suc k + l) (m * 2 ^ suc k + n)
      ∙ rw (half_x, half_y, odd_x, odd_y) refl in
    omega (arith, digit, ih, bit_and_digit l n, ap (λ (t : ℕ). bit_and q m * t) double)

pub bit_or_fields :
    (k q l m n : ℕ)
    → l < 2 ^ k
    → n < 2 ^ k
    → bit_or (q * 2 ^ k + l) (m * 2 ^ k + n) ≡ bit_or q m * 2 ^ k + bit_or l n
bit_or_fields zero q l m n hl hn =
    let el : l ≡ 0 = omega arith in
    let en : n ≡ 0 = omega arith in
    let eq : q * 2 ^ 0 + 0 ≡ q = omega arith in
    let em : m * 2 ^ 0 + 0 ≡ m = omega arith in rw (el, en, eq, em) (omega (arith, bit_or-zero 0))
bit_or_fields (suc k) q l m n hl hn =
    let double = double_pow k in
    let half_x : (q * 2 ^ suc k + l) / 2 ≡ q * 2 ^ k + l / 2 = field_half k q l in
    let half_y : (m * 2 ^ suc k + n) / 2 ≡ m * 2 ^ k + n / 2 = field_half k m n in
    let odd_x : (q * 2 ^ suc k + l) % 2 ≡ l % 2 = field_odd k q l in
    let odd_y : (m * 2 ^ suc k + n) % 2 ≡ n % 2 = field_odd k m n in
    let ih = bit_or_fields k q (l / 2) m (n / 2) (omega arith) (omega arith) in
    let digit : bit_or (q * 2 ^ suc k + l) (m * 2 ^ suc k + n)
        ≡ bit_or (q * 2 ^ k + l / 2) (m * 2 ^ k + n / 2) * 2 + max (l % 2) (n % 2) =
      bit_or_digit (q * 2 ^ suc k + l) (m * 2 ^ suc k + n)
      ∙ rw (half_x, half_y, odd_x, odd_y) refl in
    omega (arith, digit, ih, bit_or_digit l n, ap (λ (t : ℕ). bit_or q m * t) double)
