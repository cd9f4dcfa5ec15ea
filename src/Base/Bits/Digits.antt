-- ===== src/Base/Bits/Digits.antt =====
-- One equation for the lowest binary digit of `&` and `|`, from the recursion on digits that the
-- native operations stand for.
use Prim.Native.Nat.{
  ℕ, zero, suc, ◌+◌, ◌*◌, ◌/◌, ◌%◌, ◌^◌, ◌≤◌, min, max, bit_and, bit_or, bit_xor, differ, digits,
  bit_and-bitwise, bit_or-bitwise, bit_xor-bitwise,
}
use mathlib.Core.Path.{◌≡◌, refl, ap}
use native.Mathlib.Nat.{pow-suc}
use native.Mathlib.Omega.{arith}

-- More fuel than the number's value changes nothing.
more_fuel :
    (z : ℕ → ℕ) (f : ℕ → ℕ → ℕ) (n m x y : ℕ) → x ≤ n → x ≤ m → digits z f n x y ≡ digits z f m x y
more_fuel z f zero zero x y p q = refl
more_fuel z f zero (suc m) zero y p q = refl
more_fuel z f zero (suc m) (suc x) y p q = absurd (omega arith)
more_fuel z f (suc n) zero zero y p q = refl
more_fuel z f (suc n) zero (suc x) y p q = absurd (omega arith)
more_fuel z f (suc n) (suc m) zero y p q = refl
more_fuel z f (suc n) (suc m) (suc x) y p q =
    ap (λ (t : ℕ). t * 2 + f (suc x % 2) (y % 2))
      (more_fuel z f n m (suc x / 2) (y / 2) (omega arith) (omega arith))

pub bit_and_digit : (x y : ℕ) → bit_and x y ≡ bit_and (x / 2) (y / 2) * 2 + min (x % 2) (y % 2)
bit_and_digit zero y = omega (arith, bit_and-bitwise 0 y, bit_and-bitwise 0 (y / 2))
bit_and_digit (suc x) y = omega (
  arith,
  bit_and-bitwise (suc x) y,
  bit_and-bitwise (suc x / 2) (y / 2),
  more_fuel (λ _. zero) min x (suc x / 2) (suc x / 2) (y / 2) (omega arith) (omega arith),
)

pub bit_or_digit : (x y : ℕ) → bit_or x y ≡ bit_or (x / 2) (y / 2) * 2 + max (x % 2) (y % 2)
bit_or_digit zero y = omega (arith, bit_or-bitwise 0 y, bit_or-bitwise 0 (y / 2))
bit_or_digit (suc x) y = omega (
  arith,
  bit_or-bitwise (suc x) y,
  bit_or-bitwise (suc x / 2) (y / 2),
  more_fuel (λ b. b) max x (suc x / 2) (suc x / 2) (y / 2) (omega arith) (omega arith),
)

and_zero_upto : (n x : ℕ) → x ≤ n → bit_and x 0 ≡ 0
and_zero_upto n zero h = refl
and_zero_upto zero (suc x) h = absurd (omega arith)
and_zero_upto (suc n) (suc x) h =
    omega (arith, bit_and_digit (suc x) 0, and_zero_upto n (suc x / 2) (omega arith))

pub bit_and-zero : (x : ℕ) → bit_and x 0 ≡ 0
bit_and-zero x = and_zero_upto x x (omega arith)

or_zero_upto : (n x : ℕ) → x ≤ n → bit_or x 0 ≡ x
or_zero_upto n zero h = refl
or_zero_upto zero (suc x) h = absurd (omega arith)
or_zero_upto (suc n) (suc x) h =
    omega (arith, bit_or_digit (suc x) 0, or_zero_upto n (suc x / 2) (omega arith))

pub bit_or-zero : (x : ℕ) → bit_or x 0 ≡ x
bit_or-zero x = or_zero_upto x x (omega arith)

or_comm_upto : (n x y : ℕ) → x ≤ n → y ≤ n → bit_or x y ≡ bit_or y x
or_comm_upto zero x y p q =
    let ex : x ≡ 0 = omega arith in let ey : y ≡ 0 = omega arith in rw (ex, ey)
or_comm_upto (suc n) x y p q = omega (
  arith,
  bit_or_digit x y,
  bit_or_digit y x,
  or_comm_upto n (x / 2) (y / 2) (omega arith) (omega arith),
)

pub bit_or_comm : (x y : ℕ) → bit_or x y ≡ bit_or y x
bit_or_comm x y = or_comm_upto (x + y) x y (omega arith) (omega arith)

pub double_pow : (k : ℕ) → 2 ^ suc k ≡ 2 * 2 ^ k
double_pow k = omega (arith, pow-suc 2 k)

pub bit_xor_digit : (x y : ℕ) → bit_xor x y ≡ bit_xor (x / 2) (y / 2) * 2 + differ (x % 2) (y % 2)
bit_xor_digit zero y = omega (arith, bit_xor-bitwise 0 y, bit_xor-bitwise 0 (y / 2))
bit_xor_digit (suc x) y = omega (
  arith,
  bit_xor-bitwise (suc x) y,
  bit_xor-bitwise (suc x / 2) (y / 2),
  more_fuel (λ b. b) differ x (suc x / 2) (suc x / 2) (y / 2) (omega arith) (omega arith),
)
