-- ===== src/Alu/Shift/Laws.antt =====
-- The shifts and rotates of src/instructions.rs as multiplications, divisions and exchanges of
-- fields.
use cuddles.Base.{
  ℕ, zero, suc, ◌+◌, ◌-◌, ◌*◌, ◌/◌, ◌%◌, ◌^◌, ◌<◌, ◌≤◌, ◌≡◌, refl, ap, sym, ◌∙◌, Bool, true, false,
  not, ◌==◌, leb, bit_and, bit_or, bit_and_low, bit_or_shifted, bit_or_low, pow_add, min, subst,
  u64, ◌<<<◌, ◌>>>◌, arith, Bool-cases, inl, inr,
}
use native.Mathlib.Nat.{
  mod-mod_of_dvd, div-add-mod', one-le-pow, mod-lt, mul-add-mod_self_right, mod-eq_of_lt, add-mul,
  dvd-mul_right, pow-le-pow_right, div-eq_of_lt, div-lt_iff_lt-mul, mul-add-div_right, mul_assoc,
  mul-le-mul_right,
}
use cuddles.Alu.{as_int}
use cuddles.Alu.Results.{as_int-lt}
use cuddles.Alu.Shift.{
  mask_w, shl_arm, shr_arm, rol_arm, ror_arm, left_round, right_round, rounds, rcl_rcr64,
}

-- A power of two in two factors.
pow_split : (a b c : ℕ) → a + b ≡ c → 2 ^ a * 2 ^ b ≡ 2 ^ c
pow_split a b c e = pow_add a b ∙ ap (λ (t : ℕ). 2 ^ t) e

-- A number of `m` * `p` values as a digit above a digit below `p`.
field_mod : (x p m h : ℕ) → h < p → 0 < m → (x * p + h) % (m * p) ≡ x % m * p + h
field_mod x p m h hp hm =
    let split : x / m * m + x % m ≡ x = div-add-mod' x m in
    let small : x % m < m = mod-lt x hm in
    let whole : x * p + h ≡ x / m * (m * p) + (x % m * p + h) =
      omega (
        arith,
        ap (λ (t : ℕ). t * p) split,
        add-mul (x / m * m) (x % m) p,
        mul_assoc (x / m) m p,
      ) in
    let fits : x % m * p + h < m * p =
      omega (arith, mul-le-mul_right {m = suc (x % m)} p small, add-mul (x % m) 1 p) in
    rw whole (mul-add-mod_self_right (x / m) (m * p) (x % m * p + h) ∙ mod-eq_of_lt fits)

mask_lem : (w x : ℕ) → w ≤ 64 → bit_and x (mask_w w) ≡ (x % 2 ^ w)
unfolding mask_w
mask_lem w x h = elim (Bool-cases (leb 64 w)) [
  | inl e ↦ let same : w ≡ 64 = ground arith in rw (same) (bit_and_low 64 x)
  | inr e ↦ rw e (bit_and_low w x)
]

left_lem :
    (v : ℕ) (c : Bool) → left_round (v, c) ≡ (v % 2 ^ 63 * 2 + as_int c, not (v / 2 ^ 63 == 0))
unfolding left_round
left_lem v c =
    let small : as_int c < 2 = as_int-lt c in
    let cut : u64 (v * 2) ≡ v % 2 ^ 63 * 2 = omega arith in
    rw (cut, bit_or_shifted 1 (v % 2 ^ 63) (as_int c) small) refl

right_lem :
    (v : ℕ) (c : Bool)
    → v < 2 ^ 64
    → right_round (v, c) ≡ (as_int c * 2 ^ 63 + v / 2, not (v % 2 == 0))
unfolding right_round
right_lem v c h = rw (bit_or_low 63 (v / 2) (as_int c) (omega arith), bit_and_low 1 v) refl

as_int_back : (b : Bool) → not (as_int b == 0) ≡ b
as_int_back true = refl
as_int_back false = refl

-- A right round undoes a left one.
right_left : (v : ℕ) (c : Bool) → v < 2 ^ 64 → right_round (left_round (v, c)) ≡ (v, c)
right_left v true h =
    let fits : v % 2 ^ 63 * 2 + 1 < 2 ^ 64 = omega arith in
    rw (left_lem v true, right_lem (v % 2 ^ 63 * 2 + 1) (not (v / 2 ^ 63 == 0)) fits) (ground arith)
right_left v false h =
    let fits : v % 2 ^ 63 * 2 + 0 < 2 ^ 64 = omega arith in
    rw (left_lem v false, right_lem (v % 2 ^ 63 * 2 + 0) (not (v / 2 ^ 63 == 0)) fits)
      (ground arith)

left-lt : (s : ℕ × Bool) → (left_round s).0 < 2 ^ 64
left-lt (v, c) = rw (left_lem v c) (omega (arith, as_int-lt c))

left_rounds-lt : (k : ℕ) (s : ℕ × Bool) → s.0 < 2 ^ 64 → (rounds k left_round s).0 < 2 ^ 64
unfolding rounds
left_rounds-lt zero s h = h
left_rounds-lt (suc k) s h = left_rounds-lt k (left_round s) (left-lt s)

rounds_last :
    (k : ℕ) (round : ℕ × Bool → ℕ × Bool) (s : ℕ × Bool)
    → rounds k round (round s) ≡ round (rounds k round s)
unfolding rounds
rounds_last zero round s = refl
rounds_last (suc k) round s = rounds_last k round (round s)

rounds_undone :
    (k : ℕ) (s : ℕ × Bool) → s.0 < 2 ^ 64 → rounds k right_round (rounds k left_round s) ≡ s
unfolding rounds
rounds_undone zero s h = refl
rounds_undone (suc k) s h =
    let t = rounds k left_round s in
    let back : right_round (left_round t) ≡ t = right_left t.0 t.1 (left_rounds-lt k s h) in
    rw (rounds_last k left_round s, back) (rounds_undone k s h)

-- RCR by any count undoes RCL by the same count, on the 65 bits of a quadword and the carry.
pub rcr-rcl :
    (v k : ℕ) (c : Bool)
    → v < 2 ^ 64
    → let left = rcl_rcr64 v (as_int c) k true in rcl_rcr64 left.0 (as_int left.1) k false ≡ (v, c)
unfolding rcl_rcr64
rcr-rcl v k c h =
    let back : (b : Bool) → not (as_int b == 0) ≡ b = as_int_back in
    rw (back c) (rw (back (rounds k left_round (v, c)).1) (rounds_undone k (v, c) h))

-- The low `w - k` digits moved above the high `k` digits.
abbrev pub rotated : ℕ → ℕ → ℕ → ℕ
rotated w k v = v % 2 ^ (w - k) * 2 ^ k + v / 2 ^ (w - k)

-- Rotating the other way round the word.
pub rotated_back : (w k v : ℕ) → k ≤ w → v < 2 ^ w → rotated w (w - k) (rotated w k v) ≡ v
rotated_back w k v hk hv =
    let other : w - (w - k) ≡ k = omega arith in
    let p = 2 ^ k in
    let m = 2 ^ (w - k) in
    let hp : 0 < p = one-le-pow k 2 (omega arith) in
    let hm : 0 < m = one-le-pow (w - k) 2 (omega arith) in
    let product : m * p ≡ 2 ^ w = pow_split (w - k) k w (omega arith) in
    let high : v / m < p = (div-lt_iff_lt-mul hm).1 (omega (arith, product)) in
    let low : (v % m * p + v / m) % p ≡ v / m =
      mul-add-mod_self_right (v % m) p (v / m) ∙ mod-eq_of_lt high in
    let top : (v % m * p + v / m) / p ≡ v % m =
      omega (arith, mul-add-div_right hp (v % m) (v / m), div-eq_of_lt high) in
    rw (other, low, top) (div-add-mod' v m)

-- The two parts of a rotation, put together.
module _ (w k v : ℕ) (hw : w ≤ 64) (hk : k ≤ w) (hv : v < 2 ^ w) where
  product : 2 ^ (w - k) * 2 ^ k ≡ 2 ^ w
  product = pow_split (w - k) k w (omega arith)

  high_part : v / 2 ^ (w - k) < 2 ^ k
  high_part = (div-lt_iff_lt-mul (one-le-pow (w - k) 2 (omega arith))).1 (omega (arith, product))

  cut : u64 (v * 2 ^ k) ≡ v % 2 ^ (64 - k) * 2 ^ k
  cut =
      let whole : 2 ^ (64 - k) * 2 ^ k ≡ 2 ^ 64 = pow_split (64 - k) k 64 (omega arith) in
      let field =
        field_mod v (2 ^ k) (2 ^ (64 - k)) 0 (one-le-pow k 2 (omega arith))
          (one-le-pow (64 - k) 2 (omega arith)) in
      let widened : (v * 2 ^ k + 0) % (2 ^ (64 - k) * 2 ^ k) ≡ (v * 2 ^ k + 0) % 2 ^ 64 =
        ap (λ (t : ℕ). (v * 2 ^ k + 0) % t) whole in
      omega (arith, field, widened)

  joined : (v % 2 ^ (64 - k) * 2 ^ k + v / 2 ^ (w - k)) % 2 ^ w ≡ rotated w k v
  joined =
      let field =
        field_mod (v % 2 ^ (64 - k)) (2 ^ k) (2 ^ (w - k)) (v / 2 ^ (w - k)) high_part
          (one-le-pow (w - k) 2 (omega arith)) in
      let split : 2 ^ (w - k) * 2 ^ (64 - w) ≡ 2 ^ (64 - k) =
        pow_split (w - k) (64 - w) (64 - k) (omega arith) in
      let nested : v % 2 ^ (64 - k) % 2 ^ (w - k) ≡ v % 2 ^ (w - k) =
        rw (← split)
          (mod-mod_of_dvd (2 ^ (w - k)) v (dvd-mul_right (2 ^ (w - k)) (2 ^ (64 - w)))) in
      rw (product, nested) at field

  rotate_left : bit_and (bit_or (u64 (v <<< k)) (v >>> (w - k))) (mask_w w) ≡ rotated w k v
  rotate_left =
      rw (cut, bit_or_shifted k (v % 2 ^ (64 - k)) (v / 2 ^ (w - k)) high_part)
        (mask_lem w _ hw ∙ joined)

  rotate_left' : bit_and (bit_or (v >>> (w - k)) (u64 (v <<< k))) (mask_w w) ≡ rotated w k v
  rotate_left' =
      rw (cut, bit_or_low k (v / 2 ^ (w - k)) (v % 2 ^ (64 - k)) high_part)
        (mask_lem w _ hw ∙ joined)

-- ROL at every width and count.
pub rol_arm_lem :
    (v n w flags : ℕ) → 0 < w → w ≤ 64 → v < 2 ^ w → (rol_arm v n w flags).0 ≡ rotated w (n % w) v
unfolding rol_arm
rol_arm_lem v n w flags h0 hw hv =
    let below : n % w < w = mod-lt n h0 in
    elim (Bool-cases (n % w == 0)) [
      | inl none ↦
          let none' : n % w ≡ 0 = ground arith in
          let whole : w - 0 ≡ w = omega arith in
          rw (none', whole, mod-eq_of_lt hv, div-eq_of_lt hv) (omega arith)
      | inr some ↦ rw some (rotate_left w (n % w) v hw (omega arith) hv)
    ]

pub ror_arm_lem :
    (v n w flags : ℕ)
    → 0 < w
    → w ≤ 64
    → v < 2 ^ w
    → (ror_arm v n w flags).0 ≡ rotated w (w - n % w) v
unfolding ror_arm
ror_arm_lem v n w flags h0 hw hv =
    let below : n % w < w = mod-lt n h0 in
    elim (Bool-cases (n % w == 0)) [
      | inl none ↦
          let none' : n % w ≡ 0 = ground arith in
          let all : w - w ≡ 0 = omega arith in
          let whole : w - 0 ≡ w = omega arith in
          let low : v % 1 * 2 ^ w ≡ 0 =
            let rest : v % 1 ≡ 0 = omega arith in rw rest (omega arith) in
          let quotient : v / 1 ≡ v = omega arith in
          rw (none', whole, all, low, quotient) (omega arith)
      | inr some ↦
          let other : w - (w - n % w) ≡ n % w = omega arith in
          rw some (
            subst
              (λ (t : ℕ).
                bit_and (bit_or (v >>> t) (u64 (v <<< (w - n % w)))) (mask_w w)
                ≡ rotated w (w - n % w) v)
              other (rotate_left' w (w - n % w) v hw (omega arith) hv))
    ]

-- At any width from 1 to 64, on an operand of that width, ROR by a count undoes ROL by the same
-- count.
pub ror-rol :
    (v n w flags flags' : ℕ)
    → 0 < w
    → w ≤ 64
    → v < 2 ^ w
    → (ror_arm (rol_arm v n w flags).0 n w flags').0 ≡ v
ror-rol v n w flags flags' h0 hw hv =
    let below : n % w < w = mod-lt n h0 in
    let fits : rotated w (n % w) v < 2 ^ w = rw (← joined w (n % w) v hw (omega arith) hv) (
      mod-lt (v % 2 ^ (64 - n % w) * 2 ^ (n % w) + v / 2 ^ (w - n % w))
        (one-le-pow w 2 (omega arith))) in
    rw (rol_arm_lem v n w flags h0 hw hv, ror_arm_lem (rotated w (n % w) v) n w flags' h0 hw fits)
      (rotated_back w (n % w) v (omega arith) hv)

-- SHL is the product, cut to the width.
pub shl_arm_lem :
    (v n w flags : ℕ) → n < 64 → w ≤ 64 → (shl_arm v n w flags).0 ≡ (v * 2 ^ n) % 2 ^ w
unfolding shl_arm
shl_arm_lem v n w flags hn hw =
    let split : 2 ^ w * 2 ^ (64 - w) ≡ 2 ^ 64 = pow_split w (64 - w) 64 (omega arith) in
    let count : min n 63 ≡ n = omega arith in
    let nested : u64 (v * 2 ^ n) % 2 ^ w ≡ (v * 2 ^ n) % 2 ^ w =
      rw (← split) (mod-mod_of_dvd (2 ^ w) (v * 2 ^ n) (dvd-mul_right (2 ^ w) (2 ^ (64 - w)))) in
    rw count (mask_lem w (u64 (v * 2 ^ n)) hw ∙ nested)

-- SHR is the quotient, also at counts past the width.
pub shr_arm_lem : (v n w flags : ℕ) → v < 2 ^ w → (shr_arm v n w flags).0 ≡ v / 2 ^ n
unfolding shr_arm
shr_arm_lem v n w flags hv = elim (Bool-cases (leb w n)) [
  | inl past ↦ rw past (
      sym (
        div-eq_of_lt
          (omega (arith, pow-le-pow_right {n = 2} (omega arith) {i = w} {j = n} (ground arith)))))
  | inr within ↦ rw within refl
]
