-- ===== src/Pic/Service.antt =====
-- Which line src/pic.rs chooses, and what setting and clearing a bit does.
use cuddles.Base.{
  ℕ, ◌^◌, ◌<◌, ◌≡◌, refl, sym, ◌∙◌, ap, true, false, not, ◌&&◌, ◌||◌, some, List, [], ◌∷◌, ◌++◌,
  inl, inr, ◌↔◌, arith, ◌==◌, testb, testb-bit_and, testb-bit_or, testb-bit_not, testb-pow,
  testb_ext, Bool-cases, ◌<<<◌, u8, holds_under, holds_under_lem, ==_iff,
}
use cuddles.Pic.{Pic, set_bit, clear_bit, next_irq}
use cuddles.Pic.Scan.{blocks, wants, order, first_ready, next_irq-first_ready}
use cuddles.Pic.Valid.{IsValid, set_bit-lt, clear_bit-lt}

abbrev pub All : (ℕ → Type 0) → List ℕ → Type 0
All P [] = Unit {0}
All P (x ∷ xs) = P x × All P xs

-- Line `l` of the list `ls` is the one to deliver: it is requested, unmasked and not in service,
-- and no line ahead of it is in service or has such a request.
pub record IsChosen (p : Pic) (ls : List ℕ) (l : ℕ) : Type 0 where
  pub ahead : List ℕ
  pub behind : List ℕ
  pub split : ls ≡ ahead ++ l ∷ behind
  pub idle : All (λ j. (blocks p j ≡ false) × (wants p j ≡ false)) ahead
  pub free : blocks p l ≡ false
  pub wanted : wants p l ≡ true

pub first_ready-IsChosen :
    (p : Pic) (ls : List ℕ) (l : ℕ) → first_ready p ls ≡ some l → IsChosen p ls l
unfolding first_ready
first_ready-IsChosen p [] l h = cc
first_ready-IsChosen p (x ∷ ls) l h = elim (Bool-cases (blocks p x)) [
  | inl b ↦ absurd (cc (rw b at h))
  | inr b ↦ elim (Bool-cases (wants p x)) [
    | inl w ↦
        let same : x ≡ l = ground arith in
        record {
          ahead = [];
          behind = ls;
          split = ap (λ k. k ∷ ls) same;
          idle = tt;
          free = rw same at b;
          wanted = rw same at w;
        }
    | inr w ↦
        let later : first_ready p ls ≡ some l = ground arith in
        let r = first_ready-IsChosen p ls l later in
        record {
          ahead = x ∷ r.ahead;
          behind = r.behind;
          split = ap (λ k. x ∷ k) r.split;
          idle = ((b, w), r.idle);
          free = r.free;
          wanted = r.wanted;
        }
  ]
]

pub skip_idle :
    (p : Pic) (ahead behind : List ℕ) (l : ℕ)
    → All (λ j. (blocks p j ≡ false) × (wants p j ≡ false)) ahead
    → blocks p l ≡ false
    → wants p l ≡ true
    → first_ready p (ahead ++ l ∷ behind) ≡ some l
unfolding first_ready
skip_idle p [] behind l idle b w = rw (b, w)
skip_idle p (x ∷ ahead) behind l idle b w =
    rw (idle.0.0, idle.0.1) (skip_idle p ahead behind l idle.1 b w)

-- The pair delivers exactly the line that fixed priority chooses: IRQ0, IRQ1, the slave's IRQ8 to
-- IRQ15, the cascade line, IRQ3 to IRQ7.
pub next_irq_iff : (p : Pic) (l : ℕ) → IsValid p → (next_irq p ≡ some l) ↔ IsChosen p order l
next_irq_iff p l v =
    let scan = next_irq-first_ready p v.master_imr8 v.slave_imr8 v.cascaded in
    (
      λ h. first_ready-IsChosen p order l (sym scan ∙ h),
      λ c.
          scan ∙ ap (first_ready p) c.split ∙ skip_idle p c.ahead c.behind l c.idle c.free c.wanted,
    )

pub testb-set_bit : (v i k : ℕ) → i < 8 → testb (set_bit v i) k ≡ testb v k || (i == k)
unfolding set_bit
testb-set_bit v i k h =
    let bit : u8 (1 <<< i) ≡ 2 ^ i =
      (==_iff _ _).0
        (holds_under_lem (λ i. u8 (1 <<< i) == 2 ^ i) 8 i h (unfold holds_under in refl)) in
    rw (bit, testb-bit_or, testb-pow)

pub testb-clear_bit :
    (v i k : ℕ) → i < 8 → k < 8 → testb (clear_bit v i) k ≡ testb v k && not (i == k)
unfolding clear_bit
testb-clear_bit v i k h hk =
    let bit : u8 (1 <<< i) ≡ 2 ^ i =
      (==_iff _ _).0
        (holds_under_lem (λ i. u8 (1 <<< i) == 2 ^ i) 8 i h (unfold holds_under in refl)) in
    let small : 2 ^ i < 2 ^ 8 = rw (← bit) (omega arith) in
    rw (bit, testb-bit_and, testb-bit_not 8 (2 ^ i) k small hk, testb-pow)

-- Setting a clear bit and clearing it again changes nothing.
pub clear_bit-set_bit :
    (v i : ℕ) → v < 2 ^ 8 → i < 8 → testb v i ≡ false → clear_bit (set_bit v i) i ≡ v
clear_bit-set_bit v i hv hi off = testb_ext 8 _ v (clear_bit-lt _ i (set_bit-lt v i hv)) hv λ k hk.
    elim (Bool-cases (i == k)) [
      | inl e ↦
          rw (testb-clear_bit _ i k hi hk, e) (ground (arith, off, ap (testb v) ((==_iff i k).0 e)))
      | inr e ↦ rw (testb-clear_bit _ i k hi hk, testb-set_bit v i k hi, e) (ground arith)
    ]
