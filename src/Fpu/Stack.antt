-- ===== src/Fpu/Stack.antt =====
-- The register stack of src/fpu.rs.
use cuddles.Base.{
  ℕ, ◌+◌, ◌%◌, ◌^◌, ◌<◌, ◌≡◌, refl, ◌∙◌, Bool, true, false, not, ◌&&◌, ◌||◌, bit_or, bit_and,
  bit_not, ◌==◌, ◌<<<◌, arith, testb, testb-bit_and, testb-bit_or, testb-bit_not, testb-pow, pow_lt,
}
use cuddles.Fpu.{Fpu, push, pop, st_i}

-- A register is empty if its bit of the tag word is set.
abbrev pub is_empty : Fpu → ℕ → Bool
is_empty f i = testb f.tag ((f.top + i) % 8)

-- Clearing and setting one bit of the tag word.
tag_cleared :
    (tag a b : ℕ)
    → a < 8
    → b < 8
    → testb (bit_and tag (bit_not 16 (1 <<< a))) b ≡ (testb tag b && not (a == b))
tag_cleared tag a b ha hb =
    let one : 1 <<< a ≡ 2 ^ a = omega arith in
    let bit = testb-bit_not 16 (2 ^ a) b (pow_lt a 16 (omega arith)) (omega arith) in
    rw one (testb-bit_and tag (bit_not 16 (2 ^ a)) b ∙ rw (bit, testb-pow a b) refl)

tag_set : (tag a b : ℕ) → testb (bit_or tag (1 <<< a)) b ≡ (testb tag b || a == b)
tag_set tag a b =
    let one : 1 <<< a ≡ 2 ^ a = omega arith in
    rw one (testb-bit_or tag (2 ^ a) b ∙ rw (testb-pow a b) refl)

module _ (v : ℕ) (f : Fpu) (i : ℕ) (h : f.top < 8) (small : i < 7) where
  next_index : ((f.top + 7) % 8 + (i + 1)) % 8 ≡ (f.top + i) % 8
  next_index = omega arith

  pub push_lem :
      let g = push v f in
      (g.top < 8)
      × (st_i g 0 ≡ v)
      × (is_empty g 0 ≡ false)
      × (st_i g (i + 1) ≡ st_i f i)
      × (is_empty g (i + 1) ≡ is_empty f i)
  unfolding push st_i
  push_lem =
      let t = (f.top + 7) % 8 in
      let top_bit = tag_cleared f.tag t ((t + 0) % 8) (omega arith) (omega arith) in
      let bit = tag_cleared f.tag t ((t + (i + 1)) % 8) (omega arith) (omega arith) in
      (
        omega arith,
        ground arith,
        top_bit ∙ ground arith,
        ground arith,
        bit ∙ ground (arith, next_index),
      )

  -- With the stack pointer below 8, a pop after a push of any value restores the stack pointer,
  -- and the value and tag of each of the seven registers from the top; the eighth is empty.
  pub pop-push :
      let g = pop (push v f) in
      (g.top ≡ f.top)
      × (st_i g i ≡ st_i f i)
      × (is_empty g i ≡ is_empty f i)
      × (is_empty g 7 ≡ true)
  unfolding push pop st_i
  pop-push =
      let t = (f.top + 7) % 8 in
      let cleared = bit_and f.tag (bit_not 16 (1 <<< t)) in
      let back : (t + 1) % 8 ≡ f.top = omega arith in
      let bit = λ (j : ℕ). tag_set cleared t (((t + 1) % 8 + j) % 8) in
      let kept = tag_cleared f.tag t (((t + 1) % 8 + i) % 8) (omega arith) (omega arith) in
      (back, ground arith, bit i ∙ ground (arith, kept, back), bit 7 ∙ ground arith)
