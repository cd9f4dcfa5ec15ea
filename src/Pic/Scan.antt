-- ===== src/Pic/Scan.antt =====
-- What `next_irq` of src/pic.rs decides, as one pass over the fifteen lines in priority order.
use native.Mathlib.Nat.{pow-le-pow_right}
use cuddles.Base.{
  ℕ, zero, suc, ◌+◌, ◌-◌, ◌^◌, ◌≤◌, ◌<◌, ◌≡◌, refl, Bool, true, false, not, ◌&&◌, Option, none,
  some, List, [], ◌∷◌, ◌++◌, ◌≢◌, inl, inr, arith, bit_and, ◌==◌, ltb, if◌then◌else◌, has_bits,
  bit_not, testb, testb-bit_and, testb-bit_not, has_bits-pow, Bool-cases, ◌<<<◌, u8,
}
use cuddles.Pic.{Pic, slave_walk, master_step, master_walk, next_irq, or_else}

-- A request that the mask lets through, on one PIC.
abbrev pub open_request : ℕ → ℕ → ℕ → Bool
open_request irr imr k = testb irr k && not (testb imr k)

-- The line is in service, where its PIC is visible. The slave is behind the master's line 2.
unfoldable pub blocks : Pic → ℕ → Bool
blocks p l =
    if ltb l 8
    then testb p.master_isr l
    else not (testb p.master_imr 2) && testb p.slave_isr (l - 8)

-- The line is requested and unmasked. The cascade line itself delivers nothing.
unfoldable pub wants : Pic → ℕ → Bool
wants p l =
    if l == 2
    then false
    else if ltb l 8
    then open_request p.master_irr p.master_imr l
    else not (testb p.master_imr 2) && open_request p.slave_irr p.slave_imr (l - 8)

abbrev pub upto : ℕ → ℕ → List ℕ
upto zero i = []
upto (suc n) i = i ∷ upto n (i + 1)

-- IRQ0 and IRQ1, the slave's lines, the cascade line, and IRQ3 to IRQ7.
abbrev pub order : List ℕ
order = 0 ∷ 1 ∷ (upto 8 8 ++ 2 ∷ upto 5 3)

-- The first line that wants an interrupt, unless a line in service comes before it or is it.
abbrev pub ready_step : Pic → ℕ → Option ℕ → Option ℕ
ready_step p l rest = if blocks p l then none else if wants p l then some l else rest

unfoldable pub first_ready : Pic → List ℕ → Option ℕ
first_ready p [] = none
first_ready p (l ∷ ls) = ready_step p l (first_ready p ls)

testb-open :
    (irr imr k : ℕ)
    → imr < 2 ^ 8
    → k < 8
    → testb (bit_and irr (bit_not 8 imr)) k ≡ open_request irr imr k
testb-open irr imr k hm hk = rw (testb-bit_and, testb-bit_not 8 imr k hm hk)

shifted_one : (k : ℕ) → 1 <<< k ≡ 2 ^ k
shifted_one k = omega arith

has_bits-shift : (x k : ℕ) → has_bits x (1 <<< k) ≡ testb x k
has_bits-shift x k = rw shifted_one (has_bits-pow x k)

-- No line above 2 has the cascade line's bit.
cascade_only : (i : ℕ) → 3 ≤ i → (1 <<< i == 4) ≡ false
cascade_only i h =
    let large : 2 ^ 3 ≤ 2 ^ i = pow-le-pow_right (omega arith) h in ground (arith, large)

module _ (p : Pic) (imr8 : p.master_imr < 2 ^ 8) (simr8 : p.slave_imr < 2 ^ 8) where
  slave_walk-visible :
      (left j : ℕ) (ls : List ℕ)
      → testb p.master_imr 2 ≡ false
      → left + j ≤ 8
      → or_else
          (slave_walk left j p.slave_isr (bit_and p.slave_irr (bit_not 8 p.slave_imr)))
          (first_ready p ls)
        ≡ first_ready p (upto left (8 + j) ++ ls)
  unfolding slave_walk first_ready blocks wants
  slave_walk-visible zero j ls vis h = refl
  slave_walk-visible (suc left) j ls vis h =
      let line : 8 + j - 8 ≡ j = omega arith in
      let next : 8 + (j + 1) ≡ 8 + j + 1 = omega arith in
      let ih = slave_walk-visible left (j + 1) ls vis (omega arith) in
      let ih' = rw next at ih in
      ground (
        arith,
        line,
        ih',
        has_bits-shift p.slave_isr j,
        has_bits-shift (bit_and p.slave_irr (bit_not 8 p.slave_imr)) j,
        testb-open p.slave_irr p.slave_imr j simr8,
      )

  slave_walk-masked :
      (left j : ℕ) (ls : List ℕ)
      → testb p.master_imr 2 ≡ true
      → first_ready p (upto left (8 + j) ++ ls) ≡ first_ready p ls
  unfolding first_ready blocks wants
  slave_walk-masked zero j ls hidden = refl
  slave_walk-masked (suc left) j ls hidden =
      let next : 8 + (j + 1) ≡ 8 + j + 1 = omega arith in
      let ih = slave_walk-masked left (j + 1) ls hidden in
      let ih' = rw next at ih in ground (arith, ih')

  -- A round of the master's walk at a line other than the cascade's.
  master_step-line :
      (i : ℕ) (rest : Option ℕ)
      → i < 8
      → i ≢ 2
      → (1 <<< i == u8 (1 <<< p.cascade_irq)) ≡ false
      → master_step p i rest ≡ ready_step p i rest
  unfolding master_step blocks wants
  master_step-line i rest h ne other =
      let pend = has_bits-shift (bit_and p.master_irr (bit_not 8 p.master_imr)) i in
      let opened = testb-open p.master_irr p.master_imr i imr8 h in
      rw (other, has_bits-shift p.master_isr i, pend, opened) (ground arith)

  module _ (c : p.cascade_irq ≡ 2) where
    master_walk-low :
        (left i : ℕ) → 3 ≤ i → left + i ≤ 8 → master_walk p left i ≡ first_ready p (upto left i)
    unfolding master_walk first_ready
    master_walk-low zero i lo hi = refl
    master_walk-low (suc left) i lo hi =
        rw (master_walk-low left (i + 1) (omega arith) (omega arith))
          (master_step-line i _ (omega arith) (omega arith) (rw c (cascade_only i lo)))

    -- The round at the cascade line: the slave's lines, and then the line itself.
    master_step-cascade :
        (ls : List ℕ) → master_step p 2 (first_ready p ls) ≡ first_ready p (upto 8 8 ++ 2 ∷ ls)
    master_step-cascade ls = elim (Bool-cases (testb p.master_imr 2)) [
      | inl hidden ↦ rw (slave_walk-masked 8 0 (2 ∷ ls) hidden) (masked_round hidden)
      | inr vis ↦ rw (← slave_walk-visible 8 0 (2 ∷ ls) vis (omega arith)) (visible_round vis)
    ]
      where
        masked_round :
            testb p.master_imr 2 ≡ true
            → master_step p 2 (first_ready p ls) ≡ first_ready p (2 ∷ ls)
        masked_round hidden =
            unfold master_step first_ready blocks wants in
            rw c (ground (arith, hidden, has_bits-pow p.master_imr 2, has_bits-pow p.master_isr 2))

        visible_round :
            testb p.master_imr 2 ≡ false
            → master_step p 2 (first_ready p ls)
              ≡ or_else
                  (slave_walk 8 0 p.slave_isr (bit_and p.slave_irr (bit_not 8 p.slave_imr)))
                  (first_ready p (2 ∷ ls))
        visible_round vis =
            unfold master_step first_ready blocks wants in
            rw c (ground (arith, vis, has_bits-pow p.master_imr 2, has_bits-pow p.master_isr 2))

    -- Where both masks are bytes and the cascade line is 2, the nested loops of `next_irq` give
    -- the first line of the priority order that is requested and unmasked, unless a line in
    -- service stands before it.
    pub next_irq-first_ready : next_irq p ≡ first_ready p order
    unfolding next_irq master_walk
    next_irq-first_ready =
        rw (master_walk-low 5 3 (omega arith) (omega arith), master_step-cascade (upto 5 3))
          (top_lines (upto 8 8 ++ 2 ∷ upto 5 3))
      where
        top_lines :
            (ls : List ℕ)
            → master_step p 0 (master_step p 1 (first_ready p ls)) ≡ first_ready p (0 ∷ 1 ∷ ls)
        top_lines ls =
            unfold first_ready in
            rw (
              master_step-line 1 (first_ready p ls) (omega arith) (omega arith) (rw c refl),
              master_step-line 0 (ready_step p 1 (first_ready p ls)) (omega arith) (omega arith)
                  (rw c refl),
            )
