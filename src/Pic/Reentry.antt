-- ===== src/Pic/Reentry.antt =====
-- Lines in service hold back the lines below them in src/pic.rs.
use mathlib.Core.Path.{subst}
use cuddles.Base.{
  ℕ, ◌+◌, ◌-◌, ◌<◌, ◌≡◌, refl, sym, ◌∙◌, ap, true, none, some, List, [], ◌∷◌, ◌⊎◌, inl, inr, arith,
  ltb, if◌then◌else◌, Bool-cases,
}
use cuddles.Pic.{raise_irq, clear_irq, Pic, deliver, acknowledge, next_irq}
use cuddles.Pic.Scan.{blocks, wants, order, first_ready, next_irq-first_ready}
use cuddles.Pic.Valid.{
  Access, accesses, AreAccesses, accesses-IsValid, IsValid, acknowledge-IsValid,
}
use cuddles.Pic.Service.{All, next_irq_iff, testb-set_bit}

-- Where a line stands in the order of priority.
abbrev pub rank : ℕ → ℕ
rank l = if ltb l 2 then l else if ltb l 8 then l + 8 else l - 6

abbrev pub IsRanked : List ℕ → Type 0
IsRanked [] = Unit {0}
IsRanked (x ∷ xs) = All (λ y. rank x < rank y) xs × IsRanked xs

abbrev pub In : ℕ → List ℕ → Type 0
In l [] = ⊥
In l (x ∷ xs) = (l ≡ x) ⊎ In l xs

pub all_in : (P : ℕ → Type 0) (l : ℕ) (xs : List ℕ) → All P xs → In l xs → P l
all_in P l (x ∷ xs) h (inl e) = subst P (sym e) h.0
all_in P l (x ∷ xs) h (inr m) = all_in P l xs h.1 m
all_in P l [] h m = absurd m

pub first_ready-In : (p : Pic) (ls : List ℕ) (l : ℕ) → first_ready p ls ≡ some l → In l ls
unfolding first_ready
first_ready-In p [] l h = cc
first_ready-In p (x ∷ ls) l h = elim (Bool-cases (blocks p x)) [
  | inl b ↦ absurd (cc (rw b at h))
  | inr b ↦ elim (Bool-cases (wants p x)) [
    | inl w ↦ inl (ground arith)
    | inr w ↦ inr (first_ready-In p ls l (ground arith))
  ]
]

-- A line in service lets only lines of higher priority through.
pub below_blocked :
    (p : Pic) (ls : List ℕ) (l j : ℕ)
    → IsRanked ls
    → In l ls
    → blocks p l ≡ true
    → first_ready p ls ≡ some j
    → rank j < rank l
unfolding first_ready
below_blocked p [] l j r m b h = absurd m
below_blocked p (x ∷ ls) l j r (inl e) b h =
    let b' : blocks p x ≡ true = rw (← e) b in absurd (cc (rw b' at h))
below_blocked p (x ∷ ls) l j r (inr m) b h = elim (Bool-cases (blocks p x)) [
  | inl bx ↦ absurd (cc (rw bx at h))
  | inr bx ↦ elim (Bool-cases (wants p x)) [
    | inl w ↦
        let same : x ≡ j = ground arith in rw (← same) (all_in (λ y. rank x < rank y) l ls r.0 m)
    | inr w ↦ below_blocked p ls l j r.1 m b (ground arith)
  ]
]

pub order-IsRanked : IsRanked order
order-IsRanked = omega arith

-- The line just delivered is in service.
pub deliver-blocks :
    (p : Pic) (l : ℕ)
    → p.cascade_irq ≡ 2
    → l < 16
    → wants p l ≡ true
    → blocks (deliver p l).1 l ≡ true
unfolding deliver blocks wants
deliver-blocks p l c h w = elim (Bool-cases (ltb l 8)) [
  | inl low ↦ ground (arith, testb-set_bit p.master_isr l l)
  | inr high ↦ ground (arith, testb-set_bit p.slave_isr (l - 8) (l - 8))
]

pub acknowledge-none : (p : Pic) → next_irq p ≡ none → acknowledge p ≡ (none, p)
unfolding acknowledge
acknowledge-none p h = rw (h, acknowledge) refl

pub acknowledge-deliver : (p : Pic) (l : ℕ) → next_irq p ≡ some l → acknowledge p ≡ deliver p l
unfolding acknowledge
acknowledge-deliver p l h = rw (h, acknowledge)

pub next_irq-In : (p : Pic) (l : ℕ) → IsValid p → next_irq p ≡ some l → In l order
next_irq-In p l v h =
    first_ready-In p order l
      (sym (next_irq-first_ready p v.master_imr8 v.slave_imr8 v.cascaded) ∙ h)

pub order-lt : (l : ℕ) → In l order → l < 16
order-lt l m = all_in (λ y. y < 16) l order (omega arith) m

-- Devices that raise and drop lines of the pair.
abbrev pub AreRequests : List Access → Type 0
AreRequests [] = Unit {0}
AreRequests (Access.raise irq ∷ rest) = (irq < 16) × AreRequests rest
AreRequests (Access.clear irq ∷ rest) = (irq < 16) × AreRequests rest
AreRequests (a ∷ rest) = ⊥

pub requests-blocks :
    (acts : List Access) (p : Pic) (l : ℕ)
    → AreRequests acts
    → blocks (accesses acts p) l ≡ blocks p l
unfolding blocks raise_irq clear_irq
requests-blocks [] p l h = refl
requests-blocks (Access.raise irq ∷ rest) p l h =
    requests-blocks rest (raise_irq irq p) l h.1 ∙ ground arith
requests-blocks (Access.clear irq ∷ rest) p l h =
    requests-blocks rest (clear_irq irq p) l h.1 ∙ ground arith
requests-blocks (Access.command port val ∷ rest) p l h = absurd h
requests-blocks (Access.mask_or_base port val ∷ rest) p l h = absurd h
requests-blocks (Access.acknowledged ∷ rest) p l h = absurd h

pub requests-AreAccesses : (acts : List Access) → AreRequests acts → AreAccesses acts
requests-AreAccesses [] h = tt
requests-AreAccesses (Access.raise irq ∷ rest) h = (h.0, requests-AreAccesses rest h.1)
requests-AreAccesses (Access.clear irq ∷ rest) h = (h.0, requests-AreAccesses rest h.1)
requests-AreAccesses (Access.command port val ∷ rest) h = absurd h
requests-AreAccesses (Access.mask_or_base port val ∷ rest) h = absurd h
requests-AreAccesses (Access.acknowledged ∷ rest) h = absurd h

-- In a valid pair, after the line `l` is delivered and whatever lines devices raise and drop then,
-- with no command and no further acknowledge between, the line chosen next is of strictly higher
-- priority than `l`.
pub acknowledge_no_reentry :
    (acts : List Access) (p : Pic) (l j : ℕ)
    → IsValid p
    → AreRequests acts
    → next_irq p ≡ some l
    → next_irq (accesses acts (acknowledge p).1) ≡ some j
    → rank j < rank l
acknowledge_no_reentry acts p l j v reqs h again =
    let m = next_irq-In p l v h in
    let took : (acknowledge p).1 ≡ (deliver p l).1 = ap (λ r. r.1) (acknowledge-deliver p l h) in
    let w = ((next_irq_iff p l v).0 h).wanted in
    let held = requests-blocks acts (acknowledge p).1 l reqs in
    let q = accesses acts (acknowledge p).1 in
    let v' = accesses-IsValid acts (requests-AreAccesses acts reqs) (acknowledge-IsValid v) in
    let scan = next_irq-first_ready q v'.master_imr8 v'.slave_imr8 v'.cascaded in
    below_blocked q order l j order-IsRanked m
      (held ∙ rw took (deliver-blocks p l v.cascaded (order-lt l m) w)) (sym scan ∙ again)
