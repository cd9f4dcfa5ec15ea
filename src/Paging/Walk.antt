-- ===== src/Paging/Walk.antt =====
-- A description of page-table walks that the three structures of src/paging.rs share: a list of
-- levels, each with the bits of the address that it translates.
use native.Mathlib.Nat.{one-le-pow, div-add-mod', div-lt_iff_lt-mul, mod-lt, mul-le-mul_right}
use cuddles.Base.{
  ◌≤◌, pow_add, if_both, ap, ◌∙◌, ℕ, ◌+◌, ◌-◌, ◌*◌, ◌/◌, ◌%◌, ◌^◌, ◌<◌, ◌≡◌, Bool, true, false, not,
  ◌&&◌, ◌||◌, Option, none, some, List, [], ◌∷◌, ◌++◌, if◌then◌else◌, testb, length, take, arith,
}
use cuddles.Paging.{Mapping}

-- Above `shift`, `bits` bits of the address choose an entry; an entry may map a page of `2 ^ shift`
-- bytes if `large`, and takes part in the permissions if `counts`.
pub record Level : Type 0 where
  pub shift : ℕ
  pub bits : ℕ
  pub large : Bool
  pub counts : Bool

-- What the walk reads, how wide an entry and a physical address are, and whether bit 63 forbids execution.
pub record Structure : Type 0 where
  pub entry_at : ℕ → ℕ
  pub width : ℕ
  pub phys_bits : ℕ
  pub no_execute : Bool

-- The permissions so far, and the addresses of the entries read, outermost first.
pub record Progress : Type 0 where
  pub writable : Bool
  pub user : Bool
  pub no_exec : Bool
  pub read : List ℕ

abbrev pub start : Progress
start = record { writable = true; user = true; no_exec = false; read = [] }

abbrev pub extend : Level → ℕ → ℕ → Progress → Progress
extend l addr e t = record {
  writable = t.writable && (not l.counts || testb e 1);
  user = t.user && (not l.counts || testb e 2);
  no_exec = t.no_exec || l.counts && testb e 63;
  read = t.read ++ addr ∷ [];
}

-- The bits of an entry from `shift` up to the width of a physical address.
abbrev pub frame : Structure → ℕ → ℕ → ℕ
frame s shift e = e % 2 ^ s.phys_bits / 2 ^ shift * 2 ^ shift

abbrev pub page : Structure → ℕ → ℕ → ℕ → Progress → Mapping
page s shift linear e t = record {
  phys = frame s shift e + linear % 2 ^ shift;
  writable = t.writable;
  user = t.user;
  exec = not (s.no_execute && t.no_exec);
  walk = take 4 (t.read ++ 0 ∷ 0 ∷ 0 ∷ 0 ∷ []);
  walk_len = length t.read;
  entry_bytes = s.width;
}

abbrev is_last : List Level → Bool
is_last [] = true
is_last (l ∷ rest) = false

-- At an entry, with the walk from the table that it names.
abbrev pub step :
    Structure → ℕ → Level → List Level → ℕ → Progress → Option Mapping → Option Mapping
step s linear l rest e t below =
    if not (testb e 0)
    then none
    else if is_last rest || l.large && testb e 7
    then some (page s l.shift linear e t)
    else below

-- The address of the entry in the table at `base`.
abbrev pub entry_addr : Structure → ℕ → Level → ℕ → ℕ
entry_addr s linear l base = base + linear / 2 ^ l.shift % 2 ^ l.bits * s.width

-- From the table at `base`.
unfoldable pub walk : Structure → ℕ → List Level → ℕ → Progress → Option Mapping
walk s linear [] base t = none
walk s linear (l ∷ rest) base t =
    let addr = entry_addr s linear l base in
    let e = s.entry_at addr in
    let t' = extend l addr e t in step s linear l rest e t' (walk s linear rest (frame s 12 e) t')

-- The levels translate at least the 12 bits of an offset, and no more bits than a frame has.
abbrev pub Fits : Structure → List Level → Type 0
Fits s [] = Unit
Fits s (l ∷ rest) = (12 ≤ l.shift) × (l.shift ≤ s.phys_bits) × Fits s rest

-- A page keeps the offset, and lies within the physical address space.
abbrev pub Lands : Structure → ℕ → Option Mapping → Type 0
Lands s linear none = Unit
Lands s linear (some m) = (m.phys % 2 ^ 12 ≡ linear % 2 ^ 12) × (m.phys < 2 ^ s.phys_bits)

multiple : (q a size : ℕ) → a * 2 ^ 12 ≡ size → q * size ≡ (q * a) * 4096
multiple q a size h = grind (arith, ap (λ (t : ℕ). q * t) h)

q_next : (q d : ℕ) → q < d → q + 1 ≤ d
q_next q d h = omega arith

last_block : (q d size r total : ℕ) → q < d → r < size → d * size ≡ total → q * size + r < total
last_block q d size r total hq hr h = grind (arith, mul-le-mul_right size (q_next q d hq))

page-Lands :
    (s : Structure) (shift linear e : ℕ) (t : Progress)
    → 12 ≤ shift
    → shift ≤ s.phys_bits
    → Lands s linear (some (page s shift linear e t))
page-Lands s shift linear e t lo hi =
    let size = 2 ^ shift in
    let large : 2 ^ (shift - 12) * 2 ^ 12 ≡ size =
      pow_add (shift - 12) 12 ∙ ap (λ (k : ℕ). 2 ^ k) {x = shift - 12 + 12} (omega arith) in
    let whole : 2 ^ (s.phys_bits - shift) * size ≡ 2 ^ s.phys_bits =
      pow_add (s.phys_bits - shift) shift
      ∙ ap (λ (k : ℕ). 2 ^ k) {x = s.phys_bits - shift + shift} (omega arith) in
    let q = e % 2 ^ s.phys_bits / size in
    let r = linear % size in
    let size_pos : 0 < size = one-le-pow shift 2 (omega arith) in
    let split : linear / size * size + r ≡ linear = div-add-mod' linear size in
    let below : q < 2 ^ (s.phys_bits - shift) =
      (div-lt_iff_lt-mul size_pos).1
        (rw whole (mod-lt e (one-le-pow s.phys_bits 2 (omega arith)))) in
    (
      omega (
        arith,
        split,
        multiple q (2 ^ (shift - 12)) size large,
        multiple (linear / size) (2 ^ (shift - 12)) size large,
      ),
      last_block q (2 ^ (s.phys_bits - shift)) size r (2 ^ s.phys_bits) below
          (mod-lt linear size_pos) whole,
    )

step-Lands :
    (s : Structure) (linear : ℕ) (l : Level) (rest : List Level) (e : ℕ) (t : Progress)
    (below : Option Mapping)
    → 12 ≤ l.shift
    → l.shift ≤ s.phys_bits
    → Lands s linear below
    → Lands s linear (step s linear l rest e t below)
step-Lands s linear l rest e t below lo hi ok =
    let here = page s l.shift linear e t in
    let is_page = is_last rest || l.large && testb e 7 in
    if_both (Lands s linear) (not (testb e 0)) {yes = none}
      {no = if is_page then some here else below} tt
      (if_both (Lands s linear) is_page {yes = some here} {no = below}
        (page-Lands s l.shift linear e t lo hi) ok)

-- Whatever the tables hold, a walk that succeeds keeps the offset in the page and gives an address
-- within the physical address space.
pub walk-Lands :
    (s : Structure) (linear : ℕ) (levels : List Level) (base : ℕ) (t : Progress)
    → Fits s levels
    → Lands s linear (walk s linear levels base t)
unfolding walk
walk-Lands s linear [] base t ok = tt
walk-Lands s linear (l ∷ rest) base t (lo, hi, ok) =
    let e = s.entry_at (entry_addr s linear l base) in
    let t' = extend l (entry_addr s linear l base) e t in
    step-Lands s linear l rest e t' (walk s linear rest (frame s 12 e) t') lo hi
      (walk-Lands s linear rest (frame s 12 e) t' ok)
