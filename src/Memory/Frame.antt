-- ===== src/Memory/Frame.antt =====
-- What writes to the low RAM of src/memory.rs leave alone: a byte elsewhere, the sizes, validity.
use cuddles.Base.{
  ℕ, zero, suc, ◌+◌, ◌^◌, ◌≤◌, ◌<◌, ◌≡◌, refl, ap, sym, ◌∙◌, ◌⊎◌, inl, inr, true, false, List, [],
  ◌∷◌, length, get_or, arith, u64, ◌==◌, Bool-cases, Option-cases, take, drop,
}
use cuddles.Memory.{
  Memory, slot, in_vga_text, read_u8, write_u8, write_u32, write_u64, load_from, load,
}
use cuddles.Memory.Layout.{IsValid}
use cuddles.Memory.Bytes.{read_u8-write_u8, write_u8-IsValid, writable}
use cuddles.Memory.Words.{
  IsPlain, with_bytes, with_bytes-IsValid, put_bytes-outside, write_u32-plain, write_u64-plain,
  read_u8-plain,
}

-- The memory `n` is valid, as large as `m`, and has the byte of `m` at `b`.
pub record IsKept (b : ℕ) (m n : Memory) : Type 0 where
  pub valid : IsValid n
  pub low : n.low_size ≡ m.low_size
  pub ram : n.ram_size ≡ m.ram_size
  pub same : read_u8 n b ≡ read_u8 m b

pub IsKept-refl : (b : ℕ) (m : Memory) → IsValid m → IsKept b m m
IsKept-refl b m v = record { valid = v; low = refl; ram = refl; same = refl }

pub IsKept-trans : (b : ℕ) (m n o : Memory) → IsKept b m n → IsKept b n o → IsKept b m o
IsKept-trans b m n o h k = record {
  valid = k.valid;
  low = k.low ∙ h.low;
  ram = k.ram ∙ h.ram;
  same = k.same ∙ h.same;
}

write_u8-sizes :
    (a val : ℕ) (m : Memory)
    → ((write_u8 a val m).low_size ≡ m.low_size) × ((write_u8 a val m).ram_size ≡ m.ram_size)
unfolding write_u8
write_u8-sizes a val m = elim (Bool-cases (in_vga_text a)) [
  | inl t ↦ rw t (refl, refl)
  | inr f ↦ elim (Option-cases (slot m a)) [
    | inl e ↦ rw (f, e) (refl, refl)
    | inr (i, e) ↦ rw (f, e) (refl, refl)
  ]
]

module _ (b : ℕ) (m : Memory) (v : IsValid m) where
  pub write_u8-IsKept :
      (a val : ℕ)
      → a < 2 ^ 64
      → b < 2 ^ 64
      → val < 2 ^ 8
      → (b < a) ⊎ (a < b)
      → IsKept b m (write_u8 a val m)
  write_u8-IsKept a val ha hb hv h =
      let other : (a == b) ≡ false = ground arith in
      record {
        valid = write_u8-IsValid a val m v hv;
        low = (write_u8-sizes a val m).0;
        ram = (write_u8-sizes a val m).1;
        same = read_u8-write_u8 a val b m v ha hb hv ∙ rw other refl;
      }

  with_bytes-IsKept :
      (k a val : ℕ) → IsPlain m b 1 → (b < a) ⊎ (a + k ≤ b) → IsKept b m (with_bytes m k a val)
  with_bytes-IsKept k a val p h =
      let valid = with_bytes-IsValid m k a val v in
      record {
        valid = valid;
        low = refl;
        ram = refl;
        same =
            read_u8-plain (with_bytes m k a val) valid b p
            ∙ put_bytes-outside k a val b m.cells h
            ∙ sym (read_u8-plain m v b p);
      }

  pub write_u32-IsKept :
      (a val : ℕ)
      → IsPlain m a 4
      → IsPlain m b 1
      → (b < a) ⊎ (a + 4 ≤ b)
      → IsKept b m (write_u32 a val m)
  write_u32-IsKept a val q p h = rw (write_u32-plain m v a val q) (with_bytes-IsKept 4 a val p h)

  pub write_u64-IsKept :
      (a val : ℕ)
      → IsPlain m a 8
      → IsPlain m b 1
      → (b < a) ⊎ (a + 8 ≤ b)
      → IsKept b m (write_u64 a val m)
  write_u64-IsKept a val q p h = rw (write_u64-plain m v a val q) (with_bytes-IsKept 8 a val p h)

-- A byte written to plain RAM.
pub write_u8-read :
    (m : Memory)
    → IsValid m
    → (a val : ℕ) → IsPlain m a 1
    → a < 2 ^ 64
    → val < 2 ^ 8
    → read_u8 (write_u8 a val m) a ≡ val
unfolding write_u8 slot
write_u8-read m v a val p ha hv =
    let same : (a == a) ≡ true = ground arith in
    let held : writable m a ≡ true = unfold slot in ground (arith, p.0) in
    read_u8-write_u8 a val a m v ha ha hv ∙ rw (same, held) refl

abbrev pub IsBytes : List ℕ → Type 0
IsBytes [] = Unit
IsBytes (x ∷ xs) = (x < 2 ^ 8) × IsBytes xs

pub take-IsBytes : (n : ℕ) (xs : List ℕ) → IsBytes xs → IsBytes (take n xs)
take-IsBytes zero xs h = tt
take-IsBytes (suc n) [] h = tt
take-IsBytes (suc n) (x ∷ xs) (h, hs) = (h, take-IsBytes n xs hs)

pub drop-IsBytes : (n : ℕ) (xs : List ℕ) → IsBytes xs → IsBytes (drop n xs)
drop-IsBytes zero xs h = h
drop-IsBytes (suc n) [] h = tt
drop-IsBytes (suc n) (x ∷ xs) (h, hs) = drop-IsBytes n xs hs

pub get_or-IsBytes : (xs : List ℕ) (i : ℕ) → IsBytes xs → get_or xs i 0 < 2 ^ 8
get_or-IsBytes [] i h = omega arith
get_or-IsBytes (x ∷ xs) zero (h, hs) = h
get_or-IsBytes (x ∷ xs) (suc i) (h, hs) = get_or-IsBytes xs i hs

-- The bytes of a list loaded from an address on; bytes outside of it stay.
load_from-IsKept :
    (b a i : ℕ) (xs : List ℕ) (m : Memory)
    → IsValid m
    → IsBytes xs
    → a + i + length xs < 2 ^ 64
    → b < 2 ^ 64
    → (b < a + i) ⊎ (a + i + length xs ≤ b)
    → IsKept b m (load_from a i xs m)
unfolding load_from
load_from-IsKept b a i [] m v h room hb apart = IsKept-refl b m v
load_from-IsKept b a i (x ∷ xs) m v (h, hs) room hb apart =
    let here : u64 (a + i) ≡ a + i = omega arith in
    let first = write_u8-IsKept b m v (a + i) x (omega arith) hb h (ground arith) in
    let rest =
      load_from-IsKept b a (i + 1) xs (write_u8 (a + i) x m) first.valid hs (omega arith) hb
        (ground arith) in
    rw here (IsKept-trans b m (write_u8 (a + i) x m) _ first rest)

load_from-read :
    (a i j : ℕ) (xs : List ℕ) (m : Memory)
    → IsValid m
    → IsBytes xs
    → a + i + length xs < 2 ^ 64
    → j < length xs
    → IsPlain m (a + i) (length xs)
    → read_u8 (load_from a i xs m) (a + i + j) ≡ get_or xs j 0
unfolding load_from
load_from-read a i j [] m v h room inside p = absurd (omega arith)
load_from-read a i zero (x ∷ xs) m v (h, hs) room inside p =
    let here : u64 (a + i) ≡ a + i = omega arith in
    let at : a + i + 0 ≡ a + i = omega arith in
    let q : IsPlain m (a + i) 1 = ground arith in
    let v1 = write_u8-IsValid (a + i) x m v h in
    let rest =
      load_from-IsKept (a + i) a (i + 1) xs (write_u8 (a + i) x m) v1 hs (omega arith) (omega arith)
        (inl (omega arith)) in
    rw (here, at) (rest.same ∙ write_u8-read m v (a + i) x q (omega arith) h)
load_from-read a i (suc j) (x ∷ xs) m v (h, hs) room inside p =
    let here : u64 (a + i) ≡ a + i = omega arith in
    let at : a + (i + 1) + j ≡ a + i + suc j = omega arith in
    let low = (write_u8-sizes (a + i) x m).0 in
    let q : IsPlain (write_u8 (a + i) x m) (a + (i + 1)) (length xs) = ground (arith, low) in
    let v1 = write_u8-IsValid (a + i) x m v h in
    rw here (
      rw (← at)
        (load_from-read a (i + 1) j xs (write_u8 (a + i) x m) v1 hs (omega arith) (omega arith) q))

pub load-IsKept :
    (b a : ℕ) (xs : List ℕ) (m : Memory)
    → IsValid m
    → IsBytes xs
    → a + length xs < 2 ^ 64
    → b < 2 ^ 64
    → (b < a) ⊎ (a + length xs ≤ b)
    → IsKept b m (load a xs m)
unfolding load
load-IsKept b a xs m v h room hb apart =
    load_from-IsKept b a 0 xs m v h (omega arith) hb (ground arith)

pub load-read :
    (a j : ℕ) (xs : List ℕ) (m : Memory)
    → IsValid m
    → IsBytes xs
    → a + length xs < 2 ^ 64
    → j < length xs
    → IsPlain m a (length xs)
    → read_u8 (load a xs m) (a + j) ≡ get_or xs j 0
unfolding load
load-read a j xs m v h room inside p =
    let at : a + 0 ≡ a = omega arith in
    let q : IsPlain m (a + 0) (length xs) = rw at p in
    ap (λ x. read_u8 (load_from a 0 xs m) (x + j)) (sym at)
    ∙ load_from-read a 0 j xs m v h (omega arith) inside q
