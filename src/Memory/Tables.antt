-- ===== src/Memory/Tables.antt =====
-- Tables of 64-bit entries in plain RAM: what the loops that fill them with `write_u64` leave there.
use cuddles.Base.{
  ℕ, zero, suc, ◌+◌, ◌*◌, ◌^◌, ◌≤◌, ◌<◌, ◌≡◌, refl, sym, ◌∙◌, ◌⊎◌, inl, inr, arith, ◌==◌,
  Bool-cases, ==_iff,
}
use cuddles.Memory.{Memory, read_u64, write_u64, from_le_bytes}
use cuddles.Memory.Layout.{IsValid}
use cuddles.Memory.Words.{
  IsPlain, with_bytes, with_bytes-IsValid, put_bytes-outside, from_le-put, write_u64-plain,
  read_u64-plain,
}

-- Two ranges of `n` and of eight bytes have none in common.
abbrev pub IsApart : ℕ → ℕ → ℕ → Type 0
IsApart a n b = (a + n ≤ b) ⊎ (b + 8 ≤ a)

pub from_le-outside :
    (m : Memory) (n a val k b : ℕ)
    → (b + k ≤ a) ⊎ (a + n ≤ b)
    → from_le_bytes (with_bytes m n a val) k b ≡ from_le_bytes m k b
unfolding from_le_bytes
from_le-outside m n a val zero b h = refl
from_le-outside m n a val (suc k) b h =
    let here = put_bytes-outside n a val b m.cells in
    let rest = from_le-outside m n a val k (b + 1) in ground (arith, here, rest)

module _ (m : Memory) (v : IsValid m) (a val : ℕ) (p : IsPlain m a 8) where
  pub write_u64-IsValid : IsValid (write_u64 a val m)
  write_u64-IsValid = rw (write_u64-plain m v a val p) (with_bytes-IsValid m 8 a val v)

  pub write_u64-low_size : (write_u64 a val m).low_size ≡ m.low_size
  write_u64-low_size = rw (write_u64-plain m v a val p) refl

  pub read_u64-write_u64 : val < 2 ^ 64 → read_u64 (write_u64 a val m) a ≡ val
  read_u64-write_u64 small = rw (write_u64-plain m v a val p) (
      read_u64-plain (with_bytes m 8 a val) (with_bytes-IsValid m 8 a val v) a p
      ∙ from_le-put m 8 a val m.cells (omega arith))

  pub read_u64-write_u64_apart :
      (b : ℕ) → IsPlain m b 8 → IsApart a 8 b → read_u64 (write_u64 a val m) b ≡ read_u64 m b
  read_u64-write_u64_apart b q h = rw (write_u64-plain m v a val p) (
      read_u64-plain (with_bytes m 8 a val) (with_bytes-IsValid m 8 a val v) b q
      ∙ from_le-outside m 8 a val 8 b (ground arith)
      ∙ sym (read_u64-plain m v b q))

-- `for i in i..i + left { mem.write_u64(base + i * 8, f(i)) }`.
unfoldable pub write_table : ℕ → ℕ → ℕ → (ℕ → ℕ) → Memory → Memory
write_table zero i base f m = m
write_table (suc left) i base f m =
    write_table left (i + 1) base f (write_u64 (base + i * 8) (f i) m)

-- A table that lies in plain RAM: the memory stays valid, with as much of it low, ...
pub write_table-IsValid :
    (left i base : ℕ) (f : ℕ → ℕ) (m : Memory)
    → IsValid m
    → IsPlain m (base + i * 8) (left * 8)
    → IsValid (write_table left i base f m) × ((write_table left i base f m).low_size ≡ m.low_size)
unfolding write_table
write_table-IsValid zero i base f m v p = (v, refl)
write_table-IsValid (suc left) i base f m v p =
    let here : IsPlain m (base + i * 8) 8 = ground arith in
    let m' = write_u64 (base + i * 8) (f i) m in
    let low = write_u64-low_size m v (base + i * 8) (f i) here in
    let next =
      write_table-IsValid left (i + 1) base f m' (write_u64-IsValid m v (base + i * 8) (f i) here)
        (rw low (ground arith)) in
    (next.0, next.1 ∙ low)

-- ... what lies apart from it is kept, ...
pub read_u64-write_table_apart :
    (left i base : ℕ) (f : ℕ → ℕ) (m : Memory) (b : ℕ)
    → IsValid m
    → IsPlain m (base + i * 8) (left * 8)
    → IsPlain m b 8
    → IsApart (base + i * 8) (left * 8) b
    → read_u64 (write_table left i base f m) b ≡ read_u64 m b
unfolding write_table
read_u64-write_table_apart zero i base f m b v p q h = refl
read_u64-write_table_apart (suc left) i base f m b v p q h =
    let here : IsPlain m (base + i * 8) 8 = ground arith in
    let low = write_u64-low_size m v (base + i * 8) (f i) here in
    read_u64-write_table_apart left (i + 1) base f (write_u64 (base + i * 8) (f i) m) b
      (write_u64-IsValid m v (base + i * 8) (f i) here) (rw low (ground arith)) (rw low q)
      (ground arith)
    ∙ read_u64-write_u64_apart m v (base + i * 8) (f i) here b q (ground arith)

-- ... and each entry is there.
pub read_u64-write_table :
    (left i base : ℕ) (f : ℕ → ℕ) (m : Memory) (k : ℕ)
    → IsValid m
    → IsPlain m (base + i * 8) (left * 8)
    → f k < 2 ^ 64
    → i ≤ k
    → k < i + left
    → read_u64 (write_table left i base f m) (base + k * 8) ≡ f k
unfolding write_table
read_u64-write_table zero i base f m k v p small lo hi = absurd (omega arith)
read_u64-write_table (suc left) i base f m k v p small lo hi =
    let here : IsPlain m (base + i * 8) 8 = ground arith in
    let low = write_u64-low_size m v (base + i * 8) (f i) here in
    let v' = write_u64-IsValid m v (base + i * 8) (f i) here in
    let p' : IsPlain (write_u64 (base + i * 8) (f i) m) (base + (i + 1) * 8) (left * 8) =
      rw low (ground arith) in
    elim (Bool-cases (i == k)) [
      | inl same ↦ rw (sym ((==_iff i k).0 same)) (
          read_u64-write_table_apart left (i + 1) base f (write_u64 (base + i * 8) (f i) m)
            (base + i * 8) v' p' (rw low here) (inr (omega arith))
          ∙ read_u64-write_u64 m v (base + i * 8) (f i) here (rw ((==_iff i k).0 same) small))
      | inr later ↦
          read_u64-write_table left (i + 1) base f (write_u64 (base + i * 8) (f i) m) k v' p' small
            (ground arith) (ground arith)
    ]
