-- ===== src/Boot/Tables.antt =====
-- The tables that `build_identity_map` of src/boot.rs leaves in memory.
use cuddles.Base.{
  ℕ, zero, suc, ◌+◌, ◌*◌, ◌^◌, ◌≤◌, ◌<◌, ◌≡◌, refl, sym, ◌∙◌, inl, inr, true, bit_or, ◌==◌, ==_iff,
  ltb, if◌then◌else◌, arith, bit_or_fields, bit_or_shifted, Bool-cases, bit_or-zero,
}
use cuddles.Memory.{Memory, read_u64, write_u64}
use cuddles.Memory.Layout.{IsValid}
use cuddles.Memory.Words.{IsPlain}
use cuddles.Memory.Tables.{
  write_table, write_table-IsValid, read_u64-write_table, read_u64-write_table_apart,
  write_u64-IsValid, read_u64-write_u64, read_u64-write_u64_apart,
}
use cuddles.Boot.LongMode.{
  build_identity_map, write_directories, pd_entry, pdpt_entry, pd_addr, pdpt_addr, pml4_addr,
  present_rw,
}

-- Low memory is plain RAM on any machine.
pub plain : (m : Memory) → IsValid m → (a n : ℕ) → a + n ≤ 0xB8000 → IsPlain m a n
plain m v a n h = (omega (arith, v.low, v.least), inl h)

pde_lem : (g i : ℕ) → pd_entry g i ≡ (g * 2 ^ 9 + i) * 2 ^ 21 + 0x83
pde_lem g i =
    let q = g * 2 ^ 18 + i * 2 ^ 9 in
    let shift : g * 2 ^ 30 + i * 2 ^ 21 ≡ q * 2 ^ 12 = omega arith in
    rw (shift, bit_or_shifted 12 q 3 (omega arith))
      (bit_or_fields 12 q 3 0 0x80 (omega arith) (omega arith) ∙ omega (arith, bit_or-zero q))

pdpte_lem : (i : ℕ) → i < 4 → pdpt_entry i ≡ (4 + i) * 2 ^ 12 + 3
pdpte_lem i h =
    let sum : pd_addr + i * 0x1000 ≡ (4 + i) * 2 ^ 12 = omega arith in
    let low : ltb i 4 ≡ true = ground arith in
    rw (low, sum) (bit_or_shifted 12 (4 + i) 3 (omega arith))

-- The directories, from the one at `g` on.
directories :
    (left g : ℕ) (m : Memory) → IsValid m → g + left ≤ 4 → IsValid (write_directories left g m)
unfolding write_directories
directories zero g m v h = v
directories (suc left) g m v h =
    directories left (g + 1) (write_table 512 0 (pd_addr + g * 0x1000) (pd_entry g) m)
      (write_table-IsValid 512 0 (pd_addr + g * 0x1000) (pd_entry g) m v
        (plain m v _ _ (omega arith))).0
      (omega arith)

below_directories :
    (left g : ℕ) (m : Memory) (b : ℕ)
    → IsValid m
    → g + left ≤ 4
    → b + 8 ≤ pd_addr + g * 0x1000
    → read_u64 (write_directories left g m) b ≡ read_u64 m b
unfolding write_directories
below_directories zero g m b v h below = refl
below_directories (suc left) g m b v h below =
    let p = plain m v (pd_addr + g * 0x1000 + 0 * 8) (512 * 8) (omega arith) in
    below_directories left (g + 1) (write_table 512 0 (pd_addr + g * 0x1000) (pd_entry g) m) b
      (write_table-IsValid 512 0 (pd_addr + g * 0x1000) (pd_entry g) m v p).0 (omega arith)
      (omega arith)
    ∙ read_u64-write_table_apart 512 0 (pd_addr + g * 0x1000) (pd_entry g) m b v p
        (plain m v b 8 (omega arith)) (inr (omega arith))

pd_entry-lt : (g i : ℕ) → g < 4 → i < 512 → pd_entry g i < 2 ^ 64
pd_entry-lt g i h k = rw (pde_lem g i) (omega arith)

in_directory :
    (left g : ℕ) (m : Memory) (k i : ℕ)
    → IsValid m
    → g + left ≤ 4
    → g ≤ k
    → k < g + left
    → i < 512
    → read_u64 (write_directories left g m) (pd_addr + k * 0x1000 + i * 8) ≡ pd_entry k i
unfolding write_directories
in_directory zero g m k i v h lo hi small = absurd (omega arith)
in_directory (suc left) g m k i v h lo hi small =
    let base = pd_addr + g * 0x1000 in
    let p = plain m v (base + 0 * 8) (512 * 8) (omega arith) in
    let m' = write_table 512 0 base (pd_entry g) m in
    let v' = (write_table-IsValid 512 0 base (pd_entry g) m v p).0 in
    elim (Bool-cases (g == k)) [
      | inl here ↦ rw (sym ((==_iff g k).0 here)) (
          below_directories left (g + 1) m' (base + i * 8) v' (omega arith) (omega arith)
          ∙ read_u64-write_table 512 0 base (pd_entry g) m i v p
              (pd_entry-lt g i (omega arith) small) (omega arith) (omega arith))
      | inr later ↦
          in_directory left (g + 1) m' k i v' (omega arith) (ground arith) (ground arith) small
    ]

table-IsPlain :
    (m : Memory)
    → IsValid m
    → (base : ℕ) → base + 4096 ≤ 0xB8000
    → IsPlain m (base + 0 * 8) (512 * 8)
table-IsPlain m v base h = plain m v (base + 0 * 8) (512 * 8) (omega arith)

-- The three levels of the map, in a valid memory.
module _ (m : Memory) (v : IsValid m) where
  abbrev top : Memory
  top = write_table 512 0 pml4_addr (λ i. 0) m

  abbrev linked : Memory
  linked = write_u64 pml4_addr (bit_or pdpt_addr present_rw) top

  abbrev pointers : Memory
  pointers = write_table 512 0 pdpt_addr pdpt_entry linked

  top-IsPlain : IsPlain m (pml4_addr + 0 * 8) (512 * 8)
  top-IsPlain = table-IsPlain m v pml4_addr (omega arith)

  top-IsValid : IsValid top
  top-IsValid = (write_table-IsValid 512 0 pml4_addr (λ i. 0) m v top-IsPlain).0

  entry-IsPlain : IsPlain top pml4_addr 8
  entry-IsPlain = plain top top-IsValid pml4_addr 8 (omega arith)

  linked-IsValid : IsValid linked
  linked-IsValid =
      write_u64-IsValid top top-IsValid pml4_addr (bit_or pdpt_addr present_rw) entry-IsPlain

  pointers-IsPlain : IsPlain linked (pdpt_addr + 0 * 8) (512 * 8)
  pointers-IsPlain = table-IsPlain linked linked-IsValid pdpt_addr (omega arith)

  pointers-IsValid : IsValid pointers
  pointers-IsValid =
      (write_table-IsValid 512 0 pdpt_addr pdpt_entry linked linked-IsValid pointers-IsPlain).0

  linked_entry :
      (i : ℕ) → i < 512 → read_u64 linked (pml4_addr + i * 8) ≡ (if i == 0 then 0x3003 else 0)
  linked_entry zero h =
      read_u64-write_u64 top top-IsValid pml4_addr (bit_or pdpt_addr present_rw) entry-IsPlain
        (omega arith)
  linked_entry (suc i) h =
      let at = pml4_addr + suc i * 8 in
      let off : ◌≡◌ {A = ℕ} 0 (if suc i == 0 then 0x3003 else 0) = ground arith in
      read_u64-write_u64_apart top top-IsValid pml4_addr (bit_or pdpt_addr present_rw) entry-IsPlain
        at (plain top top-IsValid at 8 (omega arith)) (inl (omega arith))
      ∙ read_u64-write_table 512 0 pml4_addr (λ i. 0) m (suc i) v top-IsPlain (omega arith)
          (omega arith) (omega arith)
      ∙ off

  pub top_entry :
      (i : ℕ)
      → i < 512
      → read_u64 (build_identity_map m).1 (pml4_addr + i * 8) ≡ (if i == 0 then 0x3003 else 0)
  unfolding build_identity_map
  top_entry i h =
      let at = pml4_addr + i * 8 in
      below_directories 4 0 pointers at pointers-IsValid (omega arith) (omega arith)
      ∙ read_u64-write_table_apart 512 0 pdpt_addr pdpt_entry linked at linked-IsValid
          pointers-IsPlain (plain linked linked-IsValid at 8 (omega arith)) (inr (omega arith))
      ∙ linked_entry i h

  pub pointer_entry :
      (k : ℕ)
      → k < 512
      → read_u64 (build_identity_map m).1 (pdpt_addr + k * 8)
        ≡ (if ltb k 4 then (4 + k) * 2 ^ 12 + 3 else 0)
  unfolding build_identity_map
  pointer_entry k h =
      let value : pdpt_entry k ≡ (if ltb k 4 then (4 + k) * 2 ^ 12 + 3 else 0) =
        ground (arith, pdpte_lem k) in
      let small : pdpt_entry k < 2 ^ 64 = rw value (ground arith) in
      below_directories 4 0 pointers (pdpt_addr + k * 8) pointers-IsValid (omega arith)
        (omega arith)
      ∙ read_u64-write_table 512 0 pdpt_addr pdpt_entry linked k linked-IsValid pointers-IsPlain
          small (omega arith) (omega arith)
      ∙ value

  pub directory_entry :
      (g i : ℕ)
      → g < 4
      → i < 512
      → read_u64 (build_identity_map m).1 (pd_addr + g * 0x1000 + i * 8)
        ≡ (g * 2 ^ 9 + i) * 2 ^ 21 + 0x83
  unfolding build_identity_map
  directory_entry g i hg hi =
      in_directory 4 0 pointers g i pointers-IsValid (omega arith) (omega arith) (omega arith) hi
      ∙ pde_lem g i

  -- What lies below the tables is kept.
  pub read_u64-build_identity_map :
      (b : ℕ) → b + 8 ≤ pml4_addr → read_u64 (build_identity_map m).1 b ≡ read_u64 m b
  unfolding build_identity_map
  read_u64-build_identity_map b h =
      below_directories 4 0 pointers b pointers-IsValid (omega arith) (omega arith)
      ∙ read_u64-write_table_apart 512 0 pdpt_addr pdpt_entry linked b linked-IsValid
          pointers-IsPlain (plain linked linked-IsValid b 8 (omega arith)) (inr (omega arith))
      ∙ read_u64-write_u64_apart top top-IsValid pml4_addr (bit_or pdpt_addr present_rw)
          entry-IsPlain b (plain top top-IsValid b 8 (omega arith)) (inr (omega arith))
      ∙ read_u64-write_table_apart 512 0 pml4_addr (λ i. 0) m b v top-IsPlain
          (plain m v b 8 (omega arith)) (inr (omega arith))
