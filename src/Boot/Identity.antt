-- ===== src/Boot/Identity.antt =====
-- The tables of the identity map, read back by the page walk: they map the low 4 GiB to themselves,
-- and nothing above.
use cuddles.Base.{
  ℕ, ◌+◌, ◌*◌, ◌/◌, ◌%◌, ◌^◌, ◌<◌, ◌≡◌, refl, ap, ◌∙◌, inl, inr, Bool, true, false, not, ◌||◌, some,
  none, [], ◌∷◌, bit_or, bit_and, ◌==◌, ==_iff, ltb, if◌then◌else◌, ◌>>>◌, u64, bit_not, has_bits,
  testb, arith, Bool-cases, has_bits-pow, testb_high,
}
use cuddles.Memory.{Memory}
use cuddles.Memory.Layout.{IsValid}
use cuddles.Paging.{Mapping, PagingMode, addr_mask_64}
use cuddles.Paging.Pte
use cuddles.Paging.Fields.{addr_64, field_2m, joined, no_bit, all_3, none_3}
use cuddles.Paging.Long.{translate_mode, translate_long, long_pml4, long_pdpt, long_pd}
use cuddles.Boot.LongMode.{build_identity_map, pml4_addr}
use cuddles.Boot.Tables.{top_entry, pointer_entry, directory_entry}

-- The bits of the entries.
pdpte_bits :
    (k : ℕ)
    → let e = (4 + k) * 2 ^ 12 + 3 in
      (testb e 0 ≡ true) × (testb e 1 ≡ true) × (testb e 2 ≡ false) × (testb e 7 ≡ false)
unfolding testb
pdpte_bits k = ground arith

pde_bits :
    (q : ℕ)
    → let e = q * 2 ^ 21 + 0x83 in
      (testb e 0 ≡ true) × (testb e 1 ≡ true) × (testb e 2 ≡ false) × (testb e 7 ≡ true)
unfolding testb
pde_bits q = ground arith

top_bits : (testb 0x3003 1 ≡ true) × (testb 0x3003 2 ≡ false)
unfolding testb
top_bits = (refl, refl)

-- The walk, from the directory entry of a 2 MiB page up.
page_found :
    (mem : Memory) (linear : ℕ) (nxe : Bool) (k i pde_addr : ℕ)
    → k ≡ linear / 2 ^ 30
    → k < 4
    → i ≡ linear / 2 ^ 21 % 512
    → long_pd mem linear nxe 0x2000 0x3003
        (0x3000 + k * 8)
        ((4 + k) * 2 ^ 12 + 3)
        pde_addr
        ((k * 2 ^ 9 + i) * 2 ^ 21 + 0x83)
      ≡ some (record {
        phys = linear;
        writable = true;
        user = false;
        exec = true;
        walk = 0x2000 ∷ (0x3000 + k * 8) ∷ pde_addr ∷ 0 ∷ [];
        walk_len = 3;
        entry_bytes = 8;
      })
unfolding long_pd
page_found mem linear nxe k i pde_addr hk h4 hi =
    let up = (4 + k) * 2 ^ 12 + 3 in
    let e = (k * 2 ^ 9 + i) * 2 ^ 21 + 0x83 in
    let b = pde_bits (k * 2 ^ 9 + i) in
    let u = pdpte_bits k in
    let here : (bit_and e Pte.p == 0) ≡ false = no_bit 0 e ∙ ap not b.0 in
    let large : has_bits e Pte.ps ≡ true = has_bits-pow e 7 ∙ b.3 in
    let writes : has_bits (bit_and (bit_and 0x3003 up) e) Pte.rw_bit ≡ true =
      all_3 1 0x3003 up e ∙ rw (top_bits.0, u.1, b.1) refl in
    let users : has_bits (bit_and (bit_and 0x3003 up) e) Pte.us ≡ false =
      all_3 2 0x3003 up e ∙ rw (top_bits.1) refl in
    let runs : (bit_and (bit_or (bit_or 0x3003 up) e) Pte.nx == 0) ≡ true =
      none_3 63 0x3003 up e
      ∙ rw
          (
            testb_high 62 63 0x3003 (omega arith) (omega arith),
            testb_high 62 63 up (omega arith) (omega arith),
            testb_high 62 63 e (omega arith) (omega arith),
          )
          refl in
    let address : bit_or (bit_and (bit_and e addr_mask_64) (bit_not 64 0x1F_FFFF))
          (bit_and linear 0x1F_FFFF)
        ≡ linear =
      rw (field_2m e) (joined 21 (e % 2 ^ 52 / 2 ^ 21) linear ∙ omega arith) in
    let always : (not nxe || true) ≡ true = ground arith in
    rw (here, large, writes, users, runs, address, always) refl

no_table :
    (mem : Memory) (linear : ℕ) (nxe : Bool) (a b c : ℕ)
    → (long_pml4 mem linear nxe a 0 ≡ none) × (long_pdpt mem linear nxe a b c 0 ≡ none)
unfolding long_pml4 long_pdpt
no_table mem linear nxe a b c = (refl, refl)

module _ (m : Memory) (v : IsValid m) (linear : ℕ) (nxe : Bool) (h : linear < 2 ^ 48) where
  abbrev tables : Memory
  tables = (build_identity_map m).1

  abbrev pub mapped : Mapping
  mapped = record {
    phys = linear;
    writable = true;
    user = false;
    exec = true;
    walk =
        0x2000
        ∷ (0x3000 + linear / 2 ^ 30 * 8)
        ∷ (0x4000 + linear / 2 ^ 30 * 0x1000 + linear / 2 ^ 21 % 512 * 8)
        ∷ 0
        ∷ [];
    walk_len = 3;
    entry_bytes = 8;
  }

  from_pointer :
      linear < 2 ^ 32
      → long_pdpt tables linear nxe 0x2000 0x3003
          (0x3000 + linear / 2 ^ 30 * 8)
          ((4 + linear / 2 ^ 30) * 2 ^ 12 + 3)
        ≡ some mapped
  unfolding long_pdpt
  from_pointer low =
      let k = linear / 2 ^ 30 in
      let i = linear / 2 ^ 21 % 512 in
      let e = (4 + k) * 2 ^ 12 + 3 in
      let here : (bit_and e Pte.p == 0) ≡ false = no_bit 0 e ∙ ap not (pdpte_bits k).0 in
      let small : has_bits e Pte.ps ≡ false = has_bits-pow e 7 ∙ (pdpte_bits k).3 in
      let next : u64 (bit_and e addr_mask_64 + bit_and (linear >>> 21) 0x1FF * 8)
          ≡ 0x4000 + k * 0x1000 + i * 8 =
        addr_64 21 e linear ∙ omega arith in
      rw (here, small, next, directory_entry m v k i (omega arith) (omega arith))
        (page_found tables linear nxe k i (0x4000 + k * 0x1000 + i * 8) refl (omega arith) refl)

  from_top :
      linear < 2 ^ 39
      → long_pml4 tables linear nxe 0x2000 0x3003
        ≡ (if ltb linear (2 ^ 32) then some mapped else none)
  unfolding long_pml4
  from_top low =
      let k = linear / 2 ^ 30 in
      let next : u64 (bit_and 0x3003 addr_mask_64 + bit_and (linear >>> 30) 0x1FF * 8)
          ≡ 0x3000 + k * 8 =
        addr_64 30 0x3003 linear ∙ omega arith in
      rw (next, pointer_entry m v k (omega arith))
        (ground
          (arith, from_pointer, (no_table tables linear nxe 0x2000 0x3003 (0x3000 + k * 8)).1))

  root : (build_identity_map m).0 ≡ pml4_addr
  unfolding build_identity_map
  root = refl

  -- In a valid memory, with the tables that the loader builds and the CR3 it gives, the long mode
  -- walk of an address below 2 ^ 48 maps each address below 4 GiB to itself, writable, executable
  -- and not for the user, by a 2 MiB page, and maps no other, whether NX is on or not.
  pub translate_mode-build_identity_map :
      translate_mode (build_identity_map m).1 (build_identity_map m).0 linear PagingMode.long nxe
      ≡ (if ltb linear (2 ^ 32) then some mapped else none)
  unfolding translate_mode translate_long
  translate_mode-build_identity_map =
      let i = linear / 2 ^ 39 % 512 in
      let first : u64 (bit_and pml4_addr addr_mask_64 + bit_and (linear >>> 39) 0x1FF * 8)
          ≡ pml4_addr + i * 8 =
        addr_64 39 pml4_addr linear ∙ omega arith in
      rw (root, first, top_entry m v i (omega arith))
        (elim (Bool-cases (i == 0)) [
          | inl first_entry ↦
              let zero_at : i ≡ 0 = (==_iff i 0).0 first_entry in
              rw first_entry (
                ap (λ a. long_pml4 tables linear nxe a 0x3003) (omega (arith, zero_at))
                ∙ from_top (omega (arith, zero_at)))
          | inr no_entry ↦
              let beyond : ltb linear (2 ^ 32) ≡ false = ground arith in
              rw (no_entry, beyond) ((no_table tables linear nxe (pml4_addr + i * 8) 0 0).0)
        ])
