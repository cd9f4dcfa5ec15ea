-- ===== src/Paging/Modes.antt =====
-- The three structures of src/paging.rs as lists of levels, and that its walks are the walks of these.
use cuddles.Base.{
  ◌↔◌, ◌⊎◌, subst, sym, ℕ, ◌+◌, ◌-◌, ◌*◌, ◌/◌, ◌%◌, ◌^◌, ◌<◌, ◌≤◌, ◌≡◌, refl, Bool, true, false,
  some, [], ◌∷◌, arith, has_bits-pow,
}
use cuddles.Memory.{Memory, read_u32, read_u64}
use cuddles.Paging.{
  PagingMode, translate_legacy, translate_pae, legacy_pt, legacy_pd, pae_pt, pae_pd, pae_pdpt,
}
use cuddles.Paging.Long.{
  long_pt, long_pd, long_pdpt, long_pml4, translate_long, translate_mode, canonical,
}
use cuddles.Paging.Fields.{
  field_64, field_32, field_2m, field_1g, field_4m, addr_pdpt, joined, addr_64, all_3, all_4,
  no_bit, none_2, none_3, none_4, forbidden, addr_32,
}
use cuddles.Paging.Walk.{Lands, walk-Lands}
use cuddles.Paging.Walk.{Level, Structure, Progress, start, extend, frame, step, walk}

abbrev level : ℕ → ℕ → Bool → Bool → Level
level shift bits large counts = record {
  shift = shift;
  bits = bits;
  large = large;
  counts = counts;
}

-- What the entries of eight bytes hold.
abbrev pub wide : Memory → Bool → Structure
wide mem nxe = record { entry_at = read_u64 mem; width = 8; phys_bits = 52; no_execute = nxe }

abbrev pub narrow : Memory → Structure
narrow mem = record { entry_at = read_u32 mem; width = 4; phys_bits = 32; no_execute = false }

abbrev pub pml4e : Level
pml4e = level 39 9 false true

abbrev pub pdpte : Level
pdpte = level 30 9 true true

abbrev pub pde : Level
pde = level 21 9 true true

abbrev pub pte : Level
pte = level 12 9 false true

-- PAE: the entry of the pointer table gives no permission and no page.
abbrev pub pae_pdpte : Level
pae_pdpte = level 30 2 false false

module _ (mem : Memory) (linear : ℕ) (nxe : Bool) (a1 e1 : ℕ) where
  abbrev top_read : Progress
  top_read = extend pml4e a1 e1 start

  module _ (a2 e2 : ℕ) where
    abbrev pointer_read : Progress
    pointer_read = extend pdpte a2 e2 top_read

    module _ (a3 e3 : ℕ) where
      abbrev directory_read : Progress
      directory_read = extend pde a3 e3 pointer_read

      long_pt_lem :
          long_pt mem linear nxe a1 e1 a2 e2 a3 e3
          ≡ walk (wide mem nxe) linear (pte ∷ []) (frame (wide mem nxe) 12 e3) directory_read
      unfolding long_pt walk
      long_pt_lem =
          let a4 = e3 % 2 ^ 52 / 2 ^ 12 * 2 ^ 12 + linear / 2 ^ 12 % 2 ^ 9 * 8 in
          let e4 = read_u64 mem a4 in
          rw
            (
              addr_64 12 e3 linear,
              no_bit 0 e4,
              field_64 e4,
              joined 12 (e4 % 2 ^ 52 / 2 ^ 12) linear,
              all_4 1 e1 e2 e3 e4,
              all_4 2 e1 e2 e3 e4,
              none_4 63 e1 e2 e3 e4,
              forbidden nxe _,
            )
            refl

      long_pd_lem :
          long_pd mem linear nxe a1 e1 a2 e2 a3 e3
          ≡ step
              (wide mem nxe)
              linear
              pde
              (pte ∷ [])
              e3
              directory_read
              (walk (wide mem nxe) linear (pte ∷ []) (frame (wide mem nxe) 12 e3) directory_read)
      unfolding long_pd
      long_pd_lem =
          rw
            (
              no_bit 0 e3,
              has_bits-pow e3 7,
              field_2m e3,
              joined 21 (e3 % 2 ^ 52 / 2 ^ 21) linear,
              all_3 1 e1 e2 e3,
              all_3 2 e1 e2 e3,
              none_3 63 e1 e2 e3,
              forbidden nxe _,
              long_pt_lem,
            )
            refl

    long_pdpt_lem :
        long_pdpt mem linear nxe a1 e1 a2 e2
        ≡ step
            (wide mem nxe)
            linear
            pdpte
            (pde ∷ pte ∷ [])
            e2
            pointer_read
            (walk (wide mem nxe) linear (pde ∷ pte ∷ []) (frame (wide mem nxe) 12 e2) pointer_read)
    unfolding long_pdpt walk
    long_pdpt_lem =
        rw
          (
            no_bit 0 e2,
            has_bits-pow e2 7,
            field_1g e2,
            joined 30 (e2 % 2 ^ 52 / 2 ^ 30) linear,
            has_bits-pow e1 1,
            has_bits-pow e2 1,
            has_bits-pow e1 2,
            has_bits-pow e2 2,
            none_2 63 e1 e2,
            forbidden nxe _,
            addr_64 21 e2 linear,
            long_pd_lem _ _,
          )
          refl

  long_pml4_lem :
      long_pml4 mem linear nxe a1 e1
      ≡ step (wide mem nxe) linear pml4e (pdpte ∷ pde ∷ pte ∷ []) e1 top_read (
          walk (wide mem nxe) linear (pdpte ∷ pde ∷ pte ∷ []) (frame (wide mem nxe) 12 e1) top_read)
  unfolding long_pml4 walk
  long_pml4_lem = rw (no_bit 0 e1, addr_64 30 e1 linear, long_pdpt_lem _ _) refl

  abbrev pae_top : Progress
  pae_top = extend pae_pdpte a1 e1 start

  module _ (a2 e2 : ℕ) where
    abbrev pae_directory : Progress
    pae_directory = extend pde a2 e2 pae_top

    pae_pt_lem :
        pae_pt mem linear nxe a1 a2 e2
        ≡ walk (wide mem nxe) linear (pte ∷ []) (frame (wide mem nxe) 12 e2) pae_directory
    unfolding pae_pt walk
    pae_pt_lem =
        let a3 = e2 % 2 ^ 52 / 2 ^ 12 * 2 ^ 12 + linear / 2 ^ 12 % 2 ^ 9 * 8 in
        let e3 = read_u64 mem a3 in
        rw
          (
            addr_64 12 e2 linear,
            no_bit 0 e3,
            field_64 e3,
            joined 12 (e3 % 2 ^ 52 / 2 ^ 12) linear,
            has_bits-pow e2 1,
            has_bits-pow e3 1,
            has_bits-pow e2 2,
            has_bits-pow e3 2,
            none_2 63 e2 e3,
            forbidden nxe _,
          )
          refl

    pae_pd_lem :
        pae_pd mem linear nxe a1 a2 e2
        ≡ step
            (wide mem nxe)
            linear
            pde
            (pte ∷ [])
            e2
            pae_directory
            (walk (wide mem nxe) linear (pte ∷ []) (frame (wide mem nxe) 12 e2) pae_directory)
    unfolding pae_pd
    pae_pd_lem =
        rw
          (
            no_bit 0 e2,
            has_bits-pow e2 7,
            field_2m e2,
            joined 21 (e2 % 2 ^ 52 / 2 ^ 21) linear,
            has_bits-pow e2 1,
            has_bits-pow e2 2,
            no_bit 63 e2,
            forbidden nxe _,
            pae_pt_lem,
          )
          refl

  pae_pdpt_lem :
      pae_pdpt mem linear nxe a1 e1
      ≡ step
          (wide mem nxe)
          linear
          pae_pdpte
          (pde ∷ pte ∷ [])
          e1
          pae_top
          (walk (wide mem nxe) linear (pde ∷ pte ∷ []) (frame (wide mem nxe) 12 e1) pae_top)
  unfolding pae_pdpt walk
  pae_pdpt_lem = rw (no_bit 0 e1, addr_64 21 e1 linear, pae_pd_lem _ _) refl

-- Legacy paging.
abbrev pub legacy_pde : Level
legacy_pde = level 22 10 true true

abbrev pub legacy_pte : Level
legacy_pte = level 12 10 false true

module _ (mem : Memory) (linear a1 e1 : ℕ) where
  abbrev legacy_top : Progress
  legacy_top = extend legacy_pde a1 e1 start

  legacy_pt_lem :
      legacy_pt mem linear a1 e1
      ≡ walk (narrow mem) linear (legacy_pte ∷ []) (frame (narrow mem) 12 e1) legacy_top
  unfolding legacy_pt walk
  legacy_pt_lem =
      let a2 = e1 % 2 ^ 32 / 2 ^ 12 * 2 ^ 12 + linear / 2 ^ 12 % 2 ^ 10 * 4 in
      let e2 = read_u32 mem a2 in
      rw
        (
          addr_32 12 e1 linear,
          no_bit 0 e2,
          field_32 e2,
          joined 12 (e2 % 2 ^ 32 / 2 ^ 12) linear,
          has_bits-pow e1 1,
          has_bits-pow e2 1,
          has_bits-pow e1 2,
          has_bits-pow e2 2,
        )
        refl

  legacy_pd_lem :
      legacy_pd mem linear a1 e1
      ≡ step
          (narrow mem)
          linear
          legacy_pde
          (legacy_pte ∷ [])
          e1
          legacy_top
          (walk (narrow mem) linear (legacy_pte ∷ []) (frame (narrow mem) 12 e1) legacy_top)
  unfolding legacy_pd
  legacy_pd_lem =
      rw
        (
          no_bit 0 e1,
          has_bits-pow e1 7,
          field_4m e1,
          joined 22 (e1 % 2 ^ 32 / 2 ^ 22) linear,
          has_bits-pow e1 1,
          has_bits-pow e1 2,
          legacy_pt_lem,
        )
        refl

-- For CR3 below 2 ^ 64, each paging mode is the walk of a list of levels: four of 9 bits in long
-- mode, with pages of 1 GiB, 2 MiB and 4 KiB; three in PAE mode on the low 32 bits of the address,
-- the first of 2 bits, without pages and without a say in the permissions; two of 10 bits in
-- legacy mode, with pages of 4 MiB and 4 KiB. Paging off maps every address to itself with every
-- permission.
pub translate_mode-walk :
    (mem : Memory) (cr3 linear : ℕ) (nxe : Bool)
    → cr3 < 2 ^ 64
    → (translate_mode mem cr3 linear PagingMode.long nxe
        ≡ walk
            (wide mem nxe)
            linear
            (pml4e ∷ pdpte ∷ pde ∷ pte ∷ [])
            (cr3 % 2 ^ 52 / 2 ^ 12 * 2 ^ 12)
            start)
      × (translate_mode mem cr3 linear PagingMode.pae nxe
          ≡ walk
              (wide mem nxe)
              (linear % 2 ^ 32)
              (pae_pdpte ∷ pde ∷ pte ∷ [])
              (cr3 / 2 ^ 5 * 2 ^ 5)
              start)
      × (translate_mode mem cr3 linear PagingMode.legacy nxe
          ≡ walk
              (narrow mem)
              (linear % 2 ^ 32)
              (legacy_pde ∷ legacy_pte ∷ [])
              (cr3 % 2 ^ 32 / 2 ^ 12 * 2 ^ 12)
              start)
      × (translate_mode mem cr3 linear PagingMode.off nxe
          ≡ some (record {
            phys = linear;
            writable = true;
            user = true;
            exec = true;
            walk = 0 ∷ 0 ∷ 0 ∷ 0 ∷ [];
            walk_len = 0;
            entry_bytes = 0;
          }))
unfolding translate_mode translate_long translate_pae translate_legacy walk
translate_mode-walk mem cr3 linear nxe h =
    let low = linear % 2 ^ 32 in
    (
      rw (addr_64 39 cr3 linear, long_pml4_lem mem linear nxe _ _) refl,
      rw (addr_pdpt cr3 low h, pae_pdpt_lem mem low nxe _ _) refl,
      rw (addr_32 22 cr3 low, legacy_pd_lem mem low _ _) refl,
      refl,
    )

-- An address below 2 ^ 64 is canonical exactly if it lies below 2 ^ 47 or within 2 ^ 47 of the
-- top.
pub canonical_iff :
    (linear : ℕ)
    → linear < 2 ^ 64
    → (canonical linear ≡ true) ↔ ((linear < 2 ^ 47) ⊎ (2 ^ 64 - 2 ^ 47 ≤ linear))
unfolding canonical
canonical_iff linear h = ground arith

-- Whatever the tables hold, for CR3 below 2 ^ 64, a translation that succeeds keeps the offset
-- within a 4 KiB page, and gives an address below 2 ^ 52, or below 2 ^ 32 in legacy mode.
pub translate_mode-Lands :
    (mem : Memory) (cr3 linear : ℕ) (nxe : Bool)
    → cr3 < 2 ^ 64
    → Lands (wide mem nxe) linear (translate_mode mem cr3 linear PagingMode.long nxe)
      × Lands (wide mem nxe) (linear % 2 ^ 32) (translate_mode mem cr3 linear PagingMode.pae nxe)
      × Lands (narrow mem) (linear % 2 ^ 32) (translate_mode mem cr3 linear PagingMode.legacy nxe)
translate_mode-Lands mem cr3 linear nxe h =
    let modes = translate_mode-walk mem cr3 linear nxe h in
    let low = linear % 2 ^ 32 in
    (
      subst (Lands (wide mem nxe) linear) (sym modes.0)
          (walk-Lands (wide mem nxe) linear (pml4e ∷ pdpte ∷ pde ∷ pte ∷ []) _ start (omega arith)),
      subst (Lands (wide mem nxe) low) (sym modes.1)
          (walk-Lands (wide mem nxe) low (pae_pdpte ∷ pde ∷ pte ∷ []) _ start (omega arith)),
      subst (Lands (narrow mem) low) (sym modes.2)
          (walk-Lands (narrow mem) low (legacy_pde ∷ legacy_pte ∷ []) _ start (omega arith)),
    )
