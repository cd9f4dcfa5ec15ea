-- ===== src/Paging/Tests.antt =====
-- Instances of the theorems about src/paging.rs at concrete inputs.
use cuddles.Base.{◌≡◌, true, some, [], ◌∷◌, arith}
use cuddles.Memory.{Memory, with_size, write_u64}
use cuddles.Paging.{PagingMode}
use cuddles.Paging.Long.{translate_mode}
use cuddles.Paging.Walk.{walk, start, Lands}
use cuddles.Paging.Modes.{
  wide, narrow, pml4e, pdpte, pde, pte, pae_pdpte, legacy_pde, legacy_pte, translate_mode-walk,
  translate_mode-Lands,
}

-- Four tables from 0x1000 on, with one page.
abbrev tables : Memory
tables = write_u64 0x4008 0x9_9003 (
    write_u64 0x3000 0x4003
      (write_u64 0x2000 0x3003 (write_u64 0x1000 0x2003 (with_size 0x20_0000))))

translate_mode-walk_example :
    (translate_mode tables 0x1000 0x1ABC PagingMode.long true
      ≡ walk (wide tables true) 0x1ABC (pml4e ∷ pdpte ∷ pde ∷ pte ∷ []) 0x1000 start)
    × (translate_mode tables 0x1000 0x1ABC PagingMode.pae true
        ≡ walk (wide tables true) 0x1ABC (pae_pdpte ∷ pde ∷ pte ∷ []) 0x1000 start)
    × (translate_mode tables 0x1000 0x1ABC PagingMode.legacy true
        ≡ walk (narrow tables) 0x1ABC (legacy_pde ∷ legacy_pte ∷ []) 0x1000 start)
    × (translate_mode tables 0x1000 0x1ABC PagingMode.off true
        ≡ some (record {
          phys = 0x1ABC;
          writable = true;
          user = true;
          exec = true;
          walk = 0 ∷ 0 ∷ 0 ∷ 0 ∷ [];
          walk_len = 0;
          entry_bytes = 0;
        }))
translate_mode-walk_example = translate_mode-walk tables 0x1000 0x1ABC true (omega arith)

translate_mode-Lands_example :
    Lands (wide tables true) 0x1ABC (translate_mode tables 0x1000 0x1ABC PagingMode.long true)
    × Lands (wide tables true) 0x1ABC (translate_mode tables 0x1000 0x1ABC PagingMode.pae true)
    × Lands (narrow tables) 0x1ABC (translate_mode tables 0x1000 0x1ABC PagingMode.legacy true)
translate_mode-Lands_example = translate_mode-Lands tables 0x1000 0x1ABC true (omega arith)
