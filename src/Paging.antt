-- ===== src/Paging.antt =====
-- Page-table walks: src/paging.rs. The rest of a walk below each table is a definition of its own.
pub mod Pte
pub mod Long
pub mod Walk
pub mod Fields
pub mod Modes
mod Tests
use cuddles.Base.{
  ℕ, ◌+◌, ◌-◌, ◌*◌, ◌^◌, Bool, true, false, not, ◌&&◌, ◌||◌, Option, none, some, List, [], ◌∷◌,
  bit_and, bit_or, ◌==◌, if◌then◌else◌, ◌<<<◌, ◌>>>◌, bit_not, has_bits, u32, u64, get_or,
}
use cuddles.Paging.Pte
use cuddles.Memory.{Memory, read_u32, read_u64}

abbrev pub addr_mask_64 : ℕ
addr_mask_64 = 0x000F_FFFF_FFFF_F000

abbrev pub addr_mask_32 : ℕ
addr_mask_32 = 0xFFFF_F000

pub data PagingMode : Type 0 where
  off legacy pae long : PagingMode

pub record Mapping : Type 0 where
  pub phys : ℕ
  pub writable : Bool
  pub user : Bool
  pub exec : Bool
  pub walk : List ℕ
  pub walk_len : ℕ
  pub entry_bytes : ℕ

pub leaf : Mapping → ℕ
leaf m = get_or m.walk (m.walk_len - 1) 0

-- The page table of 32-bit paging, below the directory entry `pde` at `pde_addr`.
unfoldable pub legacy_pt : Memory → ℕ → ℕ → ℕ → Option Mapping
legacy_pt mem linear pde_addr pde =
    let pt_index = bit_and (linear >>> 12) 0x3FF in
    let offset = bit_and linear 0xFFF in
    let pte_addr = u64 (bit_and pde addr_mask_32 + pt_index * 4) in
    let entry = read_u32 mem pte_addr in
    if bit_and entry Pte.p == 0
    then none
    else some (record {
      phys = bit_or (bit_and entry addr_mask_32) offset;
      writable = has_bits pde Pte.rw_bit && has_bits entry Pte.rw_bit;
      user = has_bits pde Pte.us && has_bits entry Pte.us;
      exec = true;
      walk = pde_addr ∷ pte_addr ∷ 0 ∷ 0 ∷ [];
      walk_len = 2;
      entry_bytes = 4;
    })

-- The directory of 32-bit paging.
unfoldable pub legacy_pd : Memory → ℕ → ℕ → ℕ → Option Mapping
legacy_pd mem linear pde_addr pde =
    if bit_and pde Pte.p == 0
    then none
    else if has_bits pde Pte.ps
    then some (record {
      phys = bit_or (bit_and pde 0xFFC0_0000) (bit_and linear 0x3F_FFFF);
      writable = has_bits pde Pte.rw_bit;
      user = has_bits pde Pte.us;
      exec = true;
      walk = pde_addr ∷ 0 ∷ 0 ∷ 0 ∷ [];
      walk_len = 1;
      entry_bytes = 4;
    })
    else legacy_pt mem linear pde_addr pde

unfoldable pub translate_legacy : Memory → ℕ → ℕ → Option Mapping
translate_legacy mem cr3 linear =
    let pd_index = bit_and (linear >>> 22) 0x3FF in
    let pde_addr = u64 (bit_and cr3 addr_mask_32 + pd_index * 4) in
    legacy_pd mem linear pde_addr (read_u32 mem pde_addr)

-- The page table of PAE paging.
pub pae_pt : Memory → ℕ → Bool → ℕ → ℕ → ℕ → Option Mapping
pae_pt mem linear nxe pdpte_addr pde_addr pde =
    let pt_index = bit_and (linear >>> 12) 0x1FF in
    let pte_addr = u64 (bit_and pde addr_mask_64 + pt_index * 8) in
    let entry = read_u64 mem pte_addr in
    if bit_and entry Pte.p == 0
    then none
    else some (record {
      phys = bit_or (bit_and entry addr_mask_64) (bit_and linear 0xFFF);
      writable = has_bits pde Pte.rw_bit && has_bits entry Pte.rw_bit;
      user = has_bits pde Pte.us && has_bits entry Pte.us;
      exec = not nxe || bit_and (bit_or pde entry) Pte.nx == 0;
      walk = pdpte_addr ∷ pde_addr ∷ pte_addr ∷ 0 ∷ [];
      walk_len = 3;
      entry_bytes = 8;
    })

-- The directory of PAE paging.
pub pae_pd : Memory → ℕ → Bool → ℕ → ℕ → ℕ → Option Mapping
pae_pd mem linear nxe pdpte_addr pde_addr pde =
    if bit_and pde Pte.p == 0
    then none
    else if has_bits pde Pte.ps
    then some (record {
      phys =
          bit_or (bit_and (bit_and pde addr_mask_64) (bit_not 64 0x1F_FFFF))
            (bit_and linear 0x1F_FFFF);
      writable = has_bits pde Pte.rw_bit;
      user = has_bits pde Pte.us;
      exec = not nxe || bit_and pde Pte.nx == 0;
      walk = pdpte_addr ∷ pde_addr ∷ 0 ∷ 0 ∷ [];
      walk_len = 2;
      entry_bytes = 8;
    })
    else pae_pt mem linear nxe pdpte_addr pde_addr pde

-- Below the pointer-table entry of PAE paging.
pub pae_pdpt : Memory → ℕ → Bool → ℕ → ℕ → Option Mapping
pae_pdpt mem linear nxe pdpte_addr pdpte =
    let pd_index = bit_and (linear >>> 21) 0x1FF in
    let pde_addr = u64 (bit_and pdpte addr_mask_64 + pd_index * 8) in
    if bit_and pdpte Pte.p == 0
    then none
    else pae_pd mem linear nxe pdpte_addr pde_addr (read_u64 mem pde_addr)

pub translate_pae : Memory → ℕ → ℕ → Bool → Option Mapping
translate_pae mem cr3 linear nxe =
    let pdpt_index = bit_and (linear >>> 30) 0x3 in
    let pdpte_addr = u64 (bit_and cr3 (bit_not 64 0x1F) + pdpt_index * 8) in
    pae_pdpt mem linear nxe pdpte_addr (read_u64 mem pdpte_addr)
