-- ===== src/Paging/Long.antt =====
-- Four-level page-table walks, and the choice of the structure: src/paging.rs.
use cuddles.Base.{
  ℕ, ◌+◌, ◌*◌, Bool, true, not, ◌&&◌, ◌||◌, Option, none, some, [], ◌∷◌, bit_and, bit_or, ◌==◌,
  if◌then◌else◌, ◌>>>◌, bit_not, has_bits, u32, u64,
}
use cuddles.Memory.{Memory, read_u64}
use cuddles.Paging.Pte
use cuddles.Paging.{Mapping, PagingMode, addr_mask_64, translate_legacy, translate_pae}

-- The page table.
unfoldable pub long_pt :
    Memory → ℕ → Bool → (pml4e_addr pml4e pdpte_addr pdpte pde_addr pde : ℕ) → Option Mapping
long_pt mem linear nxe pml4e_addr pml4e pdpte_addr pdpte pde_addr pde =
    let pt_index = bit_and (linear >>> 12) 0x1FF in
    let pte_addr = u64 (bit_and pde addr_mask_64 + pt_index * 8) in
    let entry = read_u64 mem pte_addr in
    let acc = bit_or (bit_or (bit_or pml4e pdpte) pde) entry in
    let all = bit_and (bit_and (bit_and pml4e pdpte) pde) entry in
    if bit_and entry Pte.p == 0
    then none
    else some (record {
      phys = bit_or (bit_and entry addr_mask_64) (bit_and linear 0xFFF);
      writable = has_bits all Pte.rw_bit;
      user = has_bits all Pte.us;
      exec = not nxe || bit_and acc Pte.nx == 0;
      walk = pml4e_addr ∷ pdpte_addr ∷ pde_addr ∷ pte_addr ∷ [];
      walk_len = 4;
      entry_bytes = 8;
    })

-- The directory.
unfoldable pub long_pd :
    Memory → ℕ → Bool → (pml4e_addr pml4e pdpte_addr pdpte pde_addr pde : ℕ) → Option Mapping
long_pd mem linear nxe pml4e_addr pml4e pdpte_addr pdpte pde_addr pde =
    let acc = bit_or (bit_or pml4e pdpte) pde in
    let all = bit_and (bit_and pml4e pdpte) pde in
    if bit_and pde Pte.p == 0
    then none
    else if has_bits pde Pte.ps
    then some (record {
      phys =
          bit_or (bit_and (bit_and pde addr_mask_64) (bit_not 64 0x1F_FFFF))
            (bit_and linear 0x1F_FFFF);
      writable = has_bits all Pte.rw_bit;
      user = has_bits all Pte.us;
      exec = not nxe || bit_and acc Pte.nx == 0;
      walk = pml4e_addr ∷ pdpte_addr ∷ pde_addr ∷ 0 ∷ [];
      walk_len = 3;
      entry_bytes = 8;
    })
    else long_pt mem linear nxe pml4e_addr pml4e pdpte_addr pdpte pde_addr pde

-- The pointer table.
unfoldable pub long_pdpt :
    Memory → ℕ → Bool → (pml4e_addr pml4e pdpte_addr pdpte : ℕ) → Option Mapping
long_pdpt mem linear nxe pml4e_addr pml4e pdpte_addr pdpte =
    let pd_index = bit_and (linear >>> 21) 0x1FF in
    let acc = bit_or pml4e pdpte in
    let pde_addr = u64 (bit_and pdpte addr_mask_64 + pd_index * 8) in
    if bit_and pdpte Pte.p == 0
    then none
    else if has_bits pdpte Pte.ps
    then some (record {
      phys =
          bit_or (bit_and (bit_and pdpte addr_mask_64) (bit_not 64 0x3FFF_FFFF))
            (bit_and linear 0x3FFF_FFFF);
      writable = has_bits pml4e Pte.rw_bit && has_bits pdpte Pte.rw_bit;
      user = has_bits pml4e Pte.us && has_bits pdpte Pte.us;
      exec = not nxe || bit_and acc Pte.nx == 0;
      walk = pml4e_addr ∷ pdpte_addr ∷ 0 ∷ 0 ∷ [];
      walk_len = 2;
      entry_bytes = 8;
    })
    else long_pd mem linear nxe pml4e_addr pml4e pdpte_addr pdpte pde_addr (read_u64 mem pde_addr)

-- Below the top-level entry.
unfoldable pub long_pml4 : Memory → ℕ → Bool → (pml4e_addr pml4e : ℕ) → Option Mapping
long_pml4 mem linear nxe pml4e_addr pml4e =
    let pdpt_index = bit_and (linear >>> 30) 0x1FF in
    let pdpte_addr = u64 (bit_and pml4e addr_mask_64 + pdpt_index * 8) in
    if bit_and pml4e Pte.p == 0
    then none
    else long_pdpt mem linear nxe pml4e_addr pml4e pdpte_addr (read_u64 mem pdpte_addr)

unfoldable pub translate_long : Memory → ℕ → ℕ → Bool → Option Mapping
translate_long mem cr3 linear nxe =
    let pml4_index = bit_and (linear >>> 39) 0x1FF in
    let pml4e_addr = u64 (bit_and cr3 addr_mask_64 + pml4_index * 8) in
    long_pml4 mem linear nxe pml4e_addr (read_u64 mem pml4e_addr)

abbrev identity : ℕ → Mapping
identity linear = record {
  phys = linear;
  writable = true;
  user = true;
  exec = true;
  walk = 0 ∷ 0 ∷ 0 ∷ 0 ∷ [];
  walk_len = 0;
  entry_bytes = 0;
}

unfoldable pub translate_mode : Memory → ℕ → ℕ → PagingMode → Bool → Option Mapping
translate_mode mem cr3 linear PagingMode.off nxe = some (identity linear)
translate_mode mem cr3 linear PagingMode.legacy nxe = translate_legacy mem cr3 (u32 linear)
translate_mode mem cr3 linear PagingMode.pae nxe = translate_pae mem cr3 (u32 linear) nxe
translate_mode mem cr3 linear PagingMode.long nxe = translate_long mem cr3 linear nxe

unfoldable pub canonical : ℕ → Bool
canonical linear = let top = linear >>> 47 in top == 0 || top == 0x1FFFF
