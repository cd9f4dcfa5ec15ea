-- ===== src/Cpu/Translate.antt =====
-- Address translation and the stack of src/cpu.rs: segments, the translation buffer, the page
-- walks behind it, and the accesses that cross a page. The debugger's watchpoints, which record and
-- change nothing else, and the switch that turns page crossing off are left out.
use cuddles.Base.{
  ℕ, ◌+◌, ◌-◌, ◌/◌, ◌^◌, Bool, true, false, not, ◌&&◌, Option, none, some, List, [], ◌∷◌, bit_and,
  bit_or, ◌==◌, ltb, if◌then◌else◌, ◌<<<◌, ◌>>>◌, has_bits, u16, u32, u64, update, take,
}
use cuddles.Memory.{Memory, phys, read_u16, read_u32, read_u64, write_u16, write_u32, write_u64}
use cuddles.Paging.{Mapping}
use cuddles.Paging.Long.{translate_mode, canonical}
use cuddles.Cpu.{
  Cpu, SegReg, ss, TlbEntry, is_some, long_mode, long64, paging_mode, cpl, raise_gp, cr0_pg, cr0_wp,
  efer_nxe, set_reg_w_raw,
}

-- `memory::UNBACKED`.
abbrev pub unbacked : ℕ
unbacked = (2 ^ 64 - 1) / 2

abbrev pub base_in_long : Cpu → SegReg → ℕ → ℕ
base_in_long c SegReg.fs offset = u64 (c.fs_base + offset)
base_in_long c SegReg.gs offset = u64 (c.gs_base + offset)
base_in_long c s offset = offset

unfoldable pub linear_addr : SegReg → ℕ → Cpu → ℕ
unfolding long64
linear_addr s offset c =
    if long64 c
    then base_in_long c s offset
    else if c.pe
    then bit_and (u64 ((c.seg_desc s).base + offset)) 0xFFFFFFFF
    else bit_and ((c.selector s <<< 4) + offset) 0xFFFFFFFF

unfoldable pub straddles : ℕ → ℕ → Bool
straddles phys bytes = ltb 0x1000 (bit_and phys 0xFFF + bytes)

-- A permission check against the bits of a mapping, then the bits of the access.
unfoldable pub access_allowed : Cpu → Bool → Bool → Bool → Bool → Bool → Bool → Bool
access_allowed c writable page_user page_exec write user fetch =
    if fetch && not page_exec
    then false
    else if user
    then (if not page_user then false else not (write && not writable))
    else not (write && (not writable && has_bits c.cr0 cr0_wp))

abbrev pub as_int : Bool → ℕ
as_int true = 1
as_int false = 0

unfoldable pub fault_code : Cpu → Bool → Bool → Bool → Bool → ℕ
fault_code c present write user fetch =
    let code = bit_or (bit_or (as_int present) (as_int write <<< 1)) (as_int user <<< 2) in
    if fetch && has_bits c.efer efer_nxe then bit_or code (1 <<< 4) else code

unfoldable pub raise_page_fault : ℕ → Bool → Bool → Bool → Bool → Cpu → Cpu
unfolding fault_code
raise_page_fault linear present write user fetch c =
    if is_some c.pending_exception then c else record c {
      cr2 = linear;
      pending_exception =
          some (record { vector = 0x0E; code = some (fault_code c present write user fetch) });
    }

-- The accessed bit, and the dirty bit.
abbrev pub pte_A : ℕ
pte_A = 2 ^ 5

abbrev pub pte_D : ℕ
pte_D = 2 ^ 6

abbrev pub is_last : List ℕ → Bool
is_last [] = true
is_last (addr ∷ rest) = false

-- Every entry of the walk is marked, the last one also as dirty if the access is a store.
unfoldable pub mark_walk : ℕ → Bool → List ℕ → Memory → Memory
mark_walk entry_bytes write [] mem = mem
mark_walk entry_bytes write (addr ∷ rest) mem =
    let bits = bit_or pte_A (if is_last rest && write then pte_D else 0) in
    let marked =
      if entry_bytes == 4
      then write_u32 addr (bit_or (read_u32 mem addr) (u32 bits)) mem
      else write_u64 addr (bit_or (read_u64 mem addr) bits) mem in
    mark_walk entry_bytes write rest marked

unfoldable pub set_accessed_bits : Mapping → Bool → Cpu → Cpu
unfolding mark_walk
set_accessed_bits map write c = record c {
  mem = mark_walk map.entry_bytes write (take map.walk_len map.walk) c.mem;
}

abbrev pub walked : ℕ → Cpu → Option Mapping
walked linear c = translate_mode c.mem c.cr3 linear (paging_mode c) (has_bits c.efer efer_nxe)

unfoldable pub mark_found : Bool → Cpu → Option Mapping → Cpu
mark_found write c none = c
mark_found write c (some map) = set_accessed_bits map write c

unfoldable pub mark_accessed : ℕ → Bool → Cpu → Cpu
unfolding mark_found
mark_accessed linear write c = mark_found write c (walked linear c)

unfoldable pub invlpg : ℕ → Cpu → Cpu
invlpg linear c =
    let vpage = linear >>> 12 in
    let idx = bit_and vpage 255 in
    let e = c.tlb idx in
    if e.valid && e.vpage == vpage
    then record c { tlb = update c.tlb idx (record e { valid = false }) }
    else c

-- A hit in the translation buffer, entry `idx`.
unfoldable pub hit : ℕ → ℕ → Bool → Bool → Bool → Cpu → ℕ × Cpu
hit idx linear write user fetch c =
    let entry = c.tlb idx in
    let marked = mark_accessed linear true c in
    let after =
      if write && not entry.dirtied
      then record marked { tlb = update c.tlb idx (record entry { dirtied = true }) }
      else c in
    if access_allowed c entry.writable entry.user entry.exec write user fetch
    then (bit_or (entry.ppage <<< 12) (bit_and linear 0xFFF), after)
    else (unbacked, raise_page_fault linear true write user fetch c)

abbrev pub filled : Mapping → ℕ → Bool → TlbEntry
filled map vpage write = record {
  valid = true;
  vpage = vpage;
  ppage = map.phys >>> 12;
  writable = map.writable;
  user = map.user;
  exec = map.exec;
  dirtied = write;
}

-- A miss, with what the page walk found.
unfoldable pub miss : ℕ → ℕ → Bool → Bool → Bool → Cpu → Option Mapping → ℕ × Cpu
miss idx linear write user fetch c none =
    (unbacked, raise_page_fault linear false write user fetch c)
miss idx linear write user fetch c (some map) =
    let filled' = record c { tlb = update c.tlb idx (filled map (linear >>> 12) write) } in
    if access_allowed c map.writable map.user map.exec write user fetch
    then (map.phys, set_accessed_bits map write filled')
    else (unbacked, raise_page_fault linear true write user fetch c)

unfoldable pub cached : ℕ → Cpu → Bool
cached linear c =
    let entry = c.tlb (bit_and (linear >>> 12) 255) in
    entry.valid && (entry.vpage == (linear >>> 12) && not c.no_tlb)

unfoldable pub apply_paging_inner : ℕ → Bool → Bool → Cpu → ℕ × Cpu
apply_paging_inner linear write fetch c =
    let user = cpl c == 3 in
    let idx = bit_and (linear >>> 12) 255 in
    if long_mode c && not (canonical linear)
    then (unbacked, raise_gp 0 c)
    else if not (has_bits c.cr0 cr0_pg)
    then (linear, c)
    else if cached linear c
    then hit idx linear write user fetch c
    else miss idx linear write user fetch c (walked linear c)

unfoldable pub apply_paging_access : ℕ → Bool → Cpu → ℕ × Cpu
apply_paging_access linear write = apply_paging_inner linear write false

unfoldable pub translate_access : SegReg → ℕ → Bool → Cpu → ℕ × Cpu
unfolding linear_addr apply_paging_access
translate_access s offset write c = apply_paging_access (linear_addr s offset c) write c

unfoldable pub linear_to_phys_ro : ℕ → Cpu → ℕ
linear_to_phys_ro linear c =
    let found = elim (walked linear c) as (λ o. ℕ) [ none ↦ unbacked | some map ↦ map.phys ] in
    if not (has_bits c.cr0 cr0_pg) then linear else found

-- The stack: the memory accesses of a width, then the pushes and pops.
unfoldable pub write_w : ℕ → ℕ → ℕ → Memory → Memory
write_w width addr val mem =
    if width == 64
    then write_u64 addr val mem
    else if width == 32
    then write_u32 addr (u32 val) mem
    else write_u16 addr (u16 val) mem

unfoldable pub read_w : ℕ → Memory → ℕ → ℕ
read_w width mem addr =
    if width == 64
    then read_u64 mem addr
    else if width == 32
    then read_u32 mem addr
    else read_u16 mem addr

unfoldable pub push_protected : ℕ → ℕ → Cpu → Cpu
unfolding translate_access
push_protected width val c =
    let n = width / 8 in
    let wide = long64 c in
    let new_sp =
      if wide then u64 (c.regs 4 + 2 ^ 64 - n) else u32 (u32 (c.regs 4) + 2 ^ 32 - u32 n) in
    let (addr, after) = translate_access ss new_sp true c in
    let moved = record after { regs = update after.regs 4 (if wide then new_sp else u32 new_sp) } in
    if is_some after.pending_exception
    then after
    else record moved { mem = write_w width addr val moved.mem }

unfoldable pub push_real : ℕ → ℕ → Cpu → Cpu
push_real width val c =
    let moved = set_reg_w_raw 4 16 (u16 (u16 (c.regs 4) + 2 ^ 16 - width / 8)) c in
    let addr = phys (moved.selector ss) (u16 (moved.regs 4)) in
    record moved { mem = write_w width addr val moved.mem }

unfoldable pub push_w : ℕ → ℕ → Cpu → Cpu
push_w width val c = if c.pe then push_protected width val c else push_real width val c

unfoldable pub pop_protected : ℕ → Cpu → ℕ × Cpu
unfolding translate_access
pop_protected width c =
    let n = width / 8 in
    let wide = long64 c in
    let sp = if wide then c.regs 4 else u32 (c.regs 4) in
    let (addr, after) = translate_access ss sp false c in
    let v = read_w width after.mem addr in
    let next = if wide then u64 (sp + n) else u32 (u32 sp + u32 n) in
    if is_some after.pending_exception
    then (0, after)
    else (v, record after { regs = update after.regs 4 next })

unfoldable pub pop_real : ℕ → Cpu → ℕ × Cpu
pop_real width c =
    let addr = phys (c.selector ss) (u16 (c.regs 4)) in
    (read_w width c.mem addr, set_reg_w_raw 4 16 (u16 (u16 (c.regs 4) + width / 8)) c)

unfoldable pub pop_w : ℕ → Cpu → ℕ × Cpu
pop_w width c = if c.pe then pop_protected width c else pop_real width c
