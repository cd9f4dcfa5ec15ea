-- ===== src/Boot/LongMode.antt =====
-- The entry into long mode of src/boot.rs: the identity map of the low 4 GiB and the state that a
-- 64-bit kernel starts in.
use cuddles.Base.{ℕ, zero, suc, ◌+◌, ◌*◌, ◌/◌, ◌^◌, true, false, bit_or, ltb, if◌then◌else◌, update}
use cuddles.Memory.{Memory, write_u64}
use cuddles.Memory.Tables.{write_table}
use cuddles.Alu.{IF, set_flag}
use cuddles.Cpu.{
  Cpu, cs, ds, es, ss, fs, gs, cr0_pe, cr0_pg, cr0_wp, cr4_pae, efer_lme, efer_nxe, efer_sce,
  update_long_mode, flush_tlb, invalidate_phys_ip,
}
use cuddles.Cpu.Segments.{load_seg}
use cuddles.Paging.Pte

abbrev pub gdt64_addr : ℕ
gdt64_addr = 0x1800

abbrev pub pml4_addr : ℕ
pml4_addr = 0x2000

abbrev pub pdpt_addr : ℕ
pdpt_addr = 0x3000

abbrev pub pd_addr : ℕ
pd_addr = 0x4000

abbrev pub kernel_cs64 : ℕ
kernel_cs64 = 0x08

abbrev pub kernel_ds64 : ℕ
kernel_ds64 = 0x10

abbrev pub identity_map_bytes : ℕ
identity_map_bytes = 4 * 2 ^ 30

abbrev pub present_rw : ℕ
present_rw = bit_or Pte.p Pte.rw_bit

unfoldable pub write_gdt64 : Memory → Memory
write_gdt64 mem =
    write_u64 (gdt64_addr + 16) 0x00CF92000000FFFF
      (write_u64 (gdt64_addr + 8) 0x00AF9A000000FFFF (write_u64 gdt64_addr 0 mem))

-- The entries of the pointer table, and of the directory of a GiB.
abbrev pub pdpt_entry : ℕ → ℕ
pdpt_entry i =
    if ltb i (identity_map_bytes / 2 ^ 30) then bit_or (pd_addr + i * 0x1000) present_rw else 0

abbrev pub pd_entry : ℕ → ℕ → ℕ
pd_entry g i = bit_or (bit_or (g * 2 ^ 30 + i * 2 ^ 21) present_rw) Pte.ps

-- The directories from `g` on.
unfoldable pub write_directories : ℕ → ℕ → Memory → Memory
write_directories zero g mem = mem
write_directories (suc left) g mem =
    write_directories left (g + 1) (write_table 512 0 (pd_addr + g * 0x1000) (pd_entry g) mem)

-- Also the address of the top-level table.
unfoldable pub build_identity_map : Memory → ℕ × Memory
build_identity_map mem =
    let top = write_table 512 0 pml4_addr (λ i. 0) mem in
    let linked = write_u64 pml4_addr (bit_or pdpt_addr present_rw) top in
    let pointers = write_table 512 0 pdpt_addr pdpt_entry linked in
    (pml4_addr, write_directories (identity_map_bytes / 2 ^ 30) 0 pointers)

unfoldable pub enter_long_mode : ℕ → ℕ → Cpu → Cpu
enter_long_mode entry stack c =
    let (pml4, mem') = build_identity_map (write_gdt64 c.mem) in
    let paged = record c {
      mem = mem';
      gdt_base = gdt64_addr;
      gdt_limit = 23;
      cr4 = bit_or c.cr4 cr4_pae;
      cr3 = pml4;
      efer = bit_or c.efer (bit_or (bit_or efer_lme efer_nxe) efer_sce);
      pe = true;
      cr0 = bit_or c.cr0 (bit_or (bit_or cr0_pe cr0_pg) cr0_wp);
    } in
    let long = flush_tlb (update_long_mode paged) in
    let code = load_seg ds kernel_ds64 (load_seg cs kernel_cs64 long) in
    let segs =
      load_seg gs kernel_ds64
        (load_seg fs kernel_ds64 (load_seg ss kernel_ds64 (load_seg es kernel_ds64 code))) in
    invalidate_phys_ip (record segs {
      regs = update segs.regs 4 stack;
      rip = entry;
      flags = set_flag IF false segs.flags;
      halted = false;
    })
