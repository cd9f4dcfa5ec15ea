-- ===== src/Cpu/Tests.antt =====
-- Runs of the processor model of src/cpu.rs, and instances of the theorems.
use cuddles.Base.{
  u64, ℕ, ◌+◌, ◌^◌, ◌<◌, ◌≡◌, inl, refl, true, false, some, none, [], ◌∷◌, ◌==◌, if◌then◌else◌,
  has_bits, arith,
}
use cuddles.Memory.{read_u8_raw, with_size, slot, read_u32, write_u8}
use cuddles.Vmx
use cuddles.Protected.{Descriptor}
use cuddles.Paging.{Mapping, translate_legacy, legacy_pd}
use cuddles.Paging.Long.{translate_mode}
use cuddles.Cpu.{
  Cpu, ss, real, protected, mode, reg_w, set_reg_w, reg8_idx, set_reg8_idx, write_cr0, write_msr,
  update_long_mode, write_efer, osize, asize, stack_width, set_seg, raise_ud, long_mode, cr0_pe,
  cr0_pg, efer_lme, cpl, paging_mode, TlbEntry, is_some,
}
use cuddles.Cpu.Registers.{reg8_idx-set_reg8_idx}
use cuddles.Cpu.LongMode.{Agrees, write_cr0-Agrees}
use cuddles.Cpu.Tlb.{apply_paging_inner-again}
use cuddles.Cpu.Segments.{descriptor_for, load_seg, load_tr, load_ldt}
use cuddles.Cpu.Fetch.{ensure_phys_ip, fetch_u16, fetch_pair, fetch_u16-fetch_pair}
use cuddles.Cpu.ModRm.{
  from_byte, is_reg, base16, modrm_offset, modrm_ea32, sum_of, indexed, based, read_rm_w,
  write_rm_w,
}
use cuddles.Cpu.Translate.{apply_paging_inner, access_allowed, cached, walked}

abbrev flat : Descriptor
flat = record { base = 0; limit = 0xFFFFF; attr = 0x9B; g = true; d_b = false; l = false }

abbrev no_entry : TlbEntry
no_entry = record {
  valid = false;
  vpage = 0;
  ppage = 0;
  writable = false;
  user = false;
  exec = false;
  dirtied = false;
}

-- A processor in real mode, with two megabytes of memory and its stack at 0:0x7C00.
abbrev reset : Cpu
reset = record {
  regs = λ i. if i == 4 then 0x7C00 else 0x1122_3344_5566_7788;
  selector = λ s. 0;
  ip = 0;
  rip = 0;
  rip_start = 0;
  ip_start = 0;
  flags = 2;
  mem = with_size 0x20_0000;
  opsize = false;
  addrsize = false;
  addr64 = false;
  rex_present = false;
  rex_w = false;
  rex_r = false;
  rex_x = false;
  rex_b = false;
  seg_override = none;
  pe = false;
  gdt_base = 0;
  gdt_limit = 0;
  idt_base = 0;
  idt_limit = 0;
  tr_selector = 0;
  tr_base = 0;
  tr_limit = 0;
  ldt_selector = 0;
  ldt_base = 0;
  ldt_limit = 0;
  seg_desc = λ s. flat;
  cr0 = 0;
  cr2 = 0;
  cr3 = 0;
  cr4 = 0;
  efer = 0;
  star = 0;
  lstar = 0;
  cstar = 0;
  sfmask = 0;
  fs_base = 0;
  gs_base = 0;
  kernel_gs_base = 0;
  sysenter_cs = 0;
  sysenter_esp = 0;
  sysenter_eip = 0;
  feature_control = 0;
  tlb = λ i. no_entry;
  no_tlb = false;
  phys_ip_cache = 0;
  phys_ip_linear = 0;
  rip_mask = 0xFFFFFFFF;
  phys_ip_valid = false;
  pending_exception = none;
  halted = false;
  triple_faulted = false;
  dr = λ i. 0;
  vmx = Vmx.new;
}

-- AH is the second byte of the first register, and MOV to a doubleword clears what is above it.
register_views :
    (reg8_idx 4 reset ≡ 0x77)
    × (reg8_idx 5 reset ≡ 0x77)
    × (reg_w 1 16 (set_reg_w 1 32 0xFFFF_0001 reset) ≡ 1)
    × (reg_w 1 64 (set_reg_w 1 32 0xFFFF_0001 reset) ≡ 0xFFFF_0001)
unfolding reg8_idx reg_w set_reg_w
register_views = (refl, refl, refl, refl)

modes :
    (mode reset ≡ real)
    × (mode (write_cr0 cr0_pe reset) ≡ protected)
    × (osize reset ≡ 16)
    × (asize reset ≡ 16)
    × (stack_width reset ≡ 16)
    × (is_some (raise_ud reset).pending_exception ≡ true)
    × ((set_seg ss 0x10 reset).selector ss ≡ 0x10)
unfolding mode write_cr0 update_long_mode osize asize stack_width raise_ud set_seg
modes = (refl, refl, refl, refl, refl, refl, refl)

-- The handshake: LME asked for, then paging turned on.
long_mode_entered :
    long_mode (write_cr0 (cr0_pg + cr0_pe) (write_msr 0xC0000080 efer_lme reset)) ≡ true
unfolding long_mode write_cr0 write_msr write_efer update_long_mode
long_mode_entered = refl

small_regs : (k : ℕ) → reset.regs k < 2 ^ 64
small_regs k = ground arith

reg8_idx-set_reg8_idx_example :
    reg8_idx 1 (set_reg8_idx 5 0xAB reset) ≡ (if 5 == 1 then 0xAB else reg8_idx 1 reset)
reg8_idx-set_reg8_idx_example =
    reg8_idx-set_reg8_idx 5 1 0xAB reset (omega arith) (omega arith) (omega arith) small_regs refl

write_cr0-Agrees_example :
    let after = write_cr0 (cr0_pg + cr0_pe) reset in
    Agrees after × (after.pe ≡ has_bits (cr0_pg + cr0_pe) cr0_pe) × (after.cr0 ≡ cr0_pg + cr0_pe)
write_cr0-Agrees_example = write_cr0-Agrees (cr0_pg + cr0_pe) reset

-- Paging on, with one large page that maps the first 4 MiB to themselves.
abbrev paged : Cpu
paged = record reset {
  pe = true;
  cr0 = cr0_pg + cr0_pe;
  cr3 = 0x1000;
  mem = write_u8 0x1000 0x83 (with_size 0x20_0000);
}

abbrev large_page : Mapping
large_page = record {
  phys = 0x5123;
  writable = true;
  user = false;
  exec = true;
  walk = 0x1000 ∷ 0 ∷ 0 ∷ 0 ∷ [];
  walk_len = 1;
  entry_bytes = 4;
}

page_found : walked 0x5123 paged ≡ some large_page
unfolding paging_mode long_mode translate_mode translate_legacy legacy_pd read_u32 write_u8
    with_size slot
page_found = refl

apply_paging_inner-again_example :
    let once = apply_paging_inner 0x5123 true false paged in
    (once.0 ≡ 0x5123) × (apply_paging_inner 0x5123 true false once.1 ≡ once)
unfolding access_allowed cached long_mode cpl
apply_paging_inner-again_example =
    apply_paging_inner-again 0x5123 true false paged large_page (omega arith) refl refl refl
      page_found refl refl

-- Two bytes of code, at an address that the fetch cache already has.
abbrev at_code : Cpu
at_code = record reset {
  mem = write_u8 0x7C01 0xBE (write_u8 0x7C00 0xEF (with_size 0x20_0000));
  ip = 0x7C00;
  phys_ip_cache = 0x7C00;
  phys_ip_linear = 0x7C00;
  phys_ip_valid = true;
}

fetched : (fetch_u16 at_code).0 ≡ 0xBEEF
unfolding fetch_u16 ensure_phys_ip read_u8_raw write_u8 with_size slot
fetched = refl

fetch_u16-fetch_pair_example : fetch_u16 at_code ≡ fetch_pair at_code
unfolding ensure_phys_ip
fetch_u16-fetch_pair_example = fetch_u16-fetch_pair at_code (inl refl) (omega arith)

-- A selector of the local table, and the null selector that clears it; in real mode a segment
-- register is its selector.
tables :
    ((load_ldt 3 (record reset { ldt_limit = 7 })).ldt_limit ≡ 0)
    × ((load_seg ss 0x10 reset).selector ss ≡ 0x10)
    × ((load_seg ss 0x10 paged).seg_desc ss ≡ descriptor_for 0x10 paged)
    × ((load_tr 0x28 paged).tr_selector ≡ 0x28)
unfolding load_ldt load_seg load_tr long_mode set_seg
tables = (refl, refl, refl, refl)

-- `[bx - 1]` with 5 in BX, in 16-bit addressing: the sum of the base and the displacement is not cut
-- to 16 bits.
negative_displacement :
    modrm_offset (record (from_byte 0x47) { disp8 = some 0xFFFF }) (set_reg_w 3 16 5 reset)
    ≡ 0x10004
unfolding modrm_offset base16 from_byte set_reg_w
negative_displacement = refl

-- `[rax + rcx * 4 + 8]`, and a register operand.
operands :
    (modrm_ea32
      (record (from_byte 0x44) { sib = some 0x88; disp32 = some 8 })
      (record (set_reg_w 1 64 3 reset) { addr64 = true })).0
    ≡ u64 (reset.regs 0 + 20)
unfolding modrm_ea32 sum_of indexed based from_byte set_reg_w
operands = refl

register_operand :
    (read_rm_w (from_byte 0xC4) 8 (write_rm_w (from_byte 0xC4) 8 0x99 reset)).0 ≡ 0x99
unfolding read_rm_w write_rm_w is_reg from_byte reg8_idx set_reg8_idx
register_operand = refl
