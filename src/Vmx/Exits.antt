-- ===== src/Vmx/Exits.antt =====
-- How a guest is left in src/vmx.rs: the state of the host, the record of the reason, and what makes
-- the events, the accesses to control registers, the model-specific registers and the ports of a
-- guest leave it.
use cuddles.Base.{
  ℕ, zero, suc, ◌+◌, ◌-◌, ◌*◌, ◌/◌, ◌%◌, ◌^◌, min, Bool, true, false, not, ◌&&◌, ◌||◌, Option, none,
  some, List, [], ◌∷◌, bit_or, bit_and, bit_not, ◌==◌, ltb, leb, if◌then◌else◌, ◌<<<◌, ◌>>>◌, u16,
  u32, u64, update, has_bits,
}
use Prim.Native.Nat.{bit_xor}
use cuddles.Memory.{read_u8}
use cuddles.Protected.{Descriptor}
use cuddles.Alu.{IF, get_flag, always_set}
use cuddles.Cpu.{
  Cpu, SegReg, cs, ss, ds, es, fs, gs, seg_eq, set_seg, long_mode, write_cr0, flush_tlb,
  invalidate_phys_ip, efer_lme, efer_lma, is_some, reg_w,
}
use cuddles.Vmx.{read, write, write_all, cr_qual}
use cuddles.Vmx.Field
use cuddles.Vmx.Reason
use cuddles.Vmx.Controls.{
  exit_host_addr_space_size, exit_load_efer, exit_save_efer, cpu_int_window_exiting,
  cpu_cr3_load_exiting, cpu_cr8_load_exiting, cpu_uncond_io_exiting, cpu_use_io_bitmaps,
}
use cuddles.Vmx.Guest.{save_guest_state}

abbrev host_segs : List (SegReg × ℕ)
host_segs =
    (cs, Field.host_cs_sel)
    ∷ (ss, Field.host_ss_sel)
    ∷ (ds, Field.host_ds_sel)
    ∷ (es, Field.host_es_sel)
    ∷ (fs, Field.host_fs_sel)
    ∷ (gs, Field.host_gs_sel)
    ∷ []

-- Flat segments: the code of the host's width, and writable data.
abbrev pub host_descriptor : Bool → SegReg → Descriptor
host_descriptor host_long s =
    if seg_eq s cs
    then record {
      base = 0;
      limit = 0xFFFF_FFFF;
      attr = 0x9B;
      g = true;
      d_b = not host_long;
      l = host_long;
    }
    else record { base = 0; limit = 0xFFFF_FFFF; attr = 0x93; g = true; d_b = true; l = false }

unfoldable pub load_host_segs : Bool → List (SegReg × ℕ) → Cpu → Cpu
load_host_segs host_long [] c = c
load_host_segs host_long ((s, sel) ∷ rest) c =
    let selected = set_seg s (u16 (read sel c.vmx)) c in
    load_host_segs host_long rest (record selected {
      seg_desc = λ t. if seg_eq s t then host_descriptor host_long s else c.seg_desc t;
    })

unfoldable pub host_efer : Cpu → ℕ
host_efer c =
    let exit = u32 (read Field.exit_ctls c.vmx) in
    if has_bits exit exit_load_efer
    then read Field.host_efer c.vmx
    else if has_bits exit exit_host_addr_space_size
    then bit_or c.efer efer_lme
    else bit_and c.efer (bit_not 64 (bit_or efer_lme efer_lma))

unfoldable pub load_host_state : Cpu → Cpu
load_host_state c =
    let x = c.vmx in
    let host_long = has_bits (u32 (read Field.exit_ctls x)) exit_host_addr_space_size in
    let moded = record c {
      efer = bit_and (host_efer c) (bit_not 64 efer_lma);
      cr4 = u32 (read Field.host_cr4 x);
      cr3 = read Field.host_cr3 x;
    } in
    let paged = flush_tlb (write_cr0 (u32 (read Field.host_cr0 x)) moded) in
    let loaded = record paged {
      rip = read Field.host_rip x;
      regs = update paged.regs 4 (read Field.host_rsp x);
      flags = always_set;
      dr = update paged.dr 7 0x400;
      sysenter_cs = u32 (read Field.host_sysenter_cs x);
      sysenter_esp = u32 (read Field.host_sysenter_esp x);
      sysenter_eip = u32 (read Field.host_sysenter_eip x);
      gdt_base = read Field.host_gdtr_base x;
      gdt_limit = 0xFFFF;
      idt_base = read Field.host_idtr_base x;
      idt_limit = 0xFFFF;
      ldt_selector = 0;
      ldt_base = 0;
      ldt_limit = 0;
      tr_selector = u16 (read Field.host_tr_sel x);
      tr_base = read Field.host_tr_base x;
      tr_limit = 0x67;
    } in
    let segmented = load_host_segs host_long host_segs loaded in
    invalidate_phys_ip (record segmented {
      fs_base = read Field.host_fs_base x;
      gs_base = read Field.host_gs_base x;
      halted = false;
      pending_exception = none;
    })

-- Exits between instructions report the next one, the others the one that was decoded.
abbrev pub is_between : ℕ → Bool
is_between reason =
    reason == Reason.external_interrupt
    || (reason == Reason.interrupt_window || reason == Reason.triple_fault)

-- What an exit records.
abbrev pub exit_writes : ℕ → ℕ → ℕ → ℕ → ℕ → List (ℕ × ℕ)
exit_writes reason qualification len intr_info intr_error =
    (Field.exit_reason, reason)
    ∷ (Field.exit_qualification, qualification)
    ∷ (Field.exit_instr_len, len)
    ∷ (Field.exit_intr_info, intr_info)
    ∷ (Field.exit_intr_error, intr_error)
    ∷ (Field.idt_vectoring_info, 0)
    ∷ []

unfoldable pub vm_exit : ℕ → ℕ → ℕ → ℕ → Cpu → Cpu
vm_exit reason qualification intr_info intr_error c =
    let len = if is_between reason then 0 else u64 (c.rip + 2 ^ 64 - c.rip_start) in
    let guest_rip = if is_between reason then c.rip else c.rip_start in
    let saved = save_guest_state (record c { rip = guest_rip }) in
    let recorded =
      write_all (exit_writes reason qualification len intr_info intr_error) saved.vmx in
    let addressed =
      if reason == Reason.exception_nmi && bit_and intr_info 0xFF == 0x0E
      then write Field.guest_linear_address c.cr2 recorded
      else recorded in
    let finished =
      if has_bits (u32 (read Field.exit_ctls addressed)) exit_save_efer
      then write Field.guest_efer c.efer addressed
      else addressed in
    load_host_state (record saved { rip = c.rip; vmx = record finished { in_guest = false } })

-- An interrupt window opens as soon as the guest can be interrupted.
unfoldable pub pre_step : Cpu → Cpu
pre_step c =
    let ctl = u32 (read Field.cpu_ctls c.vmx) in
    if has_bits ctl cpu_int_window_exiting
      && (get_flag IF c.flags && not (is_some c.pending_exception))
    then vm_exit Reason.interrupt_window 0 0 0 c
    else c

-- Whether an exception leaves the guest: a page fault only if its code matches.
unfoldable pub exception_exits : ℕ → Option ℕ → Cpu → Bool
exception_exits vector code c =
    let bitmap = u32 (read Field.exception_bitmap c.vmx) in
    let mask = u32 (read Field.pf_error_mask c.vmx) in
    let match_with = u32 (read Field.pf_error_match c.vmx) in
    let given = elim code as (λ o. ℕ) [ some e ↦ e | none ↦ 0 ] in
    not (bit_and bitmap (1 <<< vector) == 0)
    && (not (vector == 0x0E) || bit_and given mask == match_with)

unfoldable pub exception_info : ℕ → Option ℕ → ℕ
exception_info vector code =
    let ty = if vector == 3 || vector == 4 then 6 else 3 in
    let info = bit_or (bit_or (2 ^ 31) (ty <<< 8)) vector in
    if is_some code then bit_or info (2 ^ 11) else info

unfoldable pub exception_exit : ℕ → Option ℕ → Cpu → Cpu × Bool
exception_exit vector code c =
    let qual = if vector == 0x0E then c.cr2 else 0 in
    let given = elim code as (λ o. ℕ) [ some e ↦ e | none ↦ 0 ] in
    if exception_exits vector code c
    then (
      vm_exit Reason.exception_nmi qual (exception_info vector code) given
          (record c { rip = c.rip_start }),
      true,
    )
    else (c, false)

abbrev pub triple_fault_exit : Cpu → Cpu
triple_fault_exit c = vm_exit Reason.triple_fault 0 0 0 c

-- Whether one of the first targets on the list is the value.
unfoldable pub is_cr3_target : ℕ → ℕ → ℕ → Cpu → Bool
is_cr3_target zero i v c = false
is_cr3_target (suc left) i v c =
    read (Field.cr3_target0 + 2 * i) c.vmx == v || is_cr3_target left (i + 1) v c

-- MOV to a control register in the guest, and whether that was all of the instruction.
unfoldable pub cr_write_intercept : ℕ → ℕ → ℕ → Cpu → Cpu × Bool
cr_write_intercept cr reg ctl c =
    let v = reg_w reg (if long_mode c then 64 else 32) c in
    let cur = if cr == 0 then c.cr0 else c.cr4 in
    let mask =
      read (if cr == 0 then Field.cr0_guest_host_mask else Field.cr4_guest_host_mask) c.vmx in
    let shadow = read (if cr == 0 then Field.cr0_read_shadow else Field.cr4_read_shadow) c.vmx in
    let new = bit_or (bit_and v (bit_not 64 mask)) (bit_and cur mask) in
    let left : Cpu × Bool = (vm_exit Reason.cr_access (cr_qual cr 0 reg 0) 0 0 c, true) in
    if cr == 3
    then if has_bits ctl cpu_cr3_load_exiting
        && not (is_cr3_target (min (read Field.cr3_target_count c.vmx) 4) 0 v c)
      then left
      else (c, false)
    else if cr == 8
    then if has_bits ctl cpu_cr8_load_exiting then left else (c, false)
    else if cr == 0 || cr == 4
    then if not (bit_and (bit_xor v shadow) mask == 0) then left else (
      (if cr == 0 then write_cr0 (u32 new) c else flush_tlb (record c { cr4 = u32 new })),
      true,
    )
    else (c, false)

-- MOV from CR0 or CR4 in the guest: the host's bits are read from the shadow.
unfoldable pub shadowed : ℕ → Cpu → ℕ
shadowed cr c =
    let val = if cr == 0 then c.cr0 else c.cr4 in
    let mask =
      read (if cr == 0 then Field.cr0_guest_host_mask else Field.cr4_guest_host_mask) c.vmx in
    let shadow = read (if cr == 0 then Field.cr0_read_shadow else Field.cr4_read_shadow) c.vmx in
    bit_or (bit_and val (bit_not 64 mask)) (bit_and shadow mask)

unfoldable pub io_exits : ℕ → ℕ → Cpu → Bool
io_exits port ctl c =
    let low = ltb port 0x8000 in
    let bm = read (if low then Field.io_bitmap_a else Field.io_bitmap_b) c.vmx in
    let p = if low then port else port - 0x8000 in
    if has_bits ctl cpu_uncond_io_exiting
    then true
    else if has_bits ctl cpu_use_io_bitmaps
    then bit_and (read_u8 c.mem (bm + p / 8) >>> (p % 8)) 1 == 1
    else false

unfoldable pub io_intercept : ℕ → ℕ → Bool → Bool → ℕ → Cpu → Cpu × Bool
io_intercept port size input imm ctl c =
    let q =
      bit_or
        (bit_or (bit_or (size - 1) ((if input then 1 else 0) <<< 3)) ((if imm then 1 else 0) <<< 6))
        (port <<< 16) in
    if io_exits port ctl c then (vm_exit Reason.io_instruction q 0 0 c, true) else (c, false)

-- The bitmap of the model-specific registers: two ranges for reads, then two for writes.
unfoldable pub msr_bitmap_hit : ℕ → Bool → Cpu → Bool
msr_bitmap_hit idx write c =
    let bm = read Field.msr_bitmap c.vmx in
    let hit = λ (base off : ℕ).
      bit_and (read_u8 c.mem (bm + (base + (if write then 2048 else 0)) + off / 8) >>> (off % 8)) 1
      == 1 in
    if ltb idx 0x2000
    then hit 0 idx
    else if leb 0xC000_0000 idx && ltb idx 0xC000_2000
    then hit 1024 (idx - 0xC000_0000)
    else true
