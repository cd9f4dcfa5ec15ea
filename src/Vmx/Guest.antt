-- ===== src/Vmx/Guest.antt =====
-- The switches between a guest and its host in src/vmx.rs: what of the processor's state is saved and
-- loaded.
use cuddles.Base.{
  ℕ, ◌^◌, Bool, not, ◌||◌, List, [], ◌∷◌, bit_or, bit_and, bit_not, ◌==◌, if◌then◌else◌, u16, u32,
  update, has_bits,
}
use cuddles.Protected.{present}
use cuddles.Alu.{writable_flags, always_set}
use cuddles.Cpu.{
  Cpu, SegReg, cs, ss, ds, es, fs, gs, seg_eq, set_seg, long_mode, write_cr0, flush_tlb,
  invalidate_phys_ip, efer_lme, efer_lma,
}
use cuddles.Vmx.{read, write_all, ar_of, desc_of}
use cuddles.Vmx.Field
use cuddles.Vmx.Controls.{entry_load_efer, entry_ia32e_guest, cr0_fixed0, cr4_fixed0}

-- A segment with the fields of its selector, base, limit and rights.
pub record SegFields : Type 0 where
  pub seg : SegReg
  pub sel : ℕ
  pub base : ℕ
  pub limit : ℕ
  pub ar : ℕ

abbrev pub segs : List SegFields
segs =
    record {
      seg = es;
      sel = Field.guest_es_sel;
      base = Field.guest_es_base;
      limit = Field.guest_es_limit;
      ar = Field.guest_es_ar;
    }
    ∷ record {
      seg = cs;
      sel = Field.guest_cs_sel;
      base = Field.guest_cs_base;
      limit = Field.guest_cs_limit;
      ar = Field.guest_cs_ar;
    }
    ∷ record {
      seg = ss;
      sel = Field.guest_ss_sel;
      base = Field.guest_ss_base;
      limit = Field.guest_ss_limit;
      ar = Field.guest_ss_ar;
    }
    ∷ record {
      seg = ds;
      sel = Field.guest_ds_sel;
      base = Field.guest_ds_base;
      limit = Field.guest_ds_limit;
      ar = Field.guest_ds_ar;
    }
    ∷ record {
      seg = fs;
      sel = Field.guest_fs_sel;
      base = Field.guest_fs_base;
      limit = Field.guest_fs_limit;
      ar = Field.guest_fs_ar;
    }
    ∷ record {
      seg = gs;
      sel = Field.guest_gs_sel;
      base = Field.guest_gs_base;
      limit = Field.guest_gs_limit;
      ar = Field.guest_gs_ar;
    }
    ∷ []

abbrev pub null_selector : ℕ → Bool
null_selector sel = bit_and sel (bit_not 16 3) == 0

-- What is saved of a segment: FS and GS have their bases elsewhere in long mode.
unfoldable pub saved_base : SegReg → Cpu → ℕ
saved_base fs c = if long_mode c then c.fs_base else (c.seg_desc fs).base
saved_base gs c = if long_mode c then c.gs_base else (c.seg_desc gs).base
saved_base s c = (c.seg_desc s).base

unfoldable pub is_usable : SegReg → Cpu → Bool
is_usable s c =
    seg_eq s cs || (seg_eq s ss || (not (null_selector (c.selector s)) || present (c.seg_desc s)))

abbrev pub segment_writes : Cpu → List SegFields → List (ℕ × ℕ)
segment_writes c [] = []
segment_writes c (f ∷ rest) =
    let d = c.seg_desc f.seg in
    (f.sel, c.selector f.seg)
    ∷ (f.base, saved_base f.seg c)
    ∷ (f.limit, d.limit)
    ∷ (f.ar, ar_of d (is_usable f.seg c))
    ∷ segment_writes c rest

abbrev pub guest_writes : Cpu → List (ℕ × ℕ)
guest_writes c =
    (Field.guest_cr0, c.cr0)
    ∷ (Field.guest_cr3, c.cr3)
    ∷ (Field.guest_cr4, c.cr4)
    ∷ (Field.guest_rip, c.rip)
    ∷ (Field.guest_rsp, c.regs 4)
    ∷ (Field.guest_rflags, c.flags)
    ∷ (Field.guest_dr7, c.dr 7)
    ∷ (Field.guest_efer, c.efer)
    ∷ (Field.guest_sysenter_cs, c.sysenter_cs)
    ∷ (Field.guest_sysenter_esp, c.sysenter_esp)
    ∷ (Field.guest_sysenter_eip, c.sysenter_eip)
    ∷ (Field.guest_gdtr_base, c.gdt_base)
    ∷ (Field.guest_gdtr_limit, c.gdt_limit)
    ∷ (Field.guest_idtr_base, c.idt_base)
    ∷ (Field.guest_idtr_limit, c.idt_limit)
    ∷ (Field.guest_ldtr_sel, c.ldt_selector)
    ∷ (Field.guest_ldtr_base, c.ldt_base)
    ∷ (Field.guest_ldtr_limit, c.ldt_limit)
    ∷ (Field.guest_ldtr_ar, if null_selector c.ldt_selector then 2 ^ 16 else 0x82)
    ∷ (Field.guest_tr_sel, c.tr_selector)
    ∷ (Field.guest_tr_base, c.tr_base)
    ∷ (Field.guest_tr_limit, c.tr_limit)
    ∷ (Field.guest_tr_ar, 0x8B)
    ∷ (Field.guest_activity, if c.halted then 1 else 0)
    ∷ (Field.guest_interruptibility, 0)
    ∷ segment_writes c segs

unfoldable pub save_guest_state : Cpu → Cpu
save_guest_state c = record c { vmx = write_all (guest_writes c) c.vmx }

-- The EFER of the state that is entered, with LMA left to the write of CR0.
unfoldable pub entry_efer : Cpu → ℕ
entry_efer c =
    let entry = u32 (read Field.entry_ctls c.vmx) in
    if has_bits entry entry_load_efer
    then read Field.guest_efer c.vmx
    else if has_bits entry entry_ia32e_guest
    then bit_or c.efer efer_lme
    else bit_and c.efer (bit_not 64 (bit_or efer_lme efer_lma))

-- A segment of the guest.
unfoldable pub load_segment : SegFields → Cpu → Cpu
load_segment f c =
    let base = read f.base c.vmx in
    let d = desc_of base (u32 (read f.limit c.vmx)) (u32 (read f.ar c.vmx)) in
    let selected = set_seg f.seg (u16 (read f.sel c.vmx)) c in
    record selected {
      seg_desc = λ t. if seg_eq f.seg t then d else c.seg_desc t;
      fs_base = if seg_eq f.seg fs then base else c.fs_base;
      gs_base = if seg_eq f.seg gs then base else c.gs_base;
    }

unfoldable pub load_segments : List SegFields → Cpu → Cpu
load_segments [] c = c
load_segments (f ∷ rest) c = load_segments rest (load_segment f c)

unfoldable pub load_guest_state : Cpu → Cpu
load_guest_state c =
    let x = c.vmx in
    let cr0 = bit_or (read Field.guest_cr0 x) cr0_fixed0 in
    let moded = record c {
      efer = bit_and (entry_efer c) (bit_not 64 efer_lma);
      cr4 = u32 (bit_or (read Field.guest_cr4 x) cr4_fixed0);
      cr3 = read Field.guest_cr3 x;
    } in
    let paged = flush_tlb (write_cr0 (u32 cr0) moded) in
    let loaded = record paged {
      rip = read Field.guest_rip x;
      regs = update paged.regs 4 (read Field.guest_rsp x);
      flags = bit_or (bit_and (u32 (read Field.guest_rflags x)) writable_flags) always_set;
      dr = update paged.dr 7 (read Field.guest_dr7 x);
      sysenter_cs = u32 (read Field.guest_sysenter_cs x);
      sysenter_esp = u32 (read Field.guest_sysenter_esp x);
      sysenter_eip = u32 (read Field.guest_sysenter_eip x);
      gdt_base = read Field.guest_gdtr_base x;
      gdt_limit = u16 (read Field.guest_gdtr_limit x);
      idt_base = read Field.guest_idtr_base x;
      idt_limit = u16 (read Field.guest_idtr_limit x);
      ldt_selector = u16 (read Field.guest_ldtr_sel x);
      ldt_base = read Field.guest_ldtr_base x;
      ldt_limit = u32 (read Field.guest_ldtr_limit x);
      tr_selector = u16 (read Field.guest_tr_sel x);
      tr_base = read Field.guest_tr_base x;
      tr_limit = u32 (read Field.guest_tr_limit x);
    } in
    let segmented = load_segments segs loaded in
    invalidate_phys_ip (record segmented { halted = read Field.guest_activity x == 1 })
