-- ===== src/Vmx/Saved.antt =====
-- What the guest-state area of src/vmx.rs reads as once `save_guest_state` has written it.
use cuddles.Base.{◌%◌, ◌^◌, ◌≡◌, refl, if◌then◌else◌}
use cuddles.Cpu.{Cpu, SegReg, cs, ss, ds, es, fs, gs}
use cuddles.Vmx.{Vmx, read, write, slot, width_of, write_all, ar_of}
use cuddles.Vmx.Field
use cuddles.Vmx.Slots.{written_low}
use cuddles.Vmx.Guest.{SegFields, save_guest_state, saved_base, is_usable}

-- The fields of a segment.
abbrev pub fields_of : SegReg → SegFields
fields_of es = record {
  seg = es;
  sel = Field.guest_es_sel;
  base = Field.guest_es_base;
  limit = Field.guest_es_limit;
  ar = Field.guest_es_ar;
}
fields_of cs = record {
  seg = cs;
  sel = Field.guest_cs_sel;
  base = Field.guest_cs_base;
  limit = Field.guest_cs_limit;
  ar = Field.guest_cs_ar;
}
fields_of ss = record {
  seg = ss;
  sel = Field.guest_ss_sel;
  base = Field.guest_ss_base;
  limit = Field.guest_ss_limit;
  ar = Field.guest_ss_ar;
}
fields_of ds = record {
  seg = ds;
  sel = Field.guest_ds_sel;
  base = Field.guest_ds_base;
  limit = Field.guest_ds_limit;
  ar = Field.guest_ds_ar;
}
fields_of fs = record {
  seg = fs;
  sel = Field.guest_fs_sel;
  base = Field.guest_fs_base;
  limit = Field.guest_fs_limit;
  ar = Field.guest_fs_ar;
}
fields_of gs = record {
  seg = gs;
  sel = Field.guest_gs_sel;
  base = Field.guest_gs_base;
  limit = Field.guest_gs_limit;
  ar = Field.guest_gs_ar;
}

module _ (c : Cpu) where
  abbrev pub saved : Vmx
  saved = (save_guest_state c).vmx

  -- The controls of the entry are no part of the area.
  pub entry_ctls-saved : read Field.entry_ctls saved ≡ read Field.entry_ctls c.vmx
  unfolding save_guest_state read write slot write_all
  entry_ctls-saved = refl

  pub saved_registers :
      (read Field.guest_rip saved ≡ c.rip % 2 ^ 64)
      × (read Field.guest_rsp saved ≡ c.regs 4 % 2 ^ 64)
      × (read Field.guest_cr3 saved ≡ c.cr3 % 2 ^ 64)
      × (read Field.guest_rflags saved ≡ c.flags % 2 ^ 64)
      × (read Field.guest_dr7 saved ≡ c.dr 7 % 2 ^ 64)
      × (read Field.guest_sysenter_cs saved ≡ c.sysenter_cs % 2 ^ 32)
      × (read Field.guest_sysenter_esp saved ≡ c.sysenter_esp % 2 ^ 64)
      × (read Field.guest_sysenter_eip saved ≡ c.sysenter_eip % 2 ^ 64)
      × (read Field.guest_activity saved ≡ (if c.halted then 1 else 0) % 2 ^ 32)
      × (read Field.guest_cr0 saved ≡ c.cr0 % 2 ^ 64)
      × (read Field.guest_cr4 saved ≡ c.cr4 % 2 ^ 64)
      × (read Field.guest_efer saved ≡ c.efer % 2 ^ 64)
  unfolding save_guest_state read write slot write_all width_of
  saved_registers = (
    written_low Field.guest_rip _ (c.rip) refl,
    written_low Field.guest_rsp _ (c.regs 4) refl,
    written_low Field.guest_cr3 _ (c.cr3) refl,
    written_low Field.guest_rflags _ (c.flags) refl,
    written_low Field.guest_dr7 _ (c.dr 7) refl,
    written_low Field.guest_sysenter_cs _ (c.sysenter_cs) refl,
    written_low Field.guest_sysenter_esp _ (c.sysenter_esp) refl,
    written_low Field.guest_sysenter_eip _ (c.sysenter_eip) refl,
    written_low Field.guest_activity _ ((if c.halted then 1 else 0)) refl,
    written_low Field.guest_cr0 _ (c.cr0) refl,
    written_low Field.guest_cr4 _ (c.cr4) refl,
    written_low Field.guest_efer _ (c.efer) refl,
  )

  pub saved_tables :
      (read Field.guest_gdtr_base saved ≡ c.gdt_base % 2 ^ 64)
      × (read Field.guest_gdtr_limit saved ≡ c.gdt_limit % 2 ^ 32)
      × (read Field.guest_idtr_base saved ≡ c.idt_base % 2 ^ 64)
      × (read Field.guest_idtr_limit saved ≡ c.idt_limit % 2 ^ 32)
      × (read Field.guest_ldtr_sel saved ≡ c.ldt_selector % 2 ^ 16)
      × (read Field.guest_ldtr_base saved ≡ c.ldt_base % 2 ^ 64)
      × (read Field.guest_ldtr_limit saved ≡ c.ldt_limit % 2 ^ 32)
      × (read Field.guest_tr_sel saved ≡ c.tr_selector % 2 ^ 16)
      × (read Field.guest_tr_base saved ≡ c.tr_base % 2 ^ 64)
      × (read Field.guest_tr_limit saved ≡ c.tr_limit % 2 ^ 32)
  unfolding save_guest_state read write slot write_all width_of
  saved_tables = (
    written_low Field.guest_gdtr_base _ (c.gdt_base) refl,
    written_low Field.guest_gdtr_limit _ (c.gdt_limit) refl,
    written_low Field.guest_idtr_base _ (c.idt_base) refl,
    written_low Field.guest_idtr_limit _ (c.idt_limit) refl,
    written_low Field.guest_ldtr_sel _ (c.ldt_selector) refl,
    written_low Field.guest_ldtr_base _ (c.ldt_base) refl,
    written_low Field.guest_ldtr_limit _ (c.ldt_limit) refl,
    written_low Field.guest_tr_sel _ (c.tr_selector) refl,
    written_low Field.guest_tr_base _ (c.tr_base) refl,
    written_low Field.guest_tr_limit _ (c.tr_limit) refl,
  )

  pub saved_segment :
      (s : SegReg)
      → let f = fields_of s in
        (read f.sel saved ≡ c.selector s % 2 ^ 16)
        × (read f.base saved ≡ saved_base s c % 2 ^ 64)
        × (read f.limit saved ≡ (c.seg_desc s).limit % 2 ^ 32)
        × (read f.ar saved ≡ ar_of (c.seg_desc s) (is_usable s c) % 2 ^ 32)
  unfolding save_guest_state read write slot write_all width_of
  saved_segment es = (
    written_low Field.guest_es_sel _ (c.selector es) refl,
    written_low Field.guest_es_base _ (saved_base es c) refl,
    written_low Field.guest_es_limit _ ((c.seg_desc es).limit) refl,
    written_low Field.guest_es_ar _ (ar_of (c.seg_desc es) (is_usable es c)) refl,
  )
  saved_segment cs = (
    written_low Field.guest_cs_sel _ (c.selector cs) refl,
    written_low Field.guest_cs_base _ (saved_base cs c) refl,
    written_low Field.guest_cs_limit _ ((c.seg_desc cs).limit) refl,
    written_low Field.guest_cs_ar _ (ar_of (c.seg_desc cs) (is_usable cs c)) refl,
  )
  saved_segment ss = (
    written_low Field.guest_ss_sel _ (c.selector ss) refl,
    written_low Field.guest_ss_base _ (saved_base ss c) refl,
    written_low Field.guest_ss_limit _ ((c.seg_desc ss).limit) refl,
    written_low Field.guest_ss_ar _ (ar_of (c.seg_desc ss) (is_usable ss c)) refl,
  )
  saved_segment ds = (
    written_low Field.guest_ds_sel _ (c.selector ds) refl,
    written_low Field.guest_ds_base _ (saved_base ds c) refl,
    written_low Field.guest_ds_limit _ ((c.seg_desc ds).limit) refl,
    written_low Field.guest_ds_ar _ (ar_of (c.seg_desc ds) (is_usable ds c)) refl,
  )
  saved_segment fs = (
    written_low Field.guest_fs_sel _ (c.selector fs) refl,
    written_low Field.guest_fs_base _ (saved_base fs c) refl,
    written_low Field.guest_fs_limit _ ((c.seg_desc fs).limit) refl,
    written_low Field.guest_fs_ar _ (ar_of (c.seg_desc fs) (is_usable fs c)) refl,
  )
  saved_segment gs = (
    written_low Field.guest_gs_sel _ (c.selector gs) refl,
    written_low Field.guest_gs_base _ (saved_base gs c) refl,
    written_low Field.guest_gs_limit _ ((c.seg_desc gs).limit) refl,
    written_low Field.guest_gs_ar _ (ar_of (c.seg_desc gs) (is_usable gs c)) refl,
  )
