-- ===== src/Vmx/Field/Guest.antt =====
-- The encodings of the guest's state in a VMCS: `field` of src/vmx.rs.
use cuddles.Base.{ℕ}

abbrev pub guest_es_sel : ℕ
guest_es_sel = 0x0800

abbrev pub guest_cs_sel : ℕ
guest_cs_sel = 0x0802

abbrev pub guest_ss_sel : ℕ
guest_ss_sel = 0x0804

abbrev pub guest_ds_sel : ℕ
guest_ds_sel = 0x0806

abbrev pub guest_fs_sel : ℕ
guest_fs_sel = 0x0808

abbrev pub guest_gs_sel : ℕ
guest_gs_sel = 0x080A

abbrev pub guest_ldtr_sel : ℕ
guest_ldtr_sel = 0x080C

abbrev pub guest_tr_sel : ℕ
guest_tr_sel = 0x080E

abbrev pub guest_efer : ℕ
guest_efer = 0x2806

abbrev pub guest_es_limit : ℕ
guest_es_limit = 0x4800

abbrev pub guest_cs_limit : ℕ
guest_cs_limit = 0x4802

abbrev pub guest_ss_limit : ℕ
guest_ss_limit = 0x4804

abbrev pub guest_ds_limit : ℕ
guest_ds_limit = 0x4806

abbrev pub guest_fs_limit : ℕ
guest_fs_limit = 0x4808

abbrev pub guest_gs_limit : ℕ
guest_gs_limit = 0x480A

abbrev pub guest_ldtr_limit : ℕ
guest_ldtr_limit = 0x480C

abbrev pub guest_tr_limit : ℕ
guest_tr_limit = 0x480E

abbrev pub guest_gdtr_limit : ℕ
guest_gdtr_limit = 0x4810

abbrev pub guest_idtr_limit : ℕ
guest_idtr_limit = 0x4812

abbrev pub guest_es_ar : ℕ
guest_es_ar = 0x4814

abbrev pub guest_cs_ar : ℕ
guest_cs_ar = 0x4816

abbrev pub guest_ss_ar : ℕ
guest_ss_ar = 0x4818

abbrev pub guest_ds_ar : ℕ
guest_ds_ar = 0x481A

abbrev pub guest_fs_ar : ℕ
guest_fs_ar = 0x481C

abbrev pub guest_gs_ar : ℕ
guest_gs_ar = 0x481E

abbrev pub guest_ldtr_ar : ℕ
guest_ldtr_ar = 0x4820

abbrev pub guest_tr_ar : ℕ
guest_tr_ar = 0x4822

abbrev pub guest_interruptibility : ℕ
guest_interruptibility = 0x4824

abbrev pub guest_activity : ℕ
guest_activity = 0x4826

abbrev pub guest_sysenter_cs : ℕ
guest_sysenter_cs = 0x482A

abbrev pub guest_cr0 : ℕ
guest_cr0 = 0x6800

abbrev pub guest_cr3 : ℕ
guest_cr3 = 0x6802

abbrev pub guest_cr4 : ℕ
guest_cr4 = 0x6804

abbrev pub guest_es_base : ℕ
guest_es_base = 0x6806

abbrev pub guest_cs_base : ℕ
guest_cs_base = 0x6808

abbrev pub guest_ss_base : ℕ
guest_ss_base = 0x680A

abbrev pub guest_ds_base : ℕ
guest_ds_base = 0x680C

abbrev pub guest_fs_base : ℕ
guest_fs_base = 0x680E

abbrev pub guest_gs_base : ℕ
guest_gs_base = 0x6810

abbrev pub guest_ldtr_base : ℕ
guest_ldtr_base = 0x6812

abbrev pub guest_tr_base : ℕ
guest_tr_base = 0x6814

abbrev pub guest_gdtr_base : ℕ
guest_gdtr_base = 0x6816

abbrev pub guest_idtr_base : ℕ
guest_idtr_base = 0x6818

abbrev pub guest_dr7 : ℕ
guest_dr7 = 0x681A

abbrev pub guest_rsp : ℕ
guest_rsp = 0x681C

abbrev pub guest_rip : ℕ
guest_rip = 0x681E

abbrev pub guest_rflags : ℕ
guest_rflags = 0x6820

abbrev pub guest_sysenter_esp : ℕ
guest_sysenter_esp = 0x6824

abbrev pub guest_sysenter_eip : ℕ
guest_sysenter_eip = 0x6826
