-- ===== src/Vmx/Field.antt =====
-- The encodings of the fields of a VMCS: `field` of src/vmx.rs. Those of the guest's state are in
-- Field/Guest.
mod Guest
use cuddles.Base.{ℕ}
pub use Guest.{
  guest_es_sel, guest_cs_sel, guest_ss_sel, guest_ds_sel, guest_fs_sel, guest_gs_sel,
  guest_ldtr_sel, guest_tr_sel, guest_efer, guest_es_limit, guest_cs_limit, guest_ss_limit,
  guest_ds_limit, guest_fs_limit, guest_gs_limit, guest_ldtr_limit, guest_tr_limit,
  guest_gdtr_limit, guest_idtr_limit, guest_es_ar, guest_cs_ar, guest_ss_ar, guest_ds_ar,
  guest_fs_ar, guest_gs_ar, guest_ldtr_ar, guest_tr_ar, guest_interruptibility, guest_activity,
  guest_sysenter_cs, guest_cr0, guest_cr3, guest_cr4, guest_es_base, guest_cs_base, guest_ss_base,
  guest_ds_base, guest_fs_base, guest_gs_base, guest_ldtr_base, guest_tr_base, guest_gdtr_base,
  guest_idtr_base, guest_dr7, guest_rsp, guest_rip, guest_rflags, guest_sysenter_esp,
  guest_sysenter_eip,
}

abbrev pub host_es_sel : ℕ
host_es_sel = 0x0C00

abbrev pub host_cs_sel : ℕ
host_cs_sel = 0x0C02

abbrev pub host_ss_sel : ℕ
host_ss_sel = 0x0C04

abbrev pub host_ds_sel : ℕ
host_ds_sel = 0x0C06

abbrev pub host_fs_sel : ℕ
host_fs_sel = 0x0C08

abbrev pub host_gs_sel : ℕ
host_gs_sel = 0x0C0A

abbrev pub host_tr_sel : ℕ
host_tr_sel = 0x0C0C

abbrev pub io_bitmap_a : ℕ
io_bitmap_a = 0x2000

abbrev pub io_bitmap_b : ℕ
io_bitmap_b = 0x2002

abbrev pub msr_bitmap : ℕ
msr_bitmap = 0x2004

abbrev pub host_efer : ℕ
host_efer = 0x2C02

abbrev pub pin_ctls : ℕ
pin_ctls = 0x4000

abbrev pub cpu_ctls : ℕ
cpu_ctls = 0x4002

abbrev pub exception_bitmap : ℕ
exception_bitmap = 0x4004

abbrev pub pf_error_mask : ℕ
pf_error_mask = 0x4006

abbrev pub pf_error_match : ℕ
pf_error_match = 0x4008

abbrev pub cr3_target_count : ℕ
cr3_target_count = 0x400A

abbrev pub exit_ctls : ℕ
exit_ctls = 0x400C

abbrev pub entry_ctls : ℕ
entry_ctls = 0x4012

abbrev pub entry_intr_info : ℕ
entry_intr_info = 0x4016

abbrev pub entry_exception_error : ℕ
entry_exception_error = 0x4018

abbrev pub entry_instr_len : ℕ
entry_instr_len = 0x401A

abbrev pub cpu_ctls2 : ℕ
cpu_ctls2 = 0x401E

abbrev pub instruction_error : ℕ
instruction_error = 0x4400

abbrev pub exit_reason : ℕ
exit_reason = 0x4402

abbrev pub exit_intr_info : ℕ
exit_intr_info = 0x4404

abbrev pub exit_intr_error : ℕ
exit_intr_error = 0x4406

abbrev pub idt_vectoring_info : ℕ
idt_vectoring_info = 0x4408

abbrev pub exit_instr_len : ℕ
exit_instr_len = 0x440C

abbrev pub host_sysenter_cs : ℕ
host_sysenter_cs = 0x4C00

abbrev pub cr0_guest_host_mask : ℕ
cr0_guest_host_mask = 0x6000

abbrev pub cr4_guest_host_mask : ℕ
cr4_guest_host_mask = 0x6002

abbrev pub cr0_read_shadow : ℕ
cr0_read_shadow = 0x6004

abbrev pub cr4_read_shadow : ℕ
cr4_read_shadow = 0x6006

abbrev pub cr3_target0 : ℕ
cr3_target0 = 0x6008

abbrev pub exit_qualification : ℕ
exit_qualification = 0x6400

abbrev pub guest_linear_address : ℕ
guest_linear_address = 0x640A

abbrev pub host_cr0 : ℕ
host_cr0 = 0x6C00

abbrev pub host_cr3 : ℕ
host_cr3 = 0x6C02

abbrev pub host_cr4 : ℕ
host_cr4 = 0x6C04

abbrev pub host_fs_base : ℕ
host_fs_base = 0x6C06

abbrev pub host_gs_base : ℕ
host_gs_base = 0x6C08

abbrev pub host_tr_base : ℕ
host_tr_base = 0x6C0A

abbrev pub host_gdtr_base : ℕ
host_gdtr_base = 0x6C0C

abbrev pub host_idtr_base : ℕ
host_idtr_base = 0x6C0E

abbrev pub host_sysenter_esp : ℕ
host_sysenter_esp = 0x6C10

abbrev pub host_sysenter_eip : ℕ
host_sysenter_eip = 0x6C12

abbrev pub host_rsp : ℕ
host_rsp = 0x6C14

abbrev pub host_rip : ℕ
host_rip = 0x6C16
