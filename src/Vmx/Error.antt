-- ===== src/Vmx/Error.antt =====
-- The errors of VMX instructions: `err` of src/vmx.rs.
use cuddles.Base.{ℕ}

abbrev pub vmcall_in_root : ℕ
vmcall_in_root = 1

abbrev pub vmclear_bad_addr : ℕ
vmclear_bad_addr = 2

abbrev pub vmclear_vmxon_ptr : ℕ
vmclear_vmxon_ptr = 3

abbrev pub vmlaunch_not_clear : ℕ
vmlaunch_not_clear = 4

abbrev pub vmresume_not_launched : ℕ
vmresume_not_launched = 5

abbrev pub entry_invalid_controls : ℕ
entry_invalid_controls = 7

abbrev pub entry_invalid_host_state : ℕ
entry_invalid_host_state = 8

abbrev pub vmptrld_bad_addr : ℕ
vmptrld_bad_addr = 9

abbrev pub vmptrld_vmxon_ptr : ℕ
vmptrld_vmxon_ptr = 10

abbrev pub vmptrld_bad_revision : ℕ
vmptrld_bad_revision = 11

abbrev pub vmread_write_bad_field : ℕ
vmread_write_bad_field = 12

abbrev pub vmwrite_read_only : ℕ
vmwrite_read_only = 13

abbrev pub vmxon_in_root : ℕ
vmxon_in_root = 15

abbrev pub invalid_operand : ℕ
invalid_operand = 28
