-- ===== src/Vmx/Capability.antt =====
-- The capability registers of src/vmx.rs.
use cuddles.Base.{ℕ, Option, none, some, bit_or, ◌==◌, if◌then◌else◌, ◌<<<◌}
use cuddles.Vmx.{highest_index}
use cuddles.Vmx.Controls.{
  vmcs_revision, pin_default1, pin_allowed1, cpu_default1, cpu_allowed1, exit_default1,
  exit_allowed1, entry_default1, entry_allowed1, cpu2_allowed1, cr0_fixed0, cr0_fixed1, cr4_fixed0,
  cr4_fixed1,
}

abbrev ctl : ℕ → ℕ → Option ℕ
ctl allowed0 allowed1 = some (bit_or (allowed1 <<< 32) allowed0)

unfoldable pub read_capability_msr : ℕ → Option ℕ
read_capability_msr index =
    if index == 0x480
    then some (
        bit_or (bit_or (bit_or (bit_or vmcs_revision (4096 <<< 32)) (6 <<< 50)) (1 <<< 54))
          (1 <<< 55))
    else if index == 0x481
    then ctl pin_default1 pin_allowed1
    else if index == 0x482
    then ctl cpu_default1 cpu_allowed1
    else if index == 0x483
    then ctl exit_default1 exit_allowed1
    else if index == 0x484
    then ctl entry_default1 entry_allowed1
    else if index == 0x48D
    then ctl 0 pin_allowed1
    else if index == 0x48E
    then ctl 0 cpu_allowed1
    else if index == 0x48F
    then ctl 0 exit_allowed1
    else if index == 0x490
    then ctl 0 entry_allowed1
    else if index == 0x485
    then some (bit_or (bit_or (bit_or 5 (1 <<< 5)) (1 <<< 6)) (4 <<< 16))
    else if index == 0x486
    then some cr0_fixed0
    else if index == 0x487
    then some cr0_fixed1
    else if index == 0x488
    then some cr4_fixed0
    else if index == 0x489
    then some cr4_fixed1
    else if index == 0x48A
    then some (highest_index <<< 1)
    else if index == 0x48B
    then ctl 0 cpu2_allowed1
    else if index == 0x48C
    then some (bit_or (1 <<< 32) (0xF <<< 40))
    else if index == 0x491
    then some 0
    else none
