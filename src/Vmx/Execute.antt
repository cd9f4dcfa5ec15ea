-- ===== src/Vmx/Execute.antt =====
-- `execute_vmx` of src/vmx.rs: the VMX instructions in root operation, and the entry of a guest.
use cuddles.Base.{
  ℕ, ◌+◌, ◌-◌, ◌*◌, ◌^◌, Bool, true, false, not, ◌&&◌, ◌||◌, Option, none, some, bit_or, bit_and,
  bit_not, ◌==◌, ltb, if◌then◌else◌, ◌>>>◌, u16, u32, u64, has_bits,
}
use cuddles.Memory.{Memory, read_u32, read_u64, write_u64}
use cuddles.Memory.Tables.{write_table}
use cuddles.Alu.{CF, PF, AF, ZF, SF, OF}
use cuddles.Cpu.{Cpu, cpl, is_some, long64, raise_ud, raise_gp, reg_w, flush_tlb}
use cuddles.Cpu.ModRm.{ModRm, is_reg, rm_addr, read_rm_w, write_rm_w}
use cuddles.Vmx.{
  Vmx, slots, slot, is_read_only, read, write, launched, set_launched, launch_slot, bad_region_ptr,
}
use cuddles.Vmx.Field
use cuddles.Vmx.Error
use cuddles.Vmx.Controls.{
  feat_locked, feat_vmx_outside_smx, vmcs_revision, pin_allowed1, cpu_allowed1, exit_allowed1,
  entry_allowed1, cpu2_allowed1, cpu_secondary_controls, cr0_fixed0, cr4_fixed0,
  exit_host_addr_space_size,
}
use cuddles.Vmx.Guest.{load_guest_state}
use cuddles.Interrupts.Dispatch.{dispatch_exception_raw}

pub data VmxOp : Type 0 where
  vmxon : VmxOp
  vmxoff : VmxOp
  vmclear : VmxOp
  vmptrld : VmxOp
  vmptrst : VmxOp
  vmread : VmxOp
  vmwrite : VmxOp
  vmlaunch : VmxOp
  vmresume : VmxOp
  vmcall : VmxOp
  invept : VmxOp
  invvpid : VmxOp

-- The flags of the three outcomes.
abbrev pub status_flags : ℕ
status_flags = bit_or (bit_or (bit_or (bit_or (bit_or CF PF) AF) ZF) SF) OF

unfoldable pub vm_succeed : Cpu → Cpu
vm_succeed c = record c { flags = bit_and c.flags (bit_not 32 status_flags) }

unfoldable pub vm_fail_invalid : Cpu → Cpu
unfolding vm_succeed
vm_fail_invalid c = let d = vm_succeed c in record d { flags = bit_or d.flags CF }

unfoldable pub vm_fail_valid : ℕ → Cpu → Cpu
unfolding vm_succeed
vm_fail_valid error c =
    let d = vm_succeed c in
    record d { flags = bit_or d.flags ZF; vmx = write Field.instruction_error error d.vmx }

-- The region of a VMCS: eight bytes, then the slots.
abbrev pub flushed : Option ℕ → (ℕ → ℕ) → Memory → Memory
flushed none vmcs mem = mem
flushed (some p) vmcs mem = write_table slots 0 (p + 8) vmcs mem

unfoldable pub flush_vmcs : Cpu → Cpu
flush_vmcs c = record c { mem = flushed c.vmx.current c.vmx.vmcs c.mem }

abbrev pub loaded_slot : Memory → ℕ → (ℕ → ℕ) → ℕ → ℕ
loaded_slot mem p old i = if ltb i slots then read_u64 mem (p + 8 + i * 8) else old i

unfoldable pub load_vmcs : ℕ → Cpu → Cpu
load_vmcs p c =
    let x = c.vmx in
    record c { vmx = record x { vmcs = loaded_slot c.mem p x.vmcs; current = some p } }

abbrev pub set_current : Option ℕ → Cpu → Cpu
set_current p c = let x = c.vmx in record c { vmx = record x { current = p } }

abbrev pub with_launched : Bool → Cpu → Cpu
with_launched on c = record c { vmx = set_launched on c.vmx }

-- The error of controls that cannot be entered with.
unfoldable pub check_controls : Vmx → Option ℕ
check_controls x =
    let pin = u32 (read Field.pin_ctls x) in
    let ctl = u32 (read Field.cpu_ctls x) in
    let exit = u32 (read Field.exit_ctls x) in
    let entry = u32 (read Field.entry_ctls x) in
    let disallowed = λ (v mask : ℕ). not (bit_and v (bit_not 32 mask) == 0) in
    let missing = λ (v mask : ℕ). not (bit_and v mask == mask) in
    if disallowed pin pin_allowed1
      || (disallowed ctl cpu_allowed1
          || (disallowed exit exit_allowed1 || disallowed entry entry_allowed1))
    then some Error.entry_invalid_controls
    else if has_bits ctl cpu_secondary_controls
        && disallowed (u32 (read Field.cpu_ctls2 x)) cpu2_allowed1
    then some Error.entry_invalid_controls
    else if missing (read Field.host_cr0 x) cr0_fixed0 || missing (read Field.host_cr4 x) cr4_fixed0
    then some Error.entry_invalid_host_state
    else if not (has_bits exit exit_host_addr_space_size) && not (read Field.host_rip x >>> 32 == 0)
    then some Error.entry_invalid_host_state
    else none

-- The event that the entry controls ask for, as the first thing that the guest sees.
unfoldable pub inject : ℕ → Cpu → Cpu
inject info c =
    let ty = bit_and (info >>> 8) 7 in
    let code =
      if has_bits info (2 ^ 11)
      then some (u32 (read Field.entry_exception_error c.vmx))
      else none in
    let consumed = write Field.entry_intr_info 0 c.vmx in
    let rip =
      if ty == 4 || ty == 6 then u64 (c.rip + read Field.entry_instr_len consumed) else c.rip in
    dispatch_exception_raw 2 (bit_and info 0xFF) code
      (record c { vmx = consumed; rip = rip; rip_start = rip; ip_start = u16 rip; halted = false })

unfoldable pub vm_entry : Cpu → Cpu
vm_entry c =
    let exit = u32 (read Field.exit_ctls c.vmx) in
    let x = c.vmx in
    let hosted = record c {
      vmx = record x { host_long = has_bits exit exit_host_addr_space_size };
    } in
    let guest = with_launched true (load_guest_state hosted) in
    let y = guest.vmx in
    let entered = record guest { vmx = record y { in_guest = true } } in
    let info = u32 (read Field.entry_intr_info entered.vmx) in
    if has_bits info (2 ^ 31) then inject info entered else entered

-- The pointer operand, or none after a fault.
unfoldable pub read_ptr_operand : ModRm → Cpu → Option ℕ × Cpu
read_ptr_operand m c =
    let (addr, after) = rm_addr m false c in
    if is_reg m
    then (none, raise_ud c)
    else if is_some after.pending_exception
    then (none, after)
    else (some (read_u64 after.mem addr), after)

-- What the instructions do with a pointer once they have it.
unfoldable pub turn_on : ℕ → Cpu → Cpu
turn_on p c =
    let x = c.vmx in
    if bad_region_ptr p
    then vm_fail_invalid c
    else if not (read_u32 c.mem p == vmcs_revision)
    then vm_fail_invalid c
    else vm_succeed (record c { vmx = record x { on = true; vmxon_ptr = p; current = none } })

abbrev pub is_current : ℕ → Option ℕ → Bool
is_current p none = false
is_current p (some q) = p == q

unfoldable pub clear_region : ℕ → Cpu → Cpu
clear_region p c =
    if bad_region_ptr p
    then vm_fail_valid Error.vmclear_bad_addr c
    else if p == c.vmx.vmxon_ptr
    then vm_fail_valid Error.vmclear_vmxon_ptr c
    else if is_current p c.vmx.current
    then vm_succeed (set_current none (flush_vmcs (with_launched false c)))
    else vm_succeed (record c { mem = write_u64 (p + 8 + launch_slot * 8) 0 c.mem })

unfoldable pub load_pointer : ℕ → Cpu → Cpu
load_pointer p c =
    if bad_region_ptr p
    then vm_fail_valid Error.vmptrld_bad_addr c
    else if p == c.vmx.vmxon_ptr
    then vm_fail_valid Error.vmptrld_vmxon_ptr c
    else if not (read_u32 c.mem p == vmcs_revision)
    then vm_fail_valid Error.vmptrld_bad_revision c
    else if is_current p c.vmx.current
    then vm_succeed c
    else vm_succeed (load_vmcs p (flush_vmcs c))

-- `f` with the operand, if it could be read.
abbrev pub with_pointer : (ℕ → Cpu → Cpu) → Option ℕ × Cpu → Cpu
with_pointer f (none, c) = c
with_pointer f (some p, c) = f p c

abbrev pub succeed_unless_fault : Cpu → Cpu
succeed_unless_fault c = if is_some c.pending_exception then c else vm_succeed c

unfoldable pub enter : Bool → Cpu → Cpu
enter is_launch c =
    if not (is_some c.vmx.current)
    then vm_fail_invalid c
    else if is_launch && launched c.vmx
    then vm_fail_valid Error.vmlaunch_not_clear c
    else if not is_launch && not (launched c.vmx)
    then vm_fail_valid Error.vmresume_not_launched c
    else (elim (check_controls c.vmx) as (λ o. Cpu) [
      | some e ↦ vm_fail_valid e c
      | none ↦ vm_entry c
    ])

abbrev pub operand_width : Cpu → ℕ
operand_width c = if long64 c then 64 else 32

-- An instruction, with VMX on, at the most privileged level.
unfoldable pub execute_op : VmxOp → ModRm → ℕ → Cpu → Cpu
execute_op vmxon m reg c =
    let fc = c.feature_control in
    if bit_and c.cr4 (2 ^ 13) == 0
    then raise_ud c
    else if c.vmx.on
    then vm_fail_valid Error.vmxon_in_root c
    else if bit_and fc feat_locked == 0 || bit_and fc feat_vmx_outside_smx == 0
    then raise_gp 0 c
    else if not (bit_and c.cr0 cr0_fixed0 == cr0_fixed0)
    then raise_gp 0 c
    else with_pointer turn_on (read_ptr_operand m c)
execute_op vmxoff m reg c =
    let x = c.vmx in
    let f = flush_vmcs c in vm_succeed (record f { vmx = record x { on = false; current = none } })
execute_op vmclear m reg c = with_pointer clear_region (read_ptr_operand m c)
execute_op vmptrld m reg c = with_pointer load_pointer (read_ptr_operand m c)
execute_op vmptrst m reg c =
    let (addr, after) = rm_addr m true c in
    let p = elim after.vmx.current as (λ o. ℕ) [ some q ↦ q | none ↦ 2 ^ 64 - 1 ] in
    if is_reg m
    then raise_ud c
    else if is_some after.pending_exception
    then after
    else vm_succeed (record after { mem = write_u64 addr p after.mem })
execute_op vmread m reg c =
    let enc = u32 (reg_w reg 64 c) in
    if not (is_some c.vmx.current)
    then vm_fail_invalid c
    else if not (is_some (slot enc))
    then vm_fail_valid Error.vmread_write_bad_field c
    else succeed_unless_fault (write_rm_w m (operand_width c) (read enc c.vmx) c)
execute_op vmwrite m reg c =
    let enc = u32 (reg_w reg 64 c) in
    let (val, after) = read_rm_w m (operand_width c) c in
    let stored = record after { vmx = write enc val after.vmx } in
    if not (is_some c.vmx.current)
    then vm_fail_invalid c
    else if not (is_some (slot enc))
    then vm_fail_valid Error.vmread_write_bad_field c
    else if is_read_only enc
    then vm_fail_valid Error.vmwrite_read_only c
    else if is_some after.pending_exception
    then after
    else vm_succeed stored
execute_op vmlaunch m reg c = enter true c
execute_op vmresume m reg c = enter false c
execute_op vmcall m reg c = vm_fail_valid Error.vmcall_in_root c
execute_op invept m reg c = if is_reg m then raise_ud c else vm_fail_valid Error.invalid_operand c
execute_op invvpid m reg c =
    if is_reg m
    then raise_ud c
    else if ltb 3 (reg_w reg 64 c)
    then vm_fail_valid Error.invalid_operand c
    else vm_succeed (flush_tlb c)

abbrev pub is_vmxon : VmxOp → Bool
is_vmxon vmxon = true
is_vmxon op = false

unfoldable pub execute_vmx : VmxOp → ModRm → ℕ → Cpu → Cpu
execute_vmx op m reg c =
    if not (is_vmxon op) && not c.vmx.on
    then raise_ud c
    else if not (cpl c == 0)
    then raise_gp 0 c
    else execute_op op m reg c
