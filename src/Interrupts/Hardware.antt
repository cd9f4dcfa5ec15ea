-- ===== src/Interrupts/Hardware.antt =====
-- What happens between two instructions: the end of `deliver_hardware_interrupt` and the start of
-- `step` in src/cpu.rs, and `interrupt_exit` of src/vmx.rs. The memory is the processor's; the bus
-- gets it back with the rest.
use cuddles.Base.{
  ℕ, ◌%◌, ◌-◌, ◌^◌, Bool, true, false, ◌&&◌, Option, none, some, bit_or, ◌==◌, if◌then◌else◌, u32,
  has_bits,
}
use cuddles.Pic
use cuddles.Pic.{Pic}
use cuddles.Alu.{IF, get_flag}
use cuddles.Cpu.{Cpu, Fault, long64, invalidate_phys_ip}
use cuddles.Bus.{Bus, poll}
use cuddles.Vmx.{read}
use cuddles.Vmx.Field
use cuddles.Vmx.Reason
use cuddles.Vmx.Controls.{pin_ext_int_exiting, exit_ack_int_on_exit}
use cuddles.Vmx.Exits.{vm_exit, pre_step}
use cuddles.Interrupts.{real_int, protected_int_err}
use cuddles.Interrupts.Dispatch.{dispatch_exception}

-- The information on an exit: the vector, if the interrupt is acknowledged by the exit.
abbrev pub exit_info : Option ℕ → ℕ
exit_info none = 0
exit_info (some vector) = bit_or (2 ^ 31) vector

unfoldable pub interrupt_exit : Cpu → Pic → Bool × Cpu × Pic
interrupt_exit c p =
    let acknowledges = has_bits (u32 (read Field.exit_ctls c.vmx)) exit_ack_int_on_exit in
    let acknowledged = Pic.acknowledge p in
    let info = if acknowledges then exit_info acknowledged.0 else 0 in
    let left = if acknowledges then acknowledged.1 else p in
    if has_bits (u32 (read Field.pin_ctls c.vmx)) pin_ext_int_exiting
    then (true, vm_exit Reason.external_interrupt 0 info 0 c, left)
    else (false, c, p)

unfoldable pub interrupted : ℕ → Cpu → Cpu
interrupted vector c =
    invalidate_phys_ip (if c.pe then protected_int_err vector none c else real_int vector c)

unfoldable pub take_interrupt : Cpu → Pic → Bool × Cpu × Pic
take_interrupt c p =
    let acknowledged = Pic.acknowledge p in
    elim acknowledged.0 as (λ o. Bool × Cpu × Pic) [
      | none ↦ (false, c, acknowledged.1)
      | some vector ↦ (true, interrupted vector c, acknowledged.1)
    ]

-- An interrupt of a guest is its hypervisor's, if that asked for it.
unfoldable pub exit_or_take : Cpu → Pic → Bool × Cpu × Pic
exit_or_take c p =
    let exited = interrupt_exit c p in
    if c.vmx.in_guest && (Pic.has_pending p && exited.0) then exited else take_interrupt c p

-- Whether an interrupt was delivered comes first.
unfoldable pub deliver_hardware_interrupt : Cpu → Bus → Bool × Cpu × Bus
deliver_hardware_interrupt c b =
    let polled = poll b in
    let (delivered, d, pic) = exit_or_take c polled.pic in
    if b.instructions_executed % 64 == 0
    then (if get_flag IF c.flags
        then (delivered, d, record polled { pic = pic; mem = d.mem })
        else (false, c, polled))
    else (false, c, b)

-- An exception of the last instruction comes before the interrupts.
abbrev pub serviced : Option Fault → Cpu → Bus → Cpu × Bus
serviced none c b = let (delivered, d, e) = deliver_hardware_interrupt c b in (d, e)
serviced (some f) c b =
    let d = dispatch_exception f.vector f.code (record c { pending_exception = none }) in
    (d, record b { mem = d.mem })

-- `step` up to the decoding of the instruction.
unfoldable pub before_instruction : Cpu → Bus → Cpu × Bus
before_instruction c b =
    let ready = if c.vmx.in_guest then pre_step c else c in
    let (d, e) = serviced ready.pending_exception ready b in
    let fresh = invalidate_phys_ip d in
    (
      record fresh {
        rip_start = fresh.rip;
        ip_start = fresh.ip;
        rip_mask = if long64 fresh then 2 ^ 64 - 1 else 2 ^ 32 - 1;
      },
      e,
    )
