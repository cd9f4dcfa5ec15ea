-- ===== src/Interrupts/Dispatch.antt =====
-- `dispatch_exception` of src/cpu.rs: the tables' limits, the exits of a guest, and what a fault
-- while a fault is delivered becomes.
use cuddles.Base.{
  ℕ, zero, suc, ◌+◌, ◌-◌, ◌*◌, Bool, true, ◌&&◌, ◌||◌, Option, none, some, ◌==◌, ltb, if◌then◌else◌,
  u16,
}
use cuddles.Cpu.{Cpu, long_mode, invalidate_phys_ip}
use cuddles.Vmx.Exits.{exception_exit, triple_fault_exit}
use cuddles.Interrupts.{real_int, protected_int_err}

unfoldable pub triple_fault : Cpu → Cpu
triple_fault c =
    if c.vmx.in_guest
    then triple_fault_exit c
    else record c { triple_faulted = true; halted = true }

-- INT3 and INTO are traps.
abbrev pub is_trap : ℕ → Bool
is_trap vector = vector == 0x03 || vector == 0x04

unfoldable pub contributory : ℕ → Bool
contributory v = v == 0x00 || (v == 0x0A || (v == 0x0B || (v == 0x0C || v == 0x0D)))

unfoldable pub escalates : ℕ → ℕ → Bool
unfolding contributory
escalates vector second =
    (vector == 0x0E && (contributory second || second == 0x0E))
    || (contributory vector && contributory second)

-- Whether the table has no entry for the vector.
unfoldable pub is_outside : ℕ → Cpu → Bool
is_outside vector c =
    let gate = if long_mode c then 16 else 8 in
    if c.pe then ltb c.idt_limit (u16 (vector * gate + gate - 1)) else ltb 0x3FF (vector * 4 + 3)

-- What is left to do for a fault of the delivery itself. `again` dispatches the double fault.
unfoldable pub after_delivery : (Cpu → Cpu) → ℕ → Cpu → Cpu
after_delivery again vector c =
    let calm = record c { pending_exception = none } in
    let kept = invalidate_phys_ip c in
    elim c.pending_exception as (λ o. Cpu) [
      | none ↦ kept
      | some second ↦
          if vector == 0x08
          then triple_fault calm
          else if escalates vector second.vector
          then again calm
          else kept
    ]

unfoldable pub at_fault : ℕ → Cpu → Cpu
at_fault vector c = if is_trap vector then c else record c { rip = c.rip_start; ip = c.ip_start }

unfoldable pub dispatch_with : (ℕ → Option ℕ → Cpu → Cpu) → ℕ → Option ℕ → Cpu → Cpu
dispatch_with raw vector code c =
    let restarted = if is_trap vector then c else record c { rip = c.rip_start } in
    let (left, exits) = exception_exit vector code restarted in
    let guest = c.vmx.in_guest && ltb vector 32 in
    if guest then (if exits then left else raw vector code restarted) else raw vector code c

-- A double fault is dispatched by a call of its own, which needs no other: `f` counts the calls.
unfoldable pub dispatch_exception_raw : ℕ → ℕ → Option ℕ → Cpu → Cpu
dispatch_exception_raw zero vector code c = c
dispatch_exception_raw (suc f) vector code c =
    let start = at_fault vector c in
    let again = λ (d : Cpu). dispatch_with (dispatch_exception_raw f) 0x08 (some 0) d in
    if is_outside vector start
    then triple_fault start
    else if start.pe
    then after_delivery again vector (protected_int_err vector code start)
    else invalidate_phys_ip (real_int vector start)

unfoldable pub dispatch_exception : ℕ → Option ℕ → Cpu → Cpu
dispatch_exception vector code c = dispatch_with (dispatch_exception_raw 2) vector code c
