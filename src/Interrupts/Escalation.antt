-- ===== src/Interrupts/Escalation.antt =====
-- How far faults in the delivery of faults go in src/cpu.rs.
use cuddles.Base.{ℕ, suc, ◌≡◌, refl, ap, ◌∙◌, true, ◌&&◌, Option, none, some, ◌==◌, if◌then◌else◌}
use cuddles.Cpu.{Cpu, Fault, invalidate_phys_ip}
use cuddles.Vmx.Exits.{exception_exit}
use cuddles.Interrupts.{protected_int_err, real_int}
use cuddles.Interrupts.Dispatch.{
  dispatch_exception_raw, dispatch_with, after_delivery, triple_fault, escalates, at_fault,
  is_outside,
}

-- A double fault is not dispatched again.
last :
    (again other : Cpu → Cpu) (c : Cpu) → after_delivery again 0x08 c ≡ after_delivery other 0x08 c
unfolding after_delivery
last again other c = delivered again other c c.pending_exception
  where
    delivered :
        (again other : Cpu → Cpu) (c : Cpu) (o : Option Fault)
        → after_delivery again 0x08 (record c { pending_exception = o })
          ≡ after_delivery other 0x08 (record c { pending_exception = o })
    delivered again other c none = refl
    delivered again other c (some f) = refl

twice_double :
    (f g : ℕ) (code : Option ℕ) (c : Cpu)
    → dispatch_exception_raw (suc f) 0x08 code c ≡ dispatch_exception_raw (suc g) 0x08 code c
unfolding dispatch_exception_raw
twice_double f g code c =
    let start = at_fault 0x08 c in
    let again = λ (h : ℕ) (d : Cpu). dispatch_with (dispatch_exception_raw h) 0x08 (some 0) d in
    ap
      (λ (y : Cpu).
        if is_outside 0x08 start
        then triple_fault start
        else if start.pe
        then y
        else invalidate_phys_ip (real_int 0x08 start))
      (last (again f) (again g) (protected_int_err 0x08 code start))

-- Two ways to dispatch a double fault that agree are as good as each other.
delivered_alike :
    (again other : Cpu → Cpu) (vector : ℕ) (c : Cpu)
    → ((d : Cpu) → again d ≡ other d)
    → after_delivery again vector c ≡ after_delivery other vector c
unfolding after_delivery
delivered_alike again other vector c same = alike again other vector c c.pending_exception same
  where
    alike :
        (again other : Cpu → Cpu) (vector : ℕ) (c : Cpu) (o : Option Fault)
        → ((d : Cpu) → again d ≡ other d)
        → after_delivery again vector (record c { pending_exception = o })
          ≡ after_delivery other vector (record c { pending_exception = o })
    alike again other vector c none same = refl
    alike again other vector c (some f) same =
        let calm = record c { pending_exception = none } in
        ap
          (λ (y : Cpu).
            if vector == 0x08
            then triple_fault calm
            else if escalates vector f.vector
            then y
            else invalidate_phys_ip (record c { pending_exception = some f }))
          (same calm)

dispatched_alike :
    (raw other : ℕ → Option ℕ → Cpu → Cpu) (c : Cpu)
    → ((d : Cpu) → raw 0x08 (some 0) d ≡ other 0x08 (some 0) d)
    → dispatch_with raw 0x08 (some 0) c ≡ dispatch_with other 0x08 (some 0) c
unfolding dispatch_with
dispatched_alike raw other c same =
    let restarted = record c { rip = c.rip_start } in
    let left = exception_exit 0x08 (some 0) restarted in
    ap
      (λ (y : Cpu).
        if c.vmx.in_guest && true then (if left.1 then left.0 else y) else raw 0x08 (some 0) c)
      (same restarted)
    ∙ ap
        (λ (y : Cpu).
          if c.vmx.in_guest && true
          then (if left.1 then left.0 else other 0x08 (some 0) restarted)
          else y)
        (same c)

-- For any vector, error code and state, more than two nested calls of the dispatch give what two
-- give: it comes to an end with the double fault.
pub dispatch_exception_raw_enough :
    (f vector : ℕ) (code : Option ℕ) (c : Cpu)
    → dispatch_exception_raw (suc (suc f)) vector code c ≡ dispatch_exception_raw 2 vector code c
unfolding dispatch_exception_raw
dispatch_exception_raw_enough f vector code c =
    let start = at_fault vector c in
    let again = λ (h : ℕ) (d : Cpu). dispatch_with (dispatch_exception_raw h) 0x08 (some 0) d in
    let same = λ (d : Cpu).
      dispatched_alike (dispatch_exception_raw (suc f)) (dispatch_exception_raw 1) d
        (twice_double f 0 (some 0)) in
    ap
      (λ (y : Cpu).
        if is_outside vector start
        then triple_fault start
        else if start.pe
        then y
        else invalidate_phys_ip (real_int vector start))
      (delivered_alike (again (suc f)) (again 1) vector (protected_int_err vector code start) same)
