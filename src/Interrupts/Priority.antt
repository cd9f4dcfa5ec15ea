-- ===== src/Interrupts/Priority.antt =====
-- Which interrupt of the devices src/cpu.rs takes between two instructions.
use cuddles.Base.{
  ℕ, zero, suc, ◌+◌, ◌%◌, ◌≡◌, refl, ap, sym, subst, ◌∙◌, Bool, true, false, ◌&&◌, Option, none,
  some, List, [], ◌∷◌, ◌==◌, ltb, leb, if◌then◌else◌, Bool-cases, inl, inr, arith,
}
use cuddles.Pit
use cuddles.Pic.{Pic, next_irq, has_pending, acknowledge}
use cuddles.Pic.Valid.{IsValid, raise_irq-IsValid}
use cuddles.Pic.Scan.{order, first_ready, next_irq-first_ready}
use cuddles.Pic.Reentry.{acknowledge-none}
use cuddles.Pic.Delivery.{acknowledge-vector}
use cuddles.Alu.{IF, get_flag}
use cuddles.Cpu.{Cpu}
use cuddles.Bus.{
  Bus, poll, catch_up, tick_timers, request_timer, type_key, request_all, request_keyboard,
  request_virtio, request_disk, pit_hz,
}
use cuddles.Interrupts.Hardware.{
  deliver_hardware_interrupt, exit_or_take, interrupt_exit, take_interrupt, interrupted,
}

-- Requests keep the controllers valid.
catch_up-pic : (fuel : ℕ) (b : Bus) → (catch_up fuel b).pic ≡ b.pic
unfolding catch_up
catch_up-pic zero b = refl
catch_up-pic (suc fuel) b =
    let later = λ (c : Bus). catch_up-pic fuel c in
    elim (Bool-cases (leb pit_hz b.pit_subsecond)) [
      | inl more ↦ rw more (later _)
      | inr done ↦ rw done refl
    ]

type_key-pic : (keys : List ℕ) (b : Bus) → (type_key keys b).pic ≡ b.pic
unfolding type_key
type_key-pic [] b = refl
type_key-pic (k ∷ keys) b = ground arith

tick_timers-IsValid : (b : Bus) → IsValid b.pic → IsValid (tick_timers b).pic
unfolding tick_timers
tick_timers-IsValid b v =
    let ticked : Bus = record b { pit = Pit.tick 4 b.pit; pit_subsecond = b.pit_subsecond + 4 } in
    subst IsValid (sym (catch_up-pic (b.pit_subsecond + 4) ticked)) v

request_timer-IsValid : (b : Bus) → IsValid b.pic → IsValid (request_timer b).pic
unfolding request_timer
request_timer-IsValid b v = elim (Bool-cases b.pit.irq0) [
  | inl on ↦ rw on (raise_irq-IsValid 0 v)
  | inr off ↦ rw off v
]

request_keyboard-IsValid : (b : Bus) → IsValid b.pic → IsValid (request_keyboard b).pic
unfolding request_keyboard
request_keyboard-IsValid b v = elim (Bool-cases b.kbd.irq1) [
  | inl on ↦ rw on (raise_irq-IsValid 1 v)
  | inr off ↦ rw off v
]

request_virtio-IsValid : (b : Bus) → IsValid b.pic → IsValid (request_virtio b).pic
unfolding request_virtio
request_virtio-IsValid b v = elim (Bool-cases b.virtio.irq) [
  | inl on ↦ rw on (raise_irq-IsValid 11 v)
  | inr off ↦ rw off v
]

request_disk-IsValid : (b : Bus) → IsValid b.pic → IsValid (request_disk b).pic
unfolding request_disk
request_disk-IsValid b v = elim (Bool-cases b.ide.busy) [
  | inl on ↦ rw on (raise_irq-IsValid 14 v)
  | inr off ↦ rw off v
]

request_all-IsValid : (b : Bus) → IsValid b.pic → IsValid (request_all b).pic
unfolding request_all
request_all-IsValid b v =
    request_disk-IsValid (request_virtio (request_keyboard b))
      (request_virtio-IsValid (request_keyboard b) (request_keyboard-IsValid b v))

poll-IsValid : (b : Bus) → IsValid b.pic → IsValid (poll b).pic
unfolding poll
poll-IsValid b v =
    let timed = request_timer (tick_timers b) in
    let timed-IsValid = request_timer-IsValid (tick_timers b) (tick_timers-IsValid b v) in
    let same = type_key-pic timed.key_script timed in
    elim (Bool-cases (b.instructions_executed % 64 == 0)) [
      | inl due ↦ rw due (
          request_all-IsValid (type_key timed.key_script timed)
            (subst IsValid (sym same) timed-IsValid))
      | inr early ↦ rw early v
    ]

-- The vector of a line.
abbrev pub vector_of : Pic → ℕ → ℕ
vector_of p l = (if ltb l 8 then p.master_base else p.slave_base) + l % 8

abbrev pub served : Cpu → Pic → Option ℕ → Cpu
served c p none = c
served c p (some l) = interrupted (vector_of p l) c

chosen :
    (c : Cpu) (p : Pic) (o : Option ℕ)
    → IsValid p
    → next_irq p ≡ o
    → (take_interrupt c p).1 ≡ served c p o
unfolding take_interrupt
chosen c p none v h = rw (acknowledge-none p h, take_interrupt) refl
chosen c p (some l) v h =
    let vector = (acknowledge-vector p l v h).0 in
    ap
      (λ o.
        (elim o as (λ o. Bool × Cpu × Pic) [
          | none ↦ (false, c, (acknowledge p).1)
          | some vector ↦ (true, interrupted vector c, (acknowledge p).1)
        ]).1)
      vector

take_interrupt_lem :
    (c : Cpu) (p : Pic) → IsValid p → (take_interrupt c p).1 ≡ served c p (first_ready p order)
take_interrupt_lem c p v =
    chosen c p (first_ready p order) v
      (next_irq-first_ready p v.master_imr8 v.slave_imr8 v.cascaded)

-- Outside a guest no interrupt is its hypervisor's.
exit_or_take-outside :
    (c : Cpu) (p : Pic) → c.vmx.in_guest ≡ false → exit_or_take c p ≡ take_interrupt c p
unfolding exit_or_take
exit_or_take-outside c p outside =
    let exited = interrupt_exit c p in
    ap (λ (g : Bool). if g && (has_pending p && exited.0) then exited else take_interrupt c p)
      outside

-- With valid controllers and outside a guest: where the poll is due and IF is set, the processor
-- is interrupted by the vector of the first line in priority order that is ready after the poll,
-- if there is one; otherwise it is left as it was.
pub deliver_hardware_interrupt_lem :
    (c : Cpu) (b : Bus)
    → IsValid b.pic
    → c.vmx.in_guest ≡ false
    → let p = (poll b).pic in
      (deliver_hardware_interrupt c b).1 ≡ (
        if b.instructions_executed % 64 == 0 && get_flag IF c.flags
        then served c p (first_ready p order)
        else c)
unfolding deliver_hardware_interrupt
deliver_hardware_interrupt_lem c b v outside =
    let taken : (exit_or_take c (poll b).pic).1
        ≡ served c (poll b).pic (first_ready (poll b).pic order) =
      ap (λ r. r.1) (exit_or_take-outside c (poll b).pic outside)
      ∙ take_interrupt_lem c (poll b).pic (poll-IsValid b v) in
    elim (Bool-cases (b.instructions_executed % 64 == 0)) [
      | inl due ↦ elim (Bool-cases (get_flag IF c.flags)) [
        | inl on ↦ rw (due, on) taken
        | inr off ↦ rw (due, off) refl
      ]
      | inr early ↦ rw early refl
    ]
