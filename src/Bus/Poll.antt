-- ===== src/Bus/Poll.antt =====
-- The poll of the devices in src/cpu.rs: the wall clock, and the requests that reach the interrupt
-- controller.
use cuddles.Base.{
  ℕ, zero, suc, ◌+◌, ◌-◌, ◌/◌, ◌%◌, ◌^◌, ◌<◌, ◌≡◌, refl, ◌∙◌, false, ◌&&◌, ◌||◌, ◌==◌, leb, ◌<<<◌,
  List, [], ◌∷◌, if_both, ap, sym, Bool, true, if◌then◌else◌, ◌≤◌, u8, u64, pow_lt, testb,
  testb-bit_or, testb-pow, Bool-cases, inl, inr, arith,
}
use native.Mathlib.Nat.{mod-eq_of_lt}
use cuddles.Pic.{set_bit, raise_irq}
use cuddles.Cmos.{tick_second}
use cuddles.Pit.{tick}
use cuddles.Kbd.{Kbd, push_scancode, idle}
use cuddles.Bus.{
  Bus, pit_hz, catch_up, tick_timers, request_timer, type_key, request_keyboard, request_virtio,
  request_disk, request_all, poll,
}

-- On fuel for the timer periods counted, with the elapsed seconds below 2 ^ 64, the loop that
-- turns periods into seconds leaves the remainder of the periods and adds the quotient to the
-- seconds, modulo 2 ^ 64.
pub catch_up_lem :
    (fuel : ℕ) (b : Bus)
    → b.pit_subsecond ≤ fuel
    → b.cmos.elapsed_secs < 2 ^ 64
    → ((catch_up fuel b).pit_subsecond ≡ b.pit_subsecond % pit_hz)
      × ((catch_up fuel b).cmos.elapsed_secs ≡ u64 (b.cmos.elapsed_secs + b.pit_subsecond / pit_hz))
unfolding catch_up tick_second
catch_up_lem zero b h small = omega arith
catch_up_lem (suc fuel) b h small =
    let after : Bus = record b {
      pit_subsecond = b.pit_subsecond - pit_hz;
      cmos = tick_second b.cmos;
    } in
    elim (Bool-cases (leb pit_hz b.pit_subsecond)) [
      | inl more ↦
          let rest = catch_up_lem fuel after (ground arith) (omega arith) in
          rw more (ground (arith, rest))
      | inr done ↦ rw done (ground arith)
    ]

testb-set_bit : (v i k : ℕ) → i < 8 → testb (set_bit v i) k ≡ (testb v k || (i == k))
unfolding set_bit
testb-set_bit v i k h =
    let small : u8 (1 <<< i) ≡ 2 ^ i =
      let fits = pow_lt i 8 h in omega (arith, mod-eq_of_lt fits) in
    rw small (testb-bit_or v (2 ^ i) k ∙ rw (testb-pow i k) refl)

-- The loop changes nothing but its count and the clock.
pub catch_up-kept :
    (fuel : ℕ) (b : Bus)
    → let x = catch_up fuel b in x ≡ record b { pit_subsecond = x.pit_subsecond; cmos = x.cmos }
unfolding catch_up
catch_up-kept zero b = refl
catch_up-kept (suc fuel) b =
    let after : Bus = record b {
      pit_subsecond = b.pit_subsecond - pit_hz;
      cmos = tick_second b.cmos;
    } in
    let rest = catch_up-kept fuel after in
    elim (Bool-cases (leb pit_hz b.pit_subsecond)) [
      | inl more ↦ rw more rest
      | inr done ↦ rw done refl
    ]

request_all_lem :
    (k : ℕ) (b : Bus)
    → let x = request_all b in
      (testb x.pic.master_irr k ≡ (testb b.pic.master_irr k || (b.kbd.irq1 && (1 == k))))
      × (testb x.pic.slave_irr k
          ≡ (testb b.pic.slave_irr k || (b.virtio.irq && (3 == k) || b.ide.busy && (6 == k))))
      × (x.kbd.irq1 ≡ false)
      × (x.ide.busy ≡ false)
      × (x.virtio.irq ≡ b.virtio.irq)
      × (x.pit ≡ b.pit)
      × (x.pit_subsecond ≡ b.pit_subsecond)
      × (x.cmos ≡ b.cmos)
unfolding request_all raise_irq request_keyboard request_virtio request_disk
request_all_lem k b = ground (
  arith,
  testb-set_bit b.pic.master_irr 1 k (omega arith),
  testb-set_bit b.pic.slave_irr 3 k (omega arith),
  testb-set_bit (set_bit b.pic.slave_irr 3) 6 k (omega arith),
  testb-set_bit b.pic.slave_irr 6 k (omega arith),
)

request_timer_lem :
    (k : ℕ) (b : Bus)
    → let x = request_timer b in
      (testb x.pic.master_irr k ≡ (testb b.pic.master_irr k || (b.pit.irq0 && (0 == k))))
      × (x.pic.slave_irr ≡ b.pic.slave_irr)
      × (x.pit.irq0 ≡ false)
unfolding request_timer raise_irq
request_timer_lem k b = ground (arith, testb-set_bit b.pic.master_irr 0 k (omega arith))

request_timer-kept :
    (b : Bus) → let x = request_timer b in x ≡ record b { pit = x.pit; pic = x.pic }
unfolding request_timer
request_timer-kept b =
    if_both (λ (x : Bus). x ≡ record b { pit = x.pit; pic = x.pic }) b.pit.irq0
      {yes = record b { pit = record b.pit { irq0 = false }; pic = raise_irq 0 b.pic }} {no = b}
      refl refl

-- A key of the script reaches the keyboard controller and nothing else.
type_key-kept :
    (keys : List ℕ) (b : Bus)
    → let x = type_key keys b in
      x ≡ record b { key_script = x.key_script; kbd = x.kbd; key_next = x.key_next }
unfolding type_key
type_key-kept [] b = refl
type_key-kept (k ∷ keys) b =
    let typed : Bus = record b {
      key_script = keys;
      kbd = push_scancode k b.kbd;
      key_next = b.instructions_executed + 20000;
    } in
    if_both
      (λ (x : Bus). x ≡ record b { key_script = x.key_script; kbd = x.kbd; key_next = x.key_next })
      (b.kbd.driver_attached && (idle b.kbd && leb b.key_next b.instructions_executed))
      {yes = typed} {no = b} refl refl

-- What the keyboard controller gets, of the state that matters to it.
abbrev typed_kbd : ℕ → Kbd → ℕ → ℕ → Kbd
typed_kbd scancode kbd next executed =
    if kbd.driver_attached && (idle kbd && leb next executed)
    then push_scancode scancode kbd
    else kbd

type_key-kbd :
    (k : ℕ) (keys : List ℕ) (b : Bus)
    → (type_key (k ∷ keys) b).kbd ≡ typed_kbd k b.kbd b.key_next b.instructions_executed
unfolding type_key
type_key-kbd k keys b =
    kbd_of (b.kbd.driver_attached && (idle b.kbd && leb b.key_next b.instructions_executed))
  where
    kbd_of :
        (t : Bool)
        → (if t
            then record b {
              key_script = keys;
              kbd = push_scancode k b.kbd;
              key_next = b.instructions_executed + 20000;
            }
            else b).kbd
          ≡ (if t then push_scancode k b.kbd else b.kbd)
    kbd_of true = refl
    kbd_of false = refl

-- Neither the timers nor their request have a part in what is typed.
type_key-same :
    (keys : List ℕ) (a b : Bus)
    → a.kbd ≡ b.kbd
    → a.key_next ≡ b.key_next
    → a.instructions_executed ≡ b.instructions_executed
    → (type_key keys a).kbd ≡ (type_key keys b).kbd
unfolding type_key
type_key-same [] a b kbd next executed = kbd
type_key-same (k ∷ keys) a b kbd next executed =
    type_key-kbd k keys a
    ∙ ap (λ q. typed_kbd k q a.key_next a.instructions_executed) kbd
    ∙ ap (λ q. typed_kbd k b.kbd q a.instructions_executed) next
    ∙ ap (λ q. typed_kbd k b.kbd b.key_next q) executed
    ∙ sym (type_key-kbd k keys b)

or_assoc : (x y z : Bool) → (x || y) || z ≡ x || (y || z)
or_assoc true y z = refl
or_assoc false y z = refl

module _ (k : ℕ) (b : Bus) (due : b.instructions_executed % 64 ≡ 0)
    (secs : b.cmos.elapsed_secs < 2 ^ 64) where
  abbrev ticked : Bus
  ticked = record b { pit = tick 4 b.pit; pit_subsecond = b.pit_subsecond + 4 }

  abbrev timed : Bus
  timed = request_timer (tick_timers b)

  abbrev typed : Bus
  typed = type_key timed.key_script timed

  timers :
      tick_timers b
      ≡ record ticked { pit_subsecond = (tick_timers b).pit_subsecond; cmos = (tick_timers b).cmos }
  unfolding tick_timers
  timers = catch_up-kept (b.pit_subsecond + 4) ticked

  clock :
      ((tick_timers b).pit_subsecond ≡ (b.pit_subsecond + 4) % pit_hz)
      × ((tick_timers b).cmos.elapsed_secs
          ≡ u64 (b.cmos.elapsed_secs + (b.pit_subsecond + 4) / pit_hz))
  unfolding tick_timers
  clock = catch_up_lem (b.pit_subsecond + 4) ticked (omega arith) secs

  typed_keyboard : typed.kbd ≡ (type_key b.key_script b).kbd
  typed_keyboard =
      let kept = request_timer-kept (tick_timers b) in
      let script : timed.key_script ≡ b.key_script =
        ap (λ x. x.key_script) kept ∙ ap (λ x. x.key_script) timers in
      ap (λ q. (type_key q timed).kbd) script
      ∙ type_key-same b.key_script timed b (ap (λ x. x.kbd) kept ∙ ap (λ x. x.kbd) timers)
          (ap (λ x. x.key_next) kept ∙ ap (λ x. x.key_next) timers)
          (ap (λ x. x.instructions_executed) kept ∙ ap (λ x. x.instructions_executed) timers)

  poll_due : poll b ≡ request_all typed
  unfolding poll
  poll_due = let now : (b.instructions_executed % 64 == 0) ≡ true = ground arith in rw now refl

  -- At an instruction counter that is a multiple of 64, with the elapsed seconds below 2 ^ 64, the
  -- poll sets a line of the master if it was set, or for line 0 if the timer's output rose in the
  -- ticks of this poll, or for line 1 if the keyboard requests it once the script has been typed;
  -- a line of the slave if it was set, or for line 3 (IRQ11) if the virtio device asserts its
  -- interrupt, or for line 6 (IRQ14) if the disk is busy, and no other line. The latches of the
  -- timer, the keyboard and the disk are dropped and the virtio device's is kept; the count of
  -- timer periods and the clock's seconds are those of 4 more periods, the seconds modulo 2 ^ 64.
  pub poll_lem :
      let x = poll b in
      (testb x.pic.master_irr k ≡ (
        testb b.pic.master_irr k
        || ((tick 4 b.pit).irq0 && (0 == k) || (type_key b.key_script b).kbd.irq1 && (1 == k))))
      × (testb x.pic.slave_irr k
          ≡ (testb b.pic.slave_irr k || (b.virtio.irq && (3 == k) || b.ide.busy && (6 == k))))
      × (x.pit.irq0 ≡ false)
      × (x.kbd.irq1 ≡ false)
      × (x.ide.busy ≡ false)
      × (x.virtio.irq ≡ b.virtio.irq)
      × (x.pit_subsecond ≡ (b.pit_subsecond + 4) % pit_hz)
      × (x.cmos.elapsed_secs ≡ u64 (b.cmos.elapsed_secs + (b.pit_subsecond + 4) / pit_hz))
  poll_lem =
      let r = request_all_lem k typed in
      let t = request_timer_lem k (tick_timers b) in
      let keys = type_key-kept timed.key_script timed in
      let kept = request_timer-kept (tick_timers b) in
      let pic : typed.pic ≡ timed.pic = ap (λ x. x.pic) keys in
      let before : (tick_timers b).pic ≡ b.pic = ap (λ x. x.pic) timers in
      let pit : (tick_timers b).pit ≡ tick 4 b.pit = ap (λ x. x.pit) timers in
      let virtio : typed.virtio ≡ b.virtio =
        ap (λ x. x.virtio) keys ∙ ap (λ x. x.virtio) kept ∙ ap (λ x. x.virtio) timers in
      let ide : typed.ide ≡ b.ide =
        ap (λ x. x.ide) keys ∙ ap (λ x. x.ide) kept ∙ ap (λ x. x.ide) timers in
      let lines : testb typed.pic.master_irr k
          ≡ testb b.pic.master_irr k || ((tick 4 b.pit).irq0 && (0 == k)) =
        ap (λ p. testb p.master_irr k) pic
        ∙ t.0
        ∙ ap (λ p. testb p.master_irr k || ((tick_timers b).pit.irq0 && (0 == k))) before
        ∙ ap (λ q. testb b.pic.master_irr k || (q.irq0 && (0 == k))) pit in
      let slave_irr : typed.pic.slave_irr ≡ b.pic.slave_irr =
        ap (λ p. p.slave_irr) pic ∙ t.1 ∙ ap (λ p. p.slave_irr) before in
      rw poll_due (
        r.0
            ∙ ap (λ y. y || (typed.kbd.irq1 && (1 == k))) lines
            ∙ ap
                (λ q.
                  (testb b.pic.master_irr k || ((tick 4 b.pit).irq0 && (0 == k)))
                  || (q.irq1 && (1 == k)))
                typed_keyboard
            ∙ or_assoc (testb b.pic.master_irr k) _ _,
        r.1
            ∙ ap (λ w. testb w k || (typed.virtio.irq && (3 == k) || typed.ide.busy && (6 == k)))
                slave_irr
            ∙ ap (λ d. testb b.pic.slave_irr k || (d.irq && (3 == k) || typed.ide.busy && (6 == k)))
                virtio
            ∙ ap (λ d. testb b.pic.slave_irr k || (b.virtio.irq && (3 == k) || d.busy && (6 == k)))
                ide,
        ap (λ p. p.irq0) (r.5 ∙ ap (λ x. x.pit) keys) ∙ t.2,
        r.2,
        r.3,
        r.4 ∙ ap (λ d. d.irq) virtio,
        r.6 ∙ ap (λ x. x.pit_subsecond) keys ∙ ap (λ x. x.pit_subsecond) kept ∙ clock.0,
        ap (λ c. c.elapsed_secs) (r.7 ∙ ap (λ x. x.cmos) keys ∙ ap (λ x. x.cmos) kept) ∙ clock.1,
      )
