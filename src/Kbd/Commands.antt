-- ===== src/Kbd/Commands.antt =====
-- Exchanges of several bytes with the controller and the keyboard of src/kbd.rs.
use mathlib.Core.List.{append_assoc}
use cuddles.Base.{ℕ, ◌≡◌, refl, ◌∙◌, true, false, none, List, [], ◌∷◌, ◌++◌, ◌⊎◌, inl, inr}
use cuddles.Kbd.{Kbd, Entry, ack, reply, refresh_irq, push_scancode, write_command, write_data}

-- What an exchange leaves: `answer` at the end of the buffer, no argument awaited, and the command
-- byte and the scanning state as they were.
pub record Answers (answer : List Entry) (k k' : Kbd) : Type 0 where
  pub answered : k'.out ≡ k.out ++ answer
  pub no_argument : (k'.pending ≡ none) × (k'.dev_pending ≡ none)
  pub ctr_kept : k'.ctr ≡ k.ctr
  pub scanning_kept : k'.scanning ≡ k.scanning

-- The keyboard commands with an argument: set LEDs and set typematic rate.
abbrev pub TakesArgument : ℕ → Type 0
TakesArgument cmd = (cmd ≡ 0xED) ⊎ (cmd ≡ 0xF3)

abbrev pub IsIdle : Kbd → Type 0
IsIdle k = (k.pending ≡ none) × (k.dev_pending ≡ none)

device_pair :
    (cmd val : ℕ) (k : Kbd)
    → TakesArgument cmd
    → k.pending ≡ none
    → k.dev_pending ≡ none
    → let k' = write_data val (write_data cmd k) in
      (k'.out ≡ (k.out ++ (ack, false) ∷ []) ++ (ack, false) ∷ [])
      × (k'.pending ≡ none)
      × (k'.dev_pending ≡ none)
      × (k'.ctr ≡ k.ctr)
      × (k'.scanning ≡ k.scanning)
unfolding write_data reply refresh_irq
device_pair cmd val k (inl e) p d = rw (e, p, d) (refl, refl, refl, refl, refl)
device_pair cmd val k (inr e) p d = rw (e, p, d) (refl, refl, refl, refl, refl)

-- With no argument awaited, the keyboard commands 0xED and 0xF3 and their argument, any byte, are
-- acknowledged once each; nothing is awaited afterwards, and the control byte and scanning are
-- kept.
pub device_argument_exchange :
    (cmd val : ℕ) (k : Kbd)
    → TakesArgument cmd
    → IsIdle k
    → Answers ((ack, false) ∷ (ack, false) ∷ []) k (write_data val (write_data cmd k))
device_argument_exchange cmd val k takes idle =
    let r = device_pair cmd val k takes idle.0 idle.1 in
    record {
      answered = r.0 ∙ append_assoc k.out _ _;
      no_argument = (r.1, r.2);
      ctr_kept = r.3;
      scanning_kept = r.4;
    }

-- A byte sent to the auxiliary device is answered by nothing, in any state: there is no mouse.
pub no_mouse :
    (val : ℕ) (k : Kbd)
    → let k' = write_data val (write_command 0xD4 k) in
      (k'.out ≡ k.out) × (k'.pending ≡ none) × (k'.ctr ≡ k.ctr) × (k'.irq1 ≡ k.irq1)
unfolding write_data write_command
no_mouse val k = (refl, refl, refl, refl)

-- After the keyboard is told to stop scanning, key events from the host are dropped; after it is
-- told to scan again they are queued behind the acknowledgement.
pub scanning_gate :
    (scancode : ℕ) (k : Kbd)
    → IsIdle k
    → let off = write_data 0xF5 k in
      let on = write_data 0xF4 k in
      (push_scancode scancode off ≡ off)
      × ((push_scancode scancode on).out ≡ on.out ++ (scancode, false) ∷ [])
      × (on.driver_attached ≡ true)
unfolding write_data push_scancode reply refresh_irq
scanning_gate scancode k idle = rw (idle.0, idle.1) (refl, refl, refl)
