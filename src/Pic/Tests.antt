-- ===== src/Pic/Tests.antt =====
-- Runs of the controller at concrete inputs, from the tests of src/pic.rs, and instances of the
-- theorems.
use cuddles.Base.{◌<◌, ◌≡◌, refl, none, some, List, [], ◌∷◌, arith}
use cuddles.Pic.{
  Pic, new, write_command, write_data, raise_irq, acknowledge, deliver, next_irq, master_walk,
  master_step, slave_walk, set_bit, clear_bit, end_of_interrupt, lowest_bit,
}
use cuddles.Pic.Scan.{first_ready, order, next_irq-first_ready}
use cuddles.Pic.Valid.{IsValid, new-IsValid, Access, accesses, accesses-IsValid}
use cuddles.Pic.Reentry.{rank, acknowledge_no_reentry}

abbrev programmed : Pic
unfolding new write_command write_data
programmed = write_data 0x21 0x20 (write_command 0x20 0x11 new)

in_service_blocks :
    let p = (acknowledge (raise_irq 1 programmed)).1 in
    let q = raise_irq 3 (raise_irq 1 p) in
    let r = (acknowledge (raise_irq 0 q)).1 in
    let s = write_command 0x20 0x61 (write_command 0x20 0x60 r) in
    ((acknowledge q).0 ≡ none)
    × ((acknowledge (raise_irq 0 q)).0 ≡ some 0x20)
    × ((acknowledge (write_command 0x20 0x60 r)).0 ≡ none)
    × ((acknowledge s).0 ≡ some 0x21)
    × ((acknowledge (write_command 0x20 0x20 (acknowledge s).1)).0 ≡ some 0x23)
unfolding programmed new write_command write_data raise_irq acknowledge next_irq master_walk
    master_step slave_walk set_bit clear_bit end_of_interrupt lowest_bit
in_service_blocks = (refl, refl, refl, refl, refl)

-- Bases 0x20 and 0x28 programmed, lines 0 and 1 unmasked and requesting.
abbrev session : List Access
session =
    Access.command 0x20 0x11 ∷ Access.mask_or_base 0x21 0x20 ∷ Access.raise 1 ∷ Access.raise 10 ∷ []

abbrev requesting : Pic
requesting = accesses session new

requesting-IsValid : IsValid requesting
requesting-IsValid =
    accesses-IsValid session (omega arith, (omega arith, (omega arith, (omega arith, tt))))
      new-IsValid

accesses-IsValid_example : IsValid (accesses session new)
accesses-IsValid_example =
    accesses-IsValid session (omega arith, (omega arith, (omega arith, (omega arith, tt))))
      new-IsValid

next_irq-first_ready_example : next_irq requesting ≡ first_ready requesting order
next_irq-first_ready_example =
    next_irq-first_ready requesting requesting-IsValid.master_imr8 requesting-IsValid.slave_imr8
      requesting-IsValid.cascaded

requesting-next : next_irq requesting ≡ some 1
unfolding new write_command write_data raise_irq next_irq master_walk master_step slave_walk set_bit
    clear_bit
requesting-next = refl

-- The timer interrupts the keyboard's handler.
later : next_irq (accesses (Access.raise 0 ∷ []) (acknowledge requesting).1) ≡ some 0
unfolding new write_command write_data raise_irq next_irq acknowledge deliver master_walk
    master_step slave_walk set_bit clear_bit
later = refl

acknowledge_no_reentry_example : rank 0 < rank 1
acknowledge_no_reentry_example =
    acknowledge_no_reentry (Access.raise 0 ∷ []) requesting 1 0 requesting-IsValid (omega arith, tt)
      requesting-next later

abbrev slave_session : List Access
slave_session =
    Access.command 0x20 0x11
    ∷ Access.mask_or_base 0x21 0x20
    ∷ Access.command 0xA0 0x11
    ∷ Access.raise 10
    ∷ []

abbrev slave_requesting : Pic
slave_requesting = accesses slave_session new

slave_requesting-IsValid : IsValid slave_requesting
slave_requesting-IsValid =
    accesses-IsValid slave_session (omega arith, (omega arith, (omega arith, (omega arith, tt))))
      new-IsValid

slave_requesting-next : next_irq slave_requesting ≡ some 10
unfolding new write_command write_data raise_irq next_irq master_walk master_step slave_walk set_bit
    clear_bit
slave_requesting-next = refl
