-- ===== src/Pic/Delivery.antt =====
-- The vector of a delivery in src/pic.rs, and the end of its service.
use cuddles.Base.{
  ℕ, ◌+◌, ◌-◌, ◌%◌, ◌^◌, ◌≤◌, ◌<◌, ◌≡◌, refl, ap, true, false, ◌&&◌, some, arith, bit_and, ◌==◌,
  ltb, if◌then◌else◌, testb, testb-zero, ◌>>>◌, holds_under, holds_under_lem,
}
use cuddles.Pic.{
  Pic, set_bit, clear_bit, end_of_interrupt, write_command, ocw2, deliver, acknowledge, next_irq,
}
use cuddles.Pic.Scan.{blocks}
use cuddles.Pic.Valid.{IsValid}
use cuddles.Pic.Service.{clear_bit-set_bit, next_irq_iff}
use cuddles.Pic.Reentry.{acknowledge-deliver, next_irq-In, order-lt}

-- In a valid pair, the vector delivered is the chosen line's offset from its PIC's base, a byte:
-- the addition does not wrap.
pub acknowledge-vector :
    (p : Pic) (l : ℕ)
    → IsValid p
    → next_irq p ≡ some l
    → ((acknowledge p).0 ≡ some ((if ltb l 8 then p.master_base else p.slave_base) + l % 8))
      × ((if ltb l 8 then p.master_base else p.slave_base) + l % 8 < 2 ^ 8)
acknowledge-vector p l v h =
    let small = order-lt l (next_irq-In p l v h) in
    rw (acknowledge-deliver p l h) (deliver-vector small)
  where
    deliver-vector :
        l < 16
        → ((deliver p l).0 ≡ some ((if ltb l 8 then p.master_base else p.slave_base) + l % 8))
          × ((if ltb l 8 then p.master_base else p.slave_base) + l % 8 < 2 ^ 8)
    deliver-vector small =
        unfold deliver in
        ground (arith, small, v.master_base8.0, v.master_base8.1, v.slave_base8.0, v.slave_base8.1)

eoi_table :
    holds_under
      (λ i.
        (bit_and (0x60 + i) 0x10 == 0)
        && (bit_and (0x60 + i) 0x18 == 0)
        && (bit_and (0x60 + i) 7 == i)
        && ((0x60 + i) >>> 5 == 3))
      8
    ≡ true
unfolding holds_under
eoi_table = refl

-- The specific EOI `0x60 | i` clears bit `i` of the in-service register of the PIC it is sent to.
specific_eoi : (isr i : ℕ) → i < 8 → end_of_interrupt (0x60 + i) isr ≡ clear_bit isr i
unfolding end_of_interrupt
specific_eoi isr i h = ground (arith, eoi_facts)
  where
    eoi_facts : (bit_and (0x60 + i) 7 ≡ i) × ((0x60 + i) >>> 5 ≡ 3)
    eoi_facts = ground (arith, holds_under_lem _ 8 i h eoi_table)

write_specific_eoi :
    (port i : ℕ) (p : Pic)
    → i < 8
    → write_command port (0x60 + i) p ≡ ocw2 (port == 0xA0) (0x60 + i) p
unfolding write_command
write_specific_eoi port i p h = ground (arith, holds_under_lem _ 8 i h eoi_table)

-- In a valid pair, a specific EOI to the master ends the service that the delivery of a master
-- line began: the in-service registers are what they were before the delivery.
pub eoi-acknowledge :
    (p : Pic) (l : ℕ)
    → IsValid p
    → l < 8
    → next_irq p ≡ some l
    → let q = write_command 0x20 (0x60 + l) (acknowledge p).1 in
      (q.master_isr ≡ p.master_isr) × (q.slave_isr ≡ p.slave_isr)
eoi-acknowledge p l v low h =
    let free = ((next_irq_iff p l v).0 h).free in
    rw (acknowledge-deliver p l h, write_specific_eoi 0x20 l (deliver p l).1 low) (ends free)
  where
    ends :
        blocks p l ≡ false
        → ((ocw2 false (0x60 + l) (deliver p l).1).master_isr ≡ p.master_isr)
          × ((ocw2 false (0x60 + l) (deliver p l).1).slave_isr ≡ p.slave_isr)
    ends free =
        unfold ocw2 deliver blocks in
        ground (
          arith,
          specific_eoi (set_bit p.master_isr l) l low,
          clear_bit-set_bit p.master_isr l v.master_isr8 low,
        )

-- In a valid pair, where the slave has nothing in service and the cascade line is not in service,
-- a specific EOI to the slave ends the service that the delivery of a slave line began: both in-
-- service registers are what they were before the delivery.
pub eoi-acknowledge_slave :
    (p : Pic) (l : ℕ)
    → IsValid p
    → 8 ≤ l
    → p.slave_isr ≡ 0
    → testb p.master_isr 2 ≡ false
    → next_irq p ≡ some l
    → let q = write_command 0xA0 (0x60 + (l - 8)) (acknowledge p).1 in
      (q.master_isr ≡ p.master_isr) × (q.slave_isr ≡ p.slave_isr)
eoi-acknowledge_slave p l v high quiet line2 h =
    let small = order-lt l (next_irq-In p l v h) in
    rw
      (
        acknowledge-deliver p l h,
        write_specific_eoi 0xA0 (l - 8) (deliver p l).1 (omega (arith, small)),
      )
      (ends (omega (arith, small)))
  where
    ends :
        l - 8 < 8
        → ((ocw2 true (0x60 + (l - 8)) (deliver p l).1).master_isr ≡ p.master_isr)
          × ((ocw2 true (0x60 + (l - 8)) (deliver p l).1).slave_isr ≡ p.slave_isr)
    ends small =
        unfold ocw2 deliver in
        ground (
          arith,
          v.cascaded,
          testb-zero (l - 8),
          ap (λ s. testb s (l - 8)) quiet,
          specific_eoi (set_bit p.slave_isr (l - 8)) (l - 8) small,
          clear_bit-set_bit p.slave_isr (l - 8) v.slave_isr8 small,
          clear_bit-set_bit p.master_isr 2 v.master_isr8 (omega arith),
        )
