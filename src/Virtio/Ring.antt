-- ===== src/Virtio/Ring.antt =====
-- The loop of `notify` in src/virtio.rs ends, with the driver's ring consumed.
use cuddles.Base.{
  ℕ, zero, suc, ◌+◌, ◌^◌, ◌<◌, ◌≡◌, ◌≢◌, refl, ◌∙◌, Bool, true, false, not, ◌||◌, ◌==◌, u16,
  Bool-cases, inl, inr, arith,
}
use cuddles.Memory.{Memory, read_u16}
use cuddles.Memory.Layout.{IsValid}
use cuddles.Memory.Words.{read_u16-lt}
use cuddles.Virtio.{VirtioBlk, round, behind, notify_loop, notify, raise, avail_ring}

-- `n` rounds, one after the other.
pub rounds : ℕ → VirtioBlk × Memory → VirtioBlk × Memory
rounds zero s = s
rounds (suc n) s = rounds n (round s)

round-last_avail : (s : VirtioBlk × Memory) → (round s).0.last_avail ≡ u16 (s.0.last_avail + 1)
unfolding round
round-last_avail s = refl

round-queue_pfn : (s : VirtioBlk × Memory) → (round s).0.queue_pfn ≡ s.0.queue_pfn
unfolding round
round-queue_pfn s = refl

-- With fuel above the distance the loop ends by its test, after as many rounds as the distance.
notify_loop_ends :
    (fuel avail_idx : ℕ) (worked : Bool) (s : VirtioBlk × Memory)
    → avail_idx < 2 ^ 16
    → s.0.last_avail < 2 ^ 16
    → behind avail_idx s.0.last_avail < fuel
    → let n = behind avail_idx s.0.last_avail in
      notify_loop fuel avail_idx worked s
      ≡ ((rounds n s).0, (rounds n s).1, (worked || not (n == 0)), true)
unfolding notify_loop rounds
notify_loop_ends zero avail_idx worked s ha hl h = absurd (omega arith)
notify_loop_ends (suc fuel) avail_idx worked s ha hl h =
    elim (Bool-cases (behind avail_idx s.0.last_avail == 0)) [
      | inl done ↦ let none : behind avail_idx s.0.last_avail ≡ 0 = ground arith in ground (arith)
      | inr more ↦
          let next = round-last_avail s in
          let fewer : behind avail_idx s.0.last_avail
              ≡ suc (behind avail_idx (round s).0.last_avail) =
            rw next (ground arith) in
          let rest =
            notify_loop_ends fuel avail_idx true (round s) ha (rw next (omega arith))
              (omega arith) in
          let turned : notify_loop (suc fuel) avail_idx worked s
              ≡ notify_loop fuel avail_idx true (round s) =
            rw (more, notify_loop) refl in
          turned ∙ rest ∙ ground (arith, fewer)
    ]

rounds-last_avail :
    (n : ℕ) (s : VirtioBlk × Memory)
    → s.0.last_avail < 2 ^ 16
    → (rounds n s).0.last_avail ≡ u16 (s.0.last_avail + n)
unfolding rounds
rounds-last_avail zero s h = omega arith
rounds-last_avail (suc n) s h =
    let next = round-last_avail s in
    omega (arith, next, rounds-last_avail n (round s) (rw next (omega arith)))

round-irq : (s : VirtioBlk × Memory) → (round s).0.irq ≡ s.0.irq
unfolding round
round-irq s = refl

rounds-irq : (n : ℕ) (s : VirtioBlk × Memory) → (rounds n s).0.irq ≡ s.0.irq
unfolding rounds
rounds-irq zero s = refl
rounds-irq (suc n) s = rounds-irq n (round s) ∙ round-irq s

-- In a valid memory, with the device's index 16 bits, the loop of a notification ends by its own
-- test within 2 ^ 16 rounds of fuel, and the rounds made are as many as the driver's index is
-- ahead of the device's, modulo 2 ^ 16.
pub notify_loop_lem :
    (d : VirtioBlk) (mem : Memory)
    → IsValid mem
    → d.last_avail < 2 ^ 16
    → let avail_idx = read_u16 mem (avail_ring d.queue_pfn + 2) in
      let n = behind avail_idx d.last_avail in
      notify_loop (2 ^ 16) avail_idx false (d, mem)
      ≡ ((rounds n (d, mem)).0, (rounds n (d, mem)).1, not (n == 0), true)
notify_loop_lem d mem v h =
    let small = read_u16-lt mem (avail_ring d.queue_pfn + 2) v in
    notify_loop_ends (2 ^ 16) (read_u16 mem (avail_ring d.queue_pfn + 2)) false (d, mem) small h
      (omega arith)

-- In a valid memory, with a ring set and the device's index 16 bits, a notification takes the
-- device to the driver's index, leaves the memory and the disk of as many rounds as that index was
-- ahead, and puts the interrupt line up if there was anything to do, and otherwise keeps it.
pub notify_lem :
    (d : VirtioBlk) (mem : Memory)
    → IsValid mem
    → d.last_avail < 2 ^ 16
    → d.queue_pfn ≢ 0
    → let avail_idx = read_u16 mem (avail_ring d.queue_pfn + 2) in
      let n = behind avail_idx d.last_avail in
      ((notify d mem).0.last_avail ≡ avail_idx)
      × ((notify d mem).1 ≡ (rounds n (d, mem)).1)
      × ((notify d mem).0.disk ≡ (rounds n (d, mem)).0.disk)
      × ((notify d mem).0.irq ≡ (not (n == 0) || d.irq))
unfolding notify raise
notify_lem d mem v h set' =
    let avail_idx = read_u16 mem (avail_ring d.queue_pfn + 2) in
    let n = behind avail_idx d.last_avail in
    let s = rounds n (d, mem) in
    let on : (d.queue_pfn == 0) ≡ false = ground arith in
    let small = read_u16-lt mem (avail_ring d.queue_pfn + 2) v in
    let whole : notify d mem ≡ raise (s.0, s.1, not (n == 0), true) =
      rw (on, notify_loop_lem d mem v h) refl in
    let reached : s.0.last_avail ≡ avail_idx = omega (arith, rounds-last_avail n (d, mem) h) in
    rw whole (ground (arith, reached, rounds-irq n (d, mem)))
