-- ===== src/Pit/Count.antt =====
-- Counting down: what a sequence of ticks does to channels 0 and 2 of src/pit.rs, however the
-- cycles are batched, and what port 0x61 shows of it.
use cuddles.Base.{
  ℕ, ◌+◌, ◌-◌, ◌*◌, ◌^◌, ◌≤◌, ◌<◌, ◌≡◌, refl, ◌∙◌, Bool, true, false, not, ◌||◌, List, [], ◌∷◌,
  arith, bit_or, leb, if◌then◌else◌, ◌<<<◌, testb, has_bits, has_bits-pow, Bool-cases, inl, inr,
}
use cuddles.Pit.{Pit, tick, write_port61, read_port61, bool_bit}

abbrev pub ticks : List ℕ → Pit → Pit
ticks [] p = p
ticks (c ∷ cs) p = ticks cs (tick c p)

abbrev pub total : List ℕ → ℕ
total [] = 0
total (c ∷ cs) = c + total cs

-- One tick, as far as channel 0 is concerned.
tick-ch0 :
    (c : ℕ) (p : Pit)
    → p.ch0_count < 2 ^ 16
    → 0 < p.ch0_count
    → ((tick c p).ch0_reload ≡ p.ch0_reload)
      × ((tick c p).ch0_count ≡ (if leb p.ch0_count c then p.ch0_reload else p.ch0_count - c))
      × ((tick c p).irq0 ≡ p.irq0 || leb p.ch0_count c)
unfolding tick
tick-ch0 c p w pos = ground arith

-- Where channel 0's count is 16 bits and more than the total of some ticks, they leave IRQ0 and
-- the reload value as they were and count down by their total.
pub ticks-ch0_running :
    (cs : List ℕ) (p : Pit)
    → p.ch0_count < 2 ^ 16
    → total cs < p.ch0_count
    → ((ticks cs p).ch0_count ≡ p.ch0_count - total cs)
      × ((ticks cs p).ch0_reload ≡ p.ch0_reload)
      × ((ticks cs p).irq0 ≡ p.irq0)
ticks-ch0_running [] p w h = ground arith
ticks-ch0_running (c ∷ cs) p w h =
    let one = tick-ch0 c p w (omega arith) in
    ground (arith, one, ticks-ch0_running cs (tick c p) (ground (arith, one)) (ground (arith, one)))

-- Where channel 0's count is 16 bits and more than the total of some ticks, the tick that takes
-- the total to the count or past it asserts IRQ0 and reloads the count in full.
pub ticks-ch0_expired :
    (cs : List ℕ) (c : ℕ) (p : Pit)
    → p.ch0_count < 2 ^ 16
    → total cs < p.ch0_count
    → p.ch0_count ≤ total cs + c
    → let q = tick c (ticks cs p) in (q.irq0 ≡ true) × (q.ch0_count ≡ p.ch0_reload)
ticks-ch0_expired cs c p w before reached =
    let run = ticks-ch0_running cs p w before in
    let last = tick-ch0 c (ticks cs p) (omega (arith, run.0)) (omega (arith, run.0)) in
    ground (arith, run, last)

-- One tick, as far as channel 2 is concerned.
tick-ch2 :
    (c : ℕ) (p : Pit)
    → p.ch2_count < 2 ^ 16
    → p.ch2_gate ≡ true
    → ((tick c p).ch2_gate ≡ true)
      × ((tick c p).ch2_out ≡ p.ch2_out || leb p.ch2_count c)
      × ((tick c p).ch2_count
          ≡ (if p.ch2_out then p.ch2_count else if leb p.ch2_count c then 0 else p.ch2_count - c))
unfolding tick
tick-ch2 c p w g = ground arith

ch2_latched :
    (cs : List ℕ) (p : Pit)
    → p.ch2_count < 2 ^ 16
    → p.ch2_gate ≡ true
    → p.ch2_out ≡ true
    → (ticks cs p).ch2_out ≡ true
ch2_latched [] p w g o = o
ch2_latched (c ∷ cs) p w g o =
    let one = tick-ch2 c p w g in
    ch2_latched cs (tick c p) (ground (arith, one)) one.0 (ground (arith, one))

-- With its gate high, channel 2 raises OUT exactly when the ticks add up to its count, at any
-- batching, and OUT then stays high. (The first batch is kept apart: with no tick at all a count of
-- zero has not been noticed.)
pub ticks-ch2_out :
    (c : ℕ) (cs : List ℕ) (p : Pit)
    → p.ch2_count < 2 ^ 16
    → p.ch2_gate ≡ true
    → p.ch2_out ≡ false
    → (ticks (c ∷ cs) p).ch2_out ≡ leb p.ch2_count (total (c ∷ cs))
ticks-ch2_out c [] p w g o = ground (arith, tick-ch2 c p w g)
ticks-ch2_out c (d ∷ cs) p w g o = elim (Bool-cases (leb p.ch2_count c)) [
  | inl reached ↦
      let one = tick-ch2 c p w g in
      ground
        (arith, ch2_latched (d ∷ cs) (tick c p) (ground (arith, one)) one.0 (ground (arith, one)))
  | inr before ↦
      let one = tick-ch2 c p w g in
      ground (
        arith,
        one,
        ticks-ch2_out d cs (tick c p) (ground (arith, one)) one.0 (ground (arith, one)),
      )
]

-- A number of four flag bits and what its bits are.
port61_table :
    (g s r o : Bool)
    → let v =
        bit_or
          (bit_or (bit_or (bool_bit g) (bool_bit s <<< 1)) (bool_bit r <<< 4))
          (bool_bit o <<< 5) in
      (testb v 0 ≡ g) × (testb v 1 ≡ s) × (testb v 4 ≡ r) × (testb v 5 ≡ o)
unfolding testb
port61_table true true true true = (refl, refl, refl, refl)
port61_table true true true false = (refl, refl, refl, refl)
port61_table true true false true = (refl, refl, refl, refl)
port61_table true true false false = (refl, refl, refl, refl)
port61_table true false true true = (refl, refl, refl, refl)
port61_table true false true false = (refl, refl, refl, refl)
port61_table true false false true = (refl, refl, refl, refl)
port61_table true false false false = (refl, refl, refl, refl)
port61_table false true true true = (refl, refl, refl, refl)
port61_table false true true false = (refl, refl, refl, refl)
port61_table false true false true = (refl, refl, refl, refl)
port61_table false true false false = (refl, refl, refl, refl)
port61_table false false true true = (refl, refl, refl, refl)
port61_table false false true false = (refl, refl, refl, refl)
port61_table false false false true = (refl, refl, refl, refl)
port61_table false false false false = (refl, refl, refl, refl)

not-not : (b : Bool) → not (not b) ≡ b
not-not true = refl
not-not false = refl

-- Port 0x61 gives back the gate and speaker bits last written to it, shows OUT in bit 5, and turns
-- the refresh bit over at every read.
pub read-write_port61 :
    (val : ℕ) (p : Pit)
    → let (v, q) = read_port61 (write_port61 val p) in
      (testb v 0 ≡ testb val 0)
      × (testb v 1 ≡ testb val 1)
      × (testb v 5 ≡ p.ch2_out)
      × (testb v 4 ≡ not p.refresh_toggle)
      × (testb (read_port61 q).0 4 ≡ p.refresh_toggle)
unfolding read_port61 write_port61
read-write_port61 val p =
    let t = port61_table (has_bits val 1) (has_bits val 2) (not p.refresh_toggle) p.ch2_out in
    let again =
      port61_table (has_bits val 1) (has_bits val 2) (not (not p.refresh_toggle)) p.ch2_out in
    (
      t.0 ∙ has_bits-pow val 0,
      t.1 ∙ has_bits-pow val 1,
      t.3,
      t.2,
      again.2 ∙ not-not p.refresh_toggle,
    )

-- Where channel 2's count is 16 bits, its OUT is low and the value written to port 0x61 opens the
-- gate, a read of the port after any positive number of ticks shows bit 5 exactly when their total
-- has reached the count.
pub port61_calibration :
    (c : ℕ) (cs : List ℕ) (val : ℕ) (p : Pit)
    → p.ch2_count < 2 ^ 16
    → p.ch2_out ≡ false
    → testb val 0 ≡ true
    → testb (read_port61 (ticks (c ∷ cs) (write_port61 val p))).0 5
      ≡ leb p.ch2_count (total (c ∷ cs))
port61_calibration c cs val p w o g =
    let q = ticks (c ∷ cs) (write_port61 val p) in
    let shown : testb (read_port61 q).0 5 ≡ q.ch2_out =
      unfold read_port61 in
      (port61_table q.ch2_gate q.speaker_on (not q.refresh_toggle) q.ch2_out).3 in
    let opened : (write_port61 val p).ch2_gate ≡ true =
      unfold write_port61 in has_bits-pow val 0 ∙ g in
    shown ∙ unfold write_port61 in ticks-ch2_out c cs (write_port61 val p) w opened o

-- A tick of a multiple of 65536 cycles leaves a running channel 1 where it was.
pub tick_ch1_truncates :
    (k : ℕ) (p : Pit) → 0 < p.ch1_count → (tick (k * 2 ^ 16) p).ch1_count ≡ p.ch1_count
unfolding tick
tick_ch1_truncates k p h = ground arith
