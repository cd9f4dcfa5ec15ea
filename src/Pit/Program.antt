-- ===== src/Pit/Program.antt =====
-- Programming a channel of src/pit.rs with a control word and two bytes, and reading it back.
use cuddles.Base.{
  ℕ, zero, suc, ◌+◌, ◌*◌, ◌%◌, ◌^◌, ◌<◌, ◌≡◌, ◌≢◌, false, ◌∙◌, arith, bit_and, ◌==◌, if◌then◌else◌,
  ◌>>>◌, low_byte, join_bytes, bit_and_low,
}
use cuddles.Pit.{
  Pit, write_control, write_data, read_data, word_of, port_access, port_count, port_pending,
}

-- The channel and the access mode that a control word names.
abbrev pub channel_of : ℕ → ℕ
channel_of val = bit_and (val >>> 6) 3

abbrev pub access_of : ℕ → ℕ
access_of val = bit_and (val >>> 4) 3

abbrev pub port_reload : ℕ → Pit → ℕ
port_reload port p =
    if port == 0 then p.ch0_reload else if port == 1 then p.ch1_reload else p.ch2_reload

-- What a write of a whole count leaves: the channel holds it in both registers and waits for no
-- byte, and the other channels keep their counts.
pub record IsLoaded (channel count : ℕ) (p q : Pit) : Type 0 where
  pub counts : port_count channel q ≡ count
  pub reloads : port_reload channel q ≡ count
  pub settled : port_pending channel q ≡ false
  pub word_access : (port_access channel q ≢ 1) × (port_access channel q ≢ 2)
  pub others : (j : ℕ) → j < 3 → j ≢ channel → port_count j q ≡ port_count j p

loaded :
    (c lo hi : ℕ) (p : Pit)
    → c < 3
    → c ≡ p.active_channel
    → (port_access c p ≢ 1) × (port_access c p ≢ 2)
    → port_pending c p ≡ false
    → IsLoaded c (word_of lo hi) p (write_data hi (write_data lo p))
unfolding write_data
loaded c lo hi p ne e acc idle = record {
  counts = ground arith;
  reloads = ground arith;
  settled = ground arith;
  word_access = ground arith;
  others = λ j h o. ground arith;
}

-- A control word for word access selects its channel and leaves counts and pending bytes alone.
control_word :
    (val : ℕ) (p : Pit)
    → channel_of val ≢ 3
    → (access_of val ≢ 1) × (access_of val ≢ 2)
    → let q = write_control val p in
      let c = channel_of val in
      (c ≡ q.active_channel)
      × (port_access c q ≢ 1)
      × (port_access c q ≢ 2)
      × (port_pending c q ≡ port_pending c p)
      × (port_count 0 q ≡ port_count 0 p)
      × (port_count 1 q ≡ port_count 1 p)
      × (port_count 2 q ≡ port_count 2 p)
unfolding write_control
control_word val p ne acc = ground (arith, bit_and_low 2 (val >>> 6))

-- A control word that selects a channel for word access, then the low and the high byte of a
-- count, load that count into the channel's counter and reload register, when no byte was pending
-- on the channel; the other channels' counters stay.
pub program_word :
    (val lo hi : ℕ) (p : Pit)
    → channel_of val ≢ 3
    → (access_of val ≢ 1) × (access_of val ≢ 2)
    → port_pending (channel_of val) p ≡ false
    → lo < 2 ^ 8
    → IsLoaded
        (channel_of val)
        (hi * 2 ^ 8 + lo)
        p
        (write_data hi (write_data lo (write_control val p)))
program_word val lo hi p ne acc idle h =
    let c = channel_of val in
    let small : c < 3 = omega (arith, bit_and_low 2 (val >>> 6), ne) in
    let w = control_word val p ne acc in
    let r = loaded c lo hi (write_control val p) small w.0 (w.1, w.2) (w.3 ∙ idle) in
    let same = join_bytes lo hi h in
    record {
      counts = r.counts ∙ same;
      reloads = r.reloads ∙ same;
      settled = r.settled;
      word_access = r.word_access;
      others = λ j hj o. r.others j hj o ∙ counts_kept j hj w.4 w.5 w.6;
    }
  where
    counts_kept :
        (j : ℕ)
        → j < 3
        → port_count 0 (write_control val p) ≡ port_count 0 p
        → port_count 1 (write_control val p) ≡ port_count 1 p
        → port_count 2 (write_control val p) ≡ port_count 2 p
        → port_count j (write_control val p) ≡ port_count j p
    counts_kept zero hj a b c = a
    counts_kept (suc zero) hj a b c = b
    counts_kept (suc (suc zero)) hj a b c = c
    counts_kept (suc (suc (suc j))) hj a b c = absurd (omega arith)

-- Two reads of a channel in word access, with no byte pending, give the low and then the high byte
-- of its counter, and leave no byte pending.
pub read_word :
    (c : ℕ) (p : Pit)
    → (port_access c p ≢ 1) × (port_access c p ≢ 2)
    → port_pending c p ≡ false
    → port_count c p < 2 ^ 16
    → let (lo, q) = read_data c p in
      let (hi, r) = read_data c q in (lo + hi * 2 ^ 8 ≡ port_count c p) × (port_pending c r ≡ false)
unfolding read_data
read_word c p acc idle h = ground (arith, low_byte (port_count c p))

-- Where a control word selects a channel and an access of both bytes, and the channel's flip-flop
-- is clear, the low and then the high byte written after it are what two reads of the channel
-- give.
pub program-read_word :
    (val lo hi : ℕ) (p : Pit)
    → channel_of val ≢ 3
    → (access_of val ≢ 1) × (access_of val ≢ 2)
    → port_pending (channel_of val) p ≡ false
    → lo < 2 ^ 8
    → hi < 2 ^ 8
    → let c = channel_of val in
      let (low, q) = read_data c (write_data hi (write_data lo (write_control val p))) in
      (low + (read_data c q).0 * 2 ^ 8 ≡ hi * 2 ^ 8 + lo)
program-read_word val lo hi p ne acc idle h h' =
    let r = program_word val lo hi p ne acc idle h in
    let back =
      read_word (channel_of val) (write_data hi (write_data lo (write_control val p))) r.word_access
        r.settled (rw r.counts (omega arith)) in
    back.0 ∙ r.counts

-- Where channel 0 is selected, in an access of both bytes, with its flip-flop clear and its count
-- 16 bits: after one read of it, the next byte written is taken for the high byte of a count whose
-- low byte is the counter's.
pub read-write_mixed :
    (p : Pit) (val : ℕ)
    → p.active_channel ≡ 0
    → (p.ch0_access ≢ 1) × (p.ch0_access ≢ 2)
    → p.ch0_lsb_pending ≡ false
    → p.ch0_count < 2 ^ 16
    → (write_data val (read_data 0 p).1).ch0_reload ≡ val * 2 ^ 8 + p.ch0_count % 2 ^ 8
unfolding write_data read_data
read-write_mixed p val act acc idle h =
    ground (arith, low_byte p.ch0_count, join_bytes (p.ch0_count % 2 ^ 8) val)
