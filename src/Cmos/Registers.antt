-- ===== src/Cmos/Registers.antt =====
-- The index and data ports of src/cmos.rs: what each register reads as, and what a write changes.
use cuddles.Base.{
  ℕ, ◌+◌, ◌*◌, ◌/◌, ◌%◌, ◌^◌, ◌<◌, ◌≤◌, ◌≡◌, ap, u32, ◌≢◌, refl, ◌∙◌, true, false, arith, bit_and,
  if◌then◌else◌, has_bits-pow, testb, bit_and_low, bit_or_shifted, u64, update,
}
use cuddles.Cmos.Reg
use cuddles.Cmos.Calendar.{
  month_length, day_number, civil_from_days_lem, year_bound, month_length-le,
}
use cuddles.Cmos.{
  Cmos, Time, civil_from_days, civil_time, to_bcd, encode, write_index, read_data, write_data,
  is_clock,
}

-- The number that two BCD digits stand for.
abbrev pub from_bcd : ℕ → ℕ
from_bcd b = b / 16 * 10 + b % 16

-- A guest's reading of a clock byte, in the format of status B.
abbrev pub decode : Cmos → ℕ → ℕ
decode c b = if testb (c.ram Reg.status_b) 2 then b else from_bcd b

bcd : (v : ℕ) → v < 100 → (from_bcd (to_bcd v) ≡ v) × (to_bcd v % 16 < 10) × (to_bcd v < 0x9A)
unfolding to_bcd
bcd v h = rw (bit_or_shifted 4 (v / 10) (v % 10) (omega arith)) (omega arith)

decode-encode : (c : Cmos) (v : ℕ) → v < 100 → decode c (encode c v) ≡ v
unfolding encode
decode-encode c v h = ground (arith, bcd v h, has_bits-pow (c.ram Reg.status_b) 2)

-- A read of the selected clock register, decoded as status B says.
abbrev pub clock_at : Cmos → ℕ → ℕ
clock_at c i = decode c (read_data (write_index i c)).0

selected :
    (c : Cmos) (i v : ℕ)
    → (read_data (write_index i c)).0 ≡ encode (write_index i c) v
    → v < 100
    → clock_at c i ≡ v
selected c i v e h = rw e (unfold write_index in decode-encode (write_index i c) v h)

time_small :
    (c : Cmos)
    → let t = civil_time c in
      (t.second < 100) × (t.minute < 100) × (t.hour < 24) × (t.weekday + 1 < 100)
unfolding civil_time
time_small c = omega arith

-- The hour that a guest reads: in the 12-hour format bit 7 is set after noon.
abbrev pub decode_hour : Cmos → ℕ → ℕ
decode_hour c b =
    if testb (c.ram Reg.status_b) 1
    then decode c b
    else decode c (b % 2 ^ 7) % 12 + (if testb b 7 then 12 else 0)

-- The seconds of the clock since 1970.
abbrev pub now : Cmos → ℕ
now c = u64 (c.epoch_secs + c.elapsed_secs)

module _ (c : Cmos) (h24 : testb (c.ram Reg.status_b) 1 ≡ true) (soon : now c < 250000000000) where
  abbrev time : Time
  time = civil_time c

  date_lem :
      (1 ≤ time.month)
      × (time.month ≤ 12)
      × (1 ≤ time.day)
      × (time.day ≤ 31)
      × (time.day ≤ month_length time.year time.month)
      × (day_number time.year time.month time.day ≡ now c / 86400 + 719468)
      × (time.year < 10000)
  unfolding civil_time
  date_lem =
      let days = now c / 86400 in
      let date = civil_from_days days in
      let r = civil_from_days_lem days in
      let near = year_bound date.0 date.1 date.2 (days + 719468) r.4 (omega (arith, soon)) in
      let same : u32 date.0 ≡ date.0 = omega (arith, near) in
      (
        r.0,
        r.1,
        r.2,
        omega (arith, r.3, month_length-le date.0 date.1),
        rw same r.3,
        ap (λ y. day_number y date.1 date.2) same ∙ r.4,
        omega (arith, same, near),
      )

  read_registers :
      (clock_at c Reg.seconds ≡ time.second)
      × (clock_at c Reg.minutes ≡ time.minute)
      × (clock_at c Reg.hours ≡ time.hour)
      × (clock_at c Reg.weekday ≡ time.weekday + 1)
      × (clock_at c Reg.day ≡ time.day)
      × (clock_at c Reg.month ≡ time.month)
      × (clock_at c Reg.year ≡ time.year % 100)
      × (clock_at c Reg.century ≡ time.year / 100)
  read_registers =
      let small = time_small c in
      let date = date_lem in
      (
        selected c Reg.seconds time.second (unfold read_data encode civil_time write_index in refl)
            small.0,
        selected c Reg.minutes time.minute (unfold read_data encode civil_time write_index in refl)
            small.1,
        selected c Reg.hours time.hour (unfold read_data encode civil_time write_index in refl)
            (omega (arith, small.2)),
        selected c Reg.weekday (time.weekday + 1)
            (unfold read_data encode civil_time write_index in refl) small.3,
        selected c Reg.day time.day (unfold read_data encode civil_time write_index in refl)
            (omega (arith, date.3)),
        selected c Reg.month time.month (unfold read_data encode civil_time write_index in refl)
            (omega (arith, date.1)),
        selected c Reg.year (time.year % 100)
            (unfold read_data encode civil_time write_index in refl) (omega arith),
        selected c Reg.century (time.year / 100)
            (unfold read_data encode civil_time write_index in refl) (omega (arith, date.6)),
      )

  time_of_day :
      (time.hour * 3600 + time.minute * 60 + time.second ≡ now c % 86400)
      × (time.minute < 60)
      × (time.second < 60)
      × (time.weekday ≡ (now c / 86400 + 4) % 7)
  unfolding civil_time
  time_of_day = omega arith

  -- With status B asking for 24-hour time and the time below 250000000000 seconds, the clock
  -- registers, decoded in BCD or binary as status B says, give the time: hours, minutes and
  -- seconds add up to the seconds of the day, the weekday is from 1 for Sunday, and century, year,
  -- month and day are a date of the Gregorian calendar whose days are the days elapsed since 1970.
  pub clock_registers :
      let y = clock_at c Reg.century * 100 + clock_at c Reg.year in
      let m = clock_at c Reg.month in
      let d = clock_at c Reg.day in
      let hour = decode_hour c (read_data (write_index Reg.hours c)).0 in
      (hour * 3600 + clock_at c Reg.minutes * 60 + clock_at c Reg.seconds ≡ now c % 86400)
      × (clock_at c Reg.minutes < 60)
      × (clock_at c Reg.seconds < 60)
      × (clock_at c Reg.weekday ≡ (now c / 86400 + 4) % 7 + 1)
      × (1 ≤ m)
      × (m ≤ 12)
      × (1 ≤ d)
      × (d ≤ month_length y m)
      × (day_number y m d ≡ now c / 86400 + 719468)
  clock_registers =
      let r = read_registers in
      let t = time_of_day in
      let date = date_lem in
      let hour : decode_hour c (read_data (write_index Reg.hours c)).0 ≡ time.hour = rw h24 r.2 in
      let year : clock_at c Reg.century * 100 + clock_at c Reg.year ≡ time.year =
        omega (arith, r.6, r.7) in
      rw (hour, year, r.0, r.1, r.3, r.4, r.5)
        (t.0, t.1, t.2, omega (arith, t.3), date.0, date.1, date.2, date.4, date.5)

read_plain :
    (c : Cmos)
    → is_clock c.index ≡ false
    → c.index ≢ Reg.status_a
    → c.index ≢ Reg.status_c
    → (read_data c).0 ≡ c.ram (bit_and c.index 0x7F)
unfolding read_data
read_plain c clock a sc = ground arith

write_plain :
    (val : ℕ) (c : Cmos)
    → is_clock c.index ≡ false
    → write_data val c ≡ record c { ram = update c.ram (bit_and c.index 0x7F) val }
unfolding write_data
write_plain val c clock = rw clock

-- What is written to a register other than the clock's and status A and C reads back, at any value
-- of the NMI bit, and no other cell of the RAM changes.
pub ram_round_trip :
    (i j val : ℕ) (c : Cmos)
    → is_clock (i % 2 ^ 7) ≡ false
    → i % 2 ^ 7 ≢ Reg.status_a
    → i % 2 ^ 7 ≢ Reg.status_c
    → j ≢ i % 2 ^ 7
    → let c' = write_data val (write_index i c) in
      ((read_data (write_index i c')).0 ≡ val) × (c'.ram j ≡ c.ram j)
ram_round_trip i j val c clock a sc ne = (reads_back, others ne)
  where
    index : bit_and i 0x7F ≡ i % 2 ^ 7
    index = bit_and_low 7 i

    again : bit_and (i % 2 ^ 7) 0x7F ≡ i % 2 ^ 7
    again = bit_and_low 7 (i % 2 ^ 7) ∙ omega arith

    reads_back : (read_data (write_index i (write_data val (write_index i c)))).0 ≡ val
    reads_back =
        unfold write_index in
        rw (index, write_plain val _ clock, again)
          (read_plain _ clock a sc ∙ rw again (ground arith))

    others : j ≢ i % 2 ^ 7 → (write_data val (write_index i c)).ram j ≡ c.ram j
    others other =
        unfold write_index in rw (index, write_plain val _ clock, again) (ground (arith, other))

-- A write to a clock register changes nothing, and status A never shows an update in progress.
pub clock_write_dropped : (val : ℕ) (c : Cmos) → is_clock c.index ≡ true → write_data val c ≡ c
unfolding write_data
clock_write_dropped val c h = rw h

pub status_a_ready : (c : Cmos) → testb (read_data (write_index Reg.status_a c)).0 7 ≡ false
unfolding read_data write_index testb
status_a_ready c = ground (arith, bit_and_low 7 (c.ram Reg.status_a))

-- Status C is cleared by the read that returns it.
pub status_c_clears :
    (c : Cmos)
    → let (v, c') = read_data (write_index Reg.status_c c) in
      (v ≡ c.ram Reg.status_c) × ((read_data (write_index Reg.status_c c')).0 ≡ 0)
unfolding read_data write_index
status_c_clears c = (refl, refl)
