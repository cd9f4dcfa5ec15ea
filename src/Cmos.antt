-- ===== src/Cmos.antt =====
-- The MC146818 clock and configuration RAM: src/cmos.rs. The host's clock and environment, read
-- once by `new`, are a parameter: the seconds since the epoch. `ram` is a function of the index.
pub mod Reg
pub mod Calendar
pub mod Registers
mod Tests
use cuddles.Base.{
  ℕ, ◌+◌, ◌-◌, ◌*◌, ◌/◌, ◌%◌, ◌^◌, Bool, true, false, not, bit_and, bit_or, ◌==◌, ltb, leb,
  if◌then◌else◌, ◌<<<◌, ◌||◌, has_bits, u8, u32, u64, update,
}

abbrev pub sb_24hour : ℕ
sb_24hour = 0x02

abbrev pub sb_binary : ℕ
sb_binary = 0x04

pub record Cmos : Type 0 where
  pub index : ℕ
  pub ram : ℕ → ℕ
  pub epoch_secs : ℕ
  pub elapsed_secs : ℕ
  pub nmi_disabled : Bool

-- A date: year, month and day.
abbrev pub Date : Type 0
Date = ℕ × ℕ × ℕ

-- `civil_from_days`. Its one caller passes the days since 1970 of an unsigned time, so `z` is a
-- natural number and the branch for `z < 0` is not taken.
pub civil_from_days : ℕ → Date
civil_from_days days =
    let z = days + 719468 in
    let era = z / 146097 in
    let doe = z - era * 146097 in
    let yoe = (doe - doe / 1460 + doe / 36524 - doe / 146096) / 365 in
    let y = yoe + era * 400 in
    let doy = doe - (365 * yoe + yoe / 4 - yoe / 100) in
    let mp = (5 * doy + 2) / 153 in
    let d = doy - (153 * mp + 2) / 5 + 1 in
    let m = if ltb mp 10 then mp + 3 else mp - 9 in (if leb m 2 then y + 1 else y, m, d)

pub to_bcd : ℕ → ℕ
to_bcd v = u8 (bit_or ((v / 10) <<< 4) (v % 10))

-- The fields of `civil_time`.
pub record Time : Type 0 where
  pub year : ℕ
  pub month : ℕ
  pub day : ℕ
  pub hour : ℕ
  pub minute : ℕ
  pub second : ℕ
  pub weekday : ℕ

pub civil_time : Cmos → Time
civil_time c =
    let t = u64 (c.epoch_secs + c.elapsed_secs) in
    let days = t / 86400 in
    let rem = t % 86400 in
    let (y, mo, d) = civil_from_days days in
    record {
      year = u32 y;
      month = mo;
      day = d;
      hour = rem / 3600;
      minute = rem % 3600 / 60;
      second = rem % 60;
      weekday = (days + 4) % 7;
    }

-- A CMOS at a given time: what `new` makes of the host's clock, and `blank` of the epoch.
pub new : ℕ → Cmos
new epoch_secs = record {
  index = 0;
  ram = update (update (update (λ i. 0) Reg.status_b sb_24hour) Reg.status_d 0x80) 0x14 0x21;
  epoch_secs = epoch_secs;
  elapsed_secs = 0;
  nmi_disabled = false;
}

unfoldable pub tick_second : Cmos → Cmos
tick_second c = record c { elapsed_secs = u64 (c.elapsed_secs + 1) }

pub write_index : ℕ → Cmos → Cmos
write_index val c = record c { nmi_disabled = has_bits val 0x80; index = bit_and val 0x7F }

-- `enc`: a clock value in the format that status B selects.
pub encode : Cmos → ℕ → ℕ
encode c v = if bit_and (c.ram Reg.status_b) sb_binary == 0 then to_bcd v else u8 v

pub read_data : Cmos → ℕ × Cmos
unfolding encode
read_data c =
    let t = civil_time c in
    let i = c.index in
    if i == Reg.seconds
    then (encode c t.second, c)
    else if i == Reg.minutes
    then (encode c t.minute, c)
    else if i == Reg.hours
    then (encode c t.hour, c)
    else if i == Reg.weekday
    then (encode c (t.weekday + 1), c)
    else if i == Reg.day
    then (encode c t.day, c)
    else if i == Reg.month
    then (encode c t.month, c)
    else if i == Reg.year
    then (encode c (t.year % 100), c)
    else if i == Reg.century
    then (encode c (t.year / 100), c)
    else if i == Reg.status_a
    then (bit_and (c.ram Reg.status_a) 0x7F, c)
    else if i == Reg.status_c
    then (c.ram Reg.status_c, record c { ram = update c.ram Reg.status_c 0 })
    else (c.ram (bit_and i 0x7F), c)

abbrev pub is_clock : ℕ → Bool
is_clock i =
    i == Reg.seconds
    || i == Reg.minutes
    || i == Reg.hours
    || i == Reg.weekday
    || i == Reg.day
    || i == Reg.month
    || i == Reg.year
    || i == Reg.century

pub write_data : ℕ → Cmos → Cmos
write_data val c =
    if is_clock c.index then c else record c { ram = update c.ram (bit_and c.index 0x7F) val }
