-- ===== src/Cmos/Tests.antt =====
-- Instances of the theorems about src/cmos.rs at concrete inputs.
use cuddles.Base.{◌+◌, ◌*◌, ◌<◌, ◌≤◌, ◌≡◌, refl, arith, testb}
use cuddles.Cmos.Reg
use cuddles.Cmos.{Cmos, new, read_data, write_index, civil_from_days}
use cuddles.Cmos.Calendar.{month_length, day_number, civil_from_days_lem}
use cuddles.Cmos.Registers.{clock_at, decode_hour, clock_registers}

-- Noon on 2 January 1970, in the 24-hour format.
abbrev noon : Cmos
noon = new 129600

clock_registers_example :
    let y = clock_at noon Reg.century * 100 + clock_at noon Reg.year in
    let m = clock_at noon Reg.month in
    let d = clock_at noon Reg.day in
    let hour = decode_hour noon (read_data (write_index Reg.hours noon)).0 in
    (hour * 3600 + clock_at noon Reg.minutes * 60 + clock_at noon Reg.seconds ≡ 43200)
    × (clock_at noon Reg.minutes < 60)
    × (clock_at noon Reg.seconds < 60)
    × (clock_at noon Reg.weekday ≡ 6)
    × (1 ≤ m)
    × (m ≤ 12)
    × (1 ≤ d)
    × (d ≤ month_length y m)
    × (day_number y m d ≡ 719469)
unfolding new testb
clock_registers_example = clock_registers noon refl (omega arith)

-- 29 February 2000, and the day before 1 March 2100.
leap_days : (civil_from_days 11016 ≡ (2000, 2, 29)) × (civil_from_days 47540 ≡ (2100, 2, 28))
unfolding civil_from_days
leap_days = (refl, refl)

civil_from_days_lem_example :
    let (y, m, d) = civil_from_days 11016 in
    (1 ≤ m) × (m ≤ 12) × (1 ≤ d) × (d ≤ month_length y m) × (day_number y m d ≡ 730484)
civil_from_days_lem_example = civil_from_days_lem 11016
