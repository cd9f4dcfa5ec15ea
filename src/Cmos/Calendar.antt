-- ===== src/Cmos/Calendar.antt =====
-- The dates that `civil_from_days` of src/cmos.rs computes, against a count of the days of the
-- Gregorian calendar.
use cuddles.Base.{
  ℕ, ◌+◌, ◌-◌, ◌*◌, ◌/◌, ◌%◌, ◌<◌, ◌≤◌, ◌≡◌, ◌≢◌, refl, ◌∙◌, ◌⊎◌, inl, inr, Bool, true, arith, not,
  ◌&&◌, ◌||◌, ◌==◌, leb, ltb, if◌then◌else◌, Bool-cases,
}
use cuddles.Cmos.{civil_from_days}

-- The year of an era of 400 years, from the day of the era.
abbrev year_of : ℕ → ℕ
year_of doe = (doe - doe / 1460 + doe / 36524 - doe / 146096) / 365

abbrev first_day : ℕ → ℕ
first_day yoe = 365 * yoe + yoe / 4 - yoe / 100

year_lem : (doe : ℕ) → doe < 146097 → (year_of doe ≤ 399) × (first_day (year_of doe) ≤ doe)
year_lem doe h = omega arith

year_end : (doe : ℕ) → doe < 146097 → doe - first_day (year_of doe) ≤ 365
year_end doe h = omega arith

-- The last day of a year that begins in March is there only before a leap year's March.
leap_day :
    (doe : ℕ)
    → doe < 146097
    → doe - first_day (year_of doe) ≡ 365
    → ((year_of doe + 1) % 4 ≡ 0) × (((year_of doe + 1) % 100 ≢ 0) ⊎ (year_of doe ≡ 399))
leap_day doe h last = omega (arith, h, last)

abbrev pub is_leap : ℕ → Bool
is_leap y = y % 4 == 0 && (not (y % 100 == 0) || y % 400 == 0)

abbrev pub month_length : ℕ → ℕ → ℕ
month_length y m =
    if m == 2
    then (if is_leap y then 29 else 28)
    else if m == 4 || m == 6 || m == 9 || m == 11
    then 30
    else 31

-- The days from the first of March to the first of a month.
abbrev pub days_to_month : ℕ → ℕ
days_to_month m =
    if m == 1
    then 306
    else if m == 2
    then 337
    else if m == 3
    then 0
    else if m == 4
    then 31
    else if m == 5
    then 61
    else if m == 6
    then 92
    else if m == 7
    then 122
    else if m == 8
    then 153
    else if m == 9
    then 184
    else if m == 10
    then 214
    else if m == 11
    then 245
    else 275

-- The days from the first of March of the year 0 to a date, in years that begin in March.
abbrev pub day_number : ℕ → ℕ → ℕ → ℕ
day_number y m d =
    let started = if leb m 2 then y - 1 else y in
    365 * started + started / 4 - started / 100 + started / 400 + days_to_month m + (d - 1)

-- A day of a year that begins in March as month and day.
abbrev month_index : ℕ → ℕ
month_index doy = (5 * doy + 2) / 153

abbrev month_of : ℕ → ℕ
month_of doy = let mp = month_index doy in if ltb mp 10 then mp + 3 else mp - 9

abbrev day_of : ℕ → ℕ
day_of doy = doy - (153 * month_index doy + 2) / 5 + 1

month_lem :
    (doy : ℕ)
    → doy ≤ 365
    → (1 ≤ month_of doy)
      × (month_of doy ≤ 12)
      × (1 ≤ day_of doy)
      × (days_to_month (month_of doy) + (day_of doy - 1) ≡ doy)
      × (leb (month_of doy) 2 ≡ leb 306 doy)
month_lem doy h = ground arith

length_lem :
    (doy y : ℕ)
    → doy ≤ 365
    → (doy ≡ 365 → is_leap y ≡ true)
    → day_of doy ≤ month_length y (month_of doy)
length_lem doy y h leap = ground (arith, leap)

leap_lem :
    (yoe era : ℕ)
    → (yoe + 1) % 4 ≡ 0
    → ((yoe + 1) % 100 ≢ 0) ⊎ (yoe ≡ 399)
    → is_leap (yoe + era * 400 + 1) ≡ true
leap_lem yoe era four century = ground (arith, four, century)

-- The days before an era, its years and a day of one of them add up.
count_lem :
    (yoe era doy m d : ℕ)
    → yoe ≤ 399
    → days_to_month m + (d - 1) ≡ doy
    → day_number (if leb m 2 then yoe + era * 400 + 1 else yoe + era * 400) m d
      ≡ era * 146097 + first_day yoe + doy
count_lem yoe era doy m d small h =
    let n = days_to_month m in
    elim (Bool-cases (leb m 2)) [
      | inl early ↦ rw early (spread (yoe + era * 400 + 1 - 1) n (omega arith) refl)
      | inr late ↦ rw late (spread (yoe + era * 400) n refl refl)
    ]
  where
    spread :
        (z n : ℕ)
        → z ≡ yoe + era * 400
        → n ≡ days_to_month m
        → 365 * z + z / 4 - z / 100 + z / 400 + n + (d - 1) ≡ era * 146097 + first_day yoe + doy
    spread z n year same = omega (arith, small, h, year, same)

pub year_bound : (y m d n : ℕ) → day_number y m d ≡ n → n < 3613000 → y < 10000
year_bound y m d n h small =
    let started = if leb m 2 then y - 1 else y in
    let bound : (k : ℕ)
        → 365 * started + started / 4 - started / 100 + started / 400 + k + (d - 1) ≡ n
        → started < 9999 =
      λ k e. omega (arith, small, e) in
    let near = bound (days_to_month m) h in ground (arith, near)

pub month_length-le : (y m : ℕ) → month_length y m ≤ 31
month_length-le y m = ground arith

-- For every number of days since 1970, the date is one of the Gregorian calendar (a month from 1
-- to 12, a day from 1 to the length of that month in that year), and the days counted from it, by
-- leap years and by the lengths of the months, are the days given.
pub civil_from_days_lem :
    (days : ℕ)
    → let (y, m, d) = civil_from_days days in
      (1 ≤ m) × (m ≤ 12) × (1 ≤ d) × (d ≤ month_length y m) × (day_number y m d ≡ days + 719468)
unfolding civil_from_days
civil_from_days_lem days =
    let era = (days + 719468) / 146097 in
    let doe = days + 719468 - era * 146097 in
    let within : doe < 146097 = omega arith in
    let doy = doe - first_day (year_of doe) in
    let year = year_lem doe within in
    let short = year_end doe within in
    let month = month_lem doy short in
    let y = if leb (month_of doy) 2 then year_of doe + era * 400 + 1 else year_of doe + era * 400 in
    let leap : doy ≡ 365 → is_leap y ≡ true = λ last.
      let facts = leap_day doe within last in
      let second : leb (month_of doy) 2 ≡ true = month.4 ∙ ground (arith, last) in
      rw second (leap_lem (year_of doe) era facts.0 facts.1) in
    let whole : era * 146097 + first_day (year_of doe) + doy ≡ days + 719468 =
      omega (arith, year.1) in
    (
      month.0,
      month.1,
      month.2,
      length_lem doy y short leap,
      count_lem (year_of doe) era doy (month_of doy) (day_of doy) year.0 month.3 ∙ whole,
    )
