-- ===== src/Cmos/Reg.antt =====
-- The register indices of src/cmos.rs, its module `reg`.
use cuddles.Base.{ℕ}

abbrev pub seconds : ℕ
seconds = 0x00

abbrev pub minutes : ℕ
minutes = 0x02

abbrev pub hours : ℕ
hours = 0x04

abbrev pub weekday : ℕ
weekday = 0x06

abbrev pub day : ℕ
day = 0x07

abbrev pub month : ℕ
month = 0x08

abbrev pub year : ℕ
year = 0x09

abbrev pub status_a : ℕ
status_a = 0x0A

abbrev pub status_b : ℕ
status_b = 0x0B

abbrev pub status_c : ℕ
status_c = 0x0C

abbrev pub status_d : ℕ
status_d = 0x0D

abbrev pub century : ℕ
century = 0x32
