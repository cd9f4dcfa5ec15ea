-- ===== src/Paging/Pte.antt =====
-- The bits of a page-table entry: `pte` of src/paging.rs.
use cuddles.Base.{ℕ, ◌^◌}

abbrev pub p : ℕ
p = 2 ^ 0

abbrev pub rw_bit : ℕ
rw_bit = 2 ^ 1

abbrev pub us : ℕ
us = 2 ^ 2

abbrev pub ps : ℕ
ps = 2 ^ 7

abbrev pub nx : ℕ
nx = 2 ^ 63
