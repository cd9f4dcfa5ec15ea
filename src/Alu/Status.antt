-- ===== src/Alu/Status.antt =====
-- The six arithmetic flags of the flags register as one record, and what writing a flag of
-- src/cpu.rs does to it.
use cuddles.Base.{
  ℕ, ◌^◌, ◌<◌, ◌≡◌, ◌≢◌, refl, Bool, true, false, ◌==◌, if◌then◌else◌, bit_not, has_bits-pow, testb,
  testb-bit_and, testb-bit_or, testb-pow, testb-bit_not, pow_lt, arith,
}
use cuddles.Alu.{set_flag, get_flag, CF, PF, AF, ZF, SF, OF}

-- Writing flag `i`, read back at bit `j`.
pub testb-set_flag :
    (i j flags : ℕ) (on : Bool)
    → i < 32
    → j < 32
    → testb (set_flag (2 ^ i) on flags) j ≡ (if i == j then on else testb flags j)
unfolding set_flag
testb-set_flag i j flags true hi hj = ground (arith, testb-bit_or flags (2 ^ i) j, testb-pow i j)
testb-set_flag i j flags false hi hj =
    let fits : 2 ^ i < 2 ^ 32 = pow_lt i 32 hi in
    ground (
      arith,
      testb-bit_and flags (bit_not 32 (2 ^ i)) j,
      testb-bit_not 32 (2 ^ i) j fits hj,
      testb-pow i j,
    )

-- The flags that the arithmetic sets.
pub record Status : Type 0 where
  pub carry : Bool
  pub parity : Bool
  pub adjust : Bool
  pub zero : Bool
  pub sign : Bool
  pub overflow : Bool

abbrev pub status : ℕ → Status
status flags = record {
  carry = testb flags 0;
  parity = testb flags 2;
  adjust = testb flags 4;
  zero = testb flags 6;
  sign = testb flags 7;
  overflow = testb flags 11;
}

pub get_flag-testb : (i flags : ℕ) → get_flag (2 ^ i) flags ≡ testb flags i
unfolding get_flag
get_flag-testb i flags = has_bits-pow flags i

-- One write, seen through the record.
status-set_flag :
    (i flags : ℕ) (on : Bool)
    → i < 32
    → status (set_flag (2 ^ i) on flags) ≡ record {
      carry = if i == 0 then on else testb flags 0;
      parity = if i == 2 then on else testb flags 2;
      adjust = if i == 4 then on else testb flags 4;
      zero = if i == 6 then on else testb flags 6;
      sign = if i == 7 then on else testb flags 7;
      overflow = if i == 11 then on else testb flags 11;
    }
status-set_flag i flags on h =
    let at = λ (j : ℕ) (hj : j < 32). testb-set_flag i j flags on h hj in
    rw
      (
        at 0 (omega arith),
        at 2 (omega arith),
        at 4 (omega arith),
        at 6 (omega arith),
        at 7 (omega arith),
        at 11 (omega arith),
      )
      refl

module _ (flags : ℕ) (on : Bool) where
  pub status-cf : status (set_flag CF on flags) ≡ record (status flags) { carry = on }
  status-cf = status-set_flag 0 flags on (omega arith)

  pub status-pf : status (set_flag PF on flags) ≡ record (status flags) { parity = on }
  status-pf = status-set_flag 2 flags on (omega arith)

  pub status-af : status (set_flag AF on flags) ≡ record (status flags) { adjust = on }
  status-af = status-set_flag 4 flags on (omega arith)

  pub status-zf : status (set_flag ZF on flags) ≡ record (status flags) { zero = on }
  status-zf = status-set_flag 6 flags on (omega arith)

  pub status-sf : status (set_flag SF on flags) ≡ record (status flags) { sign = on }
  status-sf = status-set_flag 7 flags on (omega arith)

  pub status-of : status (set_flag OF on flags) ≡ record (status flags) { overflow = on }
  status-of = status-set_flag 11 flags on (omega arith)

-- The other flags.
pub testb-set_flag_other :
    (i j flags : ℕ) (on : Bool)
    → i < 32
    → j < 32
    → i ≢ j
    → testb (set_flag (2 ^ i) on flags) j ≡ testb flags j
testb-set_flag_other i j flags on hi hj ne = ground (arith, testb-set_flag i j flags on hi hj)

-- The writes of an arithmetic instruction, in the source's order.
pub status_all :
    (cf pf af zf sf of : Bool) (flags : ℕ)
    → status (
        set_flag OF of (
          set_flag AF af (set_flag CF cf (set_flag PF pf (set_flag ZF zf (set_flag SF sf flags))))))
      ≡ record { carry = cf; parity = pf; adjust = af; zero = zf; sign = sf; overflow = of }
status_all cf pf af zf sf of flags =
    let f1 = set_flag SF sf flags in
    let f2 = set_flag ZF zf f1 in
    let f3 = set_flag PF pf f2 in
    let f4 = set_flag CF cf f3 in
    let f5 = set_flag AF af f4 in
    ground (
      arith,
      status-of f5 of,
      status-af f4 af,
      status-cf f3 cf,
      status-pf f2 pf,
      status-zf f1 zf,
      status-sf flags sf,
    )

-- The writes of a bitwise instruction.
pub status_logic :
    (pf zf sf : Bool) (flags : ℕ)
    → status (
        set_flag OF false
          (set_flag CF false (set_flag PF pf (set_flag ZF zf (set_flag SF sf flags)))))
      ≡ record {
        carry = false;
        parity = pf;
        adjust = testb flags 4;
        zero = zf;
        sign = sf;
        overflow = false;
      }
status_logic pf zf sf flags =
    let f1 = set_flag SF sf flags in
    let f2 = set_flag ZF zf f1 in
    let f3 = set_flag PF pf f2 in
    let f4 = set_flag CF false f3 in
    ground (
      arith,
      status-of f4 false,
      status-cf f3 false,
      status-pf f2 pf,
      status-zf f1 zf,
      status-sf flags sf,
    )
