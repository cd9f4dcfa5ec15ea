-- ===== src/Alu.antt =====
-- The arithmetic of the instruction set: the flags register of src/cpu.rs, and the ALU operations,
-- conditions, shifts and rotates of src/instructions.rs. An operation that the source gives the
-- processor takes and returns the flags, the one part of the processor that it reads or writes.
pub mod Status
pub mod Spec
pub mod Widths
pub mod Results
pub mod Byte
pub mod Compare
pub mod Shift
pub mod Masks
mod Tests
use cuddles.Base.{
  ℕ, zero, suc, ◌+◌, ◌-◌, ◌*◌, ◌/◌, ◌%◌, ◌^◌, Bool, true, false, not, ◌&&◌, ◌||◌, bit_and, bit_or,
  ◌==◌, ltb, leb, min, if◌then◌else◌, ◌<<<◌, ◌>>>◌, bit_not, has_bits, xor, u8, u16, u32, u64,
}
use Prim.Native.Nat.{bit_xor}

abbrev pub CF : ℕ
CF = 0x00000001

abbrev pub PF : ℕ
PF = 0x00000004

abbrev pub AF : ℕ
AF = 0x00000010

abbrev pub ZF : ℕ
ZF = 0x00000040

abbrev pub SF : ℕ
SF = 0x00000080

abbrev pub TF : ℕ
TF = 0x00000100

abbrev pub IF : ℕ
IF = 0x00000200

abbrev pub RF : ℕ
RF = 0x00010000

abbrev pub DF : ℕ
DF = 0x00000400

abbrev pub OF : ℕ
OF = 0x00000800

-- The bits that software may write.
abbrev pub writable_flags : ℕ
writable_flags = 0x003F7FD5

abbrev pub always_set : ℕ
always_set = 0x00000002

unfoldable pub set_flag : ℕ → Bool → ℕ → ℕ
set_flag f on flags = if on then bit_or flags f else bit_and flags (bit_not 32 f)

unfoldable pub get_flag : ℕ → ℕ → Bool
get_flag f flags = has_bits flags f

unfoldable pub write_flags : ℕ → ℕ → ℕ
write_flags old new =
    bit_or (bit_or (bit_and new writable_flags) always_set)
      (bit_and (bit_and old (bit_not 32 writable_flags)) (bit_not 32 always_set))

pub data AluOp : Type 0 where
  add : AluOp
  or : AluOp
  adc : AluOp
  sbb : AluOp
  and : AluOp
  sub : AluOp
  xor_op : AluOp
  cmp : AluOp

-- `bool as uN`.
abbrev pub as_int : Bool → ℕ
as_int true = 1
as_int false = 0

unfoldable pub parity : ℕ → Bool
parity v =
    let a = bit_and v 0xFF in
    let b = bit_xor a (a >>> 4) in
    let c = bit_xor b (b >>> 2) in let d = bit_xor c (c >>> 1) in bit_and d 1 == 0

-- `(r as iN) < 0` is the test of the top bit.
unfoldable pub set_logic_flags8 : ℕ → ℕ → ℕ
set_logic_flags8 r flags =
    set_flag PF (parity r) (set_flag ZF (r == 0) (set_flag SF (leb (2 ^ 7) r) flags))

unfoldable pub set_logic_flags16 : ℕ → ℕ → ℕ
set_logic_flags16 r flags =
    set_flag PF (parity (u8 r)) (set_flag ZF (r == 0) (set_flag SF (leb (2 ^ 15) r) flags))

unfoldable pub set_logic_flags32 : ℕ → ℕ → ℕ
set_logic_flags32 r flags =
    set_flag PF (parity (u8 r)) (set_flag ZF (r == 0) (set_flag SF (leb (2 ^ 31) r) flags))

unfoldable pub set_logic_flags64 : ℕ → ℕ → ℕ
set_logic_flags64 r flags =
    set_flag PF (parity (u8 r)) (set_flag ZF (r == 0) (set_flag SF (leb (2 ^ 63) r) flags))

unfoldable pub set_add_carry : ℕ → ℕ → ℕ → Bool → ℕ → ℕ
set_add_carry a b r c flags =
    let of = has_bits (bit_and (bit_xor a r) (bit_xor b r)) 0x8000 in
    set_flag OF of (set_flag AF (has_bits (bit_xor (bit_xor a b) r) 0x10) (set_flag CF c flags))

unfoldable pub set_sub_borrow : ℕ → ℕ → ℕ → Bool → ℕ → ℕ
set_sub_borrow a b r c flags =
    let of = has_bits (bit_and (bit_xor a b) (bit_xor a r)) 0x8000 in
    set_flag OF of (set_flag AF (has_bits (bit_xor (bit_xor a b) r) 0x10) (set_flag CF c flags))

unfoldable pub set_add_carry32 : ℕ → ℕ → ℕ → Bool → ℕ → ℕ
set_add_carry32 a b r c flags =
    let of = has_bits (bit_and (bit_xor a r) (bit_xor b r)) 0x80000000 in
    set_flag OF of (set_flag AF (has_bits (bit_xor (bit_xor a b) r) 0x10) (set_flag CF c flags))

unfoldable pub set_sub_borrow32 : ℕ → ℕ → ℕ → Bool → ℕ → ℕ
set_sub_borrow32 a b r c flags =
    let of = has_bits (bit_and (bit_xor a b) (bit_xor a r)) 0x80000000 in
    set_flag OF of (set_flag AF (has_bits (bit_xor (bit_xor a b) r) 0x10) (set_flag CF c flags))

unfoldable pub set_add_carry64 : ℕ → ℕ → ℕ → Bool → ℕ → ℕ
set_add_carry64 a b r c flags =
    let of = has_bits (bit_and (bit_xor a r) (bit_xor b r)) 0x8000000000000000 in
    set_flag OF of (set_flag AF (has_bits (bit_xor (bit_xor a b) r) 0x10) (set_flag CF c flags))

unfoldable pub set_sub_borrow64 : ℕ → ℕ → ℕ → Bool → ℕ → ℕ
set_sub_borrow64 a b r c flags =
    let of = has_bits (bit_and (bit_xor a b) (bit_xor a r)) 0x8000000000000000 in
    set_flag OF of (set_flag AF (has_bits (bit_xor (bit_xor a b) r) 0x10) (set_flag CF c flags))

unfoldable pub alu8_logic : ℕ → ℕ → ℕ × ℕ
alu8_logic r flags = (r, set_flag OF false (set_flag CF false (set_logic_flags8 r flags)))

unfoldable pub alu8 : AluOp → ℕ → ℕ → ℕ → ℕ × ℕ
alu8 add a b flags =
    let r = u8 (a + b) in (r, set_add_carry a b r (leb (2 ^ 8) (a + b)) (set_logic_flags8 r flags))
alu8 adc a b flags =
    let cin = as_int (get_flag CF flags) in
    let total = a + b + cin in
    let r = u8 total in (r, set_add_carry a b r (ltb 0xFF total) (set_logic_flags8 r flags))
alu8 sub a b flags =
    let r = u8 (a + 2 ^ 8 - b) in (r, set_sub_borrow a b r (ltb a b) (set_logic_flags8 r flags))
alu8 cmp a b flags =
    let r = u8 (a + 2 ^ 8 - b) in (r, set_sub_borrow a b r (ltb a b) (set_logic_flags8 r flags))
alu8 sbb a b flags =
    let cin = as_int (get_flag CF flags) in
    let total = u16 (u16 (a + 2 ^ 16 - b) + 2 ^ 16 - cin) in
    let r = u8 total in (r, set_sub_borrow a b r (ltb a (b + cin)) (set_logic_flags8 r flags))
alu8 and a b flags = alu8_logic (bit_and a b) flags
alu8 or a b flags = alu8_logic (bit_or a b) flags
alu8 xor_op a b flags = alu8_logic (bit_xor a b) flags

unfoldable pub alu16_logic : ℕ → ℕ → ℕ × ℕ
alu16_logic r flags = (r, set_flag OF false (set_flag CF false (set_logic_flags16 r flags)))

unfoldable pub alu16 : AluOp → ℕ → ℕ → ℕ → ℕ × ℕ
alu16 add a b flags =
    let r = u16 (a + b) in
    (r, set_add_carry a b r (leb (2 ^ 16) (a + b)) (set_logic_flags16 r flags))
alu16 adc a b flags =
    let cin = as_int (get_flag CF flags) in
    let total = a + b + cin in
    let r = u16 total in (r, set_add_carry a b r (ltb 0xFFFF total) (set_logic_flags16 r flags))
alu16 sub a b flags =
    let r = u16 (a + 2 ^ 16 - b) in (r, set_sub_borrow a b r (ltb a b) (set_logic_flags16 r flags))
alu16 cmp a b flags =
    let r = u16 (a + 2 ^ 16 - b) in (r, set_sub_borrow a b r (ltb a b) (set_logic_flags16 r flags))
alu16 sbb a b flags =
    let cin = as_int (get_flag CF flags) in
    let total = u32 (u32 (a + 2 ^ 32 - b) + 2 ^ 32 - cin) in
    let r = u16 total in (r, set_sub_borrow a b r (ltb a (b + cin)) (set_logic_flags16 r flags))
alu16 and a b flags = alu16_logic (bit_and a b) flags
alu16 or a b flags = alu16_logic (bit_or a b) flags
alu16 xor_op a b flags = alu16_logic (bit_xor a b) flags

unfoldable pub alu32_logic : ℕ → ℕ → ℕ × ℕ
alu32_logic r flags = (r, set_flag OF false (set_flag CF false (set_logic_flags32 r flags)))

unfoldable pub alu32 : AluOp → ℕ → ℕ → ℕ → ℕ × ℕ
alu32 add a b flags =
    let r = u32 (a + b) in
    (r, set_add_carry32 a b r (leb (2 ^ 32) (a + b)) (set_logic_flags32 r flags))
alu32 adc a b flags =
    let cin = as_int (get_flag CF flags) in
    let total = a + b + cin in
    let r = u32 total in
    (r, set_add_carry32 a b r (ltb 0xFFFFFFFF total) (set_logic_flags32 r flags))
alu32 sub a b flags =
    let r = u32 (a + 2 ^ 32 - b) in
    (r, set_sub_borrow32 a b r (ltb a b) (set_logic_flags32 r flags))
alu32 cmp a b flags =
    let r = u32 (a + 2 ^ 32 - b) in
    (r, set_sub_borrow32 a b r (ltb a b) (set_logic_flags32 r flags))
alu32 sbb a b flags =
    let cin = as_int (get_flag CF flags) in
    let total = u64 (u64 (a + 2 ^ 64 - b) + 2 ^ 64 - cin) in
    let r = u32 total in (r, set_sub_borrow32 a b r (ltb a (b + cin)) (set_logic_flags32 r flags))
alu32 and a b flags = alu32_logic (bit_and a b) flags
alu32 or a b flags = alu32_logic (bit_or a b) flags
alu32 xor_op a b flags = alu32_logic (bit_xor a b) flags

unfoldable pub alu64_logic : ℕ → ℕ → ℕ × ℕ
alu64_logic r flags = (r, set_flag OF false (set_flag CF false (set_logic_flags64 r flags)))

unfoldable pub alu64 : AluOp → ℕ → ℕ → ℕ → ℕ × ℕ
alu64 add a b flags =
    let r = u64 (a + b) in
    (r, set_add_carry64 a b r (leb (2 ^ 64) (a + b)) (set_logic_flags64 r flags))
alu64 adc a b flags =
    let cin = as_int (get_flag CF flags) in
    let r = u64 (u64 (a + b) + cin) in
    (r, set_add_carry64 a b r (ltb r a || (cin == 1 && r == a)) (set_logic_flags64 r flags))
alu64 sub a b flags =
    let r = u64 (a + 2 ^ 64 - b) in
    (r, set_sub_borrow64 a b r (ltb a b) (set_logic_flags64 r flags))
alu64 cmp a b flags =
    let r = u64 (a + 2 ^ 64 - b) in
    (r, set_sub_borrow64 a b r (ltb a b) (set_logic_flags64 r flags))
alu64 sbb a b flags =
    let cin = as_int (get_flag CF flags) in
    let r = u64 (u64 (a + 2 ^ 64 - b) + 2 ^ 64 - cin) in
    (r, set_sub_borrow64 a b r (ltb a b || (a == b && cin == 1)) (set_logic_flags64 r flags))
alu64 and a b flags = alu64_logic (bit_and a b) flags
alu64 or a b flags = alu64_logic (bit_or a b) flags
alu64 xor_op a b flags = alu64_logic (bit_xor a b) flags

unfoldable pub alu_w : AluOp → ℕ → ℕ → ℕ → ℕ → ℕ × ℕ
alu_w op a b width flags =
    if width == 32
    then alu32 op (u32 a) (u32 b) flags
    else if width == 64
    then alu64 op a b flags
    else if width == 16
    then alu16 op (u16 a) (u16 b) flags
    else alu8 op (u8 a) (u8 b) flags

pub data Cond : Type 0 where
  o : Cond
  no_o : Cond
  b : Cond
  nb : Cond
  e : Cond
  ne : Cond
  be : Cond
  nbe : Cond
  s : Cond
  ns : Cond
  p : Cond
  np : Cond
  l : Cond
  nl : Cond
  le : Cond
  nle : Cond

unfoldable pub test : Cond → ℕ → Bool
test Cond.o flags = get_flag OF flags
test Cond.no_o flags = not (get_flag OF flags)
test Cond.b flags = get_flag CF flags
test Cond.nb flags = not (get_flag CF flags)
test Cond.e flags = get_flag ZF flags
test Cond.ne flags = not (get_flag ZF flags)
test Cond.be flags = get_flag CF flags || get_flag ZF flags
test Cond.nbe flags = not (get_flag CF flags) && not (get_flag ZF flags)
test Cond.s flags = get_flag SF flags
test Cond.ns flags = not (get_flag SF flags)
test Cond.p flags = get_flag PF flags
test Cond.np flags = not (get_flag PF flags)
test Cond.l flags = xor (get_flag SF flags) (get_flag OF flags)
test Cond.nl flags = not (xor (get_flag SF flags) (get_flag OF flags))
test Cond.le flags = get_flag ZF flags || xor (get_flag SF flags) (get_flag OF flags)
test Cond.nle flags = not (get_flag ZF flags) && not (xor (get_flag SF flags) (get_flag OF flags))
