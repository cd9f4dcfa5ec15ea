-- ===== src/Alu/Shift.antt =====
-- The shifts and rotates of src/instructions.rs at 8, 16, 32 and 64 bits, its sign extension, bit
-- operations and string steps. An `i64` is its two's complement word.
pub mod Laws
use cuddles.Base.{
  ℕ, zero, suc, ◌+◌, ◌-◌, ◌*◌, ◌/◌, ◌%◌, ◌^◌, Bool, true, false, not, ◌&&◌, ◌||◌, bit_and, bit_or,
  ◌==◌, ltb, leb, min, if◌then◌else◌, ◌<<<◌, ◌>>>◌, bit_not, has_bits, xor, u8, u16, u32, u64,
}
use Prim.Native.Nat.{bit_xor}
use cuddles.Alu.{
  set_flag, get_flag, CF, OF, DF, as_int, set_logic_flags8, set_logic_flags16, set_logic_flags32,
  set_logic_flags64,
}

pub data ShiftOp : Type 0 where
  rol : ShiftOp
  ror : ShiftOp
  rcl : ShiftOp
  rcr : ShiftOp
  shl : ShiftOp
  shr : ShiftOp
  sar : ShiftOp

-- `1 << width` with the widest case apart.
unfoldable pub mask_w : ℕ → ℕ
mask_w width = if leb 64 width then 2 ^ 64 - 1 else 2 ^ width - 1

-- The word of `v as iN as i64`.
unfoldable pub extend : ℕ → ℕ → ℕ
extend width v = if leb (2 ^ (width - 1)) v then v + 2 ^ 64 - 2 ^ width else v

unfoldable pub sign_extend : ℕ → ℕ → ℕ
unfolding extend
sign_extend v width =
    if width == 8
    then extend 8 (u8 v)
    else if width == 16
    then extend 16 (u16 v)
    else if width == 32
    then extend 32 (u32 v)
    else v

-- `>>` on an i64.
unfoldable pub arithmetic_shift : ℕ → ℕ → ℕ
arithmetic_shift sv n = if leb (2 ^ 63) sv then (sv >>> n) + (2 ^ 64 - 2 ^ (64 - n)) else sv >>> n

unfoldable pub set_logic_flags_width : ℕ → ℕ → ℕ → ℕ
set_logic_flags_width r width flags =
    if width == 8
    then set_logic_flags8 (u8 r) flags
    else if width == 16
    then set_logic_flags16 (u16 r) flags
    else if width == 32
    then set_logic_flags32 (u32 r) flags
    else set_logic_flags64 r flags

-- One round of the 65-bit rotates, and the loops.
unfoldable pub left_round : ℕ × Bool → ℕ × Bool
left_round (val, c) = (bit_or (u64 (val <<< 1)) (as_int c), not (val >>> 63 == 0))

unfoldable pub right_round : ℕ × Bool → ℕ × Bool
right_round (val, c) = (bit_or (val >>> 1) (as_int c <<< 63), not (bit_and val 1 == 0))

unfoldable pub rounds : ℕ → (ℕ × Bool → ℕ × Bool) → ℕ × Bool → ℕ × Bool
rounds zero round state = state
rounds (suc k) round state = rounds k round (round state)

unfoldable pub rcl_rcr64 : ℕ → ℕ → ℕ → Bool → ℕ × Bool
rcl_rcr64 v carry k left =
    let c = not (carry == 0) in
    if left then rounds k left_round (v, c) else rounds k right_round (v, c)

-- The arms of the shift, on the masked count `n` and operand `v`. Each returns the result and the
-- flags.
unfoldable pub shl_arm : ℕ → ℕ → ℕ → ℕ → ℕ × ℕ
shl_arm v n width flags =
    let msb = 1 <<< (width - 1) in
    let r = bit_and (u64 (v <<< min n 63)) (mask_w width) in
    let cf = leb n width && not (bit_and (v >>> (width - min n width)) 1 == 0) in
    (
      r,
      set_flag OF (n == 1 && xor (has_bits r msb) cf)
          (set_logic_flags_width r width (set_flag CF cf flags)),
    )

unfoldable pub shr_arm : ℕ → ℕ → ℕ → ℕ → ℕ × ℕ
shr_arm v n width flags =
    let msb = 1 <<< (width - 1) in
    let r = if leb width n then 0 else v >>> n in
    let cf = leb n width && not (bit_and (v >>> (n - 1)) 1 == 0) in
    (
      r,
      set_flag OF (n == 1 && has_bits v msb) (set_logic_flags_width r width (set_flag CF cf flags)),
    )

unfoldable pub sar_arm : ℕ → ℕ → ℕ → ℕ → ℕ × ℕ
sar_arm v n width flags =
    let sv = sign_extend v width in
    let r = bit_and (arithmetic_shift sv (min n (width - 1))) (mask_w width) in
    let cf = not (bit_and (arithmetic_shift sv (min (n - 1) (width - 1))) 1 == 0) in
    (r, set_flag OF false (set_logic_flags_width r width (set_flag CF cf flags)))

unfoldable pub rol_arm : ℕ → ℕ → ℕ → ℕ → ℕ × ℕ
rol_arm v n width flags =
    let msb = 1 <<< (width - 1) in
    let k = n % width in
    let r =
      if k == 0 then v else bit_and (bit_or (u64 (v <<< k)) (v >>> (width - k))) (mask_w width) in
    let cf = not (bit_and r 1 == 0) in
    (r, set_flag OF (n == 1 && xor (has_bits r msb) cf) (set_flag CF cf flags))

unfoldable pub ror_arm : ℕ → ℕ → ℕ → ℕ → ℕ × ℕ
ror_arm v n width flags =
    let msb = 1 <<< (width - 1) in
    let k = n % width in
    let r =
      if k == 0 then v else bit_and (bit_or (v >>> k) (u64 (v <<< (width - k)))) (mask_w width) in
    let cf = has_bits r msb in
    let second = not (bit_and (r >>> (width - 2)) 1 == 0) in
    (r, set_flag OF (n == 1 && xor cf second) (set_flag CF cf flags))

-- The flags of a rotate through carry.
unfoldable pub carry_flags : Bool → ℕ → ℕ → Bool → ℕ → ℕ → ℕ
carry_flags left r n cf width flags =
    let msb = 1 <<< (width - 1) in
    let second = not (bit_and (r >>> (width - 2)) 1 == 0) in
    set_flag OF
      (if left then n == 1 && xor (has_bits r msb) cf else n == 1 && xor (has_bits r msb) second)
      (set_flag CF cf flags)

-- The carry stands above the operand, in bit `width`.
unfoldable pub rotate_wide : ℕ → ℕ → ℕ → Bool → ℕ
rotate_wide wide k width left =
    let bits = width + 1 in
    let full = 2 ^ bits - 1 in
    if k == 0
    then wide
    else if left
    then bit_and (bit_or (u64 (wide <<< k)) (wide >>> (bits - k))) full
    else bit_and (bit_or (wide >>> k) (u64 (wide <<< (bits - k)))) full

unfoldable pub carry_arm : Bool → ℕ → ℕ → ℕ → ℕ → ℕ × ℕ
carry_arm left v n width flags =
    let k = n % (width + 1) in
    let carry = as_int (get_flag CF flags) in
    let long = rcl_rcr64 v carry k left in
    let rot = rotate_wide (bit_or v (carry <<< width)) k width left in
    let r = bit_and rot (mask_w width) in
    let cf = not (bit_and (rot >>> width) 1 == 0) in
    if width == 64
    then (long.0, carry_flags left long.0 n long.1 width flags)
    else (r, carry_flags left r n cf width flags)

unfoldable pub shift_arm : ShiftOp → ℕ → ℕ → ℕ → ℕ → ℕ × ℕ
shift_arm shl = shl_arm
shift_arm shr = shr_arm
shift_arm sar = sar_arm
shift_arm rol = rol_arm
shift_arm ror = ror_arm
shift_arm rcl = carry_arm true
shift_arm rcr = carry_arm false

unfoldable pub shift_count : ℕ → ℕ → ℕ
shift_count n width = bit_and n (if width == 64 then 0x3F else 0x1F)

unfoldable pub shift_width : ShiftOp → ℕ → ℕ → ℕ → ℕ → ℕ × ℕ
shift_width op v n width flags =
    let count = shift_count n width in
    if count == 0 then (v, flags) else shift_arm op (bit_and v (mask_w width)) count width flags

pub data BitOp : Type 0 where
  test_bit : BitOp
  set_bit : BitOp
  reset_bit : BitOp
  complement_bit : BitOp

-- `1 << b` is on a u64.
unfoldable pub apply_bit : ℕ → ℕ → BitOp → ℕ
apply_bit v b test_bit = v
apply_bit v b set_bit = bit_or v (1 <<< b)
apply_bit v b reset_bit = bit_and v (bit_not 64 (1 <<< b))
apply_bit v b complement_bit = bit_xor v (1 <<< b)

-- The step as the word that `string_advance` adds: the cast of an i32 to u64.
unfoldable pub string_step : ℕ → ℕ → ℕ
string_step flags esize = if get_flag DF flags then 2 ^ 64 - esize else esize

unfoldable pub string_advance : ℕ → ℕ → ℕ → ℕ
string_advance v step asize =
    let n = u64 (v + step) in
    if asize == 64 then n else if asize == 32 then bit_and n 0xFFFFFFFF else bit_and n 0xFFFF
