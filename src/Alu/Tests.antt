-- ===== src/Alu/Tests.antt =====
-- Runs of the arithmetic of src/instructions.rs, and instances of the theorems.
use cuddles.Base.{◌+◌, ◌-◌, ◌^◌, ◌≡◌, refl, true, false, arith}
use cuddles.Alu.{
  add, cmp, sbb, l, test, alu_w, alu8, alu64, set_flag, get_flag, CF, OF, parity, set_logic_flags64,
  set_add_carry64, set_logic_flags8, set_sub_borrow,
}
use cuddles.Alu.Status.{status}
use cuddles.Alu.Spec.{result_spec, status_spec}
use cuddles.Alu.Results.{Meets, carry_in}
use cuddles.Alu.Byte.{no_overflow, alu8_lem}
use cuddles.Alu.Compare.{word, dword, alu_w_lem, relation, cmp_test}
use cuddles.Alu.Shift.{rcl_rcr64, rounds, left_round}

-- The largest positive quadword plus one overflows to the smallest negative one.
overflowing :
    let after = alu64 add (2 ^ 63 - 1) 1 0x2 in
    (after.0 ≡ 2 ^ 63) × (get_flag OF after.1 ≡ true) × (get_flag CF after.1 ≡ false)
unfolding alu64 set_logic_flags64 set_add_carry64 set_flag get_flag parity
overflowing = (refl, refl, refl)

-- 0x80 is less than 1 as a signed byte, and the flags say that it is not.
signed_bytes : test l (alu8 cmp 0x80 0x01 0x2).1 ≡ false
unfolding test alu8 set_logic_flags8 set_sub_borrow set_flag get_flag parity
signed_bytes = refl

alu_w_lem_example : Meets (alu_w sbb 0x10 0x20 32 0x3) sbb (2 ^ 31) 0x10 0x20 0x3
alu_w_lem_example = alu_w_lem dword sbb 0x10 0x20 0x3 (omega arith) (omega arith)

cmp_test_example : test l (alu_w cmp 0x8000 0x0001 16 0x2).1 ≡ relation l (2 ^ 15) 0x8000 0x0001
cmp_test_example = cmp_test word 0x8000 0x0001 0x2 (omega arith) (omega arith) l

alu8_lem_example :
    ((alu8 cmp 0x80 0x01 0x2).0 ≡ result_spec cmp (2 ^ 7) (carry_in 0x2) 0x80 0x01)
    × (status (alu8 cmp 0x80 0x01 0x2).1
        ≡ no_overflow (status_spec cmp (2 ^ 7) (carry_in 0x2) 0x80 0x01 (status 0x2)))
alu8_lem_example = alu8_lem 0x80 0x01 0x2 (omega arith) (omega arith) cmp

rotated_once : rcl_rcr64 (2 ^ 63 + 5) 1 1 true ≡ (11, true)
unfolding rcl_rcr64 rounds left_round
rotated_once = refl
