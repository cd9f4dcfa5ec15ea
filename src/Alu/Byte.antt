-- ===== src/Alu/Byte.antt =====
-- The 8-bit ALU of src/instructions.rs, whose overflow flag is read off bit 15 of words that end
-- at bit 7.
use cuddles.Base.{
  ℕ, ◌+◌, ◌^◌, ◌<◌, ◌≡◌, refl, ap, ◌∙◌, Bool, false, ◌==◌, ltb, leb, bit_and, bit_or, has_bits, u8,
  arith, testb_high, bit_and-lt, bit_or-lt, bit_xor-lt,
}
use Prim.Native.Nat.{bit_xor}
use cuddles.Alu.{
  AluOp, add, or, adc, sbb, and, sub, xor_op, cmp, parity, get_flag, CF, set_logic_flags8,
  set_add_carry, set_sub_borrow, alu8, alu8_logic,
}
use cuddles.Alu.Status.{Status, status, status_all, status_logic}
use cuddles.Alu.Spec.{
  sum, sum_status, difference, difference_status, result_spec, status_spec, logic_status, even_ones,
}
use cuddles.Alu.Widths.{sum_fields, difference_fields, parity_lem, differ_both, differ_left}
use cuddles.Alu.Results.{carry_in, as_int-lt}

abbrev pub no_overflow : Status → Status
no_overflow s = record s { overflow = false }

module _ (a b flags : ℕ) (ha : a < 2 ^ 8) (hb : b < 2 ^ 8) where
  sum_step8 :
      (c r : ℕ) (cf : Bool)
      → c < 2
      → r ≡ sum (2 ^ 7) a b c
      → cf ≡ leb (2 ^ 8) (a + b + c)
      → status (set_add_carry a b r cf (set_logic_flags8 r flags))
        ≡ no_overflow (sum_status (2 ^ 7) a b c)
  unfolding set_add_carry set_logic_flags8
  sum_step8 c r cf hc hr hcf =
      let af = has_bits (bit_xor (bit_xor a b) r) (2 ^ 4) in
      let of = has_bits (bit_and (bit_xor a r) (bit_xor b r)) (2 ^ 7) in
      let wrong : has_bits (bit_and (bit_xor a r) (bit_xor b r)) (2 ^ 15) ≡ false =
        ground (arith, differ_both a b r 15, testb_high 8 15 a, testb_high 8 15 r) in
      let low : parity r ≡ parity (u8 r) = ap parity (omega arith) in
      rw (wrong, low)
        (status_all cf (parity (u8 r)) af (r == 0) (leb (2 ^ 7) r) false flags
          ∙ ap no_overflow (
              sum_fields 7 a b c r cf ha hb hc (ground arith) hcf hr (ground arith) af of refl
                refl))

  difference_step8 :
      (c r : ℕ) (cf : Bool)
      → c < 2
      → r ≡ difference (2 ^ 7) a b c
      → cf ≡ ltb a (b + c)
      → status (set_sub_borrow a b r cf (set_logic_flags8 r flags))
        ≡ no_overflow (difference_status (2 ^ 7) a b c)
  unfolding set_sub_borrow set_logic_flags8
  difference_step8 c r cf hc hr hcf =
      let af = has_bits (bit_xor (bit_xor a b) r) (2 ^ 4) in
      let of = has_bits (bit_and (bit_xor a b) (bit_xor a r)) (2 ^ 7) in
      let wrong : has_bits (bit_and (bit_xor a b) (bit_xor a r)) (2 ^ 15) ≡ false =
        ground (arith, differ_left a b r 15, testb_high 8 15 a, testb_high 8 15 b) in
      let low : parity r ≡ parity (u8 r) = ap parity (omega arith) in
      rw (wrong, low)
        (status_all cf (parity (u8 r)) af (r == 0) (leb (2 ^ 7) r) false flags
          ∙ ap no_overflow (
              difference_fields 7 a b c r cf ha hb hc (2 ^ 3) refl (omega arith) hcf hr
                (ground arith) af of refl refl))

  logic_step8 :
      (r : ℕ) → r < 2 ^ 8 → status (alu8_logic r flags).1 ≡ logic_status (2 ^ 7) r (status flags)
  unfolding alu8_logic set_logic_flags8 logic_status
  logic_step8 r hr =
      let low : parity r ≡ parity (u8 r) = ap parity (omega arith) in
      let even : parity (u8 r) ≡ even_ones r = parity_lem r in
      status_logic (parity r) (r == 0) (leb (2 ^ 7) r) flags ∙ ground arith

  -- On byte operands, the 8-bit operations give the result and five of the six status flags of an
  -- 8-bit operation; the overflow flag is always clear.
  pub alu8_lem :
      (op : AluOp)
      → ((alu8 op a b flags).0 ≡ result_spec op (2 ^ 7) (carry_in flags) a b)
        × (status (alu8 op a b flags).1
            ≡ no_overflow (status_spec op (2 ^ 7) (carry_in flags) a b (status flags)))
  unfolding alu8 result_spec status_spec alu8_logic logic_status
  alu8_lem add =
      (omega arith, sum_step8 0 (u8 (a + b)) _ (omega arith) (omega arith) (ground arith))
  alu8_lem adc =
      let c = carry_in flags in
      let small : c < 2 = as_int-lt (get_flag CF flags) in
      (omega arith, sum_step8 c _ _ small (omega arith) (ground arith))
  alu8_lem sub = (omega arith, difference_step8 0 _ _ (omega arith) (omega arith) (ground arith))
  alu8_lem cmp = (omega arith, difference_step8 0 _ _ (omega arith) (omega arith) (ground arith))
  alu8_lem sbb =
      let c = carry_in flags in
      let small : c < 2 = as_int-lt (get_flag CF flags) in
      (omega arith, difference_step8 c _ _ small (omega arith) (ground arith))
  alu8_lem and = (refl, logic_step8 (bit_and a b) (bit_and-lt 8 a b ha))
  alu8_lem or = (refl, logic_step8 (bit_or a b) (bit_or-lt 8 a b ha hb))
  alu8_lem xor_op = (refl, logic_step8 (bit_xor a b) (bit_xor-lt 8 a b ha hb))
