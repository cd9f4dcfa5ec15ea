-- ===== src/Alu/Results.antt =====
-- Each width of the ALU of src/instructions.rs against Alu/Spec.antt.
use cuddles.Base.{
  ℕ, ◌+◌, ◌^◌, ◌<◌, ◌≡◌, refl, ◌∙◌, Bool, true, false, ◌==◌, ltb, leb, bit_and, bit_or, has_bits,
  u8, u16, u32, u64, arith,
}
use Prim.Native.Nat.{bit_xor}
use cuddles.Alu.{
  AluOp, add, or, adc, sbb, and, sub, xor_op, cmp, parity, get_flag, CF, as_int, set_logic_flags16,
  set_logic_flags32, set_logic_flags64, set_add_carry, set_sub_borrow, set_add_carry32,
  set_sub_borrow32, set_add_carry64, set_sub_borrow64, alu16, alu32, alu64, alu16_logic,
  alu32_logic, alu64_logic,
}
use cuddles.Alu.Status.{status, status_all, status_logic}
use cuddles.Alu.Spec.{
  sum, sum_status, difference, difference_status, result_spec, status_spec, logic_status, even_ones,
}
use cuddles.Alu.Widths.{sum_fields, difference_fields, parity_lem}

-- The carry in.
abbrev pub carry_in : ℕ → ℕ
carry_in flags = as_int (get_flag CF flags)

pub as_int-lt : (b : Bool) → as_int b < 2
as_int-lt true = omega arith
as_int-lt false = omega arith

-- What an operation at a width promises: the result and the flags.
abbrev pub Meets : ℕ × ℕ → AluOp → ℕ → ℕ → ℕ → ℕ → Type 0
Meets after op half a b flags =
    (after.0 ≡ result_spec op half (carry_in flags) a b)
    × (status after.1 ≡ status_spec op half (carry_in flags) a b (status flags))

module _ (a b : ℕ) (flags : ℕ) (ha : a < 2 ^ 16) (hb : b < 2 ^ 16) where
  sum_step16 :
      (c r : ℕ) (cf : Bool)
      → c < 2
      → r ≡ sum (2 ^ 15) a b c
      → cf ≡ leb (2 ^ 16) (a + b + c)
      → status (set_add_carry a b r cf (set_logic_flags16 r flags)) ≡ sum_status (2 ^ 15) a b c
  unfolding set_add_carry set_logic_flags16
  sum_step16 c r cf hc hr hcf =
      let af = has_bits (bit_xor (bit_xor a b) r) (2 ^ 4) in
      let of = has_bits (bit_and (bit_xor a r) (bit_xor b r)) (2 ^ 15) in
      status_all cf (parity (u8 r)) af (r == 0) (leb (2 ^ 15) r) of flags
      ∙ sum_fields 15 a b c r cf ha hb hc (ground arith) hcf hr (ground arith) af of refl refl

  difference_step16 :
      (c r : ℕ) (cf : Bool)
      → c < 2
      → r ≡ difference (2 ^ 15) a b c
      → cf ≡ ltb a (b + c)
      → status (set_sub_borrow a b r cf (set_logic_flags16 r flags))
        ≡ difference_status (2 ^ 15) a b c
  unfolding set_sub_borrow set_logic_flags16
  difference_step16 c r cf hc hr hcf =
      let af = has_bits (bit_xor (bit_xor a b) r) (2 ^ 4) in
      let of = has_bits (bit_and (bit_xor a b) (bit_xor a r)) (2 ^ 15) in
      status_all cf (parity (u8 r)) af (r == 0) (leb (2 ^ 15) r) of flags
      ∙ difference_fields 15 a b c r cf ha hb hc (2 ^ 11) refl (omega arith) hcf hr (ground arith)
          af of refl refl

  logic_step16 : (r : ℕ) → status (alu16_logic r flags).1 ≡ logic_status (2 ^ 15) r (status flags)
  unfolding alu16_logic set_logic_flags16 logic_status
  logic_step16 r =
      let even : parity (u8 r) ≡ even_ones r = parity_lem r in
      status_logic (parity (u8 r)) (r == 0) (leb (2 ^ 15) r) flags ∙ ground arith

  pub alu16_lem : (op : AluOp) → Meets (alu16 op a b flags) op (2 ^ 15) a b flags
  unfolding alu16 result_spec status_spec alu16_logic
  alu16_lem add =
      (omega arith, sum_step16 0 (u16 (a + b)) _ (omega arith) (omega arith) (ground arith))
  alu16_lem adc =
      let c = carry_in flags in
      let small : c < 2 = as_int-lt (get_flag CF flags) in
      (omega arith, sum_step16 c _ _ small (omega arith) (ground arith))
  alu16_lem sub = (omega arith, difference_step16 0 _ _ (omega arith) (omega arith) (ground arith))
  alu16_lem cmp = (omega arith, difference_step16 0 _ _ (omega arith) (omega arith) (ground arith))
  alu16_lem sbb =
      let c = carry_in flags in
      let small : c < 2 = as_int-lt (get_flag CF flags) in
      (omega arith, difference_step16 c _ _ small (omega arith) (ground arith))
  alu16_lem and = (refl, logic_step16 (bit_and a b))
  alu16_lem or = (refl, logic_step16 (bit_or a b))
  alu16_lem xor_op = (refl, logic_step16 (bit_xor a b))

module _ (a b : ℕ) (flags : ℕ) (ha : a < 2 ^ 32) (hb : b < 2 ^ 32) where
  sum_step32 :
      (c r : ℕ) (cf : Bool)
      → c < 2
      → r ≡ sum (2 ^ 31) a b c
      → cf ≡ leb (2 ^ 32) (a + b + c)
      → status (set_add_carry32 a b r cf (set_logic_flags32 r flags)) ≡ sum_status (2 ^ 31) a b c
  unfolding set_add_carry32 set_logic_flags32
  sum_step32 c r cf hc hr hcf =
      let af = has_bits (bit_xor (bit_xor a b) r) (2 ^ 4) in
      let of = has_bits (bit_and (bit_xor a r) (bit_xor b r)) (2 ^ 31) in
      status_all cf (parity (u8 r)) af (r == 0) (leb (2 ^ 31) r) of flags
      ∙ sum_fields 31 a b c r cf ha hb hc (ground arith) hcf hr (ground arith) af of refl refl

  difference_step32 :
      (c r : ℕ) (cf : Bool)
      → c < 2
      → r ≡ difference (2 ^ 31) a b c
      → cf ≡ ltb a (b + c)
      → status (set_sub_borrow32 a b r cf (set_logic_flags32 r flags))
        ≡ difference_status (2 ^ 31) a b c
  unfolding set_sub_borrow32 set_logic_flags32
  difference_step32 c r cf hc hr hcf =
      let af = has_bits (bit_xor (bit_xor a b) r) (2 ^ 4) in
      let of = has_bits (bit_and (bit_xor a b) (bit_xor a r)) (2 ^ 31) in
      status_all cf (parity (u8 r)) af (r == 0) (leb (2 ^ 31) r) of flags
      ∙ difference_fields 31 a b c r cf ha hb hc (2 ^ 27) refl (omega arith) hcf hr (ground arith)
          af of refl refl

  logic_step32 : (r : ℕ) → status (alu32_logic r flags).1 ≡ logic_status (2 ^ 31) r (status flags)
  unfolding alu32_logic set_logic_flags32 logic_status
  logic_step32 r =
      let even : parity (u8 r) ≡ even_ones r = parity_lem r in
      status_logic (parity (u8 r)) (r == 0) (leb (2 ^ 31) r) flags ∙ ground arith

  pub alu32_lem : (op : AluOp) → Meets (alu32 op a b flags) op (2 ^ 31) a b flags
  unfolding alu32 result_spec status_spec alu32_logic
  alu32_lem add =
      (omega arith, sum_step32 0 (u32 (a + b)) _ (omega arith) (omega arith) (ground arith))
  alu32_lem adc =
      let c = carry_in flags in
      let small : c < 2 = as_int-lt (get_flag CF flags) in
      (omega arith, sum_step32 c _ _ small (omega arith) (ground arith))
  alu32_lem sub = (omega arith, difference_step32 0 _ _ (omega arith) (omega arith) (ground arith))
  alu32_lem cmp = (omega arith, difference_step32 0 _ _ (omega arith) (omega arith) (ground arith))
  alu32_lem sbb =
      let c = carry_in flags in
      let small : c < 2 = as_int-lt (get_flag CF flags) in
      (omega arith, difference_step32 c _ _ small (omega arith) (ground arith))
  alu32_lem and = (refl, logic_step32 (bit_and a b))
  alu32_lem or = (refl, logic_step32 (bit_or a b))
  alu32_lem xor_op = (refl, logic_step32 (bit_xor a b))

module _ (a b : ℕ) (flags : ℕ) (ha : a < 2 ^ 64) (hb : b < 2 ^ 64) where
  sum_step64 :
      (c r : ℕ) (cf : Bool)
      → c < 2
      → r ≡ sum (2 ^ 63) a b c
      → cf ≡ leb (2 ^ 64) (a + b + c)
      → status (set_add_carry64 a b r cf (set_logic_flags64 r flags)) ≡ sum_status (2 ^ 63) a b c
  unfolding set_add_carry64 set_logic_flags64
  sum_step64 c r cf hc hr hcf =
      let af = has_bits (bit_xor (bit_xor a b) r) (2 ^ 4) in
      let of = has_bits (bit_and (bit_xor a r) (bit_xor b r)) (2 ^ 63) in
      status_all cf (parity (u8 r)) af (r == 0) (leb (2 ^ 63) r) of flags
      ∙ sum_fields 63 a b c r cf ha hb hc (ground arith) hcf hr (ground arith) af of refl refl

  difference_step64 :
      (c r : ℕ) (cf : Bool)
      → c < 2
      → r ≡ difference (2 ^ 63) a b c
      → cf ≡ ltb a (b + c)
      → status (set_sub_borrow64 a b r cf (set_logic_flags64 r flags))
        ≡ difference_status (2 ^ 63) a b c
  unfolding set_sub_borrow64 set_logic_flags64
  difference_step64 c r cf hc hr hcf =
      let af = has_bits (bit_xor (bit_xor a b) r) (2 ^ 4) in
      let of = has_bits (bit_and (bit_xor a b) (bit_xor a r)) (2 ^ 63) in
      status_all cf (parity (u8 r)) af (r == 0) (leb (2 ^ 63) r) of flags
      ∙ difference_fields 63 a b c r cf ha hb hc (2 ^ 59) refl (omega arith) hcf hr (ground arith)
          af of refl refl

  logic_step64 : (r : ℕ) → status (alu64_logic r flags).1 ≡ logic_status (2 ^ 63) r (status flags)
  unfolding alu64_logic set_logic_flags64 logic_status
  logic_step64 r =
      let even : parity (u8 r) ≡ even_ones r = parity_lem r in
      status_logic (parity (u8 r)) (r == 0) (leb (2 ^ 63) r) flags ∙ ground arith

  pub alu64_lem : (op : AluOp) → Meets (alu64 op a b flags) op (2 ^ 63) a b flags
  unfolding alu64 result_spec status_spec alu64_logic
  alu64_lem add =
      (omega arith, sum_step64 0 (u64 (a + b)) _ (omega arith) (omega arith) (ground arith))
  alu64_lem adc =
      let c = carry_in flags in
      let small : c < 2 = as_int-lt (get_flag CF flags) in
      (omega arith, sum_step64 c _ _ small (omega arith) (ground arith))
  alu64_lem sub = (omega arith, difference_step64 0 _ _ (omega arith) (omega arith) (ground arith))
  alu64_lem cmp = (omega arith, difference_step64 0 _ _ (omega arith) (omega arith) (ground arith))
  alu64_lem sbb =
      let c = carry_in flags in
      let small : c < 2 = as_int-lt (get_flag CF flags) in
      (omega arith, difference_step64 c _ _ small (omega arith) (ground arith))
  alu64_lem and = (refl, logic_step64 (bit_and a b))
  alu64_lem or = (refl, logic_step64 (bit_or a b))
  alu64_lem xor_op = (refl, logic_step64 (bit_xor a b))
