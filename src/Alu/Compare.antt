-- ===== src/Alu/Compare.antt =====
-- The ALU at the widths of src/instructions.rs's `alu_w`, and the conditions read after a
-- comparison.
use cuddles.Base.{
  ℕ, ◌+◌, ◌-◌, ◌*◌, ◌^◌, ◌<◌, ◌≡◌, refl, ap, ◌∙◌, Bool, not, ◌==◌, ltb, leb, if◌then◌else◌, xor,
  u16, u32, arith,
}
use cuddles.Alu.{
  AluOp, cmp, Cond, o, no_o, b, nb, e, ne, be, nbe, s, ns, p, np, l, nl, le, nle, test, get_flag,
  CF, PF, ZF, SF, OF, alu_w,
}
use cuddles.Alu.Status.{Status, status, get_flag-testb}
use cuddles.Alu.Spec.{biased, difference, difference_status, status_spec, even_ones}
use cuddles.Alu.Results.{Meets, alu16_lem, alu32_lem, alu64_lem}

-- The operand sizes above a byte.
pub data Wide : Type 0 where
  word : Wide
  dword : Wide
  qword : Wide

abbrev pub top : Wide → ℕ
top word = 15
top dword = 31
top qword = 63

-- What each condition says of two operands that were compared.
unfoldable pub relation : Cond → ℕ → ℕ → ℕ → Bool
relation o half x y = (difference_status half x y 0).overflow
relation no_o half x y = not (difference_status half x y 0).overflow
relation b half x y = ltb x y
relation nb half x y = leb y x
relation e half x y = x == y
relation ne half x y = not (x == y)
relation be half x y = leb x y
relation nbe half x y = ltb y x
relation s half x y = leb half (difference half x y 0)
relation ns half x y = ltb (difference half x y 0) half
relation p half x y = even_ones (difference half x y 0)
relation np half x y = not (even_ones (difference half x y 0))
relation l half x y = ltb (biased half x) (biased half y)
relation nl half x y = leb (biased half y) (biased half x)
relation le half x y = leb (biased half x) (biased half y)
relation nle half x y = ltb (biased half y) (biased half x)

-- At 16, 32 and 64 bits, on operands of that width, each of the eight operations gives the result
-- and the carry, parity, adjust, zero, sign and overflow flags that arithmetic on the integers of
-- the operands gives, with the carry taken in by ADC and SBB.
pub alu_w_lem :
    (w : Wide) (op : AluOp) (x y flags : ℕ)
    → x < 2 ^ (top w + 1)
    → y < 2 ^ (top w + 1)
    → Meets (alu_w op x y (top w + 1) flags) op (2 ^ top w) x y flags
unfolding alu_w
alu_w_lem word op x y flags hx hy =
    let ex : u16 x ≡ x = omega arith in
    let ey : u16 y ≡ y = omega arith in rw (ex, ey) (alu16_lem x y flags hx hy op)
alu_w_lem dword op x y flags hx hy =
    let ex : u32 x ≡ x = omega arith in
    let ey : u32 y ≡ y = omega arith in rw (ex, ey) (alu32_lem x y flags hx hy op)
alu_w_lem qword op x y flags hx hy = alu64_lem x y flags hx hy op

-- A condition as a test of the record of flags.
module _ (flags half x y : ℕ) (hx : x < 2 * half) (hy : y < 2 * half)
    (h : status flags ≡ difference_status half x y 0)
    (wrap : difference half x y 0 ≡ (if ltb x y then x + 2 * half - y else x - y)) where
  below : get_flag CF flags ≡ ltb x y
  below =
      let carry : get_flag CF flags ≡ ltb x (y + 0) =
        get_flag-testb 0 flags ∙ ap (λ (st : Status). st.carry) h in
      ground (arith, carry)

  equal : get_flag ZF flags ≡ (x == y)
  equal =
      let zero : get_flag ZF flags ≡ (difference half x y 0 == 0) =
        get_flag-testb 6 flags ∙ ap (λ (st : Status). st.zero) h in
      ground (arith, zero, wrap)

  negative : get_flag SF flags ≡ leb half (difference half x y 0)
  negative = get_flag-testb 7 flags ∙ ap (λ (st : Status). st.sign) h

  even : get_flag PF flags ≡ even_ones (difference half x y 0)
  even = get_flag-testb 2 flags ∙ ap (λ (st : Status). st.parity) h

  overflowed : get_flag OF flags ≡ (difference_status half x y 0).overflow
  overflowed = get_flag-testb 11 flags ∙ ap (λ (st : Status). st.overflow) h

  -- The sign and the overflow of the difference differ where the first operand is smaller.
  less : xor (get_flag SF flags) (get_flag OF flags) ≡ ltb (biased half x) (biased half y)
  less = rw (negative, overflowed, wrap) (ground arith)

  biased_injective : (x == y) ≡ (biased half x == biased half y)
  biased_injective = ground arith

  pub test-relation : (c : Cond) → test c flags ≡ relation c half x y
  unfolding test relation
  test-relation o = overflowed
  test-relation no_o = ap not overflowed
  test-relation b = below
  test-relation nb = rw below (ground arith)
  test-relation e = equal
  test-relation ne = ap not equal
  test-relation be = rw (below, equal) (ground arith)
  test-relation nbe = rw (below, equal) (ground arith)
  test-relation s = negative
  test-relation ns = rw negative (ground arith)
  test-relation p = even
  test-relation np = ap not even
  test-relation l = less
  test-relation nl = rw less (ground arith)
  test-relation le = rw (less, equal, biased_injective) (ground arith)
  test-relation nle = rw (less, equal, biased_injective) (ground arith)

top_double : (w : Wide) → 2 ^ (top w + 1) ≡ 2 * 2 ^ top w
top_double word = refl
top_double dword = refl
top_double qword = refl

wraps :
    (w : Wide) (x y : ℕ)
    → x < 2 ^ (top w + 1)
    → y < 2 ^ (top w + 1)
    → difference (2 ^ top w) x y 0 ≡ (if ltb x y then x + 2 * 2 ^ top w - y else x - y)
wraps word x y hx hy = ground arith
wraps dword x y hx hy = ground arith
wraps qword x y hx hy = ground arith

module _ (w : Wide) (x y flags : ℕ) (hx : x < 2 ^ (top w + 1)) (hy : y < 2 ^ (top w + 1)) where
  -- After CMP at 16, 32 or 64 bits, on operands of that width, each of the sixteen conditions is
  -- what its name says of them: the unsigned and the signed orders, equality, and the sign, parity
  -- and overflow of the difference.
  pub cmp_test :
      (c : Cond) → test c (alu_w cmp x y (top w + 1) flags).1 ≡ relation c (2 ^ top w) x y
  unfolding status_spec
  cmp_test c =
      let after = (alu_w cmp x y (top w + 1) flags).1 in
      test-relation after (2 ^ top w) x y (omega (arith, top_double w))
        (omega (arith, top_double w)) (alu_w_lem w cmp x y flags hx hy).1 (wraps w x y hx hy) c
