-- ===== src/Fpu/Doubles.antt =====
-- How src/fpu.rs takes a double apart to save it, and makes one of what it reads back.
use cuddles.Base.{
  ℕ, ◌+◌, ◌-◌, ◌*◌, ◌/◌, ◌%◌, ◌^◌, ◌<◌, ◌≡◌, refl, ◌∙◌, inl, inr, Bool, not, ◌&&◌, bit_or, bit_and,
  ◌==◌, if◌then◌else◌, ◌<<<◌, u64, arith, bit_and_low, bit_or_shifted, bit_or_low, Bool-cases,
}
use cuddles.Fpu.{sign_of, exp_of, mant_of, saved_exp, saved_mant, restored}

bit_or_sum :
    (s e : ℕ) → e < 2 ^ 11 → bit_or (s * 2 ^ 11 * 2 ^ 52) (e * 2 ^ 52) ≡ (s * 2 ^ 11 + e) * 2 ^ 52
bit_or_sum s e h =
    let top : s * 2 ^ 11 * 2 ^ 52 ≡ s * 2 ^ 63 = omega arith in
    rw top (bit_or_shifted 63 s (e * 2 ^ 52) (omega arith) ∙ omega arith)

module _ (bits : ℕ) where
  exp_lem : exp_of bits ≡ bits / 2 ^ 52 % 2 ^ 11
  exp_lem = bit_and_low 11 (bits / 2 ^ 52)

  mant_lem : mant_of bits ≡ bits % 2 ^ 52
  mant_lem = bit_and_low 52 bits

  sign_lem : sign_of bits ≡ bits / 2 ^ 63 % 2
  sign_lem = bit_and_low 1 (bits / 2 ^ 63)

  -- The exponent field is all ones in an infinity and in what is no number.
  abbrev pub is_finite : Bool
  is_finite = not (exp_of bits == 0x7FF)

  with_leading :
      bit_or (u64 (bits % 2 ^ 52 <<< 11)) 0x8000_0000_0000_0000 ≡ 2 ^ 63 + bits % 2 ^ 52 * 2 ^ 11
  with_leading =
      let cut : u64 (bits % 2 ^ 52 <<< 11) ≡ bits % 2 ^ 52 * 2 ^ 11 = omega arith in
      rw cut (bit_or_low 63 (bits % 2 ^ 52 * 2 ^ 11) 1 (omega arith) ∙ omega arith)

  without_leading :
      bit_and (2 ^ 63 + bits % 2 ^ 52 * 2 ^ 11) 0x7FFF_FFFF_FFFF_FFFF ≡ bits % 2 ^ 52 * 2 ^ 11
  without_leading = bit_and_low 63 (2 ^ 63 + bits % 2 ^ 52 * 2 ^ 11) ∙ omega arith

  whole :
      bits < 2 ^ 64
      → bit_or
          (bit_or (u64 (bits / 2 ^ 63 % 2 <<< 63)) (u64 (bits / 2 ^ 52 % 2 ^ 11 <<< 52)))
          (bits % 2 ^ 52)
        ≡ bits
  whole h =
      let s = bits / 2 ^ 63 % 2 in
      let e = bits / 2 ^ 52 % 2 ^ 11 in
      let sign : u64 (s <<< 63) ≡ s * 2 ^ 11 * 2 ^ 52 = omega arith in
      let exp : u64 (e <<< 52) ≡ e * 2 ^ 52 = omega arith in
      let joined : bit_or (s * 2 ^ 11 * 2 ^ 52) (e * 2 ^ 52) ≡ (s * 2 ^ 11 + e) * 2 ^ 52 =
        bit_or_sum s e (omega arith) in
      rw (sign, exp, joined)
        (bit_or_shifted 52 (s * 2 ^ 11 + e) (bits % 2 ^ 52) (omega arith) ∙ omega arith)

  -- A finite number other than the negative zero comes back as it was; what is not finite, and the
  -- negative zero, come back as zero.
  pub restored-saved :
      bits < 2 ^ 64
      → restored (sign_of bits) (saved_exp bits) (saved_mant bits)
        ≡ (if is_finite && not (bits == 2 ^ 63) then bits else 0)
  unfolding restored saved_exp saved_mant
  restored-saved h =
      rw (exp_lem, mant_lem, sign_lem, with_leading)
        (elim (Bool-cases (bits / 2 ^ 52 % 2 ^ 11 == 0 && bits % 2 ^ 52 == 0)) [
          | inl nought ↦ ground (arith, nought)
          | inr number ↦ rw number (elim (Bool-cases (bits / 2 ^ 52 % 2 ^ 11 == 0x7FF)) [
            | inl beyond ↦ rw beyond refl
            | inr finite ↦
                let sum : u64 (bits / 2 ^ 52 % 2 ^ 11 + 16383 - 1023 + 2 ^ 64 + 1023 - 16383)
                    ≡ bits / 2 ^ 52 % 2 ^ 11 =
                  omega arith in
                let mantissa : (2 ^ 63 + bits % 2 ^ 52 * 2 ^ 11) % 2 ^ 63 / 2 ^ 11 ≡ bits % 2 ^ 52 =
                  omega arith in
                rw
                  (finite, sum, bit_and_low 63 (2 ^ 63 + bits % 2 ^ 52 * 2 ^ 11), mantissa, whole h)
                  (ground (arith, number))
          ])
        ])

  pub saved-lt : (saved_exp bits < 2 ^ 16) × (saved_mant bits < 2 ^ 64)
  unfolding saved_exp saved_mant
  saved-lt = rw (exp_lem, mant_lem, with_leading) (ground arith, ground arith)

  pub sign-lt : sign_of bits < 2
  sign-lt = rw sign_lem (omega arith)
