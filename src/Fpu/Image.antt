-- ===== src/Fpu/Image.antt =====
-- The registers in the save area of src/fpu.rs.
use cuddles.Base.{
  ℕ, zero, suc, ◌+◌, ◌*◌, ◌≤◌, ◌<◌, ◌≡◌, refl, sym, ap, ◌∙◌, ◌⊎◌, inl, inr, ◌==◌, ==_iff, ◌<<<◌,
  arith, Bool-cases, subst,
}
use cuddles.Memory.{Memory, write_u16, from_le_bytes}
use cuddles.Memory.Layout.{IsValid}
use cuddles.Memory.Words.{
  IsPlain, with_bytes, with_bytes-IsValid, from_le-put, write_u16-plain, write_u64-plain,
}
use cuddles.Memory.Tables.{from_le-outside}
use cuddles.Fpu.{Fpu, sign_of, saved_exp, saved_mant, save_reg, save_regs, reg_base}
use cuddles.Fpu.Doubles.{saved-lt, sign-lt}

-- The words of a saved register.
module _ (base bits : ℕ) (m : Memory) (v : IsValid m) (p : IsPlain m base 16) where
  abbrev first : Memory
  first = with_bytes m 8 base (saved_mant bits)

  abbrev second : Memory
  second = with_bytes first 2 (base + 8) (saved_exp bits)

  abbrev third : Memory
  third = with_bytes second 2 (base + 10) (sign_of bits <<< 15)

  first-IsValid : IsValid first
  first-IsValid = with_bytes-IsValid m 8 base (saved_mant bits) v

  second-IsValid : IsValid second
  second-IsValid = with_bytes-IsValid first 2 (base + 8) (saved_exp bits) first-IsValid

  save_reg_lem : (save_reg base bits m ≡ third) × IsValid third
  unfolding save_reg
  save_reg_lem =
      let p8 : IsPlain m base 8 = ground arith in
      let p2 : IsPlain first (base + 8) 2 = ground arith in
      let p3 : IsPlain second (base + 10) 2 = ground arith in
      (
        ap
              (λ w.
                write_u16 (base + 10) (sign_of bits <<< 15)
                  (write_u16 (base + 8) (saved_exp bits) w))
              (write_u64-plain m v base (saved_mant bits) p8)
            ∙ ap (λ w. write_u16 (base + 10) (sign_of bits <<< 15) w)
                (write_u16-plain first first-IsValid (base + 8) (saved_exp bits) p2
                  (saved-lt bits).0)
            ∙ write_u16-plain second second-IsValid (base + 10) (sign_of bits <<< 15) p3
                (omega (arith, sign-lt bits)),
        with_bytes-IsValid second 2 (base + 10) (sign_of bits <<< 15) second-IsValid,
      )

  kept :
      (n b : ℕ) → (b + n ≤ base) ⊎ (base + 16 ≤ b) → from_le_bytes third n b ≡ from_le_bytes m n b
  kept n b h =
      from_le-outside second 2 (base + 10) (sign_of bits <<< 15) n b (ground arith)
      ∙ from_le-outside first 2 (base + 8) (saved_exp bits) n b (ground arith)
      ∙ from_le-outside m 8 base (saved_mant bits) n b (ground arith)

  pub words :
      (from_le_bytes third 8 base ≡ saved_mant bits)
      × (from_le_bytes third 2 (base + 8) ≡ saved_exp bits)
      × (from_le_bytes third 2 (base + 10) ≡ sign_of bits <<< 15)
  words = (
    from_le-outside second 2 (base + 10) (sign_of bits <<< 15) 8 base (inl (omega arith))
        ∙ from_le-outside first 2 (base + 8) (saved_exp bits) 8 base (inl (omega arith))
        ∙ from_le-put m 8 base (saved_mant bits) m.cells (omega (arith, (saved-lt bits).1)),
    from_le-outside second 2 (base + 10) (sign_of bits <<< 15) 2 (base + 8) (inl (omega arith))
        ∙ from_le-put first 2 (base + 8) (saved_exp bits) first.cells
            (omega (arith, (saved-lt bits).0)),
    from_le-put second 2 (base + 10) (sign_of bits <<< 15) second.cells
        (omega (arith, sign-lt bits)),
  )

-- The registers that are saved, in a valid memory.
pub saved_lem :
    (left i addr : ℕ) (f : Fpu) (m : Memory)
    → IsValid m
    → IsPlain m (reg_base addr i) (left * 16)
    → IsValid (save_regs left i addr f m) × ((save_regs left i addr f m).low_size ≡ m.low_size)
unfolding save_regs
saved_lem zero i addr f m v p = (v, refl)
saved_lem (suc left) i addr f m v p =
    let base = reg_base addr i in
    let here : IsPlain m base 16 = ground arith in
    let one = save_reg_lem base (f.st i) m v here in
    subst
      (λ w.
        IsValid (save_regs left (i + 1) addr f w)
        × ((save_regs left (i + 1) addr f w).low_size ≡ m.low_size))
      (sym one.0)
      (saved_lem left (i + 1) addr f (third base (f.st i) m v here) one.1 (ground arith))

pub saved_before :
    (left i addr : ℕ) (f : Fpu) (m : Memory) (n b : ℕ)
    → IsValid m
    → IsPlain m (reg_base addr i) (left * 16)
    → b + n ≤ reg_base addr i
    → from_le_bytes (save_regs left i addr f m) n b ≡ from_le_bytes m n b
unfolding save_regs
saved_before zero i addr f m n b v p h = refl
saved_before (suc left) i addr f m n b v p h =
    let base = reg_base addr i in
    let here : IsPlain m base 16 = ground arith in
    let one = save_reg_lem base (f.st i) m v here in
    rw (one.0) (
      saved_before left (i + 1) addr f (third base (f.st i) m v here) n b one.1 (ground arith)
        (omega arith)
      ∙ kept base (f.st i) m v here n b (inl h))

-- The words of a register.
abbrev IsSaved : Memory → ℕ → ℕ → Type 0
IsSaved m base bits =
    (from_le_bytes m 8 base ≡ saved_mant bits)
    × (from_le_bytes m 2 (base + 8) ≡ saved_exp bits)
    × (from_le_bytes m 2 (base + 10) ≡ sign_of bits <<< 15)

pub save_regs-IsSaved :
    (left i addr : ℕ) (f : Fpu) (m : Memory) (k : ℕ)
    → IsValid m
    → IsPlain m (reg_base addr i) (left * 16)
    → i ≤ k
    → k < i + left
    → IsSaved (save_regs left i addr f m) (reg_base addr k) (f.st k)
unfolding save_regs
save_regs-IsSaved zero i addr f m k v p lo hi = absurd (omega arith)
save_regs-IsSaved (suc left) i addr f m k v p lo hi =
    let base = reg_base addr i in
    let here : IsPlain m base 16 = ground arith in
    let one = save_reg_lem base (f.st i) m v here in
    let next : IsPlain m (reg_base addr (i + 1)) (left * 16) = ground arith in
    let m' = third base (f.st i) m v here in
    let w = words base (f.st i) m v here in
    let same = λ (n b : ℕ) (h : b + n ≤ reg_base addr (i + 1)).
      saved_before left (i + 1) addr f m' n b one.1 next h in
    subst (λ w. IsSaved (save_regs left (i + 1) addr f w) (reg_base addr k) (f.st k)) (sym one.0)
      (elim (Bool-cases (i == k)) [
        | inl current ↦ rw (sym ((==_iff i k).0 current)) (
          same 8 base (omega arith) ∙ w.0,
          same 2 (base + 8) (omega arith) ∙ w.1,
          same 2 (base + 10) (omega arith) ∙ w.2,
        )
        | inr later ↦
            save_regs-IsSaved left (i + 1) addr f m' k one.1 next (ground arith) (ground arith)
      ])
