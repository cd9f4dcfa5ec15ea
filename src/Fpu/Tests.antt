-- ===== src/Fpu/Tests.antt =====
-- Runs of the floating-point unit of src/fpu.rs, and instances of the theorems.
use cuddles.Base.{ℕ, ◌^◌, ◌≡◌, refl, inl, true, not, ◌&&◌, ◌==◌, if◌then◌else◌, arith}
use cuddles.Memory.{with_size}
use cuddles.Memory.Layout.{with_size-IsValid}
use cuddles.Fpu.{
  Fpu, new, finit, st_i, set_st_i, push, pop, fstsw, fxsave, fxrstor, saved_exp, saved_mant,
  restored,
}
use cuddles.Fpu.Stack.{is_empty, pop-push}
use cuddles.Fpu.Doubles.{is_finite}
use cuddles.Fpu.Save.{fxrstor-fxsave}

-- 1.0, and minus infinity.
abbrev one : ℕ
one = 0x3FF0_0000_0000_0000

abbrev minus_infinity : ℕ
minus_infinity = 0xFFF0_0000_0000_0000

abbrev loaded : Fpu
loaded = record new { st = λ i. if i == 3 then minus_infinity else one }

pushed :
    (st_i (push one new) 0 ≡ one)
    × ((push one new).tag ≡ 0xFF7F)
    × ((pop (push one new)).tag ≡ 0xFFFF)
    × ((finit loaded).st 3 ≡ 0)
    × (fstsw loaded ≡ 0)
    × ((set_st_i 2 one new).tag ≡ 0xFFFB)
unfolding st_i push pop finit fstsw set_st_i
pushed = (refl, refl, refl, refl, refl, refl)

-- What an infinity is saved as, and what comes back.
infinity_lost :
    (saved_exp minus_infinity ≡ 0x7FFF)
    × (saved_mant minus_infinity ≡ 0x8000_0000_0000_0000)
    × (restored 1 0x7FFF 0x8000_0000_0000_0000 ≡ 0)
    × (saved_exp one ≡ 0x3FFF)
unfolding saved_exp saved_mant restored
infinity_lost = (refl, refl, refl, refl)

pop-push_example :
    let g = pop (push one new) in
    (g.top ≡ 0) × (st_i g 4 ≡ st_i new 4) × (is_empty g 4 ≡ is_empty new 4) × (is_empty g 7 ≡ true)
pop-push_example = pop-push one new 4 (omega arith) (omega arith)

fxrstor-fxsave_example :
    let r = fxrstor 0x1000 (fxsave loaded 0x1000 (with_size 0x20_0000)) (push one new) in
    (r.st 3
      ≡ (if is_finite minus_infinity && not (minus_infinity == 2 ^ 63) then minus_infinity else 0))
    × (r.control ≡ 0x037F)
    × (r.status ≡ 0)
    × (r.tag ≡ 0xFFFF)
    × (r.top ≡ (push one new).top)
unfolding with_size
fxrstor-fxsave_example =
    fxrstor-fxsave loaded (push one new) 0x1000 3 (with_size 0x20_0000)
      (with_size-IsValid 0x20_0000 (omega arith)).0 (omega arith, inl (omega arith)) (omega arith)
      (omega arith) (omega arith) (omega arith) (omega arith)
