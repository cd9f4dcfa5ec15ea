-- ===== src/Interrupts/Frame.antt =====
-- Pushes and pops of words in real mode, and the return that pops three of them.
use cuddles.Base.{
  ℕ, ◌+◌, ◌-◌, ◌*◌, ◌^◌, ◌≤◌, ◌<◌, ◌≡◌, refl, sym, ap, subst, ◌∙◌, Bool, false, bit_or, bit_and,
  if◌then◌else◌, u16, arith, bit_and_low,
}
use cuddles.Memory.{Memory, phys, read_u16, write_u16}
use cuddles.Memory.Layout.{IsValid}
use cuddles.Memory.Words.{IsPlain, with_bytes, write_u16-plain}
use cuddles.Alu.{write_flags}
use cuddles.Cpu.{Cpu, SegReg, cs, ss, set_seg, set_reg_w_raw}
use cuddles.Cpu.Stack.{sp-moved}
use cuddles.Cpu.Translate.{
  push_w, pop_w, push_real, pop_real, push_protected, pop_protected, read_w, write_w,
}
use cuddles.Interrupts.{iret, push16, pop16}

push_w_real : (v : ℕ) (c : Cpu) → c.pe ≡ false → push_w 16 v c ≡ push_real 16 v c
unfolding push_w
push_w_real v c real = ap (λ (b : Bool). if b then push_protected 16 v c else push_real 16 v c) real

pop_w_real : (c : Cpu) → c.pe ≡ false → pop_w 16 c ≡ pop_real 16 c
unfolding pop_w
pop_w_real c real = ap (λ (b : Bool). if b then pop_protected 16 c else pop_real 16 c) real

-- A push and a pop of 16 bits that do not wrap round.
module _ (v : ℕ) (c : Cpu) (real : c.pe ≡ false) (hr : c.regs 4 < 2 ^ 64)
    (room : 2 ≤ u16 (c.regs 4)) (valid : IsValid c.mem) (hv : v < 2 ^ 16) where
  abbrev pub below : ℕ
  below = phys (c.selector ss) (u16 (c.regs 4) - 2)

  push16_lem :
      IsPlain c.mem below 2
      → let d = push16 v c in
        (d.mem ≡ with_bytes c.mem 2 below v)
        × (d.regs 4 ≡ c.regs 4 - 2)
        × (d.pe ≡ false)
        × ((s : SegReg) → d.selector s ≡ c.selector s)
        × (d.flags ≡ c.flags)
        × (d.ip ≡ c.ip)
  unfolding push_real set_reg_w_raw write_w
  push16_lem p =
      let new = u16 (u16 (c.regs 4) + 2 ^ 16 - 2) in
      let moved = sp-moved new c hr (omega arith) in
      let sp : (set_reg_w_raw 4 16 new c).regs 4 ≡ c.regs 4 - 2 = moved ∙ omega (arith, room) in
      let low : u16 ((set_reg_w_raw 4 16 new c).regs 4) ≡ u16 (c.regs 4) - 2 =
        ap u16 sp ∙ omega (arith, room) in
      let cut : u16 v ≡ v = omega (arith, hv) in
      let stored : write_u16 (phys (c.selector ss) (u16 ((set_reg_w_raw 4 16 new c).regs 4)))
            (u16 v) c.mem
          ≡ with_bytes c.mem 2 below v =
        ap (λ a. write_u16 (phys (c.selector ss) a) (u16 v) c.mem) low
        ∙ ap (λ w. write_u16 below w c.mem) cut
        ∙ write_u16-plain c.mem valid below v p hv in
      rw (push_w_real v c real) (stored, sp, real, λ s. refl, refl, refl)

module _ (c : Cpu) (real : c.pe ≡ false) (hr : c.regs 4 < 2 ^ 64 - 2)
    (room : u16 (c.regs 4) < 2 ^ 16 - 2) where
  pop16_lem :
      let d = (pop16 c).1 in
      ((pop16 c).0 ≡ u16 (read_u16 c.mem (phys (c.selector ss) (u16 (c.regs 4)))))
      × (d.regs 4 ≡ c.regs 4 + 2)
      × (d.mem ≡ c.mem)
      × (d.pe ≡ false)
      × ((s : SegReg) → d.selector s ≡ c.selector s)
      × (d.flags ≡ c.flags)
      × (d.ip ≡ c.ip)
  unfolding pop_real set_reg_w_raw read_w
  pop16_lem =
      let new = u16 (u16 (c.regs 4) + 2) in
      let sp : (set_reg_w_raw 4 16 new c).regs 4 ≡ c.regs 4 + 2 =
        sp-moved new c (omega arith) (omega arith) ∙ omega (arith, room) in
      rw (pop_w_real c real) (refl, sp, refl, real, λ s. refl, refl, refl)

pub phys_lem : (seg off : ℕ) → seg * 16 + off < 2 ^ 20 → phys seg off ≡ seg * 16 + off
unfolding phys
phys_lem seg off h = bit_and_low 20 (seg * 2 ^ 4 + off) ∙ omega (arith, h)

pub word_eq :
    {m m' : Memory} {a a' o o' : ℕ}
    → m ≡ m'
    → a ≡ a'
    → o ≡ o'
    → u16 (read_u16 m (phys a o)) ≡ u16 (read_u16 m' (phys a' o'))
word_eq p q r = cc

-- The return, from a state where nothing wraps round.
module _ (d : Cpu) (real : d.pe ≡ false) (hr : d.regs 4 < 2 ^ 64 - 6)
    (room : u16 (d.regs 4) < 2 ^ 16 - 6) where
  abbrev e1 : Cpu
  e1 = record (pop16 d).1 { ip = (pop16 d).0 }

  abbrev e2 : Cpu
  e2 = set_seg cs (pop16 e1).0 (pop16 e1).1

  pub iret_lem :
      let r = iret d in
      let word = λ (n : ℕ). u16 (read_u16 d.mem (phys (d.selector ss) (u16 (d.regs 4) + n))) in
      (r.ip ≡ word 0)
      × (r.selector cs ≡ word 2)
      × (r.flags ≡ write_flags d.flags (bit_or (bit_and d.flags 0xFFFF_0000) (word 4)))
      × (r.regs 4 ≡ d.regs 4 + 6)
      × (r.mem ≡ d.mem)
  unfolding iret set_seg
  iret_lem =
      let p1 = pop16_lem d real (omega arith) (omega arith) in
      let s1 : u16 (e1.regs 4) ≡ u16 (d.regs 4) + 2 = ap u16 p1.1 ∙ omega (arith, room) in
      let p2 = pop16_lem e1 p1.3 (omega (arith, p1.1)) (omega (arith, s1)) in
      let s2 : u16 (e2.regs 4) ≡ u16 (d.regs 4) + 4 =
        ap u16 (p2.1 ∙ ap (λ x. x + 2) p1.1) ∙ omega (arith, room) in
      let p3 = pop16_lem e2 p2.3 (omega (arith, p2.1, p1.1)) (omega (arith, s2)) in
      let m2 : e2.mem ≡ d.mem = p2.2 ∙ p1.2 in
      let b2 : e2.selector ss ≡ d.selector ss = p2.4 ss ∙ p1.4 ss in
      let f : (pop16 e2).1.flags ≡ d.flags = p3.5 ∙ p2.5 ∙ p1.5 in
      let third = p3.0 ∙ word_eq m2 b2 s2 in
      (
        p3.6 ∙ p2.6 ∙ p1.0 ∙ ap (λ a. u16 (read_u16 d.mem (phys (d.selector ss) a))) (omega arith),
        p3.4 cs ∙ p2.0 ∙ word_eq p1.2 (p1.4 ss) s1,
        ap (λ x. write_flags x (bit_or (bit_and x 0xFFFF_0000) (pop16 e2).0)) f
            ∙ ap (λ w. write_flags d.flags (bit_or (bit_and d.flags 0xFFFF_0000) w)) third,
        p3.1 ∙ omega (arith, p2.1, p1.1),
        p3.2 ∙ m2,
      )

-- A push, with what is known of the state in it.
pub push_step :
    (v : ℕ) (c : Cpu) (m : Memory) (r base a : ℕ)
    → c.mem ≡ m
    → c.regs 4 ≡ r
    → c.selector ss ≡ base
    → phys base (u16 r - 2) ≡ a
    → c.pe ≡ false
    → r < 2 ^ 64
    → 2 ≤ u16 r
    → IsValid m
    → IsPlain m a 2
    → v < 2 ^ 16
    → let d = push16 v c in
      (d.mem ≡ with_bytes m 2 a v)
      × (d.regs 4 ≡ r - 2)
      × (d.pe ≡ false)
      × ((s : SegReg) → d.selector s ≡ c.selector s)
      × (d.flags ≡ c.flags)
      × (d.ip ≡ c.ip)
push_step v c m r base a em er eb ea real hr room valid plain hv =
    let at : phys (c.selector ss) (u16 (c.regs 4) - 2) ≡ a = rw (er, eb) ea in
    let ok = subst IsValid (sym em) valid in
    let here : IsPlain c.mem (phys (c.selector ss) (u16 (c.regs 4) - 2)) 2 = rw (at, em) plain in
    let p = push16_lem v c real (rw er hr) (rw er room) ok hv here in
    (
      p.0 ∙ ap (λ x. with_bytes c.mem 2 x v) at ∙ ap (λ w. with_bytes w 2 a v) em,
      p.1 ∙ ap (λ x. x - 2) er,
      p.2,
      p.3,
      p.4,
      p.5,
    )
