-- ===== src/Interrupts/Laws.antt =====
-- Interrupts in real mode and the returns from them.
use cuddles.Base.{
  ℕ, ◌+◌, ◌-◌, ◌*◌, ◌^◌, ◌≤◌, ◌<◌, ◌≡◌, refl, ap, ◌∙◌, true, false, bit_or, bit_and, u16, arith,
  testb, inr,
}
use cuddles.Memory.{Memory, phys, read_u16}
use cuddles.Memory.Layout.{IsValid}
use cuddles.Memory.Words.{IsPlain, with_bytes, with_bytes-IsValid, read_u16-plain, from_le-put}
use cuddles.Memory.Tables.{from_le-outside}
use cuddles.Alu.{write_flags}
use cuddles.Cpu.{Cpu, SegReg, cs, ss, set_seg}
use cuddles.Interrupts.Flags.{cleared, flags_back}
use cuddles.Interrupts.{real_int, iret, push16}
use cuddles.Interrupts.Frame.{phys_lem, word_eq, iret_lem, push_step}

-- Room for three words on the stack, in plain RAM.
u16_small : (v : ℕ) → v < 2 ^ 16 → u16 v ≡ v
u16_small v h = omega arith

pub record HasStack (c : Cpu) : Type 0 where
  pub real : c.pe ≡ false
  pub valid : IsValid c.mem
  pub sp : c.regs 4 < 2 ^ 64
  pub room : 6 ≤ u16 (c.regs 4)
  pub low : c.selector ss * 16 + u16 (c.regs 4) < 2 ^ 20
  pub plain : IsPlain c.mem (c.selector ss * 16 + u16 (c.regs 4) - 6) 6

module _ (vector : ℕ) (c : Cpu) (h : HasStack c) (ip : c.ip < 2 ^ 16) (seg : c.selector cs < 2 ^ 16)
    (flags : c.flags < 2 ^ 32) (one : testb c.flags 1 ≡ true) where
  abbrev bottom : ℕ
  bottom = c.selector ss * 16 + u16 (c.regs 4) - 6

  abbrev c1 : Cpu
  c1 = push16 (u16 c.flags) c

  abbrev c2 : Cpu
  c2 = push16 (c.selector cs) c1

  abbrev c3 : Cpu
  c3 = push16 c.ip c2

  abbrev m1 : Memory
  m1 = with_bytes c.mem 2 (bottom + 4) (u16 c.flags)

  abbrev m2 : Memory
  m2 = with_bytes m1 2 (bottom + 2) (c.selector cs)

  abbrev m3 : Memory
  m3 = with_bytes m2 2 bottom c.ip

  pushed_lem :
      (c3.mem ≡ m3)
      × (c3.regs 4 ≡ c.regs 4 - 6)
      × (c3.pe ≡ false)
      × ((s : SegReg) → c3.selector s ≡ c.selector s)
      × (c3.flags ≡ c.flags)
      × (c3.ip ≡ c.ip)
  pushed_lem =
      let base = c.selector ss in
      let r = c.regs 4 in
      let a1 : phys base (u16 r - 2) ≡ bottom + 4 =
        phys_lem base (u16 r - 2) (omega (arith, h.low)) ∙ omega (arith, h.room) in
      let a2 : phys base (u16 (r - 2) - 2) ≡ bottom + 2 =
        ap (phys base) (omega (arith, h.room))
        ∙ phys_lem base (u16 r - 4) (omega (arith, h.low))
        ∙ omega (arith, h.room) in
      let a3 : phys base (u16 (r - 2 - 2) - 2) ≡ bottom =
        ap (phys base) (omega (arith, h.room))
        ∙ phys_lem base (u16 r - 6) (omega (arith, h.low))
        ∙ omega (arith, h.room) in
      let v1 = with_bytes-IsValid c.mem 2 (bottom + 4) (u16 c.flags) h.valid in
      let v2 = with_bytes-IsValid m1 2 (bottom + 2) (c.selector cs) v1 in
      let q1 : IsPlain c.mem (bottom + 4) 2 = ground (arith, h.plain) in
      let q2 : IsPlain m1 (bottom + 2) 2 = ground (arith, h.plain) in
      let q3 : IsPlain m2 bottom 2 = ground (arith, h.plain) in
      let p1 =
        push_step (u16 c.flags) c c.mem r base (bottom + 4) refl refl refl a1 h.real h.sp
          (omega (arith, h.room)) h.valid q1 (omega arith) in
      let p2 =
        push_step (c.selector cs) c1 m1 (r - 2) base (bottom + 2) p1.0 p1.1 (p1.3 ss) a2 p1.2
          (omega (arith, h.sp)) (omega (arith, h.room)) v1 q2 seg in
      let p3 =
        push_step c.ip c2 m2 (r - 2 - 2) base bottom p2.0 p2.1 (p2.3 ss ∙ p1.3 ss) a3 p2.2
          (omega (arith, h.sp)) (omega (arith, h.room)) v2 q3 ip in
      (
        p3.0,
        p3.1 ∙ omega arith,
        p3.2,
        λ s. p3.3 s ∙ p2.3 s ∙ p1.3 s,
        p3.4 ∙ p2.4 ∙ p1.4,
        p3.5 ∙ p2.5 ∙ p1.5,
      )

  sp_room : 6 ≤ c.regs 4
  sp_room = omega (arith, h.room)

  -- The three words in memory.
  words :
      (read_u16 m3 bottom ≡ c.ip)
      × (read_u16 m3 (bottom + 2) ≡ c.selector cs)
      × (read_u16 m3 (bottom + 4) ≡ u16 c.flags)
  words =
      let v1 = with_bytes-IsValid c.mem 2 (bottom + 4) (u16 c.flags) h.valid in
      let v2 = with_bytes-IsValid m1 2 (bottom + 2) (c.selector cs) v1 in
      let v3 = with_bytes-IsValid m2 2 bottom c.ip v2 in
      let q1 : IsPlain m3 (bottom + 4) 2 = ground (arith, h.plain) in
      let q2 : IsPlain m3 (bottom + 2) 2 = ground (arith, h.plain) in
      let q3 : IsPlain m3 bottom 2 = ground (arith, h.plain) in
      (
        read_u16-plain m3 v3 bottom q3 ∙ from_le-put m2 2 bottom c.ip m2.cells (omega (arith, ip)),
        read_u16-plain m3 v3 (bottom + 2) q2
            ∙ from_le-outside m2 2 bottom c.ip 2 (bottom + 2) (inr (omega arith))
            ∙ from_le-put m1 2 (bottom + 2) (c.selector cs) m1.cells (omega (arith, seg)),
        read_u16-plain m3 v3 (bottom + 4) q1
            ∙ from_le-outside m2 2 bottom c.ip 2 (bottom + 4) (inr (omega arith))
            ∙ from_le-outside m1 2 (bottom + 2) (c.selector cs) 2 (bottom + 4) (inr (omega arith))
            ∙ from_le-put c.mem 2 (bottom + 4) (u16 c.flags) c.mem.cells (omega arith),
      )

  abbrev entered : Cpu
  entered = real_int vector c

  entered_lem :
      (entered.mem ≡ c3.mem)
      × (entered.regs 4 ≡ c3.regs 4)
      × (entered.pe ≡ c3.pe)
      × (entered.selector ss ≡ c3.selector ss)
      × (entered.flags ≡ cleared c3.flags)
  unfolding real_int set_seg
  entered_lem = (refl, refl, refl, refl, refl)

  -- In real mode, with six bytes of plain low RAM below the stack pointer that do not wrap its 16
  -- bits and lie in the first 1 MiB, and with the registers within their widths and the always set
  -- bit of the flags set, an IRET after the delivery of any vector restores the instruction
  -- pointer, the code segment, the flags and the stack pointer, and leaves the memory as the
  -- delivery did.
  pub iret-real_int :
      let r = iret (real_int vector c) in
      (r.ip ≡ c.ip)
      × (r.selector cs ≡ c.selector cs)
      × (r.flags ≡ c.flags)
      × (r.regs 4 ≡ c.regs 4)
      × (r.mem ≡ (real_int vector c).mem)
  iret-real_int =
      let p = pushed_lem in
      let e = entered in
      let base = c.selector ss in
      let low : u16 (e.regs 4) ≡ u16 (c.regs 4) - 6 =
        ap u16 (entered_lem.1 ∙ p.1) ∙ omega (arith, h.room) in
      let stack : e.selector ss ≡ base = entered_lem.3 ∙ p.3 ss in
      let r =
        iret_lem e (entered_lem.2 ∙ p.2) (omega (arith, h.sp, entered_lem.1 ∙ p.1))
          (omega (arith, low)) in
      let word =
        λ (n a v : ℕ) (at : phys base (u16 (c.regs 4) - 6 + n) ≡ a) (there : read_u16 m3 a ≡ v)
            (small : v < 2 ^ 16).
          word_eq (entered_lem.0 ∙ p.0) stack (ap (λ x. x + n) low)
          ∙ ap (λ x. u16 (read_u16 m3 x)) at
          ∙ ap u16 there
          ∙ u16_small v small in
      let at =
        λ (n : ℕ) (few : n ≤ 4). phys_lem base (u16 (c.regs 4) - 6 + n) (omega (arith, h.low)) in
      let w = words in
      let flags_word =
        word 4 (bottom + 4) (u16 c.flags) (at 4 (omega arith) ∙ omega (arith, h.room)) w.2
          (omega arith) in
      let before : e.flags ≡ cleared c.flags = entered_lem.4 ∙ ap cleared p.4 in
      (
        r.0 ∙ word 0 bottom c.ip (at 0 (omega arith) ∙ omega (arith, h.room)) w.0 ip,
        r.1
            ∙ word 2 (bottom + 2) (c.selector cs) (at 2 (omega arith) ∙ omega (arith, h.room)) w.1
                seg,
        r.2
            ∙ ap (λ x. write_flags e.flags (bit_or (bit_and e.flags 0xFFFF_0000) x)) flags_word
            ∙ ap (λ x. write_flags x (bit_or (bit_and x 0xFFFF_0000) (u16 c.flags))) before
            ∙ flags_back c.flags flags one,
        r.3 ∙ ap (λ x. x + 6) (entered_lem.1 ∙ p.1) ∙ omega (arith, sp_room),
        r.4,
      )
