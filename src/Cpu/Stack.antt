-- ===== src/Cpu/Stack.antt =====
-- The real-mode stack of src/cpu.rs.
use cuddles.Base.{
  ℕ, ◌+◌, ◌-◌, ◌*◌, ◌/◌, ◌%◌, ◌^◌, ◌≤◌, ◌<◌, ◌≡◌, refl, ap, ◌∙◌, Bool, false, if◌then◌else◌, u16,
  u64, arith,
}
use cuddles.Memory.{Memory, phys}
use cuddles.Memory.Layout.{IsValid}
use cuddles.Memory.Words.{IsPlain, read-write_words}
use cuddles.Cpu.{Cpu, ss, set_reg_w_raw}
use cuddles.Cpu.Registers.{Width, byte, word, dword, qword, bits, set_reg_w_raw_lem}
use cuddles.Cpu.Translate.{
  push_w, pop_w, push_real, pop_real, push_protected, pop_protected, read_w, write_w,
}

read_w-write_w :
    (w : Width) (addr val : ℕ) (mem : Memory)
    → 16 ≤ bits w
    → IsValid mem
    → IsPlain mem addr 8
    → val < 2 ^ 64
    → read_w (bits w) (write_w (bits w) addr val mem) addr ≡ val % 2 ^ bits w
unfolding read_w write_w
read_w-write_w byte addr val mem h v p hv = absurd (omega arith)
read_w-write_w word addr val mem h v p hv = (read-write_words mem v addr val p).0
read_w-write_w dword addr val mem h v p hv = (read-write_words mem v addr val p).1
read_w-write_w qword addr val mem h v p hv =
    let whole : u64 val ≡ val = omega arith in
    let back = (read-write_words mem v addr val p).2 in rw whole at back ∙ omega arith

bits-le : (w : Width) → bits w ≤ 64
bits-le byte = omega arith
bits-le word = omega arith
bits-le dword = omega arith
bits-le qword = omega arith

-- The stack pointer after a move.
pub sp-moved :
    (new : ℕ) (c : Cpu)
    → c.regs 4 < 2 ^ 64
    → new < 2 ^ 16
    → (set_reg_w_raw 4 16 new c).regs 4 ≡ c.regs 4 / 2 ^ 16 * 2 ^ 16 + new
sp-moved new c h hn = set_reg_w_raw_lem word 4 4 new c h ∙ omega arith

abbrev pub pushed_sp : Width → Cpu → ℕ
pushed_sp w c = u16 (u16 (c.regs 4) + 2 ^ 16 - bits w / 8)

module _ (w : Width) (val : ℕ) (c : Cpu) (hr : c.regs 4 < 2 ^ 64) where
  moved : Cpu
  moved = set_reg_w_raw 4 16 (pushed_sp w c) c

  moved-regs : moved.regs 4 ≡ c.regs 4 / 2 ^ 16 * 2 ^ 16 + pushed_sp w c
  unfolding moved
  moved-regs = sp-moved (pushed_sp w c) c hr (omega arith)

  sp_low : u16 (moved.regs 4) ≡ pushed_sp w c
  sp_low = omega (arith, moved-regs)

  -- The slot.
  abbrev slot_at : ℕ
  slot_at = phys (c.selector ss) (pushed_sp w c)

  pushed : Cpu
  pushed = record moved { mem = write_w (bits w) slot_at val c.mem }

  push_real_lem : push_real (bits w) val c ≡ pushed
  unfolding push_real pushed moved set_reg_w_raw
  push_real_lem = rw sp_low refl

  push_w_lem : c.pe ≡ false → push_w (bits w) val c ≡ pushed
  unfolding push_w
  push_w_lem real =
      ap (λ (b : Bool). if b then push_protected (bits w) val c else push_real (bits w) val c) real
      ∙ push_real_lem

  pushed-pe : c.pe ≡ false → pushed.pe ≡ false
  unfolding pushed moved set_reg_w_raw
  pushed-pe real = real

  pop_w_lem : c.pe ≡ false → pop_w (bits w) pushed ≡ pop_real (bits w) pushed
  unfolding pop_w
  pop_w_lem real =
      ap (λ (b : Bool). if b then pop_protected (bits w) pushed else pop_real (bits w) pushed)
        (pushed-pe real)

  pop_real-value :
      16 ≤ bits w
      → val < 2 ^ 64
      → IsValid c.mem
      → IsPlain c.mem slot_at 8
      → (pop_real (bits w) pushed).0 ≡ val % 2 ^ bits w
  unfolding pop_real pushed
  pop_real-value h hv v p =
      let same : moved.selector ss ≡ c.selector ss = unfold moved set_reg_w_raw in refl in
      rw (same, sp_low) (read_w-write_w w slot_at val c.mem h v p hv)

  pop_real-sp : 16 ≤ bits w → (pop_real (bits w) pushed).1.regs 4 ≡ c.regs 4
  unfolding pop_real pushed
  pop_real-sp h =
      let at = moved-regs in
      let few = bits-le w in
      sp-moved (u16 (u16 (moved.regs 4) + bits w / 8)) pushed (omega (arith, at)) (omega arith)
      ∙ omega (arith, at, few)

-- In real mode, where the stack pointer's register is 64 bits and the eight bytes from the pushed
-- slot are plain RAM of a valid memory, a pop after a push of 16, 32 or 64 bits gives the value,
-- cut to the width, and puts the stack pointer back.
pub pop_w-push_w :
    (w : Width) (val : ℕ) (c : Cpu)
    → 16 ≤ bits w
    → c.pe ≡ false
    → c.regs 4 < 2 ^ 64
    → val < 2 ^ 64
    → IsValid c.mem
    → IsPlain c.mem (phys (c.selector ss) (pushed_sp w c)) 8
    → let popped = pop_w (bits w) (push_w (bits w) val c) in
      (popped.0 ≡ val % 2 ^ bits w) × (popped.1.regs 4 ≡ c.regs 4)
pop_w-push_w w val c h real hr hv v p =
    rw (push_w_lem w val c hr real, pop_w_lem w val c hr real)
      (pop_real-value w val c hr h hv v p, pop_real-sp w val c hr h)
