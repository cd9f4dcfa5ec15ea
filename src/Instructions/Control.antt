-- ===== src/Instructions/Control.antt =====
-- Arms of `execute` in src/instructions.rs: calls, returns, LOOP, the flags on the stack, and the
-- conversions of the accumulator. A displacement is a word of 64 bits.
use cuddles.Base.{
  ℕ, ◌+◌, ◌-◌, ◌/◌, ◌%◌, ◌^◌, Bool, true, false, not, ◌&&◌, bit_and, bit_not, bit_or, ◌==◌, leb,
  if◌then◌else◌, u8, u16, u32, u64, update, testb,
}
use cuddles.Alu.{ZF, RF, get_flag, write_flags}
use cuddles.Alu.Shift.{sign_extend}
use cuddles.Cpu.{
  Cpu, cs, long64, long_mode, osize, stack_width, reg_w, set_reg_w, set_reg_w_raw, is_some,
  invalidate_phys_ip,
}
use cuddles.Cpu.Translate.{push_w, pop_w}
use cuddles.Cpu.Segments.{load_seg}
use cuddles.Interrupts.{push16, push32, pop16, pop32}
use cuddles.Instructions.{branch_rel}

abbrev set_reg : ℕ → ℕ → Cpu → Cpu
set_reg i v c = record c { regs = update c.regs i v }

unfoldable pub call_rel16 : ℕ → Cpu → Cpu
call_rel16 rel c = let pushed = push16 c.ip c in record pushed { ip = u16 (pushed.ip + rel) }

unfoldable pub call_rel32 : ℕ → Cpu → Cpu
call_rel32 rel c =
    let pushed = push_w (stack_width c) (if long64 c then c.rip else u32 c.rip) c in
    if is_some pushed.pending_exception then pushed else branch_rel rel pushed

unfoldable pub ret : Cpu → Cpu
ret c = let (target, popped) = pop16 c in record popped { ip = target }

-- The adjustment of the stack comes after the pop.
unfoldable pub ret_imm : ℕ → Bool → Cpu → Cpu
ret_imm imm w32 c =
    let (wide, popped64) = pop_w 64 c in
    let (dword, popped32) = pop32 c in
    let (word, popped16) = pop16 c in
    if long64 c
    then record (set_reg 4 (u64 (popped64.regs 4 + imm)) popped64) { rip = wide }
    else if w32
    then record (set_reg 4 (u32 (u32 (popped32.regs 4) + imm)) popped32) { rip = dword }
    else record (set_reg_w_raw 4 16 (u16 (u16 (popped16.regs 4) + imm)) popped16) { ip = word }

unfoldable pub ret32 : Cpu → Cpu
ret32 c =
    let (target, popped) = pop_w (stack_width c) c in
    record popped { rip = if long64 popped then target else u32 target }

unfoldable pub call_far : ℕ → ℕ → Cpu → Cpu
call_far off seg c =
    let pushed = push16 c.ip (push16 (c.selector cs) c) in
    invalidate_phys_ip (record (load_seg cs seg pushed) { ip = off })

unfoldable pub jmp_far : ℕ → ℕ → Cpu → Cpu
jmp_far off seg c = invalidate_phys_ip (record (load_seg cs seg c) { ip = off })

unfoldable pub jmp_far32 : ℕ → ℕ → Cpu → Cpu
jmp_far32 off seg c = invalidate_phys_ip (record (load_seg cs seg c) { rip = off })

unfoldable pub call_far32 : ℕ → ℕ → Cpu → Cpu
call_far32 off seg c =
    let pushed = push32 (u32 c.rip) (push32 (c.selector cs) c) in
    invalidate_phys_ip (record (load_seg cs seg pushed) { rip = off })

unfoldable pub retf : Cpu → Cpu
retf c =
    let (off, c1) = pop16 c in let (seg, c2) = pop16 (record c1 { ip = off }) in load_seg cs seg c2

unfoldable pub retf32 : Cpu → Cpu
retf32 c =
    let (wide, c1) = pop_w 64 c in
    let (wide_seg, c2) = pop_w 64 c1 in
    let (off, d1) = pop32 c in
    let (seg, d2) = pop32 d1 in
    if long_mode c
    then invalidate_phys_ip (record (load_seg cs (u16 wide_seg) c2) { rip = wide })
    else invalidate_phys_ip (record (load_seg cs (u16 seg) d2) { rip = off })

-- VM and RF are pushed as zero.
unfoldable pub pushf : Cpu → Cpu
pushf c =
    let w = stack_width c in
    if leb 32 w
    then push_w w (bit_and c.flags (bit_not 32 (bit_or (2 ^ 17) RF))) c
    else push_w 16 c.flags c

unfoldable pub popf : Cpu → Cpu
popf c =
    let w = stack_width c in
    let (f, popped) = pop_w (if leb 32 w then w else 16) c in
    let image = if leb 32 w then u32 f else bit_or (bit_and popped.flags 0xFFFF_0000) (u32 f) in
    record popped { flags = write_flags popped.flags image }

unfoldable pub cbw : Cpu → Cpu
cbw c = set_reg_w 0 16 (u16 (sign_extend (u8 (c.regs 0)) 8)) c

unfoldable pub cwd : Cpu → Cpu
cwd c = set_reg_w 2 16 (if testb (c.regs 0) 15 then 0xFFFF else 0) c

unfoldable pub cwde : Cpu → Cpu
cwde c = let w = osize c in set_reg_w 0 w (sign_extend (reg_w 0 (w / 2) c) (w / 2)) c

unfoldable pub cdq : Cpu → Cpu
cdq c = let w = osize c in set_reg_w 2 w (if testb (reg_w 0 w c) (w - 1) then 2 ^ 64 - 1 else 0) c

pub data LoopCond : Type 0 where
  loop : LoopCond
  loopz : LoopCond
  loopnz : LoopCond
  jcxz : LoopCond

-- The width of the count, which the operand size decides outside 64-bit addressing.
abbrev pub loop_width : Cpu → ℕ
loop_width c = if c.addr64 then 64 else if c.opsize then 32 else 16

abbrev pub counted : Cpu → Cpu
counted c = let w = loop_width c in set_reg_w_raw 1 w ((reg_w 1 w c + 2 ^ w - 1) % 2 ^ w) c

-- Whether the branch is taken, from the count that is left.
abbrev pub loop_taken : LoopCond → ℕ → Cpu → Bool
loop_taken loop n c = not (n == 0)
loop_taken loopz n c = not (n == 0) && get_flag ZF c.flags
loop_taken loopnz n c = not (n == 0) && not (get_flag ZF c.flags)
loop_taken jcxz n c = n == 0

abbrev pub is_jcxz : LoopCond → Bool
is_jcxz jcxz = true
is_jcxz _ = false

unfoldable pub loop_rel : LoopCond → ℕ → Cpu → Cpu
loop_rel cond rel c =
    let after = if is_jcxz cond then c else counted c in
    let take = loop_taken cond (reg_w 1 (loop_width c) after) after in
    let near =
      if after.opsize
      then record after { rip = u32 (u32 after.rip + u32 rel) }
      else record after { ip = u16 (after.ip + u16 rel) } in
    if take then (if c.addr64 then branch_rel rel after else near) else after
