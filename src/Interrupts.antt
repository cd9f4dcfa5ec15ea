-- ===== src/Interrupts.antt =====
-- How src/instructions.rs and src/cpu.rs deliver interrupts and exceptions, and return from them.
pub mod Dispatch
pub mod Hardware
pub mod Priority
pub mod Flags
pub mod Frame
pub mod Laws
pub mod Escalation
mod Tests
use cuddles.Base.{
  ℕ, ◌+◌, ◌-◌, ◌*◌, ◌/◌, ◌%◌, ◌^◌, Bool, true, false, not, ◌&&◌, ◌||◌, Option, none, some, bit_or,
  bit_and, bit_not, ◌==◌, ltb, leb, if◌then◌else◌, ◌<<<◌, ◌>>>◌, u16, u32, u64, update,
}
use cuddles.Memory.{read_u8, read_u16, read_u32}
use cuddles.Protected.{dpl}
use cuddles.Alu.{IF, TF, RF, set_flag, write_flags}
use cuddles.Cpu.{Cpu, SegReg, cs, ss, set_seg, cpl, long_mode, invalidate_phys_ip}
use cuddles.Cpu.Segments.{load_seg, descriptor_for, tss_stack0, tss_rsp0, tss_ist}
use cuddles.Cpu.Translate.{push_w, pop_w, linear_to_phys_ro}

abbrev pub push16 : ℕ → Cpu → Cpu
push16 v = push_w 16 v

abbrev pub push32 : ℕ → Cpu → Cpu
push32 v = push_w 32 v

abbrev pub push64 : ℕ → Cpu → Cpu
push64 v = push_w 64 v

abbrev pub pop16 : Cpu → ℕ × Cpu
pop16 c = let (v, after) = pop_w 16 c in (u16 v, after)

abbrev pub pop32 : Cpu → ℕ × Cpu
pop32 c = let (v, after) = pop_w 32 c in (u32 v, after)

abbrev pub set_flag_of : ℕ → Bool → Cpu → Cpu
set_flag_of f on c = record c { flags = set_flag f on c.flags }

-- Through the table of vectors at address 0.
unfoldable pub real_int : ℕ → Cpu → Cpu
real_int vector c =
    let pushed = push16 c.ip (push16 (c.selector cs) (push16 (u16 c.flags) c)) in
    let masked = set_flag_of TF false (set_flag_of IF false pushed) in
    let off = read_u16 masked.mem (vector * 4) in
    let seg = read_u16 masked.mem (vector * 4 + 2) in record (set_seg cs seg masked) { ip = off }

-- What a gate does to the flags once the frame is pushed.
abbrev pub gate_flags : Bool → Cpu → Cpu
gate_flags is_interrupt c =
    set_flag_of RF false (set_flag_of TF false (if is_interrupt then set_flag_of IF false c else c))

abbrev pub push_code : ℕ → Option ℕ → Cpu → Cpu
push_code width none c = c
push_code width (some code) c = push_w width code c

-- An entry of 8 bytes. A gate to a more privileged segment switches to the stack of the task.
unfoldable pub legacy_int : ℕ → Option ℕ → Cpu → Cpu
legacy_int vector code c =
    let addr = linear_to_phys_ro (u64 (c.idt_base + vector * 8)) c in
    let target = bit_or (read_u16 c.mem addr) (read_u16 c.mem (addr + 6) <<< 16) in
    let selector = read_u16 c.mem (addr + 2) in
    let gate_type = bit_and (read_u8 c.mem (addr + 5)) 0x0F in
    let switching = ltb (dpl (descriptor_for selector c)) (cpl c) in
    let (ss0, esp0) = tss_stack0 c in
    let switched = load_seg ss ss0 c in
    let stacked = if switching then record switched { regs = update switched.regs 4 esp0 } else c in
    let inner = load_seg cs selector stacked in
    let outer =
      if switching then push32 (u32 (c.regs 4)) (push32 (c.selector ss) inner) else inner in
    let framed = push32 (u32 c.rip) (push32 (c.selector cs) (push32 c.flags outer)) in
    let entered = gate_flags (gate_type == 0x6 || gate_type == 0xE) (push_code 32 code framed) in
    invalidate_phys_ip (record entered { rip = target })

-- An entry of 16 bytes. SS and RSP are always pushed, and the stack table is used unconditionally.
unfoldable pub long_int : ℕ → Option ℕ → Cpu → Cpu
long_int vector code c =
    let addr = linear_to_phys_ro (u64 (c.idt_base + vector * 16)) c in
    let selector = read_u16 c.mem (addr + 2) in
    let ist = bit_and (read_u8 c.mem (addr + 4)) 7 in
    let gate_type = bit_and (read_u8 c.mem (addr + 5)) 0x0F in
    let target =
      bit_or (bit_or (read_u16 c.mem addr) (read_u16 c.mem (addr + 6) <<< 16))
        (read_u32 c.mem (addr + 8) <<< 32) in
    let switching = ltb (dpl (descriptor_for selector c)) (cpl c) in
    let null_ss = load_seg ss 0 c in
    let stacked =
      if not (ist == 0)
      then record null_ss { regs = update null_ss.regs 4 (tss_ist ist c) }
      else if switching
      then record null_ss { regs = update null_ss.regs 4 (tss_rsp0 c) }
      else c in
    let inner = load_seg cs selector stacked in
    let aligned = record inner {
      regs = update inner.regs 4 (bit_and (inner.regs 4) (bit_not 64 0xF));
    } in
    let outer = push64 (c.regs 4) (push64 (c.selector ss) aligned) in
    let framed = push64 c.rip (push64 (c.selector cs) (push64 c.flags outer)) in
    let entered = gate_flags (gate_type == 0xE) (push_code 64 code framed) in
    invalidate_phys_ip (record entered { rip = target })

unfoldable pub protected_int_err : ℕ → Option ℕ → Cpu → Cpu
protected_int_err vector code c =
    if long_mode c then long_int vector code c else legacy_int vector code c

-- The returns, in real mode, in long mode and in protected mode.
unfoldable pub iret : Cpu → Cpu
iret c =
    let (ip, c1) = pop16 c in
    let (seg, c2) = pop16 (record c1 { ip = ip }) in
    let (f, c3) = pop16 (set_seg cs seg c2) in
    record c3 { flags = write_flags c3.flags (bit_or (bit_and c3.flags 0xFFFF_0000) f) }

unfoldable pub iretq : Cpu → Cpu
iretq c =
    let (rip, c1) = pop_w 64 c in
    let (seg, c2) = pop_w 64 c1 in
    let (f, c3) = pop_w 64 c2 in
    let (rsp, c4) = pop_w 64 c3 in
    let (stack, c5) = pop_w 64 c4 in
    let loaded = load_seg ss (u16 stack) (load_seg cs (u16 seg) c5) in
    invalidate_phys_ip (record loaded {
      regs = update loaded.regs 4 rsp;
      rip = rip;
      flags = write_flags loaded.flags (u32 f);
    })

unfoldable pub iretd : Cpu → Cpu
iretd c =
    let (eip, c1) = pop32 c in
    let (seg, c2) = pop32 c1 in
    let (f, c3) = pop32 c2 in
    let (esp, c4) = pop32 c3 in
    let (stack, c5) = pop32 c4 in
    let outer = load_seg ss (u16 stack) c5 in
    let left =
      if ltb (cpl c3) (bit_and (u16 seg) 3)
      then record outer { regs = update outer.regs 4 esp }
      else c3 in
    let loaded = load_seg cs (u16 seg) (record left { rip = eip }) in
    invalidate_phys_ip (record loaded { flags = write_flags loaded.flags f })

unfoldable pub iret32 : Cpu → Cpu
iret32 c = if long_mode c then iretq c else iretd c
