-- ===== src/Interrupts/Tests.antt =====
-- Instances of the theorems on interrupts.
use cuddles.Base.{◌+◌, ◌^◌, ◌≡◌, refl, inl, true, false, none, some, [], arith, testb}
use cuddles.Memory.Layout.{with_size-IsValid}
use cuddles.Memory.{with_size}
use cuddles.Cpu.{Cpu, cs}
use cuddles.Cpu.Start.{with_ram}
use cuddles.Interrupts.{real_int, iret}
use cuddles.Interrupts.Dispatch.{dispatch_exception_raw, contributory, escalates}
use cuddles.Interrupts.Laws.{HasStack, iret-real_int}
use cuddles.Interrupts.Escalation.{dispatch_exception_raw_enough}
use cuddles.Pit
use cuddles.Pic
use cuddles.Pic.{raise_irq, set_bit}
use cuddles.Pic.Valid.{new-IsValid}
use cuddles.Pic.Scan.{first_ready, order}
use cuddles.Kbd
use cuddles.Dma
use cuddles.Ide
use cuddles.Vga
use cuddles.Virtio
use cuddles.Alu.{get_flag}
use cuddles.Bus.{Bus, poll}
use cuddles.Interrupts.Hardware.{deliver_hardware_interrupt, exit_info}
use cuddles.Interrupts.Priority.{served, deliver_hardware_interrupt_lem}

-- A page fault while a page fault is delivered is a double fault; one during a divide error is not.
classes :
    (escalates 0x0E 0x0E ≡ true)
    × (escalates 0x0D 0x0B ≡ true)
    × (escalates 0x00 0x0E ≡ false)
    × (contributory 0x08 ≡ false)
unfolding escalates contributory
classes = (refl, refl, refl, refl)

-- A program in real mode, with interrupts on.
abbrev program : Cpu
program = record (with_ram false 0x20_0000) { regs = λ i. 0x7C00; ip = 0x1234; flags = 0x0202 }

program-HasStack : HasStack program
unfolding with_ram with_size
program-HasStack = record {
  real = refl;
  valid = (with_size-IsValid 0x20_0000 (omega arith)).0;
  sp = omega arith;
  room = omega arith;
  low = omega arith;
  plain = (omega arith, inl (omega arith));
}

iret-real_int_example :
    let r = iret (real_int 8 program) in
    (r.ip ≡ 0x1234)
    × (r.selector cs ≡ 0)
    × (r.flags ≡ 0x0202)
    × (r.regs 4 ≡ 0x7C00)
    × (r.mem ≡ (real_int 8 program).mem)
unfolding with_ram testb
iret-real_int_example =
    iret-real_int 8 program program-HasStack (omega arith) (omega arith) (omega arith) refl

dispatch_exception_raw_enough_example :
    dispatch_exception_raw 7 0x0E (some 2) (with_ram false 0)
    ≡ dispatch_exception_raw 2 0x0E (some 2) (with_ram false 0)
dispatch_exception_raw_enough_example =
    dispatch_exception_raw_enough 5 0x0E (some 2) (with_ram false 0)

-- A key was pressed.
abbrev devices : Bus
devices = record {
  mem = with_size 0x20_0000;
  pit = Pit.new;
  pic = Pic.new;
  vga = Vga.new;
  kbd = record Kbd.new { irq1 = true };
  dma = Dma.new;
  cmos = record { index = 0; ram = λ i. 0; epoch_secs = 0; elapsed_secs = 7; nmi_disabled = false };
  ide = Ide.new;
  pci = record { address = 0; slots = λ i. none };
  virtio = Virtio.new;
  vga_retrace = false;
  pit_subsecond = 0;
  key_script = [];
  key_next = 0;
  instructions_executed = 64;
}

deliver_hardware_interrupt_lem_example :
    (deliver_hardware_interrupt program devices).1
    ≡ served program (poll devices).pic (first_ready (poll devices).pic order)
unfolding with_ram get_flag
deliver_hardware_interrupt_lem_example =
    deliver_hardware_interrupt_lem program devices new-IsValid refl

-- An interrupt is not taken while IF is clear, nor between two polls.
held_back :
    ((deliver_hardware_interrupt (record program { flags = 2 }) devices).1
      ≡ record program { flags = 2 })
    × ((deliver_hardware_interrupt program (record devices { instructions_executed = 65 })).1
        ≡ program)
    × (exit_info (some 0x21) ≡ 2 ^ 31 + 0x21)
unfolding deliver_hardware_interrupt get_flag with_ram
held_back = (refl, refl, refl)
