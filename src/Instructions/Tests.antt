-- ===== src/Instructions/Tests.antt =====
-- Runs of the definitions of Instructions at concrete inputs.
use cuddles.Base.{◌-◌, ◌^◌, ◌≡◌, refl, false, testb}
use cuddles.Cpu.{Cpu, reg_w, set_reg_w, set_reg_w_raw}
use cuddles.Cpu.Start.{with_ram}
use cuddles.Alu.Shift.{sign_extend}
use cuddles.Instructions.{displacement_of}
use cuddles.Instructions.Control.{loop, jcxz, loop_rel, cbw, cwd}

-- Bit 37 lies in the next doubleword, and bit -1 in the one before.
bit_strings : (displacement_of 37 32 ≡ 4) × (displacement_of (2 ^ 64 - 1) 32 ≡ 2 ^ 64 - 4)
unfolding displacement_of
bit_strings = (refl, refl)

-- A processor in real mode, with 0x8001 in its registers.
abbrev counting : Cpu
counting = record (with_ram false 0) { ip = 0x100; regs = λ i. 0x8001 }

-- LOOP ends as its count comes to 0, and JCXZ looks at the count alone.
loops :
    ((loop_rel loop (2 ^ 64 - 16) counting).ip ≡ 0xF0)
    × ((loop_rel loop (2 ^ 64 - 16) (record counting { regs = λ i. 1 })).ip ≡ 0x100)
    × ((loop_rel jcxz 16 (record counting { regs = λ i. 0 })).ip ≡ 0x110)
    × (reg_w 1 16 (loop_rel loop 0 (record counting { regs = λ i. 0 })) ≡ 0xFFFF)
unfolding loop_rel reg_w set_reg_w_raw with_ram
loops = (refl, refl, refl, refl)

extensions :
    ((cbw (record counting { regs = λ i. 0x80 })).regs 0 ≡ 0xFF80)
    × ((cwd counting).regs 2 ≡ 0xFFFF)
unfolding cbw cwd set_reg_w set_reg_w_raw with_ram sign_extend testb
extensions = (refl, refl)
