-- ===== src/Fpu.antt =====
-- The floating-point unit of src/fpu.rs. A register is the 64 bits of its number, as `to_bits` gives
-- them and `from_bits` takes them.
pub mod Stack
pub mod Doubles
pub mod Image
pub mod Save
mod Tests
use cuddles.Base.{
  ℕ, zero, suc, ◌+◌, ◌-◌, ◌*◌, ◌/◌, ◌%◌, ◌^◌, Bool, true, false, ◌&&◌, ◌||◌, bit_or, bit_and,
  bit_not, ◌==◌, if◌then◌else◌, ◌<<<◌, ◌>>>◌, u16, u64, update,
}
use cuddles.Memory.{Memory, read_u16, read_u64, write_u16, write_u64}

pub record Fpu : Type 0 where
  pub control : ℕ
  pub status : ℕ
  pub tag : ℕ
  pub st : ℕ → ℕ
  pub top : ℕ

abbrev pub new : Fpu
new = record { control = 0x037F; status = 0; tag = 0xFFFF; st = λ i. 0; top = 0 }

unfoldable pub finit : Fpu → Fpu
finit f = record f { control = 0x037F; status = 0; tag = 0xFFFF; st = λ i. 0; top = 0 }

unfoldable pub st_i : Fpu → ℕ → ℕ
st_i f i = f.st ((f.top + i) % 8)

unfoldable pub set_st_i : ℕ → ℕ → Fpu → Fpu
set_st_i i v f =
    let idx = (f.top + i) % 8 in
    record f { st = update f.st idx v; tag = bit_and f.tag (bit_not 16 (1 <<< idx)) }

unfoldable pub push : ℕ → Fpu → Fpu
push v f =
    let top = (f.top + 7) % 8 in
    record f { top = top; st = update f.st top v; tag = bit_and f.tag (bit_not 16 (1 <<< top)) }

unfoldable pub pop : Fpu → Fpu
pop f = record f { tag = bit_or f.tag (1 <<< f.top); top = (f.top + 1) % 8 }

unfoldable pub fstsw : Fpu → ℕ
fstsw f = f.status

-- The parts of a number, and the exponent and the mantissa that it is saved with.
abbrev pub sign_of : ℕ → ℕ
sign_of bits = bit_and (bits >>> 63) 1

abbrev pub exp_of : ℕ → ℕ
exp_of bits = bit_and (bits >>> 52) 0x7FF

abbrev pub mant_of : ℕ → ℕ
mant_of bits = bit_and bits 0xF_FFFF_FFFF_FFFF

unfoldable pub saved_exp : ℕ → ℕ
saved_exp bits =
    let exp = exp_of bits in
    if exp == 0 && mant_of bits == 0 then 0 else if exp == 0x7FF then 0x7FFF else exp + 16383 - 1023

unfoldable pub saved_mant : ℕ → ℕ
saved_mant bits =
    if exp_of bits == 0 && mant_of bits == 0
    then 0
    else bit_or (u64 (mant_of bits <<< 11)) 0x8000_0000_0000_0000

abbrev pub reg_base : ℕ → ℕ → ℕ
reg_base addr i = addr + 32 + i * 16

unfoldable pub save_reg : ℕ → ℕ → Memory → Memory
save_reg base bits mem =
    write_u16 (base + 10) (sign_of bits <<< 15)
      (write_u16 (base + 8) (saved_exp bits) (write_u64 base (saved_mant bits) mem))

-- The registers from `i` on.
unfoldable pub save_regs : ℕ → ℕ → ℕ → Fpu → Memory → Memory
save_regs zero i addr f mem = mem
save_regs (suc left) i addr f mem =
    save_regs left (i + 1) addr f (save_reg (reg_base addr i) (f.st i) mem)

unfoldable pub fxsave : Fpu → ℕ → Memory → Memory
fxsave f addr mem =
    save_regs 8 0 addr f
      (write_u16 (addr + 4) f.tag (write_u16 (addr + 2) f.status (write_u16 addr f.control mem)))

-- The number that a sign, an exponent and a mantissa restore.
unfoldable pub restored : ℕ → ℕ → ℕ → ℕ
restored sign exp mant =
    let mantissa = bit_and mant 0x7FFF_FFFF_FFFF_FFFF >>> 11 in
    let e64 = u64 (exp + 2 ^ 64 + 1023 - 16383) in
    if exp == 0 || exp == 0x7FFF
    then 0
    else bit_or (bit_or (u64 (sign <<< 63)) (u64 (e64 <<< 52))) mantissa

unfoldable pub restore_reg : Memory → ℕ → ℕ
restore_reg mem base =
    restored (read_u16 mem (base + 10) >>> 15) (read_u16 mem (base + 8)) (read_u64 mem base)

unfoldable pub restore_regs : ℕ → ℕ → ℕ → Memory → Fpu → Fpu
restore_regs zero i addr mem f = f
restore_regs (suc left) i addr mem f =
    restore_regs left (i + 1) addr mem
      (record f { st = update f.st i (restore_reg mem (reg_base addr i)) })

unfoldable pub fxrstor : ℕ → Memory → Fpu → Fpu
fxrstor addr mem f = restore_regs 8 0 addr mem (record f {
  control = read_u16 mem addr;
  status = read_u16 mem (addr + 2);
  tag = read_u16 mem (addr + 4);
})
