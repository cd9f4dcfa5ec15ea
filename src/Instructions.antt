-- ===== src/Instructions.antt =====
-- What the instructions of src/instructions.rs do to the processor, where it is shared by several of
-- them: the shifts and bit tests of an operand, branches, far pointers, and the parts of a string
-- instruction. The arithmetic of these is in Alu.antt.
pub mod Control
mod Tests
use cuddles.Base.{
  ℕ, zero, suc, ◌+◌, ◌-◌, ◌*◌, ◌/◌, ◌%◌, ◌^◌, Bool, true, false, not, ◌&&◌, bit_and, ◌==◌, ltb,
  if◌then◌else◌, ◌>>>◌, u8, u16, u32, u64, has_bits, testb,
}
use cuddles.Memory.{Memory, read_u8, read_u16, read_u32, write_u8}
use cuddles.Alu.{CF, ZF, get_flag, set_flag}
use cuddles.Alu.Shift.{
  ShiftOp, shift_width, BitOp, test_bit, set_bit, reset_bit, complement_bit, apply_bit, sign_extend,
}
use cuddles.Cpu.{Cpu, SegReg, long64, osize, reg_w, set_reg_w, set_reg_w_raw, is_some}
use cuddles.Cpu.Translate.{linear_addr, straddles, read_w, write_w}
use cuddles.Cpu.Segments.{read_split, write_split, load_seg}
use cuddles.Cpu.ModRm.{ModRm, is_reg, rm_addr, read_rm_w, write_rm_w, modrm_ea32, modrm_offset}

unfoldable pub mem_read_w : ℕ → ℕ → Cpu → ℕ
mem_read_w addr width c = if ltb 8 width then read_w width c.mem addr else read_u8 c.mem addr

unfoldable pub mem_write_w : ℕ → ℕ → ℕ → Cpu → Cpu
mem_write_w addr width v c = record c {
  mem = if ltb 8 width then write_w width addr v c.mem else write_u8 addr (u8 v) c.mem;
}

unfoldable pub str_read : ℕ → SegReg → ℕ → ℕ → Cpu → ℕ × Cpu
str_read phys seg off width c =
    let (split, after) = read_split phys (linear_addr seg off c) (width / 8) c in
    if ltb 8 width && straddles phys (width / 8)
    then (u64 split, after)
    else (mem_read_w phys width c, c)

unfoldable pub str_write : ℕ → SegReg → ℕ → ℕ → ℕ → Cpu → Cpu
str_write phys seg off width v c =
    if ltb 8 width && straddles phys (width / 8)
    then write_split phys (linear_addr seg off c) (width / 8) v c
    else mem_write_w phys width v c

-- `rel` is the displacement as a 64-bit word.
unfoldable pub branch_rel : ℕ → Cpu → Cpu
branch_rel rel c =
    if long64 c
    then record c { rip = u64 (c.rip + rel) }
    else if c.opsize
    then record c { rip = u32 (u32 c.rip + u32 rel) }
    else record c { ip = u16 (c.ip + u16 rel) }

unfoldable pub load_far_pointer : ModRm → SegReg → Cpu → Cpu
load_far_pointer m seg c =
    let (addr, after) = rm_addr m false c in
    if after.opsize
    then load_seg seg (read_u16 after.mem (addr + 4))
        (set_reg_w m.reg 32 (read_u32 after.mem addr) after)
    else load_seg seg (read_u16 after.mem (addr + 2))
        (set_reg_w m.reg 16 (read_u16 after.mem addr) after)

unfoldable pub lea_offset : ModRm → Cpu → ℕ
lea_offset m c = if c.addrsize then (modrm_ea32 m c).0 else modrm_offset m c

unfoldable pub do_shift : ShiftOp → ModRm → ℕ → ℕ → Cpu → Cpu
do_shift op m width n c =
    let (v, after) = read_rm_w m width c in
    let (r, flags') = shift_width op v n width after.flags in
    write_rm_w m width r (record after { flags = flags' })

-- The bit that an instruction names: an immediate, or a register.
pub data BitOffset : Type 0 where
  imm : ℕ → BitOffset
  reg : ℕ → BitOffset

-- As a 64-bit word.
unfoldable pub offset_of : BitOffset → ℕ → Cpu → ℕ
offset_of (imm i) w c = i
offset_of (reg r) w c = sign_extend (reg_w r w c) w

-- The bytes from the operand addressed to the one that has the bit, backwards for a negative offset.
unfoldable pub displacement_of : ℕ → ℕ → ℕ
displacement_of offset w =
    if ltb offset (2 ^ 63)
    then offset / w * (w / 8)
    else u64 (2 ^ 64 - (2 ^ 64 - offset + w - 1) / w * (w / 8))

abbrev pub is_test : BitOp → Bool
is_test test_bit = true
is_test op = false

unfoldable pub bit_op_reg : ModRm → ℕ → BitOp → ℕ → Cpu → Cpu
bit_op_reg m b op w c =
    let v = reg_w m.rm w c in
    let flagged = record c { flags = set_flag CF (testb v b) c.flags } in
    if is_test op then flagged else set_reg_w m.rm w (apply_bit v b op) flagged

unfoldable pub bit_op : ModRm → BitOffset → BitOp → Cpu → Cpu
bit_op m bit op c =
    let w = osize c in
    let offset = offset_of bit w c in
    let b = offset % w in
    let (base, after) = rm_addr m (not (is_test op)) c in
    let addr = u64 (base + displacement_of offset w) in
    let v = read_w w after.mem addr in
    let flagged = record after { flags = set_flag CF (testb v b) after.flags } in
    if is_reg m
    then bit_op_reg m b op w c
    else if is_test op
    then flagged
    else record flagged { mem = write_w w addr (apply_bit v b op) after.mem }

-- The index and count registers of string instructions. A fault pending does not hold them back.
unfoldable pub string_si : ℕ → Cpu → ℕ
string_si asize c = reg_w 6 asize c

unfoldable pub string_di : ℕ → Cpu → ℕ
string_di asize c = reg_w 7 asize c

unfoldable pub string_set_si : ℕ → ℕ → Cpu → Cpu
string_set_si asize v c = set_reg_w_raw 6 asize v c

unfoldable pub string_set_di : ℕ → ℕ → Cpu → Cpu
string_set_di asize v c = set_reg_w_raw 7 asize v c

pub data Rep : Type 0 where
  no_rep : Rep
  repe : Rep
  repne : Rep

abbrev pub string_count : ℕ → Rep → Cpu → ℕ
string_count asize no_rep c = 1
string_count asize repe c = reg_w 1 asize c
string_count asize repne c = reg_w 1 asize c

unfoldable pub string_set_count : ℕ → ℕ → Cpu → Cpu
string_set_count asize v c = set_reg_w_raw 1 asize v c

unfoldable pub string_repeat : Rep → ℕ → Cpu → Bool
string_repeat no_rep remaining c = false
string_repeat repe remaining c = not (remaining == 0) && get_flag ZF c.flags
string_repeat repne remaining c = not (remaining == 0) && not (get_flag ZF c.flags)
