-- ===== src/Cpu/ModRm.antt =====
-- The operands of instructions: the ModR/M byte of src/modrm.rs with the bytes that follow it, and
-- the addresses and accesses that src/cpu.rs makes of it.
use cuddles.Base.{
  ℕ, ◌+◌, ◌-◌, ◌*◌, ◌/◌, ◌^◌, Bool, true, false, not, ◌&&◌, ◌||◌, Option, none, some, bit_and,
  bit_or, ◌==◌, ltb, if◌then◌else◌, ◌>>>◌, u8, u16, u32, u64,
}
use cuddles.Memory.{read_u8, write_u8}
use cuddles.Cpu.{Cpu, SegReg, ss, ds, is_some, reg_w, set_reg_w, reg8_idx, set_reg8_idx}
use cuddles.Cpu.Translate.{linear_addr, translate_access, straddles, read_w, write_w}
use cuddles.Cpu.Segments.{read_split, write_split}
use cuddles.Cpu.Fetch.{fetch_u8, fetch_u16, fetch_u32}

pub record ModRm : Type 0 where
  pub mod_field : ℕ
  pub reg : ℕ
  pub rm : ℕ
  pub rm_raw : ℕ
  pub rex_b : Bool
  pub rex_x : Bool
  pub rip_rel : Bool
  pub sib : Option ℕ
  pub disp8 : Option ℕ
  pub disp16 : Option ℕ
  pub disp32 : Option ℕ

unfoldable pub from_byte : ℕ → ModRm
from_byte byte = record {
  mod_field = bit_and (byte >>> 6) 3;
  reg = bit_and (byte >>> 3) 7;
  rm = bit_and byte 7;
  rm_raw = bit_and byte 7;
  rex_b = false;
  rex_x = false;
  rip_rel = false;
  sib = none;
  disp8 = none;
  disp16 = none;
  disp32 = none;
}

unfoldable pub is_reg : ModRm → Bool
is_reg m = m.mod_field == 3

-- A REX bit as the fourth bit of a register index.
abbrev pub extend : Bool → ℕ → ℕ
extend rex i = bit_or i (if rex then 8 else 0)

-- The `n`-bit number `v`, sign-extended to `width` bits.
abbrev pub sign_extend : ℕ → ℕ → ℕ → ℕ
sign_extend n width v = if ltb v (2 ^ (n - 1)) then v else v + 2 ^ width - 2 ^ n

abbrev pub base_is_5 : Option ℕ → Bool
base_is_5 none = false
base_is_5 (some s) = bit_and s 7 == 5

-- The displacements of the 32-bit and the 16-bit form.
unfoldable pub fetch_disp32 : ModRm → Cpu → ModRm × Cpu
fetch_disp32 m c =
    let (word, c32) = fetch_u32 c in
    let (byte, c8) = fetch_u8 c in
    let relative = m.rip_rel || (m.rm_raw == 5 && c.addr64) in
    if m.mod_field == 0
    then (if m.rm_raw == 5 || base_is_5 m.sib
        then (record m { rip_rel = relative; disp32 = some word }, c32)
        else (m, c))
    else if m.mod_field == 1
    then (record m { disp32 = some (sign_extend 8 32 byte) }, c8)
    else if m.mod_field == 2
    then (record m { disp32 = some word }, c32)
    else (m, c)

unfoldable pub fetch_disp16 : ModRm → Cpu → ModRm × Cpu
fetch_disp16 m c =
    let (word, c16) = fetch_u16 c in
    let (byte, c8) = fetch_u8 c in
    if m.mod_field == 0
    then (if m.rm_raw == 6 then (record m { disp16 = some word }, c16) else (m, c))
    else if m.mod_field == 1
    then (record m { disp8 = some (sign_extend 8 16 byte) }, c8)
    else if m.mod_field == 2
    then (record m { disp16 = some word }, c16)
    else (m, c)

unfoldable pub fetch_sib : ModRm → Cpu → ModRm × Cpu
fetch_sib m c =
    let (byte, after) = fetch_u8 c in
    if not (m.mod_field == 3) && m.rm_raw == 4
    then (record m { sib = some byte }, after)
    else (m, c)

unfoldable pub fetch_modrm : Cpu → ModRm × Cpu
fetch_modrm c =
    let (byte, after) = fetch_u8 c in
    let plain = from_byte byte in
    let m = record plain {
      rex_b = after.rex_b;
      rex_x = after.rex_x;
      reg = extend after.rex_r plain.reg;
      rm = if plain.mod_field == 3 then extend after.rex_b plain.rm else plain.rm;
    } in
    let (with_sib, after_sib) = fetch_sib m after in
    if after.addrsize then fetch_disp32 with_sib after_sib else fetch_disp16 m after

abbrev pub operand_seg : SegReg → Option SegReg → SegReg
operand_seg default none = default
operand_seg default (some s) = s

-- The registers of a 16-bit operand: BX, BP, SI and DI, by the three bits as encoded.
unfoldable pub base16 : ℕ → Cpu → ℕ
base16 rm_raw c =
    if rm_raw == 0
    then u16 (u16 (c.regs 3) + u16 (c.regs 6))
    else if rm_raw == 1
    then u16 (u16 (c.regs 3) + u16 (c.regs 7))
    else if rm_raw == 2
    then u16 (u16 (c.regs 5) + u16 (c.regs 6))
    else if rm_raw == 3
    then u16 (u16 (c.regs 5) + u16 (c.regs 7))
    else if rm_raw == 4
    then u16 (c.regs 6)
    else if rm_raw == 5
    then u16 (c.regs 7)
    else if rm_raw == 6
    then u16 (c.regs 5)
    else u16 (c.regs 3)

abbrev pub plus : ℕ → Option ℕ → ℕ
plus ea none = ea
plus ea (some d) = u32 (ea + d)

unfoldable pub modrm_offset : ModRm → Cpu → ℕ
modrm_offset m c = plus (plus (base16 m.rm_raw c) m.disp8) m.disp16

abbrev pub default16 : ℕ → SegReg
default16 rm_raw = if rm_raw == 2 || (rm_raw == 3 || rm_raw == 6) then ss else ds

-- The 32/64-bit form: a register at the address size, the base without SIB and the sum with it.
abbrev pub address_reg : Cpu → ℕ → ℕ
address_reg c i = if c.addr64 then c.regs (bit_and i 15) else u32 (c.regs (bit_and i 15))

abbrev pub stack_base : ℕ → SegReg
stack_base raw = if raw == 4 || raw == 5 then ss else ds

unfoldable pub based : Cpu → ModRm → ℕ → ℕ × SegReg
based c m raw =
    if m.mod_field == 0 && raw == 5
    then (0, ds)
    else (address_reg c (extend m.rex_b raw), stack_base raw)

unfoldable pub indexed : Cpu → ModRm → ℕ → ℕ
indexed c m sib =
    let raw = bit_and (sib >>> 3) 7 in
    let scale = 2 ^ bit_and (sib >>> 6) 3 in
    if not (raw == 4) || m.rex_x then u64 (address_reg c (extend m.rex_x raw) * scale) else 0

unfoldable pub sum_of : Cpu → ModRm → Option ℕ → ℕ × SegReg
sum_of c m none = based c m m.rm_raw
sum_of c m (some sib) =
    let (base, seg) = based c m (bit_and sib 7) in (u64 (indexed c m sib + base), seg)

abbrev pub displacement : Option ℕ → ℕ
displacement none = 0
displacement (some d) = sign_extend 32 64 d

unfoldable pub modrm_ea32 : ModRm → Cpu → ℕ × SegReg
modrm_ea32 m c =
    let (ea, seg) = sum_of c m m.sib in
    let moved = u64 (ea + displacement m.disp32) in
    if m.rip_rel
    then (u64 (c.rip + displacement m.disp32), ds)
    else ((if c.addr64 then moved else u32 moved), seg)

-- The offset and segment of an operand, before an override, at either address size.
unfoldable pub operand : ModRm → Cpu → ℕ × SegReg
operand m c = if c.addrsize then modrm_ea32 m c else (modrm_offset m c, default16 m.rm_raw)

unfoldable pub modrm_linear : ModRm → Cpu → ℕ
modrm_linear m c = let (ea, seg) = operand m c in linear_addr (operand_seg seg c.seg_override) ea c

unfoldable pub rm_addr : ModRm → Bool → Cpu → ℕ × Cpu
rm_addr m write c =
    let (ea, seg) = operand m c in translate_access (operand_seg seg c.seg_override) ea write c

unfoldable pub read_rm_w : ModRm → ℕ → Cpu → ℕ × Cpu
read_rm_w m width c =
    let (addr, after) = rm_addr m false c in
    let (split, after_split) = read_split addr (modrm_linear m after) (width / 8) after in
    if is_reg m
    then ((if width == 8 then reg8_idx m.rm c else reg_w m.rm width c), c)
    else if ltb 8 width && straddles addr (width / 8)
    then (if is_some after.pending_exception then (0, after) else (u64 split, after_split))
    else ((if ltb 8 width then read_w width after.mem addr else read_u8 after.mem addr), after)

unfoldable pub write_rm_w : ModRm → ℕ → ℕ → Cpu → Cpu
write_rm_w m width val c =
    let (addr, after) = rm_addr m true c in
    let stored =
      if ltb 8 width then write_w width addr val after.mem else write_u8 addr (u8 val) after.mem in
    if is_some c.pending_exception
    then c
    else if is_reg m
    then (if width == 8 then set_reg8_idx m.rm (u8 val) c else set_reg_w m.rm width val c)
    else if is_some after.pending_exception
    then after
    else if ltb 8 width && straddles addr (width / 8)
    then write_split addr (modrm_linear m after) (width / 8) val after
    else record after { mem = stored }
