-- ===== src/Cpu.antt =====
-- The processor of src/cpu.rs: the register file, the modes, the model-specific registers and the
-- faults. The devices that the source keeps in the same record are in Bus.antt, and a state that
-- only the debugger uses is left out.
pub mod Translate
pub mod Segments
pub mod Fetch
pub mod ModRm
pub mod Registers
pub mod LongMode
pub mod Tlb
pub mod Stack
pub mod Start
mod Tests
use cuddles.Base.{
  ℕ, ◌+◌, ◌-◌, ◌*◌, ◌/◌, ◌%◌, ◌^◌, Bool, true, false, not, ◌&&◌, Option, none, some, bit_and,
  bit_or, ◌==◌, ltb, leb, if◌then◌else◌, ◌<<<◌, ◌>>>◌, bit_not, has_bits, xor, u8, u16, u32, u64,
  update,
}
use cuddles.Memory.{Memory}
use cuddles.Paging.{PagingMode}
use cuddles.Protected.{Descriptor}
use cuddles.Vmx.{Vmx}

pub data SegReg : Type 0 where
  es : SegReg
  cs : SegReg
  ss : SegReg
  ds : SegReg
  fs : SegReg
  gs : SegReg

pub data Mode : Type 0 where
  real : Mode
  protected : Mode
  compat : Mode
  long : Mode

pub record TlbEntry : Type 0 where
  pub valid : Bool
  pub vpage : ℕ
  pub ppage : ℕ
  pub writable : Bool
  pub user : Bool
  pub exec : Bool
  pub dirtied : Bool

-- A vector and its error code, if it has one.
pub record Fault : Type 0 where
  pub vector : ℕ
  pub code : Option ℕ

pub record Cpu : Type 0 where
  pub regs : ℕ → ℕ
  pub selector : SegReg → ℕ
  pub ip : ℕ
  pub rip : ℕ
  pub rip_start : ℕ
  pub ip_start : ℕ
  pub flags : ℕ
  pub mem : Memory
  pub opsize : Bool
  pub addrsize : Bool
  pub addr64 : Bool
  pub rex_present : Bool
  pub rex_w : Bool
  pub rex_r : Bool
  pub rex_x : Bool
  pub rex_b : Bool
  pub seg_override : Option SegReg
  pub pe : Bool
  pub gdt_base : ℕ
  pub gdt_limit : ℕ
  pub idt_base : ℕ
  pub idt_limit : ℕ
  pub tr_selector : ℕ
  pub tr_base : ℕ
  pub tr_limit : ℕ
  pub ldt_selector : ℕ
  pub ldt_base : ℕ
  pub ldt_limit : ℕ
  pub seg_desc : SegReg → Descriptor
  pub cr0 : ℕ
  pub cr2 : ℕ
  pub cr3 : ℕ
  pub cr4 : ℕ
  pub efer : ℕ
  pub star : ℕ
  pub lstar : ℕ
  pub cstar : ℕ
  pub sfmask : ℕ
  pub fs_base : ℕ
  pub gs_base : ℕ
  pub kernel_gs_base : ℕ
  pub sysenter_cs : ℕ
  pub sysenter_esp : ℕ
  pub sysenter_eip : ℕ
  pub feature_control : ℕ  -- of the hypervisor extension
  pub tlb : ℕ → TlbEntry
  pub no_tlb : Bool
  pub phys_ip_cache : ℕ
  pub phys_ip_linear : ℕ
  pub rip_mask : ℕ
  pub phys_ip_valid : Bool
  pub pending_exception : Option Fault
  pub halted : Bool
  pub triple_faulted : Bool
  pub dr : ℕ → ℕ
  pub vmx : Vmx

abbrev pub efer_sce : ℕ
efer_sce = 2 ^ 0

abbrev pub efer_lme : ℕ
efer_lme = 2 ^ 8

abbrev pub efer_lma : ℕ
efer_lma = 2 ^ 10

abbrev pub efer_nxe : ℕ
efer_nxe = 2 ^ 11

abbrev pub cr0_pe : ℕ
cr0_pe = 2 ^ 0

abbrev pub cr0_wp : ℕ
cr0_wp = 2 ^ 16

abbrev pub cr0_pg : ℕ
cr0_pg = 2 ^ 31

abbrev pub cr4_pae : ℕ
cr4_pae = 2 ^ 5

abbrev pub is_some {ℓ} : {A : Type ℓ} → Option A → Bool
is_some none = false
is_some (some a) = true

-- The register file.
unfoldable pub reg_w : ℕ → ℕ → Cpu → ℕ
reg_w i width c =
    let v = c.regs (bit_and i 15) in
    if width == 64
    then v
    else if width == 32
    then bit_and v 0xFFFFFFFF
    else if width == 16
    then bit_and v 0xFFFF
    else bit_and v 0xFF

-- What a write of `width` bits makes of a register.
unfoldable pub merged : ℕ → ℕ → ℕ → ℕ
merged width r v =
    if width == 64
    then v
    else if width == 32
    then bit_and v 0xFFFFFFFF
    else if width == 16
    then bit_or (bit_and r (bit_not 64 0xFFFF)) (bit_and v 0xFFFF)
    else bit_or (bit_and r (bit_not 64 0xFF)) (bit_and v 0xFF)

unfoldable pub set_reg_w_raw : ℕ → ℕ → ℕ → Cpu → Cpu
unfolding merged
set_reg_w_raw i width v c =
    let at = bit_and i 15 in record c { regs = update c.regs at (merged width (c.regs at) v) }

unfoldable pub set_reg_w : ℕ → ℕ → ℕ → Cpu → Cpu
unfolding set_reg_w_raw
set_reg_w i width v c = if is_some c.pending_exception then c else set_reg_w_raw i width v c

-- Indices 4 to 7 name the second byte of the first four registers, unless a REX prefix is there.
unfoldable pub high_named : ℕ → Cpu → Bool
high_named i c = not c.rex_present && (leb 4 i && ltb i 8)

unfoldable pub reg8_idx : ℕ → Cpu → ℕ
unfolding high_named
reg8_idx i c = if high_named i c then u8 (c.regs (i - 4) >>> 8) else u8 (c.regs (bit_and i 15))

unfoldable pub set_reg8_idx : ℕ → ℕ → Cpu → Cpu
unfolding set_reg_w_raw high_named
set_reg8_idx i v c =
    let r = c.regs (i - 4) in
    if is_some c.pending_exception
    then c
    else if high_named i c
    then record c {
      regs = update c.regs (i - 4) (bit_or (bit_and r (bit_not 64 0xFF00)) (v <<< 8));
    }
    else set_reg_w_raw i 8 v c

unfoldable pub invalidate_phys_ip : Cpu → Cpu
invalidate_phys_ip c = record c { phys_ip_valid = false }

unfoldable pub flush_tlb : Cpu → Cpu
unfolding invalidate_phys_ip
flush_tlb c = invalidate_phys_ip (record c { tlb = λ i. record (c.tlb i) { valid = false } })

-- The modes.
unfoldable pub long_mode : Cpu → Bool
long_mode c = has_bits c.efer efer_lma

unfoldable pub long64 : Cpu → Bool
unfolding long_mode
long64 c = long_mode c && (c.seg_desc cs).l

unfoldable pub mode : Cpu → Mode
unfolding long_mode
mode c =
    if not c.pe
    then real
    else if not (long_mode c)
    then protected
    else if (c.seg_desc cs).l
    then long
    else compat

unfoldable pub osize : Cpu → ℕ
osize c = if c.rex_w then 64 else if c.opsize then 32 else 16

unfoldable pub asize : Cpu → ℕ
asize c = if c.addr64 then 64 else if c.addrsize then 32 else 16

unfoldable pub stack_width : Cpu → ℕ
unfolding long64
stack_width c = if long64 c then 64 else if c.opsize then 32 else 16

unfoldable pub paging_mode : Cpu → PagingMode
unfolding long_mode
paging_mode c =
    if not (has_bits c.cr0 cr0_pg)
    then PagingMode.off
    else if long_mode c
    then PagingMode.long
    else if has_bits c.cr4 cr4_pae
    then PagingMode.pae
    else PagingMode.legacy

unfoldable pub update_long_mode : Cpu → Cpu
unfolding flush_tlb
update_long_mode c =
    let want = has_bits c.cr0 cr0_pg && has_bits c.efer efer_lme in
    let have = has_bits c.efer efer_lma in
    let efer' = if want then bit_or c.efer efer_lma else bit_and c.efer (bit_not 64 efer_lma) in
    if xor want have then flush_tlb (record c { efer = efer' }) else c

unfoldable pub write_cr0 : ℕ → Cpu → Cpu
unfolding flush_tlb
write_cr0 v c =
    let old_pg = has_bits c.cr0 cr0_pg in
    let set' = record c { cr0 = v; pe = has_bits v cr0_pe } in
    update_long_mode (if xor old_pg (has_bits v cr0_pg) then flush_tlb set' else set')

-- Faults: the first one of an instruction is kept.
unfoldable pub raise : Fault → Cpu → Cpu
raise f c = if is_some c.pending_exception then c else record c { pending_exception = some f }

unfoldable pub raise_gp : ℕ → Cpu → Cpu
unfolding raise
raise_gp code = raise (record { vector = 0x0D; code = some code })

unfoldable pub raise_ud : Cpu → Cpu
unfolding raise
raise_ud = raise (record { vector = 0x06; code = none })

-- The segment registers.
abbrev pub seg_eq : SegReg → SegReg → Bool
seg_eq es es = true
seg_eq cs cs = true
seg_eq ss ss = true
seg_eq ds ds = true
seg_eq fs fs = true
seg_eq gs gs = true
seg_eq s t = false

unfoldable pub set_seg : SegReg → ℕ → Cpu → Cpu
set_seg s v c = record c { selector = λ t. if seg_eq s t then v else c.selector t }

unfoldable pub cpl : Cpu → ℕ
cpl c = if c.pe then bit_and (c.selector cs) 3 else 0

-- Model-specific registers. `capability` stands for the table of the hypervisor extension.
unfoldable pub read_msr : (ℕ → Option ℕ) → ℕ → Cpu → ℕ
read_msr capability index c =
    if index == 0xC0000080
    then c.efer
    else if index == 0xC0000081
    then c.star
    else if index == 0xC0000082
    then c.lstar
    else if index == 0xC0000083
    then c.cstar
    else if index == 0xC0000084
    then c.sfmask
    else if index == 0xC0000100
    then c.fs_base
    else if index == 0xC0000101
    then c.gs_base
    else if index == 0xC0000102
    then c.kernel_gs_base
    else if index == 0x174
    then c.sysenter_cs
    else if index == 0x175
    then c.sysenter_esp
    else if index == 0x176
    then c.sysenter_eip
    else if index == 0x3A
    then c.feature_control
    else (elim (capability index) [ none ↦ 0 | some v ↦ v ])

-- The bit that locks the feature control register.
abbrev pub feat_locked : ℕ
feat_locked = 2 ^ 0

unfoldable pub write_efer : ℕ → Cpu → Cpu
write_efer value c =
    update_long_mode
      (record c { efer = bit_or (bit_and value (bit_not 64 efer_lma)) (bit_and c.efer efer_lma) })

unfoldable pub write_feature_control : ℕ → Cpu → Cpu
unfolding raise_gp
write_feature_control value c =
    if has_bits c.feature_control feat_locked
    then raise_gp 0 c
    else record c { feature_control = bit_and value 7 }

unfoldable pub write_msr : ℕ → ℕ → Cpu → Cpu
unfolding write_feature_control
write_msr index value c =
    if index == 0xC0000080
    then write_efer value c
    else if index == 0xC0000081
    then record c { star = value }
    else if index == 0xC0000082
    then record c { lstar = value }
    else if index == 0xC0000083
    then record c { cstar = value }
    else if index == 0xC0000084
    then record c { sfmask = value }
    else if index == 0xC0000100
    then record c { fs_base = value }
    else if index == 0xC0000101
    then record c { gs_base = value }
    else if index == 0xC0000102
    then record c { kernel_gs_base = value }
    else if index == 0x174
    then record c { sysenter_cs = u32 value }
    else if index == 0x175
    then record c { sysenter_esp = u32 value }
    else if index == 0x176
    then record c { sysenter_eip = u32 value }
    else if index == 0x3A
    then write_feature_control value c
    else c
