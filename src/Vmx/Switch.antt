-- ===== src/Vmx/Switch.antt =====
-- What a guest finds when it is entered again in src/vmx.rs: the state that was saved when it was left.
use cuddles.Base.{ℕ, ◌^◌, ◌<◌, ◌≡◌, bit_and, bit_or, bit_not, true, if◌then◌else◌, u32, has_bits}
use cuddles.Cpu.{Cpu, SegReg, fs, gs, efer_lma, efer_lme, long_mode, write_cr0, flush_tlb}
use cuddles.Vmx.{read}
use cuddles.Vmx.Field
use cuddles.Vmx.Controls.{cr0_fixed0, cr4_fixed0, entry_load_efer}
use cuddles.Alu.{writable_flags, always_set}
use cuddles.Vmx.Guest.{save_guest_state, load_guest_state, entry_efer}

-- The registers of a guest have the widths of the source's.
pub record IsWordSized (c : Cpu) : Type 0 where
  pub rip : c.rip < 2 ^ 64
  pub sp : c.regs 4 < 2 ^ 64
  pub cr3 : c.cr3 < 2 ^ 64
  pub flags : c.flags < 2 ^ 32
  pub dr7 : c.dr 7 < 2 ^ 64
  pub sysenter_cs : c.sysenter_cs < 2 ^ 32
  pub sysenter_esp : c.sysenter_esp < 2 ^ 32
  pub sysenter_eip : c.sysenter_eip < 2 ^ 32
  pub gdt_base : c.gdt_base < 2 ^ 64
  pub gdt_limit : c.gdt_limit < 2 ^ 16
  pub idt_base : c.idt_base < 2 ^ 64
  pub idt_limit : c.idt_limit < 2 ^ 16
  pub ldt_selector : c.ldt_selector < 2 ^ 16
  pub ldt_base : c.ldt_base < 2 ^ 64
  pub ldt_limit : c.ldt_limit < 2 ^ 32
  pub tr_selector : c.tr_selector < 2 ^ 16
  pub tr_base : c.tr_base < 2 ^ 64
  pub tr_limit : c.tr_limit < 2 ^ 32
  pub cr0 : c.cr0 < 2 ^ 32
  pub cr4 : c.cr4 < 2 ^ 32
  pub efer : c.efer < 2 ^ 64
  pub fs_base : c.fs_base < 2 ^ 64
  pub gs_base : c.gs_base < 2 ^ 64
  pub selectors : (s : SegReg) → c.selector s < 2 ^ 16
  pub base : (s : SegReg) → (c.seg_desc s).base < 2 ^ 32
  pub limit : (s : SegReg) → (c.seg_desc s).limit < 2 ^ 32
  pub attr : (s : SegReg) → (c.seg_desc s).attr < 2 ^ 8

-- The base of a segment: FS and GS have theirs apart in long mode.
abbrev pub base_of : SegReg → Cpu → ℕ
base_of fs c = if long_mode c then c.fs_base else (c.seg_desc fs).base
base_of gs c = if long_mode c then c.gs_base else (c.seg_desc gs).base
base_of s c = (c.seg_desc s).base

-- The EFER that paging, which an entry always turns on, leaves of another.
abbrev pub paged_efer : ℕ → ℕ
paged_efer e =
    let off = bit_and e (bit_not 64 efer_lma) in
    if has_bits off efer_lme then bit_or off efer_lma else off

-- The state `g` has all that the area holds of `c`.
pub record IsResumed (c g : Cpu) : Type 0 where
  pub rip : g.rip ≡ c.rip
  pub sp : g.regs 4 ≡ c.regs 4
  pub cr3 : g.cr3 ≡ c.cr3
  pub flags : g.flags ≡ bit_or (bit_and c.flags writable_flags) always_set
  pub dr7 : g.dr 7 ≡ c.dr 7
  pub sysenter_cs : g.sysenter_cs ≡ c.sysenter_cs
  pub sysenter_esp : g.sysenter_esp ≡ c.sysenter_esp
  pub sysenter_eip : g.sysenter_eip ≡ c.sysenter_eip
  pub gdt_base : g.gdt_base ≡ c.gdt_base
  pub gdt_limit : g.gdt_limit ≡ c.gdt_limit
  pub idt_base : g.idt_base ≡ c.idt_base
  pub idt_limit : g.idt_limit ≡ c.idt_limit
  pub ldt_selector : g.ldt_selector ≡ c.ldt_selector
  pub ldt_base : g.ldt_base ≡ c.ldt_base
  pub ldt_limit : g.ldt_limit ≡ c.ldt_limit
  pub tr_selector : g.tr_selector ≡ c.tr_selector
  pub tr_base : g.tr_base ≡ c.tr_base
  pub tr_limit : g.tr_limit ≡ c.tr_limit
  pub halted : g.halted ≡ c.halted
  pub cr0 : g.cr0 ≡ u32 (bit_or c.cr0 cr0_fixed0)
  pub pe : g.pe ≡ true
  pub cr4 : g.cr4 ≡ u32 (bit_or c.cr4 cr4_fixed0)
  pub efer : g.efer ≡ paged_efer c.efer
  pub selector : (s : SegReg) → g.selector s ≡ c.selector s
  pub descriptor : (s : SegReg) → g.seg_desc s ≡ record (c.seg_desc s) { base = u32 (base_of s c) }
  pub fs_base : g.fs_base ≡ base_of fs c
  pub gs_base : g.gs_base ≡ base_of gs c

-- The state before the segments are loaded.
abbrev moded : Cpu → Cpu
moded c =
    let x = c.vmx in
    let masked = record c {
      efer = bit_and (entry_efer c) (bit_not 64 efer_lma);
      cr4 = u32 (bit_or (read Field.guest_cr4 x) cr4_fixed0);
      cr3 = read Field.guest_cr3 x;
    } in
    flush_tlb (write_cr0 (u32 (bit_or (read Field.guest_cr0 x) cr0_fixed0)) masked)

module _ (c : Cpu) (v : IsWordSized c)
    (loads : has_bits (u32 (read Field.entry_ctls c.vmx)) entry_load_efer ≡ true) where
  abbrev left : Cpu
  left = save_guest_state c

  abbrev resumed : Cpu
  resumed = load_guest_state left
