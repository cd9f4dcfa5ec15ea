-- ===== src/Cpu/Start.antt =====
-- `Cpu::with_ram` of src/cpu.rs: the machine at power-on, with `ram` bytes of memory. `no_tlb` is
-- what the environment asks for.
use cuddles.Base.{ℕ, ◌-◌, ◌^◌, Bool, true, false, none}
use cuddles.Memory.{with_size}
use cuddles.Vmx
use cuddles.Protected.{Descriptor}
use cuddles.Cpu.{Cpu, TlbEntry}

abbrev no_descriptor : Descriptor
no_descriptor = record { base = 0; limit = 0; attr = 0; g = false; d_b = false; l = false }

abbrev empty_entry : TlbEntry
empty_entry = record {
  valid = false;
  vpage = 2 ^ 64 - 1;
  ppage = 0;
  writable = false;
  user = false;
  exec = true;
  dirtied = false;
}

unfoldable pub with_ram : Bool → ℕ → Cpu
with_ram no_tlb ram = record {
  regs = λ i. 0;
  selector = λ s. 0;
  ip = 0;
  rip = 0;
  rip_start = 0;
  ip_start = 0;
  flags = 2;
  mem = with_size ram;
  opsize = false;
  addrsize = false;
  addr64 = false;
  rex_present = false;
  rex_w = false;
  rex_r = false;
  rex_x = false;
  rex_b = false;
  seg_override = none;
  pe = false;
  gdt_base = 0;
  gdt_limit = 0;
  idt_base = 0;
  idt_limit = 0;
  tr_selector = 0;
  tr_base = 0;
  tr_limit = 0;
  ldt_selector = 0;
  ldt_base = 0;
  ldt_limit = 0;
  seg_desc = λ s. no_descriptor;
  cr0 = 0;
  cr2 = 0;
  cr3 = 0;
  cr4 = 0;
  efer = 0;
  star = 0;
  lstar = 0;
  cstar = 0;
  sfmask = 0;
  fs_base = 0;
  gs_base = 0;
  kernel_gs_base = 0;
  sysenter_cs = 0;
  sysenter_esp = 0;
  sysenter_eip = 0;
  feature_control = 0;
  tlb = λ i. empty_entry;
  no_tlb = no_tlb;
  phys_ip_cache = 0;
  phys_ip_linear = 0;
  rip_mask = 0xFFFFFFFF;
  phys_ip_valid = false;
  pending_exception = none;
  halted = false;
  triple_faulted = false;
  dr = λ i. 0;
  vmx = Vmx.new;
}
