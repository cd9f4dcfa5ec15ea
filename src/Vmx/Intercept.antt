-- ===== src/Vmx/Intercept.antt =====
-- `intercept` of src/vmx.rs: which instructions of a guest leave it, or are done with its shadows.
use cuddles.Base.{
  ℕ, Bool, true, false, not, ◌&&◌, ◌||◌, bit_or, bit_and, ◌==◌, if◌then◌else◌, ◌<<<◌, u16, u32,
  has_bits,
}
use Prim.Native.Nat.{bit_xor}
use cuddles.Cpu.{Cpu, long_mode, osize, raise_ud, set_reg_w, is_some}
use cuddles.Cpu.ModRm.{ModRm, is_reg, modrm_linear, read_rm_w}
use cuddles.Vmx.{read, cr_qual}
use cuddles.Vmx.Field
use cuddles.Vmx.Reason
use cuddles.Vmx.Controls.{
  cpu_secondary_controls, cpu_hlt_exiting, cpu_invlpg_exiting, cpu_rdtsc_exiting,
  cpu_use_msr_bitmaps, cpu_cr3_store_exiting, cpu_cr8_store_exiting, cpu_mov_dr_exiting,
  cpu_mwait_exiting, cpu_monitor_exiting, cpu_pause_exiting, cpu2_rdtscp, cpu2_wbinvd_exiting,
}
use cuddles.Vmx.Execute.{
  VmxOp, vmxon, vmxoff, vmclear, vmptrld, vmptrst, vmread, vmwrite, vmlaunch, vmresume, vmcall,
  invept, invvpid,
}
use cuddles.Vmx.Exits.{vm_exit, cr_write_intercept, shadowed, io_intercept, msr_bitmap_hit}

-- The instructions that a hypervisor may see. A byte port access has size 1, and a port in the
-- instruction is an immediate one.
pub data Intercepted : Type 0 where
  cpuid : Intercepted
  vmx : VmxOp → Intercepted
  xsetbv : Intercepted
  hlt : Intercepted
  invlpg : ModRm → Intercepted
  rdtsc : Intercepted
  rdtscp : Intercepted
  rdmsr : Intercepted
  wrmsr : Intercepted
  mov_to_cr : ℕ → ℕ → Intercepted
  mov_cr : ℕ → ℕ → Intercepted
  clts : Intercepted
  lmsw : ModRm → Intercepted
  mov_dr : ℕ → ℕ → Intercepted
  mov_to_dr : ℕ → ℕ → Intercepted
  port_imm : Bool → Bool → ℕ → Intercepted
  port_dx : Bool → Bool → Intercepted
  invd : Intercepted
  wbinvd : Intercepted
  mwait : Intercepted
  monitor : Intercepted
  pause : Intercepted
  other : Intercepted

unfoldable pub reason_of : VmxOp → ℕ
reason_of vmcall = Reason.vmcall
reason_of vmclear = Reason.vmclear
reason_of vmlaunch = Reason.vmlaunch
reason_of vmptrld = Reason.vmptrld
reason_of vmptrst = Reason.vmptrst
reason_of vmread = Reason.vmread
reason_of vmresume = Reason.vmresume
reason_of vmwrite = Reason.vmwrite
reason_of vmxoff = Reason.vmxoff
reason_of vmxon = Reason.vmxon
reason_of invept = Reason.invept
reason_of invvpid = Reason.invvpid

abbrev pub leave : ℕ → ℕ → Cpu → Cpu × Bool
leave reason qualification c = (vm_exit reason qualification 0 0 c, true)

abbrev pub leave_if : Bool → ℕ → ℕ → Cpu → Cpu × Bool
leave_if on reason qualification c = if on then leave reason qualification c else (c, false)

-- MOV from a control register.
unfoldable pub mov_cr_intercept : ℕ → ℕ → ℕ → Cpu → Cpu × Bool
mov_cr_intercept cr reg ctl c =
    if cr == 3
    then leave_if (has_bits ctl cpu_cr3_store_exiting) Reason.cr_access (cr_qual 3 1 reg 0) c
    else if cr == 8
    then leave_if (has_bits ctl cpu_cr8_store_exiting) Reason.cr_access (cr_qual 8 1 reg 0) c
    else if cr == 0 || cr == 4
    then (set_reg_w reg (if long_mode c then 64 else 32) (shadowed cr c) c, true)
    else (c, false)

unfoldable pub clts_intercept : Cpu → Cpu × Bool
clts_intercept c =
    let mask = read Field.cr0_guest_host_mask c.vmx in
    let shadow = read Field.cr0_read_shadow c.vmx in
    leave_if (has_bits mask 8 && has_bits shadow 8) Reason.cr_access (cr_qual 0 2 0 0) c

unfoldable pub lmsw_intercept : ModRm → Cpu → Cpu × Bool
lmsw_intercept m c =
    let mask = read Field.cr0_guest_host_mask c.vmx in
    let shadow = read Field.cr0_read_shadow c.vmx in
    let (v, after) = read_rm_w m 16 c in
    let new = bit_or (bit_and v 0xF) (bit_and after.cr0 1) in
    let touched = bit_and (bit_and (bit_xor new shadow) mask) 0xF in
    let q = bit_or (cr_qual 0 3 0 (if is_reg m then 0 else 1)) (bit_and v 0xFFFF <<< 16) in
    if is_some after.pending_exception
    then (after, true)
    else leave_if (not (touched == 0)) Reason.cr_access q after

abbrev dr_qual : ℕ → ℕ → ℕ → ℕ
dr_qual dr reg dir = bit_or (bit_or dr (dir <<< 4)) (reg <<< 8)

abbrev port_size : Bool → Cpu → ℕ
port_size byte c = if byte then 1 else if osize c == 16 then 2 else 4

abbrev msr_exits : Bool → ℕ → Cpu → Bool
msr_exits write ctl c =
    if has_bits ctl cpu_use_msr_bitmaps then msr_bitmap_hit (u32 (c.regs 1)) write c else true

-- The state after the instruction, and whether it was handled here.
unfoldable pub intercept_with : ℕ → ℕ → Intercepted → Cpu → Cpu × Bool
intercept_with ctl ctl2 cpuid c = leave Reason.cpuid 0 c
intercept_with ctl ctl2 (vmx op) c = leave (reason_of op) 0 c
intercept_with ctl ctl2 xsetbv c = leave Reason.xsetbv 0 c
intercept_with ctl ctl2 hlt c = leave_if (has_bits ctl cpu_hlt_exiting) Reason.hlt 0 c
intercept_with ctl ctl2 (invlpg m) c =
    leave_if (has_bits ctl cpu_invlpg_exiting) Reason.invlpg (modrm_linear m c) c
intercept_with ctl ctl2 rdtsc c = leave_if (has_bits ctl cpu_rdtsc_exiting) Reason.rdtsc 0 c
intercept_with ctl ctl2 rdtscp c =
    if has_bits ctl cpu_rdtsc_exiting
    then leave Reason.rdtscp 0 c
    else if bit_and ctl2 cpu2_rdtscp == 0
    then (raise_ud c, true)
    else (c, false)
intercept_with ctl ctl2 rdmsr c = leave_if (msr_exits false ctl c) Reason.rdmsr 0 c
intercept_with ctl ctl2 wrmsr c = leave_if (msr_exits true ctl c) Reason.wrmsr 0 c
intercept_with ctl ctl2 (mov_to_cr cr reg) c = cr_write_intercept cr reg ctl c
intercept_with ctl ctl2 (mov_cr cr reg) c = mov_cr_intercept cr reg ctl c
intercept_with ctl ctl2 clts c = clts_intercept c
intercept_with ctl ctl2 (lmsw m) c = lmsw_intercept m c
intercept_with ctl ctl2 (mov_dr dr reg) c =
    leave_if (has_bits ctl cpu_mov_dr_exiting) Reason.dr_access (dr_qual dr reg 1) c
intercept_with ctl ctl2 (mov_to_dr dr reg) c =
    leave_if (has_bits ctl cpu_mov_dr_exiting) Reason.dr_access (dr_qual dr reg 0) c
intercept_with ctl ctl2 (port_imm input byte port) c =
    io_intercept port (port_size byte c) input true ctl c
intercept_with ctl ctl2 (port_dx input byte) c =
    io_intercept (u16 (c.regs 2)) (port_size byte c) input false ctl c
intercept_with ctl ctl2 invd c = leave Reason.invd 0 c
intercept_with ctl ctl2 wbinvd c = leave_if (has_bits ctl2 cpu2_wbinvd_exiting) Reason.wbinvd 0 c
intercept_with ctl ctl2 mwait c = leave_if (has_bits ctl cpu_mwait_exiting) Reason.mwait 0 c
intercept_with ctl ctl2 monitor c = leave_if (has_bits ctl cpu_monitor_exiting) Reason.monitor 0 c
intercept_with ctl ctl2 pause c = leave_if (has_bits ctl cpu_pause_exiting) Reason.pause 0 c
intercept_with ctl ctl2 other c = (c, false)

unfoldable pub intercept : Intercepted → Cpu → Cpu × Bool
intercept inst c =
    let ctl = u32 (read Field.cpu_ctls c.vmx) in
    let ctl2 =
      if has_bits ctl cpu_secondary_controls then u32 (read Field.cpu_ctls2 c.vmx) else 0 in
    intercept_with ctl ctl2 inst c
