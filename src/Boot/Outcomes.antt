-- ===== src/Boot/Outcomes.antt =====
-- What the loaders of src/boot.rs answer: the images accepted, the state and the memory that a 32-bit
-- kernel starts with, and the images that do not panic.
use cuddles.Base.{
  ℕ, zero, suc, ◌*◌, min, get_or, ap, ◌+◌, ◌^◌, ◌≤◌, ◌<◌, ◌≡◌, ◌≢◌, refl, ◌∙◌, false, Option, List,
  length, ltb, has_bits, arith, u64, max,
}
use cuddles.Memory.{Memory, read_u8}
use cuddles.Memory.Layout.{IsValid}
use cuddles.Memory.Frame.{IsBytes}
use cuddles.Cpu.{Cpu, mode, long_mode, cr0_pg, efer_lma}
use cuddles.Boot.{
  Result, ok, err, panics, le16, le32, le64, KernelInfo, kernel_info, parse_bzimage, write_gdt,
  segment_at, load_segment, load_segments, boot_params_addr, at, cmdline_addr,
}
use cuddles.Boot.Flat.Entry.{IsProtected, enter_protected_mode-IsProtected}
use cuddles.Boot.Enter.{load_kernel, load_elf64_kernel, start_elf64, enter_protected_mode}
use cuddles.Boot.Image.{
  IsBzImage, mapped, mapped-IsValid, kernel_in_place, line_in_place, line_ended,
}

parse_accepts : (image : List ℕ) → IsBzImage image → parse_bzimage image ≡ ok (kernel_info image)
unfolding parse_bzimage
parse_accepts image v = ground (arith, v.header, v.boot_flag, v.magic, v.kernel)

parse_accepted :
    (image : List ℕ) (info : KernelInfo)
    → parse_bzimage image ≡ ok info
    → IsBzImage image × (info ≡ kernel_info image)
unfolding parse_bzimage
parse_accepted image info h = ground (arith, h)

-- A 32-bit kernel at its entry: the processor, the kernel and the command line in memory.
pub record IsHandedOver (image cmdline : List ℕ) (c : Cpu) : Type 0 where
  pub rip : c.rip ≡ le32 image 0x214
  pub params : c.regs 6 ≡ boot_params_addr
  pub stack : c.regs 4 ≡ 0x8FFF0
  pub running : c.halted ≡ false
  pub state : IsProtected c
  pub kernel :
      (i : ℕ)
      → i < le32 image 0x1F4 * 16
      → read_u8 c.mem (le32 image 0x214 + i) ≡ at image ((at image 0x1F1 + 1) * 512 + i)
  pub line :
      (i : ℕ)
      → i < min (length cmdline) 1023
      → read_u8 c.mem (cmdline_addr + i) ≡ get_or cmdline i 0
  pub ended : read_u8 c.mem (cmdline_addr + min (length cmdline) 1023) ≡ 0

started-IsProtected :
    (c : Cpu) (r : ℕ) → IsProtected c → IsProtected (record c { rip = r; halted = false })
unfolding mode long_mode
started-IsProtected c r p = record {
  mode = p.mode;
  pe = p.pe;
  unpaged = p.unpaged;
  segments = p.segments;
  masked = p.masked;
}

entry_registers :
    (c : Cpu)
    → ((enter_protected_mode c).regs 6 ≡ boot_params_addr)
      × ((enter_protected_mode c).regs 4 ≡ 0x8FFF0)
unfolding enter_protected_mode
entry_registers c = (refl, refl)

-- For an image with the boot flag, the magic number and a kernel within the image, of at least
-- 0x2DD bytes, whose kernel fits in low RAM from an address of at least 1 MiB on, on a processor
-- with a valid memory, paging off and long mode inactive: loading succeeds and hands over a
-- running processor in 32-bit protected mode at the image's entry, with CR0.PE set, paging off and
-- interrupts masked, the boot parameters in ESI and the stack set; every segment register has its
-- selector and a present flat 4 GiB segment of privilege level 0, of code for CS and of data for
-- the others. In memory the kernel's bytes are at the entry, and the first 1023 bytes of the
-- command line and a zero at its address.
pub load_kernel_outcome :
    (image cmdline : List ℕ) (c : Cpu)
    → IsBzImage image
    → 0x2DD ≤ length image
    → IsBytes image
    → IsBytes cmdline
    → IsValid c.mem
    → has_bits c.cr0 cr0_pg ≡ false
    → has_bits c.efer efer_lma ≡ false
    → 2 ^ 20 ≤ le32 image 0x214
    → le32 image 0x214 + le32 image 0x1F4 * 16 ≤ c.mem.low_size
    → (d : Cpu) × (load_kernel image cmdline c ≡ ok (kernel_info image, d))
      × IsHandedOver image cmdline d
unfolding load_kernel
load_kernel_outcome image cmdline c v long bytes line valid unpaged legacy high room =
    let m = mapped image cmdline c bytes line valid in
    let set = enter_protected_mode (record c { mem = write_gdt m }) in
    let started : Cpu = record set { rip = le32 image 0x214; halted = false } in
    let fits : ltb (length image) 0x2DD ≡ false = ground (arith, long) in
    let ready = mapped-IsValid image cmdline c bytes line valid v high room in
    let entered = enter_protected_mode-IsProtected c m ready unpaged legacy in
    let registers = entry_registers (record c { mem = write_gdt m }) in
    let kernel = kernel_in_place image cmdline c bytes line valid v high room in
    let at_line = line_in_place image cmdline c bytes line valid v high room in
    let ended = line_ended image cmdline c bytes line valid v high room in
    (
      started,
      rw (load_kernel, parse_accepts image v, fits) refl,
      record {
        rip = refl;
        params = registers.0;
        stack = registers.1;
        running = refl;
        state = started-IsProtected set (le32 image 0x214) entered.0;
        kernel = λ i h. ap (λ x. read_u8 x (le32 image 0x214 + i)) entered.1 ∙ kernel i h;
        line = λ i h. ap (λ x. read_u8 x (cmdline_addr + i)) entered.1 ∙ at_line i h;
        ended = ap (λ x. read_u8 x (cmdline_addr + min (length cmdline) 1023)) entered.1 ∙ ended;
      },
    )

-- The program headers from `off` on, with no sum that passes 2 ^ 64.
abbrev pub IsBounded : List ℕ → ℕ → ℕ → ℕ → Type 0
IsBounded elf size zero off = Unit
IsBounded elf size (suc left) off =
    (off + 56 < 2 ^ 64)
    × ((segment_at elf off).offset + (segment_at elf off).filesz < 2 ^ 64)
    × IsBounded elf size left (u64 (off + size))

load_segments_safe :
    (elf : List ℕ) (size left off top : ℕ) (mem : Memory)
    → IsBounded elf size left off
    → load_segments elf size left off top mem ≢ panics
unfolding load_segments
load_segments_safe elf size zero off top mem b = λ h. cc
load_segments_safe elf size (suc left) off top mem (b, sum, next) =
    let s = segment_at elf off in
    let rest =
      λ (t : ℕ) (m : Memory). load_segments_safe elf size left (u64 (off + size)) t m next in
    λ h.
      ground
        (arith, rest top mem, rest (max top (u64 (s.paddr + s.memsz))) (load_segment elf s mem), h)

start_elf64_safe :
    (entry : ℕ) (cmdline : List ℕ) (initrd : Option (List ℕ)) (c : Cpu) (r : Result (ℕ × Memory))
    → r ≢ panics
    → start_elf64 entry cmdline initrd c r ≢ panics
unfolding start_elf64
start_elf64_safe entry cmdline initrd c (ok _) h = λ e. cc
start_elf64_safe entry cmdline initrd c (err _) h = λ e. cc
start_elf64_safe entry cmdline initrd c panics h = λ e. h refl

-- Where, for each program header of the image, its offset plus 56 and the sum of its segment's
-- offset and size in the file are below 2 ^ 64, loading returns a result or an error and does not
-- panic, whatever the image holds otherwise.
pub load_elf64_kernel_safe :
    (elf cmdline : List ℕ) (initrd : Option (List ℕ)) (c : Cpu)
    → IsBounded elf (le16 elf 54) (le16 elf 56) (le64 elf 32)
    → load_elf64_kernel elf cmdline initrd c ≢ panics
unfolding load_elf64_kernel
load_elf64_kernel_safe elf cmdline initrd c b =
    let mapped = load_segments elf (le16 elf 54) (le16 elf 56) (le64 elf 32) 0 c.mem in
    let safe =
      start_elf64_safe (le64 elf 24) cmdline initrd c mapped
        (load_segments_safe elf (le16 elf 54) (le16 elf 56) (le64 elf 32) 0 c.mem b) in
    λ h. ground (arith, safe, h)
