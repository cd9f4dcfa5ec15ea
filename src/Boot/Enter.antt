-- ===== src/Boot/Enter.antt =====
-- The loaders of src/boot.rs: a kernel or a flat image is put into memory, and the processor into
-- the state that it starts in.
use cuddles.Base.{
  ℕ, ◌+◌, ◌-◌, ◌^◌, min, max, true, false, not, ◌||◌, Option, some, none, List, length, take, drop,
  bit_or, bit_and, bit_not, ◌==◌, ltb, if◌then◌else◌, u32, u64, update,
}
use cuddles.Memory.{Memory, mmio_hole_start, write_u8, write_u32, read_u8, load}
use cuddles.Alu.{IF, set_flag}
use cuddles.Cpu.{Cpu, cs, ds, es, ss, fs, gs}
use cuddles.Cpu.Segments.{load_seg}
use cuddles.Boot.{
  not_elf, not_elf64, no_program_headers, Result, ok, err, panics, boot_params_addr, gdt_addr,
  cmdline_addr, setup_sects_at, hdr, at, le16, le32, le64, KernelInfo, parse_bzimage, write_gdt,
  write_screen_info, write_e820, write_list, write_cmdline, load_segments, load_segments32, is_elf,
}
use cuddles.Boot.LongMode.{identity_map_bytes, enter_long_mode}

abbrev pub kernel_cs : ℕ
kernel_cs = 0x08

abbrev pub kernel_ds : ℕ
kernel_ds = 0x10

-- The ramdisk, as high below the device window as it goes, and the fields that name it.
unfoldable pub place_initrd : Option (List ℕ) → Memory → Memory
place_initrd none mem = mem
place_initrd (some rd) mem =
    let top = min mem.ram_size mmio_hole_start in
    let addr = u32 (bit_and (u64 (top + 2 ^ 64 - length rd)) (bit_not 64 0xFFF)) in
    write_u32 (hdr 0x21C) (u32 (length rd)) (write_u32 (hdr 0x218) addr (write_list addr rd mem))

-- The console, the memory map, the command line, and the loader's type.
unfoldable pub write_params : List ℕ → Memory → Memory
write_params cmdline mem =
    let described = write_cmdline cmdline (write_e820 (write_screen_info mem)) in
    write_u8 (hdr 0x210) 0xFF (write_u32 (hdr 0x228) cmdline_addr described)

-- The flat segments, the stack, ESI and the interrupt flag that a 32-bit kernel starts with.
unfoldable pub enter_protected_mode : Cpu → Cpu
enter_protected_mode c =
    let on = record c { gdt_base = gdt_addr; gdt_limit = 24; pe = true; cr0 = bit_or c.cr0 1 } in
    let code = load_seg ds kernel_ds (load_seg cs kernel_cs on) in
    let stacked = load_seg ss kernel_ds (load_seg es kernel_ds code) in
    let flat = load_seg gs kernel_ds (load_seg fs kernel_ds stacked) in
    record flat {
      regs = update (update flat.regs 4 0x8FFF0) 6 boot_params_addr;
      flags = set_flag IF false flat.flags;
    }

unfoldable pub setup_protected_mode_inner : List ℕ → Cpu → Cpu
setup_protected_mode_inner cmdline c =
    enter_protected_mode (record c { mem = write_gdt (write_params cmdline c.mem) })

unfoldable pub setup_protected_mode_with_initrd : List ℕ → Option (List ℕ) → Cpu → Cpu
setup_protected_mode_with_initrd cmdline initrd c =
    setup_protected_mode_inner cmdline (record c { mem = place_initrd initrd c.mem })

unfoldable pub load_elf_kernel_with_initrd :
    List ℕ → List ℕ → Option (List ℕ) → Cpu → Result (ℕ × Cpu)
load_elf_kernel_with_initrd elf cmdline initrd c =
    let entry = le32 elf 24 in
    let size = le16 elf 42 in
    let number = le16 elf 44 in
    if ltb (length elf) 52 || not (is_elf elf)
    then err not_elf
    else if number == 0 || ltb size 32
    then err no_program_headers
    else (elim (load_segments32 elf size number (le32 elf 28) c.mem) [
      | ok mem ↦
          let set = setup_protected_mode_with_initrd cmdline initrd (record c { mem = mem }) in
          ok (entry, record set { rip = entry; halted = false })
      | err e ↦ err e
      | panics ↦ panics
    ])

-- The stack of a 64-bit kernel whose image ends at `top`.
unfoldable pub stack_above : ℕ → ℕ
stack_above top =
    min (bit_and (u64 (max top 0x10_0000 + 0x10_0000)) (bit_not 64 0xFFF))
      (identity_map_bytes - 0x1000)

-- What follows the segments of a 64-bit kernel.
unfoldable pub start_elf64 :
    ℕ → List ℕ → Option (List ℕ) → Cpu → Result (ℕ × Memory) → Result (ℕ × Cpu)
start_elf64 entry cmdline initrd c (ok (top, mem)) =
    let ready = record c { mem = place_initrd initrd (write_params cmdline mem) } in
    let long = enter_long_mode entry (stack_above top) ready in
    ok (entry, record long { regs = update long.regs 6 boot_params_addr })
start_elf64 entry cmdline initrd c (err e) = err e
start_elf64 entry cmdline initrd c panics = panics

unfoldable pub load_elf64_kernel : List ℕ → List ℕ → Option (List ℕ) → Cpu → Result (ℕ × Cpu)
load_elf64_kernel elf cmdline initrd c =
    let entry = le64 elf 24 in
    let size = le16 elf 54 in
    let number = le16 elf 56 in
    if ltb (length elf) 64 || not (is_elf elf)
    then err not_elf
    else if not (at elf 4 == 2)
    then err not_elf64
    else if number == 0 || ltb size 56
    then err no_program_headers
    else start_elf64 entry cmdline initrd c (load_segments elf size number (le64 elf 32) 0 c.mem)

unfoldable pub load_flat64 : List ℕ → ℕ → Cpu → ℕ × Cpu
load_flat64 code addr c =
    let top = bit_and (u64 (addr + length code + 0x1_0000)) (bit_not 64 0xFFF) in
    let loaded = record c { mem = write_list addr code c.mem } in
    (addr, enter_long_mode addr (min top (identity_map_bytes - 0x1000)) loaded)

-- The header that a bzImage's kernel finds in the boot parameters.
unfoldable pub copy_header : List ℕ → KernelInfo → Memory → Memory
copy_header image info mem =
    let copied =
      write_u8 (hdr 0x210) 0xFF
        (write_list (hdr setup_sects_at) (take 0xEC (drop setup_sects_at image)) mem) in
    let flagged = write_u8 (hdr 0x211) (bit_or (read_u8 copied (hdr 0x211)) 1) copied in
    write_u32 (hdr 0x228) cmdline_addr (write_u32 (hdr 0x214) info.code32_start flagged)

-- The header is copied from 0x1F1 to 0x2DD, which an image that is accepted need not reach.
unfoldable pub load_kernel : List ℕ → List ℕ → Cpu → Result (KernelInfo × Cpu)
load_kernel image cmdline c = elim (parse_bzimage image) [
  | err e ↦ err e
  | panics ↦ panics
  | ok info ↦
      let loaded =
        load info.code32_start (take info.kernel_len (drop info.kernel_offset image)) c.mem in
      let params = write_gdt (write_e820 (write_cmdline cmdline (copy_header image info loaded))) in
      let set = enter_protected_mode (record c { mem = params }) in
      if ltb (length image) (setup_sects_at + 0xEC)
      then panics
      else ok (info, record set { rip = info.code32_start; halted = false })
]
