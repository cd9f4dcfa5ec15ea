-- ===== src/Boot.antt =====
-- The Linux boot protocol of src/boot.rs: the headers of kernel images and what is refused in them,
-- the structures that a kernel finds in memory, and the images that are loaded.
pub mod LongMode
pub mod Enter
pub mod Tables
pub mod Params
pub mod Identity
pub mod Handover
pub mod Flat
pub mod Image
pub mod Outcomes
mod Tests
use cuddles.Base.{
  ℕ, zero, suc, ◌+◌, ◌-◌, ◌*◌, ◌/◌, ◌%◌, ◌^◌, min, max, Bool, true, false, not, ◌&&◌, ◌||◌, List,
  [], ◌∷◌, length, get_or, take, drop, bit_or, bit_and, ◌==◌, ltb, leb, if◌then◌else◌, ◌<<<◌, ◌>>>◌,
  u8, u32, u64,
}
use cuddles.Memory.{
  Memory, E820Entry, e820_map, mmio_hole_start, write_u8, write_u16, write_u32, write_u64, load,
}

-- The messages of the source.
pub data BootError : Type 0 where
  image_too_small : BootError
  bad_boot_flag : ℕ → BootError
  bad_magic : BootError
  kernel_too_small : BootError
  not_elf : BootError
  not_elf64 : BootError
  no_program_headers : BootError
  headers_past_end : BootError
  segment_past_end : BootError

-- What a loader returns. `panics` is an index past the end of a slice.
pub data Result {ℓ} (A : Type ℓ) : Type ℓ where
  ok : A → Result A
  err : BootError → Result A
  panics : Result A

abbrev pub boot_params_addr : ℕ
boot_params_addr = 0x90000

abbrev pub gdt_addr : ℕ
gdt_addr = 0x1000

abbrev pub cmdline_addr : ℕ
cmdline_addr = 0x20000

abbrev pub setup_sects_at : ℕ
setup_sects_at = 0x1F1

-- `hdr` of the boot parameters, where the fields of the setup header follow one another.
abbrev pub hdr : ℕ → ℕ
hdr field = boot_params_addr + 0x1F1 + (field - setup_sects_at)

abbrev at : List ℕ → ℕ → ℕ
at b off = get_or b off 0

unfoldable pub le16 : List ℕ → ℕ → ℕ
le16 b off = bit_or (at b off) (at b (off + 1) <<< 8)

unfoldable pub le32 : List ℕ → ℕ → ℕ
le32 b off =
    bit_or (bit_or (bit_or (at b off) (at b (off + 1) <<< 8)) (at b (off + 2) <<< 16))
      (at b (off + 3) <<< 24)

-- `for i in i..i + left { v |= (b[off + i] as u64) << (8 * i) }`.
unfoldable pub le_from : List ℕ → ℕ → ℕ → ℕ → ℕ → ℕ
le_from b off zero i v = v
le_from b off (suc left) i v = le_from b off left (i + 1) (bit_or v (at b (off + i) <<< (8 * i)))

unfoldable pub le64 : List ℕ → ℕ → ℕ
unfolding le_from
le64 b off = le_from b off 8 0 0

pub record KernelInfo : Type 0 where
  pub setup_sects : ℕ
  pub syssize : ℕ
  pub code32_start : ℕ
  pub loadflags : ℕ
  pub relocatable : Bool
  pub kernel_alignment : ℕ
  pub pref_address : ℕ
  pub init_size : ℕ
  pub kernel_offset : ℕ
  pub kernel_len : ℕ

abbrev pub kernel_info : List ℕ → KernelInfo
kernel_info image = record {
  setup_sects = at image setup_sects_at;
  syssize = le32 image 0x1F4;
  code32_start = le32 image 0x214;
  loadflags = at image 0x211;
  relocatable = not (at image 0x232 == 0);
  kernel_alignment = le32 image 0x22E;
  pref_address = le64 image 0x250;
  init_size = le32 image 0x258;
  kernel_offset = (at image setup_sects_at + 1) * 512;
  kernel_len = le32 image 0x1F4 * 16;
}

unfoldable pub parse_bzimage : List ℕ → Result KernelInfo
parse_bzimage image =
    let info = kernel_info image in
    if ltb (length image) 0x260
    then err image_too_small
    else if not (le16 image 0x1FE == 0xAA55)
    then err (bad_boot_flag (le16 image 0x1FE))
    else if not (le32 image 0x202 == 0x53726448)
    then err bad_magic
    else if ltb (length image) (info.kernel_offset + info.kernel_len)
    then err kernel_too_small
    else ok info

-- Flat segments for the 32-bit entry.
pub write_gdt : Memory → Memory
write_gdt mem =
    write_u64 (gdt_addr + 16) 0x00CF92000000FFFF
      (write_u64 (gdt_addr + 8) 0x00CF9A000000FFFF (write_u64 gdt_addr 0 mem))

-- `boot_params.screen_info`: mode 3, 80 by 25, colour.
pub write_screen_info : Memory → Memory
write_screen_info mem0 =
    let bp = boot_params_addr in
    let mem1 = write_u8 (bp + 0x01) 0 (write_u8 (bp + 0x00) 0 mem0) in
    let mem2 = write_u8 (bp + 0x06) 3 (write_u16 (bp + 0x04) 0 mem1) in
    let mem3 = write_u16 (bp + 0x0A) 3 (write_u8 (bp + 0x07) 80 mem2) in
    let mem4 = write_u8 (bp + 0x0F) 0x22 (write_u8 (bp + 0x0E) 25 mem3) in
    write_u16 (bp + 0x10) 16 mem4

-- The entries of the map, 20 bytes each, then their number and the memory above 1 MiB.
unfoldable pub write_entries : ℕ → List E820Entry → Memory → Memory
write_entries at [] mem = mem
write_entries at (e ∷ entries) mem =
    write_entries (at + 20) entries
      (write_u32 (at + 16) e.kind (write_u64 (at + 8) e.len (write_u64 at e.base mem)))

unfoldable pub write_e820 : Memory → Memory
unfolding write_entries
write_e820 mem =
    let entries = e820_map mem.ram_size in
    let ext_kb = (min mem.ram_size mmio_hole_start - 0x10_0000) / 1024 in
    write_u32 (boot_params_addr + 0x1E0) (u32 ext_kb) (
      write_u8 (boot_params_addr + 0x1E8) (u8 (length entries))
        (write_entries (boot_params_addr + 0x2D0) entries mem))

-- The bytes of a list, from an address.
unfoldable pub write_list : ℕ → List ℕ → Memory → Memory
write_list addr [] mem = mem
write_list addr (b ∷ bytes) mem = write_list (u64 (addr + 1)) bytes (write_u8 addr b mem)

unfoldable pub write_zeros : ℕ → ℕ → Memory → Memory
write_zeros addr zero mem = mem
write_zeros addr (suc left) mem = write_zeros (u64 (addr + 1)) left (write_u8 addr 0 mem)

-- The command line, ended by a zero and cut to 1023 bytes.
unfoldable pub write_cmdline : List ℕ → Memory → Memory
write_cmdline cl mem =
    let kept = take (min (length cl) 1023) cl in
    write_u8 (cmdline_addr + length kept) 0 (write_list cmdline_addr kept mem)

-- A program header and its segment: the bytes of the file, then zeros.
pub record Segment : Type 0 where
  pub kind : ℕ
  pub offset : ℕ
  pub paddr : ℕ
  pub filesz : ℕ
  pub memsz : ℕ

unfoldable pub segment_at : List ℕ → ℕ → Segment
segment_at elf off = record {
  kind = le32 elf off;
  offset = le64 elf (off + 8);
  paddr = le64 elf (off + 24);
  filesz = le64 elf (off + 32);
  memsz = le64 elf (off + 40);
}

unfoldable pub load_segment : List ℕ → Segment → Memory → Memory
load_segment elf s mem =
    write_zeros (u64 (s.paddr + s.filesz)) (s.memsz - s.filesz)
      (write_list s.paddr (take s.filesz (drop s.offset elf)) mem)

-- The program headers left, the offset of the first of them, their size, and the end of what is
-- loaded so far. An offset that wraps round passes the check and is read all the same.
unfoldable pub load_segments : List ℕ → ℕ → ℕ → ℕ → ℕ → Memory → Result (ℕ × Memory)
load_segments elf size zero off top mem = ok (top, mem)
load_segments elf size (suc left) off top mem =
    let s = segment_at elf off in
    let skipped = load_segments elf size left (u64 (off + size)) top mem in
    let loaded =
      load_segments elf size left (u64 (off + size)) (max top (u64 (s.paddr + s.memsz)))
        (load_segment elf s mem) in
    if ltb (length elf) (u64 (off + 56))
    then err headers_past_end
    else if ltb (length elf) (off + 56)
    then panics
    else if not (s.kind == 1)
    then skipped
    else if ltb (length elf) (u64 (s.offset + s.filesz))
    then err segment_past_end
    else if ltb (length elf) (s.offset + s.filesz) && not (s.filesz == 0)
    then panics
    else loaded

-- The program headers of a 32-bit file, whose ends are not compared with the file's.
unfoldable pub segment32_at : List ℕ → ℕ → Segment
segment32_at elf off = record {
  kind = le32 elf off;
  offset = le32 elf (off + 4);
  paddr = le32 elf (off + 12);
  filesz = le32 elf (off + 16);
  memsz = le32 elf (off + 20);
}

unfoldable pub load_segments32 : List ℕ → ℕ → ℕ → ℕ → Memory → Result Memory
load_segments32 elf size zero off mem = ok mem
load_segments32 elf size (suc left) off mem =
    let s = segment32_at elf off in
    let skipped = load_segments32 elf size left (off + size) mem in
    let loaded = load_segments32 elf size left (off + size) (load_segment elf s mem) in
    if ltb (length elf) (off + 24)
    then panics
    else if not (s.kind == 1)
    then skipped
    else if ltb (length elf) (s.offset + s.filesz) && not (s.filesz == 0)
    then panics
    else loaded

unfoldable pub is_elf : List ℕ → Bool
is_elf elf = at elf 0 == 0x7F && (at elf 1 == b'E' && (at elf 2 == b'L' && at elf 3 == b'F'))
