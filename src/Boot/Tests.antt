-- ===== src/Boot/Tests.antt =====
-- Runs of the loaders of src/boot.rs, and instances of the theorems.
use cuddles.Base.{
  ℕ, zero, suc, ◌<◌, ◌≤◌, ◌*◌, has_bits, ◌+◌, ◌-◌, ◌^◌, ◌≡◌, ◌≢◌, refl, true, false, none, some,
  List, [], ◌∷◌, ◌==◌, if◌then◌else◌, arith,
}
use cuddles.Memory.{with_size}
use cuddles.Memory.Layout.{with_size-IsValid}
use cuddles.Paging.{PagingMode}
use cuddles.Paging.Long.{translate_mode}
use cuddles.Cpu.{Cpu, mode, long, cr0_pg, efer_lma}
use cuddles.Cpu.Start.{with_ram}
use cuddles.Boot.{
  ok, kernel_info, err, panics, image_too_small, bad_boot_flag, kernel_too_small, headers_past_end,
  le16, le32, le64, le_from, parse_bzimage, load_segments, segment_at,
}
use cuddles.Boot.LongMode.{build_identity_map, enter_long_mode}
use cuddles.Boot.Identity.{translate_mode-build_identity_map}
use cuddles.Boot.Handover.{enter_long_mode-long}
use cuddles.Boot.Enter.{load_kernel, load_elf64_kernel}
use cuddles.Boot.Image.{IsBzImage}
use cuddles.Memory.Frame.{IsBytes}
use cuddles.Boot.Outcomes.{IsHandedOver, load_kernel_outcome, load_elf64_kernel_safe}

abbrev machine : Cpu
machine = with_ram false 0x20_0000

listed : (ℕ → ℕ) → ℕ → ℕ → List ℕ
listed f i zero = []
listed f i (suc left) = f i ∷ listed f (i + 1) left

-- A header with one setup sector and a kernel of 16 bytes, for 1 MiB.
abbrev setup_byte : ℕ → ℕ
setup_byte i =
    if i == 0x1F1
    then 1
    else if i == 0x1F4
    then 1
    else if i == 0x216
    then 0x10
    else if i == 0x1FE
    then 0x55
    else if i == 0x1FF
    then 0xAA
    else if i == 0x202
    then 0x48
    else if i == 0x203
    then 0x64
    else if i == 0x204
    then 0x72
    else if i == 0x205
    then 0x53
    else 0

image_IsBzImage : IsBzImage (listed setup_byte 0 1040)
unfolding listed le16 le32
image_IsBzImage = record {
  header = omega arith;
  boot_flag = refl;
  magic = refl;
  kernel = omega arith;
}

listed-IsBytes : (f : ℕ → ℕ) (i n : ℕ) → ((k : ℕ) → f k < 2 ^ 8) → IsBytes (listed f i n)
unfolding listed
listed-IsBytes f i zero h = tt
listed-IsBytes f i (suc n) h = (h i, listed-IsBytes f (i + 1) n h)

abbrev kernel_image : List ℕ
kernel_image = listed setup_byte 0 1040

small_setup : (k : ℕ) → setup_byte k < 2 ^ 8
small_setup k = ground arith

unpaged_legacy : (has_bits machine.cr0 cr0_pg ≡ false) × (has_bits machine.efer efer_lma ≡ false)
unfolding with_ram
unpaged_legacy = (refl, refl)

placed :
    (2 ^ 20 ≤ le32 kernel_image 0x214)
    × (le32 kernel_image 0x214 + le32 kernel_image 0x1F4 * 16 ≤ machine.mem.low_size)
unfolding listed le32 with_ram with_size
placed = (omega arith, omega arith)

load_kernel_outcome_example :
    (d : Cpu) × (load_kernel kernel_image (b'q' ∷ []) machine ≡ ok (kernel_info kernel_image, d))
    × IsHandedOver kernel_image (b'q' ∷ []) d
unfolding listed with_ram
load_kernel_outcome_example =
    load_kernel_outcome kernel_image (b'q' ∷ []) machine image_IsBzImage (omega arith)
      (listed-IsBytes setup_byte 0 1040 small_setup) (omega arith, tt)
      (with_size-IsValid 0x20_0000 (omega arith)).0 unpaged_legacy.0 unpaged_legacy.1 placed.0
      placed.1

-- The header ends past 0x260 bytes, which is all that is asked for.
image_of : ℕ → List ℕ
unfolding listed
image_of n = listed setup_byte 0 n

refused :
    (parse_bzimage (image_of 0x25F) ≡ err image_too_small)
    × (parse_bzimage (listed (λ i. 0) 0 0x260) ≡ err (bad_boot_flag 0))
    × (parse_bzimage (image_of 0x260) ≡ err kernel_too_small)
unfolding image_of listed parse_bzimage le16 le32
refused = (refl, refl, refl)

-- A file with one program header, at 64, of a segment of one byte.
abbrev elf_byte : ℕ → ℕ
elf_byte i =
    if i == 0
    then 0x7F
    else if i == 1
    then b'E'
    else if i == 2
    then b'L'
    else if i == 3
    then b'F'
    else if i == 4
    then 2
    else if i == 32
    then 64
    else if i == 54
    then 56
    else if i == 56
    then 1
    else if i == 64
    then 1
    else if i == 96
    then 1
    else 0

load_elf64_kernel_safe_example : load_elf64_kernel (listed elf_byte 0 120) [] none machine ≢ panics
unfolding listed le16 le64 le_from segment_at
load_elf64_kernel_safe_example =
    load_elf64_kernel_safe (listed elf_byte 0 120) [] none machine (omega arith, omega arith, tt)

-- An offset of the headers near 2 ^ 64 wraps past the check, and the read is out of range.
wrapped_offset :
    (load_segments (listed elf_byte 0 120) 56 1 (2 ^ 64 - 8) 0 (with_size 0) ≡ panics)
    × (load_segments (listed elf_byte 0 120) 56 1 100 0 (with_size 0) ≡ err headers_past_end)
unfolding listed load_segments
wrapped_offset = (refl, refl)

enter_long_mode-long_example :
    let d = enter_long_mode 0x10_0000 0x20_0000 machine in
    (mode d ≡ long) × (d.rip ≡ 0x10_0000) × (d.regs 4 ≡ 0x20_0000)
unfolding with_ram
enter_long_mode-long_example =
    enter_long_mode-long machine (with_size-IsValid 0x20_0000 (omega arith)).0 0x10_0000 0x20_0000

translate_mode-build_identity_map_example :
    translate_mode
      (build_identity_map (with_size 0x20_0000)).1
      (build_identity_map (with_size 0x20_0000)).0
      0xC012_3456
      PagingMode.long
      true
    ≡ some (record {
      phys = 0xC012_3456;
      writable = true;
      user = false;
      exec = true;
      walk = 0x2000 ∷ 0x3018 ∷ 0x7000 ∷ 0 ∷ [];
      walk_len = 3;
      entry_bytes = 8;
    })
translate_mode-build_identity_map_example =
    translate_mode-build_identity_map (with_size 0x20_0000)
      (with_size-IsValid 0x20_0000 (omega arith)).0 0xC012_3456 true (omega arith)
