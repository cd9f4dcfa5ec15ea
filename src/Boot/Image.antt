-- ===== src/Boot/Image.antt =====
-- A kernel image loaded by src/boot.rs: its bytes and the command line in memory, when all that the
-- loader writes has been written.
use cuddles.Base.{
  ℕ, zero, suc, [], ◌∷◌, ◌*◌, min, get_or, length-take, length-drop, ap, ◌+◌, ◌^◌, ◌≤◌, ◌<◌, ◌≡◌,
  refl, ◌∙◌, ◌⊎◌, inl, inr, List, length, arith, take, drop,
}
use cuddles.Memory.{Memory, load, read_u8, write_u8}
use cuddles.Memory.Layout.{IsValid}
use cuddles.Memory.Words.{IsPlain}
use cuddles.Memory.Frame.{
  IsKept, IsKept-trans, IsBytes, take-IsBytes, drop-IsBytes, load-IsKept, load-read, write_u8-read,
  write_u8-IsKept,
}
use cuddles.Cpu.{Cpu}
use cuddles.Boot.{
  le16, le32, KernelInfo, kernel_info, write_gdt, write_e820, write_cmdline, at, cmdline_addr,
  write_list,
}
use cuddles.Boot.Params.{
  IsOffPage, kept-IsPlain, write_list-IsKept, write_list-read, write_e820-IsKept, write_gdt-IsKept,
  write_cmdline-IsKept, copy_header-IsKept,
}
use cuddles.Boot.Tables.{plain}
use cuddles.Boot.Enter.{copy_header}

-- An image that the boot protocol describes, with all of its kernel.
pub record IsBzImage (image : List ℕ) : Type 0 where
  pub header : 0x260 ≤ length image
  pub boot_flag : le16 image 0x1FE ≡ 0xAA55
  pub magic : le32 image 0x202 ≡ 0x53726448
  pub kernel : (kernel_info image).kernel_offset + (kernel_info image).kernel_len ≤ length image

get_or-drop : (k j : ℕ) (xs : List ℕ) → get_or (drop k xs) j 0 ≡ get_or xs (k + j) 0
get_or-drop zero j xs = let e : 0 + j ≡ j = omega arith in rw e refl
get_or-drop (suc k) j [] = refl
get_or-drop (suc k) j (x ∷ xs) =
    let e : suc k + j ≡ suc (k + j) = omega arith in rw e (get_or-drop k j xs)

get_or-take : (n j : ℕ) (xs : List ℕ) → j < n → get_or (take n xs) j 0 ≡ get_or xs j 0
get_or-take zero j xs h = absurd (omega (arith, h))
get_or-take (suc n) j [] h = refl
get_or-take (suc n) zero (x ∷ xs) h = refl
get_or-take (suc n) (suc j) (x ∷ xs) h = get_or-take n j xs (omega (arith, h))

module _ (image cmdline : List ℕ) (c : Cpu) (image_bytes : IsBytes image)
    (line_bytes : IsBytes cmdline) (valid : IsValid c.mem) where
  abbrev info : KernelInfo
  info = kernel_info image

  abbrev kernel_bytes : List ℕ
  kernel_bytes = take info.kernel_len (drop info.kernel_offset image)

  abbrev loaded : Memory
  loaded = load info.code32_start kernel_bytes c.mem

  abbrev headed : Memory
  headed = copy_header image info loaded

  abbrev lined : Memory
  lined = write_cmdline cmdline headed

  abbrev pub mapped : Memory
  mapped = write_e820 lined

  -- A byte off what is written after the kernel is as the kernel's load left it.
  after_load :
      (b : ℕ)
      → b < 2 ^ 64
      → IsValid loaded
      → IsPlain loaded b 1
      → IsOffPage b
      → (b < 0x20000) ⊎ (0x20400 ≤ b)
      → (b < 0x1000) ⊎ (0x1018 ≤ b)
      → IsKept b loaded (write_gdt mapped)
  after_load b hb v p page line table =
      let k1 = copy_header-IsKept b hb image info loaded v image_bytes p page in
      let p1 = kept-IsPlain b loaded headed k1 p in
      let k2 = write_cmdline-IsKept b hb cmdline headed k1.valid line_bytes line in
      let p2 = kept-IsPlain b headed lined k2 p1 in
      let k3 = write_e820-IsKept b hb lined k2.valid p2 page in
      let p3 = kept-IsPlain b lined mapped k3 p2 in
      let k4 = write_gdt-IsKept b hb mapped k3.valid p3 table in
      IsKept-trans b loaded headed _ k1
        (IsKept-trans b headed lined _ k2 (IsKept-trans b lined mapped _ k3 k4))

  -- The command line is as it was written once the rest is.
  after_line :
      (b : ℕ) → 0x20000 ≤ b → b < 0x20400 → IsValid lined → IsKept b lined (write_gdt mapped)
  after_line b low high v =
      let hb : b < 2 ^ 64 = omega (arith, high) in
      let p = plain lined v b 1 (omega (arith, high)) in
      let k3 = write_e820-IsKept b hb lined v p (inl (omega (arith, high))) in
      let k4 =
        write_gdt-IsKept b hb mapped k3.valid (kept-IsPlain b lined mapped k3 p)
          (inr (omega (arith, low))) in
      IsKept-trans b lined mapped _ k3 k4

  module _ (v : IsBzImage image) (high : 2 ^ 20 ≤ le32 image 0x214)
      (room : le32 image 0x214 + le32 image 0x1F4 * 16 ≤ c.mem.low_size) where
    kernel_size : length kernel_bytes ≡ info.kernel_len
    kernel_size = omega (
      arith,
      v.kernel,
      length-take info.kernel_len (drop info.kernel_offset image),
      length-drop info.kernel_offset image,
    )

    within : c.mem.low_size < 2 ^ 32
    within = omega (arith, valid.low)

    kernel_at : IsBytes kernel_bytes
    kernel_at = take-IsBytes info.kernel_len _ (drop-IsBytes info.kernel_offset image image_bytes)

    loaded-IsKept : (b : ℕ) → b < 2 ^ 20 → IsKept b c.mem loaded
    loaded-IsKept b h =
        load-IsKept b info.code32_start kernel_bytes c.mem valid kernel_at
          (omega (arith, kernel_size, room, within)) (omega (arith, h))
          (inl (omega (arith, h, high)))

    loaded-IsValid : IsValid loaded
    loaded-IsValid = (loaded-IsKept 0 (omega arith)).valid

    pub kernel_in_place :
        (i : ℕ)
        → i < info.kernel_len
        → read_u8 (write_gdt mapped) (info.code32_start + i) ≡ at image (info.kernel_offset + i)
    kernel_in_place i h =
        let b = info.code32_start + i in
        let low = (loaded-IsKept 0 (omega arith)).low in
        let p : IsPlain loaded b 1 = (omega (arith, h, room, low), inr (omega (arith, high))) in
        let kept =
          after_load b (omega (arith, h, room, within)) loaded-IsValid p (inr (omega (arith, high)))
            (inr (omega (arith, high))) (inr (omega (arith, high))) in
        let q : IsPlain c.mem info.code32_start (length kernel_bytes) =
          (omega (arith, kernel_size, room), inr (omega (arith, high))) in
        kept.same
        ∙ load-read info.code32_start i kernel_bytes c.mem valid kernel_at
            (omega (arith, kernel_size, room, within)) (omega (arith, h, kernel_size)) q
        ∙ get_or-take info.kernel_len i (drop info.kernel_offset image) h
        ∙ get_or-drop info.kernel_offset i image

    abbrev count : ℕ
    count = min (length cmdline) 1023

    headed-IsValid : IsValid headed
    headed-IsValid =
        (copy_header-IsKept 0 (omega arith) image info loaded loaded-IsValid image_bytes
          (plain loaded loaded-IsValid 0 1 (omega arith)) (inl (omega arith))).valid

    pub mapped-IsValid : IsValid mapped
    mapped-IsValid =
        let lines =
          write_cmdline-IsKept 0 (omega arith) cmdline headed headed-IsValid line_bytes
            (inl (omega arith)) in
        (write_e820-IsKept 0 (omega arith) lined lines.valid
          (plain lined lines.valid 0 1 (omega arith)) (inl (omega arith))).valid

    line-IsKept : (b : ℕ) → 0x20000 ≤ b → b < 0x20400 → IsKept b lined (write_gdt mapped)
    line-IsKept b low below =
        after_line b low below
          (write_cmdline-IsKept 0 (omega arith) cmdline headed headed-IsValid line_bytes
            (inl (omega arith))).valid

    pub line_in_place :
        (i : ℕ) → i < count → read_u8 (write_gdt mapped) (cmdline_addr + i) ≡ get_or cmdline i 0
    unfolding write_cmdline
    line_in_place i h =
        let kept = take count cmdline in
        let size : length kept ≡ count = omega (arith, length-take count cmdline) in
        let list = write_list cmdline_addr kept headed in
        let whole =
          write_list-IsKept 0 cmdline_addr kept headed headed-IsValid
            (take-IsBytes count cmdline line_bytes) (omega (arith, size)) (omega arith)
            (inl (omega arith)) in
        let terminator =
          write_u8-IsKept (cmdline_addr + i) list whole.valid (cmdline_addr + length kept) 0
            (omega (arith, size)) (omega (arith, h)) (omega arith) (inl (omega (arith, h, size))) in
        (line-IsKept (cmdline_addr + i) (omega arith) (omega (arith, h))).same
        ∙ terminator.same
        ∙ write_list-read cmdline_addr i kept headed headed-IsValid
            (take-IsBytes count cmdline line_bytes) (omega (arith, size)) (omega (arith, h, size))
        ∙ get_or-take count i cmdline h

    pub line_ended : read_u8 (write_gdt mapped) (cmdline_addr + count) ≡ 0
    unfolding write_cmdline
    line_ended =
        let kept = take count cmdline in
        let size : length kept ≡ count = omega (arith, length-take count cmdline) in
        let list = write_list cmdline_addr kept headed in
        let whole =
          write_list-IsKept 0 cmdline_addr kept headed headed-IsValid
            (take-IsBytes count cmdline line_bytes) (omega (arith, size)) (omega arith)
            (inl (omega arith)) in
        let end : cmdline_addr + length kept ≡ cmdline_addr + count = omega (arith, size) in
        (line-IsKept (cmdline_addr + count) (omega arith) (omega arith)).same
        ∙ ap (λ x. read_u8 (write_u8 x 0 list) (cmdline_addr + count)) end
        ∙ write_u8-read list whole.valid (cmdline_addr + count) 0
            (plain list whole.valid (cmdline_addr + count) 1 (omega arith)) (omega arith)
            (omega arith)
