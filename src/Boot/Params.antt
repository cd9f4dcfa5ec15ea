-- ===== src/Boot/Params.antt =====
-- What the boot parameters, the command line and the descriptor table of src/boot.rs leave alone in
-- memory, and the command line in it.
use cuddles.Base.{
  ℕ, zero, suc, ◌+◌, ◌*◌, ◌^◌, ◌≤◌, ◌<◌, ◌≡◌, ◌∙◌, ◌⊎◌, inl, List, [], ◌∷◌, length, get_or, arith,
  u8, u64, take, drop, min, bit_or, bit_or-lt, length-take,
}
use cuddles.Memory.{Memory, E820Entry, e820_map, read_u8, write_u8, write_u32, write_u64}
use cuddles.Memory.Layout.{IsValid, length-e820_map}
use cuddles.Memory.Bytes.{write_u8-IsValid, read_u8-lt}
use cuddles.Memory.Words.{IsPlain}
use cuddles.Memory.Frame.{
  IsKept, IsKept-refl, IsKept-trans, write_u8-IsKept, write_u32-IsKept, write_u64-IsKept, IsBytes,
  write_u8-read, take-IsBytes, drop-IsBytes,
}
use cuddles.Boot.{
  KernelInfo, write_entries, write_e820, write_list, write_cmdline, write_gdt, boot_params_addr,
  gdt_addr, cmdline_addr, hdr, setup_sects_at,
}
use cuddles.Boot.Enter.{copy_header}
use cuddles.Boot.Tables.{plain}

-- The page of the boot parameters.
abbrev pub IsOffPage : ℕ → Type 0
IsOffPage b = (b < 0x90000) ⊎ (0x91000 ≤ b)

pub kept-IsPlain : (b : ℕ) (m n : Memory) → IsKept b m n → IsPlain m b 1 → IsPlain n b 1
kept-IsPlain b m n k p = (omega (arith, p.0, k.low), p.1)

pub write_list-IsKept :
    (b a : ℕ) (xs : List ℕ) (m : Memory)
    → IsValid m
    → IsBytes xs
    → a + length xs < 2 ^ 64
    → b < 2 ^ 64
    → (b < a) ⊎ (a + length xs ≤ b)
    → IsKept b m (write_list a xs m)
unfolding write_list
write_list-IsKept b a [] m v h room hb apart = IsKept-refl b m v
write_list-IsKept b a (x ∷ xs) m v (h, hs) room hb apart =
    let here : u64 (a + 1) ≡ a + 1 = omega arith in
    let first = write_u8-IsKept b m v a x (omega arith) hb h (ground arith) in
    let rest =
      write_list-IsKept b (a + 1) xs (write_u8 a x m) first.valid hs (omega arith) hb
        (ground arith) in
    rw here (IsKept-trans b m (write_u8 a x m) _ first rest)

pub write_list-read :
    (a j : ℕ) (xs : List ℕ) (m : Memory)
    → IsValid m
    → IsBytes xs
    → a + length xs ≤ 0xB8000
    → j < length xs
    → read_u8 (write_list a xs m) (a + j) ≡ get_or xs j 0
unfolding write_list
write_list-read a j [] m v h room inside = absurd (omega arith)
write_list-read a zero (x ∷ xs) m v (h, hs) room inside =
    let here : u64 (a + 1) ≡ a + 1 = omega arith in
    let at : a + 0 ≡ a = omega arith in
    let v1 = write_u8-IsValid a x m v h in
    let rest =
      write_list-IsKept a (a + 1) xs (write_u8 a x m) v1 hs (omega arith) (omega arith)
        (inl (omega arith)) in
    rw (here, at) (rest.same ∙ write_u8-read m v a x (plain m v a 1 (omega arith)) (omega arith) h)
write_list-read a (suc j) (x ∷ xs) m v (h, hs) room inside =
    let here : u64 (a + 1) ≡ a + 1 = omega arith in
    let at : a + 1 + j ≡ a + suc j = omega arith in
    let v1 = write_u8-IsValid a x m v h in
    rw here
      (rw (← at) (write_list-read (a + 1) j xs (write_u8 a x m) v1 hs (omega arith) (omega arith)))

module _ (b : ℕ) (hb : b < 2 ^ 64) where
  write_entries-IsKept :
      (a : ℕ) (es : List E820Entry) (m : Memory)
      → IsValid m
      → IsPlain m b 1
      → 0x90000 ≤ a
      → a + 20 * length es ≤ 0x91000
      → IsOffPage b
      → IsKept b m (write_entries a es m)
  unfolding write_entries
  write_entries-IsKept a [] m v p low room off = IsKept-refl b m v
  write_entries-IsKept a (e ∷ es) m v p low room off =
      let m1 = write_u64 a e.base m in
      let m2 = write_u64 (a + 8) e.len m1 in
      let m3 = write_u32 (a + 16) e.kind m2 in
      let k1 = write_u64-IsKept b m v a e.base (plain m v a 8 (omega arith)) p (ground arith) in
      let p1 = kept-IsPlain b m m1 k1 p in
      let k2 =
        write_u64-IsKept b m1 k1.valid (a + 8) e.len (plain m1 k1.valid (a + 8) 8 (omega arith)) p1
          (ground arith) in
      let p2 = kept-IsPlain b m1 m2 k2 p1 in
      let k3 =
        write_u32-IsKept b m2 k2.valid (a + 16) e.kind (plain m2 k2.valid (a + 16) 4 (omega arith))
          p2 (ground arith) in
      let p3 = kept-IsPlain b m2 m3 k3 p2 in
      let rest = write_entries-IsKept (a + 20) es m3 k3.valid p3 (omega arith) (omega arith) off in
      IsKept-trans b m m1 _ k1 (IsKept-trans b m1 m2 _ k2 (IsKept-trans b m2 m3 _ k3 rest))

  pub write_e820-IsKept :
      (m : Memory) → IsValid m → IsPlain m b 1 → IsOffPage b → IsKept b m (write_e820 m)
  unfolding write_e820
  write_e820-IsKept m v p off =
      let es = e820_map m.ram_size in
      let m1 = write_entries (boot_params_addr + 0x2D0) es m in
      let m2 = write_u8 (boot_params_addr + 0x1E8) (u8 (length es)) m1 in
      let k1 =
        write_entries-IsKept (boot_params_addr + 0x2D0) es m v p (omega arith)
          (omega (arith, length-e820_map m.ram_size)) off in
      let p1 = kept-IsPlain b m m1 k1 p in
      let k2 =
        write_u8-IsKept b m1 k1.valid (boot_params_addr + 0x1E8) (u8 (length es)) (omega arith) hb
          (omega arith) (ground arith) in
      let p2 = kept-IsPlain b m1 m2 k2 p1 in
      let k3 =
        write_u32-IsKept b m2 k2.valid (boot_params_addr + 0x1E0) _
          (plain m2 k2.valid (boot_params_addr + 0x1E0) 4 (omega arith)) p2 (ground arith) in
      IsKept-trans b m m1 _ k1 (IsKept-trans b m1 m2 _ k2 k3)

  pub write_gdt-IsKept :
      (m : Memory)
      → IsValid m
      → IsPlain m b 1
      → (b < 0x1000) ⊎ (0x1018 ≤ b)
      → IsKept b m (write_gdt m)
  unfolding write_gdt
  write_gdt-IsKept m v p off =
      let m1 = write_u64 gdt_addr 0 m in
      let m2 = write_u64 (gdt_addr + 8) 0x00CF9A000000FFFF m1 in
      let k1 =
        write_u64-IsKept b m v gdt_addr 0 (plain m v gdt_addr 8 (omega arith)) p (ground arith) in
      let p1 = kept-IsPlain b m m1 k1 p in
      let k2 =
        write_u64-IsKept b m1 k1.valid (gdt_addr + 8) 0x00CF9A000000FFFF
          (plain m1 k1.valid (gdt_addr + 8) 8 (omega arith)) p1 (ground arith) in
      let p2 = kept-IsPlain b m1 m2 k2 p1 in
      let k3 =
        write_u64-IsKept b m2 k2.valid (gdt_addr + 16) 0x00CF92000000FFFF
          (plain m2 k2.valid (gdt_addr + 16) 8 (omega arith)) p2 (ground arith) in
      IsKept-trans b m m1 _ k1 (IsKept-trans b m1 m2 _ k2 k3)

  pub write_cmdline-IsKept :
      (cl : List ℕ) (m : Memory)
      → IsValid m
      → IsBytes cl
      → (b < 0x20000) ⊎ (0x20400 ≤ b)
      → IsKept b m (write_cmdline cl m)
  unfolding write_cmdline
  write_cmdline-IsKept cl m v h off =
      let kept = take (min (length cl) 1023) cl in
      let size = length-take (min (length cl) 1023) cl in
      let k1 =
        write_list-IsKept b cmdline_addr kept m v (take-IsBytes _ cl h) (omega (arith, size)) hb
          (ground (arith, size)) in
      let k2 =
        write_u8-IsKept b (write_list cmdline_addr kept m) k1.valid (cmdline_addr + length kept) 0
          (omega (arith, size)) hb (omega arith) (ground (arith, size)) in
      IsKept-trans b m (write_list cmdline_addr kept m) _ k1 k2

  pub copy_header-IsKept :
      (image : List ℕ) (info : KernelInfo) (m : Memory)
      → IsValid m
      → IsBytes image
      → IsPlain m b 1
      → IsOffPage b
      → IsKept b m (copy_header image info m)
  unfolding copy_header
  copy_header-IsKept image info m v h p off =
      let copy = take 0xEC (drop setup_sects_at image) in
      let size = length-take 0xEC (drop setup_sects_at image) in
      let m1 = write_list (hdr setup_sects_at) copy m in
      let m2 = write_u8 (hdr 0x210) 0xFF m1 in
      let flags = bit_or (read_u8 m2 (hdr 0x211)) 1 in
      let m3 = write_u8 (hdr 0x211) flags m2 in
      let m4 = write_u32 (hdr 0x214) info.code32_start m3 in
      let k1 =
        write_list-IsKept b (hdr setup_sects_at) copy m v
          (take-IsBytes 0xEC _ (drop-IsBytes setup_sects_at image h)) (omega (arith, size)) hb
          (ground (arith, size)) in
      let k2 =
        write_u8-IsKept b m1 k1.valid (hdr 0x210) 0xFF (omega arith) hb (omega arith)
          (ground arith) in
      let k3 =
        write_u8-IsKept b m2 k2.valid (hdr 0x211) flags (omega arith) hb
          (bit_or-lt 8 (read_u8 m2 (hdr 0x211)) 1 (read_u8-lt m2 (hdr 0x211) k2.valid)
            (omega arith))
          (ground arith) in
      let p1 = kept-IsPlain b m m1 k1 p in
      let p3 = kept-IsPlain b m2 m3 k3 (kept-IsPlain b m1 m2 k2 p1) in
      let k4 =
        write_u32-IsKept b m3 k3.valid (hdr 0x214) info.code32_start
          (plain m3 k3.valid (hdr 0x214) 4 (omega arith)) p3 (ground arith) in
      let k5 =
        write_u32-IsKept b m4 k4.valid (hdr 0x228) cmdline_addr
          (plain m4 k4.valid (hdr 0x228) 4 (omega arith)) (kept-IsPlain b m3 m4 k4 p3)
          (ground arith) in
      IsKept-trans b m m1 _ k1
        (IsKept-trans b m1 m2 _ k2 (IsKept-trans b m2 m3 _ k3 (IsKept-trans b m3 m4 _ k4 k5)))
