-- ===== src/Fpu/Save.antt =====
-- FXSAVE and FXRSTOR of src/fpu.rs: what comes back.
use cuddles.Base.{
  ℕ, zero, suc, ◌+◌, ◌*◌, ◌^◌, ◌≤◌, ◌<◌, ◌≡◌, refl, sym, ap, ◌∙◌, inl, inr, true, not, ◌&&◌, ◌==◌,
  ==_iff, ltb, leb, if◌then◌else◌, ◌<<<◌, ◌>>>◌, arith, update, Bool-cases,
}
use cuddles.Memory.{Memory, read_u16, write_u16}
use cuddles.Memory.Layout.{IsValid}
use cuddles.Memory.Words.{
  IsPlain, with_bytes, with_bytes-IsValid, from_le-put, write_u16-plain, read_u16-plain,
  read_u64-plain,
}
use cuddles.Memory.Tables.{from_le-outside}
use cuddles.Fpu.{Fpu, sign_of, save_regs, fxsave, restore_reg, restore_regs, fxrstor, reg_base}
use cuddles.Fpu.Doubles.{is_finite, restored-saved}
use cuddles.Fpu.Image.{saved_lem, saved_before, save_regs-IsSaved}

-- The state that FXRSTOR leaves, in terms of what it reads.
restored_at :
    (left i addr : ℕ) (m : Memory) (g : Fpu) (k : ℕ)
    → let r = restore_regs left i addr m g in
      (r.st k ≡ (if leb i k && ltb k (i + left) then restore_reg m (reg_base addr k) else g.st k))
      × (r.control ≡ g.control)
      × (r.status ≡ g.status)
      × (r.tag ≡ g.tag)
      × (r.top ≡ g.top)
unfolding restore_regs
restored_at zero i addr m g k = (ground arith, refl, refl, refl, refl)
restored_at (suc left) i addr m g k =
    let next =
      restored_at left (i + 1) addr m
        (record g { st = update g.st i (restore_reg m (reg_base addr i)) }) k in
    let here =
      elim (Bool-cases (i == k))
        as (λ _.
          (if leb (i + 1) k && ltb k (i + 1 + left)
            then restore_reg m (reg_base addr k)
            else update g.st i (restore_reg m (reg_base addr i)) k)
          ≡ (if leb i k && ltb k (i + suc left) then restore_reg m (reg_base addr k) else g.st k)) [
            | inl same ↦ rw (sym ((==_iff i k).0 same)) (ground arith)
            | inr other ↦ ground (arith, other)
          ] in
    (next.0 ∙ here, next.1, next.2, next.3, next.4)

module _ (f g : Fpu) (addr i : ℕ) (m : Memory) (v : IsValid m) (p : IsPlain m addr 160) (h : i < 8)
    (control : f.control < 2 ^ 16) (status : f.status < 2 ^ 16) (tag : f.tag < 2 ^ 16)
    (bits : f.st i < 2 ^ 64) where
  abbrev header : Memory
  header =
      with_bytes (with_bytes (with_bytes m 2 addr f.control) 2 (addr + 2) f.status) 2 (addr + 4)
        f.tag

  header-IsValid : IsValid header
  header-IsValid =
      with_bytes-IsValid _ 2 (addr + 4) f.tag
        (with_bytes-IsValid _ 2 (addr + 2) f.status (with_bytes-IsValid m 2 addr f.control v))

  abbrev image : Memory
  image = save_regs 8 0 addr f header

  fxsave-image : fxsave f addr m ≡ image
  unfolding fxsave
  fxsave-image =
      let p1 : IsPlain m addr 2 = ground arith in
      let p2 : IsPlain m (addr + 2) 2 = ground arith in
      let p3 : IsPlain m (addr + 4) 2 = ground arith in
      let m1 = with_bytes m 2 addr f.control in
      let m2 = with_bytes m1 2 (addr + 2) f.status in
      let v1 = with_bytes-IsValid m 2 addr f.control v in
      let v2 = with_bytes-IsValid m1 2 (addr + 2) f.status v1 in
      ap (λ w. save_regs 8 0 addr f (write_u16 (addr + 4) f.tag (write_u16 (addr + 2) f.status w)))
        (write_u16-plain m v addr f.control p1 control)
      ∙ ap (λ w. save_regs 8 0 addr f (write_u16 (addr + 4) f.tag w))
          (write_u16-plain m1 v1 (addr + 2) f.status p2 status)
      ∙ ap (λ w. save_regs 8 0 addr f w) (write_u16-plain m2 v2 (addr + 4) f.tag p3 tag)

  regs-IsPlain : IsPlain header (reg_base addr 0) (8 * 16)
  regs-IsPlain = ground arith

  image_lem : IsValid image × (image.low_size ≡ m.low_size)
  image_lem = saved_lem 8 0 addr f header header-IsValid regs-IsPlain

  image-IsPlain : (n b : ℕ) → addr ≤ b → b + n ≤ addr + 160 → IsPlain image b n
  image-IsPlain n b lo hi = rw (image_lem.1) (ground arith)

  words_back :
      (read_u16 image addr ≡ f.control)
      × (read_u16 image (addr + 2) ≡ f.status)
      × (read_u16 image (addr + 4) ≡ f.tag)
  words_back =
      let m1 = with_bytes m 2 addr f.control in
      let m2 = with_bytes m1 2 (addr + 2) f.status in
      let back = λ (b : ℕ) (lo : addr ≤ b) (hi : b + 2 ≤ addr + 32).
        read_u16-plain image image_lem.0 b (image-IsPlain 2 b lo (omega arith))
        ∙ saved_before 8 0 addr f header 2 b header-IsValid regs-IsPlain (omega arith) in
      (
        back addr (omega arith) (omega arith)
            ∙ from_le-outside m2 2 (addr + 4) f.tag 2 addr (inl (omega arith))
            ∙ from_le-outside m1 2 (addr + 2) f.status 2 addr (inl (omega arith))
            ∙ from_le-put m 2 addr f.control m.cells (omega arith),
        back (addr + 2) (omega arith) (omega arith)
            ∙ from_le-outside m2 2 (addr + 4) f.tag 2 (addr + 2) (inl (omega arith))
            ∙ from_le-put m1 2 (addr + 2) f.status m1.cells (omega arith),
        back (addr + 4) (omega arith) (omega arith)
            ∙ from_le-put m2 2 (addr + 4) f.tag m2.cells (omega arith),
      )

  register_back :
      restore_reg image (reg_base addr i)
      ≡ (if is_finite (f.st i) && not (f.st i == 2 ^ 63) then f.st i else 0)
  unfolding restore_reg
  register_back =
      let base = reg_base addr i in
      let w = save_regs-IsSaved 8 0 addr f header i header-IsValid regs-IsPlain (omega arith) h in
      let mant =
        read_u64-plain image image_lem.0 base (image-IsPlain 8 base (omega arith) (omega arith))
        ∙ w.0 in
      let exp =
        read_u16-plain image image_lem.0 (base + 8)
          (image-IsPlain 2 (base + 8) (omega arith) (omega arith))
        ∙ w.1 in
      let sign =
        read_u16-plain image image_lem.0 (base + 10)
          (image-IsPlain 2 (base + 10) (omega arith) (omega arith))
        ∙ w.2 in
      let shifted : sign_of (f.st i) <<< 15 >>> 15 ≡ sign_of (f.st i) = omega arith in
      rw (mant, exp, sign, shifted) (restored-saved (f.st i) bits)

  -- In a valid memory with 160 bytes of plain RAM at the address and a state within its widths, a
  -- state saved and then restored over another one gets the control, status and tag words back,
  -- and each finite register except the negative zero; a register with an infinity, no number or
  -- the negative zero becomes 0, and the stack pointer is that of the other state.
  pub fxrstor-fxsave :
      let r = fxrstor addr (fxsave f addr m) g in
      (r.st i ≡ (if is_finite (f.st i) && not (f.st i == 2 ^ 63) then f.st i else 0))
      × (r.control ≡ f.control)
      × (r.status ≡ f.status)
      × (r.tag ≡ f.tag)
      × (r.top ≡ g.top)
  unfolding fxrstor
  fxrstor-fxsave = rw fxsave-image (
      let g' = record g {
        control = read_u16 image addr;
        status = read_u16 image (addr + 2);
        tag = read_u16 image (addr + 4);
      } in
      let r = restored_at 8 0 addr image g' i in
      let inside : (leb 0 i && ltb i 8) ≡ true = ground arith in
      (
        r.0 ∙ rw inside register_back,
        r.1 ∙ words_back.0,
        r.2 ∙ words_back.1,
        r.3 ∙ words_back.2,
        r.4,
      ))
