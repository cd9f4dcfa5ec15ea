-- ===== src/Boot/Flat/Entry.antt =====
-- The state that `enter_protected_mode` of src/boot.rs leaves a processor in.
use cuddles.Base.{
  ℕ, ◌≡◌, refl, ap, sym, ◌∙◌, inr, inl, Bool, true, false, ◌&&◌, ◌||◌, bit_or, bit_and, bit_not,
  has_bits, arith, has_bits-pow, testb, testb-bit_or, testb-bit_and, Bool-cases,
}
use cuddles.Memory.{Memory}
use cuddles.Memory.Layout.{IsValid}
use cuddles.Alu.{IF, set_flag}
use cuddles.Cpu.{
  Cpu, SegReg, cs, ds, es, ss, fs, gs, seg_eq, mode, protected, long_mode, cr0_pe, cr0_pg, efer_lma,
}
use cuddles.Cpu.Segments.{load_seg}
use cuddles.Boot.{write_gdt, gdt_addr}
use cuddles.Boot.Enter.{enter_protected_mode, kernel_cs, kernel_ds}
use cuddles.Boot.Flat.{
  HasFlatSegments, IsTable, write_gdt-read, load_seg-kept, load_seg-IsTable, code_descriptor,
  data_descriptor, IsLoaded, load_cs-IsLoaded, load_data-IsLoaded,
}

module _ (c : Cpu) (t : IsTable c) where
  abbrev coded : Cpu
  coded = load_seg cs kernel_cs c

  abbrev with_ds : Cpu
  with_ds = load_seg ds kernel_ds coded

  abbrev with_es : Cpu
  with_es = load_seg es kernel_ds with_ds

  abbrev with_ss : Cpu
  with_ss = load_seg ss kernel_ds with_es

  abbrev with_fs : Cpu
  with_fs = load_seg fs kernel_ds with_ss

  abbrev segments : Cpu
  segments = load_seg gs kernel_ds with_fs

  t0 : IsTable coded
  t0 = load_seg-IsTable cs kernel_cs c t

  t1 : IsTable with_ds
  t1 = load_seg-IsTable ds kernel_ds coded t0

  t2 : IsTable with_es
  t2 = load_seg-IsTable es kernel_ds with_ds t1

  t3 : IsTable with_ss
  t3 = load_seg-IsTable ss kernel_ds with_es t2

  t4 : IsTable with_fs
  t4 = load_seg-IsTable fs kernel_ds with_ss t3

  only_code :
      (r : SegReg)
      → seg_eq ds r ≡ false
      → seg_eq es r ≡ false
      → seg_eq ss r ≡ false
      → seg_eq fs r ≡ false
      → seg_eq gs r ≡ false
      → IsLoaded r coded
  only_code cs d e k f g = load_cs-IsLoaded c t
  only_code ds d e k f g = cc
  only_code es d e k f g = cc
  only_code ss d e k f g = cc
  only_code fs d e k f g = cc
  only_code gs d e k f g = cc

  segments-IsLoaded : (r : SegReg) → IsLoaded r segments
  segments-IsLoaded r = load_data-IsLoaded gs r with_fs t4 refl (λ g.
      load_data-IsLoaded fs r with_ss t3 refl (λ f. load_data-IsLoaded ss r with_es t2 refl (λ k.
        load_data-IsLoaded es r with_ds t1 refl
          (λ e. load_data-IsLoaded ds r coded t0 refl (λ d. only_code r d e k f g)))))

  segments-IsTable : IsTable segments
  segments-IsTable = load_seg-IsTable gs kernel_ds with_fs t4

  segments-kept : (segments.cr0 ≡ c.cr0) × (segments.efer ≡ c.efer) × (segments.mem ≡ c.mem)
  segments-kept =
      let k0 = load_seg-kept cs kernel_cs c in
      let k1 = load_seg-kept ds kernel_ds coded in
      let k2 = load_seg-kept es kernel_ds with_ds in
      let k3 = load_seg-kept ss kernel_ds with_es in
      let k4 = load_seg-kept fs kernel_ds with_ss in
      let k5 = load_seg-kept gs kernel_ds with_fs in
      (
        k5.2 ∙ k4.2 ∙ k3.2 ∙ k2.2 ∙ k1.2 ∙ k0.2,
        k5.4 ∙ k4.4 ∙ k3.4 ∙ k2.4 ∙ k1.4 ∙ k0.4,
        k5.3 ∙ k4.3 ∙ k3.3 ∙ k2.3 ∙ k1.3 ∙ k0.3,
      )

masked_flag : (flags : ℕ) → has_bits (set_flag IF false flags) IF ≡ false
unfolding set_flag testb
masked_flag flags =
    let off : testb (bit_not 32 IF) 9 ≡ false = refl in
    let none_and : (b : Bool) → (b && false) ≡ false = λ b. ground arith in
    has_bits-pow (bit_and flags (bit_not 32 IF)) 9
    ∙ testb-bit_and flags (bit_not 32 IF) 9
    ∙ rw off (none_and _)

-- The bits of CR0 after protected mode is set.
protected_bits :
    (cr0 : ℕ)
    → has_bits cr0 cr0_pg ≡ false
    → (has_bits (bit_or cr0 1) cr0_pe ≡ true) × (has_bits (bit_or cr0 1) cr0_pg ≡ false)
unfolding testb
protected_bits cr0 h =
    let low : testb 1 0 ≡ true = refl in
    let high : testb 1 31 ≡ false = refl in
    let some_or : (b : Bool) → (b || true) ≡ true = λ b. ground arith in
    let none_or : (b : Bool) → (b || false) ≡ b = λ b. ground arith in
    (
      has_bits-pow (bit_or cr0 1) 0 ∙ testb-bit_or cr0 1 0 ∙ rw low (some_or _),
      has_bits-pow (bit_or cr0 1) 31
          ∙ testb-bit_or cr0 1 31
          ∙ rw high (none_or _ ∙ sym (has_bits-pow cr0 31) ∙ h),
    )

-- 32-bit protected mode with flat segments, no paging and interrupts masked.
pub record IsProtected (c : Cpu) : Type 0 where
  pub mode : mode c ≡ protected
  pub pe : has_bits c.cr0 cr0_pe ≡ true
  pub unpaged : has_bits c.cr0 cr0_pg ≡ false
  pub segments : HasFlatSegments c
  pub masked : has_bits c.flags IF ≡ false

module _ (c : Cpu) (m : Memory) (v : IsValid m) (unpaged : has_bits c.cr0 cr0_pg ≡ false)
    (legacy : has_bits c.efer efer_lma ≡ false) where
  abbrev set : Cpu
  set = record c {
    mem = write_gdt m;
    gdt_base = gdt_addr;
    gdt_limit = 24;
    pe = true;
    cr0 = bit_or c.cr0 1;
  }

  set-IsTable : IsTable set
  set-IsTable = record {
    pe = refl;
    base = refl;
    unpaged = (protected_bits c.cr0 unpaged).1;
    code_entry = (write_gdt-read m v).0;
    data_entry = (write_gdt-read m v).1;
  }

  flat_segments : HasFlatSegments (enter_protected_mode (record c { mem = write_gdt m }))
  unfolding enter_protected_mode IsLoaded
  flat_segments s =
      let l = segments-IsLoaded set set-IsTable s in
      elim (Bool-cases (seg_eq s cs)) [
        | inl code ↦
            rw (l.0, l.1, code) (code_descriptor.0, code_descriptor.1, code_descriptor.2, refl)
        | inr off ↦
            rw (l.0, l.1, off) (data_descriptor.0, data_descriptor.1, data_descriptor.2, refl)
      ]

  pub enter_protected_mode-IsProtected :
      let d = enter_protected_mode (record c { mem = write_gdt m }) in
      IsProtected d × (d.mem ≡ write_gdt m)
  unfolding enter_protected_mode mode long_mode
  enter_protected_mode-IsProtected =
      let k = segments-kept set set-IsTable in
      let t = segments-IsTable set set-IsTable in
      (
        record {
          mode = rw (t.pe, k.1, legacy) refl;
          pe = ap (λ x. has_bits x cr0_pe) k.0 ∙ (protected_bits c.cr0 unpaged).0;
          unpaged = t.unpaged;
          segments = flat_segments;
          masked = masked_flag _;
        },
        k.2,
      )
