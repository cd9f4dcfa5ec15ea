-- ===== src/Boot/Handover.antt =====
-- The state in which src/boot.rs hands over to a 64-bit kernel.
use cuddles.Base.{
  ℕ, ◌+◌, ◌≡◌, refl, ap, ◌∙◌, inr, Bool, true, false, ◌&&◌, ◌||◌, bit_or, has_bits, arith,
  has_bits-pow, testb, testb-bit_or, u64,
}
use cuddles.Memory.{Memory, read_u64, write_u64}
use cuddles.Memory.Layout.{IsValid}
use cuddles.Memory.Tables.{write_u64-IsValid, read_u64-write_u64, read_u64-write_u64_apart}
use cuddles.Paging.{PagingMode}
use cuddles.Protected.{parse}
use cuddles.Cpu.{
  Cpu, long, SegReg, cs, ds, es, ss, fs, gs, seg_eq, mode, long_mode, paging_mode, cr0_pe, cr0_pg,
  cr0_wp, cr4_pae, efer_lme, efer_lma, efer_nxe, efer_sce, update_long_mode, flush_tlb,
  invalidate_phys_ip, set_seg,
}
use cuddles.Cpu.LongMode.{update_long_mode-Agrees, update_long_mode-lme}
use cuddles.Cpu.Segments.{load_seg, descriptor_for}
use cuddles.Cpu.Translate.{linear_to_phys_ro}
use cuddles.Boot.LongMode.{
  build_identity_map, write_gdt64, enter_long_mode, gdt64_addr, kernel_cs64, kernel_ds64,
}
use cuddles.Boot.Tables.{plain, read_u64-build_identity_map}
use cuddles.Boot.Identity.{translate_mode-build_identity_map}

abbrev code64 : ℕ
code64 = 0x00AF9A000000FFFF

-- The table of descriptors, in a valid memory.
module _ (m : Memory) (v : IsValid m) where
  gdt-IsValid : IsValid (write_gdt64 m) × (read_u64 (write_gdt64 m) (gdt64_addr + 8) ≡ code64)
  unfolding write_gdt64
  gdt-IsValid =
      let m1 = write_u64 gdt64_addr 0 m in
      let m2 = write_u64 (gdt64_addr + 8) code64 m1 in
      let v1 = write_u64-IsValid m v gdt64_addr 0 (plain m v gdt64_addr 8 (omega arith)) in
      let p1 = plain m1 v1 (gdt64_addr + 8) 8 (omega arith) in
      let v2 = write_u64-IsValid m1 v1 (gdt64_addr + 8) code64 p1 in
      let p2 = plain m2 v2 (gdt64_addr + 16) 8 (omega arith) in
      (
        write_u64-IsValid m2 v2 (gdt64_addr + 16) 0x00CF92000000FFFF p2,
        read_u64-write_u64_apart m2 v2 (gdt64_addr + 16) 0x00CF92000000FFFF p2 (gdt64_addr + 8)
              (plain m2 v2 (gdt64_addr + 8) 8 (omega arith)) (inr (omega arith))
            ∙ read_u64-write_u64 m1 v1 (gdt64_addr + 8) code64 p1 (omega arith),
      )

kept :
    (c : Cpu)
    → let d = flush_tlb (update_long_mode c) in
      (d.mem ≡ c.mem)
      × (d.cr0 ≡ c.cr0)
      × (d.cr3 ≡ c.cr3)
      × (d.gdt_base ≡ c.gdt_base)
      × (d.pe ≡ c.pe)
unfolding update_long_mode flush_tlb
kept c = ground arith

-- The other segments leave the code segment's descriptor and the mode's bits alone.
others :
    (s : SegReg) (selector : ℕ) (c : Cpu)
    → seg_eq s cs ≡ false
    → let d = load_seg s selector c in
      (d.seg_desc cs ≡ c.seg_desc cs) × (d.pe ≡ c.pe) × (d.efer ≡ c.efer)
unfolding load_seg set_seg
others s selector c h = ground (arith, h)

code_loaded :
    (selector : ℕ) (c : Cpu)
    → c.pe ≡ true
    → let d = load_seg cs selector c in
      (d.seg_desc cs ≡ descriptor_for selector c) × (d.pe ≡ true) × (d.efer ≡ c.efer)
unfolding load_seg set_seg invalidate_phys_ip
code_loaded selector c h = ground (arith, h)

-- The bits that are set on the way.
set_bits :
    (cr0 efer : ℕ)
    → (has_bits (bit_or cr0 (bit_or (bit_or cr0_pe cr0_pg) cr0_wp)) cr0_pg ≡ true)
      × (has_bits (bit_or efer (bit_or (bit_or efer_lme efer_nxe) efer_sce)) efer_lme ≡ true)
unfolding testb
set_bits cr0 efer =
    let pg : testb (bit_or (bit_or cr0_pe cr0_pg) cr0_wp) 31 ≡ true = refl in
    let lme : testb (bit_or (bit_or efer_lme efer_nxe) efer_sce) 8 ≡ true = refl in
    let some_or : (b : Bool) → (b || true) ≡ true = λ b. ground arith in
    (
      has_bits-pow (bit_or cr0 (bit_or (bit_or cr0_pe cr0_pg) cr0_wp)) 31
          ∙ testb-bit_or cr0 (bit_or (bit_or cr0_pe cr0_pg) cr0_wp) 31
          ∙ rw pg (some_or _),
      has_bits-pow (bit_or efer (bit_or (bit_or efer_lme efer_nxe) efer_sce)) 8
          ∙ testb-bit_or efer (bit_or (bit_or efer_lme efer_nxe) efer_sce) 8
          ∙ rw lme (some_or _),
    )

code_at :
    (d : Cpu)
    → d.gdt_base ≡ gdt64_addr
    → linear_to_phys_ro (gdt64_addr + 8) d ≡ gdt64_addr + 8
    → read_u64 d.mem (gdt64_addr + 8) ≡ code64
    → descriptor_for kernel_cs64 d ≡ parse code64
unfolding descriptor_for
code_at d base phys code =
    ap (λ b. parse (read_u64 d.mem (linear_to_phys_ro (u64 (b + 8)) d))) base
    ∙ ap (λ a. parse (read_u64 d.mem a)) phys
    ∙ ap parse code

in_mode :
    (d : Cpu)
    → d.pe ≡ true
    → has_bits d.efer efer_lma ≡ true
    → (d.seg_desc cs).l ≡ true
    → mode d ≡ long
unfolding mode long_mode
in_mode d pe lma l = rw (pe, lma, l) refl

module _ (c : Cpu) (v : IsValid c.mem) where
  abbrev paged : Cpu
  paged = record c {
    mem = (build_identity_map (write_gdt64 c.mem)).1;
    gdt_base = gdt64_addr;
    gdt_limit = 23;
    cr4 = bit_or c.cr4 cr4_pae;
    cr3 = (build_identity_map (write_gdt64 c.mem)).0;
    efer = bit_or c.efer (bit_or (bit_or efer_lme efer_nxe) efer_sce);
    pe = true;
    cr0 = bit_or c.cr0 (bit_or (bit_or cr0_pe cr0_pg) cr0_wp);
  }

  abbrev entered : Cpu
  entered = flush_tlb (update_long_mode paged)

  wanted : has_bits (update_long_mode paged).efer efer_lme ≡ has_bits paged.efer efer_lme
  wanted = update_long_mode-lme paged

  active : has_bits entered.efer efer_lma ≡ true
  unfolding flush_tlb
  active =
      update_long_mode-Agrees paged
      ∙ ap (λ x. has_bits x cr0_pg && has_bits (update_long_mode paged).efer efer_lme)
          (kept paged).1
      ∙ rw ((set_bits c.cr0 c.efer).0) (wanted ∙ (set_bits c.cr0 c.efer).1)

  in_long : paging_mode entered ≡ PagingMode.long
  unfolding paging_mode long_mode
  in_long = rw ((kept paged).1, (set_bits c.cr0 c.efer).0, active) refl

  gdt_mapped : linear_to_phys_ro (gdt64_addr + 8) entered ≡ gdt64_addr + 8
  unfolding linear_to_phys_ro
  gdt_mapped =
      let found =
        translate_mode-build_identity_map (write_gdt64 c.mem) (gdt-IsValid c.mem v).0
          (gdt64_addr + 8) (has_bits entered.efer efer_nxe) (omega arith) in
      rw (in_long, (kept paged).0, (kept paged).1, (kept paged).2, (set_bits c.cr0 c.efer).0, found)
        refl

  code_descriptor : descriptor_for kernel_cs64 entered ≡ parse code64
  unfolding descriptor_for
  code_descriptor = code_at entered (kept paged).3 gdt_mapped (
      ap (λ mem. read_u64 mem (gdt64_addr + 8)) (kept paged).0
      ∙ read_u64-build_identity_map (write_gdt64 c.mem) (gdt-IsValid c.mem v).0 (gdt64_addr + 8)
          (omega arith)
      ∙ (gdt-IsValid c.mem v).1)

  abbrev coded : Cpu
  coded = load_seg cs kernel_cs64 entered

  -- The segments after the code segment.
  abbrev segments : Cpu
  segments = load_seg gs kernel_ds64 (
      load_seg fs kernel_ds64
        (load_seg ss kernel_ds64 (load_seg es kernel_ds64 (load_seg ds kernel_ds64 coded))))

  segments_lem :
      (segments.seg_desc cs ≡ parse code64)
      × (segments.pe ≡ true)
      × (has_bits segments.efer efer_lma ≡ true)
  segments_lem =
      let o1 = others ds kernel_ds64 coded refl in
      let o2 = others es kernel_ds64 (load_seg ds kernel_ds64 coded) refl in
      let o3 =
        others ss kernel_ds64 (load_seg es kernel_ds64 (load_seg ds kernel_ds64 coded)) refl in
      let o4 =
        others fs kernel_ds64
          (load_seg ss kernel_ds64 (load_seg es kernel_ds64 (load_seg ds kernel_ds64 coded)))
          refl in
      let o5 =
        others gs kernel_ds64
          (load_seg fs kernel_ds64
            (load_seg ss kernel_ds64 (load_seg es kernel_ds64 (load_seg ds kernel_ds64 coded))))
          refl in
      let first = code_loaded kernel_cs64 entered (kept paged).4 in
      (
        o5.0 ∙ o4.0 ∙ o3.0 ∙ o2.0 ∙ o1.0 ∙ first.0 ∙ code_descriptor,
        o5.1 ∙ o4.1 ∙ o3.1 ∙ o2.1 ∙ o1.1 ∙ first.1,
        ap (λ e. has_bits e efer_lma) (o5.2 ∙ o4.2 ∙ o3.2 ∙ o2.2 ∙ o1.2 ∙ first.2) ∙ active,
      )

  handed_over :
      (entry stack : ℕ)
      → let d = enter_long_mode entry stack c in
        (d.pe ≡ true)
        × (has_bits d.efer efer_lma ≡ true)
        × (d.seg_desc cs ≡ parse code64)
        × (d.rip ≡ entry)
        × (d.regs 4 ≡ stack)
  unfolding enter_long_mode invalidate_phys_ip
  handed_over entry stack = (segments_lem.1, segments_lem.2, segments_lem.0, refl, refl)

  code_is_64 : (parse code64).l ≡ true
  unfolding parse
  code_is_64 = refl

  -- From a processor with a valid memory, whatever its registers are, the loader's entry leaves it
  -- in 64-bit mode, at the given entry and with the given stack pointer.
  pub enter_long_mode-long :
      (entry stack : ℕ)
      → let d = enter_long_mode entry stack c in
        (mode d ≡ long) × (d.rip ≡ entry) × (d.regs 4 ≡ stack)
  enter_long_mode-long entry stack =
      let h = handed_over entry stack in
      (in_mode (enter_long_mode entry stack c) h.0 h.1 (ap (λ d. d.l) h.2 ∙ code_is_64), h.3, h.4)
