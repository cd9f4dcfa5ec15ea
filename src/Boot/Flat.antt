-- ===== src/Boot/Flat.antt =====
-- The flat segments of 32-bit protected mode that `enter_protected_mode` of src/boot.rs loads from
-- the descriptor table that `write_gdt` leaves in memory.
pub mod Entry
use cuddles.Base.{
  ℕ, ◌+◌, ◌≡◌, refl, ap, sym, ◌∙◌, inr, inl, Bool, true, false, ◌&&◌, ◌||◌, bit_or, bit_and,
  bit_not, has_bits, arith, has_bits-pow, testb, testb-bit_or, testb-bit_and, u64, if◌then◌else◌,
  not, Bool-cases,
}
use cuddles.Memory.{Memory, read_u64, write_u64}
use cuddles.Memory.Layout.{IsValid}
use cuddles.Memory.Tables.{write_u64-IsValid, read_u64-write_u64, read_u64-write_u64_apart}
use cuddles.Protected.{Descriptor, parse, present, is_code, is_data, dpl}
use cuddles.Alu.{IF, set_flag}
use cuddles.Cpu.{
  Cpu, SegReg, cs, ds, es, ss, fs, gs, seg_eq, set_seg, mode, protected, long_mode, cr0_pe, cr0_pg,
  efer_lma, invalidate_phys_ip,
}
use cuddles.Cpu.Segments.{load_seg, descriptor_for}
use cuddles.Cpu.Translate.{linear_to_phys_ro}
use cuddles.Boot.{write_gdt, gdt_addr}
use cuddles.Boot.Enter.{enter_protected_mode, kernel_cs, kernel_ds}
use cuddles.Boot.Tables.{plain}

abbrev code32 : ℕ
code32 = 0x00CF9A000000FFFF

abbrev data32 : ℕ
data32 = 0x00CF92000000FFFF

-- A present 32-bit segment of privilege level 0 over all of the address space.
pub record IsFlat (d : Descriptor) : Type 0 where
  pub base : d.base ≡ 0
  pub limit : d.limit ≡ 0xFFFF_FFFF
  pub wide : d.d_b ≡ true
  pub short : d.l ≡ false
  pub present : present d ≡ true
  pub privilege : dpl d ≡ 0

-- Each segment register has its selector, and a flat segment: of code for CS, of data for others.
abbrev pub HasFlatSegments : Cpu → Type 0
HasFlatSegments c =
    (s : SegReg)
    → IsFlat (c.seg_desc s)
      × (is_code (c.seg_desc s) ≡ seg_eq s cs)
      × (is_data (c.seg_desc s) ≡ not (seg_eq s cs))
      × (c.selector s ≡ (if seg_eq s cs then 8 else 16))

-- The processor's table has the two flat descriptors, and addresses are not translated.
record IsTable (c : Cpu) : Type 0 where
  pe : c.pe ≡ true
  base : c.gdt_base ≡ gdt_addr
  unpaged : has_bits c.cr0 cr0_pg ≡ false
  code_entry : read_u64 c.mem (gdt_addr + 8) ≡ code32
  data_entry : read_u64 c.mem (gdt_addr + 16) ≡ data32

module _ (m : Memory) (v : IsValid m) where
  write_gdt-read :
      (read_u64 (write_gdt m) (gdt_addr + 8) ≡ code32)
      × (read_u64 (write_gdt m) (gdt_addr + 16) ≡ data32)
  unfolding write_gdt
  write_gdt-read =
      let m1 = write_u64 gdt_addr 0 m in
      let m2 = write_u64 (gdt_addr + 8) code32 m1 in
      let v1 = write_u64-IsValid m v gdt_addr 0 (plain m v gdt_addr 8 (omega arith)) in
      let p1 = plain m1 v1 (gdt_addr + 8) 8 (omega arith) in
      let v2 = write_u64-IsValid m1 v1 (gdt_addr + 8) code32 p1 in
      let p2 = plain m2 v2 (gdt_addr + 16) 8 (omega arith) in
      (
        read_u64-write_u64_apart m2 v2 (gdt_addr + 16) data32 p2 (gdt_addr + 8)
              (plain m2 v2 (gdt_addr + 8) 8 (omega arith)) (inr (omega arith))
            ∙ read_u64-write_u64 m1 v1 (gdt_addr + 8) code32 p1 (omega arith),
        read_u64-write_u64 m2 v2 (gdt_addr + 16) data32 p2 (omega arith),
      )

load_seg-kept :
    (s : SegReg) (selector : ℕ) (c : Cpu)
    → let d = load_seg s selector c in
      (d.pe ≡ c.pe)
      × (d.gdt_base ≡ c.gdt_base)
      × (d.cr0 ≡ c.cr0)
      × (d.mem ≡ c.mem)
      × (d.efer ≡ c.efer)
      × (d.flags ≡ c.flags)
unfolding load_seg set_seg invalidate_phys_ip
load_seg-kept s selector c = ground arith

load_seg-IsTable :
    (s : SegReg) (selector : ℕ) (c : Cpu) → IsTable c → IsTable (load_seg s selector c)
load_seg-IsTable s selector c t =
    let k = load_seg-kept s selector c in
    record {
      pe = k.0 ∙ t.pe;
      base = k.1 ∙ t.base;
      unpaged = ap (λ x. has_bits x cr0_pg) k.2 ∙ t.unpaged;
      code_entry = ap (λ m. read_u64 m (gdt_addr + 8)) k.3 ∙ t.code_entry;
      data_entry = ap (λ m. read_u64 m (gdt_addr + 16)) k.3 ∙ t.data_entry;
    }

untranslated : (c : Cpu) (a : ℕ) → IsTable c → linear_to_phys_ro a c ≡ a
unfolding linear_to_phys_ro
untranslated c a t = rw t.unpaged refl

found_code : (c : Cpu) → IsTable c → descriptor_for kernel_cs c ≡ parse code32
unfolding descriptor_for
found_code c t =
    ap (λ b. parse (read_u64 c.mem (linear_to_phys_ro (u64 (b + 8)) c))) t.base
    ∙ ap (λ a. parse (read_u64 c.mem a)) (untranslated c (gdt_addr + 8) t)
    ∙ ap parse t.code_entry

found_data : (c : Cpu) → IsTable c → descriptor_for kernel_ds c ≡ parse data32
unfolding descriptor_for
found_data c t =
    ap (λ b. parse (read_u64 c.mem (linear_to_phys_ro (u64 (b + 16)) c))) t.base
    ∙ ap (λ a. parse (read_u64 c.mem a)) (untranslated c (gdt_addr + 16) t)
    ∙ ap parse t.data_entry

load_seg-loads :
    (s t : SegReg) (selector : ℕ) (c : Cpu)
    → c.pe ≡ true
    → let d = load_seg s selector c in
      (d.seg_desc t ≡ (if seg_eq s t then descriptor_for selector c else c.seg_desc t))
      × (d.selector t ≡ (if seg_eq s t then selector else c.selector t))
unfolding load_seg set_seg invalidate_phys_ip
load_seg-loads s t selector c h = ground (arith, h)

code_descriptor :
    IsFlat (parse code32) × (is_code (parse code32) ≡ true) × (is_data (parse code32) ≡ false)
unfolding parse present is_code is_data dpl
code_descriptor = (
  record { base = refl; limit = refl; wide = refl; short = refl; present = refl; privilege = refl },
  refl,
  refl,
)

data_descriptor :
    IsFlat (parse data32) × (is_code (parse data32) ≡ false) × (is_data (parse data32) ≡ true)
unfolding parse present is_code is_data dpl
data_descriptor = (
  record { base = refl; limit = refl; wide = refl; short = refl; present = refl; privilege = refl },
  refl,
  refl,
)

-- What the code and the data selector give a register.
IsLoaded : SegReg → Cpu → Type 0
IsLoaded s c =
    (c.seg_desc s ≡ (if seg_eq s cs then parse code32 else parse data32))
    × (c.selector s ≡ (if seg_eq s cs then kernel_cs else kernel_ds))

load_cs-IsLoaded : (c : Cpu) → IsTable c → IsLoaded cs (load_seg cs kernel_cs c)
unfolding IsLoaded
load_cs-IsLoaded c t = let l = load_seg-loads cs cs kernel_cs c t.pe in (l.0 ∙ found_code c t, l.1)

same_data : (s r : SegReg) → seg_eq s r ≡ true → seg_eq s cs ≡ false → seg_eq r cs ≡ false
same_data s cs h k = cc
same_data s ds h k = refl
same_data s es h k = refl
same_data s ss h k = refl
same_data s fs h k = refl
same_data s gs h k = refl

-- A data register loaded, and what a load of one leaves in the others.
load_data-IsLoaded :
    (s r : SegReg) (c : Cpu)
    → IsTable c
    → seg_eq s cs ≡ false
    → (seg_eq s r ≡ false → IsLoaded r c)
    → IsLoaded r (load_seg s kernel_ds c)
unfolding IsLoaded
load_data-IsLoaded s r c t other before =
    let l = load_seg-loads s r kernel_ds c t.pe in
    let d = found_data c t in
    elim (Bool-cases (seg_eq s r)) [
      | inl same ↦
          let off : seg_eq r cs ≡ false = same_data s r same other in
          rw off (l.0 ∙ rw same d, l.1 ∙ rw same refl)
      | inr apart ↦ (l.0 ∙ rw apart ((before apart).0), l.1 ∙ rw apart ((before apart).1))
    ]
