-- ===== src/Cpu/Segments.antt =====
-- The descriptor tables of src/cpu.rs: the loads of segment registers, of the task and of the local
-- table, the stacks that a task names, and the accesses that lie on two pages.
use cuddles.Base.{
  ℕ, zero, suc, ◌+◌, ◌-◌, ◌*◌, ◌^◌, true, false, bit_and, bit_or, bit_not, ◌==◌, ltb, if◌then◌else◌,
  ◌<<<◌, ◌>>>◌, u8, u64,
}
use cuddles.Memory.{Memory, read_u8, read_u16, read_u32, read_u64, write_u8}
use cuddles.Protected.{Descriptor, read_descriptor}
use cuddles.Cpu.{Cpu, SegReg, cs, seg_eq, set_seg, is_some, long_mode, invalidate_phys_ip}
use cuddles.Cpu.Translate.{linear_to_phys_ro, apply_paging_access}

-- Bit 2 of a selector chooses the local table.
unfoldable pub descriptor_for : ℕ → Cpu → Descriptor
descriptor_for selector c =
    let idx = bit_and (selector >>> 3) 0x1FFF in
    let base = if bit_and selector 4 == 0 then c.gdt_base else c.ldt_base in
    read_descriptor c.mem (linear_to_phys_ro (u64 (base + idx * 8)) c)

unfoldable pub load_seg : SegReg → ℕ → Cpu → Cpu
load_seg s selector c =
    let described = record c {
      seg_desc = λ t. if seg_eq s t then descriptor_for selector c else c.seg_desc t;
    } in
    let loaded = set_seg s selector (if c.pe then described else c) in
    if seg_eq s cs then invalidate_phys_ip loaded else loaded

-- In long mode the descriptor has a second half, with the high bits of the base.
unfoldable pub load_tr : ℕ → Cpu → Cpu
load_tr selector c =
    let d = descriptor_for selector c in
    let idx = bit_and (selector >>> 3) 0x1FFF in
    let hi = read_u64 c.mem (linear_to_phys_ro (u64 (c.gdt_base + (idx * 8 + 8))) c) in
    let low = record c { tr_selector = selector; tr_base = d.base; tr_limit = d.limit } in
    if long_mode c
    then record low { tr_base = bit_or d.base (bit_and hi 0xFFFFFFFF <<< 32) }
    else low

unfoldable pub load_ldt : ℕ → Cpu → Cpu
load_ldt selector c =
    let idx = bit_and (selector >>> 3) 0x1FFF in
    let d = read_descriptor c.mem (linear_to_phys_ro (u64 (c.gdt_base + idx * 8)) c) in
    if bit_and selector 0xFFF8 == 0
    then record c { ldt_selector = selector; ldt_base = 0; ldt_limit = 0 }
    else record c { ldt_selector = selector; ldt_base = d.base; ldt_limit = d.limit }

-- SS0 and ESP0, RSP0, and an entry of the interrupt stack table.
pub tss_stack0 : Cpu → ℕ × ℕ
tss_stack0 c = (
  read_u16 c.mem (linear_to_phys_ro (u64 (c.tr_base + 8)) c),
  read_u32 c.mem (linear_to_phys_ro (u64 (c.tr_base + 4)) c),
)

pub tss_rsp0 : Cpu → ℕ
tss_rsp0 c = read_u64 c.mem (linear_to_phys_ro (u64 (c.tr_base + 4)) c)

pub tss_ist : ℕ → Cpu → ℕ
tss_ist ist c =
    let off = u64 (0x24 + u64 (ist + 2 ^ 64 - 1) * 8) in
    read_u64 c.mem (linear_to_phys_ro (u64 (c.tr_base + off)) c)

-- The byte at `i` of an access of which `first` bytes lie on the page at `phys`.
abbrev pub split_at : ℕ → ℕ → ℕ → ℕ → ℕ
split_at first phys phys2 i = if ltb i first then phys + i else phys2 + i - first

unfoldable pub read_bytes : Memory → ℕ → ℕ → ℕ → ℕ → ℕ → ℕ
read_bytes mem first phys phys2 i zero = 0
read_bytes mem first phys phys2 i (suc left) =
    let rest = read_bytes mem first phys phys2 (i + 1) left in
    bit_or (read_u8 mem (split_at first phys phys2 i) <<< (8 * i)) rest

unfoldable pub read_split : ℕ → ℕ → ℕ → Cpu → ℕ × Cpu
read_split phys lin bytes c =
    let first = 0x1000 - bit_and phys 0xFFF in
    let next_page = u64 (bit_and lin (bit_not 64 0xFFF) + 0x1000) in
    let (phys2, after) = apply_paging_access next_page false c in
    if is_some after.pending_exception
    then (0, after)
    else (read_bytes after.mem first phys phys2 0 bytes, after)

unfoldable pub store_bytes : ℕ → ℕ → ℕ → ℕ → ℕ → ℕ → Memory → Memory
store_bytes first phys phys2 v i zero mem = mem
store_bytes first phys phys2 v i (suc left) mem =
    store_bytes first phys phys2 v (i + 1) left
      (write_u8 (split_at first phys phys2 i) (u8 (v >>> (8 * i))) mem)

unfoldable pub write_split : ℕ → ℕ → ℕ → ℕ → Cpu → Cpu
write_split phys lin bytes v c =
    let first = 0x1000 - bit_and phys 0xFFF in
    let next_page = u64 (bit_and lin (bit_not 64 0xFFF) + 0x1000) in
    let (phys2, after) = apply_paging_access next_page true c in
    if is_some after.pending_exception
    then after
    else record after { mem = store_bytes first phys phys2 v 0 bytes after.mem }
