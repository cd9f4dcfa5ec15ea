-- ===== src/Memory/Words.antt =====
-- Word accesses of src/memory.rs in plain RAM: little-endian, and what is written is read back; and
-- what the fast path does at the end of the low RAM.
use cuddles.Base.{
  u16, u32, u64, ℕ, update, zero, suc, ◌+◌, ◌-◌, ◌*◌, ◌^◌, ◌≤◌, ◌<◌, ◌≡◌, refl, sym, ◌∙◌, some, ◌⊎◌,
  inl, arith, ◌>>>◌, u8, u16, u32, low_byte, bit_or_low, lt→ltb, join_bytes, Option-cases, inr, ◌/◌,
}
use cuddles.Memory.{
  Memory, slot, vga_text_base, vga_text_size, mmio_hole_start, high_ram_base, read_u8, read_u16,
  read_u32, read_u64, wrapping_add, write_u16, write_u32, write_u64, put_bytes, from_le_bytes, room,
  join16, join32,
}
use cuddles.Memory.Layout.{IsValid}
use cuddles.Memory.Bytes.{read_u8-lt}

-- `n` bytes from `addr` are RAM below the device window, outside the text window.
abbrev pub IsPlain : Memory → ℕ → ℕ → Type 0
IsPlain m addr n =
    (addr + n ≤ m.low_size) × ((addr + n ≤ vga_text_base) ⊎ (vga_text_base + vga_text_size ≤ addr))

-- The number that `n` byte reads from `addr` make, low byte first.
abbrev pub le_read : Memory → ℕ → ℕ → ℕ
le_read m zero addr = 0
le_read m (suc n) addr = read_u8 m addr + 2 ^ 8 * le_read m n (addr + 1)

join16_sum : (b0 b1 : ℕ) → b0 < 2 ^ 8 → join16 b0 b1 ≡ b0 + 2 ^ 8 * b1
join16_sum b0 b1 h = omega (arith, bit_or_low 8 b0 b1 h)

join32_sum :
    (b0 b1 b2 b3 : ℕ)
    → b0 < 2 ^ 8
    → b1 < 2 ^ 8
    → b2 < 2 ^ 8
    → join32 b0 b1 b2 b3 ≡ b0 + 2 ^ 8 * (b1 + 2 ^ 8 * (b2 + 2 ^ 8 * b3))
join32_sum b0 b1 b2 b3 h0 h1 h2 =
    rw
      (
        bit_or_low 8 b0 b1 h0,
        bit_or_low 16 (b1 * 2 ^ 8 + b0) b2 (omega arith),
        bit_or_low 24 (b2 * 2 ^ 16 + (b1 * 2 ^ 8 + b0)) b3 (omega arith),
      )
      (omega arith)

module _ (m : Memory) (v : IsValid m) where
  slot-low : (addr : ℕ) → addr < m.low_size → slot m addr ≡ some addr
  unfolding slot
  slot-low addr h = rw (lt→ltb addr m.low_size h)

  pub read_u8-plain : (addr : ℕ) → IsPlain m addr 1 → read_u8 m addr ≡ m.cells addr
  unfolding read_u8
  read_u8-plain addr h = ground (arith, slot-low addr)

  from_le-plain : (n addr : ℕ) → IsPlain m addr n → le_read m n addr ≡ from_le_bytes m n addr
  unfolding from_le_bytes
  from_le-plain zero addr h = refl
  from_le-plain (suc n) addr h =
      rw (read_u8-plain addr (ground arith), from_le-plain n (addr + 1) (ground arith))

  room-plain : (n addr : ℕ) → 0 < n → addr + n ≤ m.low_size → room m n (slot m addr) ≡ some addr
  room-plain n addr pos h = rw (slot-low addr (omega arith)) (ground (arith, v.low))

  pub read_u16-plain : (addr : ℕ) → IsPlain m addr 2 → read_u16 m addr ≡ from_le_bytes m 2 addr
  unfolding read_u16 from_le_bytes
  read_u16-plain addr h =
      rw (room-plain 2 addr (omega arith) h.0)
        (ground (arith, join16_sum (m.cells addr) (m.cells (addr + 1)) (v.bytes addr)))

  pub read_u32-plain : (addr : ℕ) → IsPlain m addr 4 → read_u32 m addr ≡ from_le_bytes m 4 addr
  unfolding read_u32 from_le_bytes
  read_u32-plain addr h =
      let second : addr + 1 + 1 ≡ addr + 2 = omega arith in
      let third : addr + 1 + 1 + 1 ≡ addr + 3 = omega arith in
      let sum =
        join32_sum (m.cells addr) (m.cells (addr + 1)) (m.cells (addr + 2)) (m.cells (addr + 3))
          (v.bytes _) (v.bytes _) (v.bytes _) in
      rw (room-plain 4 addr (omega arith) h.0, third, second) (ground (arith, sum))

  pub read_u64-plain : (addr : ℕ) → IsPlain m addr 8 → read_u64 m addr ≡ from_le_bytes m 8 addr
  unfolding read_u64
  read_u64-plain addr h = rw (room-plain 8 addr (omega arith) h.0) (ground arith)

  -- In plain RAM the word reads are the little-endian composition of the byte reads.
  pub reads-le :
      (addr : ℕ)
      → IsPlain m addr 8
      → (read_u16 m addr ≡ le_read m 2 addr)
        × (read_u32 m addr ≡ le_read m 4 addr)
        × (read_u64 m addr ≡ le_read m 8 addr)
  reads-le addr h =
      let p2 : IsPlain m addr 2 = ground arith in
      let p4 : IsPlain m addr 4 = ground arith in
      (
        read_u16-plain addr p2 ∙ sym (from_le-plain 2 addr p2),
        read_u32-plain addr p4 ∙ sym (from_le-plain 4 addr p4),
        read_u64-plain addr h ∙ sym (from_le-plain 8 addr h),
      )

abbrev pub pow256 : ℕ → ℕ
pow256 zero = 1
pow256 (suc n) = 256 * pow256 n

pub put_bytes-outside :
    (n a val j : ℕ) (f : ℕ → ℕ) → (j < a) ⊎ (a + n ≤ j) → put_bytes n a val f j ≡ f j
unfolding put_bytes
put_bytes-outside zero a val j f h = refl
put_bytes-outside (suc n) a val j f h =
    put_bytes-outside n (a + 1) (val >>> 8) j (update f a (u8 val)) (ground arith)
    ∙ ground (arith, h)

put_bytes-lt :
    (n a val : ℕ) (f : ℕ → ℕ) → ((j : ℕ) → f j < 2 ^ 8) → (j : ℕ) → put_bytes n a val f j < 2 ^ 8
unfolding put_bytes
put_bytes-lt zero a val f h j = h j
put_bytes-lt (suc n) a val f h j =
    put_bytes-lt n (a + 1) (val >>> 8) (update f a (u8 val)) (λ i. ground (arith, h i)) j

-- The memory after `n` bytes are put into RAM.
abbrev pub with_bytes : Memory → ℕ → ℕ → ℕ → Memory
with_bytes m n a val = record m { cells = put_bytes n a val m.cells }

pub from_le-put :
    (m : Memory) (n a val : ℕ) (f : ℕ → ℕ)
    → val < pow256 n
    → from_le_bytes (record m { cells = put_bytes n a val f }) n a ≡ val
unfolding from_le_bytes put_bytes
from_le-put m zero a val f h = omega arith
from_le-put m (suc n) a val f h =
    let first =
      put_bytes-outside n (a + 1) (val >>> 8) a (update f a (u8 val)) (inl (omega arith)) in
    let rest = from_le-put m n (a + 1) (val >>> 8) (update f a (u8 val)) (omega arith) in
    ground (arith, first, rest)

pub with_bytes-IsValid : (m : Memory) (n a val : ℕ) → IsValid m → IsValid (with_bytes m n a val)
with_bytes-IsValid m n a val v = record {
  low = v.low;
  pages = v.pages;
  least = v.least;
  addressable = v.addressable;
  bytes = put_bytes-lt n a val m.cells v.bytes;
  text = v.text;
}

-- The word writes in plain RAM.
module _ (m : Memory) (v : IsValid m) (addr val : ℕ) where
  pub write_u16-plain :
      IsPlain m addr 2 → val < 2 ^ 16 → write_u16 addr val m ≡ with_bytes m 2 addr val
  unfolding write_u16 put_bytes
  write_u16-plain h small =
      rw (room-plain m v 2 addr (omega arith) h.0, low_byte val) (ground arith)

  pub write_u32-plain : IsPlain m addr 4 → write_u32 addr val m ≡ with_bytes m 4 addr val
  unfolding write_u32
  write_u32-plain h = rw (room-plain m v 4 addr (omega arith) h.0) (ground arith)

  pub write_u64-plain : IsPlain m addr 8 → write_u64 addr val m ≡ with_bytes m 8 addr val
  unfolding write_u64
  write_u64-plain h = rw (room-plain m v 8 addr (omega arith) h.0) (ground arith)

module _ (m : Memory) (v : IsValid m) (addr val : ℕ) where
  -- In a valid memory, at an address with eight bytes of low RAM and off the text window, a word
  -- of 16, 32 or 64 bits is read back at its width.
  pub read-write_words :
      IsPlain m addr 8
      → (read_u16 (write_u16 addr (u16 val) m) addr ≡ u16 val)
        × (read_u32 (write_u32 addr (u32 val) m) addr ≡ u32 val)
        × (read_u64 (write_u64 addr (u64 val) m) addr ≡ u64 val)
  read-write_words h =
      let p2 : IsPlain m addr 2 = ground arith in
      let p4 : IsPlain m addr 4 = ground arith in
      let ok = λ (n w : ℕ). with_bytes-IsValid m n addr w v in
      (
        rw (write_u16-plain m v addr (u16 val) p2 (omega arith)) (
            read_u16-plain (with_bytes m 2 addr (u16 val)) (ok 2 (u16 val)) addr p2
            ∙ from_le-put m 2 addr (u16 val) m.cells (omega arith)),
        rw (write_u32-plain m v addr (u32 val) p4) (
            read_u32-plain (with_bytes m 4 addr (u32 val)) (ok 4 (u32 val)) addr p4
            ∙ from_le-put m 4 addr (u32 val) m.cells (omega arith)),
        rw (write_u64-plain m v addr (u64 val) h) (
            read_u64-plain (with_bytes m 8 addr (u64 val)) (ok 8 (u64 val)) addr h
            ∙ from_le-put m 8 addr (u64 val) m.cells (omega arith)),
      )

-- In a valid memory that reaches above 4 GiB, the word at the last address below the device window
-- takes its high byte from 4 GiB, where a byte read of the next address sees the open bus.
pub read_u16-hole :
    (m : Memory)
    → IsValid m
    → mmio_hole_start < m.ram_size
    → let last = mmio_hole_start - 1 in
      (read_u16 m last ≡ le_read m 1 last + 2 ^ 8 * read_u8 m high_ram_base)
      × (read_u8 m (last + 1) ≡ 0xFF)
unfolding read_u16 read_u8 slot
read_u16-hole m v big = ground (
  arith,
  v.low,
  v.addressable,
  join16_sum (m.cells 0xBFFF_FFFF) (m.cells 0xC000_0000) (v.bytes _),
)

-- A 16-bit read gives a word of 16 bits.
pub read_u16-lt : (m : Memory) (addr : ℕ) → IsValid m → read_u16 m addr < 2 ^ 16
unfolding read_u16
read_u16-lt m addr v =
    let text = v.text ((addr - vga_text_base) / 2) in
    let lo = read_u8 m addr in
    let hi = read_u8 m (wrapping_add addr 1) in
    let hl = read_u8-lt m addr v in
    let hh = read_u8-lt m (wrapping_add addr 1) v in
    elim (Option-cases (room m 2 (slot m addr))) [
      | inl e ↦ rw e (ground (arith, join_bytes lo hi hl))
      | inr (a, e) ↦ rw e (
          ground (
            arith,
            join_bytes (m.cells a) (m.cells (a + 1)) (v.bytes a),
            v.bytes a,
            v.bytes (a + 1),
          ))
    ]
