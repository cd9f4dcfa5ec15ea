-- ===== src/Memory/Bytes.antt =====
-- Byte accesses of src/memory.rs: a read after a write, RAM, text window and open bus together.
use cuddles.Base.{
  ℕ, update, ◌+◌, ◌-◌, ◌*◌, ◌/◌, ◌%◌, ◌^◌, ◌<◌, ◌≡◌, refl, ap, Bool, true, false, ◌&&◌, ◌||◌, none,
  some, inl, inr, arith, bit_and, bit_or, ◌==◌, if◌then◌else◌, ◌<<<◌, ◌>>>◌, u8, Bool-cases,
  Option-cases, low_byte, high_byte, join_bytes, bit_or_shifted,
}
use cuddles.Memory.{Memory, slot, in_vga_text, vga_text_base, read_u8, write_u8}
use cuddles.Memory.Layout.{IsValid, slot_injective, answers}

-- The address holds a byte: it is in the text window or in RAM.
abbrev pub writable : Memory → ℕ → Bool
writable m addr = in_vga_text addr || answers (slot m addr)

-- The cell of the text window after a write to one of its halves, as the two bytes read back.
cell_write :
    (cell val : ℕ)
    → cell < 2 ^ 16
    → val < 2 ^ 8
    → let lo = bit_or (bit_and cell 0xFF00) val in
      let hi = bit_or (bit_and cell 0x00FF) (val <<< 8) in
      (bit_and lo 0xFF ≡ val)
      × (u8 (lo >>> 8) ≡ u8 (cell >>> 8))
      × (lo < 2 ^ 16)
      × (bit_and hi 0xFF ≡ bit_and cell 0xFF)
      × (u8 (hi >>> 8) ≡ val)
      × (hi < 2 ^ 16)
cell_write cell val hc hv =
    let lo : bit_or (bit_and cell 0xFF00) val ≡ cell / 2 ^ 8 * 2 ^ 8 + val =
      rw (high_byte cell hc) (bit_or_shifted 8 (cell / 2 ^ 8) val hv) in
    let hi : bit_or (bit_and cell 0x00FF) (val <<< 8) ≡ val * 2 ^ 8 + cell % 2 ^ 8 =
      rw (low_byte cell) (join_bytes (cell % 2 ^ 8) val (omega arith)) in
    rw (lo, hi, low_byte, low_byte, low_byte) (omega arith)

-- What a byte write does, by where its address lies.
abbrev changed_cell : Memory → ℕ → ℕ → ℕ
changed_cell m addr val =
    let cell = m.vga_text ((addr - vga_text_base) / 2) in
    if (addr - vga_text_base) % 2 == 0
    then bit_or (bit_and cell 0xFF00) val
    else bit_or (bit_and cell 0x00FF) (val <<< 8)

abbrev with_text : Memory → ℕ → ℕ → Memory
with_text m addr val = record m {
  vga_text = update m.vga_text ((addr - vga_text_base) / 2) (changed_cell m addr val);
}

abbrev with_cell : Memory → ℕ → ℕ → Memory
with_cell m i val = record m { cells = update m.cells i val }

module _ (addr val : ℕ) (m : Memory) where
  write_u8-text : in_vga_text addr ≡ true → write_u8 addr val m ≡ with_text m addr val
  unfolding write_u8
  write_u8-text h = rw h

  write_u8-ram :
      (i : ℕ)
      → in_vga_text addr ≡ false
      → slot m addr ≡ some i
      → write_u8 addr val m ≡ with_cell m i val
  unfolding write_u8
  write_u8-ram i h e = rw (h, e)

  write_u8-open : in_vga_text addr ≡ false → slot m addr ≡ none → write_u8 addr val m ≡ m
  unfolding write_u8
  write_u8-open h e = rw (h, e)

  -- Writes do not move the layout.
  pub slot-write_u8 : (b : ℕ) → slot (write_u8 addr val m) b ≡ slot m b
  slot-write_u8 b = elim (Bool-cases (in_vga_text addr)) [
    | inl t ↦ rw (write_u8-text t) (unfold slot in refl)
    | inr f ↦ elim (Option-cases (slot m addr)) [
      | inl e ↦ rw (write_u8-open f e)
      | inr (i, e) ↦ rw (write_u8-ram i f e) (unfold slot in refl)
    ]
  ]

slot-with_text : (m : Memory) (addr val b : ℕ) → slot (with_text m addr val) b ≡ slot m b
unfolding slot
slot-with_text m addr val b = refl

slot-with_cell : (m : Memory) (i val b : ℕ) → slot (with_cell m i val) b ≡ slot m b
unfolding slot
slot-with_cell m i val b = refl

abbrev after_write : ℕ → ℕ → Memory → ℕ → ℕ
after_write addr val m b = if (addr == b) && writable m addr then val else read_u8 m b

-- In a valid memory, at addresses below 2 ^ 64, a byte read after a byte write gives the written
-- byte at the written address, if that is in the text window or in RAM, and what was there before
-- anywhere else.
pub read_u8-write_u8 :
    (addr val b : ℕ) (m : Memory)
    → IsValid m
    → addr < 2 ^ 64
    → b < 2 ^ 64
    → val < 2 ^ 8
    → read_u8 (write_u8 addr val m) b
      ≡ (if (addr == b) && writable m addr then val else read_u8 m b)
read_u8-write_u8 addr val b m v ha hb hv = elim (Bool-cases (in_vga_text addr)) [
  | inl t ↦ rw (write_u8-text addr val m t) (text_case t)
  | inr f ↦ elim (Option-cases (slot m addr)) [
    | inl e ↦ rw (write_u8-open addr val m f e, f, e) (ground arith)
    | inr (i, e) ↦ rw (write_u8-ram addr val m i f e) (ram_case i f e)
  ]
]
  where
    text_case :
        in_vga_text addr ≡ true → read_u8 (with_text m addr val) b ≡ after_write addr val m b
    text_case t =
        unfold read_u8 in
        ground (
          arith,
          slot-with_text m addr val b,
          cell_write (m.vga_text ((addr - vga_text_base) / 2)) val (v.text _) hv,
        )

    ram_case :
        (i : ℕ)
        → in_vga_text addr ≡ false
        → slot m addr ≡ some i
        → read_u8 (with_cell m i val) b ≡ after_write addr val m b
    ram_case i f e = elim (Option-cases (slot m b)) [
      | inl none_b ↦
          unfold read_u8 in
          ground (arith, slot-with_cell m i val b, none_b, e, ap (slot m) {x = addr} {y = b})
      | inr (j, eb) ↦
          unfold read_u8 in
          ground (arith, slot-with_cell m i val b, eb, e, slot_injective m v addr b i ha hb e)
    ]

cell_byte-lt : (w val : ℕ) → w < 2 ^ 16 → val < 2 ^ 8 → bit_or (bit_and w 0xFF00) val < 2 ^ 16
cell_byte-lt w val hw hv = (cell_write w val hw hv).2

-- A byte write keeps the memory valid and every address as writable as it was.
pub write_u8-IsValid :
    (addr val : ℕ) (m : Memory) → IsValid m → val < 2 ^ 8 → IsValid (write_u8 addr val m)
write_u8-IsValid addr val m v hv = elim (Bool-cases (in_vga_text addr)) [
  | inl t ↦ rw (write_u8-text addr val m t) (record {
    low = v.low;
    pages = v.pages;
    least = v.least;
    addressable = v.addressable;
    bytes = v.bytes;
    text = λ i. text_ok i;
  })
  | inr f ↦ elim (Option-cases (slot m addr)) [
    | inl e ↦ rw (write_u8-open addr val m f e) v
    | inr (i, e) ↦ rw (write_u8-ram addr val m i f e) (record {
      low = v.low;
      pages = v.pages;
      least = v.least;
      addressable = v.addressable;
      bytes = λ j. ground (arith, v.bytes j);
      text = v.text;
    })
  ]
]
  where
    text_ok : (i : ℕ) → (with_text m addr val).vga_text i < 2 ^ 16
    text_ok i =
        let cell = m.vga_text ((addr - vga_text_base) / 2) in
        ground (arith, v.text i, cell_write cell val (v.text _) hv)

pub writable-write_u8 :
    (addr val b : ℕ) (m : Memory) → writable (write_u8 addr val m) b ≡ writable m b
writable-write_u8 addr val b m = rw (slot-write_u8 addr val m b)

-- Reading gives a byte.
pub read_u8-lt : (m : Memory) (addr : ℕ) → IsValid m → read_u8 m addr < 2 ^ 8
unfolding read_u8
read_u8-lt m addr v = elim (Option-cases (slot m addr)) [
  | inl e ↦ rw e (ground (arith, low_byte (m.vga_text ((addr - vga_text_base) / 2)), v.text))
  | inr (i, e) ↦
      rw e (ground (arith, low_byte (m.vga_text ((addr - vga_text_base) / 2)), v.bytes i))
]
