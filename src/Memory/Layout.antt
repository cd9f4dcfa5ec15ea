-- ===== src/Memory/Layout.antt =====
-- Where the RAM of src/memory.rs lies: `slot` places the backing store below the device window and
-- above 4 GiB, and the E820 map describes just that.
use cuddles.Base.{
  ℕ, ◌+◌, ◌-◌, ◌*◌, ◌/◌, ◌%◌, ◌^◌, ◌≤◌, ◌<◌, min, max, ◌≡◌, refl, Bool, true, false, not, ◌&&◌,
  ◌||◌, Option, none, some, List, [], ◌∷◌, arith, ◌==◌, ltb, leb, if◌then◌else◌, bit_and_low,
  bit_and_shifted, length,
}
use cuddles.Memory.{
  Memory, E820Entry, e820_map, round_up, with_size, slot, top_of_ram, mmio_hole_start,
  high_ram_base,
}

-- A machine's memory: RAM in whole pages, at least 1 MiB and addressable, the part below the device
-- window first, bytes in RAM and 16-bit cells in the text window.
pub record IsValid (m : Memory) : Type 0 where
  pub low : m.low_size ≡ min m.ram_size mmio_hole_start
  pub pages : m.ram_size % 4096 ≡ 0
  pub least : 2 ^ 20 ≤ m.ram_size
  pub addressable : m.ram_size < 2 ^ 63
  pub bytes : (i : ℕ) → m.cells i < 2 ^ 8
  pub text : (i : ℕ) → m.vga_text i < 2 ^ 16

round_up_lem : (n : ℕ) → n < 2 ^ 62 → round_up n ≡ (max n (2 ^ 20) + 4095) / 4096 * 4096
unfolding round_up
round_up_lem n h =
    let x = max n (2 ^ 20) + 4095 in
    omega (arith, bit_and_shifted 12 x (2 ^ 52 - 1), bit_and_low 52 (x / 2 ^ 12))

-- For a size below 2 ^ 62, a new memory is valid, at least as large, and larger than the greater
-- of the size and 1 MiB by less than a page.
pub with_size-IsValid :
    (bytes : ℕ)
    → bytes < 2 ^ 62
    → IsValid (with_size bytes)
      × (bytes ≤ (with_size bytes).ram_size)
      × ((with_size bytes).ram_size < max bytes (2 ^ 20) + 4096)
unfolding with_size
with_size-IsValid bytes h =
    let r = round_up_lem bytes h in
    (
      record {
        low = refl;
        pages = omega (arith, r);
        least = omega (arith, r);
        addressable = omega (arith, r);
        bytes = λ i. omega arith;
        text = λ i. omega arith;
      },
      omega (arith, r),
      omega (arith, r),
    )

pub length-e820_map : (ram : ℕ) → length (e820_map ram) ≤ 6
unfolding e820_map
length-e820_map ram = ground arith

module _ (m : Memory) (v : IsValid m) where
  -- An address that `slot` answers has an index inside the store.
  pub slot-lt : (addr i : ℕ) → addr < 2 ^ 64 → slot m addr ≡ some i → i < m.ram_size
  unfolding slot
  slot-lt addr i h e = ground (arith, v.low)

  -- No two addresses share a byte of RAM.
  pub slot_injective :
      (x y i : ℕ) → x < 2 ^ 64 → y < 2 ^ 64 → slot m x ≡ some i → slot m y ≡ some i → x ≡ y
  unfolding slot
  slot_injective x y i hx hy ex ey = ground (arith, v.low, v.addressable)

  -- Where a byte of RAM answers.
  abbrev pub home : ℕ → ℕ
  home i = if ltb i m.low_size then i else high_ram_base + (i - m.low_size)

  -- Every byte of RAM answers somewhere below the top of RAM.
  pub slot-home : (i : ℕ) → i < m.ram_size → (slot m (home i) ≡ some i) × (home i < top_of_ram m)
  unfolding slot top_of_ram
  slot-home i h = ground (arith, v.low, v.addressable)

abbrev pub answers : Option ℕ → Bool
answers none = false
answers (some i) = true

-- Whether some entry of the given kind covers the address.
abbrev pub covers : List E820Entry → ℕ → ℕ → Bool
covers [] kind addr = false
covers (e ∷ es) kind addr =
    (e.kind == kind && leb e.base addr && ltb addr (e.base + e.len)) || covers es kind addr

-- The entries follow one another without overlap, from `at` on.
abbrev pub Ascending : ℕ → List E820Entry → Type 0
Ascending at [] = Unit {0}
Ascending at (e ∷ es) = (at ≤ e.base) × Ascending (e.base + e.len) es

-- In a valid memory, at an address below 2 ^ 64, the E820 map marks as usable exactly the
-- addresses where RAM answers, but for the legacy area from 0x9FC00 to 1 MiB, which it does not.
pub e820_map-slot :
    (m : Memory) (addr : ℕ)
    → IsValid m
    → addr < 2 ^ 64
    → covers (e820_map m.ram_size) 1 addr
      ≡ answers (slot m addr) && not (leb 0x9_FC00 addr && ltb addr 0x10_0000)
unfolding e820_map slot
e820_map-slot m addr v h = ground (arith, v.low, v.least, v.addressable)

-- The entries are in ascending order and do not overlap.
pub e820_map-Ascending : (ram : ℕ) → 2 ^ 20 ≤ ram → Ascending 0 (e820_map ram)
unfolding e820_map
e820_map-Ascending ram h = ground arith
