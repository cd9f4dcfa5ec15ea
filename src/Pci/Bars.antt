-- ===== src/Pci/Bars.antt =====
-- Base address registers of src/pci.rs: sizing, programming, and partial writes.
use native.Mathlib.Nat.{one-le-pow, div-lt_iff_lt-mul, mod-eq_of_lt, pow-le-pow_right}
use cuddles.Base.{
  pow_add, ℕ, zero, suc, ◌+◌, ◌-◌, ◌*◌, ◌/◌, ◌^◌, ◌≤◌, ◌<◌, ◌≡◌, refl, ap, ◌∙◌, Bool, true, false,
  ◌&&◌, ◌||◌, arith, bit_and, bit_or, ◌==◌, ltb, leb, if◌then◌else◌, ◌>>>◌, bit_not, has_bits, u8,
  update, bit_or_shifted, if_both, low_byte, bit_and_low, bit_and_shifted, bit_or-lt, bit_and-lt,
}
use cuddles.Pci.{Function, write_function, write_bar, scatter, read_only, put32, read32}

-- A word of 32 bits is read back from the four bytes it is stored in.
pub read32-put32 : (off val : ℕ) (f : Function) → val < 2 ^ 32 → read32 off (put32 off val f) ≡ val
unfolding read32 put32
read32-put32 off val f h = ground arith

-- The type bit of an I/O register.
abbrev pub is_io : Function → ℕ → Bool
is_io f bar = has_bits (f.config (0x10 + bar * 4)) 1

pred_mul : (q p : ℕ) → (q - 1) * p ≡ q * p - p
pred_mul zero p = omega arith
pred_mul (suc q) p =
    ap (λ (t : ℕ). t * p) {x = suc q - 1} {y = q} (omega arith)
    ∙ omega (arith, ap (λ (t : ℕ). t * p) {x = suc q} {y = q + 1} (omega arith))

pow_split : (k : ℕ) → k < 32 → 2 ^ (32 - k) * 2 ^ k ≡ 2 ^ 32
pow_split k hi = pow_add (32 - k) k ∙ ap (λ (e : ℕ). 2 ^ e) {x = 32 - k + k} {y = 32} (omega arith)

-- The mask of a size is a multiple of it, and clears the bits below it.
mask_lem :
    (k x : ℕ)
    → k < 32
    → x < 2 ^ 32
    → let mask = bit_not 32 (2 ^ k - 1) in
      (mask ≡ (2 ^ (32 - k) - 1) * 2 ^ k)
      × (mask ≡ 2 ^ 32 - 2 ^ k)
      × (bit_and x mask ≡ x / 2 ^ k * 2 ^ k)
mask_lem k x hi hx =
    let q = 2 ^ (32 - k) in
    let total : q * 2 ^ k ≡ 2 ^ 32 = pow_split k hi in
    let below : (q - 1) * 2 ^ k ≡ 2 ^ 32 - 2 ^ k = omega (arith, total, pred_mul q (2 ^ k)) in
    let size : 2 ^ k ≤ 2 ^ 32 = grind (arith, total, one-le-pow (32 - k) 2 (omega arith)) in
    let mask : bit_not 32 (2 ^ k - 1) ≡ (q - 1) * 2 ^ k =
      omega (arith, below, size, one-le-pow k 2 (omega arith)) in
    let short : x / 2 ^ k < q =
      (div-lt_iff_lt-mul (one-le-pow k 2 (omega arith))).1 (omega (arith, total)) in
    (
      mask,
      mask ∙ below,
      rw mask (
          bit_and_shifted k x (q - 1)
          ∙ rw (bit_and_low (32 - k) (x / 2 ^ k)) (ap (λ (t : ℕ). t * 2 ^ k) (mod-eq_of_lt short))),
    )

abbrev pub type_bit : Function → ℕ → ℕ
type_bit f bar = if is_io f bar then 1 else 0

-- What a register of `2 ^ k` bytes holds after a write.
abbrev stored : ℕ → ℕ → ℕ → ℕ
stored k bit value =
    let mask = bit_not 32 (2 ^ k - 1) in
    if value == 0xFFFF_FFFF then bit_or mask bit else bit_or (bit_and value mask) bit

write_function-bar :
    (bar k value : ℕ) (f : Function)
    → bar < 6
    → k < 32
    → f.bar_size bar ≡ 2 ^ k
    → write_function (0x10 + bar * 4) 0 4 value f
      ≡ put32 (0x10 + bar * 4) (stored k (type_bit f bar) value) f
unfolding write_function write_bar
write_function-bar bar k value f hb hk size =
    let index : (0x10 + bar * 4 - 0x10) / 4 ≡ bar = omega arith in
    let window : leb 0x10 (0x10 + bar * 4) && ltb (0x10 + bar * 4) 0x28 ≡ true = ground arith in
    let some_size : (2 ^ k == 0) ≡ false = ground (arith, one-le-pow k 2 (omega arith)) in
    rw (window, index, size, some_size) refl

stored-value :
    (k bit value : ℕ)
    → 1 ≤ k
    → k < 32
    → bit < 2
    → value < 2 ^ 32
    → stored k bit value
      ≡ (if value == 2 ^ 32 - 1 then 2 ^ 32 - 2 ^ k + bit else value / 2 ^ k * 2 ^ k + bit)
stored-value k bit value lo hi hb hv =
    let m = mask_lem k value hi hv in
    let fits : bit < 2 ^ k = omega (arith, pow-le-pow_right {n = 2} (omega arith) lo) in
    ground (
      arith,
      m,
      ap (λ (t : ℕ). bit_or t bit) m.0,
      ap (λ (t : ℕ). bit_or t bit) m.2,
      bit_or_shifted k (2 ^ (32 - k) - 1) bit fits,
      bit_or_shifted k (value / 2 ^ k) bit fits,
    )

stored-lt : (k bit value : ℕ) → bit < 2 → value < 2 ^ 32 → stored k bit value < 2 ^ 32
stored-lt k bit value hb hv =
    let mask = bit_not 32 (2 ^ k - 1) in
    ground (
      arith,
      bit_or-lt 32 mask bit,
      bit_or-lt 32 (bit_and value mask) bit,
      bit_and-lt 32 value mask hv,
    )

-- For a register 0 to 5 of `2 ^ k` bytes, k from 1 to 31: all ones written to it read back as 2 ^
-- 32 - 2 ^ k with the type bit, and any other value below 2 ^ 32 as the multiple of 2 ^ k below
-- it, with the type bit.
pub bar-sizing :
    (bar k base : ℕ) (f : Function)
    → bar < 6
    → 1 ≤ k
    → k < 32
    → f.bar_size bar ≡ 2 ^ k
    → base < 2 ^ 32 - 1
    → let reg = 0x10 + bar * 4 in
      let bit = type_bit f bar in
      (read32 reg (write_function reg 0 4 0xFFFF_FFFF f) ≡ 2 ^ 32 - 2 ^ k + bit)
      × (read32 reg (write_function reg 0 4 base f) ≡ base / 2 ^ k * 2 ^ k + bit)
bar-sizing bar k base f hb lo hi size small =
    let bit : type_bit f bar < 2 = ground arith in
    let reg = 0x10 + bar * 4 in
    let held = λ (value : ℕ) (h : value < 2 ^ 32).
      ap (read32 reg) (write_function-bar bar k value f hb hi size)
      ∙ read32-put32 reg (stored k (type_bit f bar) value) f (stored-lt k _ value bit h)
      ∙ stored-value k (type_bit f bar) value lo hi bit h in
    (held 0xFFFF_FFFF (omega arith), ground (arith, held base (omega arith)))

-- The bytes below those still to be written are left alone.
scatter-below :
    (left i off value : ℕ) (f : Function) (r : ℕ)
    → r < off + i
    → (scatter left i off value f).config r ≡ f.config r
unfolding scatter
scatter-below zero i off value f r h = refl
scatter-below (suc left) i off value f r h =
    scatter-below left (i + 1) off value _ r (omega arith)
    ∙ if_both (λ (g : Function). g.config r ≡ f.config r) (leb 256 (off + i) || read_only (off + i))
        refl (ground arith)

bar_byte :
    (bar byte : ℕ) (f : Function)
    → bar < 6
    → let reg = 0x10 + bar * 4 in
      (if leb 256 (reg + 0 + 0) || read_only (reg + 0 + 0)
          then f
          else record f { config = update f.config (reg + 0 + 0) byte }).config
        reg
      ≡ byte
unfolding read_only
bar_byte bar byte f hb = ground arith

-- A write of one to three bytes to a base address register 0 to 5 stores its low byte as it is,
-- type bit included.
pub partial-bar :
    (bar size value : ℕ) (f : Function)
    → bar < 6
    → 1 ≤ size
    → size < 4
    → (write_function (0x10 + bar * 4) 0 size value f).config (0x10 + bar * 4) ≡ u8 value
unfolding write_function scatter
partial-bar bar (suc left) value f hb lo hi =
    let reg = 0x10 + bar * 4 in
    let no_window : leb 0x10 reg && ltb reg 0x28 && suc left == 4 && true ≡ false = ground arith in
    rw no_window (
      scatter-below left 1 (reg + 0) value _ reg (omega arith)
      ∙ bar_byte bar (bit_and (value >>> 0) 0xFF) f hb
      ∙ low_byte (value / 2 ^ 0)
      ∙ omega arith)
partial-bar bar zero value f hb lo hi = absurd (omega arith)
