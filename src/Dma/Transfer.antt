-- ===== src/Dma/Transfer.antt =====
-- What a transfer of src/dma.rs leaves in memory.
use cuddles.Base.{
  ℕ, zero, suc, ◌+◌, ◌-◌, ◌*◌, ◌^◌, ◌≤◌, ◌<◌, ◌≡◌, ◌≢◌, refl, ◌∙◌, true, false, ◌&&◌, arith,
  bit_and, bit_or, ltb, leb, if◌then◌else◌, ◌<<<◌, u8, bit_and_low, Bool-cases, inl, inr,
}
use cuddles.Memory.{Memory, read_u8, write_u8}
use cuddles.Memory.Layout.{IsValid}
use cuddles.Memory.Bytes.{
  writable, read_u8-write_u8, write_u8-IsValid, writable-write_u8, read_u8-lt,
}
use cuddles.Dma.{Dma, address, copy, transfer}

-- The memory that a copy leaves at the address `b`: the bytes of the destination that can be
-- written hold the bytes of the source.
abbrev pub copied : Memory → ℕ → ℕ → ℕ → ℕ → ℕ
copied m n src dst b =
    if leb dst b && ltb b (dst + n) && writable m b
    then read_u8 m (src + (b - dst))
    else read_u8 m b

copy-from :
    (left i src dst b : ℕ) (m : Memory)
    → IsValid m
    → src + (i + left) ≤ dst
    → dst + (i + left) < 2 ^ 64
    → b < 2 ^ 64
    → read_u8 (copy left i src dst m) b ≡ (
        if leb (dst + i) b && ltb b (dst + (i + left)) && writable m b
        then read_u8 m (src + (b - dst))
        else read_u8 m b)
unfolding copy
copy-from zero i src dst b m v apart small hb = ground arith
copy-from (suc left) i src dst b m v apart small hb =
    let x = read_u8 m (src + i) in
    let hx = read_u8-lt m (src + i) v in
    let m' = write_u8 (dst + i) x m in
    ground (
      arith,
      copy-from left (i + 1) src dst b m' (write_u8-IsValid (dst + i) x m v hx) (omega arith)
          (omega arith) hb,
      writable-write_u8 (dst + i) x b m,
      read_u8-write_u8 (dst + i) x b m v (omega arith) hb hx,
      read_u8-write_u8 (dst + i) x (src + (b - dst)) m v (omega arith) (omega arith) hx,
    )

copy-copied :
    (n src : ℕ) (m : Memory)
    → IsValid m
    → src + n + n < 2 ^ 64
    → (b : ℕ) → b < 2 ^ 64
    → read_u8 (copy n 0 src (src + n) m) b ≡ copied m n src (src + n) b
copy-copied n src m v room b hb =
    ground (arith, copy-from n 0 src (src + n) b m v (omega arith) (omega arith) hb)

channel_bit : (ch : ℕ) → ch < 4 → u8 (1 <<< ch) ≡ 2 ^ ch
channel_bit zero h = refl
channel_bit (suc zero) h = refl
channel_bit (suc (suc zero)) h = refl
channel_bit (suc (suc (suc zero))) h = refl
channel_bit (suc (suc (suc (suc ch)))) h = omega arith

-- In a valid memory, on an enabled channel 0 to 3 whose two blocks lie below 2 ^ 64, a transfer
-- moves the 2 * (count + 1) bytes at the channel's address to the block right above them, where
-- they can be written, and changes no other byte below 2 ^ 64; it notes the channel in the status
-- and, unless the channel is auto-initialised, disables it. Every other channel is kept.
pub transfer_lem :
    (ch b j : ℕ) (d : Dma) (m : Memory)
    → IsValid m
    → ch < 4
    → b < 2 ^ 64
    → j ≢ ch
    → (d.channels ch).enabled ≡ true
    → let n = ((d.channels ch).count + 1) * 2 in
      let src = address d ch in
      src + n + n < 2 ^ 64
      → let done = transfer ch d m in
        (done.0 ≡ n)
        × (read_u8 done.2 b ≡ copied m n src (src + n) b)
        × (done.1.status ≡ bit_or d.status (2 ^ ch))
        × ((done.1.channels ch).enabled ≡ (d.channels ch).auto_init)
        × (done.1.channels j ≡ d.channels j)
unfolding transfer
transfer_lem ch b j d m v small hb other on room =
    let c = d.channels ch in
    let n = (c.count + 1) * 2 in
    let index : bit_and ch 3 ≡ ch = bit_and_low 2 ch ∙ omega arith in
    let bit : u8 (1 <<< ch) ≡ 2 ^ ch = channel_bit ch small in
    let moved = copy-copied n (address d ch) m v room b hb in
    rw (index, on, bit)
      (elim (Bool-cases c.auto_init) [
        | inl t ↦ rw (t, on) (refl, moved, refl, refl, refl)
        | inr f ↦ rw f (refl, moved, refl, ground arith, ground arith)
      ])

-- On a disabled channel a transfer moves nothing and changes nothing.
pub transfer-disabled :
    (ch : ℕ) (d : Dma) (m : Memory)
    → (d.channels (bit_and ch 3)).enabled ≡ false
    → transfer ch d m ≡ (0, d, m)
unfolding transfer
transfer-disabled ch d m off = rw off
