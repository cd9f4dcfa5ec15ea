-- ===== src/Dma/Program.antt =====
-- Programming a channel of src/dma.rs through its byte ports.
use cuddles.Base.{
  ℕ, ◌+◌, ◌*◌, ◌/◌, ◌^◌, ◌<◌, ◌≡◌, ◌≢◌, refl, ◌∙◌, Bool, false, not, arith, bit_and, bit_or,
  if◌then◌else◌, ◌<<<◌, ◌>>>◌, bit_and_low, bit_and_shifted, bit_or_shifted, low_byte, join_bytes,
  update,
}
use cuddles.Dma.{Dma, address, write_channel}

-- A word of which first the low and then the high byte is replaced.
two_bytes :
    (w lo hi : ℕ)
    → lo < 2 ^ 8
    → bit_or (bit_and (bit_or (bit_and w 0xFF00) lo) 0x00FF) (hi <<< 8) ≡ hi * 2 ^ 8 + lo
two_bytes w lo hi h =
    let top = bit_and (w / 2 ^ 8) 0xFF in
    let first : bit_or (bit_and w 0xFF00) lo ≡ top * 2 ^ 8 + lo =
      rw (bit_and_shifted 8 w 0xFF) (bit_or_shifted 8 top lo h) in
    let low : bit_and (bit_or (bit_and w 0xFF00) lo) 0x00FF ≡ lo =
      rw first (low_byte (top * 2 ^ 8 + lo) ∙ omega arith) in
    rw low (join_bytes lo hi h)

-- The channel and the register that a port names.
ports :
    (ch : ℕ)
    → ch < 4
    → (bit_and ((2 * ch) >>> 1) 3 ≡ ch)
      × (bit_and ((2 * ch + 1) >>> 1) 3 ≡ ch)
      × (bit_and (2 * ch) 1 ≡ 0)
      × (bit_and (2 * ch + 1) 1 ≡ 1)
ports ch small = omega (
  arith,
  bit_and_low 2 ((2 * ch) >>> 1),
  bit_and_low 2 ((2 * ch + 1) >>> 1),
  bit_and_low 1 (2 * ch),
  bit_and_low 1 (2 * ch + 1),
)

abbrev part_of : Bool → ℕ → ℕ → ℕ
part_of high val w =
    if high then bit_or (bit_and w 0x00FF) (val <<< 8) else bit_or (bit_and w 0xFF00) val

write_base :
    (ch val : ℕ) (d : Dma)
    → ch < 4
    → write_channel (2 * ch) val d ≡ record d {
      channels =
          update d.channels ch
            (record (d.channels ch) { base = part_of d.high_byte val (d.channels ch).base });
      high_byte = not d.high_byte;
    }
unfolding write_channel
write_base ch val d small = let p = ports ch small in rw (p.0, p.2) refl

write_count :
    (ch val : ℕ) (d : Dma)
    → ch < 4
    → write_channel (2 * ch + 1) val d ≡ record d {
      channels =
          update d.channels ch
            (record (d.channels ch) { count = part_of d.high_byte val (d.channels ch).count });
      high_byte = not d.high_byte;
    }
unfolding write_channel
write_count ch val d small = let p = ports ch small in rw (p.1, p.3) refl

-- With the flip-flop clear, two writes to the address port of a channel 0 to 3, or to its count
-- port, the low byte first, set that register to the word and leave the flip-flop clear; no other
-- register of the channel and no other channel changes.
pub program_channel :
    (ch j lo hi : ℕ) (d : Dma)
    → ch < 4
    → j ≢ ch
    → lo < 2 ^ 8
    → d.high_byte ≡ false
    → let word = hi * 2 ^ 8 + lo in
      let at_base = write_channel (2 * ch) hi (write_channel (2 * ch) lo d) in
      let at_count = write_channel (2 * ch + 1) hi (write_channel (2 * ch + 1) lo d) in
      (at_base.channels ch ≡ record (d.channels ch) { base = word })
      × (at_count.channels ch ≡ record (d.channels ch) { count = word })
      × (at_base.high_byte ≡ false)
      × (at_count.high_byte ≡ false)
      × (at_base.channels j ≡ d.channels j)
      × (at_count.channels j ≡ d.channels j)
program_channel ch j lo hi d small other h low =
    let c = d.channels ch in
    rw
      (
        write_base ch lo d small,
        write_count ch lo d small,
        write_base ch hi _ small,
        write_count ch hi _ small,
        low,
      )
      (ground (arith, two_bytes c.base lo hi h, two_bytes c.count lo hi h))

-- For a channel 0 to 3 with a base of 16 bits and a page of 8, the address is their concatenation,
-- 24 bits.
pub address_lem :
    (d : Dma) (ch : ℕ)
    → ch < 4
    → (d.channels ch).base < 2 ^ 16
    → (d.channels ch).page < 2 ^ 8
    → (address d ch ≡ (d.channels ch).page * 2 ^ 16 + (d.channels ch).base)
      × (address d ch < 2 ^ 24)
unfolding address
address_lem d ch small hb hp =
    rw (ch_index, bit_or_shifted 16 (d.channels ch).page (d.channels ch).base hb) (omega arith)
  where
    ch_index : bit_and ch 3 ≡ ch
    ch_index = bit_and_low 2 ch ∙ omega arith
