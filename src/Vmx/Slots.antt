-- ===== src/Vmx/Slots.antt =====
-- The fields of the working copy of src/vmx.rs: which slots they have, and what a write leaves.
use cuddles.Base.{
  ℕ, ◌+◌, ◌-◌, ◌*◌, ◌/◌, ◌%◌, ◌^◌, ◌≤◌, ◌<◌, ◌≡◌, ◌≢◌, refl, sym, ap, ◌∙◌, some, bit_or, bit_and,
  bit_not, ◌<<<◌, u64, arith, update, bit_and_low, bit_and_shifted, bit_or_shifted, bit_or_low, ◌⊎◌,
  inl, inr,
}
use native.Mathlib.Nat.{mod-lt, mod-mod, mul-add-mod_self_right, one-le-pow}
use cuddles.Vmx.{
  Vmx, slot, width_of, launched, read, write, read_slot, written, launch_slot, highest_index, slots,
}

-- What a slot says of an encoding.
pub slot_lem :
    (enc s : ℕ)
    → slot enc ≡ some s
    → (enc / 2 % 2 ^ 9 ≡ s % 32)
      × (s % 32 ≤ highest_index)
      × (enc / 2 ^ 10 % 4 ≡ s / 32 % 4)
      × (enc / 2 ^ 13 % 4 ≡ s / 128)
      × (s < slots)
unfolding slot
slot_lem enc s h =
    let index = bit_and_low 9 (enc / 2) in
    let ty = bit_and_low 2 (enc / 2 ^ 10) in
    let width = bit_and_low 2 (enc / 2 ^ 13) in ground (arith, h, index, ty, width)

-- An encoding with a slot has 15 bits.
slot-lt : (enc s : ℕ) → slot enc ≡ some s → enc / 2 ^ 15 % 2 ^ 17 ≡ 0
unfolding slot
slot-lt enc s h =
    let rest = bit_and_shifted 15 enc (2 ^ 17 - 1) in
    let high = bit_and_low 17 (enc / 2 ^ 15) in ground (arith, h, rest, high)

-- Fields share a slot only if their encodings agree but for the reserved bit and the lowest one.
slot-field :
    (a b s : ℕ)
    → slot a ≡ some s
    → slot b ≡ some s
    → a < 2 ^ 32
    → b < 2 ^ 32
    → a / 2 ^ 12 % 2 ≡ 0
    → b / 2 ^ 12 % 2 ≡ 0
    → a / 2 ≡ b / 2
slot-field a b s ha hb wa wb ca cb =
    omega (arith, slot_lem a s ha, slot_lem b s hb, slot-lt a s ha, slot-lt b s hb, ca, cb)

-- No field lies in the slot of the launch state.
slot-launch : (enc : ℕ) → slot enc ≢ some launch_slot
slot-launch enc h = ground (arith, slot_lem enc launch_slot h)

-- The low bits of a merge are the new ones.
low_part :
    (w c old v : ℕ)
    → bit_and (bit_or (bit_and old (c * 2 ^ w)) (bit_and v (2 ^ w - 1))) (2 ^ w - 1) ≡ v % 2 ^ w
low_part w c old v =
    let q = bit_and (old / 2 ^ w) c in
    rw
      (
        bit_and_shifted w old c,
        bit_and_low w v,
        bit_or_shifted w q (v % 2 ^ w) (mod-lt v (one-le-pow w 2 (omega arith))),
      )
      (bit_and_low w (q * 2 ^ w + v % 2 ^ w)
        ∙ mul-add-mod_self_right q (2 ^ w) (v % 2 ^ w)
        ∙ mod-mod v (2 ^ w))

width_cases : (enc : ℕ) → (width_of enc ≡ 16) ⊎ (width_of enc ≡ 32) ⊎ (width_of enc ≡ 64)
unfolding width_of
width_cases enc = ground arith

module _ (enc old v : ℕ) where
  pub written_low : bit_and enc 1 ≡ 0 → read_slot enc (written enc old v) ≡ v % 2 ^ width_of enc
  unfolding read_slot written
  written_low even = rw even (elim (width_cases enc) [
    | inl w16 ↦ rw w16 (low_part 16 (2 ^ 48 - 1) old v)
    | inr (inl w32) ↦ rw w32 (low_part 32 (2 ^ 32 - 1) old v)
    | inr (inr w64) ↦ rw w64 (low_part 64 0 old v)
  ])

  written_high : bit_and enc 1 ≡ 1 → written enc old v ≡ v % 2 ^ 32 * 2 ^ 32 + old % 2 ^ 32
  unfolding written
  written_high odd =
      let cut : u64 (v <<< 32) ≡ v % 2 ^ 32 * 2 ^ 32 = omega arith in
      rw (odd, cut, bit_and_low 32 old) (bit_or_low 32 (old % 2 ^ 32) (v % 2 ^ 32) (omega arith))

read_lem : (x : Vmx) (enc s : ℕ) → slot enc ≡ some s → read enc x ≡ read_slot enc (x.vmcs s)
unfolding read
read_lem x enc s known = rw (read, known) refl

slot_next : (enc : ℕ) → bit_and enc 1 ≡ 0 → slot (enc + 1) ≡ slot enc
unfolding slot
slot_next enc even =
    let low : enc % 2 ≡ 0 = sym (bit_and_low 1 enc) ∙ even in
    let index : (enc + 1) / 2 ≡ enc / 2 = omega (arith, low) in
    let ty : (enc + 1) / 2 ^ 10 ≡ enc / 2 ^ 10 = omega (arith, low) in
    let width : (enc + 1) / 2 ^ 13 ≡ enc / 2 ^ 13 = omega (arith, low) in
    let high : (enc + 1) / 2 ^ 15 ≡ enc / 2 ^ 15 = omega (arith, low) in
    let rest : bit_and (enc + 1) (bit_not 32 0x7FFF) ≡ bit_and enc (bit_not 32 0x7FFF) =
      bit_and_shifted 15 (enc + 1) (2 ^ 17 - 1)
      ∙ ap (λ q. bit_and q (2 ^ 17 - 1) * 2 ^ 15) high
      ∙ sym (bit_and_shifted 15 enc (2 ^ 17 - 1)) in
    rw (index, ty, width, rest) refl

module _ (x : Vmx) (enc v s : ℕ) (known : slot enc ≡ some s) where
  write_lem : write enc v x ≡ record x { vmcs = update x.vmcs s (written enc (x.vmcs s) v) }
  unfolding write
  write_lem = rw (write, known) refl

  -- For the encodings below 2 ^ 32 of two fields that have a slot, with bit 12 clear and not
  -- halves of one field, and the first not the upper half of its field: after a write of any value
  -- to the first, a read of it gives the value cut to its width; a read of the second gives what
  -- it gave before, and the launch state is kept.
  pub read-write :
      (other t : ℕ)
      → slot other ≡ some t
      → enc < 2 ^ 32
      → other < 2 ^ 32
      → other / 2 ≢ enc / 2
      → enc / 2 ^ 12 % 2 ≡ 0
      → other / 2 ^ 12 % 2 ≡ 0
      → bit_and enc 1 ≡ 0
      → (read enc (write enc v x) ≡ v % 2 ^ width_of enc)
        × (read other (write enc v x) ≡ read other x)
        × (launched (write enc v x) ≡ launched x)
  unfolding read launched
  read-write other t elsewhere word other_word differs clear other_clear even =
      let free : s ≢ launch_slot = λ e. slot-launch enc (known ∙ ap some e) in
      let apart : s ≢ t = λ e.
        differs (
          slot-field other enc t elsewhere (known ∙ ap some e) other_word word other_clear clear) in
      let y = write enc v x in
      let here : y.vmcs s ≡ written enc (x.vmcs s) v = rw write_lem (ground arith) in
      let there : y.vmcs t ≡ x.vmcs t = rw write_lem (ground (arith, apart)) in
      (
        read_lem y enc s known ∙ ap (read_slot enc) here ∙ written_low enc (x.vmcs s) v even,
        read_lem y other t elsewhere
            ∙ ap (read_slot other) there
            ∙ sym (read_lem x other t elsewhere),
        rw write_lem (ground (arith, free)),
      )

module _ (x : Vmx) (enc v s : ℕ) (known : slot enc ≡ some s) (wide : width_of enc ≡ 64)
    (even : bit_and enc 1 ≡ 0) (small : x.vmcs s < 2 ^ 64) where
  -- For a field of 64 bits: what is written to its high half is read there, and the low half is kept.
  pub read-write_halves :
      let y = write (enc + 1) v x in
      (read (enc + 1) y ≡ v % 2 ^ 32) × (read enc y ≡ v % 2 ^ 32 * 2 ^ 32 + read enc x % 2 ^ 32)
  unfolding read_slot
  read-write_halves =
      let known' : slot (enc + 1) ≡ some s = slot_next enc even ∙ known in
      let odd : bit_and (enc + 1) 1 ≡ 1 =
        bit_and_low 1 (enc + 1) ∙ omega (arith, sym (bit_and_low 1 enc) ∙ even) in
      let old = x.vmcs s in
      let new = v % 2 ^ 32 * 2 ^ 32 + old % 2 ^ 32 in
      let y = write (enc + 1) v x in
      let here : y.vmcs s ≡ new =
        rw (write_lem x (enc + 1) v s known') (ground (arith, written_high (enc + 1) old v odd)) in
      let whole = λ (a : ℕ). bit_and_low 64 a in
      let before : read enc x ≡ old =
        read_lem x enc s known ∙ rw (even, wide) (whole old ∙ omega arith) in
      (
        read_lem y (enc + 1) s known' ∙ rw (odd, here) (omega arith),
        read_lem y enc s known ∙ rw (even, wide, here, before) (whole new ∙ omega arith),
      )
