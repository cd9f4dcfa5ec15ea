-- ===== src/Pci/Probe.antt =====
-- What software sees when it enumerates the bus of src/pci.rs.
use cuddles.Base.{
  subst, sym, bit_and_shifted, Option-cases, if_both, List, [], ◌∷◌, ◌⊎◌, inl, inr, ℕ, zero, suc,
  ◌+◌, ◌-◌, ◌*◌, ◌/◌, ◌%◌, ◌≤◌, ◌<◌, ◌≡◌, refl, ap, ◌∙◌, true, ◌&&◌, ◌||◌, Option, none, some,
  arith, bit_and, ◌==◌, ltb, leb, if◌then◌else◌, ◌>>>◌, update, Bool-cases,
}
use cuddles.Pci.{
  Pci, Function, target, write_data, write_at, reached, found, write_function, write_bar, scatter,
  read_only, put32,
}

-- Software writes the address latch, and 1, 2 or 4 bytes at a lane of the data port.
pub data Access : Type 0 where
  latch : ℕ → Access
  data_port : (lane size value : ℕ) → Access

abbrev pub access : Access → Pci → Pci
access (latch val) p = record p { address = val }
access (data_port lane size value) p = write_data lane size value p

abbrev pub accesses : List Access → Pci → Pci
accesses [] p = p
accesses (a ∷ rest) p = accesses rest (access a p)

-- The registers that no access changes: the identity, the class, the header type, the subsystem and the
-- interrupt pin, and everything past the first 256 bytes.
abbrev pub IsFixed : ℕ → Type 0
IsFixed off = (read_only off ≡ true) ⊎ (256 ≤ off)

-- One byte of a write.
abbrev put_byte : ℕ → ℕ → Function → Function
put_byte r byte f =
    if leb 256 r || read_only r then f else record f { config = update f.config r byte }

put_byte-fixed :
    (w byte : ℕ) (f : Function) (r : ℕ) → IsFixed r → (put_byte w byte f).config r ≡ f.config r
put_byte-fixed w byte f r h = elim (Bool-cases (leb 256 w || read_only w)) [
  | inl t ↦ rw t refl
  | inr e ↦ rw e (ground (arith, ap read_only {x = r} {y = w}))
]

scatter-fixed :
    (left i off value : ℕ) (f : Function) (r : ℕ)
    → IsFixed r
    → (scatter left i off value f).config r ≡ f.config r
unfolding scatter
scatter-fixed zero i off value f r h = refl
scatter-fixed (suc left) i off value f r h =
    scatter-fixed left (i + 1) off value _ r h
    ∙ put_byte-fixed (off + i) (bit_and (value >>> (i * 8)) 0xFF) f r h

-- The bytes of a base address register lie between 0x10 and 0x27.
put32-outside :
    (off val : ℕ) (f : Function) (r : ℕ)
    → (r < off) ⊎ (off + 4 ≤ r)
    → (put32 off val f).config r ≡ f.config r
unfolding put32
put32-outside off val f r h = ground arith

fixed_outside : (r : ℕ) → IsFixed r → (r < 0x10) ⊎ (0x28 ≤ r)
unfolding read_only
fixed_outside r h = ground arith

-- The register part of the address latch: a multiple of four.
write_bar-fixed :
    (reg value : ℕ) (f : Function) (r : ℕ)
    → 0x10 ≤ reg
    → reg ≤ 0x24
    → IsFixed r
    → (write_bar reg value f).config r ≡ f.config r
unfolding write_bar
write_bar-fixed reg value f r lo hi h =
    if_both (λ (g : Function). g.config r ≡ f.config r) (f.bar_size ((reg - 0x10) / 4) == 0) refl
      (put32-outside reg _ f r (ground (arith, fixed_outside r h)))

write_function-fixed :
    (reg lane size value : ℕ) (f : Function) (r : ℕ)
    → reg % 4 ≡ 0
    → IsFixed r
    → (write_function reg lane size value f).config r ≡ f.config r
unfolding write_function
write_function-fixed reg lane size value f r aligned h =
    elim (Bool-cases (leb 0x10 reg && ltb reg 0x28 && size == 4 && lane == 0)) [
      | inl t ↦ rw t (write_bar-fixed reg value f r (ground arith) (ground arith) h)
      | inr e ↦ rw e (scatter-fixed size 0 (reg + lane) value f r h)
    ]

-- The configuration byte `r` of the function at a slot, if one answers there.
abbrev pub byte_at : ℕ → Option Function → Option ℕ
byte_at r none = none
byte_at r (some f) = some (f.config r)

register_aligned : (w : ℕ) → bit_and w 0xFC % 4 ≡ 0
register_aligned w = rw (bit_and_shifted 2 w 0x3F) (omega arith)

abbrev pub slot_of : Pci → ℕ
slot_of p = bit_and (p.address >>> 11) 0x1F

abbrev pub register_of : Pci → ℕ
register_of p = bit_and p.address 0xFC

target-cases : (p : Pci) → (target p ≡ none) ⊎ (target p ≡ some (slot_of p, register_of p))
unfolding target
target-cases p = ground arith

-- An access reaches nothing, or a function and an aligned register.
pub reached-cases :
    (p : Pci)
    → (reached p (target p) ≡ none)
      ⊎ ((f : Function) × (reached p (target p) ≡ some (slot_of p, register_of p, f))
          × (p.slots (slot_of p) ≡ some f))
reached-cases p = elim (target-cases p) [
  | inl e ↦ inl (ap (reached p) e)
  | inr e ↦ elim (Option-cases (p.slots (slot_of p))) [
    | inl absent ↦ inl (ap (reached p) e ∙ ap (found (slot_of p) (register_of p)) absent)
    | inr (f, there) ↦
        inr (f, ap (reached p) e ∙ ap (found (slot_of p) (register_of p)) there, there)
  ]
]

==→eq : (a b : ℕ) → (a == b) ≡ true → a ≡ b
==→eq a b h = ground arith

write_data-fixed :
    (lane size value : ℕ) (p : Pci) (slot r : ℕ)
    → IsFixed r
    → byte_at r ((write_data lane size value p).slots slot) ≡ byte_at r (p.slots slot)
unfolding write_data write_at
write_data-fixed lane size value p slot r h = elim (reached-cases p) [
  | inl e ↦
      subst (λ o. byte_at r ((write_at lane size value p o).slots slot) ≡ byte_at r (p.slots slot))
        (sym e) refl
  | inr (f, e, there) ↦
      subst (λ o. byte_at r ((write_at lane size value p o).slots slot) ≡ byte_at r (p.slots slot))
        (sym e)
        (elim (Bool-cases (slot == slot_of p)) [
          | inl t ↦
              rw (t, ==→eq slot (slot_of p) t, there)
                (ap some (
                  write_function-fixed (register_of p) lane size value f r
                    (register_aligned p.address) h))
          | inr g ↦ rw g refl
        ])
]

-- No sequence of accesses changes whether a slot answers, nor, of the function there, an identity,
-- class, header, subsystem or interrupt pin register, or a byte past the first 256.
pub accesses-identity :
    (acts : List Access) (p : Pci) (slot r : ℕ)
    → IsFixed r
    → byte_at r ((accesses acts p).slots slot) ≡ byte_at r (p.slots slot)
accesses-identity [] p slot r h = refl
accesses-identity (latch val ∷ rest) p slot r h =
    accesses-identity rest (record p { address = val }) slot r h
accesses-identity (data_port lane size value ∷ rest) p slot r h =
    accesses-identity rest (write_data lane size value p) slot r h
    ∙ write_data-fixed lane size value p slot r h
