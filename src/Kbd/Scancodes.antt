-- ===== src/Kbd/Scancodes.antt =====
-- Text as the scancodes of a keyboard: `ascii_to_scancode` and `scancodes_for` of src/kbd.rs. A
-- text is the list of its bytes.
use cuddles.Base.{
  ℕ, ◌+◌, ◌<◌, ◌≡◌, refl, ◌∙◌, Bool, true, false, ◌&&◌, Option, none, some, List, [], ◌∷◌, ◌++◌,
  arith, bit_or, ◌==◌, ltb, leb, if◌then◌else◌, bit_or_low, Option-cases, inl, inr, Bool-cases,
}

-- The unshifted keycap of every key, and its make code.
abbrev keys : List (ℕ × ℕ)
keys =
    (0x31, 0x02)
    ∷ (0x32, 0x03)
    ∷ (0x33, 0x04)
    ∷ (0x34, 0x05)
    ∷ (0x35, 0x06)
    ∷ (0x36, 0x07)
    ∷ (0x37, 0x08)
    ∷ (0x38, 0x09)
    ∷ (0x39, 0x0A)
    ∷ (0x30, 0x0B)
    ∷ (0x2D, 0x0C)
    ∷ (0x3D, 0x0D)
    ∷ (0x08, 0x0E)
    ∷ (0x09, 0x0F)
    ∷ (b'q', 0x10)
    ∷ (b'w', 0x11)
    ∷ (b'e', 0x12)
    ∷ (b'r', 0x13)
    ∷ (b't', 0x14)
    ∷ (b'y', 0x15)
    ∷ (b'u', 0x16)
    ∷ (b'i', 0x17)
    ∷ (b'o', 0x18)
    ∷ (b'p', 0x19)
    ∷ (0x5B, 0x1A)
    ∷ (0x5D, 0x1B)
    ∷ (0x0A, 0x1C)
    ∷ (b'a', 0x1E)
    ∷ (b's', 0x1F)
    ∷ (b'd', 0x20)
    ∷ (b'f', 0x21)
    ∷ (b'g', 0x22)
    ∷ (b'h', 0x23)
    ∷ (b'j', 0x24)
    ∷ (b'k', 0x25)
    ∷ (b'l', 0x26)
    ∷ (0x3B, 0x27)
    ∷ (0x27, 0x28)
    ∷ (0x60, 0x29)
    ∷ (0x5C, 0x2B)
    ∷ (b'z', 0x2C)
    ∷ (b'x', 0x2D)
    ∷ (b'c', 0x2E)
    ∷ (b'v', 0x2F)
    ∷ (b'b', 0x30)
    ∷ (b'n', 0x31)
    ∷ (b'm', 0x32)
    ∷ (0x2C, 0x33)
    ∷ (0x2E, 0x34)
    ∷ (0x2F, 0x35)
    ∷ (0x20, 0x39)
    ∷ []

-- The shifted keycap of a key, and the unshifted one.
abbrev shifted : List (ℕ × ℕ)
shifted =
    (0x21, 0x31)
    ∷ (0x40, 0x32)
    ∷ (0x23, 0x33)
    ∷ (0x24, 0x34)
    ∷ (0x25, 0x35)
    ∷ (0x5E, 0x36)
    ∷ (0x26, 0x37)
    ∷ (0x2A, 0x38)
    ∷ (0x28, 0x39)
    ∷ (0x29, 0x30)
    ∷ (0x5F, 0x2D)
    ∷ (0x2B, 0x3D)
    ∷ (0x7B, 0x5B)
    ∷ (0x7D, 0x5D)
    ∷ (0x3A, 0x3B)
    ∷ (0x22, 0x27)
    ∷ (0x7E, 0x60)
    ∷ (0x7C, 0x5C)
    ∷ (0x3C, 0x2C)
    ∷ (0x3E, 0x2E)
    ∷ (0x3F, 0x2F)
    ∷ []

-- `iter().find(...)` on the first components, and the second of what it finds.
find : ℕ → List (ℕ × ℕ) → Option ℕ
find k [] = none
find k ((c, v) ∷ rest) = if c == k then some v else find k rest

key : ℕ → Option ℕ
key k = find k keys

abbrev with_shift : Bool → Option ℕ → Option (ℕ × Bool)
with_shift shift none = none
with_shift shift (some sc) = some (sc, shift)

abbrev unshifted : ℕ → Option ℕ → Option (ℕ × Bool)
unshifted c (some base) = with_shift true (key base)
unshifted c none = with_shift false (key c)

pub ascii_to_scancode : ℕ → Option (ℕ × Bool)
ascii_to_scancode c =
    if leb 0x41 c && leb c 0x5A
    then with_shift true (key (c + 32))
    else unshifted c (find c shifted)

abbrev pub lshift_make : ℕ
lshift_make = 0x2A

abbrev pub lshift_break : ℕ
lshift_break = 0xAA

-- The codes of one character.
abbrev stroke : Option (ℕ × Bool) → List ℕ
stroke none = []
stroke (some (sc, true)) = lshift_make ∷ sc ∷ bit_or sc 0x80 ∷ lshift_break ∷ []
stroke (some (sc, false)) = sc ∷ bit_or sc 0x80 ∷ []

pub scancodes_for : List ℕ → List ℕ
scancodes_for [] = []
scancodes_for (c ∷ text) = stroke (ascii_to_scancode c) ++ scancodes_for text

abbrev AllBelow : ℕ → List (ℕ × ℕ) → Type 0
AllBelow n [] = Unit {0}
AllBelow n ((k, v) ∷ rest) = (v < n) × AllBelow n rest

-- What a keyboard driver sees: a make code presses a key, and a break code must release the key
-- that was pressed last.
abbrev release : List ℕ → ℕ → Option (List ℕ)
release [] code = none
release (h ∷ held) code = if h + 0x80 == code then some held else none

abbrev press : List ℕ → ℕ → Option (List ℕ)
press held code = if ltb code 0x80 then some (code ∷ held) else release held code

unfoldable pub replay : List ℕ → List ℕ → Option (List ℕ)
replay held [] = some held
replay held (code ∷ codes) = elim (press held code) [
  | none ↦ none
  | some held' ↦ replay held' codes
]

find-lt : (n c v : ℕ) (table : List (ℕ × ℕ)) → AllBelow n table → find c table ≡ some v → v < n
unfolding find
find-lt n c v [] small h = cc
find-lt n c v ((k, w) ∷ rest) small h = elim (Bool-cases (k == c)) [
  | inl e ↦ ground (arith, small.0)
  | inr e ↦ find-lt n c v rest small.1 (ground arith)
]

keys_small : AllBelow 0x80 keys
keys_small = omega arith

key-lt : (k v : ℕ) → key k ≡ some v → v < 0x80
unfolding key
key-lt k v h = find-lt 0x80 k v keys keys_small h

with_shift-lt : (shift s : Bool) (k sc : ℕ) → with_shift shift (key k) ≡ some (sc, s) → sc < 0x80
with_shift-lt shift s k sc h = elim (Option-cases (key k)) [
  | inl e ↦ absurd (cc (rw e at h))
  | inr (v, e) ↦ ground (arith, key-lt k v e, e)
]

unshifted-lt : (c : ℕ) (o : Option ℕ) (s : Bool) (sc : ℕ) → unshifted c o ≡ some (sc, s) → sc < 0x80
unshifted-lt c none s sc h = with_shift-lt false s c sc h
unshifted-lt c (some base) s sc h = with_shift-lt true s base sc h

-- Every make code is below 0x80.
pub ascii_to_scancode-lt :
    (c sc : ℕ) (shift : Bool) → ascii_to_scancode c ≡ some (sc, shift) → sc < 0x80
unfolding ascii_to_scancode
ascii_to_scancode-lt c sc shift h = elim (Bool-cases (leb 0x41 c && leb c 0x5A)) [
  | inl upper ↦ with_shift-lt true shift (c + 32) sc (rw upper at h)
  | inr other ↦ unshifted-lt c (find c shifted) shift sc (rw other at h)
]

break_code : (sc : ℕ) → sc < 0x80 → bit_or sc 0x80 ≡ sc + 0x80
break_code sc h = omega (arith, bit_or_low 7 sc 1 h)

replay-press :
    (held held' : List ℕ) (code : ℕ) (codes : List ℕ)
    → press held code ≡ some held'
    → replay held (code ∷ codes) ≡ replay held' codes
unfolding replay
replay-press held held' code codes e = rw (replay, e)

-- A key pressed and released, around whatever leaves the held keys alone.
replay_pair :
    (sc : ℕ) (middle rest held : List ℕ)
    → sc < 0x80
    → replay (sc ∷ held) middle ≡ replay (sc ∷ held) ((sc + 0x80) ∷ rest)
    → replay held (sc ∷ middle) ≡ replay held rest
replay_pair sc middle rest held h inner =
    replay-press held (sc ∷ held) sc middle (ground arith)
    ∙ inner
    ∙ replay-press (sc ∷ held) held (sc + 0x80) rest (ground arith)

keystroke :
    (sc : ℕ) (shift : Bool) (rest held : List ℕ)
    → sc < 0x80
    → replay held (stroke (some (sc, shift)) ++ rest) ≡ replay held rest
keystroke sc true rest held h =
    rw (break_code sc h)
      (replay_pair 0x2A _ rest held (omega arith) (replay_pair sc _ (0xAA ∷ rest) _ h refl))
keystroke sc false rest held h = rw (break_code sc h) (replay_pair sc _ rest held h refl)

-- One character's codes, in front of any others, leave the held keys as they were.
replay-stroke :
    (o : Option (ℕ × Bool)) (rest held : List ℕ)
    → ((sc : ℕ) (shift : Bool) → o ≡ some (sc, shift) → sc < 0x80)
    → replay held (stroke o ++ rest) ≡ replay held rest
unfolding replay
replay-stroke none rest held small = refl
replay-stroke (some (sc, shift)) rest held small =
    keystroke sc shift rest held (small sc shift refl)

-- The codes of a text press and release keys in nesting pairs: whatever keys were held before, the
-- same are held after, so no key stays down and none is released twice.
pub replay-scancodes_for : (text held : List ℕ) → replay held (scancodes_for text) ≡ some held
unfolding scancodes_for replay
replay-scancodes_for [] held = refl
replay-scancodes_for (c ∷ text) held =
    replay-stroke (ascii_to_scancode c) (scancodes_for text) held
      (λ sc shift e. ascii_to_scancode-lt c sc shift e)
    ∙ replay-scancodes_for text held
