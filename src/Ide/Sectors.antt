-- ===== src/Ide/Sectors.antt =====
-- Reading sectors through the data port of src/ide.rs.
use cuddles.Base.{
  ℕ, zero, suc, ◌+◌, ◌*◌, ◌%◌, ◌^◌, ◌≤◌, ◌<◌, ◌≡◌, refl, ap, ◌∙◌, max, true, false, List, [], ◌∷◌,
  arith, ltb, leb, length, take, drop, get_or, lt→ltb, length-take, length-drop, bit_or_low,
  join_bytes, bit_and_low,
}
use cuddles.Ide.{Ide, lba, write_command, read_data, start_of, bytes_asked, slice}

-- `n` reads of the data port: the words, first one first, and the controller afterwards.
pub read_words : ℕ → Ide → List ℕ × Ide
read_words zero d = ([], d)
read_words (suc n) d =
    let first = read_data d in let rest = read_words n first.1 in (first.0 ∷ rest.0, rest.1)

-- The words of a list of bytes, low byte first.
pub words_of : List ℕ → List ℕ
words_of [] = []
words_of (b ∷ []) = b ∷ []
words_of (lo ∷ hi ∷ rest) = (lo + 2 ^ 8 * hi) ∷ words_of rest

-- The registers hold bytes.
pub record IsValid (d : Ide) : Type 0 where
  pub low : d.lba_low < 2 ^ 8
  pub mid : d.lba_mid < 2 ^ 8
  pub high : d.lba_high < 2 ^ 8
  pub disk : (i : ℕ) → get_or d.disk i 0 < 2 ^ 8

-- Where the address registers hold bytes, the block number is their 28-bit concatenation with the
-- low half of the drive register.
pub lba_lem :
    (d : Ide)
    → IsValid d
    → (lba d ≡ d.drive_head % 2 ^ 4 * 2 ^ 24 + d.lba_high * 2 ^ 16 + d.lba_mid * 2 ^ 8 + d.lba_low)
      × (lba d < 2 ^ 28)
unfolding lba
lba_lem d v =
    let first = join_bytes d.lba_low d.lba_mid v.low in
    let w2 = d.lba_mid * 2 ^ 8 + d.lba_low in
    let second = bit_or_low 16 w2 d.lba_high (omega (arith, v.low, v.mid)) in
    let w3 = d.lba_high * 2 ^ 16 + w2 in
    let third = bit_or_low 24 w3 (d.drive_head % 2 ^ 4) (omega (arith, v.low, v.mid, v.high)) in
    rw (first, second, bit_and_low 4, third) (omega (arith, v.low, v.mid, v.high))

drop-get_or :
    (i : ℕ) (xs : List ℕ)
    → i + 1 < length xs
    → drop i xs ≡ get_or xs i 0 ∷ get_or xs (suc i) 0 ∷ drop (suc (suc i)) xs
drop-get_or i [] h = absurd (omega arith)
drop-get_or zero (x ∷ []) h = absurd (omega arith)
drop-get_or zero (x ∷ y ∷ xs) h = refl
drop-get_or (suc i) (x ∷ xs) h = drop-get_or i xs (omega arith)

-- One read of a whole word.
read_data-word :
    (d : Ide)
    → ((i : ℕ) → get_or d.data_buffer i 0 < 2 ^ 8)
    → d.data_index + 1 < length d.data_buffer
    → read_data d ≡ (
      get_or d.data_buffer d.data_index 0 + 2 ^ 8 * get_or d.data_buffer (suc d.data_index) 0,
      record d { data_index = suc (suc d.data_index) },
    )
unfolding read_data
read_data-word d bytes h =
    let i = d.data_index in
    let next : i + 1 ≡ suc i = omega arith in
    let after : i + 2 ≡ suc (suc i) = omega arith in
    rw
      (
        lt→ltb _ _ h,
        next,
        after,
        join_bytes (get_or d.data_buffer i 0) (get_or d.data_buffer (suc i) 0) (bytes i),
      )
      (ap (λ (w : ℕ). (w, record d { data_index = suc (suc i) })) (omega arith))

-- Reads of whole words, from the bytes of the buffer.
read_words-drop :
    (n : ℕ) (d : Ide)
    → ((i : ℕ) → get_or d.data_buffer i 0 < 2 ^ 8)
    → d.data_index + 2 * n ≤ length d.data_buffer
    → ((read_words n d).0 ≡ words_of (take (2 * n) (drop d.data_index d.data_buffer)))
      × ((read_words n d).1 ≡ record d { data_index = d.data_index + 2 * n })
unfolding read_words words_of
read_words-drop zero d bytes h =
    (refl, ap (λ (i : ℕ). record d { data_index = i }) {x = d.data_index} (omega arith))
read_words-drop (suc n) d bytes h =
    let i = d.data_index in
    let word = get_or d.data_buffer i 0 + 2 ^ 8 * get_or d.data_buffer (suc i) 0 in
    let rest = read_words-drop n (record d { data_index = suc (suc i) }) bytes (omega arith) in
    let count : 2 * suc n ≡ suc (suc (2 * n)) = omega arith in
    let index : i + suc (suc (2 * n)) ≡ suc (suc i) + 2 * n = omega arith in
    rw
      (
        read_data-word d bytes (omega arith),
        count,
        drop-get_or i d.data_buffer (omega arith),
        index,
      )
      (ap (λ (ws : List ℕ). word ∷ ws) rest.0, rest.1)

abbrev AllBytes : List ℕ → Type 0
AllBytes xs = (i : ℕ) → get_or xs i 0 < 2 ^ 8

take-AllBytes : (n : ℕ) (xs : List ℕ) → AllBytes xs → AllBytes (take n xs)
take-AllBytes zero xs h i = omega arith
take-AllBytes (suc n) [] h i = omega arith
take-AllBytes (suc n) (x ∷ xs) h zero = h 0
take-AllBytes (suc n) (x ∷ xs) h (suc i) = take-AllBytes n xs (λ j. h (suc j)) i

drop-AllBytes : (n : ℕ) (xs : List ℕ) → AllBytes xs → AllBytes (drop n xs)
drop-AllBytes zero xs h i = h i
drop-AllBytes (suc n) [] h i = omega arith
drop-AllBytes (suc n) (x ∷ xs) h i = drop-AllBytes n xs (λ j. h (suc j)) i

take-all : (xs : List ℕ) → take (length xs) xs ≡ xs
take-all [] = refl
take-all (x ∷ xs) = ap (λ (ys : List ℕ). x ∷ ys) (take-all xs)

-- The controller with the blocks in its buffer.
abbrev answered : Ide → Ide
answered d = record d {
  data_buffer = slice d.disk (start_of d) (bytes_asked d);
  error = 0;
  pending_command = 0x20;
  data_index = 0;
  busy = false;
  status = 0x40;
}

read_data-end : (d : Ide) → length d.data_buffer ≤ d.data_index → read_data d ≡ (0, d)
unfolding read_data
read_data-end d h =
    let past : ltb (d.data_index + 1) (length d.data_buffer) ≡ false = ground arith in
    let end : ltb d.data_index (length d.data_buffer) ≡ false = ground arith in rw (past, end) refl

write_command-read :
    (d : Ide)
    → d.present ≡ true
    → start_of d + bytes_asked d ≤ length d.disk
    → write_command 0x20 d ≡ answered d
unfolding write_command lba
write_command-read d here room =
    let inside : leb (start_of d + bytes_asked d) (length d.disk) ≡ true = ground arith in
    rw (here, inside) refl

-- Where the address registers and the disk hold bytes, a disk is present and it holds all the
-- blocks asked for, the read command 0x20 reports no error, and 256 reads of the data port for
-- each block give the words of exactly those blocks, low byte first; the next read gives 0, and
-- the disk is as before.
pub read_sectors_lem :
    (d : Ide)
    → IsValid d
    → d.present ≡ true
    → start_of d + bytes_asked d ≤ length d.disk
    → let d' = write_command 0x20 d in
      let done = read_words (256 * max d.sector_count 1) d' in
      (d'.error ≡ 0)
      × (done.0 ≡ words_of (take (bytes_asked d) (drop (start_of d) d.disk)))
      × ((read_data done.1).0 ≡ 0)
      × (done.1.disk ≡ d.disk)
read_sectors_lem d v here room =
    let buffer = slice d.disk (start_of d) (bytes_asked d) in
    let bytes =
      take-AllBytes (bytes_asked d) (drop (start_of d) d.disk)
        (drop-AllBytes (start_of d) d.disk v.disk) in
    let size : length buffer ≡ bytes_asked d = omega (
      arith,
      length-take (bytes_asked d) (drop (start_of d) d.disk),
      length-drop (start_of d) d.disk,
    ) in
    let asked = 256 * max d.sector_count 1 in
    let whole : 2 * asked ≡ length buffer = omega (arith, size) in
    let words = read_words-drop asked (answered d) bytes (omega (arith, size)) in
    rw (write_command-read d here room, words.1)
      (
        refl,
        words.0 ∙ ap (λ (n : ℕ). words_of (take n buffer)) whole ∙ ap words_of (take-all buffer),
        ap (λ (r : ℕ × Ide). r.0)
            (read_data-end (record (answered d) { data_index = 0 + 2 * asked })
              (omega (arith, whole))),
        refl,
      )
