-- ===== src/Ide/Persist.antt =====
-- What reaches the disk of src/ide.rs, and what does not.
use cuddles.Base.{
  ℕ, zero, suc, ◌+◌, ◌*◌, ◌/◌, ◌%◌, ◌^◌, ◌≤◌, ◌≡◌, refl, ap, sym, ◌∙◌, max, true, false, ◌&&◌, List,
  [], ◌∷◌, ◌++◌, arith, bit_and, ltb, leb, length, take, drop, replicate, set, length-append,
  low_byte,
}
use cuddles.Ide.{
  Ide, lba, write_reg, write_command, read_data, write_data, flush_write, start_of, bytes_asked,
  overwrite,
}

-- What the ports of the controller offer.
pub data Access : Type 0 where
  to_register : (port val : ℕ) → Access
  to_command to_data : ℕ → Access
  from_data : Access

abbrev pub access : Access → Ide → Ide
access (to_register port val) d = write_reg port val d
access (to_command cmd) d = write_command cmd d
access (to_data val) d = write_data val d
access from_data d = (read_data d).1

abbrev pub accesses : List Access → Ide → Ide
accesses [] d = d
accesses (a ∷ rest) d = accesses rest (access a d)

pub access-disk : (a : Access) (d : Ide) → (access a d).disk ≡ d.disk
unfolding write_reg write_command write_data read_data
access-disk (to_register port val) d = ground arith
access-disk (to_command cmd) d = ground arith
access-disk (to_data val) d = ground arith
access-disk from_data d = ground arith

-- No sequence of port accesses changes the disk, a write command with all of its data included.
pub accesses-disk : (acts : List Access) (d : Ide) → (accesses acts d).disk ≡ d.disk
accesses-disk [] d = refl
accesses-disk (a ∷ rest) d = accesses-disk rest (access a d) ∙ access-disk a d

-- Where no disk is present or the blocks asked for go past its end, the read command 0x20 reports
-- sector not found and leaves an empty buffer, so that the data port gives 0.
pub read_sectors-error :
    (d : Ide)
    → (d.present && leb (start_of d + bytes_asked d) (length d.disk)) ≡ false
    → let d' = write_command 0x20 d in
      (d'.error ≡ 0x04) × (d'.data_buffer ≡ []) × (read_data d' ≡ (0, d'))
unfolding write_command read_data lba
read_sectors-error d out = rw out (refl, refl, refl)

-- Writes of words to the data port, first one first.
abbrev pub write_words : List ℕ → Ide → Ide
write_words [] d = d
write_words (w ∷ ws) d = write_words ws (write_data w d)

-- The bytes of a list of words, low byte first.
abbrev pub bytes_of : List ℕ → List ℕ
bytes_of [] = []
bytes_of (w ∷ ws) = w % 2 ^ 8 ∷ w / 2 ^ 8 % 2 ^ 8 ∷ bytes_of ws

set-append :
    (pre : List ℕ) (x v : ℕ) (rest : List ℕ)
    → set (pre ++ x ∷ rest) (length pre) v ≡ pre ++ v ∷ rest
set-append [] x v rest = refl
set-append (p ∷ pre) x v rest = ap (λ (ys : List ℕ). p ∷ ys) (set-append pre x v rest)

set-append_next :
    (pre : List ℕ) (x y v : ℕ) (rest : List ℕ)
    → set (pre ++ x ∷ y ∷ rest) (suc (length pre)) v ≡ pre ++ x ∷ v ∷ rest
set-append_next [] x y v rest = refl
set-append_next (p ∷ pre) x y v rest = ap (λ (ys : List ℕ). p ∷ ys) (set-append_next pre x y v rest)

append_assoc : (xs ys zs : List ℕ) → (xs ++ ys) ++ zs ≡ xs ++ (ys ++ zs)
append_assoc [] ys zs = refl
append_assoc (x ∷ xs) ys zs = ap (λ (ws : List ℕ). x ∷ ws) (append_assoc xs ys zs)

-- The controller with `pre` transferred and `rest` still to come.
abbrev at_place : List ℕ → List ℕ → Ide → Ide
at_place pre rest d = record d { data_buffer = pre ++ rest; data_index = length pre }

write_data-place :
    (pre : List ℕ) (x y w : ℕ) (rest : List ℕ) (d : Ide)
    → write_data w (at_place pre (x ∷ y ∷ rest) d)
      ≡ at_place (pre ++ w % 2 ^ 8 ∷ w / 2 ^ 8 % 2 ^ 8 ∷ []) rest d
unfolding write_data
write_data-place pre x y w rest d =
    let inside : ltb (length pre + 1) (length (pre ++ x ∷ y ∷ rest)) ≡ true =
      ground (arith, length-append pre (x ∷ y ∷ rest)) in
    let next : length pre + 1 ≡ suc (length pre) = omega arith in
    let index : length pre + 2 ≡ length (pre ++ w % 2 ^ 8 ∷ w / 2 ^ 8 % 2 ^ 8 ∷ []) =
      omega (arith, length-append pre (w % 2 ^ 8 ∷ w / 2 ^ 8 % 2 ^ 8 ∷ [])) in
    rw
      (
        inside,
        next,
        set-append pre x (bit_and w 0xFF) (y ∷ rest),
        set-append_next pre (bit_and w 0xFF) y (w / 2 ^ 8 % 2 ^ 8) rest,
        low_byte w,
      )
      (rw (sym (append_assoc pre (w % 2 ^ 8 ∷ w / 2 ^ 8 % 2 ^ 8 ∷ []) rest), index) refl)

append-nil : (xs : List ℕ) → xs ++ [] ≡ xs
append-nil [] = refl
append-nil (x ∷ xs) = ap (λ (ys : List ℕ). x ∷ ys) (append-nil xs)

-- The controller with `all` transferred.
abbrev filled : List ℕ → Ide → Ide
filled all d = record d { data_buffer = all; data_index = length all }

write_words-place :
    (ws pre rest : List ℕ) (d : Ide)
    → length rest ≡ 2 * length ws
    → write_words ws (at_place pre rest d) ≡ filled (pre ++ bytes_of ws) d
write_words-place [] pre [] d h =
    ap (λ (n : ℕ). record d { data_buffer = pre ++ []; data_index = n })
      (ap length (sym (append-nil pre)))
write_words-place [] pre (x ∷ rest) d h = absurd (omega arith)
write_words-place (w ∷ ws) pre [] d h = absurd (omega arith)
write_words-place (w ∷ ws) pre (x ∷ []) d h = absurd (omega arith)
write_words-place (w ∷ ws) pre (x ∷ y ∷ rest) d h =
    ap (write_words ws) (write_data-place pre x y w rest d)
    ∙ write_words-place ws (pre ++ w % 2 ^ 8 ∷ w / 2 ^ 8 % 2 ^ 8 ∷ []) rest d (omega arith)
    ∙ ap (λ (b : List ℕ). filled b d)
        (append_assoc pre (w % 2 ^ 8 ∷ w / 2 ^ 8 % 2 ^ 8 ∷ []) (bytes_of ws))

length-bytes_of : (ws : List ℕ) → length (bytes_of ws) ≡ 2 * length ws
length-bytes_of [] = refl
length-bytes_of (w ∷ ws) = omega (arith, length-bytes_of ws)

length-replicate : (n : ℕ) → length (replicate {A = ℕ} n 0) ≡ n
length-replicate zero = refl
length-replicate (suc n) = ap suc (length-replicate n)

-- The controller after the write command.
abbrev asked : Ide → Ide
asked d = record d {
  error = 0;
  pending_command = 0x30;
  busy = false;
  status = 0x40;
  data_buffer = replicate (bytes_asked d) 0;
  data_index = 0;
}

write_command-write : (d : Ide) → write_command 0x30 d ≡ asked d
unfolding write_command
write_command-write d = refl

flush_write-filled :
    (bytes : List ℕ) (d : Ide)
    → d.present ≡ true
    → start_of d + length bytes ≤ length d.disk
    → flush_write (filled bytes (asked d)) ≡ record (filled bytes (asked d)) {
      disk = overwrite d.disk (start_of d) bytes;
      pending_command = 0;
    }
unfolding flush_write lba
flush_write-filled bytes d here room = rw (here, leb_lem _ _ room) refl
  where
    leb_lem : (a b : ℕ) → a ≤ b → leb a b ≡ true
    leb_lem a b h = ground arith

-- Where a disk is present and holds the blocks named by the registers, the write command 0x30, 256
-- words for each block and a flush replace exactly those blocks of the disk by the words, low byte
-- first, with no error and with no command left pending.
pub write_sectors_lem :
    (ws : List ℕ) (d : Ide)
    → d.present ≡ true
    → start_of d + bytes_asked d ≤ length d.disk
    → length ws ≡ 256 * max d.sector_count 1
    → let done = flush_write (write_words ws (write_command 0x30 d)) in
      (done.disk
        ≡ take (start_of d) d.disk ++ (bytes_of ws ++ drop (start_of d + bytes_asked d) d.disk))
      × (done.error ≡ 0)
      × (done.pending_command ≡ 0)
write_sectors_lem ws d here room count =
    let size : length (bytes_of ws) ≡ bytes_asked d = omega (arith, length-bytes_of ws) in
    let all =
      ap (write_words ws) (write_command-write d)
      ∙ write_words-place ws [] (replicate (bytes_asked d) 0) (asked d)
          (omega (arith, length-replicate (bytes_asked d))) in
    rw (all, flush_write-filled (bytes_of ws) d here (omega (arith, size)), size) (refl, refl, refl)
