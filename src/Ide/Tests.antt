-- ===== src/Ide/Tests.antt =====
-- Instances of the theorems about src/ide.rs at concrete inputs.
use cuddles.Base.{
  ℕ, zero, suc, ap, ◌+◌, ◌*◌, ◌^◌, ◌≤◌, ◌<◌, max, ◌≡◌, refl, true, List, [], ◌∷◌, ◌++◌, length,
  take, drop, replicate, get_or, arith,
}
use cuddles.Ide.{Ide, new, lba, start_of, bytes_asked, write_command, read_data, flush_write}
use cuddles.Ide.Sectors.{IsValid, read_words, words_of, read_sectors_lem}
use cuddles.Ide.Persist.{Access, write_words, bytes_of, write_sectors_lem}

-- A disk of one block of 0xA5, with the registers on it.
abbrev loaded : Ide
loaded = record new { disk = replicate 512 0xA5; present = true; sector_count = 1 }

replicate-lt : (n a : ℕ) → a < 2 ^ 8 → (i : ℕ) → get_or (replicate n a) i 0 < 2 ^ 8
replicate-lt zero a h i = omega arith
replicate-lt (suc n) a h zero = h
replicate-lt (suc n) a h (suc i) = replicate-lt n a h i

length-copies : (n a : ℕ) → length (replicate n a) ≡ n
length-copies zero a = refl
length-copies (suc n) a = ap suc (length-copies n a)

loaded-IsValid : IsValid loaded
unfolding new
loaded-IsValid = record {
  low = omega arith;
  mid = omega arith;
  high = omega arith;
  disk = replicate-lt 512 0xA5 (omega arith);
}

loaded-room : start_of loaded + bytes_asked loaded ≤ length loaded.disk
unfolding new lba
loaded-room = omega arith

read_sectors_lem_example :
    let d' = write_command 0x20 loaded in
    let done = read_words (256 * max loaded.sector_count 1) d' in
    (d'.error ≡ 0)
    × (done.0 ≡ words_of (take (bytes_asked loaded) (drop (start_of loaded) loaded.disk)))
    × ((read_data done.1).0 ≡ 0)
    × (done.1.disk ≡ loaded.disk)
read_sectors_lem_example = read_sectors_lem loaded loaded-IsValid refl loaded-room

write_sectors_lem_example :
    let done = flush_write (write_words (replicate 256 0x1234) (write_command 0x30 loaded)) in
    (done.disk
      ≡ take (start_of loaded) loaded.disk
        ++ (bytes_of (replicate 256 0x1234)
            ++ drop (start_of loaded + bytes_asked loaded) loaded.disk))
    × (done.error ≡ 0)
    × (done.pending_command ≡ 0)
write_sectors_lem_example =
    write_sectors_lem (replicate 256 0x1234) loaded refl loaded-room (length-copies 256 0x1234)

abbrev session : List Access
session = Access.to_command 0x30 ∷ Access.to_data 0x1234 ∷ Access.from_data ∷ []
