-- ===== src/Ide.antt =====
-- The IDE/ATA disk controller: src/ide.rs. The disk and the data buffer are lists of bytes.
pub mod Sectors
pub mod Persist
mod Tests
use cuddles.Base.{
  ℕ, zero, suc, ◌+◌, ◌-◌, ◌*◌, ◌/◌, ◌%◌, ◌^◌, max, Bool, true, false, not, ◌&&◌, ◌||◌, List, [],
  ◌++◌, bit_and, bit_or, ◌==◌, ltb, leb, if◌then◌else◌, ◌<<<◌, ◌>>>◌, u8, length, take, drop,
  replicate, get_or, set,
}

abbrev pub sector_size : ℕ
sector_size = 512

pub record Ide : Type 0 where
  pub disk : List ℕ
  pub present : Bool
  pub error : ℕ
  pub sector_count : ℕ
  pub lba_low : ℕ
  pub lba_mid : ℕ
  pub lba_high : ℕ
  pub drive_head : ℕ
  pub status : ℕ
  pub data_buffer : List ℕ
  pub data_index : ℕ
  pub pending_command : ℕ
  pub busy : Bool

unfoldable pub new : Ide
new = record {
  disk = [];
  present = false;
  error = 0;
  sector_count = 0;
  lba_low = 0;
  lba_mid = 0;
  lba_high = 0;
  drive_head = 0;
  status = 0x40;
  data_buffer = [];
  data_index = 0;
  pending_command = 0;
  busy = false;
}

unfoldable pub load_disk : List ℕ → Ide → Ide
load_disk image d = record d { disk = image; present = true; status = 0x40 }

pub lba : Ide → ℕ
lba d =
    bit_or (bit_or (bit_or d.lba_low (d.lba_mid <<< 8)) (d.lba_high <<< 16))
      (bit_and d.drive_head 0x0F <<< 24)

pub write_reg : ℕ → ℕ → Ide → Ide
write_reg port val d =
    if port == 0x1F1
    then record d { error = val }
    else if port == 0x1F2
    then record d { sector_count = val }
    else if port == 0x1F3
    then record d { lba_low = val }
    else if port == 0x1F4
    then record d { lba_mid = val }
    else if port == 0x1F5
    then record d { lba_high = val }
    else if port == 0x1F6
    then record d { drive_head = val }
    else d

-- `&disk[start..start + n]`, which the caller keeps in range.
abbrev pub slice : List ℕ → ℕ → ℕ → List ℕ
slice xs start n = take n (drop start xs)

-- Where the registers point, and how many bytes they ask for.
abbrev pub start_of : Ide → ℕ
start_of d = lba d * sector_size

abbrev pub bytes_asked : Ide → ℕ
bytes_asked d = max d.sector_count 1 * sector_size

-- The buffer and the error register after a command.
abbrev read_sectors : Ide → Ide
read_sectors d =
    if d.present && leb (start_of d + bytes_asked d) (length d.disk)
    then record d { data_buffer = slice d.disk (start_of d) (bytes_asked d); error = 0 }
    else record d { data_buffer = []; error = 0x04 }

pub write_command : ℕ → Ide → Ide
write_command cmd d =
    let done =
      if cmd == 0x20 || cmd == 0x21
      then read_sectors d
      else if cmd == 0x30 || cmd == 0x31
      then record d { data_buffer = replicate (bytes_asked d) 0; error = 0 }
      else record d { error = 0x04 } in
    record done { pending_command = cmd; data_index = 0; busy = false; status = 0x40 }

pub read_data : Ide → ℕ × Ide
read_data d =
    let i = d.data_index in
    let lo = get_or d.data_buffer i 0 in
    let hi = get_or d.data_buffer (i + 1) 0 in
    if ltb (i + 1) (length d.data_buffer)
    then (bit_or lo (hi <<< 8), record d { data_index = i + 2 })
    else if ltb i (length d.data_buffer)
    then (lo, record d { data_index = i + 1 })
    else (0, d)

pub write_data : ℕ → Ide → Ide
write_data val d =
    let i = d.data_index in
    let low = set d.data_buffer i (bit_and val 0xFF) in
    if ltb (i + 1) (length d.data_buffer)
    then record d { data_buffer = set low (i + 1) (u8 (val >>> 8)); data_index = i + 2 }
    else if ltb i (length d.data_buffer)
    then record d { data_buffer = low; data_index = i + 1 }
    else d

pub read_status : Ide → ℕ
read_status d = d.status

-- `disk[start..start + bytes.len()].copy_from_slice(bytes)`, which the caller keeps in range.
abbrev pub overwrite : List ℕ → ℕ → List ℕ → List ℕ
overwrite xs start bytes = take start xs ++ (bytes ++ drop (start + length bytes) xs)

pub flush_write : Ide → Ide
flush_write d =
    let fits = d.present && leb (start_of d + length d.data_buffer) (length d.disk) in
    let flushed = if fits then overwrite d.disk (start_of d) d.data_buffer else d.disk in
    if d.pending_command == 0x30 || d.pending_command == 0x31
    then record d { disk = flushed; pending_command = 0 }
    else d
