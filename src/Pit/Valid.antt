-- ===== src/Pit/Valid.antt =====
-- The timer's registers keep their widths under every operation of src/pit.rs.
use cuddles.Base.{
  ℕ, ◌^◌, ◌<◌, List, [], ◌∷◌, arith, bit_and, ◌<<<◌, ◌>>>◌, bit_and-lt, bit_or-lt, bit_and_low,
  low_byte,
}
use cuddles.Pit.{
  Pit, new, write_control, write_data, write_ch0, write_ch1, write_ch2, with_lsb, with_msb, word_of,
  read_data, read_port61, write_port61, tick,
}

-- Counters and reload registers are 16-bit words, the byte latches bytes, the access modes two bits.
pub record IsValid (p : Pit) : Type 0 where
  pub counts : (p.ch0_count < 2 ^ 16) × (p.ch1_count < 2 ^ 16) × (p.ch2_count < 2 ^ 16)
  pub reloads : (p.ch0_reload < 2 ^ 16) × (p.ch1_reload < 2 ^ 16) × (p.ch2_reload < 2 ^ 16)
  pub latches : (p.ch0_lsb < 2 ^ 8) × (p.ch1_lsb < 2 ^ 8) × (p.ch2_lsb < 2 ^ 8)
  pub accesses : (p.ch0_access < 4) × (p.ch1_access < 4) × (p.ch2_access < 4)
  pub active : p.active_channel < 3

pub new-IsValid : IsValid new
unfolding new
new-IsValid = omega arith

with_lsb-lt : (w val : ℕ) → w < 2 ^ 16 → val < 2 ^ 8 → with_lsb w val < 2 ^ 16
with_lsb-lt w val hw hv =
    bit_or-lt 16 (bit_and w 0xFF00) val (bit_and-lt 16 w 0xFF00 hw) (omega arith)

with_msb-lt : (w val : ℕ) → w < 2 ^ 16 → val < 2 ^ 8 → with_msb w val < 2 ^ 16
with_msb-lt w val hw hv =
    bit_or-lt 16 (bit_and w 0x00FF) (val <<< 8) (bit_and-lt 16 w 0x00FF hw) (omega arith)

word_of-lt : (lsb val : ℕ) → lsb < 2 ^ 8 → val < 2 ^ 8 → word_of lsb val < 2 ^ 16
word_of-lt lsb val hl hv = bit_or-lt 16 lsb (val <<< 8) (omega arith) (omega arith)

write_control-IsValid : (val : ℕ) {p : Pit} → IsValid p → IsValid (write_control val p)
unfolding write_control
write_control-IsValid val v = ground (arith, bit_and_low 2 (val >>> 6), bit_and_low 2 (val >>> 4))

write_ch0-IsValid : (val : ℕ) {p : Pit} → val < 2 ^ 8 → IsValid p → IsValid (write_ch0 val p)
unfolding write_ch0
write_ch0-IsValid val {p} h v =
    ground
      (arith, with_lsb-lt p.ch0_reload val, with_msb-lt p.ch0_reload val, word_of-lt p.ch0_lsb val)

write_ch1-IsValid : (val : ℕ) {p : Pit} → val < 2 ^ 8 → IsValid p → IsValid (write_ch1 val p)
unfolding write_ch1
write_ch1-IsValid val {p} h v =
    ground
      (arith, with_lsb-lt p.ch1_reload val, with_msb-lt p.ch1_reload val, word_of-lt p.ch1_lsb val)

write_ch2-IsValid : (val : ℕ) {p : Pit} → val < 2 ^ 8 → IsValid p → IsValid (write_ch2 val p)
unfolding write_ch2
write_ch2-IsValid val {p} h v =
    ground
      (arith, with_lsb-lt p.ch2_reload val, with_msb-lt p.ch2_reload val, word_of-lt p.ch2_lsb val)

write_data-IsValid : (val : ℕ) {p : Pit} → val < 2 ^ 8 → IsValid p → IsValid (write_data val p)
unfolding write_data
write_data-IsValid val {p} h v =
    ground (arith, write_ch0-IsValid val h v, write_ch1-IsValid val h v, write_ch2-IsValid val h v)

read_data-IsValid : (port : ℕ) {p : Pit} → IsValid p → IsValid (read_data port p).1
unfolding read_data
read_data-IsValid port {p} v =
    ground (arith, low_byte p.ch0_count, low_byte p.ch1_count, low_byte p.ch2_count)

port61-IsValid :
    (val : ℕ) {p : Pit} → IsValid p → IsValid (write_port61 val p) × IsValid (read_port61 p).1
unfolding write_port61 read_port61
port61-IsValid val v = ground arith

tick-IsValid : (c : ℕ) {p : Pit} → IsValid p → IsValid (tick c p)
unfolding tick
tick-IsValid c v = ground arith

-- What the CPU does to the timer.
pub data Access : Type 0 where
  control data_byte read_port system_write cycles : ℕ → Access
  system_read : Access

abbrev pub access : Access → Pit → Pit
access (control val) p = write_control val p
access (data_byte val) p = write_data val p
access (read_port port) p = (read_data port p).1
access (system_write val) p = write_port61 val p
access (cycles c) p = tick c p
access system_read p = (read_port61 p).1

-- The values written to the counters are bytes.
abbrev pub IsAccess : Access → Type 0
IsAccess (data_byte val) = val < 2 ^ 8
IsAccess _ = Unit {0}

abbrev pub accesses : List Access → Pit → Pit
accesses [] p = p
accesses (a ∷ rest) p = accesses rest (access a p)

abbrev pub AreAccesses : List Access → Type 0
AreAccesses [] = Unit {0}
AreAccesses (a ∷ rest) = IsAccess a × AreAccesses rest

access-IsValid : (a : Access) {p : Pit} → IsAccess a → IsValid p → IsValid (access a p)
access-IsValid (control val) h v = write_control-IsValid val v
access-IsValid (data_byte val) h v = write_data-IsValid val h v
access-IsValid (read_port port) h v = read_data-IsValid port v
access-IsValid (system_write val) h v = (port61-IsValid val v).0
access-IsValid (cycles c) h v = tick-IsValid c v
access-IsValid system_read h v = (port61-IsValid 0 v).1

-- Any sequence of port accesses with byte values and of ticks keeps a valid timer valid: registers
-- within their widths and the selected channel one of the three.
pub timer_accesses-IsValid :
    (acts : List Access) {p : Pit} → AreAccesses acts → IsValid p → IsValid (accesses acts p)
timer_accesses-IsValid [] h v = v
timer_accesses-IsValid (a ∷ rest) h v = timer_accesses-IsValid rest h.1 (access-IsValid a h.0 v)
