-- ===== src/Pit.antt =====
-- The 8254 interval timer: src/pit.rs. The three channels are separate fields, as in the source.
pub mod Program
pub mod Count
pub mod Valid
mod Tests
use cuddles.Base.{
  ℕ, zero, suc, ◌+◌, ◌-◌, ◌*◌, ◌/◌, ◌%◌, ◌^◌, Bool, true, false, not, ◌&&◌, ◌||◌, bit_and, bit_or,
  ◌==◌, ltb, leb, if◌then◌else◌, ◌<<<◌, ◌>>>◌, has_bits, u8, u16,
}

pub record Pit : Type 0 where
  pub ch0_count : ℕ
  pub ch0_reload : ℕ
  pub ch0_mode : ℕ
  pub ch0_bcd : Bool
  pub ch0_access : ℕ
  pub ch0_lsb_pending : Bool
  pub ch0_lsb : ℕ
  pub ch1_count : ℕ
  pub ch1_reload : ℕ
  pub ch1_mode : ℕ
  pub ch1_access : ℕ
  pub ch1_lsb_pending : Bool
  pub ch1_lsb : ℕ
  pub ch2_count : ℕ
  pub ch2_reload : ℕ
  pub ch2_mode : ℕ
  pub ch2_access : ℕ
  pub ch2_lsb_pending : Bool
  pub ch2_lsb : ℕ
  pub ch2_gate : Bool
  pub ch2_out : Bool
  pub speaker_on : Bool
  pub refresh_toggle : Bool
  pub irq0 : Bool
  pub active_channel : ℕ
  pub active_access : ℕ
  pub active_mode : ℕ
  pub active_bcd : Bool

unfoldable pub new : Pit
new = record {
  ch0_count = 0;
  ch0_reload = 0;
  ch0_mode = 3;
  ch0_bcd = false;
  ch0_access = 3;
  ch0_lsb_pending = false;
  ch0_lsb = 0;
  ch1_count = 0;
  ch1_reload = 0;
  ch1_mode = 3;
  ch1_access = 3;
  ch1_lsb_pending = false;
  ch1_lsb = 0;
  ch2_count = 0;
  ch2_reload = 0;
  ch2_mode = 3;
  ch2_access = 3;
  ch2_lsb_pending = false;
  ch2_lsb = 0;
  ch2_gate = false;
  ch2_out = false;
  speaker_on = false;
  refresh_toggle = false;
  irq0 = false;
  active_channel = 0;
  active_access = 3;
  active_mode = 3;
  active_bcd = false;
}

pub write_control : ℕ → Pit → Pit
write_control val p =
    let channel = bit_and (val >>> 6) 3 in
    let access = bit_and (val >>> 4) 3 in
    let mode = bit_and (val >>> 1) 7 in
    let bcd = bit_and val 1 == 1 in
    let q = record p {
      active_channel = channel;
      active_access = access;
      active_mode = mode;
      active_bcd = bcd;
    } in
    if channel == 3
    then p
    else if channel == 0
    then record q { ch0_mode = mode; ch0_access = access; ch0_bcd = bcd }
    else if channel == 1
    then record q { ch1_mode = mode; ch1_access = access }
    else record q { ch2_mode = mode; ch2_access = access }

-- The low byte of a word replaced, the high byte replaced, and the two bytes joined.
abbrev pub with_lsb : ℕ → ℕ → ℕ
with_lsb w val = bit_or (bit_and w 0xFF00) val

abbrev pub with_msb : ℕ → ℕ → ℕ
with_msb w val = bit_or (bit_and w 0x00FF) (val <<< 8)

abbrev pub word_of : ℕ → ℕ → ℕ
word_of lsb val = bit_or lsb (val <<< 8)

pub write_ch0 : ℕ → Pit → Pit
write_ch0 val p =
    let lsb = with_lsb p.ch0_reload val in
    let msb = with_msb p.ch0_reload val in
    let word = word_of p.ch0_lsb val in
    if p.ch0_access == 1
    then record p { ch0_reload = lsb; ch0_count = lsb }
    else if p.ch0_access == 2
    then record p { ch0_reload = msb; ch0_count = msb }
    else if p.ch0_lsb_pending
    then record p { ch0_reload = word; ch0_count = word; ch0_lsb_pending = false }
    else record p { ch0_lsb = val; ch0_lsb_pending = true }

pub write_ch1 : ℕ → Pit → Pit
write_ch1 val p =
    let lsb = with_lsb p.ch1_reload val in
    let msb = with_msb p.ch1_reload val in
    let word = word_of p.ch1_lsb val in
    if p.ch1_access == 1
    then record p { ch1_reload = lsb; ch1_count = lsb }
    else if p.ch1_access == 2
    then record p { ch1_reload = msb; ch1_count = msb }
    else if p.ch1_lsb_pending
    then record p { ch1_reload = word; ch1_count = word; ch1_lsb_pending = false }
    else record p { ch1_lsb = val; ch1_lsb_pending = true }

pub write_ch2 : ℕ → Pit → Pit
write_ch2 val p =
    let lsb = with_lsb p.ch2_reload val in
    let msb = with_msb p.ch2_reload val in
    let word = word_of p.ch2_lsb val in
    if p.ch2_access == 1
    then record p { ch2_reload = lsb; ch2_count = lsb; ch2_out = false }
    else if p.ch2_access == 2
    then record p { ch2_reload = msb; ch2_count = msb; ch2_out = false }
    else if p.ch2_lsb_pending
    then record p { ch2_reload = word; ch2_count = word; ch2_lsb_pending = false; ch2_out = false }
    else record p { ch2_lsb = val; ch2_lsb_pending = true }

pub write_data : ℕ → Pit → Pit
unfolding write_ch0 write_ch1 write_ch2
write_data val p =
    if p.active_channel == 0
    then write_ch0 val p
    else if p.active_channel == 1
    then write_ch1 val p
    else write_ch2 val p

-- `b as u8`.
abbrev pub bool_bit : Bool → ℕ
bool_bit true = 1
bool_bit false = 0

pub read_port61 : Pit → ℕ × Pit
read_port61 p =
    let q = record p { refresh_toggle = not p.refresh_toggle } in
    (
      bit_or
          (bit_or (bit_or (bool_bit q.ch2_gate) (bool_bit q.speaker_on <<< 1))
            (bool_bit q.refresh_toggle <<< 4))
          (bool_bit q.ch2_out <<< 5),
      q,
    )

pub write_port61 : ℕ → Pit → Pit
write_port61 val p = record p { ch2_gate = has_bits val 1; speaker_on = has_bits val 2 }

-- What `read_data` chooses by the port, the offset from 0x40.
abbrev pub port_access : ℕ → Pit → ℕ
port_access port p =
    if port == 0 then p.ch0_access else if port == 1 then p.ch1_access else p.ch2_access

abbrev pub port_count : ℕ → Pit → ℕ
port_count port p =
    if port == 0 then p.ch0_count else if port == 1 then p.ch1_count else p.ch2_count

abbrev pub port_pending : ℕ → Pit → Bool
port_pending port p =
    if port == 0
    then p.ch0_lsb_pending
    else if port == 1
    then p.ch1_lsb_pending
    else p.ch2_lsb_pending

-- The first and the second read of a word.
abbrev read_first : ℕ → ℕ → Pit → Pit
read_first port lsb p =
    if port == 0
    then record p { ch0_lsb = lsb; ch0_lsb_pending = true }
    else if port == 1
    then record p { ch1_lsb = lsb; ch1_lsb_pending = true }
    else record p { ch2_lsb = lsb; ch2_lsb_pending = true }

abbrev read_second : ℕ → Pit → Pit
read_second port p =
    if port == 0
    then record p { ch0_lsb_pending = false }
    else if port == 1
    then record p { ch1_lsb_pending = false }
    else record p { ch2_lsb_pending = false }

pub read_data : ℕ → Pit → ℕ × Pit
read_data port p =
    let access = port_access port p in
    let c = port_count port p in
    let lsb = bit_and c 0xFF in
    if access == 1
    then (lsb, p)
    else if access == 2
    then (u8 (c >>> 8), p)
    else if port_pending port p
    then (u8 (c >>> 8), read_second port p)
    else (lsb, read_first port lsb p)

-- The three parts of `tick`. `-` stops at 0, as `saturating_sub` does.
pub tick_ch0 : ℕ → Pit → Pit
tick_ch0 cycles p =
    if ltb 0 p.ch0_count
    then (if leb p.ch0_count cycles
        then record p { ch0_count = p.ch0_reload; irq0 = true }
        else record p { ch0_count = u16 (p.ch0_count - cycles) })
    else p

pub tick_ch1 : ℕ → Pit → Pit
tick_ch1 cycles p =
    let left = p.ch1_count - u16 cycles in
    if ltb 0 p.ch1_count
    then record p { ch1_count = if left == 0 then p.ch1_reload else left }
    else p

pub tick_ch2 : ℕ → Pit → Pit
tick_ch2 cycles p =
    if p.ch2_gate && not p.ch2_out
    then (if leb p.ch2_count cycles
        then record p { ch2_count = 0; ch2_out = true }
        else record p { ch2_count = u16 (p.ch2_count - cycles) })
    else p

pub tick : ℕ → Pit → Pit
unfolding tick_ch0 tick_ch1 tick_ch2
tick cycles p = tick_ch2 cycles (tick_ch1 cycles (tick_ch0 cycles p))
