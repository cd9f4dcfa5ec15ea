-- ===== src/Dma.antt =====
-- The 8237 DMA controller: src/dma.rs. The four channels are a function of their number.
pub mod Transfer
pub mod Program
mod Tests
use cuddles.Base.{
  ℕ, zero, suc, ◌+◌, ◌-◌, ◌*◌, ◌/◌, ◌%◌, ◌^◌, Bool, true, false, not, bit_and, bit_or, ◌==◌,
  if◌then◌else◌, ◌<<<◌, ◌>>>◌, has_bits, u8, update,
}
use cuddles.Memory.{Memory, read_u8, write_u8}

pub record DmaChannel : Type 0 where
  pub base : ℕ
  pub count : ℕ
  pub page : ℕ
  pub enabled : Bool
  pub auto_init : Bool
  pub write : Bool

abbrev pub idle_channel : DmaChannel
idle_channel = record {
  base = 0;
  count = 0;
  page = 0;
  enabled = false;
  auto_init = false;
  write = false;
}

pub record Dma : Type 0 where
  pub channels : ℕ → DmaChannel
  pub command : ℕ
  pub status : ℕ
  pub mask : ℕ
  pub selected : ℕ
  pub high_byte : Bool

unfoldable pub new : Dma
new = record {
  channels = λ i. idle_channel;
  command = 0;
  status = 0;
  mask = 0;
  selected = 0;
  high_byte = false;
}

pub address : Dma → ℕ → ℕ
address d ch = let c = d.channels (bit_and ch 3) in bit_or (c.page <<< 16) c.base

pub write_channel : ℕ → ℕ → Dma → Dma
write_channel port val d =
    let ch = bit_and (port >>> 1) 3 in
    let is_count = bit_and port 1 == 1 in
    let c = d.channels ch in
    let high = λ (w : ℕ). bit_or (bit_and w 0x00FF) (val <<< 8) in
    let low = λ (w : ℕ). bit_or (bit_and w 0xFF00) val in
    let part = λ (w : ℕ). if d.high_byte then high w else low w in
    let c' =
      if is_count then record c { count = part c.count } else record c { base = part c.base } in
    record d { channels = update d.channels ch c'; high_byte = not d.high_byte }

abbrev set_page : ℕ → ℕ → Dma → Dma
set_page ch val d = record d {
  channels = update d.channels ch (record (d.channels ch) { page = val });
}

pub write_page : ℕ → ℕ → Dma → Dma
write_page port val d =
    if port == 0x87
    then set_page 0 val d
    else if port == 0x83
    then set_page 1 val d
    else if port == 0x81
    then set_page 2 val d
    else if port == 0x82
    then set_page 3 val d
    else d

pub write_command : ℕ → ℕ → Dma → Dma
write_command port val d =
    let ch = bit_and val 3 in
    let on = bit_and val 4 == 0 in
    if port == 0x08
    then record d { command = val }
    else if port == 0x0A
    then record d {
      channels = update d.channels ch (record (d.channels ch) { enabled = on });
      mask = val;
    }
    else d

pub read_status : Dma → ℕ
read_status d = d.status

-- The copying loop at byte `i`, with `left` bytes to go.
pub copy : ℕ → ℕ → ℕ → ℕ → Memory → Memory
copy zero i src dst m = m
copy (suc left) i src dst m = copy left (i + 1) src dst (write_u8 (dst + i) (read_u8 m (src + i)) m)

-- The number of bytes moved, the controller and the memory.
pub transfer : ℕ → Dma → Memory → ℕ × Dma × Memory
transfer channel d m =
    let ch = bit_and channel 3 in
    let c = d.channels ch in
    let base = address d ch in
    let n = (c.count + 1) * 2 in
    let noted = record d { status = bit_or d.status (u8 (1 <<< ch)) } in
    let d' =
      if c.auto_init
      then noted
      else record noted { channels = update d.channels ch (record c { enabled = false }) } in
    if not c.enabled then (0, d, m) else (n, d', copy n 0 base (base + n) m)
