-- ===== src/Kbd.antt =====
-- The 8042 keyboard controller: src/kbd.rs. Operations that update the controller return the new
-- one; `VecDeque` is a list, oldest byte first.
pub mod Scancodes
pub mod Irq
pub mod Queue
pub mod Commands
mod Tests
use cuddles.Base.{
  ℕ, ◌+◌, Bool, true, false, not, ◌&&◌, ◌||◌, Option, none, some, List, [], ◌∷◌, ◌++◌, bit_and,
  bit_or, ◌==◌, leb, if◌then◌else◌, bit_not, has_bits, ◌-◌, ◌^◌,
}

abbrev pub st_obf : ℕ
st_obf = 0x01

abbrev pub st_sys : ℕ
st_sys = 0x04

abbrev pub st_cmd : ℕ
st_cmd = 0x08

abbrev pub st_unlocked : ℕ
st_unlocked = 0x10

abbrev pub st_aux : ℕ
st_aux = 0x20

abbrev pub ctr_kbd_int : ℕ
ctr_kbd_int = 0x01

abbrev pub ctr_sys : ℕ
ctr_sys = 0x04

abbrev pub ctr_kbd_disable : ℕ
ctr_kbd_disable = 0x10

abbrev pub ctr_aux_disable : ℕ
ctr_aux_disable = 0x20

abbrev pub ctr_default : ℕ
ctr_default = bit_or (bit_or (bit_or ctr_kbd_int ctr_sys) ctr_aux_disable) 0x40

abbrev pub ack : ℕ
ack = 0xFA

-- A byte of the output buffer, and whether it came from the auxiliary port.
abbrev pub Entry : Type 0
Entry = ℕ × Bool

pub record Kbd : Type 0 where
  pub out : List Entry
  pub ctr : ℕ
  pub pending : Option ℕ
  pub dev_pending : Option ℕ
  pub irq1 : Bool
  pub cmd_written : Bool
  pub scanning : Bool
  pub driver_attached : Bool

unfoldable pub new : Kbd
new = record {
  out = [];
  ctr = ctr_default;
  pending = none;
  dev_pending = none;
  irq1 = false;
  cmd_written = false;
  scanning = true;
  driver_attached = false;
}

-- Where the byte at the head came from, if there is one.
abbrev pub keyboard_head : List Entry → Bool
keyboard_head [] = false
keyboard_head ((b, aux) ∷ rest) = not aux

abbrev pub aux_head : List Entry → Bool
aux_head [] = false
aux_head ((b, aux) ∷ rest) = aux

abbrev pub is_empty : List Entry → Bool
is_empty [] = true
is_empty (e ∷ rest) = false

pub refresh_irq : Kbd → Kbd
refresh_irq k = record k { irq1 = keyboard_head k.out && has_bits k.ctr ctr_kbd_int }

pub reply : ℕ → Kbd → Kbd
unfolding refresh_irq
reply byte k = refresh_irq (record k { out = k.out ++ (byte, false) ∷ [] })

pub reply_aux : ℕ → Kbd → Kbd
unfolding refresh_irq
reply_aux byte k = refresh_irq (record k { out = k.out ++ (byte, true) ∷ [] })

pub push_scancode : ℕ → Kbd → Kbd
push_scancode scancode k = if not k.scanning then k else reply scancode k

abbrev head_byte : List Entry → ℕ
head_byte [] = 0
head_byte ((b, aux) ∷ rest) = b

abbrev rest_of : List Entry → List Entry
rest_of [] = []
rest_of (e ∷ rest) = rest

pub read_data : Kbd → ℕ × Kbd
unfolding refresh_irq
read_data k = (head_byte k.out, refresh_irq (record k { out = rest_of k.out }))

pub idle : Kbd → Bool
idle k = is_empty k.out

abbrev pub flag : Bool → ℕ → ℕ → ℕ
flag b bits status = if b then bit_or status bits else status

pub read_status : Kbd → ℕ
read_status k =
    let s0 = st_unlocked in
    let s1 = flag (not (is_empty k.out)) st_obf s0 in
    let s2 = flag (has_bits k.ctr ctr_sys) st_sys s1 in
    let s3 = flag k.cmd_written st_cmd s2 in flag (aux_head k.out) st_aux s3

-- `lo..=hi` as a pattern.
abbrev pub within : ℕ → ℕ → ℕ → Bool
within lo hi n = leb lo n && leb n hi

-- The commands of `write_command`, with bit 3 of the status already noted.
command : ℕ → Kbd → Kbd
command cmd k =
    if cmd == 0x20
    then reply k.ctr k
    else if within 0x21 0x3F cmd
    then reply 0 k
    else if within 0x60 0x7F cmd
    then record k { pending = some cmd }
    else if cmd == 0xA7
    then record k { ctr = bit_or k.ctr ctr_aux_disable }
    else if cmd == 0xA8
    then record k { ctr = bit_and k.ctr (bit_not 8 ctr_aux_disable) }
    else if cmd == 0xA9
    then reply 0xFF k
    else if cmd == 0xAA
    then reply 0x55 (record k { ctr = bit_or k.ctr ctr_sys })
    else if cmd == 0xAB
    then reply 0x00 k
    else if cmd == 0xAD
    then record k { ctr = bit_or k.ctr ctr_kbd_disable }
    else if cmd == 0xAE
    then record k { ctr = bit_and k.ctr (bit_not 8 ctr_kbd_disable) }
    else if cmd == 0xC0
    then reply 0x00 k
    else if cmd == 0xD0
    then reply 0x02 k
    else if within 0xD1 0xD4 cmd
    then record k { pending = some cmd }
    else k

pub write_command : ℕ → Kbd → Kbd
unfolding command
write_command cmd k = command cmd (record k { cmd_written = true })

-- The argument `val` of the controller command `cmd`.
argument : ℕ → ℕ → Kbd → Kbd
argument cmd val k =
    if cmd == 0x60
    then refresh_irq (record k { ctr = val })
    else if cmd == 0xD2
    then reply val k
    else if cmd == 0xD3
    then reply_aux val k
    else k

-- The argument `val` of the keyboard command `cmd`.
device_argument : ℕ → ℕ → Kbd → Kbd
device_argument cmd val k =
    if cmd == 0xF0
    then (if val == 0 then reply 0x02 (reply ack k) else reply ack k)
    else reply ack k

-- A command for the keyboard itself.
device_command : ℕ → Kbd → Kbd
device_command val k =
    if val == 0xFF
    then reply 0xAA (reply ack k)
    else if val == 0xEE
    then reply 0xEE k
    else if val == 0xF2
    then reply 0x83 (reply 0xAB (reply ack k))
    else if val == 0xF4
    then reply ack (record k { scanning = true; driver_attached = true })
    else if val == 0xF5
    then reply ack (record k { scanning = false })
    else if val == 0xED || val == 0xF0 || val == 0xF3
    then reply ack (record k { dev_pending = some val })
    else reply ack k

-- A byte at port 0x60 goes to a waiting controller command, to a waiting keyboard command, or is
-- a keyboard command.
data_byte : Option ℕ → Option ℕ → ℕ → Kbd → Kbd
unfolding argument device_argument device_command
data_byte (some cmd) dev val k = argument cmd val (record k { pending = none })
data_byte none (some cmd) val k = device_argument cmd val (record k { dev_pending = none })
data_byte none none val k = device_command val k

pub write_data : ℕ → Kbd → Kbd
unfolding data_byte
write_data val k = data_byte k.pending k.dev_pending val (record k { cmd_written = false })

-- What the CPU and the host do to the controller; a poll of the CPU takes the request of IRQ1.
pub data Access : Type 0 where
  to_command to_data from_host : ℕ → Access
  from_data : Access
  polled : Access

abbrev pub access : Access → Kbd → Kbd
access (to_command cmd) k = write_command cmd k
access (to_data val) k = write_data val k
access (from_host scancode) k = push_scancode scancode k
access from_data k = (read_data k).1
access polled k = record k { irq1 = false }

abbrev pub accesses : List Access → Kbd → Kbd
accesses [] k = k
accesses (a ∷ rest) k = accesses rest (access a k)
