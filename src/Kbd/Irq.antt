-- ===== src/Kbd/Irq.antt =====
-- IRQ1 and the status register follow the output buffer of src/kbd.rs.
use cuddles.Base.{
  ℕ, ◌^◌, ◌≡◌, refl, Bool, true, false, not, ◌&&◌, ◌||◌, Option, none, some, List, [], ◌∷◌, ◌++◌,
  arith, bit_and, bit_or, ◌==◌, bit_not, has_bits, testb, testb-bit_or, testb-bit_and, has_bits-pow,
  testb-pow,
}
use cuddles.Kbd.{
  Kbd, new, reply, reply_aux, refresh_irq, flag, keyboard_head, aux_head, is_empty, push_scancode,
  read_data, read_status, command, write_command, argument, device_argument, device_command,
  data_byte, write_data, Access, to_command, to_data, from_host, from_data, polled, access,
  accesses,
}

-- IRQ1 is asserted exactly when the byte at the head came from the keyboard and bit 0 of the
-- controller command byte enables its interrupt.
abbrev IrqFollows : Kbd → Type 0
IrqFollows k = k.irq1 ≡ keyboard_head k.out && testb k.ctr 0

-- A request stands only for a keyboard byte at the head whose interrupt is enabled, and for such a
-- byte there is a request unless the CPU has noticed one.
abbrev pub IrqTells : Bool → Kbd → Type 0
IrqTells n k =
    let wanted = keyboard_head k.out && testb k.ctr 0 in
    ((not k.irq1 || wanted) && (not wanted || (k.irq1 || n))) ≡ true

IrqFollows-IrqTells : (n : Bool) (k : Kbd) → IrqFollows k → IrqTells n k
IrqFollows-IrqTells n k h = ground (arith, h)

refresh_irq-IrqFollows : (k : Kbd) → IrqFollows (refresh_irq k)
unfolding refresh_irq
refresh_irq-IrqFollows k = ground (arith, has_bits-pow k.ctr 0)

reply-IrqFollows : (byte : ℕ) (k : Kbd) → IrqFollows (reply byte k)
unfolding reply
reply-IrqFollows byte k = ground (arith, has_bits-pow k.ctr 0)

-- The other bits of the command byte do not touch bit 0.
set-bit0 : (ctr mask : ℕ) → testb mask 0 ≡ false → testb (bit_or ctr mask) 0 ≡ testb ctr 0
set-bit0 ctr mask h = ground (arith, testb-bit_or ctr mask 0)

keep-bit0 : (ctr mask : ℕ) → testb mask 0 ≡ true → testb (bit_and ctr mask) 0 ≡ testb ctr 0
keep-bit0 ctr mask h = ground (arith, testb-bit_and ctr mask 0)

command-IrqTells : (n : Bool) (cmd : ℕ) (k : Kbd) → IrqTells n k → IrqTells n (command cmd k)
unfolding command
command-IrqTells n cmd k h = ground (
  arith,
  reply-IrqFollows k.ctr k,
  reply-IrqFollows 0 k,
  reply-IrqFollows 0xFF k,
  reply-IrqFollows 0x02 k,
  reply-IrqFollows 0x55 (record k { ctr = bit_or k.ctr 4 }),
  set-bit0 k.ctr 0x20 (unfold testb in refl),
  set-bit0 k.ctr 0x10 (unfold testb in refl),
  keep-bit0 k.ctr (bit_not 8 0x20) (unfold testb in refl),
  keep-bit0 k.ctr (bit_not 8 0x10) (unfold testb in refl),
)

argument-IrqTells :
    (n : Bool) (cmd val : ℕ) (k : Kbd) → IrqTells n k → IrqTells n (argument cmd val k)
unfolding argument reply_aux
argument-IrqTells n cmd val k h = ground (
  arith,
  refresh_irq-IrqFollows (record k { ctr = val }),
  reply-IrqFollows val k,
  refresh_irq-IrqFollows (record k { out = k.out ++ (val, true) ∷ [] }),
)

device_argument-IrqFollows : (cmd val : ℕ) (k : Kbd) → IrqFollows (device_argument cmd val k)
unfolding device_argument
device_argument-IrqFollows cmd val k =
    ground (arith, reply-IrqFollows 0xFA k, reply-IrqFollows 0x02 (reply 0xFA k))

device_command-IrqFollows : (val : ℕ) (k : Kbd) → IrqFollows (device_command val k)
unfolding device_command
device_command-IrqFollows val k = ground (
  arith,
  reply-IrqFollows 0xAA (reply 0xFA k),
  reply-IrqFollows 0xEE k,
  reply-IrqFollows 0x83 (reply 0xAB (reply 0xFA k)),
  reply-IrqFollows 0xFA (record k { scanning = true; driver_attached = true }),
  reply-IrqFollows 0xFA (record k { scanning = false }),
  reply-IrqFollows 0xFA (record k { dev_pending = some val }),
  reply-IrqFollows 0xFA k,
)

data_byte-IrqTells :
    (n : Bool) (pending dev : Option ℕ) (val : ℕ) (k : Kbd)
    → IrqTells n k
    → IrqTells n (data_byte pending dev val k)
unfolding data_byte
data_byte-IrqTells n (some cmd) dev val k h =
    argument-IrqTells n cmd val (record k { pending = none }) h
data_byte-IrqTells n none (some cmd) val k h =
    IrqFollows-IrqTells n (device_argument cmd val (record k { dev_pending = none }))
      (device_argument-IrqFollows cmd val (record k { dev_pending = none }))
data_byte-IrqTells n none none val k h =
    IrqFollows-IrqTells n (device_command val k) (device_command-IrqFollows val k)

-- Whether the CPU has taken a request for the byte at the head.
abbrev pub noticed : Access → Kbd → Bool → Bool
noticed polled k n = n || k.irq1
noticed from_data k n = false
noticed _ k n = n

abbrev pub all_noticed : List Access → Kbd → Bool → Bool
all_noticed [] k n = n
all_noticed (a ∷ rest) k n = all_noticed rest (access a k) (noticed a k n)

access-IrqTells :
    (a : Access) (n : Bool) (k : Kbd) → IrqTells n k → IrqTells (noticed a k n) (access a k)
unfolding write_command write_data push_scancode read_data
access-IrqTells (to_command cmd) n k h = command-IrqTells n cmd (record k { cmd_written = true }) h
access-IrqTells (to_data val) n k h =
    data_byte-IrqTells n k.pending k.dev_pending val (record k { cmd_written = false }) h
access-IrqTells (from_host scancode) n k h = ground (arith, reply-IrqFollows scancode k, h)
access-IrqTells from_data n k h = ground (arith, has_bits-pow k.ctr 0)
access-IrqTells polled n k h = ground (arith, h)

-- After any sequence of port accesses, host key events and polls of the CPU, each of which takes
-- the request away, from a state in which it is so: if IRQ1 is requested, a keyboard byte is at
-- the head of the buffer and its interrupt is enabled; and if such a byte is there, IRQ1 is
-- requested, or the CPU has taken a request since the data port was last read.
pub accesses-IrqTells :
    (acts : List Access) (n : Bool) (k : Kbd)
    → IrqTells n k
    → IrqTells (all_noticed acts k n) (accesses acts k)
accesses-IrqTells [] n k h = h
accesses-IrqTells (a ∷ rest) n k h =
    accesses-IrqTells rest (noticed a k n) (access a k) (access-IrqTells a n k h)

pub new-IrqTells : IrqTells false new
unfolding new
new-IrqTells = refl

flag_bit : (b : Bool) (i s k : ℕ) → testb (flag b (2 ^ i) s) k ≡ testb s k || (b && (i == k))
flag_bit true i s k = rw (testb-bit_or, testb-pow)
flag_bit false i s k = ground arith

-- Each bit of the status register: bit 0 a byte is waiting, bit 2 the system flag of the command
-- byte, bit 3 the last write was to port 0x64, bit 4 always set, bit 5 the waiting byte is the
-- auxiliary port's; the other bits are clear.
pub read_status_bits :
    (k : Kbd) (i : ℕ)
    → testb (read_status k) i
      ≡ (i == 4)
        || (not (is_empty k.out) && (i == 0))
        || (testb k.ctr 2 && (i == 2))
        || (k.cmd_written && (i == 3))
        || (aux_head k.out && (i == 5))
unfolding read_status
read_status_bits k i =
    let s1 = flag (not (is_empty k.out)) 1 0x10 in
    let s2 = flag (has_bits k.ctr 4) 4 s1 in
    let s3 = flag k.cmd_written 8 s2 in
    ground (
      arith,
      flag_bit (aux_head k.out) 5 s3 i,
      flag_bit k.cmd_written 3 s2 i,
      flag_bit (has_bits k.ctr 4) 2 s1 i,
      flag_bit (not (is_empty k.out)) 0 0x10 i,
      testb-pow 4 i,
      has_bits-pow k.ctr 2,
    )
