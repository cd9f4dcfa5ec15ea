-- ===== src/Pic.antt =====
-- The 8259 interrupt controller pair: src/pic.rs. The registers are bytes; an operation that
-- updates the pair returns the new one.
pub mod Scan
pub mod Valid
pub mod Service
pub mod Reentry
pub mod Delivery
mod Tests
use cuddles.Base.{
  ℕ, zero, suc, ◌+◌, ◌≡◌, Bool, true, false, not, ◌&&◌, ◌||◌, Option, none, some, bit_and, bit_or,
  ◌==◌, ltb, if◌then◌else◌, ◌<<<◌, ◌>>>◌, bit_not, has_bits, ◌-◌, ◌%◌, ◌^◌, u8,
}

pub record Pic : Type 0 where
  pub master_base : ℕ
  pub master_imr : ℕ
  pub master_irr : ℕ
  pub master_isr : ℕ
  pub master_auto_eoi : Bool
  pub slave_base : ℕ
  pub slave_imr : ℕ
  pub slave_irr : ℕ
  pub slave_isr : ℕ
  pub slave_auto_eoi : Bool
  pub cascade_irq : ℕ
  pub initialized : Bool
  pub icw2_pending : Bool
  pub icw2_for_slave : Bool
  pub master_read_isr : Bool
  pub slave_read_isr : Bool

unfoldable pub new : Pic
new = record {
  master_base = 0x08;
  master_imr = 0;
  master_irr = 0;
  master_isr = 0;
  master_auto_eoi = false;
  slave_base = 0x70;
  slave_imr = 0;
  slave_irr = 0;
  slave_isr = 0;
  slave_auto_eoi = false;
  cascade_irq = 2;
  initialized = false;
  icw2_pending = false;
  icw2_for_slave = false;
  master_read_isr = false;
  slave_read_isr = false;
}

-- `v |= 1 << i` and `v &= !(1 << i)` on a byte.
unfoldable pub set_bit : ℕ → ℕ → ℕ
set_bit v i = bit_or v (u8 (1 <<< i))

pub clear_bit : ℕ → ℕ → ℕ
clear_bit v i = bit_and v (bit_not 8 (u8 (1 <<< i)))

-- The loop of `lowest_bit` at index `i`, with `left` rounds to go.
lowest_from : ℕ → ℕ → ℕ → ℕ
lowest_from zero i v = 0
lowest_from (suc left) i v =
    let rest = lowest_from left (i + 1) v in if has_bits v (1 <<< i) then i else rest

pub lowest_bit : ℕ → ℕ
unfolding lowest_from
lowest_bit v = lowest_from 8 0 v

-- The in-service register after OCW2 `val`.
pub end_of_interrupt : ℕ → ℕ → ℕ
end_of_interrupt val isr =
    let cmd = val >>> 5 in
    if cmd == 0b001 || cmd == 0b101
    then (if isr == 0 then isr else clear_bit isr (lowest_bit isr))
    else if cmd == 0b011 || cmd == 0b111
    then clear_bit isr (bit_and val 7)
    else isr

-- OCW2, on the PIC that `slave` names.
ocw2 : Bool → ℕ → Pic → Pic
ocw2 true val p =
    let q = record p { slave_isr = end_of_interrupt val p.slave_isr } in
    if q.slave_isr == 0 then record q { master_isr = clear_bit q.master_isr q.cascade_irq } else q
ocw2 false val p = record p { master_isr = end_of_interrupt val p.master_isr }

-- OCW3.
ocw3 : Bool → ℕ → Pic → Pic
ocw3 slave val p =
    let read_isr = bit_and val 3 == 3 in
    if bit_and val 3 == 3 || bit_and val 3 == 2
    then (if slave
        then record p { slave_read_isr = read_isr }
        else record p { master_read_isr = read_isr })
    else p

-- ICW1.
icw1 : Bool → Pic → Pic
icw1 slave p =
    let q = record p { icw2_pending = true; icw2_for_slave = slave } in
    if slave
    then record q { slave_irr = 0; slave_isr = 0 }
    else record q { master_irr = 0; master_isr = 0 }

pub write_command : ℕ → ℕ → Pic → Pic
unfolding icw1 ocw2 ocw3
write_command port val p =
    let slave = port == 0xA0 in
    let select = bit_and val 0x18 in
    if has_bits val 0x10
    then icw1 slave p
    else if select == 0x00
    then ocw2 slave val p
    else if select == 0x08
    then ocw3 slave val p
    else p

pub write_data : ℕ → ℕ → Pic → Pic
write_data port val p =
    let slave = port == 0xA1 in
    let base = bit_and val 0xF8 in
    let q = if slave then record p { slave_base = base } else record p { master_base = base } in
    if p.icw2_pending
    then record q { icw2_pending = false; initialized = true }
    else if slave
    then record p { slave_imr = val }
    else record p { master_imr = val }

pub read_command : ℕ → Pic → ℕ
read_command port p =
    if port == 0xA0
    then (if p.slave_read_isr then p.slave_isr else p.slave_irr)
    else if p.master_read_isr
    then p.master_isr
    else p.master_irr

pub read_data : ℕ → Pic → ℕ
read_data port p = if port == 0xA1 then p.slave_imr else p.master_imr

unfoldable pub raise_irq : ℕ → Pic → Pic
raise_irq irq p =
    if ltb irq 8
    then record p { master_irr = set_bit p.master_irr irq }
    else record p { slave_irr = set_bit p.slave_irr (irq - 8) }

pub clear_irq : ℕ → Pic → Pic
clear_irq irq p =
    if ltb irq 8
    then record p { master_irr = clear_bit p.master_irr irq }
    else record p { slave_irr = clear_bit p.slave_irr (irq - 8) }

-- What the inner loop of `next_irq` does: it returns from the function, or runs to its end.
pub data Walk : Type 0 where
  returns : Option ℕ → Walk
  ends : Walk

-- The walk over the slave's lines at `j`, with `left` rounds to go.
pub slave_walk : ℕ → ℕ → ℕ → ℕ → Walk
slave_walk zero j isr spending = ends
slave_walk (suc left) j isr spending =
    let rest = slave_walk left (j + 1) isr spending in
    let sbit = 1 <<< j in
    if has_bits isr sbit
    then returns none
    else if has_bits spending sbit
    then returns (some (8 + j))
    else rest

abbrev or_else : Walk → Option ℕ → Option ℕ
or_else (returns r) rest = r
or_else ends rest = rest

-- The body of the master's walk at line `i`, where `rest` is what the later rounds return.
pub master_step : Pic → ℕ → Option ℕ → Option ℕ
master_step p i rest =
    let pending = bit_and p.master_irr (bit_not 8 p.master_imr) in
    let cascade = u8 (1 <<< p.cascade_irq) in
    let spending = bit_and p.slave_irr (bit_not 8 p.slave_imr) in
    let bit = 1 <<< i in
    let after = if has_bits p.master_isr bit then none else rest in
    if has_bits p.master_isr bit && not (bit == cascade)
    then none
    else if bit == cascade
    then (if bit_and p.master_imr cascade == 0
        then or_else (slave_walk 8 0 p.slave_isr spending) after
        else after)
    else if has_bits pending bit
    then some i
    else rest

-- The master's walk from line `i`, with `left` rounds to go.
pub master_walk : Pic → ℕ → ℕ → Option ℕ
master_walk p zero i = none
master_walk p (suc left) i = master_step p i (master_walk p left (i + 1))

pub next_irq : Pic → Option ℕ
next_irq p = master_walk p 8 0

-- What `acknowledge` does for the line that `next_irq` names.
pub deliver : Pic → ℕ → Option ℕ × Pic
deliver p irq =
    let bit = irq - 8 in
    if ltb irq 8
    then (
      some (u8 (p.master_base + irq)),
      record p { master_irr = clear_bit p.master_irr irq; master_isr = set_bit p.master_isr irq },
    )
    else (
      some (u8 (p.slave_base + bit)),
      record p {
        slave_irr = clear_bit p.slave_irr bit;
        slave_isr = set_bit p.slave_isr bit;
        master_isr = set_bit p.master_isr p.cascade_irq;
      },
    )

pub acknowledge : Pic → Option ℕ × Pic
unfolding deliver
acknowledge p = elim (next_irq p) [ none ↦ (none, p) | some irq ↦ deliver p irq ]

pub has_pending : Pic → Bool
has_pending p = elim (next_irq p) [ none ↦ false | some irq ↦ true ]

pub in_service : Pic → Bool
in_service p = not (p.master_isr == 0) || not (p.slave_isr == 0)
