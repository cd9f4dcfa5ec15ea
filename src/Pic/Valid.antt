-- ===== src/Pic/Valid.antt =====
-- What holds of the controller pair between two accesses: its registers are bytes, the base
-- vectors are multiples of 8, and the slave hangs on the master's line 2.
use cuddles.Base.{
  ℕ, ◌-◌, ◌%◌, ◌^◌, ◌<◌, ◌≡◌, refl, true, List, [], ◌∷◌, arith, bit_and, ◌==◌, ltb, bit_and-lt,
  bit_or-lt, ◌&&◌, u8, ◌<<<◌, bit_not, Option-cases, inl, inr, holds_under, holds_under_lem,
}
use cuddles.Pic.{
  Pic, new, set_bit, clear_bit, lowest_bit, end_of_interrupt, icw1, ocw2, ocw3, write_command,
  write_data, raise_irq, clear_irq, deliver, acknowledge, next_irq,
}

pub record IsValid (p : Pic) : Type 0 where
  pub master_imr8 : p.master_imr < 2 ^ 8
  pub master_irr8 : p.master_irr < 2 ^ 8
  pub master_isr8 : p.master_isr < 2 ^ 8
  pub slave_imr8 : p.slave_imr < 2 ^ 8
  pub slave_irr8 : p.slave_irr < 2 ^ 8
  pub slave_isr8 : p.slave_isr < 2 ^ 8
  pub master_base8 : (p.master_base < 2 ^ 8) × (p.master_base % 8 ≡ 0)
  pub slave_base8 : (p.slave_base < 2 ^ 8) × (p.slave_base % 8 ≡ 0)
  pub cascaded : p.cascade_irq ≡ 2

pub new-IsValid : IsValid new
unfolding new
new-IsValid = omega arith

pub set_bit-lt : (v i : ℕ) → v < 2 ^ 8 → set_bit v i < 2 ^ 8
unfolding set_bit
set_bit-lt v i h = bit_or-lt 8 v (u8 (1 <<< i)) h (omega arith)

pub clear_bit-lt : (v i : ℕ) → v < 2 ^ 8 → clear_bit v i < 2 ^ 8
unfolding clear_bit
clear_bit-lt v i h = bit_and-lt 8 v (bit_not 8 (u8 (1 <<< i))) h

end_of_interrupt-lt : (val isr : ℕ) → isr < 2 ^ 8 → end_of_interrupt val isr < 2 ^ 8
unfolding end_of_interrupt
end_of_interrupt-lt val isr h =
    ground (arith, clear_bit-lt isr (lowest_bit isr), clear_bit-lt isr (bit_and val 7))

-- ICW2's base vector.
base_table : holds_under (λ v. ltb (bit_and v 0xF8) 256 && (bit_and v 0xF8 % 8 == 0)) 256 ≡ true
unfolding holds_under
base_table = refl

base_vector : (v : ℕ) → v < 2 ^ 8 → (bit_and v 0xF8 < 2 ^ 8) × (bit_and v 0xF8 % 8 ≡ 0)
base_vector v h = ground (
  arith,
  holds_under_lem (λ w. ltb (bit_and w 0xF8) 256 && (bit_and w 0xF8 % 8 == 0)) 256 v h base_table,
)

write_command-IsValid : (port val : ℕ) {p : Pic} → IsValid p → IsValid (write_command port val p)
unfolding write_command icw1 ocw2 ocw3
write_command-IsValid port val {p} v = ground (
  arith,
  end_of_interrupt-lt val p.master_isr,
  end_of_interrupt-lt val p.slave_isr,
  clear_bit-lt p.master_isr p.cascade_irq,
)

write_data-IsValid :
    (port val : ℕ) {p : Pic} → val < 2 ^ 8 → IsValid p → IsValid (write_data port val p)
unfolding write_data
write_data-IsValid port val {p} h v = ground (arith, base_vector val h)

pub raise_irq-IsValid : (irq : ℕ) {p : Pic} → IsValid p → IsValid (raise_irq irq p)
unfolding raise_irq
raise_irq-IsValid irq {p} v =
    ground (arith, set_bit-lt p.master_irr irq, set_bit-lt p.slave_irr (irq - 8))

clear_irq-IsValid : (irq : ℕ) {p : Pic} → IsValid p → IsValid (clear_irq irq p)
unfolding clear_irq
clear_irq-IsValid irq {p} v =
    ground (arith, clear_bit-lt p.master_irr irq, clear_bit-lt p.slave_irr (irq - 8))

deliver-IsValid : (irq : ℕ) {p : Pic} → IsValid p → IsValid (deliver p irq).1
unfolding deliver
deliver-IsValid irq {p} v = ground (
  arith,
  clear_bit-lt p.master_irr irq,
  set_bit-lt p.master_isr irq,
  clear_bit-lt p.slave_irr (irq - 8),
  set_bit-lt p.slave_isr (irq - 8),
  set_bit-lt p.master_isr p.cascade_irq,
)

pub acknowledge-IsValid : {p : Pic} → IsValid p → IsValid (acknowledge p).1
unfolding acknowledge
acknowledge-IsValid {p} v = elim (Option-cases (next_irq p)) [
  | inl e ↦ rw (e, acknowledge) v
  | inr (irq, e) ↦ rw (e, acknowledge) (deliver-IsValid irq v)
]

-- What the CPU and the devices do to the pair.
pub data Access : Type 0 where
  command : ℕ → ℕ → Access
  mask_or_base : ℕ → ℕ → Access
  raise : ℕ → Access
  clear : ℕ → Access
  acknowledged : Access

abbrev pub access : Access → Pic → Pic
access (command port val) p = write_command port val p
access (mask_or_base port val) p = write_data port val p
access (raise irq) p = raise_irq irq p
access (clear irq) p = clear_irq irq p
access acknowledged p = (acknowledge p).1

-- The values are bytes, and the lines are those that the pair has.
abbrev pub IsAccess : Access → Type 0
IsAccess (command port val) = val < 2 ^ 8
IsAccess (mask_or_base port val) = val < 2 ^ 8
IsAccess (raise irq) = irq < 16
IsAccess (clear irq) = irq < 16
IsAccess acknowledged = Unit {0}

abbrev pub accesses : List Access → Pic → Pic
accesses [] p = p
accesses (a ∷ acts) p = accesses acts (access a p)

abbrev pub AreAccesses : List Access → Type 0
AreAccesses [] = Unit {0}
AreAccesses (a ∷ acts) = IsAccess a × AreAccesses acts

access-IsValid : (a : Access) {p : Pic} → IsAccess a → IsValid p → IsValid (access a p)
access-IsValid (command port val) h v = write_command-IsValid port val v
access-IsValid (mask_or_base port val) h v = write_data-IsValid port val h v
access-IsValid (raise irq) h v = raise_irq-IsValid irq v
access-IsValid (clear irq) h v = clear_irq-IsValid irq v
access-IsValid acknowledged h v = acknowledge-IsValid v

-- Any sequence of accesses with byte values and lines 0 to 15 keeps a valid pair valid.
pub accesses-IsValid :
    (acts : List Access) {p : Pic} → AreAccesses acts → IsValid p → IsValid (accesses acts p)
accesses-IsValid [] h v = v
accesses-IsValid (a ∷ acts) h v = accesses-IsValid acts h.1 (access-IsValid a h.0 v)
