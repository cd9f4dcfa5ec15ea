-- ===== src/Kbd/Queue.antt =====
-- The output buffer of src/kbd.rs is a queue: a write or a key event adds at its end, a read takes
-- its head, and the controller command byte comes back through it.
use cuddles.Base.{
  ℕ, zero, suc, ◌≤◌, ◌≡◌, refl, sym, ◌∙◌, ap, Bool, true, false, not, ◌||◌, Option, none, some,
  List, [], ◌∷◌, ◌++◌, arith, bit_or, ◌==◌, if◌then◌else◌, if_both, length, length-append,
}
use mathlib.Core.Path.{ap₂}
use mathlib.Core.List.{append-nil, append_assoc}
use cuddles.Kbd.{
  Kbd, Entry, reply, reply_aux, refresh_irq, push_scancode, read_data, command, write_command,
  argument, device_argument, device_command, data_byte, write_data, within, ack,
}

-- `k'` has the bytes of `k`, in order, and then at most `n` more.
pub record Grows (n : ℕ) (k k' : Kbd) : Type 0 where
  pub added : List Entry
  pub appended : k'.out ≡ k.out ++ added
  pub few : length added ≤ n

same : (n : ℕ) {k k' : Kbd} → k'.out ≡ k.out → Grows n k k'
same n {k} e = record { added = []; appended = e ∙ sym (append-nil k.out); few = omega arith }

more : (n : ℕ) (byte : ℕ) {k k' : Kbd} → Grows n k k' → Grows (suc n) k (reply byte k')
unfolding reply
more n byte {k} {k'} g = record {
  added = g.added ++ (byte, false) ∷ [];
  appended = ap (λ q. q ++ (byte, false) ∷ []) g.appended ∙ append_assoc k.out g.added _;
  few = omega (arith, g.few, length-append g.added ((byte, false) ∷ []));
}

more_aux : (n : ℕ) (byte : ℕ) {k k' : Kbd} → Grows n k k' → Grows (suc n) k (reply_aux byte k')
unfolding reply_aux
more_aux n byte {k} {k'} g = record {
  added = g.added ++ (byte, true) ∷ [];
  appended = ap (λ q. q ++ (byte, true) ∷ []) g.appended ∙ append_assoc k.out g.added _;
  few = omega (arith, g.few, length-append g.added ((byte, true) ∷ []));
}

-- A state with the buffer of `k`, and that state after up to three replies.
module _ (k k' : Kbd) (e : k'.out ≡ k.out) where
  kept : Grows 3 k k'
  kept = same 3 e

  one : (x : ℕ) → Grows 3 k (reply x k')
  one x = more 2 x (same 2 e)

  one_aux : (x : ℕ) → Grows 3 k (reply_aux x k')
  one_aux x = more_aux 2 x (same 2 e)

  two : (x y : ℕ) → Grows 3 k (reply y (reply x k'))
  two x y = more 2 y (more 1 x (same 1 e))

  three : (x y z : ℕ) → Grows 3 k (reply z (reply y (reply x k')))
  three x y z = more 2 z (more 1 y (more 0 x (same 0 e)))

branch : (b : Bool) {k x y : Kbd} → Grows 3 k x → Grows 3 k y → Grows 3 k (if b then x else y)
branch b {k} t e = if_both (Grows 3 k) b t e

command-Grows : (cmd : ℕ) (k : Kbd) → Grows 3 k (command cmd k)
unfolding command
command-Grows cmd k =
    let self = kept k k refl in
    let ctr_with = λ (c : ℕ). kept k (record k { ctr = c }) refl in
    let waits = kept k (record k { pending = some cmd }) refl in
    branch (cmd == 0x20) (one k k refl k.ctr) (
      branch (within 0x21 0x3F cmd) (one k k refl 0) (
        branch (within 0x60 0x7F cmd) waits (
          branch (cmd == 0xA7) (ctr_with _) (
            branch (cmd == 0xA8) (ctr_with _) (
              branch (cmd == 0xA9) (one k k refl 0xFF) (
                branch (cmd == 0xAA) (one k (record k { ctr = bit_or k.ctr 4 }) refl 0x55) (
                  branch (cmd == 0xAB) (one k k refl 0) (
                    branch (cmd == 0xAD) (ctr_with _) (
                      branch (cmd == 0xAE) (ctr_with _) (
                        branch (cmd == 0xC0) (one k k refl 0) (
                          branch (cmd == 0xD0) (one k k refl 2)
                            (branch (within 0xD1 0xD4 cmd) waits self))))))))))))

write_command-Grows : (cmd : ℕ) (k : Kbd) → Grows 3 k (write_command cmd k)
unfolding write_command
write_command-Grows cmd k =
    let g = command-Grows cmd (record k { cmd_written = true }) in
    record { added = g.added; appended = g.appended; few = g.few }

argument-Grows : (cmd val : ℕ) (k : Kbd) → Grows 3 k (argument cmd val k)
unfolding argument refresh_irq
argument-Grows cmd val k =
    branch (cmd == 0x60) (kept k (refresh_irq (record k { ctr = val })) refl) (
      branch (cmd == 0xD2) (one k k refl val)
        (branch (cmd == 0xD3) (one_aux k k refl val) (kept k k refl)))

device_argument-Grows : (cmd val : ℕ) (k : Kbd) → Grows 3 k (device_argument cmd val k)
unfolding device_argument
device_argument-Grows cmd val k =
    branch (cmd == 0xF0) (branch (val == 0) (two k k refl ack 2) (one k k refl ack))
      (one k k refl ack)

device_command-Grows : (val : ℕ) (k : Kbd) → Grows 3 k (device_command val k)
unfolding device_command
device_command-Grows val k =
    let waits = one k (record k { dev_pending = some val }) refl ack in
    branch (val == 0xFF) (two k k refl ack 0xAA) (
      branch (val == 0xEE) (one k k refl 0xEE) (
        branch (val == 0xF2) (three k k refl ack 0xAB 0x83) (
          branch (val == 0xF4)
            (one k (record k { scanning = true; driver_attached = true }) refl ack)
            (branch (val == 0xF5) (one k (record k { scanning = false }) refl ack)
              (branch (val == 0xED || val == 0xF0 || val == 0xF3) waits (one k k refl ack))))))

data_byte-Grows :
    (pending dev : Option ℕ) (val : ℕ) (k : Kbd) → Grows 3 k (data_byte pending dev val k)
unfolding data_byte
data_byte-Grows (some cmd) dev val k =
    let g = argument-Grows cmd val (record k { pending = none }) in
    record { added = g.added; appended = g.appended; few = g.few }
data_byte-Grows none (some cmd) val k =
    let g = device_argument-Grows cmd val (record k { dev_pending = none }) in
    record { added = g.added; appended = g.appended; few = g.few }
data_byte-Grows none none val k = device_command-Grows val k

write_data-Grows : (val : ℕ) (k : Kbd) → Grows 3 k (write_data val k)
unfolding write_data
write_data-Grows val k =
    let g = data_byte-Grows k.pending k.dev_pending val (record k { cmd_written = false }) in
    record { added = g.added; appended = g.appended; few = g.few }

push_scancode-Grows : (scancode : ℕ) (k : Kbd) → Grows 3 k (push_scancode scancode k)
unfolding push_scancode
push_scancode-Grows scancode k =
    if_both (Grows 3 k) (not k.scanning) (kept k k refl) (one k k refl scancode)

-- A write to either port and a host key event leave the waiting bytes in place, in order, and add
-- at most three at the end.
pub writes-Grows :
    (x : ℕ) (k : Kbd)
    → Grows 3 k (write_command x k) × Grows 3 k (write_data x k) × Grows 3 k (push_scancode x k)
writes-Grows x k = (write_command-Grows x k, write_data-Grows x k, push_scancode-Grows x k)

-- `n` reads of port 0x60: the bytes, and the controller after them.
abbrev pub reads : ℕ → Kbd → List ℕ × Kbd
reads zero k = ([], k)
reads (suc n) k = let (x, k') = read_data k in let (xs, k'') = reads n k' in (x ∷ xs, k'')

abbrev pub bytes_of : List Entry → List ℕ
bytes_of [] = []
bytes_of ((b, aux) ∷ rest) = b ∷ bytes_of rest

drain :
    (front back : List Entry) (k : Kbd)
    → k.out ≡ front ++ back
    → ((reads (length front) k).0 ≡ bytes_of front) × ((reads (length front) k).1.out ≡ back)
drain [] back k e = (refl, e)
drain ((b, aux) ∷ front) back k e =
    let ih = drain front back (read_data k).1 rest in (ap₂ ◌∷◌ first ih.0, ih.1)
  where
    first : (read_data k).0 ≡ b
    first = unfold read_data in rw e

    rest : (read_data k).1.out ≡ front ++ back
    rest = unfold read_data in rw e

-- First in, first out: reading as many bytes as are waiting gives them oldest first and empties the
-- buffer; one more read gives zero.
pub reads_fifo :
    (k : Kbd)
    → ((reads (length k.out) k).0 ≡ bytes_of k.out)
      × ((reads (length k.out) k).1.out ≡ [])
      × ((read_data (reads (length k.out) k).1).0 ≡ 0)
reads_fifo k =
    let (bytes, empty) = drain k.out [] k (sym (append-nil k.out)) in (bytes, empty, nothing empty)
  where
    nothing : (reads (length k.out) k).1.out ≡ [] → (read_data (reads (length k.out) k).1).0 ≡ 0
    nothing e = unfold read_data in rw e

-- In any state, a byte written after command 0x60 becomes the control byte, and command 0x20
-- answers with it after the bytes that were waiting.
pub ctr_round_trip :
    (val : ℕ) (k : Kbd)
    → let k' = write_command 0x20 (write_data val (write_command 0x60 k)) in
      (k'.ctr ≡ val)
      × (k'.out ≡ k.out ++ (val, false) ∷ [])
      × ((read_data (reads (length k.out) k').1).0 ≡ val)
ctr_round_trip val k =
    let (ctr, appended) = both in
    let (bytes, left) = drain k.out ((val, false) ∷ []) k' appended in (ctr, appended, next left)
  where
    k' : Kbd
    k' = write_command 0x20 (write_data val (write_command 0x60 k))

    both : (k'.ctr ≡ val) × (k'.out ≡ k.out ++ (val, false) ∷ [])
    both = unfold write_command write_data reply refresh_irq in (refl, refl)

    next :
        (reads (length k.out) k').1.out ≡ (val, false) ∷ []
        → (read_data (reads (length k.out) k').1).0 ≡ val
    next e = unfold read_data in rw e
