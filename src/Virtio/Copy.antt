-- ===== src/Virtio/Copy.antt =====
-- The copies between the disk and the guest's memory in src/virtio.rs.
use cuddles.Base.{
  ℕ, zero, suc, ◌+◌, ◌-◌, ◌^◌, ◌≤◌, ◌<◌, ◌≡◌, refl, ap, true, false, ◌&&◌, ◌||◌, none, some, List,
  [], ◌∷◌, ◌==◌, leb, ltb, u64, if◌then◌else◌, length, set, get_elem?, get_or, length-set,
  get_elem?-set_self, get_elem?-set_ne, Bool-cases, inl, inr, arith,
}
use cuddles.Memory.{Memory, read_u8, write_u8}
use cuddles.Memory.Layout.{IsValid}
use cuddles.Memory.Bytes.{read_u8-write_u8, write_u8-IsValid, writable-write_u8, writable}
use cuddles.Virtio.{copy_in, copy_out}

get_elem?_within : (xs : List ℕ) (k : ℕ) → k < length xs → get_elem? xs k ≡ some (get_or xs k 0)
get_elem?_within [] k h = elim h [ ]
get_elem?_within (x ∷ xs) zero h = refl
get_elem?_within (x ∷ xs) (suc k) h = get_elem?_within xs k (omega arith)

get_elem?_past : (xs : List ℕ) (k : ℕ) → length xs ≤ k → get_elem? xs k ≡ none
get_elem?_past [] k h = refl
get_elem?_past (x ∷ xs) zero h = absurd (omega arith)
get_elem?_past (x ∷ xs) (suc k) h = get_elem?_past xs k (omega arith)

get_elem?-set :
    (xs : List ℕ) (i j v : ℕ)
    → i < length xs
    → get_elem? (set xs i v) j ≡ (if i == j then some v else get_elem? xs j)
get_elem?-set xs i j v h = elim (Bool-cases (i == j)) [
  | inl same ↦ let e : j ≡ i = ground arith in rw (same, e) (get_elem?-set_self xs i v h)
  | inr other ↦ rw other (get_elem?-set_ne xs {i = i} {j = j} v (λ e. ground arith))
]

-- Where the position of its end is below 2 ^ 64, a write to the disk reports success exactly if it
-- is empty or ends within the disk.
pub copy_out-fine :
    (mem : Memory) (offset addr i left : ℕ) (disk : List ℕ)
    → offset + i + left < 2 ^ 64
    → (copy_out mem offset addr i left disk).1
      ≡ ((left == 0) || leb (offset + i + left) (length disk))
unfolding copy_out
copy_out-fine mem offset addr i zero disk h = refl
copy_out-fine mem offset addr i (suc left) disk h =
    let at : u64 (offset + i) ≡ offset + i = omega arith in
    let byte = read_u8 mem (u64 (addr + i)) in
    let disk' = set disk (offset + i) byte in
    let same = length-set disk (offset + i) byte in
    let rest = copy_out-fine mem offset addr (i + 1) left disk' (omega arith) in
    elim (Bool-cases (leb (length disk) (offset + i))) [
      | inl past ↦ rw (at, past) (ground arith)
      | inr within ↦ rw (at, within) (ground (arith, rest, same))
    ]

-- A write to the disk that ends within it, at positions below 2 ^ 64, puts the guest's bytes
-- there, and changes no other byte of the disk.
pub copy_out_lem :
    (mem : Memory) (offset addr i left : ℕ) (disk : List ℕ) (j : ℕ)
    → offset + i + left < 2 ^ 64
    → offset + i + left ≤ length disk
    → get_elem? (copy_out mem offset addr i left disk).0 j ≡ (
        if leb (offset + i) j && ltb j (offset + i + left)
        then some (read_u8 mem (u64 (addr + (j - offset))))
        else get_elem? disk j)
unfolding copy_out
copy_out_lem mem offset addr i zero disk j h fits = ground arith
copy_out_lem mem offset addr i (suc left) disk j h fits =
    let at : u64 (offset + i) ≡ offset + i = omega arith in
    let byte = read_u8 mem (u64 (addr + i)) in
    let disk' = set disk (offset + i) byte in
    let same = length-set disk (offset + i) byte in
    let rest =
      copy_out_lem mem offset addr (i + 1) left disk' j (omega arith) (omega (arith, same)) in
    let within : leb (length disk) (offset + i) ≡ false = ground arith in
    let here : (j ≡ offset + i) → j - offset ≡ i = λ e. omega arith in
    rw (at, within)
      (ground (
        arith,
        rest,
        get_elem?-set disk (offset + i) j byte (omega arith),
        here,
        ap (λ (t : ℕ). read_u8 mem (u64 (addr + t))) {x = j - offset} {y = i},
      ))

copy_in_step :
    (disk : List ℕ) (offset addr i left byte : ℕ) (mem : Memory)
    → get_elem? disk (u64 (offset + i)) ≡ some byte
    → copy_in disk offset addr i (suc left) mem
      ≡ copy_in disk offset addr (i + 1) left (write_u8 (u64 (addr + i)) byte mem)
unfolding copy_in
copy_in_step disk offset addr i left byte mem e = ground (arith, e)

-- In a valid memory, with a disk of bytes, a read that ends within the disk, of positions and
-- addresses below 2 ^ 64, succeeds, puts the disk's bytes into the guest's buffer, where that can
-- be written, and changes no other byte below 2 ^ 64.
pub copy_in_lem :
    (disk : List ℕ) (offset addr i left : ℕ) (mem : Memory) (b : ℕ)
    → IsValid mem
    → ((k : ℕ) → get_or disk k 0 < 2 ^ 8)
    → offset + i + left ≤ length disk
    → offset + i + left < 2 ^ 64
    → addr + i + left < 2 ^ 64
    → b < 2 ^ 64
    → let done = copy_in disk offset addr i left mem in
      (done.1 ≡ true)
      × (read_u8 done.0 b ≡ (
          if (leb (addr + i) b && ltb b (addr + i + left)) && writable mem b
          then get_or disk (offset + (b - addr)) 0
          else read_u8 mem b))
copy_in_lem disk offset addr i zero mem b v bytes ends hd ha hb =
    unfold copy_in in (refl, ground arith)
copy_in_lem disk offset addr i (suc left) mem b v bytes ends hd ha hb =
    let from : u64 (offset + i) ≡ offset + i = omega arith in
    let to : u64 (addr + i) ≡ addr + i = omega arith in
    let byte = get_or disk (offset + i) 0 in
    let found : get_elem? disk (u64 (offset + i)) ≡ some byte =
      rw from (get_elem?_within disk (offset + i) (omega arith)) in
    let mem' = write_u8 (addr + i) byte mem in
    let v' = write_u8-IsValid (addr + i) byte mem v (bytes (offset + i)) in
    let rest =
      copy_in_lem disk offset addr (i + 1) left mem' b v' bytes (omega arith) (omega arith)
        (omega arith) hb in
    let stored = read_u8-write_u8 (addr + i) byte b mem v (omega arith) hb (bytes (offset + i)) in
    let same = writable-write_u8 (addr + i) byte b mem in
    let at : b ≡ addr + i → get_or disk (offset + (b - addr)) 0 ≡ byte =
      λ e. ap (λ (t : ℕ). get_or disk t 0) (omega arith) in
    rw (copy_in_step disk offset addr i left byte mem found, to)
      (ground (arith, rest, stored, same, at, ap (writable mem) {x = b} {y = addr + i}))
