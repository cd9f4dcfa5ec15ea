-- ===== src/Cpu/Fetch.antt =====
-- The instruction stream of src/cpu.rs: the cached address of the next byte and the fetches that
-- move it.
use cuddles.Base.{
  ℕ, ◌+◌, ◌-◌, ◌^◌, ◌%◌, ◌≤◌, ◌<◌, ◌≡◌, refl, sym, ap, ◌∙◌, Bool, true, false, ◌⊎◌, inl, inr,
  bit_and, bit_or, ◌==◌, leb, if◌then◌else◌, ◌<<<◌, ◌>>>◌, Option, none, some, u16, u64, arith,
  bit_and_low,
}
use cuddles.Memory.{read_u8_raw}
use cuddles.Paging.{Mapping}
use cuddles.Cpu.{Cpu, cs, long64, raise_gp, raise, cpl}
use cuddles.Cpu.Translate.{
  apply_paging_inner, hit, miss, mark_found, mark_accessed, set_accessed_bits, raise_page_fault,
  walked,
}

unfoldable pub ip_linear : Cpu → ℕ
ip_linear c =
    if long64 c
    then c.rip
    else if c.pe
    then bit_and (u64 ((c.seg_desc cs).base + bit_and c.rip 0xFFFFFFFF)) 0xFFFFFFFF
    else bit_and ((c.selector cs <<< 4) + c.ip) 0xFFFFFFFF

unfoldable pub ensure_phys_ip : Cpu → Cpu
ensure_phys_ip c =
    let linear = ip_linear c in
    let (phys, after) =
      apply_paging_inner linear false true (record c { phys_ip_linear = linear }) in
    if c.phys_ip_valid then c else record after { phys_ip_cache = phys; phys_ip_valid = true }

unfoldable pub advance_ip : ℕ → Cpu → Cpu
advance_ip n c =
    if c.pe
    then record c { rip = bit_and (u64 (c.rip + n)) c.rip_mask }
    else record c { ip = u16 (c.ip + u16 n) }

-- The cached addresses `n` bytes on; `crossed` says that they leave the page.
unfoldable pub advance_cache : ℕ → Bool → Cpu → Cpu
advance_cache n crossed c = record c {
  phys_ip_cache = u64 (c.phys_ip_cache + n);
  phys_ip_linear = u64 (c.phys_ip_linear + n);
  phys_ip_valid = if crossed then false else c.phys_ip_valid;
}

unfoldable pub peek_u8 : Cpu → ℕ × Cpu
peek_u8 c = let here = ensure_phys_ip c in (read_u8_raw here.mem here.phys_ip_cache, here)

unfoldable pub fetch_u8 : Cpu → ℕ × Cpu
fetch_u8 c =
    let here = ensure_phys_ip c in
    let crossed = bit_and here.phys_ip_linear 0xFFF == 0xFFF in
    (read_u8_raw here.mem here.phys_ip_cache, advance_cache 1 crossed (advance_ip 1 here))

-- Two bytes, one after the other.
unfoldable pub fetch_pair : Cpu → ℕ × Cpu
fetch_pair c = let (lo, c1) = fetch_u8 c in let (hi, c2) = fetch_u8 c1 in (bit_or lo (hi <<< 8), c2)

unfoldable pub fetch_u16 : Cpu → ℕ × Cpu
fetch_u16 c =
    let here = ensure_phys_ip c in
    let addr = here.phys_ip_cache in
    let offset = bit_and here.phys_ip_linear 0xFFF in
    if leb offset 0xFFE
    then (
      bit_or (read_u8_raw here.mem addr) (read_u8_raw here.mem (addr + 1) <<< 8),
      advance_cache 2 (offset == 0xFFE) (advance_ip 2 here),
    )
    else fetch_pair here

unfoldable pub fetch_u32 : Cpu → ℕ × Cpu
fetch_u32 c =
    let (lo, c1) = fetch_u16 c in let (hi, c2) = fetch_u16 c1 in (bit_or lo (hi <<< 16), c2)

unfoldable pub fetch_u64 : Cpu → ℕ × Cpu
fetch_u64 c =
    let (lo, c1) = fetch_u32 c in let (hi, c2) = fetch_u32 c1 in (bit_or lo (hi <<< 32), c2)

ensure_phys_ip-same : (c : Cpu) → c.phys_ip_valid ≡ true → ensure_phys_ip c ≡ c
unfolding ensure_phys_ip
ensure_phys_ip-same c h = rw h refl

ensure_phys_ip-valid : (c : Cpu) → (ensure_phys_ip c).phys_ip_valid ≡ true
unfolding ensure_phys_ip
ensure_phys_ip-valid c =
    elim c.phys_ip_valid as (λ v. c.phys_ip_valid ≡ v → (ensure_phys_ip c).phys_ip_valid ≡ true) [
      | true ↦ λ e. rw e refl
      | false ↦ λ e. rw e refl
    ]
      refl

wrap_twice : (a : ℕ) → u64 (u64 (a + 1) + 1) ≡ u64 (a + 2)
wrap_twice a = omega arith

wrap_mask :
    (a mask : ℕ)
    → (mask ≡ 2 ^ 32 - 1) ⊎ (mask ≡ 2 ^ 64 - 1)
    → bit_and (u64 (bit_and (u64 (a + 1)) mask + 1)) mask ≡ bit_and (u64 (a + 2)) mask
wrap_mask a mask (inl h) = rw h (
    rw
      (
        bit_and_low 32 (u64 (a + 1)),
        bit_and_low 32 (u64 (a + 2)),
        bit_and_low 32 (u64 (u64 (a + 1) % 2 ^ 32 + 1)),
      )
      (omega arith))
wrap_mask a mask (inr h) = rw h (
    rw
      (
        bit_and_low 64 (u64 (a + 1)),
        bit_and_low 64 (u64 (a + 2)),
        bit_and_low 64 (u64 (u64 (a + 1) % 2 ^ 64 + 1)),
      )
      (omega arith))

advance_ip-twice :
    (c : Cpu)
    → (c.rip_mask ≡ 2 ^ 32 - 1) ⊎ (c.rip_mask ≡ 2 ^ 64 - 1)
    → advance_ip 1 (advance_ip 1 c) ≡ advance_ip 2 c
unfolding advance_ip
advance_ip-twice c h =
    let narrow : u16 (u16 (c.ip + 1) + 1) ≡ u16 (c.ip + 2) = omega arith in
    ground (arith, wrap_mask c.rip c.rip_mask h, narrow)

advance_ip-advance_cache :
    (n k : ℕ) (b : Bool) (c : Cpu)
    → advance_ip n (advance_cache k b c) ≡ advance_cache k b (advance_ip n c)
unfolding advance_ip advance_cache
advance_ip-advance_cache n k b c = ground arith

advance_cache-twice :
    (b : Bool) (c : Cpu) → advance_cache 1 b (advance_cache 1 false c) ≡ advance_cache 2 b c
unfolding advance_cache
advance_cache-twice b c = rw (wrap_twice c.phys_ip_cache, wrap_twice c.phys_ip_linear) refl

-- The first byte of a pair that lies on one page.
first_of_pair :
    (c : Cpu)
    → c.phys_ip_valid ≡ true
    → bit_and c.phys_ip_linear 0xFFF ≤ 0xFFE
    → fetch_u8 c ≡ (read_u8_raw c.mem c.phys_ip_cache, advance_cache 1 false (advance_ip 1 c))
unfolding fetch_u8
first_of_pair c valid same_page =
    let inside : (bit_and c.phys_ip_linear 0xFFF == 0xFFF) ≡ false = ground arith in
    rw (ensure_phys_ip-same c valid, inside) refl

-- What the first fetch leaves for the second.
after_first :
    (c : Cpu)
    → let after = advance_cache 1 false (advance_ip 1 c) in
      (after.phys_ip_valid ≡ c.phys_ip_valid)
      × (after.phys_ip_linear ≡ u64 (c.phys_ip_linear + 1))
      × (after.phys_ip_cache ≡ u64 (c.phys_ip_cache + 1))
      × (after.mem ≡ c.mem)
unfolding advance_ip advance_cache
after_first c = ground arith

module _ (c : Cpu) (valid : c.phys_ip_valid ≡ true)
    (mask : (c.rip_mask ≡ 2 ^ 32 - 1) ⊎ (c.rip_mask ≡ 2 ^ 64 - 1))
    (room : c.phys_ip_cache + 1 < 2 ^ 64) (same_page : bit_and c.phys_ip_linear 0xFFF ≤ 0xFFE) where
  abbrev one : Cpu
  one = advance_cache 1 false (advance_ip 1 c)

  second_of_pair : fetch_u8 one ≡ (
    read_u8_raw c.mem (c.phys_ip_cache + 1),
    advance_cache 1 (bit_and c.phys_ip_linear 0xFFF == 0xFFE) (advance_ip 1 one),
  )
  unfolding fetch_u8
  second_of_pair =
      let after = after_first c in
      let last : (bit_and (u64 (c.phys_ip_linear + 1)) 0xFFF == 0xFFF)
          ≡ (bit_and c.phys_ip_linear 0xFFF == 0xFFE) =
        rw (bit_and_low 12 (u64 (c.phys_ip_linear + 1)), bit_and_low 12 c.phys_ip_linear)
          (ground arith) in
      let next : u64 (c.phys_ip_cache + 1) ≡ c.phys_ip_cache + 1 = omega arith in
      rw (ensure_phys_ip-same one (after.0 ∙ valid))
        (rw (after.1, after.2, after.3, last, next) refl)

  moved : (b : Bool) → advance_cache 1 b (advance_ip 1 one) ≡ advance_cache 2 b (advance_ip 2 c)
  moved b =
      rw (advance_ip-advance_cache 1 1 false (advance_ip 1 c), advance_ip-twice c mask)
        (advance_cache-twice b (advance_ip 2 c))

  fetch_pair-one_page : fetch_pair c ≡ (
    bit_or (read_u8_raw c.mem c.phys_ip_cache) (read_u8_raw c.mem (c.phys_ip_cache + 1) <<< 8),
    advance_cache 2 (bit_and c.phys_ip_linear 0xFFF == 0xFFE) (advance_ip 2 c),
  )
  unfolding fetch_pair
  fetch_pair-one_page =
      let second : fetch_u8 (advance_cache 1 false (advance_ip 1 c)) ≡ (
        read_u8_raw c.mem (c.phys_ip_cache + 1),
        advance_cache 2 (bit_and c.phys_ip_linear 0xFFF == 0xFFE) (advance_ip 2 c),
      ) =
        second_of_pair
        ∙ ap (λ d. (read_u8_raw c.mem (c.phys_ip_cache + 1), d))
            (moved (bit_and c.phys_ip_linear 0xFFF == 0xFFE)) in
      rw (first_of_pair c valid same_page, second) refl

fetch_u8-again : (c : Cpu) → fetch_u8 (ensure_phys_ip c) ≡ fetch_u8 c
unfolding fetch_u8
fetch_u8-again c = rw (ensure_phys_ip-same (ensure_phys_ip c) (ensure_phys_ip-valid c)) refl

fetch_pair-again : (c : Cpu) → fetch_pair (ensure_phys_ip c) ≡ fetch_pair c
unfolding fetch_pair
fetch_pair-again c = rw (fetch_u8-again c) refl

mark_found-mask :
    (write : Bool) (c : Cpu) (found : Option Mapping)
    → (mark_found write c found).rip_mask ≡ c.rip_mask
unfolding mark_found set_accessed_bits
mark_found-mask write c none = refl
mark_found-mask write c (some map) = refl

miss-mask :
    (idx linear : ℕ) (write user fetch : Bool) (c : Cpu) (found : Option Mapping)
    → (miss idx linear write user fetch c found).1.rip_mask ≡ c.rip_mask
unfolding miss set_accessed_bits raise_page_fault
miss-mask idx linear write user fetch c none = ground arith
miss-mask idx linear write user fetch c (some map) = ground arith

hit-mask :
    (idx linear : ℕ) (write user fetch : Bool) (c : Cpu)
    → (hit idx linear write user fetch c).1.rip_mask ≡ c.rip_mask
unfolding hit mark_accessed raise_page_fault
hit-mask idx linear write user fetch c = ground (arith, mark_found-mask true c (walked linear c))

-- A translation leaves the instruction pointer's mask alone.
apply_paging_inner-mask :
    (linear : ℕ) (write fetch : Bool) (c : Cpu)
    → (apply_paging_inner linear write fetch c).1.rip_mask ≡ c.rip_mask
unfolding apply_paging_inner raise_gp raise
apply_paging_inner-mask linear write fetch c = ground (
  arith,
  hit-mask (bit_and (linear >>> 12) 255) linear write (cpl c == 3) fetch c,
  miss-mask (bit_and (linear >>> 12) 255) linear write (cpl c == 3) fetch c (walked linear c),
)

ensure_phys_ip-mask : (c : Cpu) → (ensure_phys_ip c).rip_mask ≡ c.rip_mask
unfolding ensure_phys_ip
ensure_phys_ip-mask c = ground (
  arith,
  apply_paging_inner-mask (ip_linear c) false true (record c { phys_ip_linear = ip_linear c }),
)

-- Where the instruction pointer is masked to 32 or to 64 bits and the cached physical address is
-- not the last of 64 bits, a fetch of two bytes gives the value and the state of two fetches of
-- one byte, whether the two lie on one page, end with it or cross it.
pub fetch_u16-fetch_pair :
    (c : Cpu)
    → (c.rip_mask ≡ 2 ^ 32 - 1) ⊎ (c.rip_mask ≡ 2 ^ 64 - 1)
    → (ensure_phys_ip c).phys_ip_cache + 1 < 2 ^ 64
    → fetch_u16 c ≡ fetch_pair c
unfolding fetch_u16
fetch_u16-fetch_pair c mask room =
    let h = ensure_phys_ip c in
    let pair = fetch_pair-again c in
    let mask' : (h.rip_mask ≡ 2 ^ 32 - 1) ⊎ (h.rip_mask ≡ 2 ^ 64 - 1) =
      rw (ensure_phys_ip-mask c) mask in
    elim (leb (bit_and h.phys_ip_linear 0xFFF) 0xFFE)
        as (λ near.
          leb (bit_and h.phys_ip_linear 0xFFF) 0xFFE ≡ near → fetch_u16 c ≡ fetch_pair c) [
            | true ↦ λ near. rw near (
                sym (fetch_pair-one_page h (ensure_phys_ip-valid c) mask' room (ground arith))
                ∙ pair)
            | false ↦ λ near. rw near pair
          ]
      refl
