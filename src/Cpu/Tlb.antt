-- ===== src/Cpu/Tlb.antt =====
-- The translation buffer and the stack of src/cpu.rs.
use cuddles.Base.{
  ℕ, ◌/◌, ◌%◌, ◌^◌, ◌<◌, ◌≡◌, ◌≢◌, refl, ap, ◌∙◌, Bool, true, false, not, ◌&&◌, Option, none, some,
  bit_and, bit_or, ◌==◌, if◌then◌else◌, ◌>>>◌, ◌<<<◌, has_bits, update, bit_and_low, bit_or_shifted,
  if_both, arith, subst,
}
use cuddles.Memory.{Memory}
use cuddles.Paging.{PagingMode, Mapping}
use cuddles.Paging.Long.{translate_mode, canonical}
use cuddles.Paging.Modes.{translate_mode-Lands, wide, narrow}
use cuddles.Paging.Walk.{Lands}
use cuddles.Cpu.{Cpu, is_some, long_mode, paging_mode, cpl, flush_tlb, raise_gp, cr0_pg, efer_nxe}
use cuddles.Cpu.Translate.{
  access_allowed, raise_page_fault, walked, mark_accessed, mark_found, set_accessed_bits, invlpg,
  hit, miss, cached, filled, apply_paging_inner, unbacked,
}

-- After a flush no address is served from the buffer.
pub cached-flush_tlb : (linear : ℕ) (c : Cpu) → cached linear (flush_tlb c) ≡ false
unfolding cached flush_tlb
cached-flush_tlb linear c = refl

-- After INVLPG of an address its page is not served from the buffer, and every page of another
-- number is served as before.
pub cached-invlpg :
    (linear other : ℕ) (c : Cpu)
    → cached other (invlpg linear c)
      ≡ (if (linear >>> 12) == (other >>> 12) then false else cached other c)
unfolding cached invlpg
cached-invlpg linear other c =
    let page = linear >>> 12 in
    let page' = other >>> 12 in
    ground (
      arith,
      ap (λ (t : ℕ). bit_and t 255) {x = page} {y = page'},
      ap c.tlb {x = bit_and page 255} {y = bit_and page' 255},
    )

-- The fault state is that of before.
abbrev SameFault : Cpu → ℕ × Cpu → Type 0
SameFault c r = (r.1.pending_exception ≡ c.pending_exception) × (r.1.cr2 ≡ c.cr2)

module _ (linear : ℕ) (c : Cpu) (h : is_some c.pending_exception ≡ true) where
  raise_page_fault-same :
      (present write user fetch : Bool)
      → SameFault c (unbacked, raise_page_fault linear present write user fetch c)
  unfolding raise_page_fault
  raise_page_fault-same present write user fetch = rw h (refl, refl)

  raise_gp-same : SameFault c (unbacked, raise_gp 0 c)
  unfolding raise_gp
  raise_gp-same = rw h (refl, refl)

  mark_found-same :
      (write : Bool) (found : Option Mapping) → SameFault c (0, mark_found write c found)
  unfolding mark_found set_accessed_bits
  mark_found-same write none = (refl, refl)
  mark_found-same write (some map) = (refl, refl)

  hit-same : (idx : ℕ) (write user fetch : Bool) → SameFault c (hit idx linear write user fetch c)
  unfolding hit mark_accessed
  hit-same idx write user fetch =
      let entry = c.tlb idx in
      if_both (SameFault c) (access_allowed c entry.writable entry.user entry.exec write user fetch)
        (if_both (λ (x : Cpu). SameFault c (0, x)) (write && not entry.dirtied)
          (mark_found-same true (walked linear c)) (refl, refl))
        (raise_page_fault-same true write user fetch)

  miss-same :
      (idx : ℕ) (write user fetch : Bool) (found : Option Mapping)
      → SameFault c (miss idx linear write user fetch c found)
  unfolding miss set_accessed_bits
  miss-same idx write user fetch none = raise_page_fault-same false write user fetch
  miss-same idx write user fetch (some map) =
      if_both (SameFault c) (access_allowed c map.writable map.user map.exec write user fetch)
        (refl, refl) (raise_page_fault-same true write user fetch)

  -- A fault that is pending is never replaced, nor is the address that it is about.
  pub apply_paging_inner-first_fault :
      (write fetch : Bool)
      → let after = (apply_paging_inner linear write fetch c).1 in
        (after.pending_exception ≡ c.pending_exception) × (after.cr2 ≡ c.cr2)
  unfolding apply_paging_inner
  apply_paging_inner-first_fault write fetch =
      let user = cpl c == 3 in
      let idx = bit_and (linear >>> 12) 255 in
      if_both (SameFault c) (long_mode c && not (canonical linear)) raise_gp-same (
        if_both (SameFault c) (not (has_bits c.cr0 cr0_pg)) (refl, refl)
          (if_both (SameFault c) (cached linear c) (hit-same idx write user fetch)
            (miss-same idx write user fetch (walked linear c))))

-- A walk in any structure keeps the offset within the page.
structure-offset :
    (mem : Memory) (cr3 linear : ℕ) (nxe : Bool) (mode : PagingMode) (map : Mapping)
    → cr3 < 2 ^ 64
    → mode ≢ PagingMode.off
    → translate_mode mem cr3 linear mode nxe ≡ some map
    → map.phys % 2 ^ 12 ≡ linear % 2 ^ 12
structure-offset mem cr3 linear nxe PagingMode.off map h on e = absurd (on refl)
structure-offset mem cr3 linear nxe PagingMode.long map h on e =
    (subst (Lands (wide mem nxe) linear) e (translate_mode-Lands mem cr3 linear nxe h).0).0
structure-offset mem cr3 linear nxe PagingMode.pae map h on e =
    let lands =
      (subst (Lands (wide mem nxe) (linear % 2 ^ 32)) e
        (translate_mode-Lands mem cr3 linear nxe h).1).0 in
    omega (arith, lands)
structure-offset mem cr3 linear nxe PagingMode.legacy map h on e =
    let lands =
      (subst (Lands (narrow mem) (linear % 2 ^ 32)) e
        (translate_mode-Lands mem cr3 linear nxe h).2).0 in
    omega (arith, lands)

paging_mode-on : (c : Cpu) → has_bits c.cr0 cr0_pg ≡ true → paging_mode c ≢ PagingMode.off
unfolding paging_mode
paging_mode-on c on = ground (arith, on)

module _ (linear : ℕ) (write fetch : Bool) (c : Cpu) (map : Mapping) (low : c.cr3 < 2 ^ 64)
    (on : has_bits c.cr0 cr0_pg ≡ true) (named : (long_mode c && not (canonical linear)) ≡ false)
    (used : c.no_tlb ≡ false) (found : walked linear c ≡ some map)
    (allowed : access_allowed c map.writable map.user map.exec write (cpl c == 3) fetch
      ≡ true) where
  idx : ℕ
  idx = bit_and (linear >>> 12) 255

  -- The state after the miss.
  abbrev after : Cpu
  after = set_accessed_bits map write (record c {
    tlb = update c.tlb (bit_and (linear >>> 12) 255) (filled map (linear >>> 12) write);
  })

  first : cached linear c ≡ false → apply_paging_inner linear write fetch c ≡ (map.phys, after)
  unfolding apply_paging_inner miss
  first absent = rw (named, on, absent, found, allowed) refl

  entry_there : after.tlb (bit_and (linear >>> 12) 255) ≡ filled map (linear >>> 12) write
  unfolding set_accessed_bits
  entry_there =
      let self : (bit_and (linear >>> 12) 255 == bit_and (linear >>> 12) 255) ≡ true =
        ground arith in
      rw self refl

  no_tlb_after : after.no_tlb ≡ false
  unfolding set_accessed_bits
  no_tlb_after = used

  on_after : has_bits after.cr0 cr0_pg ≡ true
  unfolding set_accessed_bits
  on_after = on

  named_after : (long_mode after && not (canonical linear)) ≡ false
  unfolding set_accessed_bits long_mode
  named_after = named

  cpl-after : cpl after ≡ cpl c
  unfolding set_accessed_bits cpl
  cpl-after = refl

  allowed_after :
      access_allowed after map.writable map.user map.exec write (cpl c == 3) fetch ≡ true
  unfolding access_allowed set_accessed_bits
  allowed_after = allowed

  present : cached linear after ≡ true
  unfolding cached
  present =
      let page : ((linear >>> 12) == (linear >>> 12)) ≡ true = ground arith in
      rw (entry_there, page, no_tlb_after) refl

  again :
      hit (bit_and (linear >>> 12) 255) linear write (cpl c == 3) fetch after ≡ (map.phys, after)
  unfolding hit
  again =
      let offset =
        structure-offset c.mem c.cr3 linear (has_bits c.efer efer_nxe) (paging_mode c) map low
          (paging_mode-on c on) found in
      let joined : bit_or ((map.phys >>> 12) <<< 12) (bit_and linear 0xFFF) ≡ map.phys =
        rw (bit_and_low 12 linear) (
          bit_or_shifted 12 (map.phys / 2 ^ 12) (linear % 2 ^ 12) (omega arith)
          ∙ omega (arith, offset)) in
      let whole : access_allowed after map.writable map.user map.exec write (cpl c == 3) fetch
          ≡ true =
        allowed_after in
      let quiet : (write && not write) ≡ false = ground arith in
      rw (entry_there, whole, quiet, joined) refl

  second : apply_paging_inner linear write fetch after ≡ (map.phys, after)
  unfolding apply_paging_inner
  second = rw (named_after, on_after, present, cpl-after) again

  -- With paging and the buffer on, CR3 below 2 ^ 64 and an address that is canonical where that is
  -- asked: if the buffer does not have the page, and the page walk finds a mapping that allows the
  -- access, then the translation gives the mapping's address, and the same translation made again
  -- gives the same address and leaves the state as it is.
  pub apply_paging_inner-again :
      cached linear c ≡ false
      → let once = apply_paging_inner linear write fetch c in
        (once.0 ≡ map.phys) × (apply_paging_inner linear write fetch once.1 ≡ once)
  apply_paging_inner-again absent = rw (first absent) (refl, second)
