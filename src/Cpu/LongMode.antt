-- ===== src/Cpu/LongMode.antt =====
-- How src/cpu.rs enters and leaves long mode, and its model-specific registers.
use cuddles.Base.{
  ℕ, ◌≤◌, ◌≡◌, ◌≢◌, ◌⊎◌, refl, ◌∙◌, true, false, ◌&&◌, Option, bit_and, bit_or, if◌then◌else◌,
  bit_not, has_bits, xor, has_bits-pow, testb-bit_and, testb-bit_or, testb-pow, testb-bit_not,
  if_both, arith,
}
use cuddles.Cpu.{
  Cpu, efer_lma, efer_lme, cr0_pg, cr0_pe, flush_tlb, update_long_mode, write_cr0, write_efer,
  write_feature_control, write_msr, read_msr,
}

-- Long mode is active exactly if it was asked for and paging is on.
abbrev pub Agrees : Cpu → Type 0
Agrees c = has_bits c.efer efer_lma ≡ (has_bits c.cr0 cr0_pg && has_bits c.efer efer_lme)

-- Setting or clearing bit 10, seen at bits 8 and 10.
lma_set :
    (efer : ℕ)
    → (has_bits (bit_or efer efer_lma) efer_lma ≡ true)
      × (has_bits (bit_or efer efer_lma) efer_lme ≡ has_bits efer efer_lme)
lma_set efer =
    rw
      (
        has_bits-pow (bit_or efer efer_lma) 10,
        has_bits-pow (bit_or efer efer_lma) 8,
        has_bits-pow efer 8,
      )
      (ground (
        arith,
        testb-bit_or efer efer_lma 10,
        testb-bit_or efer efer_lma 8,
        testb-pow 10 10,
        testb-pow 10 8,
      ))

pub lma_cleared :
    (efer : ℕ)
    → (has_bits (bit_and efer (bit_not 64 efer_lma)) efer_lma ≡ false)
      × (has_bits (bit_and efer (bit_not 64 efer_lma)) efer_lme ≡ has_bits efer efer_lme)
lma_cleared efer =
    let mask = bit_not 64 efer_lma in
    rw
      (has_bits-pow (bit_and efer mask) 10, has_bits-pow (bit_and efer mask) 8, has_bits-pow efer 8)
      (ground (
        arith,
        testb-bit_and efer mask 10,
        testb-bit_and efer mask 8,
        testb-bit_not 64 efer_lma 10 (omega arith) (omega arith),
        testb-bit_not 64 efer_lma 8 (omega arith) (omega arith),
        testb-pow 10 10,
        testb-pow 10 8,
      ))

pub update_long_mode-Agrees : (c : Cpu) → Agrees (update_long_mode c)
unfolding update_long_mode
update_long_mode-Agrees c = ground (arith, lma_set c.efer, lma_cleared c.efer)

pub update_long_mode-lme :
    (c : Cpu) → has_bits (update_long_mode c).efer efer_lme ≡ has_bits c.efer efer_lme
unfolding update_long_mode
update_long_mode-lme c = ground (arith, lma_set c.efer, lma_cleared c.efer)

update_long_mode-kept :
    (c : Cpu) → ((update_long_mode c).pe ≡ c.pe) × ((update_long_mode c).cr0 ≡ c.cr0)
unfolding update_long_mode
update_long_mode-kept c = ground arith

write_efer-Agrees : (value : ℕ) (c : Cpu) → Agrees (write_efer value c)
unfolding write_efer
write_efer-Agrees value c =
    update_long_mode-Agrees
      (record c { efer = bit_or (bit_and value (bit_not 64 efer_lma)) (bit_and c.efer efer_lma) })

-- After a write of CR0, whatever held before, EFER.LMA is set exactly if CR0.PG and EFER.LME are;
-- protected mode is on exactly if the lowest bit of the value is set, and CR0 has the value.
pub write_cr0-Agrees :
    (v : ℕ) (c : Cpu)
    → Agrees (write_cr0 v c) × ((write_cr0 v c).pe ≡ has_bits v cr0_pe) × ((write_cr0 v c).cr0 ≡ v)
unfolding write_cr0
write_cr0-Agrees v c =
    let set' : Cpu = record c { cr0 = v; pe = has_bits v cr0_pe } in
    let flips = xor (has_bits c.cr0 cr0_pg) (has_bits v cr0_pg) in
    let d = if flips then flush_tlb set' else set' in
    let kept = update_long_mode-kept d in
    let same : (d.pe ≡ has_bits v cr0_pe) × (d.cr0 ≡ v) =
      if_both (λ (x : Cpu). (x.pe ≡ has_bits v cr0_pe) × (x.cr0 ≡ v)) flips (refl, refl)
        (refl, refl) in
    (update_long_mode-Agrees d, kept.0 ∙ same.0, kept.1 ∙ same.1)

write_feature_control-Agrees :
    (value : ℕ) (c : Cpu) → Agrees c → Agrees (write_feature_control value c)
unfolding write_feature_control
write_feature_control-Agrees value c h = ground arith

-- If EFER.LMA is set exactly if CR0.PG and EFER.LME are, then so it is after a write of any value
-- to any model-specific register.
pub write_msr-Agrees : (index value : ℕ) (c : Cpu) → Agrees c → Agrees (write_msr index value c)
unfolding write_msr
write_msr-Agrees index value c h =
    ground (arith, write_feature_control-Agrees value c h, write_efer-Agrees value c)

-- What only the other registers hold.
abbrev others : Cpu → ℕ × ℕ × ℕ × ℕ × ℕ × ℕ × ℕ × ℕ × ℕ × ℕ × ℕ
others c = (
  c.star, c.lstar, c.cstar, c.sfmask, c.fs_base, c.gs_base, c.kernel_gs_base, c.sysenter_cs,
  c.sysenter_esp, c.sysenter_eip, c.feature_control,
)

update_long_mode-others : (c : Cpu) → others (update_long_mode c) ≡ others c
unfolding update_long_mode
update_long_mode-others c =
    let want = has_bits c.cr0 cr0_pg && has_bits c.efer efer_lme in
    let efer' = if want then bit_or c.efer efer_lma else bit_and c.efer (bit_not 64 efer_lma) in
    if_both (λ (d : Cpu). others d ≡ others c) (xor want (has_bits c.efer efer_lma))
      {yes = flush_tlb (record c { efer = efer' })} {no = c} refl refl

write_efer-others : (value : ℕ) (c : Cpu) → others (write_efer value c) ≡ others c
unfolding write_efer
write_efer-others value c = update_long_mode-others _

-- A write of a model-specific register changes what no other register reads.
pub read-write_msr_other :
    (capability : ℕ → Option ℕ) (index other value : ℕ) (c : Cpu)
    → index ≢ other
    → read_msr capability other (write_msr index value c) ≡ read_msr capability other c
unfolding read_msr write_msr write_feature_control
read-write_msr_other capability index other value c h = ground (arith, write_efer-others value c)

-- A register with no rule of its own reads what was written.
pub read-write_msr_self :
    (capability : ℕ → Option ℕ) (index value : ℕ) (c : Cpu)
    → ((0xC0000081 ≤ index) × (index ≤ 0xC0000084)) ⊎ ((0xC0000100 ≤ index) × (index ≤ 0xC0000102))
    → read_msr capability index (write_msr index value c) ≡ value
unfolding read_msr write_msr
read-write_msr_self capability index value c h = ground arith
