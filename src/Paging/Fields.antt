-- ===== src/Paging/Fields.antt =====
-- The fields of page-table entries in src/paging.rs, as arithmetic: addresses, pages and bits.
use native.Mathlib.Nat.{mod-lt, one-le-pow}
use cuddles.Base.{
  ℕ, ◌+◌, ◌-◌, ◌*◌, ◌/◌, ◌%◌, ◌^◌, ◌<◌, ◌≡◌, refl, ◌∙◌, Bool, true, false, not, ◌&&◌, ◌||◌, testb,
  arith, bit_and, bit_or, bit_not, has_bits, ◌>>>◌, ◌==◌, u64, bit_and_low, bit_and_shifted,
  bit_or_shifted, has_bits-pow, testb-bit_and, testb-bit_or,
}
use cuddles.Paging.{addr_mask_64, addr_mask_32}

-- The address fields.
pub field_64 : (e : ℕ) → bit_and e addr_mask_64 ≡ e % 2 ^ 52 / 2 ^ 12 * 2 ^ 12
field_64 e = bit_and_shifted 12 e (2 ^ 40 - 1) ∙ omega (arith, bit_and_low 40 (e / 2 ^ 12))

pub field_32 : (e : ℕ) → bit_and e addr_mask_32 ≡ e % 2 ^ 32 / 2 ^ 12 * 2 ^ 12
field_32 e = bit_and_shifted 12 e (2 ^ 20 - 1) ∙ omega (arith, bit_and_low 20 (e / 2 ^ 12))

pub field_2m :
    (e : ℕ) → bit_and (bit_and e addr_mask_64) (bit_not 64 0x1F_FFFF) ≡ e % 2 ^ 52 / 2 ^ 21 * 2 ^ 21
field_2m e =
    let f = bit_and e addr_mask_64 in
    bit_and_shifted 21 f (2 ^ 43 - 1) ∙ omega (arith, field_64 e, bit_and_low 43 (f / 2 ^ 21))

pub field_1g :
    (e : ℕ)
    → bit_and (bit_and e addr_mask_64) (bit_not 64 0x3FFF_FFFF) ≡ e % 2 ^ 52 / 2 ^ 30 * 2 ^ 30
field_1g e =
    let f = bit_and e addr_mask_64 in
    bit_and_shifted 30 f (2 ^ 34 - 1) ∙ omega (arith, field_64 e, bit_and_low 34 (f / 2 ^ 30))

pub field_4m : (e : ℕ) → bit_and e 0xFFC0_0000 ≡ e % 2 ^ 32 / 2 ^ 22 * 2 ^ 22
field_4m e = bit_and_shifted 22 e (2 ^ 10 - 1) ∙ omega (arith, bit_and_low 10 (e / 2 ^ 22))

pub addr_pdpt :
    (cr3 linear : ℕ)
    → cr3 < 2 ^ 64
    → u64 (bit_and cr3 (bit_not 64 0x1F) + bit_and (linear >>> 30) 0x3 * 8)
      ≡ cr3 / 2 ^ 5 * 2 ^ 5 + linear / 2 ^ 30 % 2 ^ 2 * 8
addr_pdpt cr3 linear h =
    let base : bit_and cr3 (bit_not 64 0x1F) ≡ cr3 / 2 ^ 5 * 2 ^ 5 =
      bit_and_shifted 5 cr3 (2 ^ 59 - 1) ∙ omega (arith, bit_and_low 59 (cr3 / 2 ^ 5)) in
    rw (base, bit_and_low 2 (linear / 2 ^ 30)) (omega arith)

-- A page and an offset in it.
pub joined :
    (k q linear : ℕ) → bit_or (q * 2 ^ k) (bit_and linear (2 ^ k - 1)) ≡ q * 2 ^ k + linear % 2 ^ k
joined k q linear =
    rw (bit_and_low k linear)
      (bit_or_shifted k q (linear % 2 ^ k) (mod-lt linear (one-le-pow k 2 (omega arith))))

pub absent : (e : ℕ) → (bit_and e 1 == 0) ≡ not (testb e 0)
absent e = ground (arith, has_bits-pow e 0)

pub addr_64 :
    (k base linear : ℕ)
    → u64 (bit_and base addr_mask_64 + bit_and (linear >>> k) 0x1FF * 8)
      ≡ base % 2 ^ 52 / 2 ^ 12 * 2 ^ 12 + linear / 2 ^ k % 2 ^ 9 * 8
addr_64 k base linear = rw (field_64 base, bit_and_low 9 (linear / 2 ^ k)) (omega arith)

-- A bit of all entries, and of any.
pub all_2 : (k a b : ℕ) → has_bits (bit_and a b) (2 ^ k) ≡ testb a k && testb b k
all_2 k a b = has_bits-pow (bit_and a b) k ∙ testb-bit_and a b k

pub all_3 :
    (k a b c : ℕ)
    → has_bits (bit_and (bit_and a b) c) (2 ^ k) ≡ (testb a k && testb b k) && testb c k
all_3 k a b c =
    has_bits-pow (bit_and (bit_and a b) c) k
    ∙ rw (testb-bit_and (bit_and a b) c k, testb-bit_and a b k) refl

pub all_4 :
    (k a b c d : ℕ)
    → has_bits (bit_and (bit_and (bit_and a b) c) d) (2 ^ k)
      ≡ ((testb a k && testb b k) && testb c k) && testb d k
all_4 k a b c d =
    has_bits-pow (bit_and (bit_and (bit_and a b) c) d) k
    ∙ rw
        (
          testb-bit_and (bit_and (bit_and a b) c) d k,
          testb-bit_and (bit_and a b) c k,
          testb-bit_and a b k,
        )
        refl

pub no_bit : (k x : ℕ) → (bit_and x (2 ^ k) == 0) ≡ not (testb x k)
no_bit k x = ground (arith, has_bits-pow x k)

pub none_2 : (k a b : ℕ) → (bit_and (bit_or a b) (2 ^ k) == 0) ≡ not (testb a k || testb b k)
none_2 k a b = no_bit k (bit_or a b) ∙ rw (testb-bit_or a b k) refl

pub none_3 :
    (k a b c : ℕ)
    → (bit_and (bit_or (bit_or a b) c) (2 ^ k) == 0) ≡ not ((testb a k || testb b k) || testb c k)
none_3 k a b c =
    no_bit k (bit_or (bit_or a b) c) ∙ rw (testb-bit_or (bit_or a b) c k, testb-bit_or a b k) refl

pub none_4 :
    (k a b c d : ℕ)
    → (bit_and (bit_or (bit_or (bit_or a b) c) d) (2 ^ k) == 0)
      ≡ not (((testb a k || testb b k) || testb c k) || testb d k)
none_4 k a b c d =
    no_bit k (bit_or (bit_or (bit_or a b) c) d)
    ∙ rw
        (
          testb-bit_or (bit_or (bit_or a b) c) d k,
          testb-bit_or (bit_or a b) c k,
          testb-bit_or a b k,
        )
        refl

pub forbidden : (nxe x : Bool) → (not nxe || not x) ≡ not (nxe && x)
forbidden true x = refl
forbidden false x = refl

pub addr_32 :
    (k base linear : ℕ)
    → u64 (bit_and base addr_mask_32 + bit_and (linear >>> k) 0x3FF * 4)
      ≡ base % 2 ^ 32 / 2 ^ 12 * 2 ^ 12 + linear / 2 ^ k % 2 ^ 10 * 4
addr_32 k base linear = rw (field_32 base, bit_and_low 10 (linear / 2 ^ k)) (omega arith)
