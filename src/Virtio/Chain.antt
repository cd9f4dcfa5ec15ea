-- ===== src/Virtio/Chain.antt =====
-- The descriptor chain that `request` of src/virtio.rs collects, against the driver's table in memory.
use cuddles.Base.{
  ℕ, zero, suc, ◌+◌, ◌*◌, ◌-◌, ◌≤◌, ◌≡◌, ◌⊎◌, inl, inr, refl, Bool, true, false, List, [], ◌∷◌,
  bit_and, ◌==◌, length, Bool-cases, arith,
}
use cuddles.Memory.{Memory, read_u16, read_u32, read_u64}
use cuddles.Virtio.{Desc, desc_at, next_at, walk_chain}

abbrev pub last_of_chain : Desc → Bool
last_of_chain d = bit_and d.flags 1 == 0

-- The entry of a table at `desc`: 16 bytes, of which the last two name the next entry.
pub record IsEntry (mem : Memory) (desc index : ℕ) (d : Desc) : Type 0 where
  pub addr : d.addr ≡ read_u64 mem (desc + index * 16)
  pub len : d.len ≡ read_u32 mem (desc + index * 16 + 8)
  pub flags : d.flags ≡ read_u16 mem (desc + index * 16 + 12)

abbrev pub linked : Memory → ℕ → ℕ → ℕ
linked mem desc index = read_u16 mem (desc + index * 16 + 14)

-- The descriptors are the entries of the table from `index` on, along the links, up to the first
-- that names no next one, or to the `left`th.
abbrev pub IsChain : Memory → ℕ → ℕ → ℕ → List Desc → Type 0
IsChain mem desc left index [] = left ≡ 0
IsChain mem desc left index (d ∷ []) =
    IsEntry mem desc index d × ((last_of_chain d ≡ true) ⊎ (left ≡ 1))
IsChain mem desc left index (d ∷ e ∷ rest) =
    IsEntry mem desc index d
    × (last_of_chain d ≡ false)
    × IsChain mem desc (left - 1) (linked mem desc index) (e ∷ rest)

IsChain-cons :
    (mem : Memory) (desc left index : ℕ) (d : Desc) (rest : List Desc)
    → IsEntry mem desc index d
    → last_of_chain d ≡ false
    → IsChain mem desc left (linked mem desc index) rest
    → IsChain mem desc (suc left) index (d ∷ rest)
IsChain-cons mem desc left index d [] here more h = (here, inr (omega arith))
IsChain-cons mem desc left index d (e ∷ rest) here more h =
    let same : suc left - 1 ≡ left = omega arith in (here, more, rw same h)

desc_at-IsEntry : (mem : Memory) (desc index : ℕ) → IsEntry mem desc index (desc_at mem desc index)
unfolding desc_at
desc_at-IsEntry mem desc index = record { addr = refl; len = refl; flags = refl }

-- Whatever the driver's table holds, the descriptors collected are the entries of the table from
-- the given index on, each but the last with the next flag set and followed by the entry that it
-- names; the last has the flag clear, unless the bound is used up, which they never exceed in
-- number.
pub walk_chain-IsChain :
    (left : ℕ) (mem : Memory) (desc index : ℕ)
    → (length (walk_chain mem desc left index) ≤ left)
      × IsChain mem desc left index (walk_chain mem desc left index)
unfolding walk_chain next_at
walk_chain-IsChain zero mem desc index = (omega arith, refl)
walk_chain-IsChain (suc left) mem desc index =
    let d = desc_at mem desc index in
    let here = desc_at-IsEntry mem desc index in
    let rest = walk_chain-IsChain left mem desc (next_at mem desc index) in
    elim (Bool-cases (last_of_chain d)) [
      | inl last ↦ rw last (omega arith, (here, inl last))
      | inr more ↦
          rw more (omega (arith, rest.0), IsChain-cons mem desc left index d _ here more rest.1)
    ]
