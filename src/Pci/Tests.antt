-- ===== src/Pci/Tests.antt =====
-- Instances of the theorems about src/pci.rs at concrete inputs.
use cuddles.Base.{◌+◌, ◌-◌, ◌*◌, ◌/◌, ◌^◌, ◌≡◌, refl, inl, List, [], ◌∷◌, arith}
use cuddles.Pci.{new, blk, read32, read_only, write_function}
use cuddles.Pci.Probe.{Access, accesses, byte_at, accesses-identity}
use cuddles.Pci.Bars.{type_bit, bar-sizing}

-- The guest writes all ones to the vendor and to the first base address register of slot 1.
abbrev session : List Access
session =
    Access.latch 0x8000_0800
    ∷ Access.data_port 0 4 0xFFFF_FFFF
    ∷ Access.latch 0x8000_0810
    ∷ Access.data_port 0 4 0xFFFF_FFFF
    ∷ []

accesses-identity_example : byte_at 0 ((accesses session new).slots 1) ≡ byte_at 0 (new.slots 1)
unfolding read_only
accesses-identity_example = accesses-identity session new 1 0 (inl refl)

bar-sizing_example :
    (read32 0x10 (write_function 0x10 0 4 0xFFFF_FFFF blk) ≡ 2 ^ 32 - 2 ^ 6 + type_bit blk 0)
    × (read32 0x10 (write_function 0x10 0 4 0xD000 blk) ≡ 0xD000 / 2 ^ 6 * 2 ^ 6 + type_bit blk 0)
unfolding blk
bar-sizing_example =
    bar-sizing 0 6 0xD000 blk (omega arith) (omega arith) (omega arith) refl (omega arith)
