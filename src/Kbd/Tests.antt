-- ===== src/Kbd/Tests.antt =====
-- Instances of the theorems about src/kbd.rs at concrete inputs.
use cuddles.Base.{◌≡◌, false, some, List, [], ◌∷◌}
use cuddles.Kbd.{Kbd, new, Access, accesses}
use cuddles.Kbd.Irq.{IrqTells, new-IrqTells, all_noticed, accesses-IrqTells}
use cuddles.Kbd.Scancodes.{replay, scancodes_for, replay-scancodes_for}

abbrev session : List Access
session =
    Access.to_command 0xAA
    ∷ Access.polled
    ∷ Access.from_data
    ∷ Access.to_command 0x60
    ∷ Access.to_data 0x45
    ∷ Access.from_host 0x1E
    ∷ []

accesses-IrqTells_example : IrqTells (all_noticed session new false) (accesses session new)
accesses-IrqTells_example = accesses-IrqTells session false new new-IrqTells

-- Two bytes waiting.
abbrev waiting : Kbd
waiting = record new { out = (0x1E, false) ∷ (0x9E, false) ∷ [] }

replay-scancodes_for_example : replay [] (scancodes_for (72 ∷ 105 ∷ [])) ≡ some []
replay-scancodes_for_example = replay-scancodes_for (72 ∷ 105 ∷ []) []
