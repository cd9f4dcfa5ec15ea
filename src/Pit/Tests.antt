-- ===== src/Pit/Tests.antt =====
-- Instances of the theorems about src/pit.rs at concrete inputs.
use cuddles.Base.{List, [], ◌∷◌}
use cuddles.Pit.{Pit, new}
use cuddles.Pit.Valid.{Access}

abbrev session : List Access
session =
    Access.control 0x36
    ∷ Access.data_byte 0x9C
    ∷ Access.data_byte 0x2E
    ∷ Access.cycles 500
    ∷ Access.read_port 0
    ∷ Access.system_read
    ∷ []

-- A counter of ten.
abbrev ten : Pit
ten = record new { ch0_count = 10; ch0_reload = 10; ch2_count = 10 }
