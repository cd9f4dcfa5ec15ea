-- ===== src/Protected/Tests.antt =====
-- Runs of the descriptor parser at concrete inputs, from the tests of src/protected.rs.
use cuddles.Base.{◌≡◌, refl, true, false}
use cuddles.Protected.{parse, present, is_code, is_data, is_system, dpl, translate}

-- Base 0xC0FF1234 and a limit of all pages, a present code segment.
flat_run :
    let d = parse 0xC0CF_9AFF_1234_FFFF in
    (d.base ≡ 0xC0FF_1234)
    × (d.limit ≡ 0xFFFF_FFFF)
    × (present d ≡ true)
    × (is_code d ≡ true)
    × (is_data d ≡ false)
    × (is_system d ≡ false)
    × (dpl d ≡ 0)
    × (translate d 0x4000_0000 ≡ 0x00FF_1234)
    × (d.g ≡ true)
    × (d.d_b ≡ true)
    × (d.l ≡ false)
unfolding parse present is_code is_data is_system dpl translate
flat_run = (refl, refl, refl, refl, refl, refl, refl, refl, refl, refl, refl)
