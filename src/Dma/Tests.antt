-- ===== src/Dma/Tests.antt =====
-- Instances of the theorems about src/dma.rs at concrete inputs.
use cuddles.Base.{◌+◌, ◌^◌, ◌≡◌, refl, true, false, update, bit_or, arith}
use cuddles.Memory.{with_size, read_u8}
use cuddles.Memory.Layout.{with_size-IsValid}
use cuddles.Dma.{Dma, new, idle_channel, address, transfer}
use cuddles.Dma.Program.{address_lem}
use cuddles.Dma.Transfer.{copied, transfer_lem}

-- Channel 1 enabled, for four bytes at 0x1_2000.
abbrev ready : Dma
ready = record new {
  channels =
      update (λ i. idle_channel) 1
        (record idle_channel { base = 0x2000; page = 1; count = 1; enabled = true });
}

transfer_lem_example :
    let m = with_size 0x20_0000 in
    let done = transfer 1 ready m in
    (done.0 ≡ 4)
    × (read_u8 done.2 0x1_2006 ≡ copied m 4 (address ready 1) (address ready 1 + 4) 0x1_2006)
    × (done.1.status ≡ bit_or ready.status (2 ^ 1))
    × ((done.1.channels 1).enabled ≡ false)
    × (done.1.channels 3 ≡ ready.channels 3)
transfer_lem_example =
    transfer_lem 1 0x1_2006 3 ready (with_size 0x20_0000)
      (with_size-IsValid 0x20_0000 (omega arith)).0 (omega arith) (omega arith) (omega arith) refl
      (omega (arith, address_lem ready 1 (omega arith) (omega arith) (omega arith)))
