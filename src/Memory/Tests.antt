-- ===== src/Memory/Tests.antt =====
-- Instances of the theorems about src/memory.rs at concrete inputs.
use cuddles.Base.{◌≡◌, not, ◌&&◌, leb, ltb, ◌==◌, if◌then◌else◌, arith}
use cuddles.Memory.{Memory, with_size, e820_map, slot, read_u8, write_u8}
use cuddles.Memory.Layout.{IsValid, with_size-IsValid, covers, answers, e820_map-slot}
use cuddles.Memory.Bytes.{writable, read_u8-write_u8}

abbrev two_megabytes : Memory
unfolding with_size
two_megabytes = with_size 0x20_0000

two_megabytes-IsValid : IsValid two_megabytes
unfolding two_megabytes with_size
two_megabytes-IsValid = (with_size-IsValid 0x20_0000 (omega arith)).0

read_u8-write_u8_example : read_u8 (write_u8 0x7C00 0xEA two_megabytes) 0x7C00 ≡ (
    if (0x7C00 == 0x7C00) && writable two_megabytes 0x7C00
    then 0xEA
    else read_u8 two_megabytes 0x7C00)
read_u8-write_u8_example =
    read_u8-write_u8 0x7C00 0xEA 0x7C00 two_megabytes two_megabytes-IsValid (omega arith)
      (omega arith) (omega arith)

e820_map-slot_example :
    covers (e820_map two_megabytes.ram_size) 1 0x7C00
    ≡ answers (slot two_megabytes 0x7C00) && not (leb 0x9_FC00 0x7C00 && ltb 0x7C00 0x10_0000)
e820_map-slot_example = e820_map-slot two_megabytes 0x7C00 two_megabytes-IsValid (omega arith)

abbrev four_gigabytes : Memory
four_gigabytes = with_size 0x1_0000_0000
