-- ===== src/Bus.antt =====
-- The devices that src/cpu.rs keeps and the ports by which a program reaches them, at 8, 16 and 32
-- bits, and the poll that carries their requests to the interrupt controller. The rest of the
-- processor is in Cpu.antt.
pub mod Poll
mod Tests
use cuddles.Base.{
  ℕ, zero, suc, ◌+◌, ◌-◌, ◌*◌, ◌/◌, ◌%◌, ◌^◌, Bool, true, false, not, ◌&&◌, Option, none, some,
  List, [], ◌∷◌, bit_and, bit_or, ◌==◌, ltb, leb, if◌then◌else◌, ◌<<<◌, ◌>>>◌, u8, u16,
}
use cuddles.Memory.{Memory}
use cuddles.Pit
use cuddles.Pit.{Pit}
use cuddles.Pic
use cuddles.Pic.{Pic}
use cuddles.Kbd
use cuddles.Kbd.{Kbd}
use cuddles.Dma
use cuddles.Dma.{Dma}
use cuddles.Cmos
use cuddles.Cmos.{Cmos}
use cuddles.Ide
use cuddles.Ide.{Ide}
use cuddles.Pci
use cuddles.Pci.{Pci}
use cuddles.Vga
use cuddles.Vga.{Vga}
use cuddles.Virtio
use cuddles.Virtio.{VirtioBlk}

-- The fields of `Cpu` that hold devices, and those that the poll keeps its time by.
pub record Bus : Type 0 where
  pub mem : Memory
  pub pit : Pit
  pub pic : Pic
  pub vga : Vga
  pub kbd : Kbd
  pub dma : Dma
  pub cmos : Cmos
  pub ide : Ide
  pub pci : Pci
  pub virtio : VirtioBlk
  pub vga_retrace : Bool
  pub pit_subsecond : ℕ
  pub key_script : List ℕ
  pub key_next : ℕ
  pub instructions_executed : ℕ

abbrev within_window : ℕ → Option ℕ → Option ℕ
within_window port none = none
within_window port (some base) =
    if leb base port && ltb port (u16 (base + 64)) then some (port - base) else none

unfoldable pub virtio_port : ℕ → Bus → Option ℕ
virtio_port port b = within_window port (Pci.virtio_io_base b.pci)

-- The arms of the matches on a port that is not the virtio device's.
unfoldable pub in_arm : ℕ → Bus → ℕ × Bus
in_arm port b =
    let (pit_value, pit') = Pit.read_data (u8 (port - 0x40)) b.pit in
    let (key, kbd') = Kbd.read_data b.kbd in
    let (clock, cmos') = Cmos.read_data b.cmos in
    let (speaker, pit61) = Pit.read_port61 b.pit in
    if leb 0xCFC port && leb port 0xCFF
    then (u8 (Pci.read_data (port - 0xCFC) 1 b.pci), b)
    else if port == 0x20
    then (Pic.read_command 0x20 b.pic, b)
    else if port == 0x21
    then (Pic.read_data 0x21 b.pic, b)
    else if port == 0xA0
    then (Pic.read_command 0xA0 b.pic, b)
    else if port == 0xA1
    then (Pic.read_data 0xA1 b.pic, b)
    else if leb 0x40 port && leb port 0x42
    then (pit_value, record b { pit = pit' })
    else if port == 0x60
    then (key, record b { kbd = kbd' })
    else if port == 0x64
    then (Kbd.read_status b.kbd, b)
    else if port == 0x08
    then (Dma.read_status b.dma, b)
    else if port == 0x71
    then (clock, record b { cmos = cmos' })
    else if port == 0x1F1
    then (b.ide.error, b)
    else if port == 0x1F7
    then (Ide.read_status b.ide, b)
    else if port == 0x3F6
    then (Ide.read_status b.ide, b)
    else if port == 0x3D4
    then (b.vga.crtc_index, b)
    else if port == 0x3D5
    then (Vga.read_crtc_data b.vga, b)
    else if port == 0x3DA
    then ((if not b.vga_retrace then 0x09 else 0x00), record b { vga_retrace = not b.vga_retrace })
    else if port == 0x61
    then (speaker, record b { pit = pit61 })
    else (0xFF, b)

-- A read of the virtio window, by the offset in it.
unfoldable pub virtio_in : ℕ → ℕ → Bus → ℕ × Bus
virtio_in off size b =
    let (virtio', value) = Virtio.read off size b.virtio in
    (value % 2 ^ (8 * size), record b { virtio = virtio' })

abbrev pub or_arm {ℓ} : {A : Type ℓ} → Option ℕ → (ℕ → A) → A → A
or_arm none window arm = arm
or_arm (some off) window arm = window off

unfoldable pub port_in : ℕ → Bus → ℕ × Bus
port_in port b = or_arm (virtio_port port b) (λ off. virtio_in off 1 b) (in_arm port b)

-- Two accesses of half the width, low half first.
unfoldable pub in_arm16 : ℕ → Bus → ℕ × Bus
in_arm16 port b =
    let (disk_value, ide') = Ide.read_data b.ide in
    let (lo, b1) = port_in port b in
    let (hi, b2) = port_in (u16 (port + 1)) b1 in
    if leb 0xCFC port && leb port 0xCFF
    then (u16 (Pci.read_data (port - 0xCFC) 2 b.pci), b)
    else if port == 0x1F0
    then (disk_value, record b { ide = ide' })
    else if port == 0x1F1
    then (b.ide.error, b)
    else if port == 0x1F7
    then (Ide.read_status b.ide, b)
    else if port == 0x3F6
    then (Ide.read_status b.ide, b)
    else (bit_or lo (hi <<< 8), b2)

unfoldable pub port_in16 : ℕ → Bus → ℕ × Bus
port_in16 port b = or_arm (virtio_port port b) (λ off. virtio_in off 2 b) (in_arm16 port b)

unfoldable pub in_arm32 : ℕ → Bus → ℕ × Bus
in_arm32 port b =
    let (lo, b1) = port_in16 port b in
    let (hi, b2) = port_in16 (u16 (port + 2)) b1 in
    if port == 0xCF8
    then (b.pci.address, b)
    else if leb 0xCFC port && leb port 0xCFF
    then (Pci.read_data (port - 0xCFC) 4 b.pci, b)
    else (bit_or lo (hi <<< 16), b2)

unfoldable pub port_in32 : ℕ → Bus → ℕ × Bus
port_in32 port b = or_arm (virtio_port port b) (λ off. virtio_in off 4 b) (in_arm32 port b)

unfoldable pub out_arm : ℕ → ℕ → Bus → Bus
out_arm port val b =
    if leb 0xCFC port && leb port 0xCFF
    then record b { pci = Pci.write_data (port - 0xCFC) 1 val b.pci }
    else if port == 0x20
    then record b { pic = Pic.write_command 0x20 val b.pic }
    else if port == 0x21
    then record b { pic = Pic.write_data 0x21 val b.pic }
    else if port == 0xA0
    then record b { pic = Pic.write_command 0xA0 val b.pic }
    else if port == 0xA1
    then record b { pic = Pic.write_data 0xA1 val b.pic }
    else if leb 0x40 port && leb port 0x42
    then record b { pit = Pit.write_data val b.pit }
    else if port == 0x43
    then record b { pit = Pit.write_control val b.pit }
    else if port == 0x60
    then record b { kbd = Kbd.write_data val b.kbd }
    else if port == 0x64
    then record b { kbd = Kbd.write_command val b.kbd }
    else if port == 0x08
    then record b { dma = Dma.write_command 0x08 val b.dma }
    else if port == 0x0A
    then record b { dma = Dma.write_command 0x0A val b.dma }
    else if leb 0x81 port && leb port 0x8F
    then record b { dma = Dma.write_page (u8 port) val b.dma }
    else if port == 0x61
    then record b { pit = Pit.write_port61 val b.pit }
    else if leb 0x1F1 port && leb port 0x1F6
    then record b { ide = Ide.write_reg port val b.ide }
    else if port == 0x1F7
    then record b { ide = Ide.write_command val b.ide }
    else if port == 0x3D4
    then record b { vga = Vga.write_crtc_index val b.vga }
    else if port == 0x3D5
    then record b { vga = Vga.write_crtc_data val b.vga }
    else if port == 0x70
    then record b { cmos = Cmos.write_index val b.cmos }
    else if port == 0x71
    then record b { cmos = Cmos.write_data val b.cmos }
    else b

unfoldable pub virtio_out : ℕ → ℕ → Bus → Bus
virtio_out val off b =
    let (virtio', mem') = Virtio.write off val b.virtio b.mem in
    record b { virtio = virtio'; mem = mem' }

unfoldable pub port_out : ℕ → ℕ → Bus → Bus
port_out port val b = or_arm (virtio_port port b) (λ off. virtio_out val off b) (out_arm port val b)

unfoldable pub out_arm16 : ℕ → ℕ → Bus → Bus
out_arm16 port val b =
    let low = bit_and val 0xFF in
    if leb 0xCFC port && leb port 0xCFF
    then record b { pci = Pci.write_data (port - 0xCFC) 2 val b.pci }
    else if port == 0x1F0
    then record b { ide = Ide.write_data val b.ide }
    else if leb 0x1F1 port && leb port 0x1F6
    then record b { ide = Ide.write_reg port low b.ide }
    else if port == 0x1F7
    then record b { ide = Ide.write_command low b.ide }
    else if port == 0x3F6
    then b
    else port_out (u16 (port + 1)) (u8 (val >>> 8)) (port_out port low b)

unfoldable pub port_out16 : ℕ → ℕ → Bus → Bus
port_out16 port val b =
    or_arm (virtio_port port b) (λ off. virtio_out val off b) (out_arm16 port val b)

unfoldable pub out_arm32 : ℕ → ℕ → Bus → Bus
out_arm32 port val b =
    if port == 0xCF8
    then record b { pci = record b.pci { address = val } }
    else if leb 0xCFC port && leb port 0xCFF
    then record b { pci = Pci.write_data (port - 0xCFC) 4 val b.pci }
    else port_out16 (u16 (port + 2)) (u16 (val >>> 16)) (port_out16 port (u16 val) b)

unfoldable pub port_out32 : ℕ → ℕ → Bus → Bus
port_out32 port val b =
    or_arm (virtio_port port b) (λ off. virtio_out val off b) (out_arm32 port val b)

-- One second of the wall clock for each period of the timer's input.
abbrev pub pit_hz : ℕ
pit_hz = 1193182

unfoldable pub catch_up : ℕ → Bus → Bus
catch_up zero b = b
catch_up (suc fuel) b =
    let next =
      catch_up fuel
        (record b { pit_subsecond = b.pit_subsecond - pit_hz; cmos = Cmos.tick_second b.cmos }) in
    if leb pit_hz b.pit_subsecond then next else b

-- The steps of a poll, in order: the timers, the script of keys, and the requests.
unfoldable pub tick_timers : Bus → Bus
tick_timers b =
    catch_up (b.pit_subsecond + 4)
      (record b { pit = Pit.tick 4 b.pit; pit_subsecond = b.pit_subsecond + 4 })

unfoldable pub request_timer : Bus → Bus
request_timer b =
    if b.pit.irq0
    then record b { pit = record b.pit { irq0 = false }; pic = Pic.raise_irq 0 b.pic }
    else b

unfoldable pub type_key : List ℕ → Bus → Bus
type_key [] b = b
type_key (scancode ∷ rest) b =
    if b.kbd.driver_attached && (Kbd.idle b.kbd && leb b.key_next b.instructions_executed)
    then record b {
      key_script = rest;
      kbd = Kbd.push_scancode scancode b.kbd;
      key_next = b.instructions_executed + 20000;
    }
    else b

unfoldable pub request_keyboard : Bus → Bus
request_keyboard b =
    if b.kbd.irq1
    then record b { kbd = record b.kbd { irq1 = false }; pic = Pic.raise_irq 1 b.pic }
    else b

unfoldable pub request_virtio : Bus → Bus
request_virtio b = if b.virtio.irq then record b { pic = Pic.raise_irq 11 b.pic } else b

unfoldable pub request_disk : Bus → Bus
request_disk b =
    if b.ide.busy
    then record b { ide = record b.ide { busy = false }; pic = Pic.raise_irq 14 b.pic }
    else b

unfoldable pub request_all : Bus → Bus
unfolding request_keyboard request_virtio request_disk
request_all b = request_disk (request_virtio (request_keyboard b))

-- The part of `deliver_hardware_interrupt` before the test of IF.
unfoldable pub poll : Bus → Bus
poll b =
    let timed = request_timer (tick_timers b) in
    let typed = type_key timed.key_script timed in
    if b.instructions_executed % 64 == 0 then request_all typed else b
