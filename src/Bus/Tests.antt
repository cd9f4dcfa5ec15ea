-- ===== src/Bus/Tests.antt =====
-- Runs of the ports and the poll of src/cpu.rs, and instances of the theorems.
use cuddles.Base.{
  ◌+◌, ◌*◌, ◌/◌, ◌%◌, u64, arith, ◌≡◌, refl, true, false, ◌&&◌, ◌||◌, none, [], ◌∷◌, ◌==◌, testb,
}
use cuddles.Memory.{with_size}
use cuddles.Pit.{tick}
use cuddles.Pit
use cuddles.Pic
use cuddles.Kbd
use cuddles.Dma
use cuddles.Ide
use cuddles.Pci.{virtio_io_base}
use cuddles.Vga
use cuddles.Virtio
use cuddles.Bus.{Bus, pit_hz, port_in, in_arm, virtio_port, type_key, poll, port_in32, in_arm32}
use cuddles.Bus.Poll.{poll_lem}

-- A machine with nothing on its PCI bus, and a disk transfer just completed.
abbrev machine : Bus
machine = record {
  mem = with_size 0x20_0000;
  pit = Pit.new;
  pic = Pic.new;
  vga = Vga.new;
  kbd = record Kbd.new { irq1 = true };
  dma = Dma.new;
  cmos = record { index = 0; ram = λ i. 0; epoch_secs = 0; elapsed_secs = 7; nmi_disabled = false };
  ide = record (Ide.load_disk (1 ∷ 2 ∷ 3 ∷ []) Ide.new) { busy = true };
  pci = record { address = 0; slots = λ i. none };
  virtio = Virtio.new;
  vga_retrace = false;
  pit_subsecond = 2 * pit_hz + 5;
  key_script = 0x1E ∷ 0x9E ∷ [];
  key_next = 0;
  instructions_executed = 64;
}

retrace_toggles : (port_in 0x3DA machine).0 ≡ 0x09
unfolding port_in virtio_port virtio_io_base in_arm
retrace_toggles = refl

address_latch : (port_in32 0xCF8 machine).0 ≡ 0
unfolding port_in32 virtio_port virtio_io_base in_arm32
address_latch = refl

-- A poll between two intervals does nothing.
between_polls :
    poll (record machine { instructions_executed = 65 })
    ≡ record machine { instructions_executed = 65 }
unfolding poll
between_polls = refl

poll_lem_example :
    let x = poll machine in
    (testb x.pic.master_irr 1 ≡ (
      testb machine.pic.master_irr 1
      || ((tick 4 machine.pit).irq0 && (0 == 1)
          || (type_key machine.key_script machine).kbd.irq1 && (1 == 1))))
    × (testb x.pic.slave_irr 1 ≡ (
        testb machine.pic.slave_irr 1
        || (machine.virtio.irq && (3 == 1) || machine.ide.busy && (6 == 1))))
    × (x.pit.irq0 ≡ false)
    × (x.kbd.irq1 ≡ false)
    × (x.ide.busy ≡ false)
    × (x.virtio.irq ≡ machine.virtio.irq)
    × (x.pit_subsecond ≡ (machine.pit_subsecond + 4) % pit_hz)
    × (x.cmos.elapsed_secs ≡ u64 (machine.cmos.elapsed_secs + (machine.pit_subsecond + 4) / pit_hz))
poll_lem_example = poll_lem 1 machine refl (omega arith)
