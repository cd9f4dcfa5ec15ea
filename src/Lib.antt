-- ===== src/Lib.antt =====
-- Verification of the processor, the memory system, the devices and the kernel loader of cuddles,
-- an x86 PC emulator.
--
-- The program: the CPU (src/cpu.rs, with the instructions of src/instructions.rs) runs guest code;
-- every access of the guest to an address goes through the translation buffer and the page-table
-- walks (src/paging.rs) to physical memory (src/memory.rs), and every port access goes to one of
-- the devices. Devices raise lines of the interrupt controllers (src/pic.rs), which give the CPU
-- the vector to deliver. A loader (src/boot.rs) puts a kernel into memory and the CPU into the mode
-- that the kernel expects, and an extension (src/vmx.rs) lets the guest run guests of its own.
--
-- Files, each with the theorems about it in the modules below it:
-- - Base: helpers: Boolean tests and lists on native numbers, machine words, the bits of a number.
-- - Memory: src/memory.rs. `Memory` has the RAM and the text window as functions of the index;
--   `slot`, `read_u8` to `write_u64`, `with_size`, `e820_map` and `load` are the functions of these
--   names. Layout has the valid memories and the map, Bytes and Words the accesses, Frame
--   what they leave alone.
-- - Paging, Paging/Long: src/paging.rs. `translate_legacy`, `translate_pae` and `translate_long`,
--   the rest of each below a table as a definition of its own; `translate_mode`, `canonical`. Walk
--   is a description of page-table walks by a list of levels, Modes relates the code to it.
-- - Pic: src/pic.rs. `next_irq`, whose two loops are `master_walk` and `slave_walk` with 8 rounds,
--   as in the source; `acknowledge`, and the command and data writes by their cases.
-- - Pit: src/pit.rs. The channels, port 0x61, and `tick`, one definition for each channel.
-- - Kbd, Kbd/Scancodes: src/kbd.rs. The controller, the keyboard behind it, and the table of keys.
-- - Cmos: src/cmos.rs. The clock registers and the configuration RAM. Cmos/Reg has the indices,
--   Calendar the dates.
-- - Dma: src/dma.rs. The channels, and `transfer` against the model of memory.
-- - Ide: src/ide.rs. The disk and the data buffer as lists of bytes.
-- - Pci: src/pci.rs. Configuration space of the bridge and the block device.
-- - Vga: src/vga.rs. The modes, the text cells, the framebuffer and the CRTC registers.
-- - Protected: src/protected.rs. The fields of a segment descriptor.
-- - Alu: src/instructions.rs. `alu8` to `alu64`, `alu_w`, their flags and the conditions, each as a
--   function of the flags word. Status names the six status flags, Spec is integer arithmetic,
--   Results, Widths and Byte relate the code to it, Compare reads the conditions after CMP. Masks
--   has the bits that software may write, and Alu/Shift the shifts, rotates and string steps.
-- - Virtio: src/virtio.rs. `notify_loop` is the loop of `notify`, `round` its body, `complete` the
--   entry of the used ring; `walk_chain` and `serve` are the two halves of `request`. Ring has the
--   loop, Chain the walk against the driver's table, Copy the transfers, Keep what they leave alone.
-- - Cpu: src/cpu.rs. The register file, the modes, CR0 and the model-specific registers.
--   Cpu/Translate has segments, the translation buffer (`hit`, `miss`), the accessed and dirty bits
--   and the stack; Cpu/Segments the loads through the descriptor tables and the accesses on two
--   pages, Cpu/Fetch the instruction stream with its cache, Cpu/ModRm the operands of src/modrm.rs
--   and their addresses. Cpu/Start has the machine at power-on.
-- - Instructions: src/instructions.rs. What shifts, bit tests, branches, far pointers and string
--   instructions do to the processor, as functions of their operands; a bit offset and a
--   displacement are words of 64 bits.
--   Instructions/Control has the arms of calls, returns, LOOP, PUSHF and POPF, and of the
--   conversions of the accumulator.
-- - Fpu: src/fpu.rs. A double is its 64 bits. Stack has the register stack, Doubles the conversion
--   to 80 bits and back, Image what FXSAVE leaves in memory, Save the way back.
-- - Interrupts: src/instructions.rs and src/cpu.rs. `real_int`, `legacy_int` and `long_int` deliver
--   through the table of each mode, `iret` returns. Dispatch has the exceptions and what a fault of
--   their delivery leads to. Hardware has the interrupts of the devices and the start of `step`,
--   Priority which of them is taken. Flags, Frame and Laws are about real mode, Escalation about
--   the double fault.
-- - Vmx: src/vmx.rs. The working copy of a control structure and its fields; Field, Error, Reason
--   and Controls are the constants, Guest the state saved and loaded, Exits the exits of a guest,
--   Execute the instructions of the extension, Intercept the instructions that a guest leaves on,
--   Capability the capability registers. Slots, Rights, Saved, Switch and Region have the theorems.
-- - Boot: src/boot.rs. The images and the boot parameters; Boot/LongMode the page tables and the
--   entry in long mode, Boot/Enter the loaders. Tables is about the tables in memory, Identity
--   about the walk of them, Handover about the entry
--   in long mode, Params about what the boot parameters leave alone, Flat about the entry in
--   protected mode, Image about a kernel in memory, Outcomes about the results of the loaders.
-- - Bus: src/cpu.rs. The ports of the devices above (`in_arm`, `out_arm` are the matches on the
--   port) and the poll of the devices, by its steps. Poll has the
--   whole of a poll.
-- The Tests modules have runs at concrete inputs and instances of the theorems.
--
-- Conventions: operations that change a structure return the new one, with the result first where
-- there is one. Machine words are natural numbers with the wrap-around of the source written out; a
-- vector or an array is a list where its length matters and a function of the index elsewhere.
-- Loops with a fixed number of rounds recurse on the rounds left. The other loops run on fuel:
-- `notify_loop` of Virtio on 2 ^ 16, which its 16-bit index cannot exceed, and `catch_up` of Bus on
-- the periods counted plus 4, which it reduces in each round. `dispatch_exception_raw` counts the
-- calls nested in it, of which two are made at most. The loaders give `panics` where the source
-- panics, and drop the memory with an error, after which the program ends. Arithmetic on words
-- wraps, as in a release build.
--
-- Interaction: Paging reads its tables through `read_u32` and `read_u64` of Memory, and Dma and
-- Virtio copy through `read_u8` and `write_u8`. Cpu/Translate calls `translate_mode` of Paging and
-- marks the entries of the walk through Memory. Bus calls the operations of the devices by port,
-- and carries their requests to `raise_irq` of Pic. Interrupts/Dispatch asks Vmx/Exits whether a
-- guest leaves on an exception, and Vmx/Execute delivers what an entry injects through
-- Interrupts/Dispatch. Boot/Identity reads the tables of Boot/LongMode by `translate_mode` of
-- Paging. `Capability` of Vmx can stand for the parameter of `read_msr`.
--
-- Not modelled: decoding, and the match that executes an instruction, with the arithmetic of the
-- floating-point and SSE instructions, which is the host's; the run loop; the debugger's
-- watchpoints and logs; the BIOS services and the front end; of src/memory.rs the diagnostic store
-- log and the 128-bit and floating-point accessors; the host's clock, which is a parameter of `new`
-- in Cmos. In Memory an address plus the width of the access is taken not to pass 2 ^ 64, and in
-- Cmos days before 1970 do not occur.
pub mod Base
pub mod Memory
pub mod Paging
pub mod Pic
pub mod Pit
pub mod Kbd
pub mod Cmos
pub mod Dma
pub mod Ide
pub mod Pci
pub mod Vga
pub mod Protected
pub mod Alu
pub mod Virtio
pub mod Cpu
pub mod Fpu
pub mod Instructions
pub mod Vmx
pub mod Interrupts
pub mod Boot
pub mod Bus
