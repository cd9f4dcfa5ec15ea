-- ===== src/Vmx/Tests.antt =====
-- Runs of the VMX model of src/vmx.rs, and instances of the theorems.
use cuddles.Base.{◌%◌, ◌^◌, ◌≡◌, refl, inl, true, false, none, some, arith}
use cuddles.Memory.{with_size, read_u64}
use cuddles.Memory.Layout.{with_size-IsValid}
use cuddles.Cpu.{Cpu}
use cuddles.Cpu.Start.{with_ram}
use cuddles.Vmx.{new, slot, width_of, is_read_only, read, write, launched, cr_qual, bad_region_ptr}
use cuddles.Vmx.Field
use cuddles.Vmx.Slots.{read-write}
use cuddles.Vmx.Exits.{exception_info}
use cuddles.Vmx.Execute.{flush_vmcs, load_vmcs}
use cuddles.Vmx.Region.{load_vmcs-flush_vmcs}

encodings :
    (slot Field.guest_rip ≡ some 463)
    × (slot 0x2006 ≡ some 131)
    × (slot 0x8000 ≡ none)
    × (slot 0x0038 ≡ none)
    × (width_of Field.cpu_ctls ≡ 32)
    × (is_read_only Field.exit_reason ≡ true)
    × (cr_qual 3 1 5 0 ≡ 0x513)
    × (bad_region_ptr 0x1008 ≡ true)
    × (exception_info 0x0E (some 2) ≡ 0x8000_0B0E)
unfolding slot width_of is_read_only cr_qual bad_region_ptr exception_info
encodings = (refl, refl, refl, refl, refl, refl, refl, refl, refl)

read-write_example :
    (read Field.guest_rip (write Field.guest_rip 0x1234 new)
      ≡ 0x1234 % 2 ^ width_of Field.guest_rip)
    × (read Field.guest_rsp (write Field.guest_rip 0x1234 new) ≡ read Field.guest_rsp new)
    × (launched (write Field.guest_rip 0x1234 new) ≡ launched new)
unfolding slot
read-write_example =
    read-write new Field.guest_rip 0x1234 463 refl Field.guest_rsp 462 refl (omega arith)
      (omega arith) (λ h. absurd (omega (arith, h))) (omega arith) (omega arith) refl

abbrev machine : Cpu
machine = with_ram false 0x20_0000

-- A guest whose entries load EFER.
abbrev guest : Cpu
guest = record machine { vmx = record new { vmcs = λ i. 2 ^ 15 } }

-- A VMCS at 0x1000 is current.
abbrev hosting : Cpu
hosting = record machine {
  vmx = record new { on = true; current = some 0x1000; vmcs = λ i. i % 2 ^ 16 };
}

load_vmcs-flush_vmcs_example :
    ((load_vmcs 0x1000 (flush_vmcs hosting)).vmx.vmcs 463 ≡ 463)
    × ((load_vmcs 0x1000 (flush_vmcs hosting)).vmx.current ≡ some 0x1000)
    × (read_u64 (flush_vmcs hosting).mem 0x2000 ≡ 511)
unfolding with_ram with_size
load_vmcs-flush_vmcs_example =
    load_vmcs-flush_vmcs hosting 0x1000 463 (with_size-IsValid 0x20_0000 (omega arith)).0
      (omega arith, inl (omega arith)) refl (λ i. omega arith) (omega arith)
