-- ===== src/Vmx/Region.antt =====
-- The region of a VMCS in memory, in src/vmx.rs: it holds the working copy, and reaches past its page.
use cuddles.Base.{ℕ, ◌+◌, ◌*◌, ◌^◌, ◌<◌, ◌≡◌, sym, ap, ◌∙◌, some, arith}
use cuddles.Memory.{read_u64}
use cuddles.Memory.Layout.{IsValid}
use cuddles.Memory.Words.{IsPlain}
use cuddles.Memory.Tables.{read_u64-write_table}
use cuddles.Cpu.{Cpu}
use cuddles.Vmx.{slots}
use cuddles.Vmx.Execute.{flush_vmcs, load_vmcs, flushed}

module _ (c : Cpu) (p i : ℕ) (v : IsValid c.mem) (region : IsPlain c.mem (p + 8) 4096)
    (current : c.vmx.current ≡ some p) (words : (i : ℕ) → c.vmx.vmcs i < 2 ^ 64)
    (known : i < slots) where
  slot_in_memory : (j : ℕ) → j < slots → read_u64 (flush_vmcs c).mem (p + 8 + j * 8) ≡ c.vmx.vmcs j
  unfolding flush_vmcs
  slot_in_memory j h =
      ap (λ o. read_u64 (flushed o c.vmx.vmcs c.mem) (p + 8 + j * 8)) current
      ∙ read_u64-write_table slots 0 (p + 8) c.vmx.vmcs c.mem j v (ground arith) (words j)
          (omega arith) h

  -- Where a control structure is current, at an address with 4096 bytes of plain RAM from its
  -- eighth byte on in a valid memory, and its words are 64 bits: each word is the same after a
  -- flush and a load of that address, the structure stays current, and its last word lies right
  -- behind the 4096 bytes of the region.
  pub load_vmcs-flush_vmcs :
      ((load_vmcs p (flush_vmcs c)).vmx.vmcs i ≡ c.vmx.vmcs i)
      × ((load_vmcs p (flush_vmcs c)).vmx.current ≡ c.vmx.current)
      × (read_u64 (flush_vmcs c).mem (p + 4096) ≡ c.vmx.vmcs 511)
  unfolding load_vmcs
  load_vmcs-flush_vmcs = (
    ground (arith, slot_in_memory i known),
    sym current,
    ap (read_u64 (flush_vmcs c).mem) (omega arith) ∙ slot_in_memory 511 (omega arith),
  )
