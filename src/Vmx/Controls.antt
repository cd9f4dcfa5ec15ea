-- ===== src/Vmx/Controls.antt =====
-- The bits of the VMX controls and what of them is allowed: the constants of src/vmx.rs.
use cuddles.Base.{ℕ, ◌^◌, bit_or}

abbrev pub feat_locked : ℕ
feat_locked = 2 ^ 0

abbrev pub feat_vmx_outside_smx : ℕ
feat_vmx_outside_smx = 2 ^ 2

abbrev pub vmcs_revision : ℕ
vmcs_revision = 0x0001_2345

abbrev pub pin_ext_int_exiting : ℕ
pin_ext_int_exiting = 2 ^ 0

abbrev pub pin_nmi_exiting : ℕ
pin_nmi_exiting = 2 ^ 3

abbrev pub pin_default1 : ℕ
pin_default1 = 0x16

abbrev pub pin_allowed1 : ℕ
pin_allowed1 = bit_or (bit_or pin_default1 pin_ext_int_exiting) pin_nmi_exiting

abbrev pub cpu_int_window_exiting : ℕ
cpu_int_window_exiting = 2 ^ 2

abbrev pub cpu_tsc_offsetting : ℕ
cpu_tsc_offsetting = 2 ^ 3

abbrev pub cpu_hlt_exiting : ℕ
cpu_hlt_exiting = 2 ^ 7

abbrev pub cpu_invlpg_exiting : ℕ
cpu_invlpg_exiting = 2 ^ 9

abbrev pub cpu_mwait_exiting : ℕ
cpu_mwait_exiting = 2 ^ 10

abbrev pub cpu_rdpmc_exiting : ℕ
cpu_rdpmc_exiting = 2 ^ 11

abbrev pub cpu_rdtsc_exiting : ℕ
cpu_rdtsc_exiting = 2 ^ 12

abbrev pub cpu_cr3_load_exiting : ℕ
cpu_cr3_load_exiting = 2 ^ 15

abbrev pub cpu_cr3_store_exiting : ℕ
cpu_cr3_store_exiting = 2 ^ 16

abbrev pub cpu_cr8_load_exiting : ℕ
cpu_cr8_load_exiting = 2 ^ 19

abbrev pub cpu_cr8_store_exiting : ℕ
cpu_cr8_store_exiting = 2 ^ 20

abbrev pub cpu_mov_dr_exiting : ℕ
cpu_mov_dr_exiting = 2 ^ 23

abbrev pub cpu_uncond_io_exiting : ℕ
cpu_uncond_io_exiting = 2 ^ 24

abbrev pub cpu_use_io_bitmaps : ℕ
cpu_use_io_bitmaps = 2 ^ 25

abbrev pub cpu_use_msr_bitmaps : ℕ
cpu_use_msr_bitmaps = 2 ^ 28

abbrev pub cpu_monitor_exiting : ℕ
cpu_monitor_exiting = 2 ^ 29

abbrev pub cpu_pause_exiting : ℕ
cpu_pause_exiting = 2 ^ 30

abbrev pub cpu_secondary_controls : ℕ
cpu_secondary_controls = 2 ^ 31

abbrev pub cpu_default1 : ℕ
cpu_default1 = 0x0401_E172

abbrev pub cpu_allowed1 : ℕ
cpu_allowed1 =
    bit_or
      (bit_or
        (bit_or
          (bit_or
            (bit_or
              (bit_or
                (bit_or
                  (bit_or
                    (bit_or
                      (bit_or
                        (bit_or
                          (bit_or
                            (bit_or
                              (bit_or
                                (bit_or
                                  (bit_or
                                    (bit_or (bit_or cpu_default1 cpu_int_window_exiting)
                                      cpu_tsc_offsetting)
                                    cpu_hlt_exiting)
                                  cpu_invlpg_exiting)
                                cpu_mwait_exiting)
                              cpu_rdpmc_exiting)
                            cpu_rdtsc_exiting)
                          cpu_cr3_load_exiting)
                        cpu_cr3_store_exiting)
                      cpu_cr8_load_exiting)
                    cpu_cr8_store_exiting)
                  cpu_mov_dr_exiting)
                cpu_uncond_io_exiting)
              cpu_use_io_bitmaps)
            cpu_use_msr_bitmaps)
          cpu_monitor_exiting)
        cpu_pause_exiting)
      cpu_secondary_controls

abbrev pub cpu2_rdtscp : ℕ
cpu2_rdtscp = 2 ^ 3

abbrev pub cpu2_vpid : ℕ
cpu2_vpid = 2 ^ 5

abbrev pub cpu2_wbinvd_exiting : ℕ
cpu2_wbinvd_exiting = 2 ^ 6

abbrev pub cpu2_allowed1 : ℕ
cpu2_allowed1 = bit_or (bit_or cpu2_rdtscp cpu2_vpid) cpu2_wbinvd_exiting

abbrev pub exit_host_addr_space_size : ℕ
exit_host_addr_space_size = 2 ^ 9

abbrev pub exit_ack_int_on_exit : ℕ
exit_ack_int_on_exit = 2 ^ 15

abbrev pub exit_save_pat : ℕ
exit_save_pat = 2 ^ 18

abbrev pub exit_load_pat : ℕ
exit_load_pat = 2 ^ 19

abbrev pub exit_save_efer : ℕ
exit_save_efer = 2 ^ 20

abbrev pub exit_load_efer : ℕ
exit_load_efer = 2 ^ 21

abbrev pub exit_default1 : ℕ
exit_default1 = 0x0003_6DFF

abbrev pub exit_allowed1 : ℕ
exit_allowed1 =
    bit_or
      (bit_or
        (bit_or
          (bit_or (bit_or (bit_or exit_default1 exit_host_addr_space_size) exit_ack_int_on_exit)
            exit_save_pat)
          exit_load_pat)
        exit_save_efer)
      exit_load_efer

abbrev pub entry_ia32e_guest : ℕ
entry_ia32e_guest = 2 ^ 9

abbrev pub entry_load_pat : ℕ
entry_load_pat = 2 ^ 14

abbrev pub entry_load_efer : ℕ
entry_load_efer = 2 ^ 15

abbrev pub entry_default1 : ℕ
entry_default1 = 0x0000_11FF

abbrev pub entry_allowed1 : ℕ
entry_allowed1 =
    bit_or (bit_or (bit_or entry_default1 entry_ia32e_guest) entry_load_pat) entry_load_efer

abbrev pub cr0_fixed0 : ℕ
cr0_fixed0 = 0x8000_0021

abbrev pub cr0_fixed1 : ℕ
cr0_fixed1 = 0xFFFF_FFFF

abbrev pub cr4_fixed0 : ℕ
cr4_fixed0 = 2 ^ 13

abbrev pub cr4_fixed1 : ℕ
cr4_fixed1 = 0xFFFF_FFFF
