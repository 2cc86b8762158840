-- ===== src/Nds/Ipc/Sync.antt =====
-- core/src/nds/mmu.rs: the IPCSYNC registers of the two cores.
use emulator_app.Base.{ℕ, true, ◌&&◌, ◌!=◌, if◌then◌else◌, bit_and, bit_or, ◌<<◌, ◌>>◌}
use emulator_app.Nds.Ipc.State.{NdsMmu}

unfoldable pub trigger_interrupt_arm9 : NdsMmu → ℕ → NdsMmu
trigger_interrupt_arm9 s mask = record s { arm9_if = bit_or s.arm9_if mask }

unfoldable pub trigger_interrupt_arm7 : NdsMmu → ℕ → NdsMmu
trigger_interrupt_arm7 s mask = record s { arm7_if = bit_or s.arm7_if mask }

unfoldable pub read_ipcsync_arm9 : NdsMmu → ℕ
read_ipcsync_arm9 s =
    bit_or (bit_or (bit_and s.ipc.arm7_to_arm9_sync 0xF) (bit_and s.ipc.arm9_to_arm7_sync 0xF << 8))
      (if s.ipc.arm9_sync_irq_enable then 0x4000 else 0)

unfoldable pub read_ipcsync_arm7 : NdsMmu → ℕ
read_ipcsync_arm7 s =
    bit_or (bit_or (bit_and s.ipc.arm9_to_arm7_sync 0xF) (bit_and s.ipc.arm7_to_arm9_sync 0xF << 8))
      (if s.ipc.arm7_sync_irq_enable then 0x4000 else 0)

unfoldable pub write_ipcsync_arm9 : NdsMmu → ℕ → NdsMmu
unfolding trigger_interrupt_arm7
write_ipcsync_arm9 s val =
    let written = record s {
      ipc_yield = true;
      ipc = record s.ipc {
        arm9_to_arm7_sync = bit_and (val >> 8) 0xF;
        arm9_sync_irq_enable = bit_and val 0x4000 != 0;
      };
    } in
    if bit_and val 0x2000 != 0 && s.ipc.arm7_sync_irq_enable
    then trigger_interrupt_arm7 written 0x10000
    else written

unfoldable pub write_ipcsync_arm7 : NdsMmu → ℕ → NdsMmu
unfolding trigger_interrupt_arm9
write_ipcsync_arm7 s val =
    let written = record s {
      ipc_yield = true;
      ipc = record s.ipc {
        arm7_to_arm9_sync = bit_and (val >> 8) 0xF;
        arm7_sync_irq_enable = bit_and val 0x4000 != 0;
      };
    } in
    if bit_and val 0x2000 != 0 && s.ipc.arm9_sync_irq_enable
    then trigger_interrupt_arm9 written 0x10000
    else written
