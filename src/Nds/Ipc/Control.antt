-- ===== src/Nds/Ipc/Control.antt =====
-- core/src/nds/mmu.rs: the FIFO control registers of the two cores.
use emulator_app.Base.{
  ℕ, Bool, ◌||◌, ◌!=◌, ◌==◌, leb, if◌then◌else◌, bit_and, bit_or, List, [], length,
}
use emulator_app.Nds.Ipc.State.{NdsMmu}

-- The status bits that a core reads of its send FIFO and of its receive FIFO.
abbrev status : List ℕ → List ℕ → ℕ → ℕ
status sent received cnt =
    let c1 = if length sent == 0 then bit_or cnt 0x0001 else cnt in
    let c2 = if leb 16 (length sent) then bit_or c1 0x0002 else c1 in
    let c3 = if length received == 0 then bit_or c2 0x0100 else c2 in
    if leb 16 (length received) then bit_or c3 0x0200 else c3

unfoldable pub read_ipc_fifo_cnt_arm9 : NdsMmu → ℕ
read_ipc_fifo_cnt_arm9 s =
    status s.ipc.fifo_9to7 s.ipc.fifo_7to9 (bit_and s.ipc.fifo_control_arm9 0xC404)

unfoldable pub read_ipc_fifo_cnt_arm7 : NdsMmu → ℕ
read_ipc_fifo_cnt_arm7 s =
    status s.ipc.fifo_7to9 s.ipc.fifo_9to7 (bit_and s.ipc.fifo_control_arm7 0xC404)

abbrev pub flushes : ℕ → Bool
flushes val = bit_and val 0x0008 != 0 || bit_and val 0x8000 == 0

abbrev pub acknowledges : ℕ → Bool
acknowledges val = bit_and val 0x4000 != 0 || bit_and val 0x8000 == 0

-- `!0x8404` and `!(1 << 14)` as 16-bit masks.
abbrev pub control_after : ℕ → ℕ → ℕ
control_after control val =
    let merged = bit_or (bit_and control 0x7BFB) (bit_and val 0x8404) in
    if acknowledges val then bit_and merged 0xBFFF else merged

unfoldable pub write_ipc_fifo_cnt_arm9 : NdsMmu → ℕ → NdsMmu
write_ipc_fifo_cnt_arm9 s val = record s {
  ipc = record s.ipc {
    fifo_control_arm9 = control_after s.ipc.fifo_control_arm9 val;
    fifo_9to7 = if flushes val then [] else s.ipc.fifo_9to7;
  };
}

unfoldable pub write_ipc_fifo_cnt_arm7 : NdsMmu → ℕ → NdsMmu
write_ipc_fifo_cnt_arm7 s val = record s {
  ipc = record s.ipc {
    fifo_control_arm7 = control_after s.ipc.fifo_control_arm7 val;
    fifo_7to9 = if flushes val then [] else s.ipc.fifo_7to9;
  };
}
