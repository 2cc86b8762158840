-- ===== src/Nds/Ipc/Fifo.antt =====
-- core/src/nds/mmu.rs: the two FIFOs between the cores.
use emulator_app.Base.{
  ℕ, ◌&&◌, ◌!=◌, ◌==◌, leb, if◌then◌else◌, bit_and, bit_or, List, [], ◌∷◌, ◌++◌, length,
}
use emulator_app.Nds.Ipc.State.{NdsMmu}
use emulator_app.Nds.Ipc.Probes.{
  log_word, note_send_arm9, note_send_arm7, note_dropped, note_receive_arm7,
}
use emulator_app.Nds.Ipc.Sync.{trigger_interrupt_arm9, trigger_interrupt_arm7}

unfoldable pub write_ipc_fifo_tx_arm9 : (ℕ → ℕ) → NdsMmu → ℕ → NdsMmu
unfolding trigger_interrupt_arm7
write_ipc_fifo_tx_arm9 peek s val =
    let noted = record s { probes = note_send_arm9 peek s.probes val } in
    let pushed = record noted {
      ipc = record s.ipc { fifo_9to7 = s.ipc.fifo_9to7 ++ (val ∷ []) };
    } in
    if bit_and s.ipc.fifo_control_arm9 0x8000 == 0
    then noted
    else if leb 16 (length s.ipc.fifo_9to7)
    then record noted {
      ipc = record s.ipc { fifo_control_arm9 = bit_or s.ipc.fifo_control_arm9 0x4000 };
      probes = note_dropped noted.probes val;
    }
    else if length s.ipc.fifo_9to7 == 0 && bit_and s.ipc.fifo_control_arm7 0x0400 != 0
    then trigger_interrupt_arm7 pushed 0x40000
    else pushed

unfoldable pub write_ipc_fifo_tx_arm7 : (ℕ → ℕ) → NdsMmu → ℕ → NdsMmu
unfolding trigger_interrupt_arm9
write_ipc_fifo_tx_arm7 peek s val =
    let noted = record s { probes = note_send_arm7 peek s.probes val } in
    let pushed = record noted {
      ipc = record s.ipc { fifo_7to9 = s.ipc.fifo_7to9 ++ (val ∷ []) };
    } in
    if bit_and s.ipc.fifo_control_arm7 0x8000 == 0
    then noted
    else if leb 16 (length s.ipc.fifo_7to9)
    then record noted {
      ipc = record s.ipc { fifo_control_arm7 = bit_or s.ipc.fifo_control_arm7 0x4000 };
    }
    else if length s.ipc.fifo_7to9 == 0 && bit_and s.ipc.fifo_control_arm9 0x0400 != 0
    then trigger_interrupt_arm9 pushed 0x40000
    else pushed

-- The receive handlers, on the receive FIFO: its first word is taken out.
unfoldable pub receive_arm9 : NdsMmu → List ℕ → NdsMmu × ℕ
unfolding trigger_interrupt_arm7
receive_arm9 s [] = (
  record s { ipc = record s.ipc { fifo_control_arm9 = bit_or s.ipc.fifo_control_arm9 0x4000 } },
  0,
)
receive_arm9 s (val ∷ rest) =
    let taken = record s {
      ipc = record s.ipc { fifo_7to9 = rest };
      probes = log_word s.probes 3 val;
    } in
    (
      if length rest == 0 && bit_and s.ipc.fifo_control_arm7 0x0004 != 0
          then trigger_interrupt_arm7 taken 0x20000
          else taken,
      val,
    )

unfoldable pub receive_arm7 : NdsMmu → List ℕ → NdsMmu × ℕ
unfolding trigger_interrupt_arm9
receive_arm7 s [] = (
  record s { ipc = record s.ipc { fifo_control_arm7 = bit_or s.ipc.fifo_control_arm7 0x4000 } },
  0,
)
receive_arm7 s (val ∷ rest) =
    let taken = record s {
      ipc = record s.ipc { fifo_9to7 = rest };
      probes = note_receive_arm7 s.probes val;
    } in
    (
      if length rest == 0 && bit_and s.ipc.fifo_control_arm9 0x0004 != 0
          then trigger_interrupt_arm9 taken 0x20000
          else taken,
      val,
    )

unfoldable pub read_ipc_fifo_rx_arm9 : NdsMmu → NdsMmu × ℕ
unfolding receive_arm9
read_ipc_fifo_rx_arm9 s =
    if bit_and s.ipc.fifo_control_arm9 0x8000 == 0 then (s, 0) else receive_arm9 s s.ipc.fifo_7to9

unfoldable pub read_ipc_fifo_rx_arm7 : NdsMmu → NdsMmu × ℕ
unfolding receive_arm7
read_ipc_fifo_rx_arm7 s =
    if bit_and s.ipc.fifo_control_arm7 0x8000 == 0 then (s, 0) else receive_arm7 s s.ipc.fifo_9to7
