-- ===== src/Nds/Ipc/Tests.antt =====
-- Witnesses and tests of the inter-processor registers.
use emulator_app.Base.{ℕ, ◌≤◌, ◌≡◌, refl, arith, false, List, [], ◌∷◌, ◌++◌, length}
use emulator_app.Nds.Ipc.State.{Probes, NdsMmu}
use emulator_app.Nds.Ipc.Control.{write_ipc_fifo_cnt_arm9, write_ipc_fifo_cnt_arm7}
use emulator_app.Nds.Ipc.Fifo.{write_ipc_fifo_tx_arm9, read_ipc_fifo_rx_arm7}
use emulator_app.Nds.Ipc.Sync.{write_ipcsync_arm7}
use emulator_app.Nds.Ipc.Flags.{link9}
use emulator_app.Nds.Ipc.Runs.{
  Core, arm9, arm7, Access, sends, receives, sets_control, syncs, run, act, run_link, run-run_link,
}
use emulator_app.Nds.Ipc.Order.{received, sent, run-fifo_9to7}

abbrev quiet : Probes
quiet = record {
  fifo_log_on = false;
  fifo_log = [];
  tag7_sent = 0;
  tag7_rx7 = 0;
  tag7_dropped_full = 0;
  last_tag7_data = 0;
  tag11_9to7 = [];
  tag11_9to7_wide = 0;
  tag11_7to9 = 0;
  tag11_head = [];
  tag11_argptr = 0;
  tag11_expect_ptr = false;
  tag11_args = [];
}

abbrev reset : NdsMmu
reset = record {
  ipc = record {
    arm9_to_arm7_sync = 0;
    arm7_to_arm9_sync = 0;
    arm9_sync_irq_enable = false;
    arm7_sync_irq_enable = false;
    fifo_9to7 = [];
    fifo_7to9 = [];
    fifo_control_arm9 = 0;
    fifo_control_arm7 = 0;
  };
  arm9_if = 0;
  arm7_if = 0;
  ipc_yield = false;
  probes = quiet;
}

abbrev empty_memory : ℕ → ℕ
empty_memory a = 0

abbrev talk : List (Core × Access)
talk =
    (arm9, sets_control 0x8004)
    ∷ (arm7, sets_control 0x8400)
    ∷ (arm9, sends 11)
    ∷ (arm9, sends 22)
    ∷ (arm7, receives)
    ∷ (arm7, syncs 0x2100)
    ∷ (arm7, receives)
    ∷ []

talk_replies : (run empty_memory reset talk).1 ≡ 0 ∷ 0 ∷ 0 ∷ 0 ∷ 11 ∷ 0 ∷ 22 ∷ []
unfolding run act write_ipc_fifo_cnt_arm9 write_ipc_fifo_cnt_arm7 write_ipc_fifo_tx_arm9
    read_ipc_fifo_rx_arm7 write_ipcsync_arm7
talk_replies = refl

run-run_link_example :
    (link9 (run empty_memory reset talk).0, (run empty_memory reset talk).1)
    ≡ run_link (link9 reset) talk
run-run_link_example = run-run_link empty_memory reset talk

-- The two words of the talk go through, in their order.
in_order : received empty_memory reset talk (run empty_memory reset talk).1 ≡ 11 ∷ 22 ∷ []
unfolding received run act write_ipc_fifo_cnt_arm9 write_ipc_fifo_cnt_arm7 write_ipc_fifo_tx_arm9
    read_ipc_fifo_rx_arm7 write_ipcsync_arm7
in_order = refl

run-fifo_9to7_example :
    (received empty_memory reset talk (run empty_memory reset talk).1
        ++ (run empty_memory reset talk).0.ipc.fifo_9to7
      ≡ reset.ipc.fifo_9to7 ++ sent empty_memory reset talk)
    × (length (run empty_memory reset talk).0.ipc.fifo_9to7 ≤ 16)
run-fifo_9to7_example =
    run-fifo_9to7 empty_memory reset talk (omega arith)
      (refl, (tt, (tt, (tt, (tt, (tt, (tt, tt)))))))
