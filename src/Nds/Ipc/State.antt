-- ===== src/Nds/Ipc/State.antt =====
-- core/src/nds/mmu.rs: `IpcState`, the interrupt flags of the two cores, and the probes that the
-- handlers of the inter-processor registers keep.
use emulator_app.Base.{ℕ, Bool, List}

pub record IpcState : Type 0 where
  pub arm9_to_arm7_sync : ℕ
  pub arm7_to_arm9_sync : ℕ
  pub arm9_sync_irq_enable : Bool
  pub arm7_sync_irq_enable : Bool
  pub fifo_9to7 : List ℕ
  pub fifo_7to9 : List ℕ
  pub fifo_control_arm9 : ℕ
  pub fifo_control_arm7 : ℕ

-- The counters and logs of `NdsMmu` that nothing else reads.
pub record Probes : Type 0 where
  pub fifo_log_on : Bool
  pub fifo_log : List (ℕ × ℕ)
  pub tag7_sent : ℕ
  pub tag7_rx7 : ℕ
  pub tag7_dropped_full : ℕ
  pub last_tag7_data : ℕ
  pub tag11_9to7 : List ℕ
  pub tag11_9to7_wide : ℕ
  pub tag11_7to9 : ℕ
  pub tag11_head : List (ℕ × ℕ)
  pub tag11_argptr : ℕ
  pub tag11_expect_ptr : Bool
  pub tag11_args : List (ℕ × List ℕ)

-- The part of `NdsMmu` that the handlers change.
pub record NdsMmu : Type 0 where
  pub ipc : IpcState
  pub arm9_if : ℕ
  pub arm7_if : ℕ
  pub ipc_yield : Bool
  pub probes : Probes
