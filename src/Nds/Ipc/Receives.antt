-- ===== src/Nds/Ipc/Receives.antt =====
-- The receive handlers of core/src/nds/mmu.rs on the two cores against the one rule of a link.
use emulator_app.Base.{
  ℕ, ◌≡◌, refl, ap, sym, ◌∙◌, inl, inr, Bool, ◌&&◌, ◌==◌, Bool-cases, List, [], ◌∷◌, length, has,
}
use emulator_app.Nds.Ipc.State.{NdsMmu}
use emulator_app.Nds.Ipc.Sync.{trigger_interrupt_arm9, trigger_interrupt_arm7}
use emulator_app.Nds.Ipc.Fifo.{
  receive_arm9, receive_arm7, read_ipc_fifo_rx_arm9, read_ipc_fifo_rx_arm7,
}
use emulator_app.Nds.Ipc.Channel.{Side, Link, take_word, receive, receive_off, receive_on}
use emulator_app.Nds.Ipc.Flags.{
  link9, link7, or_false, or_true, side-error, side-empty, off_test, on_test,
}

module _ (s : NdsMmu) where
  taken9 :
      (val : ℕ) (rest : List ℕ)
      → s.ipc.fifo_7to9 ≡ val ∷ rest
      → (link9 (receive_arm9 s (val ∷ rest)).0, (receive_arm9 s (val ∷ rest)).1)
        ≡ take_word (link9 s) (val ∷ rest)
  unfolding receive_arm9 take_word trigger_interrupt_arm7
  taken9 val rest e =
      let asks = length rest == 0 && has 2 s.ipc.fifo_control_arm7 in
      let old : Side = record (link9 s).other { queue = rest } in
      let put : Bool → Link × ℕ =
        λ x. (record (link9 s) { other = record old { sent_empty = x } }, val) in
      elim (Bool-cases asks) [
        | inl irq ↦ rw irq (
            ap (λ x. (record (link9 s) { other = x }, val))
              (side-empty rest s.ipc.fifo_control_arm7 s.arm7_if)
            ∙ ap put (sym (or_true (has 17 s.arm7_if))))
        | inr quiet ↦ rw quiet (ap put (sym (or_false (has 17 s.arm7_if))))
      ]

  receives9 :
      (fifo : List ℕ)
      → s.ipc.fifo_7to9 ≡ fifo
      → (link9 (receive_arm9 s fifo).0, (receive_arm9 s fifo).1) ≡ take_word (link9 s) fifo
  unfolding take_word receive_arm9
  receives9 [] e =
      ap (λ x. (record (link9 s) { me = x }, 0))
        (side-error s.ipc.fifo_9to7 s.ipc.fifo_control_arm9 s.arm9_if)
  receives9 (val ∷ rest) e = taken9 val rest e

  -- A receive on the ARM9 is the receive of the link, with the same word.
  pub link9-read :
      (link9 (read_ipc_fifo_rx_arm9 s).0, (read_ipc_fifo_rx_arm9 s).1) ≡ receive (link9 s)
  unfolding read_ipc_fifo_rx_arm9
  link9-read = elim (Bool-cases (has 15 s.ipc.fifo_control_arm9)) [
    | inr off ↦ rw (off_test s.ipc.fifo_control_arm9 off) (sym (receive_off (link9 s) off))
    | inl on ↦
        rw (on_test s.ipc.fifo_control_arm9 on)
          (receives9 s.ipc.fifo_7to9 refl ∙ sym (receive_on (link9 s) on))
  ]

module _ (s : NdsMmu) where
  taken7 :
      (val : ℕ) (rest : List ℕ)
      → s.ipc.fifo_9to7 ≡ val ∷ rest
      → (link7 (receive_arm7 s (val ∷ rest)).0, (receive_arm7 s (val ∷ rest)).1)
        ≡ take_word (link7 s) (val ∷ rest)
  unfolding receive_arm7 take_word trigger_interrupt_arm9
  taken7 val rest e =
      let asks = length rest == 0 && has 2 s.ipc.fifo_control_arm9 in
      let old : Side = record (link7 s).other { queue = rest } in
      let put : Bool → Link × ℕ =
        λ x. (record (link7 s) { other = record old { sent_empty = x } }, val) in
      elim (Bool-cases asks) [
        | inl irq ↦ rw irq (
            ap (λ x. (record (link7 s) { other = x }, val))
              (side-empty rest s.ipc.fifo_control_arm9 s.arm9_if)
            ∙ ap put (sym (or_true (has 17 s.arm9_if))))
        | inr quiet ↦ rw quiet (ap put (sym (or_false (has 17 s.arm9_if))))
      ]

  receives7 :
      (fifo : List ℕ)
      → s.ipc.fifo_9to7 ≡ fifo
      → (link7 (receive_arm7 s fifo).0, (receive_arm7 s fifo).1) ≡ take_word (link7 s) fifo
  unfolding take_word receive_arm7
  receives7 [] e =
      ap (λ x. (record (link7 s) { me = x }, 0))
        (side-error s.ipc.fifo_7to9 s.ipc.fifo_control_arm7 s.arm7_if)
  receives7 (val ∷ rest) e = taken7 val rest e

  -- A receive on the ARM7 is the receive of the link, with the same word.
  pub link7-read :
      (link7 (read_ipc_fifo_rx_arm7 s).0, (read_ipc_fifo_rx_arm7 s).1) ≡ receive (link7 s)
  unfolding read_ipc_fifo_rx_arm7
  link7-read = elim (Bool-cases (has 15 s.ipc.fifo_control_arm7)) [
    | inr off ↦ rw (off_test s.ipc.fifo_control_arm7 off) (sym (receive_off (link7 s) off))
    | inl on ↦
        rw (on_test s.ipc.fifo_control_arm7 on)
          (receives7 s.ipc.fifo_9to7 refl ∙ sym (receive_on (link7 s) on))
  ]
