-- ===== src/Nds/Ipc/Sends.antt =====
-- The send handlers of core/src/nds/mmu.rs on the two cores against the one rule of a link.
use emulator_app.Base.{
  ℕ, ◌≡◌, refl, ap, sym, ◌∙◌, inl, inr, Bool, true, false, ◌&&◌, ◌==◌, leb, Bool-cases, [], ◌∷◌,
  ◌++◌, length, bit_or, has,
}
use emulator_app.Nds.Ipc.State.{NdsMmu}
use emulator_app.Nds.Ipc.Sync.{trigger_interrupt_arm9, trigger_interrupt_arm7}
use emulator_app.Nds.Ipc.Fifo.{write_ipc_fifo_tx_arm9, write_ipc_fifo_tx_arm7}
use emulator_app.Nds.Ipc.Channel.{Side, Link, send, push, send_off, send_full, send_room}
use emulator_app.Nds.Ipc.Flags.{
  side, link9, link7, or_false, or_true, side-error, side-ready, off_test, on_test,
}

module _ (peek : ℕ → ℕ) (s : NdsMmu) (v : ℕ) where
  tx9_off :
      has 15 s.ipc.fifo_control_arm9 ≡ false → link9 (write_ipc_fifo_tx_arm9 peek s v) ≡ link9 s
  unfolding write_ipc_fifo_tx_arm9
  tx9_off off = rw (off_test s.ipc.fifo_control_arm9 off) refl

  tx9_full :
      has 15 s.ipc.fifo_control_arm9 ≡ true
      → leb 16 (length s.ipc.fifo_9to7) ≡ true
      → link9 (write_ipc_fifo_tx_arm9 peek s v) ≡ record (link9 s) {
        me = side s.ipc.fifo_9to7 (bit_or s.ipc.fifo_control_arm9 0x4000) s.arm9_if;
      }
  unfolding write_ipc_fifo_tx_arm9
  tx9_full on full = rw (on_test s.ipc.fifo_control_arm9 on, full) refl

  tx9_room :
      has 15 s.ipc.fifo_control_arm9 ≡ true
      → leb 16 (length s.ipc.fifo_9to7) ≡ false
      → link9 (write_ipc_fifo_tx_arm9 peek s v) ≡ push (link9 s) v
  unfolding write_ipc_fifo_tx_arm9 trigger_interrupt_arm7
  tx9_room on room =
      let asks = length s.ipc.fifo_9to7 == 0 && has 10 s.ipc.fifo_control_arm7 in
      let me = side (s.ipc.fifo_9to7 ++ (v ∷ [])) s.ipc.fifo_control_arm9 s.arm9_if in
      let old : Side = (link9 s).other in
      let put : Bool → Link = λ x. record { me = me; other = record old { received_ready = x } } in
      elim (Bool-cases asks) [
        | inl irq ↦
            rw (on_test s.ipc.fifo_control_arm9 on, room, irq)
              (ap (λ x. record { me = me; other = x })
                  (side-ready s.ipc.fifo_7to9 s.ipc.fifo_control_arm7 s.arm7_if)
                ∙ ap put (sym (or_true (has 18 s.arm7_if))))
        | inr quiet ↦
            rw (on_test s.ipc.fifo_control_arm9 on, room, quiet)
              (ap put (sym (or_false (has 18 s.arm7_if))))
      ]

  -- A send on the ARM9 is the send of the link.
  pub link9-write : link9 (write_ipc_fifo_tx_arm9 peek s v) ≡ send (link9 s) v
  link9-write = elim (Bool-cases (has 15 s.ipc.fifo_control_arm9)) [
    | inr off ↦ tx9_off off ∙ sym (send_off (link9 s) v off)
    | inl on ↦ elim (Bool-cases (leb 16 (length s.ipc.fifo_9to7))) [
      | inl full ↦
          tx9_full on full
          ∙ ap (λ x. record (link9 s) { me = x })
              (side-error s.ipc.fifo_9to7 s.ipc.fifo_control_arm9 s.arm9_if)
          ∙ sym (send_full (link9 s) v on full)
      | inr room ↦ tx9_room on room ∙ sym (send_room (link9 s) v on room)
    ]
  ]

module _ (peek : ℕ → ℕ) (s : NdsMmu) (v : ℕ) where
  tx7_off :
      has 15 s.ipc.fifo_control_arm7 ≡ false → link7 (write_ipc_fifo_tx_arm7 peek s v) ≡ link7 s
  unfolding write_ipc_fifo_tx_arm7
  tx7_off off = rw (off_test s.ipc.fifo_control_arm7 off) refl

  tx7_full :
      has 15 s.ipc.fifo_control_arm7 ≡ true
      → leb 16 (length s.ipc.fifo_7to9) ≡ true
      → link7 (write_ipc_fifo_tx_arm7 peek s v) ≡ record (link7 s) {
        me = side s.ipc.fifo_7to9 (bit_or s.ipc.fifo_control_arm7 0x4000) s.arm7_if;
      }
  unfolding write_ipc_fifo_tx_arm7
  tx7_full on full = rw (on_test s.ipc.fifo_control_arm7 on, full) refl

  tx7_room :
      has 15 s.ipc.fifo_control_arm7 ≡ true
      → leb 16 (length s.ipc.fifo_7to9) ≡ false
      → link7 (write_ipc_fifo_tx_arm7 peek s v) ≡ push (link7 s) v
  unfolding write_ipc_fifo_tx_arm7 trigger_interrupt_arm9
  tx7_room on room =
      let asks = length s.ipc.fifo_7to9 == 0 && has 10 s.ipc.fifo_control_arm9 in
      let me = side (s.ipc.fifo_7to9 ++ (v ∷ [])) s.ipc.fifo_control_arm7 s.arm7_if in
      let old : Side = (link7 s).other in
      let put : Bool → Link = λ x. record { me = me; other = record old { received_ready = x } } in
      elim (Bool-cases asks) [
        | inl irq ↦
            rw (on_test s.ipc.fifo_control_arm7 on, room, irq)
              (ap (λ x. record { me = me; other = x })
                  (side-ready s.ipc.fifo_9to7 s.ipc.fifo_control_arm9 s.arm9_if)
                ∙ ap put (sym (or_true (has 18 s.arm9_if))))
        | inr quiet ↦
            rw (on_test s.ipc.fifo_control_arm7 on, room, quiet)
              (ap put (sym (or_false (has 18 s.arm9_if))))
      ]

  -- A send on the ARM7 is the send of the link.
  pub link7-write : link7 (write_ipc_fifo_tx_arm7 peek s v) ≡ send (link7 s) v
  link7-write = elim (Bool-cases (has 15 s.ipc.fifo_control_arm7)) [
    | inr off ↦ tx7_off off ∙ sym (send_off (link7 s) v off)
    | inl on ↦ elim (Bool-cases (leb 16 (length s.ipc.fifo_7to9))) [
      | inl full ↦
          tx7_full on full
          ∙ ap (λ x. record (link7 s) { me = x })
              (side-error s.ipc.fifo_7to9 s.ipc.fifo_control_arm7 s.arm7_if)
          ∙ sym (send_full (link7 s) v on full)
      | inr room ↦ tx7_room on room ∙ sym (send_room (link7 s) v on room)
    ]
  ]
