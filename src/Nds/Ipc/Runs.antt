-- ===== src/Nds/Ipc/Runs.antt =====
-- Runs of the inter-processor registers of core/src/nds/mmu.rs: accesses of the two cores in any
-- order, and what their reads answer.
use emulator_app.Base.{
  ℕ, ◌≡◌, refl, ap, ◌∙◌, inl, inr, ◌&&◌, ◌!=◌, Bool-cases, List, [], ◌∷◌, bit_and,
}
use emulator_app.Nds.Ipc.State.{NdsMmu}
use emulator_app.Nds.Ipc.Sync.{
  write_ipcsync_arm9, write_ipcsync_arm7, trigger_interrupt_arm9, trigger_interrupt_arm7,
}
use emulator_app.Nds.Ipc.Control.{write_ipc_fifo_cnt_arm9, write_ipc_fifo_cnt_arm7}
use emulator_app.Nds.Ipc.Fifo.{
  write_ipc_fifo_tx_arm9, write_ipc_fifo_tx_arm7, read_ipc_fifo_rx_arm9, read_ipc_fifo_rx_arm7,
}
use emulator_app.Nds.Ipc.Channel.{Link, flip, send, receive, configure}
use emulator_app.Nds.Ipc.Flags.{link9, kept}
use emulator_app.Nds.Ipc.Sends.{link9-write, link7-write}
use emulator_app.Nds.Ipc.Receives.{link9-read, link7-read}
use emulator_app.Nds.Ipc.Configures.{link9-configure, link7-configure}

pub data Core : Type 0 where
  arm9 arm7 : Core

pub data Access : Type 0 where
  sends : ℕ → Access
  receives : Access
  sets_control : ℕ → Access
  syncs : ℕ → Access

-- One access of a core, with the word that it reads.
unfoldable pub act : (ℕ → ℕ) → NdsMmu → Core → Access → NdsMmu × ℕ
act peek s arm9 (sends v) = (write_ipc_fifo_tx_arm9 peek s v, 0)
act peek s arm7 (sends v) = (write_ipc_fifo_tx_arm7 peek s v, 0)
act peek s arm9 receives = read_ipc_fifo_rx_arm9 s
act peek s arm7 receives = read_ipc_fifo_rx_arm7 s
act peek s arm9 (sets_control v) = (write_ipc_fifo_cnt_arm9 s v, 0)
act peek s arm7 (sets_control v) = (write_ipc_fifo_cnt_arm7 s v, 0)
act peek s arm9 (syncs v) = (write_ipcsync_arm9 s v, 0)
act peek s arm7 (syncs v) = (write_ipcsync_arm7 s v, 0)

-- The same access by the rule of a link, of which the core that acts is `me`.
unfoldable pub obey : Link → Access → Link × ℕ
obey l (sends v) = (send l v, 0)
obey l receives = receive l
obey l (sets_control v) = (configure l v, 0)
obey l (syncs v) = (l, 0)

unfoldable pub obeys : Link → Core → Access → Link × ℕ
obeys l arm9 a = obey l a
obeys l arm7 a = (flip (obey (flip l) a).0, (obey (flip l) a).1)

unfoldable pub run : (ℕ → ℕ) → NdsMmu → List (Core × Access) → NdsMmu × List ℕ
run peek s [] = (s, [])
run peek s ((c, a) ∷ more) =
    let (s1, word) = act peek s c a in let (s2, words) = run peek s1 more in (s2, word ∷ words)

unfoldable pub run_link : Link → List (Core × Access) → Link × List ℕ
run_link l [] = (l, [])
run_link l ((c, a) ∷ more) =
    let (l1, word) = obeys l c a in let (l2, words) = run_link l1 more in (l2, word ∷ words)

link9-sync_arm9 : (s : NdsMmu) (v : ℕ) → link9 (write_ipcsync_arm9 s v) ≡ link9 s
unfolding write_ipcsync_arm9 trigger_interrupt_arm7
link9-sync_arm9 s v = elim (Bool-cases (bit_and v 0x2000 != 0 && s.ipc.arm7_sync_irq_enable)) [
  | inl irq ↦ rw (irq, kept 17 s.arm7_if 0x10000 refl, kept 18 s.arm7_if 0x10000 refl) refl
  | inr quiet ↦ rw (quiet) refl
]

link9-sync_arm7 : (s : NdsMmu) (v : ℕ) → link9 (write_ipcsync_arm7 s v) ≡ link9 s
unfolding write_ipcsync_arm7 trigger_interrupt_arm9
link9-sync_arm7 s v = elim (Bool-cases (bit_and v 0x2000 != 0 && s.ipc.arm9_sync_irq_enable)) [
  | inl irq ↦ rw (irq, kept 17 s.arm9_if 0x10000 refl, kept 18 s.arm9_if 0x10000 refl) refl
  | inr quiet ↦ rw (quiet) refl
]

abbrev pub seen : NdsMmu × ℕ → Link × ℕ
seen p = (link9 p.0, p.1)

pub act-obeys :
    (peek : ℕ → ℕ) (s : NdsMmu) (c : Core) (a : Access)
    → seen (act peek s c a) ≡ obeys (link9 s) c a
unfolding act obeys obey
act-obeys peek s arm9 (sends v) = ap (λ l. (l, 0)) (link9-write peek s v)
act-obeys peek s arm7 (sends v) = ap (λ l. (flip l, 0)) (link7-write peek s v)
act-obeys peek s arm9 receives = link9-read s
act-obeys peek s arm7 receives = ap (λ p. (flip p.0, p.1)) (link7-read s)
act-obeys peek s arm9 (sets_control v) = ap (λ l. (l, 0)) (link9-configure s v)
act-obeys peek s arm7 (sets_control v) = ap (λ l. (flip l, 0)) (link7-configure s v)
act-obeys peek s arm9 (syncs v) = ap (λ l. (l, 0)) (link9-sync_arm9 s v)
act-obeys peek s arm7 (syncs v) = ap (λ l. (l, 0)) (link9-sync_arm7 s v)

-- Any interleaving of register accesses by the two cores does what one rule for both sides says: the
-- queues, the settings, the error latches and the FIFO interrupts end as the rule has them, and each
-- receive answers the rule's word.
pub run-run_link :
    (peek : ℕ → ℕ) (s : NdsMmu) (es : List (Core × Access))
    → (link9 (run peek s es).0, (run peek s es).1) ≡ run_link (link9 s) es
unfolding run run_link
run-run_link peek s [] = refl
run-run_link peek s ((c, a) ∷ more) =
    let one = act-obeys peek s c a in
    let next = act peek s c a in
    ap (λ t. (t.0, next.1 ∷ t.1)) (run-run_link peek next.0 more)
    ∙ ap (λ t. let rest = run_link t.0 more in (rest.0, t.1 ∷ rest.1)) one
