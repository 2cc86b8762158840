-- ===== src/Nds/Ipc/Order.antt =====
-- The order of the words from the ARM9 to the ARM7 through the FIFO of core/src/nds/mmu.rs.
use emulator_app.Base.{
  ℕ, ◌≤◌, ◌≡◌, refl, ap, ◌∙◌, arith, not, ◌&&◌, ◌!=◌, leb, if◌then◌else◌, List, [], ◌∷◌, ◌++◌,
  length, All, has,
}
use emulator_app.Nds.Ipc.State.{NdsMmu}
use emulator_app.Nds.Ipc.Flags.{link9}
use emulator_app.Nds.Ipc.Runs.{
  Core, arm9, arm7, Access, sends, receives, sets_control, syncs, act, run, act-obeys, obeys,
  run-run_link,
}
use emulator_app.Nds.Ipc.Moves.{
  Keeps, accepted, delivered, all_accepted, all_delivered, run_link-Moves,
}

-- The words that enter the queue, read off the registers: the ARM9 sends while its FIFO is on and
-- holds fewer than sixteen words.
abbrev pub enters : NdsMmu → Core × Access → List ℕ
enters s (arm9, sends v) =
    if has 15 s.ipc.fifo_control_arm9 && not (leb 16 (length s.ipc.fifo_9to7)) then v ∷ [] else []
enters s e = []

-- The word `w` that an access answers, if that access takes a word from the queue: the ARM7 receives
-- while its FIFO is on and the queue is not empty.
abbrev pub leaves : NdsMmu → Core × Access → ℕ → List ℕ
leaves s (arm7, receives) w =
    if has 15 s.ipc.fifo_control_arm7 && length s.ipc.fifo_9to7 != 0 then w ∷ [] else []
leaves s e w = []

unfoldable pub sent : (ℕ → ℕ) → NdsMmu → List (Core × Access) → List ℕ
sent peek s [] = []
sent peek s ((c, a) ∷ more) = enters s (c, a) ++ sent peek (act peek s c a).0 more

-- Of the answers of a run, those that were taken from the queue.
unfoldable pub received : (ℕ → ℕ) → NdsMmu → List (Core × Access) → List ℕ → List ℕ
received peek s [] words = []
received peek s (e ∷ more) [] = []
received peek s ((c, a) ∷ more) (w ∷ words) =
    leaves s (c, a) w ++ received peek (act peek s c a).0 more words

enters-accepted : (s : NdsMmu) (c : Core) (a : Access) → enters s (c, a) ≡ accepted (link9 s) c a
unfolding accepted
enters-accepted s arm9 (sends v) = refl
enters-accepted s arm9 receives = refl
enters-accepted s arm9 (sets_control v) = refl
enters-accepted s arm9 (syncs v) = refl
enters-accepted s arm7 (sends v) = refl
enters-accepted s arm7 receives = refl
enters-accepted s arm7 (sets_control v) = refl
enters-accepted s arm7 (syncs v) = refl

leaves-delivered :
    (s : NdsMmu) (c : Core) (a : Access)
    → leaves s (c, a) (obeys (link9 s) c a).1 ≡ delivered (link9 s) c a
unfolding delivered
leaves-delivered s arm9 (sends v) = refl
leaves-delivered s arm9 receives = refl
leaves-delivered s arm9 (sets_control v) = refl
leaves-delivered s arm9 (syncs v) = refl
leaves-delivered s arm7 (sends v) = refl
leaves-delivered s arm7 receives = refl
leaves-delivered s arm7 (sets_control v) = refl
leaves-delivered s arm7 (syncs v) = refl

sent-all_accepted :
    (peek : ℕ → ℕ) (s : NdsMmu) (es : List (Core × Access))
    → sent peek s es ≡ all_accepted (link9 s) es
unfolding sent all_accepted
sent-all_accepted peek s [] = refl
sent-all_accepted peek s ((c, a) ∷ more) =
    let next = (act peek s c a).0 in
    let moved : link9 next ≡ (obeys (link9 s) c a).0 = ap (λ t. t.0) (act-obeys peek s c a) in
    rw (sent-all_accepted peek next more, moved, enters-accepted s c a) refl

received-all_delivered :
    (peek : ℕ → ℕ) (s : NdsMmu) (es : List (Core × Access))
    → received peek s es (run peek s es).1 ≡ all_delivered (link9 s) es
unfolding received all_delivered run
received-all_delivered peek s [] = refl
received-all_delivered peek s ((c, a) ∷ more) =
    let next = (act peek s c a).0 in
    let moved : link9 next ≡ (obeys (link9 s) c a).0 = ap (λ t. t.0) (act-obeys peek s c a) in
    let answer : (act peek s c a).1 ≡ (obeys (link9 s) c a).1 =
      ap (λ t. t.1) (act-obeys peek s c a) in
    rw (received-all_delivered peek next more, moved, answer, leaves-delivered s c a) refl

-- Over any interleaving of register accesses in which the ARM9 neither flushes its FIFO nor turns it
-- off, no word is lost, repeated or overtaken: the words that the ARM7's receives answer while its
-- FIFO is on and the queue is not empty, followed by those still in the queue, are those that were in
-- it, followed by the words that the ARM9 sends while its FIFO is on and has room; and the queue, of
-- sixteen words at most, never holds more.
pub run-fifo_9to7 :
    (peek : ℕ → ℕ) (s : NdsMmu) (es : List (Core × Access))
    → length s.ipc.fifo_9to7 ≤ 16
    → All Keeps es
    → (received peek s es (run peek s es).1 ++ (run peek s es).0.ipc.fifo_9to7
        ≡ s.ipc.fifo_9to7 ++ sent peek s es)
      × (length (run peek s es).0.ipc.fifo_9to7 ≤ 16)
run-fifo_9to7 peek s es small k =
    let moves = run_link-Moves (link9 s) es k in
    let same = ap (λ t. t.0.me.queue) (run-run_link peek s es) in
    (
      rw (received-all_delivered peek s es, sent-all_accepted peek s es)
          (ap (λ q. all_delivered (link9 s) es ++ q) same ∙ moves.0),
      omega (arith, moves.1 small, ap length same),
    )
