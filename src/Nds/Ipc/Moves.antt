-- ===== src/Nds/Ipc/Moves.antt =====
-- How the queue of the ARM9 moves, by the rule of the link between the cores of
-- core/src/nds/mmu.rs.
use emulator_app.Base.{
  ℕ, suc, ◌≤◌, ◌≡◌, refl, ap, sym, ◌∙◌, arith, inl, inr, true, false, not, ◌&&◌, ◌||◌, ◌!=◌, leb,
  Bool-cases, if◌then◌else◌, List, [], ◌∷◌, ◌++◌, length, length-append, All, has,
}
use emulator_app.Snapshot.Unread.{append_assoc}
use emulator_app.Snapshot.Streams.{append_nil}
use emulator_app.Nds.Ipc.Channel.{
  Link, flip, send, take_word, receive, configure, send_off, send_full, send_room, receive_off,
  receive_on,
}
use emulator_app.Nds.Ipc.Runs.{
  Core, arm9, arm7, Access, sends, receives, sets_control, syncs, obey, obeys, run_link,
}

-- The word that an access puts into the queue of the ARM9: sends are taken while the FIFO is on and
-- not full.
unfoldable pub accepted : Link → Core → Access → List ℕ
accepted l arm9 (sends v) = if l.me.on && not (leb 16 (length l.me.queue)) then v ∷ [] else []
accepted l c a = []

-- The word that an access answers from that queue.
unfoldable pub delivered : Link → Core → Access → List ℕ
delivered l arm7 receives =
    if l.other.on && length l.me.queue != 0 then (obeys l arm7 receives).1 ∷ [] else []
delivered l c a = []

unfoldable pub all_accepted : Link → List (Core × Access) → List ℕ
all_accepted l [] = []
all_accepted l ((c, a) ∷ more) = accepted l c a ++ all_accepted (obeys l c a).0 more

unfoldable pub all_delivered : Link → List (Core × Access) → List ℕ
all_delivered l [] = []
all_delivered l ((c, a) ∷ more) = delivered l c a ++ all_delivered (obeys l c a).0 more

-- The ARM9 neither flushes its queue nor turns it off.
abbrev pub Keeps : Core × Access → Type 0
Keeps (arm9, sets_control v) = (has 3 v || not (has 15 v)) ≡ false
Keeps (c, a) = Unit

-- The queue moves on by the words `d` that leave it and the words `a` that enter it, and stays within
-- its sixteen words.
abbrev pub Moves : List ℕ → List ℕ → List ℕ → List ℕ → Type 0
Moves d after before a = (d ++ after ≡ before ++ a) × (length before ≤ 16 → length after ≤ 16)

Moves-same : (queue : List ℕ) → Moves [] queue queue []
Moves-same queue = (sym (append_nil queue), λ h. h)

send-Moves :
    (l : Link) (v : ℕ)
    → Moves []
        (send l v).me.queue
        l.me.queue
        (if l.me.on && not (leb 16 (length l.me.queue)) then v ∷ [] else [])
send-Moves l v = elim (Bool-cases l.me.on) [
  | inr off ↦ rw (send_off l v off, off) (Moves-same l.me.queue)
  | inl on ↦ elim (Bool-cases (leb 16 (length l.me.queue))) [
    | inl full ↦ rw (send_full l v on full, on, full) (Moves-same l.me.queue)
    | inr room ↦
        rw (send_room l v on room, on, room)
          (refl, λ h. ground (arith, room, length-append l.me.queue (v ∷ [])))
  ]
]

taken-Moves :
    (l : Link) (queue : List ℕ)
    → l.me.queue ≡ queue
    → Moves
        (if length queue != 0 then (take_word (flip l) queue).1 ∷ [] else [])
        (take_word (flip l) queue).0.other.queue
        queue
        []
unfolding take_word
taken-Moves l [] e = (e, λ h. ground (arith, ap length e))
taken-Moves l (v ∷ rest) e =
    let some_left : (suc (length rest) != 0) ≡ true = ground arith in
    rw some_left (ap (λ t. v ∷ t) (sym (append_nil rest)), λ h. omega arith)

receive-Moves :
    (l : Link)
    → Moves
        (if l.other.on && length l.me.queue != 0 then (receive (flip l)).1 ∷ [] else [])
        (receive (flip l)).0.other.queue
        l.me.queue
        []
unfolding take_word
receive-Moves l = elim (Bool-cases l.other.on) [
  | inr off ↦ rw (receive_off (flip l) off, off) (Moves-same l.me.queue)
  | inl on ↦ rw (receive_on (flip l) on, on) (taken-Moves l l.me.queue refl)
]

send-queue : (l : Link) (v : ℕ) → (send l v).other.queue ≡ l.other.queue
send-queue l v = elim (Bool-cases l.me.on) [
  | inr off ↦ rw (send_off l v off) refl
  | inl on ↦ elim (Bool-cases (leb 16 (length l.me.queue))) [
    | inl full ↦ rw (send_full l v on full) refl
    | inr room ↦ rw (send_room l v on room) refl
  ]
]

take_word-queue : (l : Link) (queue : List ℕ) → (take_word l queue).0.me.queue ≡ l.me.queue
unfolding take_word
take_word-queue l [] = refl
take_word-queue l (v ∷ rest) = refl

receive-queue : (l : Link) → (receive l).0.me.queue ≡ l.me.queue
receive-queue l = elim (Bool-cases l.me.on) [
  | inr off ↦ rw (receive_off l off) refl
  | inl on ↦ rw (receive_on l on) (take_word-queue l l.other.queue)
]

Moves-eq : (after before : List ℕ) → after ≡ before → Moves [] after before []
Moves-eq after before e = (e ∙ sym (append_nil before), λ h. omega (arith, ap length e))

obeys-Moves :
    (l : Link) (c : Core) (a : Access)
    → Keeps (c, a)
    → Moves (delivered l c a) (obeys l c a).0.me.queue l.me.queue (accepted l c a)
unfolding delivered accepted obeys obey
obeys-Moves l arm9 (sends v) k = send-Moves l v
obeys-Moves l arm7 (sends v) k =
    Moves-eq (send (flip l) v).other.queue l.me.queue (send-queue (flip l) v)
obeys-Moves l arm9 receives k = Moves-eq (receive l).0.me.queue l.me.queue (receive-queue l)
obeys-Moves l arm7 receives k = receive-Moves l
obeys-Moves l arm9 (sets_control v) k = unfold configure in rw k (Moves-same l.me.queue)
obeys-Moves l arm7 (sets_control v) k = unfold configure in Moves-same l.me.queue
obeys-Moves l arm9 (syncs v) k = Moves-same l.me.queue
obeys-Moves l arm7 (syncs v) k = Moves-same l.me.queue

pub run_link-Moves :
    (l : Link) (es : List (Core × Access))
    → All Keeps es
    → Moves (all_delivered l es) (run_link l es).0.me.queue l.me.queue (all_accepted l es)
unfolding run_link all_delivered all_accepted
run_link-Moves l [] k = Moves-same l.me.queue
run_link-Moves l ((c, a) ∷ more) k =
    let l1 = (obeys l c a).0 in
    let one = obeys-Moves l c a k.0 in
    let rest = run_link-Moves l1 more k.1 in
    (
      append_assoc (delivered l c a) (all_delivered l1 more) (run_link l1 more).0.me.queue
          ∙ ap (λ q. delivered l c a ++ q) rest.0
          ∙ sym (append_assoc (delivered l c a) l1.me.queue (all_accepted l1 more))
          ∙ ap (λ q. q ++ all_accepted l1 more) one.0
          ∙ append_assoc l.me.queue (accepted l c a) (all_accepted l1 more),
      λ h. rest.1 (one.1 h),
    )
