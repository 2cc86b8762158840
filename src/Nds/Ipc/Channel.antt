-- ===== src/Nds/Ipc/Channel.antt =====
-- What the two FIFOs between the cores promise: each core has a send queue of sixteen words, and the
-- rule is the same on both sides.
use emulator_app.Base.{
  ℕ, ◌≡◌, refl, Bool, true, false, not, ◌&&◌, ◌||◌, ◌==◌, leb, if◌then◌else◌, List, [], ◌∷◌, ◌++◌,
  length, has,
}

-- A core's send queue, its settings, its error latch, and its two pending FIFO interrupts.
pub record Side : Type 0 where
  pub queue : List ℕ
  pub on : Bool
  pub empty_irq : Bool
  pub ready_irq : Bool
  pub error : Bool
  pub sent_empty : Bool
  pub received_ready : Bool

-- The core that acts, and the other.
pub record Link : Type 0 where
  pub me : Side
  pub other : Side

abbrev pub flip : Link → Link
flip l = record { me = l.other; other = l.me }

abbrev pub push : Link → ℕ → Link
push l v = record {
  me = record l.me { queue = l.me.queue ++ (v ∷ []) };
  other = record l.other {
    received_ready = l.other.received_ready || (length l.me.queue == 0 && l.other.ready_irq);
  };
}

unfoldable pub send : Link → ℕ → Link
send l v =
    if not l.me.on
    then l
    else if leb 16 (length l.me.queue)
    then record l { me = record l.me { error = true } }
    else push l v

unfoldable pub take_word : Link → List ℕ → Link × ℕ
take_word l [] = (record l { me = record l.me { error = true } }, 0)
take_word l (v ∷ rest) = (
  record l {
    other = record l.other {
      queue = rest;
      sent_empty = l.other.sent_empty || (length rest == 0 && l.other.empty_irq);
    };
  },
  v,
)

unfoldable pub receive : Link → Link × ℕ
unfolding take_word
receive l = if not l.me.on then (l, 0) else take_word l l.other.queue

unfoldable pub configure : Link → ℕ → Link
configure l v = record l {
  me = record l.me {
    queue = if has 3 v || not (has 15 v) then [] else l.me.queue;
    on = has 15 v;
    empty_irq = has 2 v;
    ready_irq = has 10 v;
    error = l.me.error && not (has 14 v || not (has 15 v));
  };
}

-- The link's send, by its cases.
pub send_off : (l : Link) (v : ℕ) → l.me.on ≡ false → send l v ≡ l
unfolding send
send_off l v off = rw off refl

pub send_full :
    (l : Link) (v : ℕ)
    → l.me.on ≡ true
    → leb 16 (length l.me.queue) ≡ true
    → send l v ≡ record l { me = record l.me { error = true } }
unfolding send
send_full l v on full = rw (on, full) refl

pub send_room :
    (l : Link) (v : ℕ) → l.me.on ≡ true → leb 16 (length l.me.queue) ≡ false → send l v ≡ push l v
unfolding send
send_room l v on room = rw (on, room) refl

pub receive_off : (l : Link) → l.me.on ≡ false → receive l ≡ (l, 0)
unfolding receive
receive_off l off = rw off refl

pub receive_on : (l : Link) → l.me.on ≡ true → receive l ≡ take_word l l.other.queue
unfolding receive
receive_on l on = rw on refl
