-- ===== src/Nds/Ipc/Flags.antt =====
-- The control and interrupt registers of core/src/nds/mmu.rs, read as the two sides of a link.
use emulator_app.Base.{
  ℕ, ◌≡◌, refl, ap, ◌∙◌, arith, Bool, true, false, not, ◌&&◌, ◌||◌, ◌==◌, ◌!=◌, List, bit_and,
  bit_or, has, has-bit_and, has-bit_or,
}
use emulator_app.Nds.Ipc.State.{NdsMmu}
use emulator_app.Nds.Ipc.Channel.{Side, Link, flip}

-- A side as the registers of its core hold it.
abbrev pub side : List ℕ → ℕ → ℕ → Side
side fifo control flags = record {
  queue = fifo;
  on = has 15 control;
  empty_irq = has 2 control;
  ready_irq = has 10 control;
  error = has 14 control;
  sent_empty = has 17 flags;
  received_ready = has 18 flags;
}

abbrev pub link9 : NdsMmu → Link
link9 s = record {
  me = side s.ipc.fifo_9to7 s.ipc.fifo_control_arm9 s.arm9_if;
  other = side s.ipc.fifo_7to9 s.ipc.fifo_control_arm7 s.arm7_if;
}

abbrev pub link7 : NdsMmu → Link
link7 s = flip (link9 s)

pub or_false : (b : Bool) → (b || false) ≡ b
or_false true = refl
or_false false = refl

pub or_true : (b : Bool) → (b || true) ≡ true
or_true true = refl
or_true false = refl

pub and_false : (b : Bool) → (b && false) ≡ false
and_false true = refl
and_false false = refl

pub and_true : (b : Bool) → (b && true) ≡ b
and_true true = refl
and_true false = refl

pub zero_test : (n : ℕ) → (n == 0) ≡ not (n != 0)
zero_test n = ground arith

-- A bit that a mask does not hold is left alone, and one that it holds is set.
pub kept : (k a m : ℕ) → has k m ≡ false → has k (bit_or a m) ≡ has k a
kept k a m e = has-bit_or k a m ∙ rw e (or_false (has k a))

pub raised : (k a m : ℕ) → has k m ≡ true → has k (bit_or a m) ≡ true
raised k a m e = has-bit_or k a m ∙ rw e (or_true (has k a))

pub masked : (k a m : ℕ) → has k m ≡ true → has k (bit_and a m) ≡ has k a
masked k a m e = has-bit_and k a m ∙ rw e (and_true (has k a))

pub cleared : (k a m : ℕ) → has k m ≡ false → has k (bit_and a m) ≡ false
cleared k a m e = has-bit_and k a m ∙ rw e (and_false (has k a))

-- The error latch in a control register.
pub side-error :
    (fifo : List ℕ) (control flags : ℕ)
    → side fifo (bit_or control 0x4000) flags ≡ record (side fifo control flags) { error = true }
side-error fifo control flags =
    rw
      (
        kept 15 control 0x4000 refl,
        kept 2 control 0x4000 refl,
        kept 10 control 0x4000 refl,
        raised 14 control 0x4000 refl,
      )
      refl

-- A request in the flags, by the bits of the two FIFO interrupts.
pub side-ready :
    (fifo : List ℕ) (control flags : ℕ)
    → side fifo control (bit_or flags 0x40000)
      ≡ record (side fifo control flags) { received_ready = true }
side-ready fifo control flags = rw (kept 17 flags 0x40000 refl, raised 18 flags 0x40000 refl) refl

pub side-empty :
    (fifo : List ℕ) (control flags : ℕ)
    → side fifo control (bit_or flags 0x20000)
      ≡ record (side fifo control flags) { sent_empty = true }
side-empty fifo control flags = rw (kept 18 flags 0x20000 refl, raised 17 flags 0x20000 refl) refl

pub off_test : (c : ℕ) → has 15 c ≡ false → (bit_and c 0x8000 == 0) ≡ true
off_test c e = zero_test (bit_and c 0x8000) ∙ ap not e

pub on_test : (c : ℕ) → has 15 c ≡ true → (bit_and c 0x8000 == 0) ≡ false
on_test c e = zero_test (bit_and c 0x8000) ∙ ap not e
