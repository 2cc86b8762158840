-- ===== src/Nds/Ipc/Configures.antt =====
-- The control registers of core/src/nds/mmu.rs on the two cores against the one rule of a link.
use emulator_app.Base.{
  ℕ, ◌≡◌, refl, ap, ◌∙◌, inl, inr, Bool, true, false, not, ◌&&◌, ◌||◌, Bool-cases, if◌then◌else◌,
  [], bit_and, bit_or, has, has-bit_or,
}
use emulator_app.Nds.Ipc.State.{NdsMmu}
use emulator_app.Nds.Ipc.Control.{control_after, write_ipc_fifo_cnt_arm9, write_ipc_fifo_cnt_arm7}
use emulator_app.Nds.Ipc.Channel.{Link, configure}
use emulator_app.Nds.Ipc.Flags.{
  link9, link7, or_false, and_false, and_true, zero_test, masked, cleared,
}

merged_word : ℕ → ℕ → ℕ
merged_word c v = bit_or (bit_and c 0x7BFB) (bit_and v 0x8404)

-- The settings come from the value that is written, and the error latch from the register.
merged_setting :
    (k c v : ℕ) → has k 0x7BFB ≡ false → has k 0x8404 ≡ true → has k (merged_word c v) ≡ has k v
unfolding merged_word
merged_setting k c v low high =
    has-bit_or k (bit_and c 0x7BFB) (bit_and v 0x8404)
    ∙ rw (cleared k c 0x7BFB low, masked k v 0x8404 high) refl

merged_latch : (c v : ℕ) → has 14 (merged_word c v) ≡ has 14 c
unfolding merged_word
merged_latch c v =
    has-bit_or 14 (bit_and c 0x7BFB) (bit_and v 0x8404)
    ∙ rw (cleared 14 v 0x8404 refl, masked 14 c 0x7BFB refl) (or_false (has 14 c))

bits : ℕ → Bool × (Bool × (Bool × Bool))
bits c = (has 15 c, (has 2 c, (has 10 c, has 14 c)))

control_bits :
    (c v : ℕ)
    → bits (control_after c v)
      ≡ (has 15 v, (has 2 v, (has 10 v, has 14 c && not (has 14 v || not (has 15 v)))))
unfolding bits merged_word
control_bits c v =
    let off = zero_test (bit_and v 0x8000) in
    let m = merged_word c v in
    elim (Bool-cases (has 14 v || not (has 15 v))) [
      | inl ack ↦
          rw
            (
              off,
              ack,
              masked 15 m 0xBFFF refl,
              masked 2 m 0xBFFF refl,
              masked 10 m 0xBFFF refl,
              cleared 14 m 0xBFFF refl,
              merged_setting 15 c v refl refl,
              merged_setting 2 c v refl refl,
              merged_setting 10 c v refl refl,
              and_false (has 14 c),
            )
            refl
      | inr keep ↦
          rw
            (
              off,
              keep,
              merged_setting 15 c v refl refl,
              merged_setting 2 c v refl refl,
              merged_setting 10 c v refl refl,
              merged_latch c v,
              and_true (has 14 c),
            )
            refl
    ]

-- A write of the ARM9's control register configures its side.
pub link9-configure :
    (s : NdsMmu) (v : ℕ) → link9 (write_ipc_fifo_cnt_arm9 s v) ≡ configure (link9 s) v
unfolding write_ipc_fifo_cnt_arm9 configure bits
link9-configure s v =
    let c = s.ipc.fifo_control_arm9 in
    let put : Bool → Bool × (Bool × (Bool × Bool)) → Link = λ q x. record (link9 s) {
      me = record {
        queue = if q then [] else s.ipc.fifo_9to7;
        on = x.0;
        empty_irq = x.1.0;
        ready_irq = x.1.1.0;
        error = x.1.1.1;
        sent_empty = has 17 s.arm9_if;
        received_ready = has 18 s.arm9_if;
      };
    } in
    ap (λ q. put (has 3 v || q) (bits (control_after c v))) (zero_test (bit_and v 0x8000))
    ∙ ap (put (has 3 v || not (has 15 v))) (control_bits c v)

-- A write of the ARM7's control register configures its side.
pub link7-configure :
    (s : NdsMmu) (v : ℕ) → link7 (write_ipc_fifo_cnt_arm7 s v) ≡ configure (link7 s) v
unfolding write_ipc_fifo_cnt_arm7 configure bits
link7-configure s v =
    let c = s.ipc.fifo_control_arm7 in
    let put : Bool → Bool × (Bool × (Bool × Bool)) → Link = λ q x. record (link7 s) {
      me = record {
        queue = if q then [] else s.ipc.fifo_7to9;
        on = x.0;
        empty_irq = x.1.0;
        ready_irq = x.1.1.0;
        error = x.1.1.1;
        sent_empty = has 17 s.arm7_if;
        received_ready = has 18 s.arm7_if;
      };
    } in
    ap (λ q. put (has 3 v || q) (bits (control_after c v))) (zero_test (bit_and v 0x8000))
    ∙ ap (put (has 3 v || not (has 15 v))) (control_bits c v)
