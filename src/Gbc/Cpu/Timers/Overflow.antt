-- ===== src/Gbc/Cpu/Timers/Overflow.antt =====
-- The overflows of TIMA in gbc/cpu.rs over any number of cycles, in closed form.
use emulator_app.Base.{
  ℕ, zero, suc, ◌+◌, ◌-◌, ◌%◌, ◌<◌, ◌≡◌, ◌≢◌, refl, ap, ◌∙◌, sym, true, false, inl, inr, ltb, ◌==◌,
  Bool-cases, if◌then◌else◌, arith, bit_and, bit_or, bit_or_again, set, length, length-set,
  get_or-set, u8,
}
use native.Mathlib.Nat.{mod-eq_of_lt, add-mod_right}
use emulator_app.Gbc.Cpu.State.{Machine}
use emulator_app.Gbc.Cpu.Timers.{count_edge, update_timers}
use emulator_app.Gbc.Cpu.Timers.Edges.{times, counts, advanced, update_timers-count}
use emulator_app.Gbc.Mmu.{read_io}

-- TIMA after `k` counts from `t`: from 0x100 on it starts again at `tma`, once in 0x100 - tma counts.
abbrev pub wrapped : ℕ → ℕ → ℕ → ℕ
wrapped t tma k = if ltb (t + k) 0x100 then t + k else tma + (t + k - 0x100) % (0x100 - tma)

wrapped-zero : (t tma : ℕ) → t < 0x100 → wrapped t tma 0 ≡ t
wrapped-zero t tma h = ground arith

-- One count from 0xFF reloads.
wrapped-reload : (tma k : ℕ) → tma < 0x100 → wrapped tma tma k ≡ wrapped 0xFF tma (suc k)
wrapped-reload tma k h =
    let span : ℕ = 0x100 - tma in
    let shift : 0xFF + suc k - 0x100 ≡ k = omega arith in
    elim (Bool-cases (ltb (tma + k) 0x100)) [
      | inl below ↦
          let small : k % span ≡ k = mod-eq_of_lt (ground arith) in
          let past : ltb (0xFF + suc k) 0x100 ≡ false = ground arith in
          rw (below, past, shift, small) refl
      | inr above ↦
          let rest : k ≡ (tma + k - 0x100) + span = ground arith in
          let cycle : k % span ≡ (tma + k - 0x100) % span =
            ap (λ (n : ℕ). n % span) rest ∙ add-mod_right (tma + k - 0x100) span in
          let past : ltb (0xFF + suc k) 0x100 ≡ false = ground arith in
          rw (above, past, shift, cycle) refl
    ]

wrapped-suc : (t tma k : ℕ) → t < 0xFF → wrapped (t + 1) tma k ≡ wrapped t tma (suc k)
wrapped-suc t tma k h =
    let e : t + 1 + k ≡ t + suc k = omega arith in
    ap (λ n. if ltb n 0x100 then n else tma + (n - 0x100) % (0x100 - tma)) e

-- The registers after `k` counts.
record Counted (k : ℕ) (m n : Machine) : Type 0 where
  size : length n.mmu.io ≡ 128
  tima : read_io n.mmu 0x05 ≡ wrapped (read_io m.mmu 0x05) (read_io m.mmu 0x06) k
  requested : read_io n.mmu 0x0F ≡ (
      if ltb (read_io m.mmu 0x05 + k) 0x100
      then read_io m.mmu 0x0F
      else bit_or (read_io m.mmu 0x0F) 0x04)
  same : (i : ℕ) → i ≢ 0x05 → i ≢ 0x0F → read_io n.mmu i ≡ read_io m.mmu i

-- One count, by its cases.
record Edge (m n : Machine) : Type 0 where
  size : length n.mmu.io ≡ 128
  tima :
      read_io n.mmu 0x05
      ≡ (if read_io m.mmu 0x05 == 0xFF then read_io m.mmu 0x06 else read_io m.mmu 0x05 + 1)
  requested : read_io n.mmu 0x0F ≡ (
      if read_io m.mmu 0x05 == 0xFF then bit_or (read_io m.mmu 0x0F) 0x04 else read_io m.mmu 0x0F)
  same : (i : ℕ) → i ≢ 0x05 → i ≢ 0x0F → read_io n.mmu i ≡ read_io m.mmu i

count_edge-Edge :
    (m : Machine) → length m.mmu.io ≡ 128 → read_io m.mmu 0x05 < 0x100 → Edge m (count_edge m)
unfolding count_edge
count_edge-Edge m size small =
    let flag : ℕ = bit_or (read_io m.mmu 0x0F) 0x04 in
    let up : ℕ = u8 (read_io m.mmu 0x05 + 1) in
    let io' = set m.mmu.io 0x0F flag in
    let size' : length io' ≡ 128 = length-set m.mmu.io 0x0F flag ∙ size in
    record {
      size =
          ground
            (arith, size', length-set m.mmu.io 0x05 up, length-set io' 0x05 (read_io m.mmu 0x06));
      tima = ground (
        arith,
        size',
        get_or-set m.mmu.io 0x05 0x05 up 0,
        get_or-set io' 0x05 0x05 (read_io m.mmu 0x06) 0,
      );
      requested = ground (
        arith,
        size',
        get_or-set m.mmu.io 0x05 0x0F up 0,
        get_or-set m.mmu.io 0x0F 0x0F flag 0,
        get_or-set io' 0x05 0x0F (read_io m.mmu 0x06) 0,
      );
      same = λ i not5 notF. ground (
        arith,
        size',
        get_or-set m.mmu.io 0x05 i up 0,
        get_or-set m.mmu.io 0x0F i flag 0,
        get_or-set io' 0x05 i (read_io m.mmu 0x06) 0,
      );
    }

times-Counted :
    (k : ℕ) (m : Machine)
    → length m.mmu.io ≡ 128
    → read_io m.mmu 0x05 < 0x100
    → read_io m.mmu 0x06 < 0x100
    → Counted k m (times k m)
unfolding times
times-Counted zero m size small fits = record {
  size = size;
  tima = sym (wrapped-zero (read_io m.mmu 0x05) (read_io m.mmu 0x06) small);
  requested =
      let within : ltb (read_io m.mmu 0x05 + 0) 0x100 ≡ true = ground arith in rw (within) refl;
  same = λ i not5 notF. refl;
}
times-Counted (suc k) m size small fits =
    let t = read_io m.mmu 0x05 in
    let tma = read_io m.mmu 0x06 in
    let edge = count_edge-Edge m size small in
    let kept = edge.same 0x06 (omega arith) (omega arith) in
    let rest =
      times-Counted k (count_edge m) edge.size (ground (arith, edge.tima)) (ground (arith, kept)) in
    let m1 = count_edge m in
    record {
      size = rest.size;
      tima =
          rest.tima
          ∙ ap (λ x. wrapped (read_io m1.mmu 0x05) x k) kept
          ∙ elim (Bool-cases (t == 0xFF)) [
            | inl top ↦
                let t1 : read_io m1.mmu 0x05 ≡ tma = ground (arith, edge.tima) in
                let full : 0xFF ≡ t = ground arith in
                ap (λ x. wrapped x tma k) t1
                ∙ wrapped-reload tma k fits
                ∙ ap (λ x. wrapped x tma (suc k)) full
            | inr lower ↦
                let t1 : read_io m1.mmu 0x05 ≡ t + 1 = ground (arith, edge.tima) in
                ap (λ x. wrapped x tma k) t1 ∙ wrapped-suc t tma k (ground arith)
          ];
      requested = ground (
        arith,
        rest.requested,
        edge.tima,
        edge.requested,
        bit_or_again (read_io m.mmu 0x0F) 0x04,
      );
      same = λ i not5 notF. rest.same i not5 notF ∙ edge.same i not5 notF;
    }

-- While the timer is on, let `k` be how often the divider passes, in `n` cycles, a multiple of the
-- period that TAC and the speed select. Then `n` cycles at once advance TIMA by `k`; from 0x100 on it
-- starts again at TMA, each time that it overflows, and the timer interrupt is requested if it
-- overflowed at all. Of the processor nothing else changes but the divider, which moves on by `n`, and
-- of the registers nothing else but FF04. There are 128 registers, TIMA and TMA hold bytes, and the
-- divider is a halfword.
pub update_timers-tima :
    (m : Machine) (n i : ℕ)
    → m.cpu.div_counter < 65536
    → bit_and (read_io m.mmu 0x07) 0x04 ≢ 0
    → length m.mmu.io ≡ 128
    → read_io m.mmu 0x05 < 0x100
    → read_io m.mmu 0x06 < 0x100
    → i ≢ 0x04
    → i ≢ 0x05
    → i ≢ 0x0F
    → let k = counts n m.cpu.div_counter (read_io m.mmu 0x07) m.cpu.double_speed in
      let t = read_io m.mmu 0x05 in
      let tma = read_io m.mmu 0x06 in
      let iflags = read_io m.mmu 0x0F in
      let after = update_timers n m in
      (read_io after.mmu 0x05
        ≡ (if ltb (t + k) 0x100 then t + k else tma + (t + k - 0x100) % (0x100 - tma)))
      × (read_io after.mmu 0x0F ≡ (if ltb (t + k) 0x100 then iflags else bit_or iflags 0x04))
      × (read_io after.mmu i ≡ read_io m.mmu i)
      × (after.cpu ≡ advanced m.cpu n)
update_timers-tima m n i small on size ht htma not4 not5 notF =
    let k = counts n m.cpu.div_counter (read_io m.mmu 0x07) m.cpu.double_speed in
    let c = times-Counted k m size ht htma in
    (
      (update_timers-count m n 0x05 small on size (omega arith)).1 ∙ c.tima,
      (update_timers-count m n 0x0F small on size (omega arith)).1 ∙ c.requested,
      (update_timers-count m n i small on size not4).1 ∙ c.same i not5 notF,
      (update_timers-count m n i small on size not4).0,
    )
