-- ===== src/Gbc/Cpu/Timers/Edges.antt =====
-- The timer of gbc/cpu.rs over any number of cycles.
use emulator_app.Base.{
  ℕ, zero, suc, ◌+◌, ◌-◌, ◌*◌, ◌/◌, ◌%◌, ◌^◌, ◌<◌, ◌≡◌, ◌≢◌, refl, ap, ◌∙◌, sym, Bool, true, false,
  not, ◌&&◌, ◌==◌, if◌then◌else◌, arith, bit_and, bit_or, bit_and-one, bit_and_low, set, length,
  length-set, get_or-set, u8, u16,
}
use emulator_app.Gbc.Cpu.State.{Cpu, Machine}
use emulator_app.Gbc.Cpu.Timers.{
  bit_index, get_timer_signal, count_edge, timer_cycle, timer_cycles, update_timers,
}
use emulator_app.Gbc.Mmu.{read_io, write_io}

-- The processor cycles between two counts of TIMA: 1024, 16, 64 or 256, and twice that at double
-- speed.
unfoldable pub period : ℕ → Bool → ℕ
period tac double_speed =
    let select = tac % 4 in
    let base =
      if select == 0 then 1024 else if select == 1 then 16 else if select == 2 then 64 else 256 in
    if double_speed then base * 2 else base

edge_at :
    (d tac : ℕ) (fast : Bool)
    → d < 65536
    → bit_and tac 0x04 ≢ 0
    → (get_timer_signal d tac fast && not (get_timer_signal (u16 (d + 1)) tac fast))
      ≡ ((d + 1) % period tac fast == 0)
unfolding get_timer_signal bit_index period
edge_at d tac fast small on = ground (
  arith,
  bit_and_low 2 tac,
  bit_and-one (d / 2 ^ bit_index tac fast),
  bit_and-one ((d + 1) % 65536 / 2 ^ bit_index tac fast),
)

-- The counts that fall in `n` cycles after the divider stood at `d`.
abbrev pub counts : ℕ → ℕ → ℕ → Bool → ℕ
counts n d tac fast = (d + n) / period tac fast - d / period tac fast

counts_step :
    (n d tac : ℕ) (fast : Bool)
    → d < 65536
    → counts (suc n) d tac fast
      ≡ counts n ((d + 1) % 65536) tac fast + (if (d + 1) % period tac fast == 0 then 1 else 0)
unfolding period
counts_step n d tac fast h = ground arith

unfoldable pub times : ℕ → Machine → Machine
times zero m = m
times (suc n) m = times n (count_edge m)

-- Two machines whose registers agree but for the divider.
record Agree (m n : Machine) : Type 0 where
  size : length n.mmu.io ≡ 128
  size' : length m.mmu.io ≡ 128
  same : (i : ℕ) → i ≢ 4 → read_io n.mmu i ≡ read_io m.mmu i

count_edge-Agree : (m n : Machine) → Agree m n → Agree (count_edge m) (count_edge n)
unfolding count_edge
count_edge-Agree m n h =
    let flag : ℕ = bit_or (read_io m.mmu 0x0F) 0x04 in
    let flag' : ℕ = bit_or (read_io n.mmu 0x0F) 0x04 in
    let tima = h.same 0x05 (omega arith) in
    let tma = h.same 0x06 (omega arith) in
    let iff = h.same 0x0F (omega arith) in
    record {
      size = ground (
        arith,
        length-set n.mmu.io 0x05 (u8 (read_io n.mmu 0x05 + 1)),
        length-set n.mmu.io 0x0F flag',
        length-set (set n.mmu.io 0x0F flag') 0x05 (read_io n.mmu 0x06),
      );
      size' = ground (
        arith,
        length-set m.mmu.io 0x05 (u8 (read_io m.mmu 0x05 + 1)),
        length-set m.mmu.io 0x0F flag,
        length-set (set m.mmu.io 0x0F flag) 0x05 (read_io m.mmu 0x06),
      );
      same = λ i ne. ground (
        arith,
        tima,
        tma,
        ap (λ x. bit_or x 0x04) iff,
        h.same i ne,
        get_or-set m.mmu.io 0x05 i (u8 (read_io m.mmu 0x05 + 1)) 0,
        get_or-set n.mmu.io 0x05 i (u8 (read_io n.mmu 0x05 + 1)) 0,
        get_or-set m.mmu.io 0x0F i flag 0,
        get_or-set n.mmu.io 0x0F i flag' 0,
        get_or-set (set m.mmu.io 0x0F flag) 0x05 i (read_io m.mmu 0x06) 0,
        get_or-set (set n.mmu.io 0x0F flag') 0x05 i (read_io n.mmu 0x06) 0,
        length-set n.mmu.io 0x0F flag',
        length-set m.mmu.io 0x0F flag,
      );
    }

times-Agree : (k : ℕ) (m n : Machine) → Agree m n → Agree (times k m) (times k n)
unfolding times
times-Agree zero m n h = h
times-Agree (suc k) m n h = times-Agree k (count_edge m) (count_edge n) (count_edge-Agree m n h)

count_edge-cpu : (m : Machine) → (count_edge m).cpu ≡ m.cpu
unfolding count_edge
count_edge-cpu m = ground arith

branch :
    (counted : Bool) (m n : Machine)
    → Agree m n
    → let after = if counted then count_edge n else n in
      Agree (times (if counted then 1 else 0) m) after × (after.cpu ≡ n.cpu)
unfolding times
branch true m n h = (count_edge-Agree m n h, count_edge-cpu n)
branch false m n h = (h, refl)

-- The machine after one cycle, up to the divider's register.
cycle_lem :
    (tac : ℕ) (m : Machine)
    → m.cpu.div_counter < 65536
    → bit_and tac 0x04 ≢ 0
    → length m.mmu.io ≡ 128
    → let fast = m.cpu.double_speed in
      let d = m.cpu.div_counter in
      Agree (times (if (d + 1) % period tac fast == 0 then 1 else 0) m) (timer_cycle tac m)
      × ((timer_cycle tac m).cpu ≡ record m.cpu { div_counter = (d + 1) % 65536 })
unfolding timer_cycle
cycle_lem tac m small on size =
    let fast = m.cpu.double_speed in
    let d = m.cpu.div_counter in
    let d' = (d + 1) % 65536 in
    let shown = u8 (if fast then d' / 512 else d' / 256) in
    let m1 : Machine = record m {
      cpu = record m.cpu { div_counter = d' };
      mmu = write_io m.mmu 0x04 shown;
    } in
    let set4 : Agree m m1 = record {
      size = length-set m.mmu.io 0x04 shown ∙ size;
      size' = size;
      same = λ i ne. ground (arith, get_or-set m.mmu.io 0x04 i shown 0);
    } in
    rw (edge_at d tac fast small on) (branch ((d + 1) % period tac fast == 0) m m1 set4)

Agree-trans : (a b c : Machine) → Agree a b → Agree b c → Agree a c
Agree-trans a b c p q = record {
  size = q.size;
  size' = p.size';
  same = λ i ne. q.same i ne ∙ p.same i ne;
}

times-add : (k l : ℕ) (m : Machine) → times (k + l) m ≡ times k (times l m)
unfolding times
times-add k zero m = let e : k + 0 ≡ k = omega arith in ap (λ n. times n m) e
times-add k (suc l) m =
    let e : k + suc l ≡ suc (k + l) = omega arith in
    ap (λ n. times n m) e ∙ times-add k l (count_edge m)

recount : (j k : ℕ) (a b : Machine) → j ≡ k → Agree (times j a) b → Agree (times k a) b
recount j k a b e h = rw (← e) h

-- The processor with the divider moved on.
abbrev pub advanced : Cpu → ℕ → Cpu
advanced c n = record c { div_counter = (c.div_counter + n) % 65536 }

-- The timer and every other register but the divider's, after `n` cycles, whatever is read in.
timer_cycles_lem :
    (n tac : ℕ) (m : Machine)
    → m.cpu.div_counter < 65536
    → bit_and tac 0x04 ≢ 0
    → length m.mmu.io ≡ 128
    → Agree (times (counts n m.cpu.div_counter tac m.cpu.double_speed) m) (timer_cycles n tac m)
      × ((timer_cycles n tac m).cpu
          ≡ record m.cpu { div_counter = (m.cpu.div_counter + n) % 65536 })
unfolding timer_cycles
timer_cycles_lem zero tac m small on size =
    let fast = m.cpu.double_speed in
    let none_yet : 0 ≡ counts 0 m.cpu.div_counter tac fast = same_count (period tac fast) in
    (
      recount 0 _ m m none_yet
          (unfold times in record { size = size; size' = size; same = λ i ne. refl }),
      ground arith,
    )
  where
    same_count : (q : ℕ) → 0 ≡ (m.cpu.div_counter + 0) / q - m.cpu.div_counter / q
    same_count q =
        let e : m.cpu.div_counter + 0 ≡ m.cpu.div_counter = omega arith in rw e (omega arith)
timer_cycles_lem (suc n) tac m small on size =
    let fast = m.cpu.double_speed in
    let d = m.cpu.div_counter in
    let m1 = timer_cycle tac m in
    let one = cycle_lem tac m small on size in
    let d1 : m1.cpu.div_counter ≡ (d + 1) % 65536 = ap (λ c. c.div_counter) one.1 in
    let fast1 : m1.cpu.double_speed ≡ fast = ap (λ c. c.double_speed) one.1 in
    let rest = timer_cycles_lem n tac m1 (omega (arith, d1)) on one.0.size in
    let k = counts n ((d + 1) % 65536) tac fast in
    let s : ℕ = if (d + 1) % period tac fast == 0 then 1 else 0 in
    let counted : counts n m1.cpu.div_counter tac m1.cpu.double_speed ≡ k =
      ap (λ c. counts n c.div_counter tac c.double_speed) one.1 in
    let total : k + s ≡ counts (suc n) d tac fast = sym (counts_step n d tac fast small) in
    let both : Agree (times (k + s) m) (times k m1) =
      rw (times-add k s m) (times-Agree k (times s m) m1 one.0) in
    (
      recount (k + s) _ m _ total
          (Agree-trans _ (times k m1) _ both (recount _ k m1 _ counted rest.0)),
      rest.1 ∙ ap (λ c. advanced c n) one.1 ∙ ground arith,
    )

-- While the timer is on, `n` cycles count as many edges as the divider passes multiples of the period
-- that TAC and the speed select. Of the processor nothing else changes but the divider.
pub update_timers-count :
    (m : Machine) (n i : ℕ)
    → m.cpu.div_counter < 65536
    → bit_and (read_io m.mmu 0x07) 0x04 ≢ 0
    → length m.mmu.io ≡ 128
    → i ≢ 0x04
    → let counted = times (counts n m.cpu.div_counter (read_io m.mmu 0x07) m.cpu.double_speed) m in
      ((update_timers n m).cpu ≡ advanced m.cpu n)
      × (read_io (update_timers n m).mmu i ≡ read_io counted.mmu i)
unfolding update_timers
update_timers-count m n i small on size ne =
    let l = timer_cycles_lem n (read_io m.mmu 0x07) m small on size in (l.1, l.0.same i ne)
