-- ===== src/Gbc/Cpu/Interrupts.antt =====
-- Interrupts of gbc/cpu.rs, and RETI.
use emulator_app.Base.{
  ℕ, ◌+◌, ◌-◌, ◌*◌, ◌/◌, ◌%◌, ◌^◌, ◌<◌, ◌≡◌, ◌≢◌, refl, ap, ◌∙◌, true, false, arith, bit_and,
  bit_and_bit, get_or, get_or-set, set, u8, u16, bit_and_clear, some, zero, suc,
}
use emulator_app.Gbc.Cpu.State.{Cpu, Machine, write, push_word, pop_word}
use emulator_app.Gbc.Cpu.Step.{serve, serve_first, vector_of, check_interrupts}
use emulator_app.Gbc.Cpu.Actions.Control.{reti}
use emulator_app.Gbc.Cpu.Stack.{HasRoom, in_ram, pop_word-push_word}
use emulator_app.Gbc.Mmu.{read_io, write_io, write_byte, write_direct}
use emulator_app.Gbc.Mmu.Sized.{IsSized, io-IsSized}

-- The requests that are also enabled.
abbrev pub pending : Machine → ℕ
pending m = bit_and m.mmu.ie (read_io m.mmu 0x0F)

-- `k` is the lowest of the five requests.
abbrev pub IsLowest : ℕ → ℕ → Type 0
IsLowest k p = (k < 5) × (p % 2 ^ k ≡ 0) × (p / 2 ^ k % 2 ≡ 1)

serve_first_lem :
    (p k : ℕ) (m : Machine) → IsLowest k p → serve_first 5 0 p m ≡ (serve k m, some 20)
unfolding serve_first
serve_first_lem p k m low =
    ground
      (arith, bit_and_bit 0 p, bit_and_bit 1 p, bit_and_bit 2 p, bit_and_bit 3 p, bit_and_bit 4 p)

written-io : (m : Machine) (a v : ℕ) → in_ram a ≡ true → (write_byte m.mmu a v).io ≡ m.mmu.io
unfolding write_byte write_direct
written-io m a v ram = ground arith

pushed-io :
    (m : Machine) (val : ℕ) → HasRoom m.cpu.registers.sp → (push_word m val).mmu.io ≡ m.mmu.io
unfolding push_word
pushed-io m val room =
    let sp = m.cpu.registers.sp in
    let top : u16 (sp + 65535) ≡ sp - 1 = omega arith in
    let bottom : u16 (sp - 1 + 65535) ≡ sp - 2 = omega arith in
    let hi = u8 (val / 256) in
    rw (top, bottom)
      (written-io (write m (sp - 1) hi) (sp - 2) (bit_and val 0xFF) room.3
        ∙ written-io m (sp - 1) hi room.2)

lowest-ne-zero : (k p : ℕ) → IsLowest k p → p ≢ 0
lowest-ne-zero zero p h e = omega arith
lowest-ne-zero (suc zero) p h e = omega arith
lowest-ne-zero (suc (suc zero)) p h e = omega arith
lowest-ne-zero (suc (suc (suc zero))) p h e = omega arith
lowest-ne-zero (suc (suc (suc (suc zero)))) p h e = omega arith
lowest-ne-zero (suc (suc (suc (suc (suc k))))) p h e = omega arith

-- The processor woken by a request.
abbrev awake : Machine → Machine
awake m = record m { cpu = record m.cpu { halted = false } }

chosen :
    (m : Machine) (k : ℕ)
    → m.cpu.ime ≡ true
    → IsLowest k (pending m)
    → check_interrupts m ≡ (serve k (awake m), some 20)
unfolding check_interrupts
chosen m k on low =
    ground (arith, lowest-ne-zero k (pending m) low, serve_first_lem (pending m) k (awake m) low)

-- The machine that `serve` pushes the program counter on.
abbrev acknowledged : ℕ → Machine → Machine
acknowledged k m = record m {
  cpu = record m.cpu { ime = false };
  mmu = write_io m.mmu 0x0F (bit_and (read_io m.mmu 0x0F) (255 - 2 ^ k));
}

vector_of_lem : (k : ℕ) → k < 5 → vector_of k ≡ 0x40 + 8 * k
unfolding vector_of
vector_of_lem k small = ground arith

reti-serve :
    (m : Machine) (k : ℕ)
    → IsSized m.mmu
    → m.cpu.registers.pc < 65536
    → HasRoom m.cpu.registers.sp
    → (reti (serve k m)).0.cpu ≡ record m.cpu { ime = true }
unfolding serve reti pop_word
reti-serve m k sized fits room =
    let a = acknowledged k m in
    let mask = bit_and (read_io m.mmu 0x0F) (255 - 2 ^ k) in
    let back =
      pop_word-push_word a m.cpu.registers.pc (io-IsSized m.mmu 0x0F mask sized) room fits in
    let resumed : ℕ → Cpu → Cpu =
      λ pc c. record c { registers = record c.registers { pc = pc }; ime = true } in
    ap (λ pc. resumed pc (pop_word (push_word a m.cpu.registers.pc)).0.cpu) back.0
    ∙ ap (resumed m.cpu.registers.pc) back.1

-- With interrupts enabled and a stack in RAM, the lowest request that is enabled is served in 20
-- cycles: its handler starts at 0x40 plus eight times its number, with interrupts off, the processor
-- awake and only that request taken back; and RETI goes back to the interrupted instruction, with
-- every register as it was and interrupts on.
pub check_interrupts-reti :
    (m : Machine) (k : ℕ)
    → m.cpu.ime ≡ true
    → IsLowest k (pending m)
    → IsSized m.mmu
    → read_io m.mmu 0x0F < 256
    → m.cpu.registers.pc < 65536
    → HasRoom m.cpu.registers.sp
    → let served = (check_interrupts m).0 in
      ((check_interrupts m).1 ≡ some 20)
      × (served.cpu.registers.pc ≡ 0x40 + 8 * k)
      × (served.cpu.ime ≡ false)
      × (served.cpu.halted ≡ false)
      × (read_io served.mmu 0x0F + read_io m.mmu 0x0F / 2 ^ k % 2 * 2 ^ k ≡ read_io m.mmu 0x0F)
      × ((reti served).0.cpu ≡ record m.cpu { ime = true; halted = false })
unfolding serve push_word
check_interrupts-reti m k on low sized byte pc_fits room =
    let served = serve k (awake m) in
    let request = read_io m.mmu 0x0F in
    let mask = bit_and request (255 - 2 ^ k) in
    let set_there : get_or (set m.mmu.io 15 mask) 15 0 ≡ mask =
      ground (arith, get_or-set m.mmu.io 15 15 mask 0) in
    let kept : read_io served.mmu 0x0F ≡ mask =
      ap (λ io. get_or io 0x0F 0) (pushed-io (acknowledged k (awake m)) m.cpu.registers.pc room)
      ∙ set_there in
    rw (chosen m k on low, kept)
      (
        refl,
        vector_of_lem k low.0,
        refl,
        refl,
        bit_and_clear k request (omega arith) byte,
        reti-serve (awake m) k sized pc_fits room,
      )
