-- ===== src/Nds/Backup/Frames.antt =====
-- The framing of nds/backup.rs: a command byte, three address bytes, and what the chip then holds.
use emulator_app.Base.{
  ℕ, ◌+◌, ◌*◌, ◌^◌, ◌<◌, ◌≡◌, refl, ◌∙◌, ap, Bool, true, false, ◌||◌, arith, ◌==◌, List, [], ◌∷◌,
  ◌++◌, none, some, length, bit_or_add, u32,
}
use emulator_app.Nds.Backup.{
  NdsBackup, deselect, latch_command, count_command, read_data, program_data, shift_in, respond,
  transfer,
}

-- Bytes clocked with chip select held, and what the chip drives back.
unfoldable pub clock_all : NdsBackup → List ℕ → NdsBackup
clock_all b [] = b
clock_all b (v ∷ vs) = clock_all (transfer b v).0 vs

unfoldable pub outputs : NdsBackup → List ℕ → List ℕ
outputs b [] = []
outputs b (v ∷ vs) = (transfer b v).1 ∷ outputs (transfer b v).0 vs

-- A frame ends with the release of chip select.
unfoldable pub frame : NdsBackup → List ℕ → NdsBackup
frame b vs = deselect (clock_all b vs)

pub clock_all-append :
    (b : NdsBackup) (xs ys : List ℕ) → clock_all b (xs ++ ys) ≡ clock_all (clock_all b xs) ys
unfolding clock_all
clock_all-append b [] ys = refl
clock_all-append b (x ∷ xs) ys = clock_all-append (transfer b x).0 xs ys

pub shift_in_lem : (addr val : ℕ) → addr < 2 ^ 24 → val < 256 → shift_in addr val ≡ addr * 256 + val
shift_in_lem addr val h hv =
    let fits : u32 (addr * 256) ≡ addr * 256 = omega arith in
    rw fits (bit_or_add 8 (addr * 256) val (omega arith) hv)

-- The commands that take a three-byte address and then data: READ, PW and PP.
abbrev pub takes_address : ℕ → Bool
takes_address c = c == 0x03 || (c == 0x0A || c == 0x02)

command_lem :
    (b : NdsBackup) (c : ℕ)
    → 0 < length b.cells
    → b.cmd ≡ none
    → takes_address c ≡ true
    → (transfer b c).0 ≡ record b {
      cmd = some c;
      cmd_counts = count_command b c;
      idx = 0;
      addr = 0;
      page_erased = false;
      last_out = 0;
    }
unfolding transfer respond latch_command
command_lem b c present idle h = ground arith

address_lem :
    (b : NdsBackup) (c val : ℕ)
    → 0 < length b.cells
    → b.cmd ≡ some c
    → takes_address c ≡ true
    → b.idx < 3
    → b.addr < 2 ^ 24
    → val < 256
    → (transfer b val).0 ≡ record b { idx = b.idx + 1; addr = b.addr * 256 + val; last_out = 0 }
unfolding transfer respond read_data program_data
address_lem b c val present busy h i a v = ground (arith, shift_in_lem b.addr val a v)

abbrev pub address : ℕ → ℕ → ℕ → ℕ
address a2 a1 a0 = a2 * 65536 + a1 * 256 + a0

-- The chip after the command and its address: only the frame's own registers have changed.
abbrev pub begun : NdsBackup → ℕ → ℕ → NdsBackup
begun b c at = record b {
  cmd = some c;
  cmd_counts = count_command b c;
  idx = 3;
  addr = at;
  page_erased = false;
  last_out = 0;
}

-- A READ, PW or PP command and its three address bytes, from an idle chip, change nothing but the
-- frame's registers; the address is big-endian.
pub clock_all-begun :
    (b : NdsBackup) (c a2 a1 a0 : ℕ)
    → 0 < length b.cells
    → b.cmd ≡ none
    → takes_address c ≡ true
    → a2 < 256
    → a1 < 256
    → a0 < 256
    → clock_all b (c ∷ a2 ∷ a1 ∷ a0 ∷ []) ≡ begun b c (address a2 a1 a0)
unfolding clock_all
clock_all-begun b c a2 a1 a0 present idle h h2 h1 h0 =
    let b1 : NdsBackup = record b {
      cmd = some c;
      cmd_counts = count_command b c;
      idx = 0;
      addr = 0;
      page_erased = false;
      last_out = 0;
    } in
    let b2 : NdsBackup = record b1 { idx = 0 + 1; addr = 0 * 256 + a2 } in
    let b3 : NdsBackup = record b1 { idx = 0 + 1 + 1; addr = (0 * 256 + a2) * 256 + a1 } in
    let total : (((0 * 256 + a2) * 256 + a1) * 256 + a0) ≡ address a2 a1 a0 = omega arith in
    ap (λ x. (transfer (transfer (transfer x a2).0 a1).0 a0).0) (command_lem b c present idle h)
    ∙ ap (λ x. (transfer (transfer x a1).0 a0).0)
        (address_lem b1 c a2 present refl h (omega arith) (omega arith) h2)
    ∙ ap (λ x. (transfer x a0).0)
        (address_lem b2 c a1 present refl h (omega arith) (omega arith) h1)
    ∙ address_lem b3 c a0 present refl h (omega arith) (omega arith) h0
    ∙ ap (λ t. begun b c t) total
