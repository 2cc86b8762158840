-- ===== src/Nds/Backup/Sector.antt =====
-- Page and sector erases of nds/backup.rs.
use emulator_app.Base.{
  ℕ, ◌+◌, ◌-◌, ◌*◌, ◌/◌, ◌%◌, ◌^◌, ◌≤◌, ◌<◌, ◌≡◌, refl, ◌∙◌, ap, Bool, true, false, ◌&&◌, ◌||◌,
  arith, ltb, leb, ◌==◌, if◌then◌else◌, [], ◌∷◌, none, some, length, get_or,
}
use emulator_app.Nds.Backup.{
  NdsBackup, count_command, deselect, latch_command, erase_data, respond, transfer, store_of,
  erase_range,
}
use emulator_app.Base.Division.{div_mod_unique}
use emulator_app.Nds.Backup.Cells.{get_or-erase_range}
use emulator_app.Nds.Backup.Frames.{clock_all, frame, shift_in_lem, address}
use emulator_app.Nds.Backup.Stream.{write_enabled, write_enabled_lem}

abbrev pub erases : ℕ → Bool
erases c = c == 0xDB || c == 0xD8

-- The page of PE and the sector of SE.
abbrev pub span_of : ℕ → ℕ
span_of c = if c == 0xDB then 256 else 65536

command_lem :
    (b : NdsBackup) (c : ℕ)
    → 0 < length b.cells
    → b.cmd ≡ none
    → erases c ≡ true
    → (transfer b c).0 ≡ record b {
      cmd = some c;
      cmd_counts = count_command b c;
      idx = 0;
      addr = 0;
      page_erased = false;
      last_out = 0;
    }
unfolding transfer respond latch_command
command_lem b c present idle h = ground arith

address_lem :
    (b : NdsBackup) (c val : ℕ)
    → 0 < length b.cells
    → b.cmd ≡ some c
    → erases c ≡ true
    → b.idx < 2
    → b.addr < 2 ^ 24
    → val < 256
    → (transfer b val).0 ≡ record b { idx = b.idx + 1; addr = b.addr * 256 + val; last_out = 0 }
unfolding transfer respond erase_data
address_lem b c val present busy h i a v = ground (arith, shift_in_lem b.addr val a v)

erase_lem :
    (b : NdsBackup) (c val : ℕ)
    → 0 < length b.cells
    → b.cmd ≡ some c
    → erases c ≡ true
    → b.idx ≡ 2
    → b.wel ≡ true
    → b.addr < 2 ^ 24
    → val < 256
    → let at = b.addr * 256 + val in
      (transfer b val).0.cells ≡ (erase_range (store_of b) (at - at % span_of c) (span_of c)).bytes
unfolding transfer respond erase_data
erase_lem b c val present busy h i on a v = ground (arith, shift_in_lem b.addr val a v)

-- An aligned block that begins in the chip ends in it.
aligned : (c at size : ℕ) → at < size → size % 65536 ≡ 0 → (at - at % span_of c) + span_of c ≤ size
aligned c at size h whole = ground arith

block :
    (c at j x y : ℕ)
    → let start = at - at % span_of c in
      (if leb start j && ltb j (start + span_of c) then x else y)
      ≡ (if at / span_of c == j / span_of c then x else y)
block c at j x y = ground arith

-- From an idle chip of whole sectors, a WREN frame and then a PE or SE frame at an address inside it
-- set every cell of the 256-byte page or 64-KiB sector that holds the address to 0xFF, and leave
-- every other cell alone.
pub frame-erase :
    (b : NdsBackup) (c a2 a1 a0 j : ℕ)
    → length b.cells % 65536 ≡ 0
    → b.cmd ≡ none
    → b.launched ≡ false
    → erases c ≡ true
    → a2 < 256
    → a1 < 256
    → a0 < 256
    → let at = address a2 a1 a0 in
      at < length b.cells
      → get_or (frame (write_enabled b) (c ∷ a2 ∷ a1 ∷ a0 ∷ [])).cells j 0xFF
        ≡ (if at / span_of c == j / span_of c then 0xFF else get_or b.cells j 0xFF)
unfolding frame clock_all deselect
frame-erase b c a2 a1 a0 j whole idle quiet er h2 h1 h0 inside =
    let on = write_enabled b in
    let at = address a2 a1 a0 in
    let w = write_enabled_lem b (omega arith) idle quiet in
    let now : 0 < length on.cells = rw (w.0) (omega arith) in
    let b1 : NdsBackup = record on {
      cmd = some c;
      cmd_counts = count_command on c;
      idx = 0;
      addr = 0;
      page_erased = false;
      last_out = 0;
    } in
    let b2 : NdsBackup = record b1 { idx = 0 + 1; addr = 0 * 256 + a2 } in
    let b3 : NdsBackup = record b1 { idx = 0 + 1 + 1; addr = (0 * 256 + a2) * 256 + a1 } in
    let total : (((0 * 256 + a2) * 256 + a1) * 256 + a0) ≡ at = omega arith in
    let span = span_of c in
    let start = at - at % span in
    let fits : start + span ≤ length b.cells = aligned c at (length b.cells) inside whole in
    let size = length b.cells in
    let place : start % size ≡ start =
      (div_mod_unique size 0 start start (omega arith) (ground arith)).1 in
    ap (λ x. get_or (transfer (transfer (transfer x a2).0 a1).0 a0).0.cells j 0xFF)
      (command_lem on c now w.2 er)
    ∙ ap (λ x. get_or (transfer (transfer x a1).0 a0).0.cells j 0xFF)
        (address_lem b1 c a2 now refl er (omega arith) (omega arith) h2)
    ∙ ap (λ x. get_or (transfer x a0).0.cells j 0xFF)
        (address_lem b2 c a1 now refl er (omega arith) (omega arith) h1)
    ∙ ap (λ xs. get_or xs j 0xFF) (erase_lem b3 c a0 now refl er refl w.1 (omega arith) h0)
    ∙ ap (λ x. get_or (erase_range (store_of b1) (x - x % span) span).bytes j 0xFF) total
    ∙ get_or-erase_range span (store_of b1) start size j (ap length w.0) (omega arith)
        (rw place fits)
    ∙ ap (λ x. if leb x j && ltb j (x + span) then 0xFF else get_or on.cells j 0xFF) place
    ∙ ap (λ xs. if leb start j && ltb j (start + span) then 0xFF else get_or xs j 0xFF) w.0
    ∙ block c at j 0xFF (get_or b.cells j 0xFF)
