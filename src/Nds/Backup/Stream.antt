-- ===== src/Nds/Backup/Stream.antt =====
-- Data streams of nds/backup.rs: page programs, reads, and one after the other.
use emulator_app.Base.{
  ℕ, zero, suc, ◌+◌, ◌-◌, ◌%◌, ◌^◌, ◌≤◌, ◌<◌, ◌≡◌, refl, ◌∙◌, ap, true, false, ◌&&◌, ◌||◌, arith,
  ltb, leb, ◌==◌, if◌then◌else◌, List, [], ◌∷◌, none, some, length, get_or, bit_and, get_or-later,
}
use emulator_app.Base.Division.{div_mod_unique}
use emulator_app.Nds.Backup.{
  NdsBackup, deselect, latch_command, read_at, read_data, program_data, respond, transfer, store_of,
  program_at,
}
use emulator_app.Nds.Backup.Cells.{length-program_at, get_or-program_at}
use emulator_app.Nds.Backup.Frames.{
  clock_all, outputs, frame, clock_all-append, clock_all-begun, takes_address, begun, address,
}

-- A chip inside a page program, past the address.
record Programming (b : NdsBackup) (c : ℕ) : Type 0 where
  command : b.cmd ≡ some c
  programs : (c == 0x0A || c == 0x02) ≡ true
  enabled : b.wel ≡ true
  past : 3 ≤ b.idx
  present : 0 < length b.cells

record Wrote (b : NdsBackup) (c v : ℕ) (a : NdsBackup) : Type 0 where
  goes_on : Programming a c
  next : b.addr % 256 + 1 < 256 → a.addr ≡ b.addr + 1
  index : a.idx ≡ b.idx + 1
  launches : a.launched ≡ true
  size : length a.cells ≡ length b.cells
  cells :
      (j : ℕ)
      → get_or a.cells j 0xFF ≡ (
          if b.addr == j
          then if c == 0x0A then v else bit_and (get_or b.cells j 0xFF) v
          else get_or b.cells j 0xFF)

program_one :
    (b : NdsBackup) (c v : ℕ)
    → Programming b c
    → b.idx + 1 < 2 ^ 32
    → b.addr < length b.cells
    → length b.cells ≤ 2 ^ 31
    → Wrote b c v (transfer b v).0
unfolding transfer respond program_data
program_one b c v p i a size =
    let erased = c == 0x0A in
    let stored : (transfer b v).0.cells ≡ (program_at (store_of b) b.addr v erased).bytes =
      ground arith in
    let place : b.addr % length b.cells ≡ b.addr =
      (div_mod_unique (length b.cells) 0 b.addr b.addr (omega arith) a).1 in
    let kept = length-program_at (store_of b) b.addr v erased in
    record {
      goes_on = ground (arith, kept);
      next = λ within. ground arith;
      index = ground arith;
      launches = ground arith;
      size = ground (arith, kept);
      cells = λ j.
          ap (λ xs. get_or xs j 0xFF) stored
          ∙ get_or-program_at (store_of b) b.addr v erased j p.present
          ∙ ap
              (λ k.
                if k == j
                then if erased then v else bit_and (get_or b.cells j 0xFF) v
                else get_or b.cells j 0xFF)
              place;
    }

-- What a page program leaves of a cell that held `old`.
abbrev pub programmed : ℕ → ℕ → ℕ → ℕ
programmed c old v = if c == 0x0A then v else bit_and old v

stream :
    (b : NdsBackup) (c : ℕ) (vs : List ℕ) (j : ℕ)
    → Programming b c
    → b.idx + length vs < 2 ^ 32
    → b.addr % 256 + length vs ≤ 256
    → b.addr + length vs ≤ length b.cells
    → length b.cells ≤ 2 ^ 31
    → get_or (clock_all b vs).cells j 0xFF ≡ (
        if leb b.addr j && ltb j (b.addr + length vs)
        then programmed c (get_or b.cells j 0xFF) (get_or vs (j - b.addr) 0)
        else get_or b.cells j 0xFF)
unfolding clock_all
stream b c [] j p i page fits size = ground arith
stream b c (v ∷ []) j p i page fits size =
    let w = program_one b c v p (omega arith) (omega arith) size in w.cells j ∙ ground arith
stream b c (v ∷ w ∷ vs) j p i page fits size =
    let o = program_one b c v p (omega arith) (omega arith) size in
    let at = o.next (omega arith) in
    let rest =
      stream (transfer b v).0 c (w ∷ vs) j o.goes_on (omega (arith, o.index)) (rw at (omega arith))
        (omega (arith, at, o.size)) (omega (arith, o.size)) in
    rest ∙ rw at (ground (arith, o.cells j, get_or-later v (w ∷ vs) b.addr j 0))

-- The frame that sets the write-enable latch.
abbrev pub write_enabled : NdsBackup → NdsBackup
write_enabled b = frame b (0x06 ∷ [])

pub write_enabled_lem :
    (b : NdsBackup)
    → 0 < length b.cells
    → b.cmd ≡ none
    → b.launched ≡ false
    → ((write_enabled b).cells ≡ b.cells)
      × ((write_enabled b).wel ≡ true)
      × ((write_enabled b).cmd ≡ none)
unfolding frame clock_all transfer respond latch_command deselect
write_enabled_lem b present idle quiet = ground arith

-- From an idle chip of at most 2^31 cells, a WREN frame and then a PW or PP frame whose data stays in its page write the
-- data at its address, PW by overwriting and PP by clearing bits, and leave every other cell alone.
pub frame-program :
    (b : NdsBackup) (c a2 a1 a0 : ℕ) (vs : List ℕ) (j : ℕ)
    → 0 < length b.cells
    → length b.cells ≤ 2 ^ 31
    → b.cmd ≡ none
    → b.launched ≡ false
    → (c == 0x0A || c == 0x02) ≡ true
    → a2 < 256
    → a1 < 256
    → a0 < 256
    → a0 + length vs ≤ 256
    → let at = address a2 a1 a0 in
      at + length vs ≤ length b.cells
      → get_or (frame (write_enabled b) (c ∷ a2 ∷ a1 ∷ a0 ∷ vs)).cells j 0xFF ≡ (
          if leb at j && ltb j (at + length vs)
          then programmed c (get_or b.cells j 0xFF) (get_or vs (j - at) 0)
          else get_or b.cells j 0xFF)
unfolding frame deselect
frame-program b c a2 a1 a0 vs j present size idle quiet prog h2 h1 h0 page fits =
    let on = write_enabled b in
    let at = address a2 a1 a0 in
    let w = write_enabled_lem b present idle quiet in
    let now : 0 < length on.cells = rw (w.0) present in
    let takes : takes_address c ≡ true = ground arith in
    let b1 = begun on c at in
    ap (λ x. get_or x.cells j 0xFF)
      (clock_all-append on (c ∷ a2 ∷ a1 ∷ a0 ∷ []) vs
        ∙ ap (λ x. clock_all x vs) (clock_all-begun on c a2 a1 a0 now w.2 takes h2 h1 h0))
    ∙ stream b1 c vs j
        (record {
          command = refl;
          programs = prog;
          enabled = w.1;
          past = omega arith;
          present = now;
        })
        (omega arith) (omega arith) (rw (w.0) fits) (rw (w.0) size)
    ∙ ap
        (λ x.
          if leb at j && ltb j (at + length vs)
          then programmed c (get_or x j 0xFF) (get_or vs (j - at) 0)
          else get_or x j 0xFF)
        w.0

read_one :
    (b : NdsBackup) (v : ℕ)
    → b.cmd ≡ some 0x03
    → 3 ≤ b.idx
    → b.idx + 1 < 2 ^ 32
    → b.addr < length b.cells
    → length b.cells ≤ 2 ^ 31
    → (transfer b v) ≡ (
      record b { idx = b.idx + 1; addr = b.addr + 1; last_out = get_or b.cells b.addr 0xFF },
      get_or b.cells b.addr 0xFF,
    )
unfolding transfer respond read_data read_at
read_one b v busy past i a size =
    let place : b.addr % length b.cells ≡ b.addr =
      (div_mod_unique (length b.cells) 0 b.addr b.addr (omega arith) a).1 in
    ground (arith, place)

read_all :
    (b : NdsBackup) (vs : List ℕ) (k : ℕ)
    → b.cmd ≡ some 0x03
    → 3 ≤ b.idx
    → b.idx + length vs < 2 ^ 32
    → b.addr + length vs ≤ length b.cells
    → length b.cells ≤ 2 ^ 31
    → k < length vs
    → get_or (outputs b vs) k 0 ≡ get_or b.cells (b.addr + k) 0xFF
unfolding outputs
read_all b [] k busy past i fits size h = absurd (omega arith)
read_all b (v ∷ vs) zero busy past i fits size h =
    let here : b.addr ≡ b.addr + 0 = omega arith in
    ap (λ r. r.1) (read_one b v busy past (omega arith) (omega arith) size)
    ∙ ap (λ k. get_or b.cells k 0xFF) here
read_all b (v ∷ vs) (suc k) busy past i fits size h =
    let o = get_or b.cells b.addr 0xFF in
    let b1 : NdsBackup = record b { idx = b.idx + 1; addr = b.addr + 1; last_out = o } in
    let further : b.addr + 1 + k ≡ b.addr + suc k = omega arith in
    ap (λ r. get_or (outputs r.0 vs) k 0) (read_one b v busy past (omega arith) (omega arith) size)
    ∙ read_all b1 vs k busy (omega arith) (omega arith) (omega arith) size (omega arith)
    ∙ ap (λ k. get_or b.cells k 0xFF) further

-- On an idle chip of at most 2^31 cells, after a READ command and its address, each further byte clocked, whatever it is, is answered with
-- the next cell, as long as the cells last.
pub outputs-read :
    (b : NdsBackup) (a2 a1 a0 : ℕ) (vs : List ℕ) (k : ℕ)
    → 0 < length b.cells
    → length b.cells ≤ 2 ^ 31
    → b.cmd ≡ none
    → a2 < 256
    → a1 < 256
    → a0 < 256
    → address a2 a1 a0 + length vs ≤ length b.cells
    → k < length vs
    → get_or (outputs (clock_all b (0x03 ∷ a2 ∷ a1 ∷ a0 ∷ [])) vs) k 0
      ≡ get_or b.cells (address a2 a1 a0 + k) 0xFF
outputs-read b a2 a1 a0 vs k present size idle h2 h1 h0 fits h =
    ap (λ x. get_or (outputs x vs) k 0) (clock_all-begun b 0x03 a2 a1 a0 present idle refl h2 h1 h0)
    ∙ read_all (begun b 0x03 (address a2 a1 a0)) vs k refl (omega arith) (omega arith) fits size h
