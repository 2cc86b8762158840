-- ===== src/Nds/Backup/Gate.antt =====
-- The write-enable latch of nds/backup.rs guards the cells.
use emulator_app.Base.{
  ℕ, ◌≡◌, refl, ◌∙◌, Bool, false, arith, ◌==◌, List, [], ◌∷◌, Option, none, some,
}
use emulator_app.Nds.Backup.{
  NdsBackup, deselect, latch_command, read_status, read_id, read_data, program_data, erase_data,
  respond, transfer,
}

-- What the driver does on the bus.
pub data BusEvent : Type 0 where
  clock : ℕ → BusEvent
  release : BusEvent

unfoldable pub act : NdsBackup → BusEvent → NdsBackup
act b (clock val) = (transfer b val).0
act b release = deselect b

unfoldable pub run : NdsBackup → List BusEvent → NdsBackup
run b [] = b
run b (e ∷ es) = run (act b e) es

-- A byte that the chip would take for WREN: the first of its frame.
abbrev pub enables : Option ℕ → BusEvent → Bool
enables none (clock val) = val == 0x06
enables (some cmd) (clock val) = false
enables c release = false

-- No event of the run enables writing.
abbrev pub NeverEnables : NdsBackup → List BusEvent → Type 0
NeverEnables b [] = Unit
NeverEnables b (e ∷ es) = (enables b.cmd e ≡ false) × NeverEnables (act b e) es

record Kept (b c : NdsBackup) : Type 0 where
  cells_kept : c.cells ≡ b.cells
  dirty_kept : c.dirty ≡ b.dirty
  still_off : c.wel ≡ false

respond-Kept :
    (c : Option ℕ) (b : NdsBackup) (val : ℕ)
    → b.wel ≡ false
    → enables c (clock val) ≡ false
    → Kept b (respond c b val).0
unfolding respond latch_command read_status read_id read_data program_data erase_data
respond-Kept none b val off h = ground arith
respond-Kept (some cmd) b val off h = ground arith

act-Kept :
    (b : NdsBackup) (e : BusEvent) → b.wel ≡ false → enables b.cmd e ≡ false → Kept b (act b e)
unfolding act transfer deselect
act-Kept b (clock val) off h = ground (arith, respond-Kept b.cmd b val off h)
act-Kept b release off h = ground arith

run-Kept :
    (b : NdsBackup) (es : List BusEvent) → b.wel ≡ false → NeverEnables b es → Kept b (run b es)
unfolding run
run-Kept b [] off h = record { cells_kept = refl; dirty_kept = refl; still_off = off }
run-Kept b (e ∷ es) off h =
    let one = act-Kept b e off h.0 in
    let rest = run-Kept (act b e) es one.still_off h.1 in
    record {
      cells_kept = rest.cells_kept ∙ one.cells_kept;
      dirty_kept = rest.dirty_kept ∙ one.dirty_kept;
      still_off = rest.still_off;
    }

-- While writing is not enabled, no run of bus events in which no frame begins with WREN changes a
-- cell or the dirty flag, whatever program and erase commands it holds.
pub run-write_protected :
    (b : NdsBackup) (es : List BusEvent)
    → b.wel ≡ false
    → NeverEnables b es
    → ((run b es).cells ≡ b.cells) × ((run b es).dirty ≡ b.dirty)
run-write_protected b es off h = let k = run-Kept b es off h in (k.cells_kept, k.dirty_kept)
