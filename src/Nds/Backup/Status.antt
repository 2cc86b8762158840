-- ===== src/Nds/Backup/Status.antt =====
-- The status register of nds/backup.rs after a program or an erase.
use emulator_app.Base.{ℕ, ◌<◌, ◌≡◌, true, arith, [], ◌∷◌, length}
use emulator_app.Nds.Backup.{NdsBackup, deselect, latch_command, read_status, respond, transfer}
use emulator_app.Nds.Backup.Frames.{clock_all, outputs}

-- When a frame that programmed or erased is released, a status poll that follows sees the chip busy
-- for two reads and ready from then on, with the write-enable latch clear in all of them.
pub outputs-status :
    (b : NdsBackup) (x y z w : ℕ)
    → 0 < length b.cells
    → b.launched ≡ true
    → outputs (clock_all (deselect b) (0x05 ∷ [])) (x ∷ y ∷ z ∷ w ∷ []) ≡ 1 ∷ 1 ∷ 0 ∷ 0 ∷ []
unfolding outputs clock_all deselect transfer respond read_status latch_command
outputs-status b x y z w present launched = ground arith
