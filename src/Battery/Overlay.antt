-- ===== src/Battery/Overlay.antt =====
-- A battery file of rom.rs never resizes the buffer that it is read into.
use emulator_app.Base.{
  ℕ, zero, suc, ◌<◌, ◌≡◌, refl, ap, true, List, [], ◌∷◌, length, take, get_or, ltb, if◌then◌else◌,
  arith,
}
use emulator_app.Battery.{
  BatteryFile, refused, missing, unopened, broken, present, ok, overlay, read_battery_file,
}

length-overlay : (xs dest : List ℕ) → length (overlay xs dest) ≡ length dest
unfolding overlay
length-overlay [] dest = refl
length-overlay (x ∷ xs) [] = refl
length-overlay (x ∷ xs) (d ∷ ds) = ap suc (length-overlay xs ds)

pub overlay_all : (xs dest : List ℕ) → length xs ≡ length dest → overlay xs dest ≡ xs
unfolding overlay
overlay_all [] [] h = refl
overlay_all [] (d ∷ ds) h = absurd (omega arith)
overlay_all (x ∷ xs) [] h = absurd (omega arith)
overlay_all (x ∷ xs) (d ∷ ds) h = ap (λ l. x ∷ l) (overlay_all xs ds (omega arith))

get_or-overlay :
    (xs dest : List ℕ) (i : ℕ)
    → i < length dest
    → get_or (overlay (take (length dest) xs) dest) i 0xFF
      ≡ (if ltb i (length xs) then get_or xs i 0xFF else get_or dest i 0xFF)
unfolding overlay
get_or-overlay [] [] i h = ground arith
get_or-overlay [] (d ∷ ds) i h = ground arith
get_or-overlay (x ∷ xs) [] i h = absurd (omega arith)
get_or-overlay (x ∷ xs) (d ∷ ds) zero h = ground arith
get_or-overlay (x ∷ xs) (d ∷ ds) (suc i) h = ground (arith, get_or-overlay xs ds i (omega arith))

-- Whatever the file holds, reading it leaves the buffer at its length.
pub length-read_battery_file :
    (f : BatteryFile) (dest : List ℕ) → length (read_battery_file f dest).1 ≡ length dest
unfolding read_battery_file
length-read_battery_file refused dest = refl
length-read_battery_file missing dest = refl
length-read_battery_file unopened dest = refl
length-read_battery_file (broken bytes) dest = length-overlay (take (length dest) bytes) dest
length-read_battery_file (present bytes) dest = length-overlay (take (length dest) bytes) dest

-- A file that can be read to its end gives, at each place of the buffer, its own byte, and past its
-- end the byte that was there; the buffer keeps its length.
pub read_battery_file-present :
    (bytes dest : List ℕ) (i : ℕ)
    → i < length dest
    → ((read_battery_file (present bytes) dest).0 ≡ ok true)
      × (length (read_battery_file (present bytes) dest).1 ≡ length dest)
      × (get_or (read_battery_file (present bytes) dest).1 i 0xFF
          ≡ (if ltb i (length bytes) then get_or bytes i 0xFF else get_or dest i 0xFF))
unfolding read_battery_file
read_battery_file-present bytes dest i h =
    (refl, length-overlay (take (length dest) bytes) dest, get_or-overlay bytes dest i h)
