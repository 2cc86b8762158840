-- ===== src/Nds/Backup/Cells.antt =====
-- What one program and one erase of nds/backup.rs do to each cell.
use native.Mathlib.Nat.{mod-lt}
use emulator_app.Base.{
  ℕ, zero, suc, ◌+◌, ◌%◌, ◌≤◌, ◌<◌, ◌≡◌, refl, ap, ◌∙◌, Bool, ◌&&◌, arith, ltb, leb, ◌==◌,
  if◌then◌else◌, bit_and, length, get_or, List, [], ◌∷◌, length-set, get_or-set,
}
use emulator_app.Base.Division.{uncarried}
use emulator_app.Nds.Backup.{Store, program_at, erase_at, erase_range}

pub length-program_at :
    (s : Store) (addr val : ℕ) (erased : Bool)
    → length (program_at s addr val erased).bytes ≡ length s.bytes
unfolding program_at
length-program_at s addr val erased =
    let i = addr % length s.bytes in
    ground
      (arith, length-set s.bytes i val, length-set s.bytes i (bit_and (get_or s.bytes i 0xFF) val))

pub get_or-program_at :
    (s : Store) (addr val : ℕ) (erased : Bool) (j : ℕ)
    → 0 < length s.bytes
    → get_or (program_at s addr val erased).bytes j 0xFF ≡ (
        if addr % length s.bytes == j
        then if erased then val else bit_and (get_or s.bytes j 0xFF) val
        else get_or s.bytes j 0xFF)
unfolding program_at
get_or-program_at s addr val erased j pos =
    let i = addr % length s.bytes in
    ground (
      arith,
      mod-lt addr pos,
      get_or-set s.bytes i j val 0xFF,
      get_or-set s.bytes i j (bit_and (get_or s.bytes i 0xFF) val) 0xFF,
    )

length-erase_at : (s : Store) (i : ℕ) → length (erase_at s i).bytes ≡ length s.bytes
unfolding erase_at
length-erase_at s i = ground (arith, length-set s.bytes i 0xFF)

get_or-erase_at :
    (s : Store) (i j : ℕ)
    → get_or (erase_at s i).bytes j 0xFF ≡ (if i == j then 0xFF else get_or s.bytes j 0xFF)
unfolding erase_at
get_or-erase_at s i j = ground (arith, get_or-set s.bytes i j 0xFF 0xFF, past s.bytes j)
  where
    past : (xs : List ℕ) (k : ℕ) → length xs ≤ k → get_or xs k 0xFF ≡ 0xFF
    past [] k h = refl
    past (x ∷ xs) zero h = absurd (omega arith)
    past (x ∷ xs) (suc k) h = past xs k (omega arith)

pub length-erase_range :
    (s : Store) (start n : ℕ) → length (erase_range s start n).bytes ≡ length s.bytes
unfolding erase_range
length-erase_range s start zero = refl
length-erase_range s start (suc n) =
    length-erase_range (erase_at s (start % length s.bytes)) (start + 1) n
    ∙ length-erase_at s (start % length s.bytes)

-- A range that does not run past the end of the chip.
pub get_or-erase_range :
    (n : ℕ) (s : Store) (start size j : ℕ)
    → length s.bytes ≡ size
    → 0 < size
    → start % size + n ≤ size
    → get_or (erase_range s start n).bytes j 0xFF
      ≡ (if leb (start % size) j && ltb j (start % size + n) then 0xFF else get_or s.bytes j 0xFF)
unfolding erase_range
get_or-erase_range zero s start size j e pos h = ground arith
get_or-erase_range (suc zero) s start size j e pos h =
    ap (λ k. get_or (erase_at s (start % k)).bytes j 0xFF) e
    ∙ ground (arith, get_or-erase_at s (start % size) j)
get_or-erase_range (suc (suc n)) s start size j e pos h =
    let next : (start + 1) % size ≡ start % size + 1 =
      (uncarried size start 1 pos (omega arith)).1 in
    ap (λ k. get_or (erase_range (erase_at s (start % k)) (start + 1) (suc n)).bytes j 0xFF) e
    ∙ get_or-erase_range (suc n) (erase_at s (start % size)) (start + 1) size j
        (length-erase_at s (start % size) ∙ e) pos (omega (arith, next))
    ∙ rw next (ground (arith, get_or-erase_at s (start % size) j))
