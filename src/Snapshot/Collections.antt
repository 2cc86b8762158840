-- ===== src/Snapshot/Collections.antt =====
-- snapshot.rs: booleans, enums, options and regions of bytes.
use emulator_app.Base.{
  ℕ, ◌-◌, ◌^◌, ◌<◌, ◌≡◌, refl, ap, sym, ◌∙◌, min, Bool, ◌!=◌, if◌then◌else◌, arith, Option, some,
  none, length,
}
use emulator_app.Snapshot.Codec.{
  Why, Reader, Visitor, writer, reader, error, fail, or_else, loading, snap_bool, snap_usize,
  snap_enum, to_le_bytes, snap_le,
}
use emulator_app.Snapshot.Unread.{advance}
use emulator_app.Snapshot.Lawful.{Lawful, snap_le-Lawful}
use emulator_app.Snapshot.Fields.{mapped-Lawful}

abbrev pub flag_byte : Bool → ℕ
flag_byte b = if b then 1 else 0

pub snap_bool-Lawful : Lawful snap_bool (λ b. Unit) (λ b. to_le_bytes 1 (flag_byte b))
unfolding snap_bool
snap_bool-Lawful =
    mapped-Lawful (snap_le-Lawful 1) (λ b. Unit) flag_byte (λ b. b != 0) (λ x fits. ground arith)
      (λ x fits. ground arith)

pub snap_usize-Lawful :
    Lawful snap_usize (λ x. x < 2 ^ 32) (λ x. to_le_bytes 4 (min x (2 ^ 32 - 1)))
unfolding snap_usize
snap_usize-Lawful =
    mapped-Lawful (snap_le-Lawful 4) (λ x. x < 2 ^ 32) (λ x. min x (2 ^ 32 - 1)) (λ x. x)
      (λ x fits. omega arith) (λ x fits. omega arith)

pub error-fail :
    (v : Visitor) (first second : Why) → error v ≡ some first → error (fail v second) ≡ some first
error-fail (writer out) first second failed = failed
error-fail (reader r) first second failed = ap (λ e. or_else e second) failed

pub fail-stuck :
    (r : Reader) (first second : Why) → r.err ≡ some first → fail (reader r) second ≡ reader r
fail-stuck r first second failed =
    ap (λ e. reader (record r { err = or_else e second })) failed
    ∙ ap (λ e. reader (record r { err = e })) (sym failed)

-- What `snap_enum` does with the discriminant that it read.
module _ {A : Type 0} where
  abbrev settle : A → Option A → Visitor → Visitor × A
  settle slot known v =
      if loading v
      then elim known [ some val ↦ (v, val) | none ↦ (fail v Why.out_of_range, slot) ]
      else (v, slot)

  settle-stuck :
      (slot : A) (known : Option A) (r : Reader) (why : Why)
      → r.err ≡ some why
      → (settle slot known (reader r)).0 ≡ reader r
  settle-stuck slot (some val) r why failed = refl
  settle-stuck slot none r why failed = fail-stuck r why Why.out_of_range failed

  settle-error :
      (slot : A) (known : Option A) (v : Visitor) (why : Why)
      → error v ≡ some why
      → error (settle slot known v).0 ≡ some why
  settle-error slot known (writer out) why failed = failed
  settle-error slot (some val) (reader r) why failed = failed
  settle-error slot none (reader r) why failed = error-fail (reader r) why Why.out_of_range failed

-- A `snap_enum` whose two functions are inverse.
module _ {A : Type 0} (to_index : A → ℕ) (from_index : ℕ → Option A)
    (inverse : (x : A) → from_index (to_index x) ≡ some x)
    (small : (x : A) → to_index x < 256) where
  byte : Lawful (snap_le 1) (λ x. x < 256 ^ 1) (to_le_bytes 1)
  byte = snap_le-Lawful 1

  index_fits : (x : A) → to_index x < 256 ^ 1
  index_fits x = omega (arith, small x)

  pub snap_enum-Lawful :
      Lawful (snap_enum to_index from_index) (λ x. Unit) (λ x. to_le_bytes 1 (to_index x))
  unfolding snap_enum
  snap_enum-Lawful = record {
    writes = λ out x fits.
        ap (λ t. settle x (from_index t.1) t.0) (byte.writes out (to_index x) (index_fits x));
    reads = λ r x y rest fits fits' u.
        ap (λ t. settle y (from_index t.1) t.0)
          (byte.reads r (to_index x) (to_index y) rest (index_fits x) (index_fits y) u)
        ∙ ap (λ known. settle y known (reader (advance (length (to_le_bytes 1 (to_index x))) r)))
            (inverse x);
    stuck = λ r y why failed.
        let known = from_index (snap_le 1 (reader r) (to_index y)).1 in
        ap (λ v. (settle y known v).0) (byte.stuck r (to_index y) why failed)
        ∙ settle-stuck y known r why failed;
    cut = λ r x y k fits fits' short u.
        settle-error y (from_index (snap_le 1 (reader r) (to_index y)).1)
          (snap_le 1 (reader r) (to_index y)).0 Why.stream_ended
          (byte.cut r (to_index x) (to_index y) k (index_fits x) (index_fits y) short u);
  }
