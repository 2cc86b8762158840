-- ===== src/Snapshot/Lawful.antt =====
-- What a traversal of snapshot.rs promises, and the integers.
use emulator_app.Base.{
  ℕ, zero, suc, ◌*◌, ◌/◌, ◌^◌, ◌<◌, ◌≡◌, refl, ap, sym, ◌∙◌, arith, List, ◌++◌, some, length, take,
  length-take, from_le_bytes,
}
use emulator_app.Snapshot.Codec.{
  Why, Reader, Visitor, writer, reader, visit_raw, error, Snap, to_le_bytes, snap_le,
}
use emulator_app.Snapshot.Unread.{Unread, advance, read_raw-Unread, read_raw-short, visit_raw-stuck}

-- A traversal with a fixed layout: values that fit are written as `encode` says, what was written is
-- read back over any value that fits, a failed stream stays as it is, and a stream cut short fails.
pub record Lawful {A : Type 0} (snap : Snap A) (Fits : A → Type 0) (encode : A → List ℕ)
    : Type 0 where
  pub writes : (out : List ℕ) (x : A) → Fits x → snap (writer out) x ≡ (writer (out ++ encode x), x)
  pub reads :
      (r : Reader) (x y : A) (rest : List ℕ)
      → Fits x
      → Fits y
      → Unread r (encode x ++ rest)
      → snap (reader r) y ≡ (reader (advance (length (encode x)) r), x)
  pub stuck : (r : Reader) (y : A) (why : Why) → r.err ≡ some why → (snap (reader r) y).0 ≡ reader r
  pub cut :
      (r : Reader) (x y : A) (k : ℕ)
      → Fits x
      → Fits y
      → k < length (encode x)
      → Unread r (take k (encode x))
      → error (snap (reader r) y).0 ≡ some Why.stream_ended

-- A visitor that has failed stays failed.
pub stuck_after :
    {A : Type 0} {snap : Snap A} {Fits : A → Type 0} {encode : A → List ℕ}
    → Lawful snap Fits encode
    → (v : Visitor) (y : A) (why : Why) → error v ≡ some why
    → error (snap v y).0 ≡ some why
stuck_after law (writer out) y why failed = absurd (ground arith)
stuck_after law (reader r) y why failed = ap error (law.stuck r y why failed) ∙ failed

length-to_le_bytes : (n x : ℕ) → length (to_le_bytes n x) ≡ n
unfolding to_le_bytes
length-to_le_bytes zero x = refl
length-to_le_bytes (suc n) x = ap suc (length-to_le_bytes n (x / 256))

to_le_bytes-from : (n x : ℕ) → x < 256 ^ n → from_le_bytes (to_le_bytes n x) ≡ x
unfolding to_le_bytes
to_le_bytes-from zero x h = omega arith
to_le_bytes-from (suc n) x h =
    let scale : 256 ^ suc n ≡ 256 * 256 ^ n = omega arith in
    omega (arith, to_le_bytes-from n (x / 256) (omega arith))

pub snap_le-Lawful : (n : ℕ) → Lawful (snap_le n) (λ x. x < 256 ^ n) (to_le_bytes n)
unfolding snap_le visit_raw
snap_le-Lawful n = record {
  writes = λ out x fits. ap (λ t. (writer (out ++ to_le_bytes n x), t)) (to_le_bytes-from n x fits);
  reads = λ r x y rest fits fits' u.
      ap (λ t. (t.0, from_le_bytes t.1))
        (read_raw-Unread r (to_le_bytes n y) (to_le_bytes n x) rest u
          (length-to_le_bytes n y ∙ sym (length-to_le_bytes n x)))
      ∙ ap (λ t. (reader (advance (length (to_le_bytes n x)) r), t)) (to_le_bytes-from n x fits);
  stuck = λ r y why failed. ap (λ t. t.0) (visit_raw-stuck r (to_le_bytes n y) why failed);
  cut = λ r x y k fits fits' short u.
      read_raw-short r (to_le_bytes n y) (take k (to_le_bytes n x)) u (
        omega (
          arith,
          short,
          length-take k (to_le_bytes n x),
          length-to_le_bytes n x,
          length-to_le_bytes n y,
        ));
}
