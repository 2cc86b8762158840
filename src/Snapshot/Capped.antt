-- ===== src/Snapshot/Capped.antt =====
-- snapshot.rs: vectors whose length stands in the file.
use emulator_app.Base.{
  ℕ, suc, ◌≤◌, ◌<◌, ◌≡◌, ◌∙◌, ◌⊎◌, inl, inr, refl, ap, ltb, Bool-cases, arith, List, [], ◌∷◌,
  length, replicate, length-replicate,
}
use emulator_app.Snapshot.Codec.{
  Why, Reader, Visitor, reader, error, Snap, snap_usize, snap_each, snap_capped_vec, snap_le,
  visit_raw, or_else,
}

module _ {A : Type 0} (snap : Snap A) where
  length-snap_each : (v : Visitor) (xs : List A) → length (snap_each snap v xs).1 ≡ length xs
  unfolding snap_each
  length-snap_each v [] = refl
  length-snap_each v (x ∷ xs) = ap suc (length-snap_each (snap v x).0 xs)

  -- Whatever a stream holds: either the length that is read from it is within the cap, the cap itself
  -- included, and the vector that is loaded has exactly that length; or it is over the cap, and then the
  -- vector is as it was, and the stream has failed, with that as the reason if nothing failed before.
  pub snap_capped_vec-length :
      (default : A) (cap : ℕ) (r : Reader) (live : List A)
      → let got = snap_usize (reader r) (length live) in
        let after = snap_capped_vec snap default cap (reader r) live in
        ((got.1 ≤ cap) × (length after.1 ≡ got.1))
        ⊎ ((cap < got.1) × (after.1 ≡ live) × (error after.0 ≡ or_else (error got.0) Why.over_cap))
  unfolding snap_capped_vec snap_usize snap_le visit_raw
  snap_capped_vec-length default cap r live =
      let got = snap_usize (reader r) (length live) in
      let size = length-snap_each got.0 (replicate got.1 default) in
      let same : length (replicate got.1 default) ≡ got.1 = length-replicate got.1 default in
      elim (Bool-cases (ltb cap got.1)) [
        | inl over ↦ let past : cap < got.1 = ground arith in rw (over) (inr (past, refl, refl))
        | inr fine ↦
            let within : got.1 ≤ cap = ground arith in rw (fine) (inl (within, size ∙ same))
      ]
