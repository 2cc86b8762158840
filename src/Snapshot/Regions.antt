-- ===== src/Snapshot/Regions.antt =====
-- snapshot.rs: regions of bytes, whose length the emulator knows.
use emulator_app.Base.{
  ℕ, ◌+◌, ◌-◌, ◌^◌, ◌≤◌, ◌<◌, ◌≡◌, inl, inr, refl, ap, sym, ◌∙◌, min, false, ◌&&◌, ◌!=◌, ltb,
  Bool-cases, if◌then◌else◌, arith, List, ◌++◌, some, length, take, length-append, length-take,
}
use emulator_app.Snapshot.Codec.{
  Why, Reader, Visitor, writer, reader, visit_raw, error, fail, loading, snap_usize, snap_bytes,
  resize, to_le_bytes,
}
use emulator_app.Snapshot.Unread.{
  Unread, advance, advance-Unread, read_raw-Unread, read_raw-short, visit_raw-stuck, take_before,
  take_after, append_assoc, Unread-subst,
}
use emulator_app.Snapshot.Lawful.{Lawful}
use emulator_app.Snapshot.Collections.{snap_usize-Lawful, fail-stuck}

module _ (len : ℕ) (why_size : Why) (small : len < 2 ^ 32) where
  abbrev Sized : List ℕ → Type 0
  Sized cells = length cells ≡ len

  abbrev prefix : List ℕ
  prefix = to_le_bytes 4 (min len (2 ^ 32 - 1))

  abbrev encode_region : List ℕ → List ℕ
  encode_region cells = prefix ++ cells

  -- What `snap_bytes` does with the length that it read.
  abbrev resume : List ℕ → Visitor → ℕ → Visitor × List ℕ
  resume cells v stored =
      if loading v && stored != len
      then (fail v why_size, cells)
      else visit_raw v (if length cells != len then resize len 0 cells else cells)

  right_size : (cells : List ℕ) → Sized cells → (length cells != len) ≡ false
  right_size cells h = ground arith

  unresized : (len != len) ≡ false
  unresized = ground arith

  resume-stuck :
      (r : Reader) (y : List ℕ) (stored : ℕ) (why : Why)
      → r.err ≡ some why
      → (resume y (reader r) stored).0 ≡ reader r
  resume-stuck r y stored why failed = elim (Bool-cases (stored != len)) [
    | inl other ↦ rw (other) (fail-stuck r why why_size failed)
    | inr same ↦ rw (same) (
        ap (λ t. t.0)
          (visit_raw-stuck r (if length y != len then resize len 0 y else y) why failed))
  ]

  resume-reads :
      (r : Reader) (x y rest : List ℕ)
      → Sized x
      → Sized y
      → Unread r (x ++ rest)
      → resume y (reader r) len ≡ (reader (advance (length x) r), x)
  resume-reads r x y rest fits fits' u =
      rw (unresized, right_size y fits') (read_raw-Unread r y x rest u (fits' ∙ sym fits))

  resume-cut :
      (r : Reader) (x y : List ℕ) (k : ℕ)
      → Sized x
      → Sized y
      → k < length x
      → Unread r (take k x)
      → error (resume y (reader r) len).0 ≡ some Why.stream_ended
  resume-cut r x y k fits fits' short u =
      rw (unresized, right_size y fits')
        (read_raw-short r y (take k x) u (omega (arith, length-take k x)))

  resume-error :
      (v : Visitor) (y : List ℕ) (stored : ℕ) (why : Why)
      → error v ≡ some why
      → error (resume y v stored).0 ≡ some why
  resume-error (writer out) y stored why failed = absurd (ground arith)
  resume-error (reader r) y stored why failed =
      ap error (resume-stuck r y stored why failed) ∙ failed

  region-cut :
      (r : Reader) (x y : List ℕ) (k : ℕ)
      → Sized x
      → Sized y
      → k < length (encode_region x)
      → Unread r (take k (encode_region x))
      → error (snap_bytes len why_size (reader r) y).0 ≡ some Why.stream_ended
  unfolding snap_bytes
  region-cut r x y k fits fits' short u = elim (Bool-cases (ltb k (length prefix))) [
    | inl early ↦
        let u1 = Unread-subst r (take_before k prefix x (ground arith)) u in
        resume-error (snap_usize (reader r) len).0 y (snap_usize (reader r) len).1 Why.stream_ended
          (snap_usize-Lawful.cut r len len k small small (ground arith) u1)
    | inr late ↦
        let past : length prefix ≤ k = ground arith in
        let j = k - length prefix in
        let u1 = Unread-subst r (take_after k prefix x past) u in
        let one = snap_usize-Lawful.reads r len len (take j x) small small u1 in
        let less : j < length x = omega (arith, short, length-append prefix x) in
        ap (λ t. error (resume y t.0 t.1).0) one
        ∙ resume-cut (advance (length prefix) r) x y j fits fits' less
            (advance-Unread r prefix (take j x) u1)
  ]

  pub snap_bytes-Lawful : Lawful (snap_bytes len why_size) Sized encode_region
  unfolding snap_bytes visit_raw
  snap_bytes-Lawful = record {
    writes = λ out x fits.
        ap (λ t. resume x t.0 t.1) (snap_usize-Lawful.writes out len small)
        ∙ rw (right_size x fits) refl
        ∙ ap (λ o. (writer o, x)) (append_assoc out prefix x);
    reads = λ r x y rest fits fits' u.
        let u1 = Unread-subst r (append_assoc prefix x rest) u in
        let place : r.pos + length prefix + length x ≡ r.pos + length (encode_region x) =
          omega (arith, length-append prefix x) in
        ap (λ t. resume y t.0 t.1) (snap_usize-Lawful.reads r len len (x ++ rest) small small u1)
        ∙ resume-reads (advance (length prefix) r) x y rest fits fits'
            (advance-Unread r prefix (x ++ rest) u1)
        ∙ ap (λ n. (reader (record r { pos = n }), x)) place;
    stuck = λ r y why failed.
        let stored = (snap_usize (reader r) len).1 in
        ap (λ v. (resume y v stored).0) (snap_usize-Lawful.stuck r len why failed)
        ∙ resume-stuck r y stored why failed;
    cut = region-cut;
  }
