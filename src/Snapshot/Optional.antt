-- ===== src/Snapshot/Optional.antt =====
-- snapshot.rs: optional fields.
use emulator_app.Base.{
  ℕ, ◌+◌, ◌-◌, ◌≤◌, ◌<◌, ◌≡◌, inl, inr, ap, ◌∙◌, Bool, true, false, ltb, Bool-cases, if◌then◌else◌,
  arith, List, ◌++◌, Option, some, none, length, take, length-append,
}
use emulator_app.Snapshot.Codec.{
  Why, Reader, Visitor, writer, reader, error, loading, Snap, snap_bool, snap_option, to_le_bytes,
}
use emulator_app.Snapshot.Unread.{
  Unread, advance, advance-Unread, take_before, take_after, append_assoc, Unread-subst,
}
use emulator_app.Snapshot.Lawful.{Lawful, stuck_after}
use emulator_app.Snapshot.Collections.{flag_byte, snap_bool-Lawful}

-- An optional field: its presence, and its value or the default.
module _ {A : Type 0} {snap : Snap A} {Fits : A → Type 0} {encode : A → List ℕ}
    (law : Lawful snap Fits encode) (default : A) (default_fits : Fits default) where
  abbrev pub is_some : Option A → Bool
  is_some (some x) = true
  is_some none = false

  abbrev pub inner : Option A → A
  inner (some x) = x
  inner none = default

  abbrev pub FitsOption : Option A → Type 0
  FitsOption o = Fits (inner o)

  abbrev pub encode_option : Option A → List ℕ
  encode_option o = to_le_bytes 1 (flag_byte (is_some o)) ++ encode (inner o)

  -- What `snap_option` does after the presence.
  abbrev follow : Option A → Visitor → Bool → Visitor × Option A
  follow self v present =
      let visited = snap v (inner self) in
      let scratch = snap v default in
      if present then (visited.0, some visited.1) else (scratch.0, if loading v then none else self)

  follow-writes :
      (out : List ℕ) (x : Option A)
      → FitsOption x
      → follow x (writer out) (is_some x) ≡ (writer (out ++ encode (inner x)), x)
  follow-writes out (some x) fits = ap (λ t. (t.0, some t.1)) (law.writes out x fits)
  follow-writes out none fits = ap (λ t. (t.0, none)) (law.writes out default fits)

  follow-reads :
      (r : Reader) (x y : Option A) (rest : List ℕ)
      → FitsOption x
      → FitsOption y
      → Unread r (encode (inner x) ++ rest)
      → follow y (reader r) (is_some x) ≡ (reader (advance (length (encode (inner x))) r), x)
  follow-reads r (some x) y rest fits fits' u =
      ap (λ t. (t.0, some t.1)) (law.reads r x (inner y) rest fits fits' u)
  follow-reads r none y rest fits fits' u =
      ap (λ t. (t.0, none)) (law.reads r default default rest fits default_fits u)

  follow-stuck :
      (r : Reader) (y : Option A) (present : Bool) (why : Why)
      → r.err ≡ some why
      → (follow y (reader r) present).0 ≡ reader r
  follow-stuck r y true why failed = law.stuck r (inner y) why failed
  follow-stuck r y false why failed = law.stuck r default why failed

  follow-error :
      (v : Visitor) (y : Option A) (present : Bool) (why : Why)
      → error v ≡ some why
      → error (follow y v present).0 ≡ some why
  follow-error v y true why failed = stuck_after law v (inner y) why failed
  follow-error v y false why failed = stuck_after law v default why failed

  follow-cut :
      (r : Reader) (x y : Option A) (k : ℕ)
      → FitsOption x
      → FitsOption y
      → k < length (encode (inner x))
      → Unread r (take k (encode (inner x)))
      → error (follow y (reader r) (is_some x)).0 ≡ some Why.stream_ended
  follow-cut r (some x) y k fits fits' short u = law.cut r x (inner y) k fits fits' short u
  follow-cut r none y k fits fits' short u = law.cut r default default k fits default_fits short u

  abbrev byte_of : Option A → List ℕ
  byte_of o = to_le_bytes 1 (flag_byte (is_some o))

  option-cut :
      (r : Reader) (x y : Option A) (k : ℕ)
      → FitsOption x
      → FitsOption y
      → k < length (encode_option x)
      → Unread r (take k (encode_option x))
      → error (snap_option snap default (reader r) y).0 ≡ some Why.stream_ended
  unfolding snap_option
  option-cut r x y k fits fits' short u = elim (Bool-cases (ltb k (length (byte_of x)))) [
    | inl early ↦
        let u1 = Unread-subst r (take_before k (byte_of x) (encode (inner x)) (ground arith)) u in
        let ended = snap_bool-Lawful.cut r (is_some x) (is_some y) k tt tt (ground arith) u1 in
        follow-error (snap_bool (reader r) (is_some y)).0 y (snap_bool (reader r) (is_some y)).1
          Why.stream_ended ended
    | inr late ↦
        let past : length (byte_of x) ≤ k = ground arith in
        let j = k - length (byte_of x) in
        let u1 = Unread-subst r (take_after k (byte_of x) (encode (inner x)) past) u in
        let one =
          snap_bool-Lawful.reads r (is_some x) (is_some y) (take j (encode (inner x))) tt tt u1 in
        let less : j < length (encode (inner x)) =
          omega (arith, short, length-append (byte_of x) (encode (inner x))) in
        ap (λ t. error (follow y t.0 t.1).0) one
        ∙ follow-cut (advance (length (byte_of x)) r) x y j fits fits' less
            (advance-Unread r (byte_of x) (take j (encode (inner x))) u1)
  ]

  pub snap_option-Lawful : Lawful (snap_option snap default) FitsOption encode_option
  unfolding snap_option
  snap_option-Lawful = record {
    writes = λ out x fits.
        ap (λ t. follow x t.0 t.1) (snap_bool-Lawful.writes out (is_some x) tt)
        ∙ follow-writes (out ++ byte_of x) x fits
        ∙ ap (λ o. (writer o, x)) (append_assoc out (byte_of x) (encode (inner x)));
    reads = λ r x y rest fits fits' u.
        let u1 = Unread-subst r (append_assoc (byte_of x) (encode (inner x)) rest) u in
        let place : r.pos + length (byte_of x) + length (encode (inner x))
            ≡ r.pos + length (encode_option x) =
          omega (arith, length-append (byte_of x) (encode (inner x))) in
        ap (λ t. follow y t.0 t.1)
          (snap_bool-Lawful.reads r (is_some x) (is_some y) (encode (inner x) ++ rest) tt tt u1)
        ∙ follow-reads (advance (length (byte_of x)) r) x y rest fits fits'
            (advance-Unread r (byte_of x) (encode (inner x) ++ rest) u1)
        ∙ ap (λ n. (reader (record r { pos = n }), x)) place;
    stuck = λ r y why failed.
        let present = (snap_bool (reader r) (is_some y)).1 in
        ap (λ v. (follow y v present).0) (snap_bool-Lawful.stuck r (is_some y) why failed)
        ∙ follow-stuck r y present why failed;
    cut = option-cut;
  }
