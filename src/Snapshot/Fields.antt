-- ===== src/Snapshot/Fields.antt =====
-- snapshot.rs: fields one after the other, and types that are stored as another.
use emulator_app.Base.{
  ℕ, ◌+◌, ◌-◌, ◌≤◌, ◌<◌, ◌≡◌, inl, inr, ap, ◌∙◌, ltb, Bool-cases, if◌then◌else◌, arith, List, ◌++◌,
  some, length, take, length-append,
}
use emulator_app.Snapshot.Codec.{Why, Reader, writer, reader, error, Snap, snap_pair}
use emulator_app.Snapshot.Unread.{
  Unread, advance, advance-Unread, take_before, take_after, append_assoc, Unread-subst,
}
use emulator_app.Snapshot.Lawful.{Lawful, stuck_after}

-- Fields one after the other.
module _ {A B : Type 0} {snap_a : Snap A} {snap_b : Snap B} {FitsA : A → Type 0}
    {FitsB : B → Type 0} {encode_a : A → List ℕ} {encode_b : B → List ℕ}
    (la : Lawful snap_a FitsA encode_a) (lb : Lawful snap_b FitsB encode_b) where
  abbrev both : A × B → List ℕ
  both p = encode_a p.0 ++ encode_b p.1

  pair-stuck :
      (r : Reader) (y : A × B) (why : Why)
      → r.err ≡ some why
      → (snap_pair snap_a snap_b (reader r) y).0 ≡ reader r
  unfolding snap_pair
  pair-stuck r (a, b) why failed =
      ap (λ v. (snap_b v b).0) (la.stuck r a why failed) ∙ lb.stuck r b why failed

  pair-reads :
      (r : Reader) (x y : A × B) (rest : List ℕ)
      → FitsA x.0 × FitsB x.1
      → FitsA y.0 × FitsB y.1
      → Unread r (both x ++ rest)
      → snap_pair snap_a snap_b (reader r) y ≡ (reader (advance (length (both x)) r), x)
  unfolding snap_pair
  pair-reads r (a, b) (a', b') rest fits fits' u =
      let u1 = Unread-subst r (append_assoc (encode_a a) (encode_b b) rest) u in
      let one = la.reads r a a' (encode_b b ++ rest) fits.0 fits'.0 u1 in
      let r1 = advance (length (encode_a a)) r in
      let two =
        lb.reads r1 b b' rest fits.1 fits'.1
          (advance-Unread r (encode_a a) (encode_b b ++ rest) u1) in
      let place : r.pos + length (encode_a a) + length (encode_b b)
          ≡ r.pos + length (encode_a a ++ encode_b b) =
        omega (arith, length-append (encode_a a) (encode_b b)) in
      ap (λ t. let v = snap_b t.0 b' in (v.0, (t.1, v.1))) one
      ∙ ap (λ v. (v.0, (a, v.1))) two
      ∙ ap (λ n. (reader (record r { pos = n }), (a, b))) place

  pair-cut :
      (r : Reader) (x y : A × B) (k : ℕ)
      → FitsA x.0 × FitsB x.1
      → FitsA y.0 × FitsB y.1
      → k < length (both x)
      → Unread r (take k (both x))
      → error (snap_pair snap_a snap_b (reader r) y).0 ≡ some Why.stream_ended
  unfolding snap_pair
  pair-cut r (a, b) (a', b') k fits fits' short u =
      elim (Bool-cases (ltb k (length (encode_a a)))) [
        | inl early ↦
            let u1 = Unread-subst r (take_before k (encode_a a) (encode_b b) (ground arith)) u in
            let ended = la.cut r a a' k fits.0 fits'.0 (ground arith) u1 in
            stuck_after lb (snap_a (reader r) a').0 b' Why.stream_ended ended
        | inr late ↦
            let past : length (encode_a a) ≤ k = ground arith in
            let rest = take (k - length (encode_a a)) (encode_b b) in
            let u1 = Unread-subst r (take_after k (encode_a a) (encode_b b) past) u in
            let one = la.reads r a a' rest fits.0 fits'.0 u1 in
            let r1 = advance (length (encode_a a)) r in
            let less : k - length (encode_a a) < length (encode_b b) =
              omega (arith, short, length-append (encode_a a) (encode_b b)) in
            let ended =
              lb.cut r1 b b' (k - length (encode_a a)) fits.1 fits'.1 less
                (advance-Unread r (encode_a a) rest u1) in
            ap (λ t. error (snap_b t.0 b').0) one ∙ ended
      ]

  pub snap_pair-Lawful : Lawful (snap_pair snap_a snap_b) (λ p. FitsA p.0 × FitsB p.1) both
  unfolding snap_pair
  snap_pair-Lawful = record {
    writes = λ out x fits.
        ap (λ t. let v = snap_b t.0 x.1 in (v.0, (t.1, v.1))) (la.writes out x.0 fits.0)
        ∙ ap (λ v. (v.0, (x.0, v.1))) (lb.writes (out ++ encode_a x.0) x.1 fits.1)
        ∙ ap (λ o. (writer o, x)) (append_assoc out (encode_a x.0) (encode_b x.1));
    reads = pair-reads;
    stuck = pair-stuck;
    cut = pair-cut;
  }

-- A type that is stored as another.
module _ {A B : Type 0} {snap : Snap B} {Fits : B → Type 0} {encode : B → List ℕ}
    (law : Lawful snap Fits encode) (FitsA : A → Type 0) (to : A → B) (from : B → A)
    (fit : (x : A) → FitsA x → Fits (to x)) (back : (x : A) → FitsA x → from (to x) ≡ x) where
  pub mapped-Lawful :
      Lawful (λ v y. ((snap v (to y)).0, from (snap v (to y)).1)) FitsA (λ x. encode (to x))
  mapped-Lawful = record {
    writes = λ out x fits.
        ap (λ t. (t.0, from t.1)) (law.writes out (to x) (fit x fits))
        ∙ ap (λ t. (writer (out ++ encode (to x)), t)) (back x fits);
    reads = λ r x y rest fits fits' u.
        ap (λ t. (t.0, from t.1)) (law.reads r (to x) (to y) rest (fit x fits) (fit y fits') u)
        ∙ ap (λ t. (reader (advance (length (encode (to x))) r), t)) (back x fits);
    stuck = λ r y why failed. law.stuck r (to y) why failed;
    cut =
        λ r x y k fits fits' short u. law.cut r (to x) (to y) k (fit x fits) (fit y fits') short u;
  }

-- A traversal with its law.
pub record Law {A : Type 0} (snap : Snap A) : Type 1 where
  pub Fits : A → Type 0
  pub encode : A → List ℕ
  pub law : Lawful snap Fits encode

abbrev pub law_of :
    {A : Type 0} {snap : Snap A} {Fits : A → Type 0} {encode : A → List ℕ}
    → Lawful snap Fits encode
    → Law snap
law_of {A} {snap} {Fits} {encode} law = record { Fits = Fits; encode = encode; law = law }

infixr 60 ◌then◌
abbrev pub ◌then◌ :
    {A B : Type 0} {snap_a : Snap A} {snap_b : Snap B}
    → Law snap_a
    → Law snap_b
    → Law (snap_pair snap_a snap_b)
a then b = law_of (snap_pair-Lawful a.law b.law)
