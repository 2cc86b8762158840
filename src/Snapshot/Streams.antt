-- ===== src/Snapshot/Streams.antt =====
-- Whole streams of snapshot.rs: a writer's bytes, and a reader that is finished.
use emulator_app.Base.{
  ℕ, ◌<◌, ◌≡◌, refl, ap, sym, ◌∙◌, Bool, true, ◌==◌, if◌then◌else◌, arith, List, [], ◌∷◌, ◌++◌,
  some, length, take, length-append,
}
use emulator_app.Snapshot.Codec.{
  Why, Result, ok, err, malformed, new, Visitor, writer, reader, error, finish, Snap,
}
use emulator_app.Snapshot.Unread.{Unread, advance}
use emulator_app.Snapshot.Lawful.{Lawful}

-- The bytes that a value is saved as.
abbrev pub out_of : Visitor → List ℕ
out_of (writer out) = out
out_of (reader r) = []

unfoldable pub saved {ℓ} : {A : Type ℓ} → Snap A → A → List ℕ
saved snap x = out_of (snap (writer []) x).0

abbrev pub finished : Visitor → Result Bool
finished (writer out) = ok true
finished (reader r) = finish r

-- A load over the live value `y`, and what it leaves there.
unfoldable pub loaded {ℓ} : {A : Type ℓ} → Snap A → List ℕ → A → Result Bool × A
loaded snap bytes y = let (v, x) = snap (reader (new bytes)) y in (finished v, x)

pub new-Unread : (bytes : List ℕ) → Unread (new bytes) bytes
new-Unread bytes = record { clean = refl; inside = omega arith; left = refl }

pub append_nil : (xs : List ℕ) → xs ++ [] ≡ xs
append_nil [] = refl
append_nil (x ∷ xs) = ap (λ t. x ∷ t) (append_nil xs)

pub finished-failed :
    (v : Visitor) (why : Why) → error v ≡ some why → finished v ≡ err (malformed why)
unfolding finish
finished-failed (writer out) why failed = absurd (ground arith)
finished-failed (reader r) why failed = rw (failed) refl

pub finish-advance :
    (s rest : List ℕ)
    → finish (advance (length s) (new (s ++ rest)))
      ≡ (if length rest == 0 then ok true else err (malformed Why.trailing_bytes))
unfolding finish
finish-advance s rest = ground (arith, length-append s rest)

module _ {A : Type 0} {snap : Snap A} {Fits : A → Type 0} {encode : A → List ℕ}
    (law : Lawful snap Fits encode) where
  saved_lem : (x : A) → Fits x → saved snap x ≡ encode x
  unfolding saved
  saved_lem x fits = ap (λ t. out_of t.0) (law.writes [] x fits)

  -- What was saved of one value loads over any other, leaving the first.
  pub loaded-saved : (x y : A) → Fits x → Fits y → loaded snap (saved snap x) y ≡ (ok true, x)
  unfolding loaded
  loaded-saved x y fits fits' =
      ap (λ s. loaded snap s y) (saved_lem x fits ∙ sym (append_nil (encode x)))
      ∙ ap (λ t. (finished t.0, t.1))
          (law.reads (new (encode x ++ [])) x y [] fits fits' (new-Unread (encode x ++ [])))
      ∙ ap (λ f. (f, x)) (finish-advance (encode x) [])

  -- A stream cut short is refused as ended early.
  pub loaded-take :
      (x y : A) (k : ℕ)
      → Fits x
      → Fits y
      → k < length (saved snap x)
      → (loaded snap (take k (saved snap x)) y).0 ≡ err (malformed Why.stream_ended)
  unfolding loaded
  loaded-take x y k fits fits' short =
      let same = saved_lem x fits in
      let bytes = take k (encode x) in
      let less : k < length (encode x) = omega (arith, short, ap length same) in
      ap (λ s. (loaded snap (take k s) y).0) same
      ∙ finished-failed (snap (reader (new bytes)) y).0 Why.stream_ended
          (law.cut (new bytes) x y k fits fits' less (new-Unread bytes))

  -- A stream with bytes after it is refused for its trailing bytes.
  pub loaded-append :
      (x y : A) (b : ℕ) (more : List ℕ)
      → Fits x
      → Fits y
      → (loaded snap (saved snap x ++ (b ∷ more)) y).0 ≡ err (malformed Why.trailing_bytes)
  unfolding loaded
  loaded-append x y b more fits fits' =
      let bytes = encode x ++ (b ∷ more) in
      ap (λ s. (loaded snap (s ++ (b ∷ more)) y).0) (saved_lem x fits)
      ∙ ap (λ t. finished t.0) (law.reads (new bytes) x y (b ∷ more) fits fits' (new-Unread bytes))
      ∙ finish-advance (encode x) (b ∷ more)
      ∙ ground arith
