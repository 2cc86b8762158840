-- ===== src/Base/Lists.antt =====
-- Lists measured and indexed by native numbers, under the library's names: the model of `Vec<u8>`,
-- slices and arrays.
use Prim.Native.Nat.{ℕ, zero, suc, ◌+◌, ◌-◌, ◌≤◌, ◌<◌, min}
use mathlib.Core.Path.{◌≡◌, refl, ap}
use mathlib.Core.Bool.{◌&&◌}
use mathlib.Core.List.{List, [], ◌∷◌, ◌++◌}
use mathlib.Core.Option.{Option, none, some}
use native.Mathlib.Omega.{arith}
use emulator_app.Base.Tests.{ltb, ◌==◌, if◌then◌else◌}

module _ {ℓ} {A : Type ℓ} where
  abbrev pub length : List A → ℕ
  length [] = 0
  length (x ∷ xs) = suc (length xs)

  abbrev pub get_elem? : List A → ℕ → Option A
  get_elem? [] i = none
  get_elem? (x ∷ xs) zero = some x
  get_elem? (x ∷ xs) (suc i) = get_elem? xs i

  abbrev pub get_or : List A → ℕ → A → A
  get_or [] i d = d
  get_or (x ∷ xs) zero d = x
  get_or (x ∷ xs) (suc i) d = get_or xs i d

  -- A write out of bounds changes nothing.
  abbrev pub set : List A → ℕ → A → List A
  set [] i v = []
  set (x ∷ xs) zero v = v ∷ xs
  set (x ∷ xs) (suc i) v = x ∷ set xs i v

  abbrev pub take : ℕ → List A → List A
  take zero xs = []
  take (suc n) [] = []
  take (suc n) (x ∷ xs) = x ∷ take n xs

  abbrev pub drop : ℕ → List A → List A
  drop zero xs = xs
  drop (suc n) [] = []
  drop (suc n) (x ∷ xs) = drop n xs

  -- Shut, since the program's buffers are long.
  unfoldable pub replicate : ℕ → A → List A
  replicate zero a = []
  replicate (suc n) a = a ∷ replicate n a

module _ {ℓ} {A : Type ℓ} where
  pub length-append : (xs ys : List A) → length (xs ++ ys) ≡ length xs + length ys
  length-append [] ys = omega arith
  length-append (x ∷ xs) ys = omega (arith, length-append xs ys)

  pub length-set : (xs : List A) (i : ℕ) (v : A) → length (set xs i v) ≡ length xs
  length-set [] i v = refl
  length-set (x ∷ xs) zero v = refl
  length-set (x ∷ xs) (suc i) v = ap suc (length-set xs i v)

  pub length-replicate : (n : ℕ) (a : A) → length (replicate n a) ≡ n
  unfolding replicate
  length-replicate zero a = refl
  length-replicate (suc n) a = ap suc (length-replicate n a)

  pub get_or-replicate : (n : ℕ) (a : A) (i : ℕ) (d : A) → i < n → get_or (replicate n a) i d ≡ a
  unfolding replicate
  get_or-replicate zero a i d h = elim h [ ]
  get_or-replicate (suc n) a zero d h = refl
  get_or-replicate (suc n) a (suc i) d h = get_or-replicate n a i d (omega arith)

  -- What a read after a write sees, in range and out of range alike.
  pub get_or-set :
      (xs : List A) (i j : ℕ) (v d : A)
      → get_or (set xs i v) j d ≡ (if i == j && ltb i (length xs) then v else get_or xs j d)
  get_or-set [] i j v d = ground arith
  get_or-set (x ∷ xs) zero zero v d = ground arith
  get_or-set (x ∷ xs) zero (suc j) v d = ground arith
  get_or-set (x ∷ xs) (suc i) zero v d = ground arith
  get_or-set (x ∷ xs) (suc i) (suc j) v d = ground (arith, get_or-set xs i j v d)

  -- What stands behind a list is neither read nor written by an index inside it.
  pub get_or-append :
      (xs ys : List A) (i : ℕ) (d : A) → i < length xs → get_or (xs ++ ys) i d ≡ get_or xs i d
  get_or-append [] ys i d h = absurd (omega arith)
  get_or-append (x ∷ xs) ys zero d h = refl
  get_or-append (x ∷ xs) ys (suc i) d h = get_or-append xs ys i d (omega arith)

  pub set-append :
      (xs ys : List A) (i : ℕ) (v : A) → i < length xs → set (xs ++ ys) i v ≡ set xs i v ++ ys
  set-append [] ys i v h = absurd (omega arith)
  set-append (x ∷ xs) ys zero v h = refl
  set-append (x ∷ xs) ys (suc i) v h = ap (λ t. x ∷ t) (set-append xs ys i v (omega arith))

  pub get_elem?-eq-get_or :
      (xs : List A) (i : ℕ) (d : A)
      → get_elem? xs i ≡ (if ltb i (length xs) then some (get_or xs i d) else none)
  get_elem?-eq-get_or [] i d = ground arith
  get_elem?-eq-get_or (x ∷ xs) zero d = ground arith
  get_elem?-eq-get_or (x ∷ xs) (suc i) d = ground (arith, get_elem?-eq-get_or xs i d)

  pub take_append : (xs ys : List A) {n : ℕ} → length xs ≡ n → take n (xs ++ ys) ≡ xs
  take_append [] ys {n = zero} h = refl
  take_append [] ys {n = suc n} h = absurd (omega arith)
  take_append (x ∷ xs) ys {n = zero} h = absurd (omega arith)
  take_append (x ∷ xs) ys {n = suc n} h = ap (λ l. x ∷ l) (take_append xs ys (omega arith))

  pub drop_append : (xs ys : List A) {n : ℕ} → length xs ≡ n → drop n (xs ++ ys) ≡ ys
  drop_append [] ys {n = zero} h = refl
  drop_append [] ys {n = suc n} h = absurd (omega arith)
  drop_append (x ∷ xs) ys {n = zero} h = absurd (omega arith)
  drop_append (x ∷ xs) ys {n = suc n} h = drop_append xs ys (omega arith)

  pub length-take : (n : ℕ) (xs : List A) → length (take n xs) ≡ min n (length xs)
  length-take zero xs = omega arith
  length-take (suc n) [] = omega arith
  length-take (suc n) (x ∷ xs) = omega (arith, length-take n xs)

  pub length-drop : (n : ℕ) (xs : List A) → length (drop n xs) ≡ length xs - n
  length-drop zero xs = omega arith
  length-drop (suc n) [] = omega arith
  length-drop (suc n) (x ∷ xs) = omega (arith, length-drop n xs)

  pub get_or-take :
      (n : ℕ) (xs : List A) (i : ℕ) (d : A) → i < n → get_or (take n xs) i d ≡ get_or xs i d
  get_or-take zero xs i d h = absurd (omega arith)
  get_or-take (suc n) [] i d h = refl
  get_or-take (suc n) (x ∷ xs) zero d h = refl
  get_or-take (suc n) (x ∷ xs) (suc i) d h = get_or-take n xs i d (omega arith)

  pub take_all : (xs : List A) {n : ℕ} → length xs ≤ n → take n xs ≡ xs
  take_all [] {n = zero} h = refl
  take_all [] {n = suc n} h = refl
  take_all (x ∷ xs) {n = zero} h = absurd (omega arith)
  take_all (x ∷ xs) {n = suc n} h = ap (λ l. x ∷ l) (take_all xs (omega arith))

-- The bytes of a buffer, read with a byte as the default.
abbrev pub IsBytes : List ℕ → Type 0
IsBytes xs = (j : ℕ) → get_or xs j 0xFF < 256

pub IsBytes-set : (xs : List ℕ) (i v : ℕ) → IsBytes xs → v < 256 → IsBytes (set xs i v)
IsBytes-set xs i v h hv = λ j. ground (arith, get_or-set xs i j v 0xFF, h j)

pub IsBytes-cons : (v : ℕ) (xs : List ℕ) → v < 256 → IsBytes xs → IsBytes (v ∷ xs)
IsBytes-cons v xs hv h zero = hv
IsBytes-cons v xs hv h (suc j) = h j

pub IsBytes-replicate : (n v : ℕ) → v < 256 → IsBytes (replicate n v)
unfolding replicate
IsBytes-replicate zero v h = λ j. omega arith
IsBytes-replicate (suc n) v h = IsBytes-cons v (replicate n v) h (IsBytes-replicate n v h)

-- A predicate by recursion computes to tuples, which the tactics read and build.
abbrev pub All {ℓ κ} : {A : Type ℓ} → (A → Type κ) → List A → Type κ
All P [] = Unit
All P (x ∷ xs) = P x × All P xs

-- The tail, indexed from one place further.
pub get_or-later {ℓ} :
    {A : Type ℓ} (x : A) (xs : List A) (i j : ℕ) (d : A)
    → i < j
    → get_or (x ∷ xs) (j - i) d ≡ get_or xs (j - (i + 1)) d
get_or-later x xs i j d h =
    let later : j - i ≡ suc (j - (i + 1)) = omega arith in ap (λ k. get_or (x ∷ xs) k d) later
