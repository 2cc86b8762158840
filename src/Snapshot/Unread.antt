-- ===== src/Snapshot/Unread.antt =====
-- The reader of snapshot.rs, by what it has not read.
use emulator_app.Base.{
  ℕ, zero, suc, ◌+◌, ◌-◌, ◌≤◌, ◌<◌, ◌≡◌, refl, ap, sym, ◌∙◌, true, false, leb, arith, List, [], ◌∷◌,
  ◌++◌, some, none, length, take, drop, take_append, drop_append, length-append, length-drop,
}
use emulator_app.Snapshot.Codec.{Why, Reader, reader, read_raw, visit_raw, error}

-- A reader that has not failed, and the bytes that it has not read.
pub record Unread (r : Reader) (s : List ℕ) : Type 0 where
  pub clean : r.err ≡ none
  pub inside : r.pos ≤ length r.buf
  pub left : drop r.pos r.buf ≡ s

abbrev pub advance : ℕ → Reader → Reader
advance n r = record r { pos = r.pos + n }

drop_nil : (n : ℕ) → let xs : List ℕ = [] in drop n xs ≡ xs
drop_nil zero = refl
drop_nil (suc n) = refl

drop_add : (a b : ℕ) (xs : List ℕ) → drop (a + b) xs ≡ drop b (drop a xs)
drop_add zero b xs = let e : zero + b ≡ b = omega arith in ap (λ n. drop n xs) e
drop_add (suc a) b [] =
    let e : suc a + b ≡ suc (a + b) = omega arith in ap (λ n. drop n []) e ∙ sym (drop_nil b)
drop_add (suc a) b (x ∷ xs) =
    let e : suc a + b ≡ suc (a + b) = omega arith in ap (λ n. drop n (x ∷ xs)) e ∙ drop_add a b xs

pub advance-Unread :
    (r : Reader) (s rest : List ℕ) → Unread r (s ++ rest) → Unread (advance (length s) r) rest
advance-Unread r s rest u =
    let size = length-append s rest in
    let whole : length (drop r.pos r.buf) ≡ length (s ++ rest) = ap length u.left in
    let kept = length-drop r.pos r.buf in
    record {
      clean = u.clean;
      inside = omega (arith, u.inside);
      left =
          drop_add r.pos (length s) r.buf ∙ ap (drop (length s)) u.left ∙ drop_append s rest refl;
    }

-- Reading as many bytes as `s` has.
pub read_raw-Unread :
    (r : Reader) (b s rest : List ℕ)
    → Unread r (s ++ rest)
    → length b ≡ length s
    → visit_raw (reader r) b ≡ (reader (advance (length s) r), s)
unfolding visit_raw read_raw
read_raw-Unread r b s rest u size =
    let total = length-append s rest in
    let whole : length (drop r.pos r.buf) ≡ length (s ++ rest) = ap length u.left in
    let kept = length-drop r.pos r.buf in
    let fits : leb (r.pos + length s) (length r.buf) ≡ true = ground (arith, u.inside) in
    rw (u.clean, size, fits, u.left, take_append s rest refl) refl

-- Too few bytes are left.
pub read_raw-short :
    (r : Reader) (b s : List ℕ)
    → Unread r s
    → length s < length b
    → error (visit_raw (reader r) b).0 ≡ some Why.stream_ended
unfolding visit_raw read_raw
read_raw-short r b s u short =
    let whole : length (drop r.pos r.buf) ≡ length s = ap length u.left in
    let kept = length-drop r.pos r.buf in
    let over : leb (r.pos + length b) (length r.buf) ≡ false = ground (arith, u.inside) in
    rw (u.clean, over) refl

pub visit_raw-stuck :
    (r : Reader) (b : List ℕ) (why : Why)
    → r.err ≡ some why
    → visit_raw (reader r) b ≡ (reader r, b)
unfolding visit_raw read_raw
visit_raw-stuck r b why failed = rw (failed) refl

pub take_before : (k : ℕ) (a b : List ℕ) → k < length a → take k (a ++ b) ≡ take k a
take_before k [] b h = absurd (omega arith)
take_before zero (x ∷ a) b h = refl
take_before (suc k) (x ∷ a) b h = ap (λ t. x ∷ t) (take_before k a b (omega arith))

pub take_after :
    (k : ℕ) (a b : List ℕ) → length a ≤ k → take k (a ++ b) ≡ a ++ take (k - length a) b
take_after k [] b h = let e : k ≡ k - 0 = omega arith in ap (λ n. take n b) e
take_after zero (x ∷ a) b h = absurd (omega arith)
take_after (suc k) (x ∷ a) b h =
    let e : k - length a ≡ suc k - suc (length a) = omega arith in
    ap (λ t. x ∷ t) (take_after k a b (omega arith) ∙ ap (λ n. a ++ take n b) e)

pub append_assoc : (a b c : List ℕ) → (a ++ b) ++ c ≡ a ++ (b ++ c)
append_assoc [] b c = refl
append_assoc (x ∷ a) b c = ap (λ t. x ∷ t) (append_assoc a b c)

pub Unread-subst : (r : Reader) {s t : List ℕ} → s ≡ t → Unread r s → Unread r t
Unread-subst r e u = record { clean = u.clean; inside = u.inside; left = u.left ∙ e }
