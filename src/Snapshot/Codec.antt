-- ===== src/Snapshot/Codec.antt =====
-- snapshot.rs: `Visitor`, with its writer and its reader, and the traversals of the basic types.
use emulator_app.Base.{
  ℕ, zero, suc, ◌+◌, ◌-◌, ◌/◌, ◌%◌, ◌^◌, min, Bool, true, false, ◌&&◌, ◌!=◌, ltb, leb,
  if◌then◌else◌, List, [], ◌∷◌, ◌++◌, Option, some, none, length, take, drop, replicate,
  from_le_bytes,
}

-- Why a stream is malformed: the messages of the source, and the labels of its callers.
pub data Why : Type 0 where
  stream_ended trailing_bytes over_cap out_of_range no_fingerprint payload_short trailing_after :
      Why
  label : ℕ → Why

pub data SnapError : Type 0 where
  magic : SnapError
  version : ℕ → SnapError
  malformed : Why → SnapError
  hash : SnapError
  wrong_rom : SnapError

-- `Result<_, SnapError>`
pub data Result {ℓ} (A : Type ℓ) : Type ℓ where
  ok : A → Result A
  err : SnapError → Result A

pub record Reader : Type 0 where
  pub buf : List ℕ
  pub pos : ℕ
  pub err : Option Why
  pub version : ℕ

-- `VERSION`
abbrev pub current : ℕ
current = 4

abbrev pub with_version : List ℕ → ℕ → Reader
with_version buf layout = record { buf = buf; pos = 0; err = none; version = layout }

abbrev pub new : List ℕ → Reader
new buf = with_version buf current

-- The two directions: the writer's `out`, and a reader.
pub data Visitor : Type 0 where
  writer : List ℕ → Visitor
  reader : Reader → Visitor

-- What the reader does with `bytes`, and their new contents.
unfoldable pub read_raw : Reader → List ℕ → Reader × List ℕ
read_raw r bytes = elim r.err [
  | some why ↦ (r, bytes)
  | none ↦
      if leb (r.pos + length bytes) (length r.buf)
      then (record r { pos = r.pos + length bytes }, take (length bytes) (drop r.pos r.buf))
      else (record r { err = some Why.stream_ended }, bytes)
]

unfoldable pub visit_raw : Visitor → List ℕ → Visitor × List ℕ
visit_raw (writer out) bytes = (writer (out ++ bytes), bytes)
visit_raw (reader r) bytes = let (r1, read) = read_raw r bytes in (reader r1, read)

abbrev pub loading : Visitor → Bool
loading (writer out) = false
loading (reader r) = true

abbrev pub or_else : Option Why → Why → Option Why
or_else (some first) why = some first
or_else none why = some why

abbrev pub fail : Visitor → Why → Visitor
fail (writer out) why = writer out
fail (reader r) why = reader (record r { err = or_else r.err why })

abbrev pub error : Visitor → Option Why
error (writer out) = none
error (reader r) = r.err

-- Consumes the reader.
unfoldable pub finish : Reader → Result Bool
finish r = elim r.err [
  | some why ↦ err (malformed why)
  | none ↦ if r.pos != length r.buf then err (malformed Why.trailing_bytes) else ok true
]

-- `Snap::snap` of a type.
abbrev pub Snap {ℓ} : Type ℓ → Type ℓ
Snap A = Visitor → A → Visitor × A

-- `to_le_bytes` of an unsigned integer of `n` bytes.
unfoldable pub to_le_bytes : ℕ → ℕ → List ℕ
to_le_bytes zero x = []
to_le_bytes (suc n) x = x % 256 ∷ to_le_bytes n (x / 256)

unfoldable pub snap_le : ℕ → Snap ℕ
snap_le n v x = let (v1, b) = visit_raw v (to_le_bytes n x) in (v1, from_le_bytes b)

unfoldable pub snap_bool : Snap Bool
unfolding snap_le
snap_bool v self = let (v1, b) = snap_le 1 v (if self then 1 else 0) in (v1, b != 0)

-- A `usize`, stored as a `u32`.
unfoldable pub snap_usize : Snap ℕ
snap_usize v self = snap_le 4 v (min self (2 ^ 32 - 1))

module _ {ℓ} {A : Type ℓ} where
  -- The elements of an array or of a vector, in order.
  unfoldable pub snap_each : Snap A → Snap (List A)
  snap_each snap v [] = (v, [])
  snap_each snap v (x ∷ xs) =
      let (v1, y) = snap v x in let (v2, ys) = snap_each snap v1 xs in (v2, y ∷ ys)

  abbrev pub resize : ℕ → A → List A → List A
  resize len filler cells = take len cells ++ replicate (len - length cells) filler

  -- An `Option` field, with the type's default.
  unfoldable pub snap_option : Snap A → A → Snap (Option A)
  snap_option snap default v self =
      let (v1, present) = snap_bool v (elim self [ some x ↦ true | none ↦ false ]) in
      let inner : A = elim self [ some x ↦ x | none ↦ default ] in
      let visited = snap v1 inner in
      let scratch = snap v1 default in
      if present
      then (visited.0, some visited.1)
      else (scratch.0, if loading v1 then none else self)

  unfoldable pub snap_fixed_vec : Snap A → A → ℕ → Snap (List A)
  snap_fixed_vec snap default len v cells =
      snap_each snap v (if length cells != len then resize len default cells else cells)

  unfoldable pub snap_capped_vec : Snap A → A → ℕ → Snap (List A)
  snap_capped_vec snap default cap v cells =
      let (v1, n) = snap_usize v (length cells) in
      if loading v1
      then if ltb cap n
        then (fail v1 Why.over_cap, cells)
        else snap_each snap v1 (replicate n default)
      else snap_each snap v1 cells

  unfoldable pub snap_enum : (A → ℕ) → (ℕ → Option A) → Snap A
  snap_enum to_index from_index v slot =
      let (v1, idx) = snap_le 1 v (to_index slot) in
      if loading v1
      then elim (from_index idx) [ some val ↦ (v1, val) | none ↦ (fail v1 Why.out_of_range, slot) ]
      else (v1, slot)

unfoldable pub snap_pair {ℓ κ} : {A : Type ℓ} {B : Type κ} → Snap A → Snap B → Snap (A × B)
snap_pair snap_a snap_b v (a, b) =
    let (v1, a1) = snap_a v a in let (v2, b1) = snap_b v1 b in (v2, (a1, b1))

-- A region of `len` bytes; `why` is its label.
unfoldable pub snap_bytes : ℕ → Why → Snap (List ℕ)
snap_bytes len why v cells =
    let (v1, stored) = snap_usize v len in
    if loading v1 && stored != len
    then (fail v1 why, cells)
    else visit_raw v1 (if length cells != len then resize len 0 cells else cells)
