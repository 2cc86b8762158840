-- ===== src/Snapshot/Integrity.antt =====
-- Wrapping and unwrapping a payload in the container of snapshot.rs.
use emulator_app.Base.{
  ℕ, ◌+◌, ◌-◌, ◌*◌, ◌^◌, ◌≤◌, ◌<◌, ◌≡◌, ◌≢◌, ◌⊎◌, inl, inr, refl, ap, ◌∙◌, Bool, true, false, not,
  ◌&&◌, ◌||◌, ◌==◌, ◌!=◌, ltb, leb, Bool-cases, if◌then◌else◌, bit_xor, arith, List, [], ◌∷◌,
  length, take, drop, take_all, length-take, length-drop, get_or-take, slice, from_le_bytes, u64,
  u32_le-from, u64_le-from,
}
use emulator_app.Snapshot.Codec.{Why, SnapError, Result, ok, err, malformed, wrong_rom}
use emulator_app.Snapshot.Container.{
  hash_from, content_hash, Header, magic, code_bytes, wrap, same, same_rom, u32_at, payload_from,
  payload_of, unwrap_payload,
}

-- The fields of a header fit their types.
pub record Fits (h : Header) : Type 0 where
  pub rom_len : h.rom_len < 2 ^ 64
  pub rom_hash : h.rom_hash < 2 ^ 64

hash_from-bound : (h : ℕ) (bytes : List ℕ) → h < 2 ^ 64 → hash_from h bytes < 2 ^ 64
unfolding hash_from
hash_from-bound h [] small = small
hash_from-bound h (b ∷ bytes) small =
    hash_from-bound (u64 (bit_xor h b * 0x100000001b3)) bytes (omega arith)

content_hash-bound : (bytes : List ℕ) → content_hash bytes < 2 ^ 64
unfolding content_hash
content_hash-bound bytes = hash_from-bound 0xcbf29ce484222325 bytes (omega arith)

-- Two headers name the same cartridge.
abbrev pub same_identity : Header → Header → Bool
same_identity h e =
    (h.console == e.console)
    && same (code_bytes h.gamecode) (code_bytes e.gamecode)
    && (h.rom_len == e.rom_len)
    && (h.rom_hash == e.rom_hash)

length-wrap : (h : Header) (payload : List ℕ) → length (wrap h payload) ≡ 45 + length payload
unfolding wrap
length-wrap h payload = omega arith

payload_from-wrap :
    (h : Header) (payload : List ℕ)
    → payload_from (wrap h payload) 45 (length payload) (content_hash payload) ≡ ok payload
unfolding payload_from wrap
payload_from-wrap h payload =
    let whole : take (45 + length payload - 45) payload ≡ payload =
      take_all payload (omega arith) in
    let size : length payload + 45 ≡ 45 + length payload = omega arith in ground (arith, whole)

abbrev pub stored_hash : List ℕ → ℕ
stored_hash file = from_le_bytes (slice file 29 37)

abbrev pub fingerprint : List ℕ → ℕ
fingerprint file = from_le_bytes (slice file 37 45)

pick :
    {A : Type 0} (s : Bool) (n m : ℕ) (refused given : A)
    → (if not s then refused else if n != m then refused else given)
      ≡ (if s && (n == m) then given else refused)
pick s n m refused given = ground arith

-- A file of the current version, past its magic and its version.
unwrap_payload-current :
    (file : List ℕ) (e : Header)
    → take 8 file ≡ magic
    → u32_at file 8 ≡ 4
    → 45 ≤ length file
    → unwrap_payload file e ≡ (
        if same_rom file e && (fingerprint file == e.rom_hash)
        then payload_from file 45 (u32_at file 25) (stored_hash file)
        else err wrong_rom)
unfolding unwrap_payload payload_of
unwrap_payload-current file e head version long =
    let fits : ltb (length file) 37 ≡ false = ground arith in
    let fits' : ltb (length file) 45 ≡ false = ground arith in
    rw (head, version, fits, fits') (pick (same_rom file e) (fingerprint file) e.rom_hash _ _)

same_rom-wrap :
    (h e : Header) (payload : List ℕ)
    → Fits h
    → (same_rom (wrap h payload) e && (fingerprint (wrap h payload) == e.rom_hash))
      ≡ same_identity h e
unfolding wrap
same_rom-wrap h e payload fits =
    let rom_len = u64_le-from h.rom_len fits.rom_len in
    let rom_hash = u64_le-from h.rom_hash fits.rom_hash in rw (rom_len, rom_hash) (ground arith)

-- A payload that was wrapped for a cartridge is given back whole to that cartridge, and to every other
-- it is refused.
pub unwrap_payload-wrap :
    (h e : Header) (payload : List ℕ)
    → Fits h
    → length payload < 2 ^ 32
    → unwrap_payload (wrap h payload) e ≡ (if same_identity h e then ok payload else err wrong_rom)
unwrap_payload-wrap h e payload fits small =
    let file = wrap h payload in
    let long : 45 ≤ length file = omega (arith, length-wrap h payload) in
    let len : u32_at file 25 ≡ length payload = unfold wrap in u32_le-from (length payload) small in
    let hash : stored_hash file ≡ content_hash payload =
      unfold wrap in u64_le-from (content_hash payload) (content_hash-bound payload) in
    let head : take 8 file ≡ magic = unfold wrap in refl in
    let version : u32_at file 8 ≡ 4 = unfold wrap in refl in
    unwrap_payload-current file e head version long
    ∙ rw (same_rom-wrap h e payload fits, len, hash, payload_from-wrap h payload) refl

-- A file that is accepted is as long as its header says.
payload_from-length :
    (file : List ℕ) (start len hash : ℕ) (p : List ℕ)
    → payload_from file start len hash ≡ ok p
    → (length file ≡ start + len) × (length p ≡ len) × (content_hash p ≡ hash)
unfolding payload_from
payload_from-length file start len hash p accepted =
    ground (arith, length-take len (drop start file), length-drop start file)

-- Where the payload starts in a version.
abbrev pub start_of : ℕ → ℕ
start_of version = if leb 4 version then 45 else 37

start_of_least : (version : ℕ) → 37 ≤ start_of version
start_of_least version = ground arith

passed :
    (b : Bool) (why : SnapError) (rest : Result (List ℕ)) (p : List ℕ)
    → (if b then err why else rest) ≡ ok p
    → (b ≡ false) × (rest ≡ ok p)
passed b why rest p given = ground arith

payload_of-ok :
    (file : List ℕ) (e : Header) (p : List ℕ)
    → payload_of file e ≡ ok p
    → ((u32_at file 8 < 4) ⊎ (fingerprint file ≡ e.rom_hash))
      × (length file ≡ start_of (u32_at file 8) + u32_at file 25)
      × (length p ≡ u32_at file 25)
      × (content_hash p ≡ stored_hash file)
unfolding payload_of
payload_of-ok file e p accepted = elim (Bool-cases (leb 4 (u32_at file 8))) [
  | inl new ↦
      let tail = payload_from file 45 (u32_at file 25) (stored_hash file) in
      let checked : Result (List ℕ) =
        if fingerprint file != e.rom_hash then err wrong_rom else tail in
      let given : (if ltb (length file) 45 then err (malformed Why.no_fingerprint) else checked)
          ≡ ok p =
        rw (new) at accepted in
      let one = passed (ltb (length file) 45) (malformed Why.no_fingerprint) checked p given in
      let two = passed (fingerprint file != e.rom_hash) wrong_rom tail p one.1 in
      let known = payload_from-length file 45 (u32_at file 25) (stored_hash file) p two.1 in
      (inr (ground (arith, two.0)), rw (new) known.0, known.1, known.2)
  | inr older ↦
      let given = rw (older) at accepted in
      let known = payload_from-length file 37 (u32_at file 25) (stored_hash file) p given in
      (inl (ground arith), rw (older) known.0, known.1, known.2)
]

-- A snapshot that is accepted has a version from 2 to 4, the identity of the cartridge (from version 4
-- on with its fingerprint), exactly the length that its header states, and a payload of that length
-- with the hash that its header states.
pub unwrap_payload-ok :
    (file : List ℕ) (e : Header) (p : List ℕ)
    → unwrap_payload file e ≡ ok p
    → (2 ≤ u32_at file 8)
      × (u32_at file 8 ≤ 4)
      × (same_rom file e ≡ true)
      × ((u32_at file 8 < 4) ⊎ (fingerprint file ≡ e.rom_hash))
      × (length file ≡ start_of (u32_at file 8) + u32_at file 25)
      × (length p ≡ u32_at file 25)
      × (content_hash p ≡ stored_hash file)
unfolding unwrap_payload
unwrap_payload-ok file e p accepted =
    let v = u32_at file 8 in
    let last = payload_of file e in
    let third : Result (List ℕ) = if not (same_rom file e) then err wrong_rom else last in
    let second : Result (List ℕ) =
      if not (leb 2 v && leb v 4) then err (SnapError.version v) else third in
    let one =
      passed (ltb (length file) 37 || not (same (take 8 file) magic)) SnapError.magic second p
        accepted in
    let two = passed (not (leb 2 v && leb v 4)) (SnapError.version v) third p one.1 in
    let three = passed (not (same_rom file e)) wrong_rom last p two.1 in
    let known = payload_of-ok file e p three.1 in
    (
      ground (arith, two.0),
      ground (arith, two.0),
      ground (arith, three.0),
      known.0,
      known.1,
      known.2,
      known.3,
    )

u32_at-take : (k : ℕ) (file : List ℕ) (o : ℕ) → o + 3 < k → u32_at (take k file) o ≡ u32_at file o
u32_at-take k file o h =
    rw
      (
        get_or-take k file o 0 (omega arith),
        get_or-take k file (o + 1) 0 (omega arith),
        get_or-take k file (o + 2) 0 (omega arith),
        get_or-take k file (o + 3) 0 (omega arith),
      )
      refl

-- No strict beginning of a snapshot that is accepted is itself accepted, by any cartridge.
pub unwrap_payload-take :
    (file : List ℕ) (e e' : Header) (p q : List ℕ) (k : ℕ)
    → unwrap_payload file e ≡ ok p
    → k < length file
    → unwrap_payload (take k file) e' ≢ ok q
unwrap_payload-take file e e' p q k accepted short again =
    let whole = unwrap_payload-ok file e p accepted in
    let cut = unwrap_payload-ok (take k file) e' q again in
    let size : length (take k file) ≡ k = omega (arith, length-take k file) in
    let least = start_of_least (u32_at (take k file) 8) in
    let len = u32_at-take k file 25 (omega (arith, cut.4)) in
    let start = ap start_of (u32_at-take k file 8 (omega (arith, cut.4))) in
    omega (arith, whole.4, cut.4)
