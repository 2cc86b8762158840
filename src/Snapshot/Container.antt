-- ===== src/Snapshot/Container.antt =====
-- snapshot.rs: `content_hash`, and `Header` with `wrap` and `unwrap_payload`.
use emulator_app.Base.{
  ℕ, ◌+◌, ◌*◌, Bool, true, false, not, ◌&&◌, ◌||◌, ◌==◌, ◌!=◌, ltb, leb, if◌then◌else◌, bit_xor,
  List, [], ◌∷◌, ◌++◌, get_or, length, take, slice, from_le_bytes, u32_le, u64_le, u64,
}
use emulator_app.Snapshot.Codec.{Why, SnapError, Result, ok, err, malformed, wrong_rom, current}

-- `*b"EMUSNAP\0"`
abbrev pub magic : List ℕ
magic = 0x45 ∷ 0x4D ∷ 0x55 ∷ 0x53 ∷ 0x4E ∷ 0x41 ∷ 0x50 ∷ 0x00 ∷ []

unfoldable pub hash_from : ℕ → List ℕ → ℕ
hash_from h [] = h
hash_from h (b ∷ bytes) = hash_from (u64 (bit_xor h b * 0x100000001b3)) bytes

unfoldable pub content_hash : List ℕ → ℕ
content_hash bytes = hash_from 0xcbf29ce484222325 bytes

pub record Header : Type 0 where
  pub console : ℕ
  pub gamecode : ℕ × ℕ × ℕ × ℕ
  pub rom_len : ℕ
  pub rom_hash : ℕ

-- `HEADER_BYTES`
abbrev pub header_bytes : ℕ
header_bytes = 8 + 4 + 1 + 4 + 8 + 4 + 8

abbrev pub code_bytes : ℕ × ℕ × ℕ × ℕ → List ℕ
code_bytes (a, b, c, d) = a ∷ b ∷ c ∷ d ∷ []

unfoldable pub wrap : Header → List ℕ → List ℕ
wrap self payload =
    magic
    ++ (u32_le current
        ++ (self.console
            ∷ (code_bytes self.gamecode
                ++ (u64_le self.rom_len
                    ++ (u32_le (length payload)
                        ++ (u64_le (content_hash payload) ++ (u64_le self.rom_hash ++ payload)))))))

-- `==` of byte slices.
abbrev pub same : List ℕ → List ℕ → Bool
same [] [] = true
same [] (y ∷ ys) = false
same (x ∷ xs) [] = false
same (x ∷ xs) (y ∷ ys) = (x == y) && same xs ys

abbrev pub u32_at : List ℕ → ℕ → ℕ
u32_at file o =
    from_le_bytes
      (get_or file o 0 ∷ get_or file (o + 1) 0 ∷ get_or file (o + 2) 0 ∷ get_or file (o + 3) 0 ∷ [])

-- The payload from `start`, of the length and the hash that the header states.
unfoldable pub payload_from : List ℕ → ℕ → ℕ → ℕ → Result (List ℕ)
payload_from file start payload_len hash =
    let payload = slice file start (start + payload_len) in
    if ltb (length file) (start + payload_len)
    then err (malformed Why.payload_short)
    else if length file != start + payload_len
    then err (malformed Why.trailing_after)
    else if content_hash payload != hash
    then err SnapError.hash
    else ok payload

-- The console, the game code and the length of the ROM are those of `expect`.
abbrev pub same_rom : List ℕ → Header → Bool
same_rom file expect =
    (get_or file 12 0 == expect.console)
    && same (slice file 13 17) (code_bytes expect.gamecode)
    && (from_le_bytes (slice file 17 25) == expect.rom_len)

-- After the fingerprint of the ROM, which version 4 brought in.
unfoldable pub payload_of : List ℕ → Header → Result (List ℕ)
payload_of file expect =
    let payload_len = u32_at file 25 in
    let stored = from_le_bytes (slice file 29 37) in
    let fingerprint = from_le_bytes (slice file header_bytes (header_bytes + 8)) in
    if leb 4 (u32_at file 8)
    then if ltb (length file) (header_bytes + 8)
      then err (malformed Why.no_fingerprint)
      else if fingerprint != expect.rom_hash
      then err wrong_rom
      else payload_from file (header_bytes + 8) payload_len stored
    else payload_from file header_bytes payload_len stored

unfoldable pub unwrap_payload : List ℕ → Header → Result (List ℕ)
unwrap_payload file expect =
    let written = u32_at file 8 in
    if ltb (length file) header_bytes || not (same (take 8 file) magic)
    then err SnapError.magic
    else if not (leb 2 written && leb written current)
    then err (SnapError.version written)
    else if not (same_rom file expect)
    then err wrong_rom
    else payload_of file expect
