-- ===== src/Rom/Tests.antt =====
-- Witnesses and tests of the ROM headers.
use emulator_app.Base.{
  ℕ, ◌≡◌, refl, Bool, true, ◌&&◌, ltb, ltb→lt, arith, List, [], ◌∷◌, ◌++◌, none, set, IsBytes,
  IsBytes-cons,
}
use emulator_app.Rom.{
  err, ok, gba, gba_logo, gba_checksum_mismatch, same_bytes, gba_sum, gba_checksum, is_nds,
  gba_header, binary_header, validate_and_parse_header,
}
use emulator_app.Rom.Checksum.{validate_and_parse_header-set}

abbrev zeros : List ℕ
zeros = 0 ∷ 0 ∷ 0 ∷ 0 ∷ 0 ∷ 0 ∷ 0 ∷ 0 ∷ 0 ∷ []

-- A header with an empty title.
abbrev rom : List ℕ
rom =
    (0 ∷ 0 ∷ 0 ∷ 0 ∷ [])
    ++ (gba_logo ++ (zeros ++ (zeros ++ (0x96 ∷ 0 ∷ (zeros ++ (0x51 ∷ 0 ∷ 0 ∷ []))))))

abbrev are_bytes : List ℕ → Bool
are_bytes [] = true
are_bytes (x ∷ xs) = ltb x 256 && are_bytes xs

both : (a b : Bool) → (a && b) ≡ true → (a ≡ true) × (b ≡ true)
both a b h = ground arith

are_bytes-IsBytes : (xs : List ℕ) → are_bytes xs ≡ true → IsBytes xs
are_bytes-IsBytes [] h = λ j. omega arith
are_bytes-IsBytes (x ∷ xs) h =
    let parts = both (ltb x 256) (are_bytes xs) h in
    IsBytes-cons x xs (ltb→lt x 256 parts.0) (are_bytes-IsBytes xs parts.1)

rom_accepted : validate_and_parse_header none rom ≡ ok gba
unfolding validate_and_parse_header binary_header is_nds gba_header same_bytes gba_checksum gba_sum
rom_accepted = refl

validate_and_parse_header-set_example :
    validate_and_parse_header none (set rom 0xA3 0x41) ≡ err gba_checksum_mismatch
validate_and_parse_header-set_example =
    validate_and_parse_header-set rom 0xA3 0x41 (are_bytes-IsBytes rom refl) rom_accepted
      (omega arith) (omega arith) (omega arith) (omega arith) (omega arith)
