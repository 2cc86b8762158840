-- ===== src/Rom.antt =====
-- core/src/rom.rs: `validate_and_parse_header`, which tells the console of a ROM. A text profile, which
-- stands in for a ROM, is a parameter: what reading its lines gave.
pub mod Accepted
pub mod Checksum
mod Tests
use emulator_app.Base.{
  ℕ, zero, suc, ◌+◌, ◌-◌, ◌%◌, Bool, true, false, not, ◌&&◌, ◌||◌, ◌==◌, ◌!=◌, ltb, leb,
  if◌then◌else◌, List, [], ◌∷◌, Option, some, none, get_or, length, slice,
}

pub data ConsoleType : Type 0 where
  gbc gba nds : ConsoleType

-- The messages of the source.
pub data HeaderError : Type 0 where
  empty_rom invalid_logo invalid_checksum missing_console gba_checksum_mismatch : HeaderError
  gbc_console_mismatch gbc_checksum_mismatch invalid_title truncated_rom : HeaderError

pub data HeaderResult : Type 0 where
  ok : ConsoleType → HeaderResult
  err : HeaderError → HeaderResult

-- The lines of a text profile: its console, where that is one of the three names, and whether its
-- logo and its checksum say VALID.
pub record TextProfile : Type 0 where
  pub console : Option ConsoleType
  pub logo_valid : Bool
  pub checksum_valid : Bool

abbrev pub gbc_logo : List ℕ
gbc_logo =
    0xCE ∷ 0xED ∷ 0x66 ∷ 0x66 ∷ 0xCC ∷ 0x0D ∷ 0x00 ∷ 0x0B ∷ 0x03 ∷ 0x73 ∷ 0x00 ∷ 0x83 ∷ 0x00 ∷ 0x0C
    ∷ 0x00 ∷ 0x0D ∷ 0x00 ∷ 0x08 ∷ 0x11 ∷ 0x1F ∷ 0x88 ∷ 0x89 ∷ 0x00 ∷ 0x0E ∷ 0xDC ∷ 0xCC ∷ 0x6E
    ∷ 0xE6 ∷ 0xDD ∷ 0xDD ∷ 0xD9 ∷ 0x99 ∷ 0xBB ∷ 0xBB ∷ 0x67 ∷ 0x63 ∷ 0x6E ∷ 0x0E ∷ 0xEC ∷ 0xCC
    ∷ 0xDD ∷ 0xDC ∷ 0x99 ∷ 0x9F ∷ 0xBB ∷ 0xB9 ∷ 0x33 ∷ 0x3E ∷ []

abbrev pub gba_logo : List ℕ
gba_logo =
    0x24 ∷ 0xFF ∷ 0xAE ∷ 0x51 ∷ 0x69 ∷ 0x9A ∷ 0xA2 ∷ 0x21 ∷ 0x3D ∷ 0x84 ∷ 0x82 ∷ 0x0A ∷ 0x84 ∷ 0xE4
    ∷ 0x09 ∷ 0xAD ∷ 0x11 ∷ 0x24 ∷ 0x8B ∷ 0x98 ∷ 0xC0 ∷ 0x81 ∷ 0x7F ∷ 0x21 ∷ 0xA3 ∷ 0x52 ∷ 0xBE
    ∷ 0x19 ∷ 0x93 ∷ 0x09 ∷ 0xCE ∷ 0x20 ∷ 0x10 ∷ 0x46 ∷ 0x4A ∷ 0x4A ∷ 0xF8 ∷ 0x27 ∷ 0x31 ∷ 0xEC
    ∷ 0x58 ∷ 0xC7 ∷ 0xE8 ∷ 0x33 ∷ 0x82 ∷ 0xE3 ∷ 0xCE ∷ 0xBF ∷ 0x85 ∷ 0xF4 ∷ 0xDF ∷ 0x94 ∷ 0xCE
    ∷ 0x4B ∷ 0x09 ∷ 0xC1 ∷ 0x94 ∷ 0x56 ∷ 0x8A ∷ 0xC0 ∷ 0x13 ∷ 0x72 ∷ 0xA7 ∷ 0xFC ∷ 0x9F ∷ 0x84
    ∷ 0x4D ∷ 0x73 ∷ 0xA3 ∷ 0xCA ∷ 0x9A ∷ 0x61 ∷ 0x58 ∷ 0x97 ∷ 0xA3 ∷ 0x27 ∷ 0xFC ∷ 0x03 ∷ 0x98
    ∷ 0x76 ∷ 0x23 ∷ 0x1D ∷ 0xC7 ∷ 0x61 ∷ 0x03 ∷ 0x04 ∷ 0xAE ∷ 0x56 ∷ 0xBF ∷ 0x38 ∷ 0x84 ∷ 0x00
    ∷ 0x40 ∷ 0xA7 ∷ 0x0E ∷ 0xFD ∷ 0xFF ∷ 0x52 ∷ 0xFE ∷ 0x03 ∷ 0x6F ∷ 0x95 ∷ 0x30 ∷ 0xF1 ∷ 0x97
    ∷ 0xFB ∷ 0xC0 ∷ 0x85 ∷ 0x60 ∷ 0xD6 ∷ 0x80 ∷ 0x25 ∷ 0xA9 ∷ 0x63 ∷ 0xBE ∷ 0x03 ∷ 0x01 ∷ 0x4E
    ∷ 0x38 ∷ 0xE2 ∷ 0xF9 ∷ 0xA2 ∷ 0x34 ∷ 0xFF ∷ 0xBB ∷ 0x3E ∷ 0x03 ∷ 0x44 ∷ 0x78 ∷ 0x00 ∷ 0x90
    ∷ 0xCB ∷ 0x88 ∷ 0x11 ∷ 0x3A ∷ 0x94 ∷ 0x65 ∷ 0xC0 ∷ 0x7C ∷ 0x63 ∷ 0x87 ∷ 0xF0 ∷ 0x3C ∷ 0xAF
    ∷ 0xD6 ∷ 0x25 ∷ 0xE4 ∷ 0x8B ∷ 0x38 ∷ 0x0A ∷ 0xAC ∷ 0x72 ∷ 0x21 ∷ 0xD4 ∷ 0xF8 ∷ 0x07 ∷ []

-- `==` of byte slices.
unfoldable pub same_bytes : List ℕ → List ℕ → Bool
same_bytes [] [] = true
same_bytes [] (y ∷ ys) = false
same_bytes (x ∷ xs) [] = false
same_bytes (x ∷ xs) (y ∷ ys) = (x == y) && same_bytes xs ys

abbrev pub wrapping_sub : ℕ → ℕ → ℕ
wrapping_sub a b = (a + 256 - b) % 256

-- The loop of the GBA checksum: `n` bytes from `i`.
unfoldable pub gba_sum : List ℕ → ℕ → ℕ → ℕ → ℕ
gba_sum rom i zero checksum = checksum
gba_sum rom i (suc n) checksum = gba_sum rom (i + 1) n (wrapping_sub checksum (get_or rom i 0))

unfoldable pub gba_checksum : List ℕ → ℕ
gba_checksum rom = wrapping_sub (gba_sum rom 0xA0 (0xBD - 0xA0) 0) 0x19

unfoldable pub gbc_sum : List ℕ → ℕ → ℕ → ℕ → ℕ
gbc_sum rom i zero checksum = checksum
gbc_sum rom i (suc n) checksum =
    gbc_sum rom (i + 1) n (wrapping_sub (wrapping_sub checksum (get_or rom i 0)) 1)

unfoldable pub gbc_checksum : List ℕ → ℕ
gbc_checksum rom = gbc_sum rom 0x134 (0x14D - 0x134) 0

-- A text profile with a console.
abbrev pub text_result : TextProfile → HeaderResult
text_result t =
    if not t.logo_valid
    then err invalid_logo
    else if not t.checksum_valid
    then err invalid_checksum
    else elim t.console [ some console ↦ ok console | none ↦ err missing_console ]

unfoldable pub is_nds : List ℕ → Bool
is_nds rom = leb 0x200 (length rom) && same_bytes (slice rom 0x0C0 (0x0C0 + 156)) gba_logo

-- `parse_ascii_title` refuses no title.
unfoldable pub gba_header : List ℕ → HeaderResult
gba_header rom =
    if not (same_bytes (slice rom 0x004 (0x004 + 156)) gba_logo)
    then err invalid_logo
    else if get_or rom 0xBD 0 != gba_checksum rom
    then err gba_checksum_mismatch
    else ok gba

unfoldable pub gbc_header : List ℕ → HeaderResult
gbc_header rom =
    if not (same_bytes (slice rom 0x104 (0x104 + 48)) gbc_logo)
    then err invalid_logo
    else if get_or rom 0x143 0 != 0x80 && get_or rom 0x143 0 != 0xC0
    then err gbc_console_mismatch
    else if get_or rom 0x14D 0 != gbc_checksum rom
    then err gbc_checksum_mismatch
    else ok gbc

unfoldable pub binary_header : List ℕ → HeaderResult
binary_header rom =
    if is_nds rom
    then ok nds
    else if leb 0xC0 (length rom) && get_or rom 0xB2 0 == 0x96
    then gba_header rom
    else if leb 0x150 (length rom)
    then gbc_header rom
    else err truncated_rom

unfoldable pub validate_and_parse_header : Option TextProfile → List ℕ → HeaderResult
validate_and_parse_header text rom =
    if length rom == 0
    then err empty_rom
    else elim text [ some profile ↦ text_result profile | none ↦ binary_header rom ]
