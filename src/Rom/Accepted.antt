-- ===== src/Rom/Accepted.antt =====
-- What rom.rs checked of a GBA ROM that it accepts.
use emulator_app.Base.{
  ℕ, ◌+◌, ◌≤◌, ◌≡◌, ◌≢◌, refl, Bool, true, false, not, ◌&&◌, ◌==◌, ◌!=◌, ==_iff, leb→le, ltb, leb,
  if◌then◌else◌, arith, List, none, get_or, length, slice,
}
use emulator_app.Rom.{
  HeaderError, HeaderResult, ok, err, gba, gbc, nds, gbc_logo, gbc_checksum, empty_rom,
  invalid_logo, truncated_rom, gbc_console_mismatch, gbc_checksum_mismatch, gba_logo,
  gba_checksum_mismatch, same_bytes, gba_checksum, is_nds, gba_header, gbc_header, binary_header,
  validate_and_parse_header,
}

-- The header of a GBA ROM that is accepted.
pub record IsGba (rom : List ℕ) : Type 0 where
  pub other : is_nds rom ≡ false
  pub long : 0xC0 ≤ length rom
  pub mark : get_or rom 0xB2 0 ≡ 0x96
  pub logo : same_bytes (slice rom 4 0xA0) gba_logo ≡ true
  pub checked : (get_or rom 0xBD 0 == gba_checksum rom) ≡ true

skip :
    (b : Bool) (r rest : HeaderResult)
    → r ≢ ok gba
    → (if b then r else rest) ≡ ok gba
    → (b ≡ false) × (rest ≡ ok gba)
skip true r rest refused h = absurd (refused h)
skip false r rest refused h = (refl, h)

keep :
    (b : Bool) (r rest : HeaderResult)
    → rest ≢ ok gba
    → (if b then r else rest) ≡ ok gba
    → (b ≡ true) × (r ≡ ok gba)
keep true r rest refused h = (refl, h)
keep false r rest refused h = absurd (refused h)

err-ne-gba : (e : HeaderError) → err e ≢ ok gba
err-ne-gba e h = ground arith

nds-ne-gba : ok nds ≢ ok gba
nds-ne-gba e = ground arith

gbc_header-ne-gba : (rom : List ℕ) → gbc_header rom ≢ ok gba
unfolding gbc_header
gbc_header-ne-gba rom h =
    let differs = get_or rom 0x14D 0 != gbc_checksum rom in
    let console = get_or rom 0x143 0 != 0x80 && get_or rom 0x143 0 != 0xC0 in
    let last : HeaderResult = if differs then err gbc_checksum_mismatch else ok gbc in
    let marked : HeaderResult = if console then err gbc_console_mismatch else last in
    let one =
      skip (not (same_bytes (slice rom 0x104 (0x104 + 48)) gbc_logo)) (err invalid_logo) marked
        (err-ne-gba invalid_logo) h in
    let two =
      skip console (err gbc_console_mismatch) last (err-ne-gba gbc_console_mismatch) one.1 in
    let three =
      skip differs (err gbc_checksum_mismatch) (ok gbc) (err-ne-gba gbc_checksum_mismatch) two.1 in
    other_console three.1
  where
    other_console : ok gbc ≢ ok gba
    other_console e = ground arith

both_true : (a b : Bool) → (a && b) ≡ true → (a ≡ true) × (b ≡ true)
both_true a b h = ground arith

not-false : (b : Bool) → not b ≡ false → b ≡ true
not-false b h = ground arith

differ_false : (m n : ℕ) → (m != n) ≡ false → (m == n) ≡ true
differ_false m n h = ground arith

pub same_false : (m n : ℕ) → (m == n) ≡ false → (m != n) ≡ true
same_false m n h = ground arith

pub within_header : (j : ℕ) → 0xA0 ≤ j → j ≤ 0xBD → (leb 0xA0 j && ltb j (0xA0 + 30)) ≡ true
within_header j lo hi = ground arith

gba_header-ok :
    (rom : List ℕ)
    → gba_header rom ≡ ok gba
    → (same_bytes (slice rom 4 0xA0) gba_logo ≡ true)
      × ((get_or rom 0xBD 0 == gba_checksum rom) ≡ true)
unfolding gba_header
gba_header-ok rom h =
    let matched = get_or rom 0xBD 0 != gba_checksum rom in
    let last : HeaderResult = if matched then err gba_checksum_mismatch else ok gba in
    let one =
      skip (not (same_bytes (slice rom 4 0xA0) gba_logo)) (err invalid_logo) last
        (err-ne-gba invalid_logo) h in
    let two =
      skip matched (err gba_checksum_mismatch) (ok gba) (err-ne-gba gba_checksum_mismatch) one.1 in
    (
      not-false (same_bytes (slice rom 4 0xA0) gba_logo) one.0,
      differ_false (get_or rom 0xBD 0) (gba_checksum rom) two.0,
    )

pub accepted-IsGba : (rom : List ℕ) → validate_and_parse_header none rom ≡ ok gba → IsGba rom
unfolding validate_and_parse_header binary_header
accepted-IsGba rom accepted =
    let gbc_part : HeaderResult =
      if leb 0x150 (length rom) then gbc_header rom else err truncated_rom in
    let is_gba = leb 0xC0 (length rom) && get_or rom 0xB2 0 == 0x96 in
    let gba_part : HeaderResult = if is_gba then gba_header rom else gbc_part in
    let no_gbc : gbc_part ≢ ok gba =
      λ h. gbc_header-ne-gba rom (skip_err (leb 0x150 (length rom)) (gbc_header rom) h) in
    let one =
      skip (length rom == 0) (err empty_rom) (if is_nds rom then ok nds else gba_part)
        (err-ne-gba empty_rom) accepted in
    let two = skip (is_nds rom) (ok nds) gba_part nds-ne-gba one.1 in
    let three = keep is_gba (gba_header rom) gbc_part no_gbc two.1 in
    let header = gba_header-ok rom three.1 in
    let marks = both_true (leb 0xC0 (length rom)) (get_or rom 0xB2 0 == 0x96) three.0 in
    record {
      other = two.0;
      long = leb→le 0xC0 (length rom) marks.0;
      mark = (==_iff (get_or rom 0xB2 0) 0x96).0 marks.1;
      logo = header.0;
      checked = header.1;
    }
  where
    skip_err :
        (b : Bool) (r : HeaderResult) → (if b then r else err truncated_rom) ≡ ok gba → r ≡ ok gba
    skip_err b r h = (keep b r (err truncated_rom) (err-ne-gba truncated_rom) h).1
