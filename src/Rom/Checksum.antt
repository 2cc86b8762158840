-- ===== src/Rom/Checksum.antt =====
-- The header checksum of rom.rs.
use emulator_app.Base.{
  ℕ, zero, suc, ◌+◌, ◌-◌, ◌%◌, ◌≤◌, ◌<◌, ◌≡◌, ◌≢◌, refl, ap, sym, ◌∙◌, true, false, ◌&&◌, ◌==◌,
  ◌!=◌, ne→==, ==_iff, le→leb, ltb, leb, if◌then◌else◌, arith, List, [], ◌∷◌, none, get_or, set,
  get_or-set, length, length-set, slice, take, drop, drop-set_before, drop-set_after,
  take-set_after, IsBytes, IsBytes-set,
}
use emulator_app.Rom.{
  ok, err, gba, gba_logo, gba_checksum_mismatch, same_bytes, wrapping_sub, gba_sum, gba_checksum,
  is_nds, gba_header, binary_header, validate_and_parse_header,
}
use emulator_app.Rom.Accepted.{accepted-IsGba, within_header, same_false}

-- The loop takes the sum of the bytes off.
abbrev total : List ℕ → ℕ → ℕ → ℕ
total rom i zero = 0
total rom i (suc n) = get_or rom i 0 + total rom (i + 1) n

IsByte-get_or : (rom : List ℕ) (i : ℕ) → IsBytes rom → get_or rom i 0 < 256
IsByte-get_or [] i h = omega arith
IsByte-get_or (x ∷ rom) zero h = h 0
IsByte-get_or (x ∷ rom) (suc i) h = IsByte-get_or rom i (λ j. h (suc j))

gba_sum_lem :
    (n i c : ℕ) (rom : List ℕ)
    → IsBytes rom
    → c < 256
    → (gba_sum rom i n c + total rom i n) % 256 ≡ c
unfolding gba_sum
gba_sum_lem zero i c rom h small = omega arith
gba_sum_lem (suc n) i c rom h small =
    let b = get_or rom i 0 in
    let byte = IsByte-get_or rom i h in
    let rest = gba_sum_lem n (i + 1) (wrapping_sub c b) rom h (omega arith) in omega (arith, rest)

total-set :
    (n i j v : ℕ) (rom : List ℕ)
    → j < length rom
    → total (set rom j v) i n + (if leb i j && ltb j (i + n) then get_or rom j 0 else 0)
      ≡ total rom i n + (if leb i j && ltb j (i + n) then v else 0)
total-set zero i j v rom inside = ground arith
total-set (suc n) i j v rom inside =
    ground (arith, total-set n (i + 1) j v rom inside, get_or-set rom j i v 0)

total_last : (n i : ℕ) (rom : List ℕ) → total rom i (suc n) ≡ total rom i n + get_or rom (i + n) 0
total_last zero i rom =
    let e : i ≡ i + 0 = omega arith in ap (λ k. get_or rom k 0 + 0) e ∙ omega arith
total_last (suc n) i rom =
    let e : i + 1 + n ≡ i + suc n = omega arith in
    omega (arith, total_last n (i + 1) rom, ap (λ k. get_or rom k 0) e)

gba_sum-bound : (n i c : ℕ) (rom : List ℕ) → c < 256 → gba_sum rom i n c < 256
unfolding gba_sum
gba_sum-bound zero i c rom small = small
gba_sum-bound (suc n) i c rom small =
    gba_sum-bound n (i + 1) (wrapping_sub c (get_or rom i 0)) rom (omega arith)

-- The checksum makes the 30 bytes from 0xA0 add up to 0xE7, up to multiples of 256.
pub gba_checksum_lem :
    (rom : List ℕ)
    → IsBytes rom
    → (get_or rom 0xBD 0 == gba_checksum rom) ≡ ((total rom 0xA0 30 + 0x19) % 256 == 0)
unfolding gba_checksum
gba_checksum_lem rom h =
    let sum = gba_sum_lem 29 0xA0 0 rom h (omega arith) in
    let small = gba_sum-bound 29 0xA0 0 rom (omega arith) in
    let last = IsByte-get_or rom 0xBD h in
    let split = total_last 29 0xA0 rom in ground (arith, sum, small, last, split)

slice-set_after :
    (rom : List ℕ) (j v : ℕ) → 0xA0 ≤ j → slice (set rom j v) 4 0xA0 ≡ slice rom 4 0xA0
slice-set_after rom j v h =
    let e : 4 + (j - 4) ≡ j = omega arith in
    ap (λ i. take 156 (drop 4 (set rom i v))) (sym e)
    ∙ ap (take 156) (drop-set_after 4 (j - 4) v rom)
    ∙ take-set_after 156 (j - 4) v (drop 4 rom) (omega arith)

is_nds-set : (rom : List ℕ) (j v : ℕ) → j < 0xC0 → is_nds (set rom j v) ≡ is_nds rom
unfolding is_nds
is_nds-set rom j v h = rw (length-set rom j v, drop-set_before 0xC0 j v rom h) refl

refused_lem :
    (rom : List ℕ)
    → same_bytes (slice rom 4 0xA0) gba_logo ≡ true
    → (get_or rom 0xBD 0 == gba_checksum rom) ≡ false
    → gba_header rom ≡ err gba_checksum_mismatch
unfolding gba_header
refused_lem rom logo wrong =
    let differs : (get_or rom 0xBD 0 != gba_checksum rom) ≡ true =
      same_false (get_or rom 0xBD 0) (gba_checksum rom) wrong in
    rw (logo, differs) refl

-- A GBA ROM that is accepted is refused for its checksum once any one byte from 0xA0 to 0xBD has
-- changed, other than the mark at 0xB2 that tells a GBA ROM.
pub validate_and_parse_header-set :
    (rom : List ℕ) (j v : ℕ)
    → IsBytes rom
    → validate_and_parse_header none rom ≡ ok gba
    → 0xA0 ≤ j
    → j ≤ 0xBD
    → j ≢ 0xB2
    → v < 256
    → v ≢ get_or rom j 0
    → validate_and_parse_header none (set rom j v) ≡ err gba_checksum_mismatch
unfolding validate_and_parse_header binary_header
validate_and_parse_header-set rom j v bytes accepted lo hi ne small changed =
    let old = accepted-IsGba rom accepted in
    let mark : get_or (set rom j v) 0xB2 0 ≡ 0x96 =
      get_or-set rom j 0xB2 v 0 ∙ rw (ne→== j 0xB2 ne) old.mark in
    let size : length (set rom j v) ≡ length rom = length-set rom j v in
    let before : (total rom 0xA0 30 + 0x19) % 256 ≡ 0 =
      (==_iff ((total rom 0xA0 30 + 0x19) % 256) 0).0
        (sym (gba_checksum_lem rom bytes) ∙ old.checked) in
    let within : (leb 0xA0 j && ltb j (0xA0 + 30)) ≡ true = within_header j lo hi in
    let sum = total-set 30 0xA0 j v rom (omega (arith, old.long)) in
    let moved : total (set rom j v) 0xA0 30 + get_or rom j 0 ≡ total rom 0xA0 30 + v =
      rw (within) at sum in
    let byte = IsByte-get_or rom j bytes in
    let wrong : (get_or (set rom j v) 0xBD 0 == gba_checksum (set rom j v)) ≡ false =
      gba_checksum_lem (set rom j v) (IsBytes-set rom j v bytes small)
      ∙ ne→== ((total (set rom j v) 0xA0 30 + 0x19) % 256) 0
          (λ e. omega (arith, moved, before, byte, e)) in
    let other : is_nds (set rom j v) ≡ false = is_nds-set rom j v (omega arith) ∙ old.other in
    let logo : same_bytes (slice (set rom j v) 4 0xA0) gba_logo ≡ true =
      ap (λ t. same_bytes t gba_logo) (slice-set_after rom j v lo) ∙ old.logo in
    let filled : (length rom == 0) ≡ false =
      ne→== (length rom) 0 (λ e. omega (arith, e, old.long)) in
    let long : leb 0xC0 (length rom) ≡ true = le→leb 0xC0 (length rom) old.long in
    let refused : gba_header (set rom j v) ≡ err gba_checksum_mismatch =
      refused_lem (set rom j v) logo wrong in
    rw (size, filled, other, long, mark) refused
