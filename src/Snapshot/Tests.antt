-- ===== src/Snapshot/Tests.antt =====
-- Witnesses and tests of the snapshots.
use emulator_app.Base.{ℕ, ◌+◌, ◌≤◌, ◌<◌, ◌≡◌, refl, ◌⊎◌, true, arith, List, [], ◌∷◌, length}
use emulator_app.Snapshot.Codec.{
  Why, snap_usize, visit_raw, read_raw, to_le_bytes, or_else, new, reader, error, ok, snap_le,
  snap_capped_vec,
}
use emulator_app.Snapshot.Container.{Header, content_hash, wrap, unwrap_payload, same_rom, u32_at}
use emulator_app.Snapshot.Integrity.{
  Fits, unwrap_payload-wrap, unwrap_payload-ok, start_of, stored_hash, fingerprint,
}
use emulator_app.Snapshot.Capped.{snap_capped_vec-length}

-- "IPGE", as in a Nintendo DS header.
abbrev cartridge : Header
cartridge = record {
  console = 2;
  gamecode = (0x49, 0x50, 0x47, 0x45);
  rom_len = 128;
  rom_hash = 42;
}

abbrev payload : List ℕ
payload = 1 ∷ 2 ∷ 3 ∷ 4 ∷ []

abbrev file : List ℕ
file = wrap cartridge payload

cartridge-Fits : Fits cartridge
cartridge-Fits = record { rom_len = omega arith; rom_hash = omega arith }

unwrap_payload-wrap_example : unwrap_payload file cartridge ≡ ok payload
unwrap_payload-wrap_example =
    unwrap_payload-wrap cartridge cartridge payload cartridge-Fits (omega arith)

accepted : unwrap_payload file cartridge ≡ ok payload
accepted = unwrap_payload-wrap cartridge cartridge payload cartridge-Fits (omega arith)

unwrap_payload-ok_example :
    (2 ≤ u32_at file 8)
    × (u32_at file 8 ≤ 4)
    × (same_rom file cartridge ≡ true)
    × ((u32_at file 8 < 4) ⊎ (fingerprint file ≡ cartridge.rom_hash))
    × (length file ≡ start_of (u32_at file 8) + u32_at file 25)
    × (length payload ≡ u32_at file 25)
    × (content_hash payload ≡ stored_hash file)
unwrap_payload-ok_example = unwrap_payload-ok file cartridge payload accepted

file_long : 48 < length file
unfolding wrap
file_long = omega arith

-- A stream that claims nine elements of a queue of eight.
abbrev claims_nine : List ℕ
claims_nine = 9 ∷ 0 ∷ 0 ∷ 0 ∷ []

snap_capped_vec-length_example :
    let got = snap_usize (reader (new claims_nine)) 2 in
    let after = snap_capped_vec (snap_le 4) 0 8 (reader (new claims_nine)) (5 ∷ 6 ∷ []) in
    ((got.1 ≤ 8) × (length after.1 ≡ got.1))
    ⊎ ((8 < got.1) × (after.1 ≡ 5 ∷ 6 ∷ []) × (error after.0 ≡ or_else (error got.0) Why.over_cap))
snap_capped_vec-length_example =
    snap_capped_vec-length (snap_le 4) 0 8 (new claims_nine) (5 ∷ 6 ∷ [])

-- The claim is over the cap.
claimed : (snap_usize (reader (new claims_nine)) 2).1 ≡ 9
unfolding snap_usize snap_le visit_raw read_raw to_le_bytes
claimed = refl
