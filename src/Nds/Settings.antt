-- ===== src/Nds/Settings.antt =====
-- core/src/nds/hle.rs: the user settings of the firmware, with their checksum.
use emulator_app.Base.{
  ℕ, zero, suc, ◌≡◌, refl, List, [], ◌∷◌, ◌!=◌, if◌then◌else◌, bit_and, bit_xor, replicate, set,
  take, u8, ◌>>◌,
}

-- The inner loop of `crc16`, over the bits that are left of a byte.
unfoldable pub crc_bits : ℕ → ℕ → ℕ
crc_bits zero crc = crc
crc_bits (suc k) crc =
    crc_bits k (if bit_and crc 1 != 0 then bit_xor (crc >> 1) 0xA001 else crc >> 1)

unfoldable pub crc_from : ℕ → List ℕ → ℕ
crc_from crc [] = crc
crc_from crc (byte ∷ bytes) = crc_from (crc_bits 8 (bit_xor crc byte)) bytes

unfoldable pub crc16 : List ℕ → ℕ
unfolding crc_from crc_bits
crc16 bytes = crc_from 0xFFFF bytes

-- The stores of `build_user_settings`, as addresses and bytes.
abbrev pub store_all : List ℕ → List (ℕ × ℕ) → List ℕ
store_all settings [] = settings
store_all settings ((i, v) ∷ more) = store_all (set settings i v) more

abbrev adc_x1 : ℕ
adc_x1 = 608

abbrev adc_y1 : ℕ
adc_y1 = 608

abbrev adc_x2 : ℕ
adc_x2 = 3488

abbrev adc_y2 : ℕ
adc_y2 = 3488

abbrev pub fields : List (ℕ × ℕ)
fields =
    (0x00, 0x05)
    ∷ (0x02, 0)
    ∷ (0x03, 1)
    ∷ (0x04, 1)
    ∷ (0x64, 1)
    ∷ (0x58, u8 adc_x1)
    ∷ (0x59, adc_x1 >> 8)
    ∷ (0x5A, u8 adc_y1)
    ∷ (0x5B, adc_y1 >> 8)
    ∷ (0x5C, 32)
    ∷ (0x5D, 24)
    ∷ (0x5E, u8 adc_x2)
    ∷ (0x5F, adc_x2 >> 8)
    ∷ (0x60, u8 adc_y2)
    ∷ (0x61, adc_y2 >> 8)
    ∷ (0x62, 224)
    ∷ (0x63, 168)
    ∷ (0x70, 0)
    ∷ (0x71, 0)
    ∷ []

unfoldable pub build_user_settings : List ℕ
unfolding crc16 replicate
build_user_settings =
    let settings = store_all (replicate 512 0) fields in
    let crc = crc16 (take 0x70 settings) in set (set settings 0x72 (u8 crc)) 0x73 (crc >> 8)

-- The check value of CRC-16/MODBUS.
crc16_check : crc16 (0x31 ∷ 0x32 ∷ 0x33 ∷ 0x34 ∷ 0x35 ∷ 0x36 ∷ 0x37 ∷ 0x38 ∷ 0x39 ∷ []) ≡ 0x4B37
unfolding crc16
crc16_check = refl
