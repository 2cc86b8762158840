-- ===== src/Nds/Spi/Calibration.antt =====
-- The touch screen of core/src/nds/spi.rs against the calibration of core/src/nds/hle.rs that the
-- firmware image carries.
use emulator_app.Base.{
  ℕ, zero, suc, ◌+◌, ◌-◌, ◌*◌, ◌≤◌, ◌<◌, ◌≡◌, refl, ap, ◌∙◌, true, arith, List, [], ◌∷◌, All,
  get_or, set, get_or-set, length, length-set, length-replicate, replicate,
}
use emulator_app.Nds.Settings.{build_user_settings}
use emulator_app.Nds.Spi.Tsc.{TouchScreenController, calculate_result, process_byte}
use emulator_app.Nds.Spi.Firmware.{copy_at, initial_image, firmware_bytes}
use emulator_app.Nds.Spi.Controller.{SpiController, write_spidata}
use emulator_app.Nds.Spi.Conversion.{channel, adc, IsControl, burst, decode, decode-clocked}
use emulator_app.Nds.Spi.Bus.{Selects, IsByte, bus_clocked, bus_clocked_tsc, write_spidata_tsc}

pub length-copy_at : (d : List ℕ) (at : ℕ) (bs : List ℕ) → length (copy_at d at bs) ≡ length d
unfolding copy_at
length-copy_at d at [] = refl
length-copy_at d at (b ∷ bs) = length-copy_at (set d at b) (at + 1) bs ∙ length-set d at b

get_or-copy_at_before :
    (d : List ℕ) (at : ℕ) (bs : List ℕ) (j e : ℕ)
    → j < at
    → get_or (copy_at d at bs) j e ≡ get_or d j e
unfolding copy_at
get_or-copy_at_before d at [] j e h = refl
get_or-copy_at_before d at (b ∷ bs) j e h =
    get_or-copy_at_before (set d at b) (at + 1) bs j e (omega arith)
    ∙ ground (arith, get_or-set d at j b e)

get_or-copy_at :
    (d : List ℕ) (at : ℕ) (bs : List ℕ) (i e : ℕ)
    → at + length bs ≤ length d
    → i < length bs
    → get_or (copy_at d at bs) (at + i) e ≡ get_or bs i e
unfolding copy_at
get_or-copy_at d at [] i e fits h = absurd (omega arith)
get_or-copy_at d at (b ∷ bs) zero e fits h =
    let here : at + 0 ≡ at = omega arith in
    rw (here) (
      get_or-copy_at_before (set d at b) (at + 1) bs at e (omega arith)
      ∙ ground (arith, get_or-set d at at b e))
get_or-copy_at d at (b ∷ bs) (suc i) e fits h =
    let next : at + suc i ≡ at + 1 + i = omega arith in
    rw (next)
      (get_or-copy_at (set d at b) (at + 1) bs i e (omega (arith, length-set d at b)) (omega arith))

settings_size : length build_user_settings ≡ 512
unfolding build_user_settings
settings_size = refl

-- A byte of the settings page of a fresh firmware image, and a halfword.
abbrev pub page : ℕ → ℕ
page i = get_or initial_image (0x3FE00 + i) 0xFF

abbrev pub half : ℕ → ℕ
half i = page i + 256 * page (i + 1)

page_lem : (i : ℕ) → i < 512 → page i ≡ get_or build_user_settings i 0xFF
unfolding initial_image
page_lem i h =
    let image : List ℕ = set (set (replicate firmware_bytes 0xFF) 0x20 0xC0) 0x21 0x7F in
    let size : length image ≡ firmware_bytes =
      length-set (set (replicate firmware_bytes 0xFF) 0x20 0xC0) 0x21 0x7F
      ∙ length-set (replicate firmware_bytes 0xFF) 0x20 0xC0
      ∙ length-replicate firmware_bytes 0xFF in
    get_or-copy_at image 0x3FE00 build_user_settings i 0xFF (omega (arith, size, settings_size))
      (omega (arith, settings_size))

-- The measurement `a` and the pixel `p` lie on the line through the two points of a calibration. The
-- driver's division by the slope is then exact.
abbrev pub OnLine : ℕ → ℕ → ℕ → ℕ → ℕ → ℕ → Type 0
OnLine adc1 scr1 adc2 scr2 a p =
    (adc1 < adc2)
    × (scr1 < scr2)
    × (a * (scr2 - scr1) + scr1 * (adc2 - adc1) ≡ p * (adc2 - adc1) + adc1 * (scr2 - scr1))

abbrev pub OnXLine : ℕ → ℕ → Type 0
OnXLine = OnLine (half 0x58) (page 0x5C) (half 0x5E) (page 0x62)

abbrev pub OnYLine : ℕ → ℕ → Type 0
OnYLine = OnLine (half 0x5A) (page 0x5D) (half 0x60) (page 0x63)

bytes_at : (i : ℕ) → i < 512 → (v : ℕ) → get_or build_user_settings i 0xFF ≡ v → page i ≡ v
bytes_at i h v e = page_lem i h ∙ e

calibration :
    (half 0x58 ≡ 608)
    × (page 0x5C ≡ 32)
    × (half 0x5E ≡ 3488)
    × (page 0x62 ≡ 224)
    × (half 0x5A ≡ 608)
    × (page 0x5D ≡ 24)
    × (half 0x60 ≡ 3488)
    × (page 0x63 ≡ 168)
unfolding build_user_settings
calibration = omega (
  arith,
  bytes_at 0x58 (omega arith) 0x60 refl,
  bytes_at 0x59 (omega arith) 2 refl,
  bytes_at 0x5A (omega arith) 0x60 refl,
  bytes_at 0x5B (omega arith) 2 refl,
  bytes_at 0x5C (omega arith) 32 refl,
  bytes_at 0x5D (omega arith) 24 refl,
  bytes_at 0x5E (omega arith) 0xA0 refl,
  bytes_at 0x5F (omega arith) 13 refl,
  bytes_at 0x60 (omega arith) 0xA0 refl,
  bytes_at 0x61 (omega arith) 13 refl,
  bytes_at 0x62 (omega arith) 224 refl,
  bytes_at 0x63 (omega arith) 168 refl,
)

-- Over a pen inside the 256 by 192 screen.
pub record Touches (t : TouchScreenController) (x y : ℕ) : Type 0 where
  pub pressed : t.touch_pressed ≡ true
  pub at_x : t.touch_x ≡ x
  pub at_y : t.touch_y ≡ y
  pub in_x : x < 256
  pub in_y : y < 192

pub adc-OnXLine :
    (t : TouchScreenController) (x y : ℕ)
    → Touches t x y
    → OnXLine (adc t 5) x × (0 < adc t 5) × (adc t 5 < 4095)
unfolding adc calculate_result
adc-OnXLine t x y h =
    let (a1, s1, a2, s2, b1, r1, b2, r2) = calibration in rw (a1, s1, a2, s2) (ground arith)

pub adc-OnYLine :
    (t : TouchScreenController) (x y : ℕ)
    → Touches t x y
    → OnYLine (adc t 1) y × (0 < adc t 1) × (adc t 1 < 4095)
unfolding adc calculate_result
adc-OnYLine t x y h =
    let (a1, s1, a2, s2, b1, r1, b2, r2) = calibration in rw (b1, r1, b2, r2) (ground arith)

-- A pen on the screen, sampled over the bus: a control byte for X and then one for Y, overlapped on
-- its data, read back two measurements. Each lies on the line of the calibration that the firmware
-- image holds for that axis, at the pixel under the pen, and neither is at a rail of the converter.
pub bus_clocked-OnLine :
    (s : SpiController) (x y cx cy : ℕ)
    → Selects s 2
    → Touches s.tsc x y
    → IsByte cx × IsByte cy
    → IsControl cx × IsControl cy
    → (channel cx ≡ 5) × (channel cy ≡ 1)
    → (a : ℕ) × (b : ℕ) × (decode (bus_clocked (write_spidata s cx) (burst (cy ∷ []))) ≡ a ∷ b ∷ [])
      × (OnXLine a x × (0 < a) × (a < 4095))
      × (OnYLine b y × (0 < b) × (b < 4095))
bus_clocked-OnLine s x y cx cy sel pen small control chosen =
    let s1 : SpiController = record s {
      tsc = (process_byte s.tsc cx).0;
      spidata = (process_byte s.tsc cx).1;
    } in
    let still : Selects s1 2 = record {
      on = sel.on;
      selected = sel.selected;
      holding = sel.holding;
    } in
    let bytes : All IsByte (burst (cy ∷ [])) =
      (omega arith, (small.1, (omega arith, (omega arith, tt)))) in
    (
      adc s.tsc 5,
      adc s.tsc 1,
      ap (λ s'. decode (bus_clocked s' (burst (cy ∷ [])))) (write_spidata_tsc s cx sel small.0)
          ∙ ap decode (bus_clocked_tsc s1 (burst (cy ∷ [])) still bytes)
          ∙ decode-clocked s.tsc cx (cy ∷ []) (control.0, (control.1, tt))
          ∙ ap (λ (n : ℕ). adc s.tsc n ∷ adc s.tsc (channel cy) ∷ []) chosen.0
          ∙ ap (λ (n : ℕ). adc s.tsc 5 ∷ adc s.tsc n ∷ []) chosen.1,
      adc-OnXLine s.tsc x y pen,
      adc-OnYLine s.tsc x y pen,
    )
