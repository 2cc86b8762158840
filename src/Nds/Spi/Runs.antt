-- ===== src/Nds/Spi/Runs.antt =====
-- The SPI bus of core/src/nds/spi.rs under the register writes of the ARM7 and the pen, from reset.
use emulator_app.Base.{
  ℕ, ◌+◌, ◌^◌, ◌<◌, ◌≡◌, ◌∙◌, Bool, arith, List, [], ◌∷◌, length, length-set, length-replicate, set,
  replicate, IsBytes, IsBytes-set, IsBytes-replicate, All, bit_and, bit_or, bit_and_low, bit_and-le,
  u16, ◌<<◌,
}
use emulator_app.Nds.Settings.{build_user_settings}
use emulator_app.Nds.Spi.Tsc
use emulator_app.Nds.Spi.Pmic
use emulator_app.Nds.Spi.Firmware
use emulator_app.Nds.Spi.Firmware.{initial_image, copy_at, firmware_bytes}
use emulator_app.Nds.Spi.Calibration.{length-copy_at}
use emulator_app.Nds.Spi.Controller.{
  SpiController, new, release, route, clock, write_spicnt, write_spidata, write_byte,
}
use emulator_app.Nds.Spi.Valid.{
  IsTouchValid, IsPowerValid, IsFlashValid, tsc-IsTouchValid, pmic-IsPowerValid,
  firmware-IsFlashValid,
}

pub record IsBusValid (s : SpiController) : Type 0 where
  pub tsc_valid : IsTouchValid s.tsc
  pub pmic_valid : IsPowerValid s.pmic
  pub firmware_valid : IsFlashValid s.firmware
  pub spicnt_fits : s.spicnt < 2 ^ 16
  pub spidata_fits : s.spidata < 256

release-IsBusValid : (s : SpiController) → IsBusValid s → IsBusValid (release s)
unfolding release Tsc.reset_state Firmware.reset_state
release-IsBusValid s h =
    let f = h.firmware_valid in
    let t = h.tsc_valid in
    record {
      tsc_valid = record {
        pending = omega arith;
        channel_fits = t.channel_fits;
        result_fits = t.result_fits;
        x_fits = t.x_fits;
        y_fits = t.y_fits;
      };
      pmic_valid = record {
        control_fits = h.pmic_valid.control_fits;
        addr_fits = h.pmic_valid.addr_fits;
      };
      firmware_valid = record {
        size = f.size;
        bytes = f.bytes;
        cmd_fits = omega arith;
        idx_fits = omega arith;
        addr_fits = omega arith;
        wip_fits = ground (arith, f.wip_fits);
      };
      spicnt_fits = h.spicnt_fits;
      spidata_fits = h.spidata_fits;
    }

clock-IsBusValid : (s : SpiController) (v : ℕ) → v < 256 → IsBusValid s → IsBusValid (clock s v)
unfolding clock route
clock-IsBusValid s v hv h = ground (
  arith,
  tsc-IsTouchValid s.tsc v h.tsc_valid,
  pmic-IsPowerValid s.pmic v h.pmic_valid,
  firmware-IsFlashValid s.firmware v hv h.firmware_valid,
)

write_spidata-IsBusValid :
    (s : SpiController) (v : ℕ) → IsBusValid s → IsBusValid (write_spidata s v)
unfolding write_spidata
write_spidata-IsBusValid s v h =
    let b = bit_and v 0xFF in
    let clocked = clock-IsBusValid s b (omega (arith, bit_and_low 8 v)) h in
    ground (arith, h, clocked, release-IsBusValid (clock s b) clocked)

write_spicnt-IsBusValid : (s : SpiController) (v : ℕ) → IsBusValid s → IsBusValid (write_spicnt s v)
unfolding write_spicnt
write_spicnt-IsBusValid s v h =
    let s1 : SpiController = record s { spicnt = bit_and v 0xCF03 } in
    let kept : IsBusValid s1 = record {
      tsc_valid = h.tsc_valid;
      pmic_valid = h.pmic_valid;
      firmware_valid = h.firmware_valid;
      spicnt_fits = omega (arith, bit_and-le v 0xCF03);
      spidata_fits = h.spidata_fits;
    } in
    ground (arith, kept, release-IsBusValid s1 kept)

write_byte-IsBusValid :
    (s : SpiController) (offset v : ℕ) → IsBusValid s → IsBusValid (write_byte s offset v).0
unfolding write_byte
write_byte-IsBusValid s offset v h = ground (
  arith,
  h,
  write_spidata-IsBusValid s v h,
  write_spidata-IsBusValid s (bit_or (bit_and s.spidata 0x00FF) (u16 (v << 8))) h,
  write_spicnt-IsBusValid s (bit_or (bit_and s.spicnt 0xFF00) v) h,
  write_spicnt-IsBusValid s (bit_or (bit_and s.spicnt 0x00FF) (u16 (v << 8))) h,
)

-- What the bus is driven by: register writes of either width, and the pen.
pub data Event : Type 0 where
  control : ℕ → Event
  transfer : ℕ → Event
  byte : ℕ → ℕ → Event
  pen : Bool → ℕ → ℕ → Event

abbrev touch : SpiController → Bool → ℕ → ℕ → SpiController
touch s down x y = record s {
  tsc = record s.tsc { touch_pressed = down; touch_x = u16 x; touch_y = u16 y };
}

unfoldable pub act : SpiController → Event → SpiController
unfolding write_byte
act s (control v) = write_spicnt s v
act s (transfer v) = write_spidata s v
act s (byte offset v) = (write_byte s offset v).0
act s (pen down x y) = touch s down x y

unfoldable pub run : SpiController → List Event → SpiController
run s [] = s
run s (e ∷ es) = run (act s e) es

act-IsBusValid : (s : SpiController) (e : Event) → IsBusValid s → IsBusValid (act s e)
unfolding act
act-IsBusValid s (control v) h = write_spicnt-IsBusValid s v h
act-IsBusValid s (transfer v) h = write_spidata-IsBusValid s v h
act-IsBusValid s (byte offset v) h = write_byte-IsBusValid s offset v h
act-IsBusValid s (pen down x y) h = ground (arith, h.tsc_valid, h.pmic_valid, h.firmware_valid)

pub run-IsBus_from : (s : SpiController) (es : List Event) → IsBusValid s → IsBusValid (run s es)
unfolding run
run-IsBus_from s [] h = h
run-IsBus_from s (e ∷ es) h = run-IsBus_from (act s e) es (act-IsBusValid s e h)

IsBytes-copy_at :
    (d : List ℕ) (at : ℕ) (bs : List ℕ)
    → IsBytes d
    → All (λ v. v < 256) bs
    → IsBytes (copy_at d at bs)
unfolding copy_at
IsBytes-copy_at d at [] h small = h
IsBytes-copy_at d at (b ∷ bs) h small =
    IsBytes-copy_at (set d at b) (at + 1) bs (IsBytes-set d at b h small.0) small.1

settings_bytes : All (λ v. v < 256) build_user_settings
unfolding build_user_settings
settings_bytes = omega arith

initial_image-IsBytes : IsBytes initial_image
unfolding initial_image
initial_image-IsBytes =
    let erased : List ℕ = replicate firmware_bytes 0xFF in
    IsBytes-copy_at (set (set erased 0x20 0xC0) 0x21 0x7F) 0x3FE00 build_user_settings
      (IsBytes-set (set erased 0x20 0xC0) 0x21 0x7F
        (IsBytes-set erased 0x20 0xC0 (IsBytes-replicate firmware_bytes 0xFF (omega arith))
          (omega arith))
        (omega arith))
      settings_bytes

pub initial_image-length : length initial_image ≡ firmware_bytes
unfolding initial_image
initial_image-length =
    let erased : List ℕ = replicate firmware_bytes 0xFF in
    length-copy_at (set (set erased 0x20 0xC0) 0x21 0x7F) 0x3FE00 build_user_settings
    ∙ length-set (set erased 0x20 0xC0) 0x21 0x7F
    ∙ length-set erased 0x20 0xC0
    ∙ length-replicate firmware_bytes 0xFF

pub new-IsBusValid : IsBusValid new
unfolding new Tsc.new Pmic.new Firmware.new
new-IsBusValid = record {
  tsc_valid = omega arith;
  pmic_valid = omega arith;
  firmware_valid = record {
    size = initial_image-length;
    bytes = initial_image-IsBytes;
    cmd_fits = omega arith;
    idx_fits = omega arith;
    addr_fits = omega arith;
    wip_fits = omega arith;
  };
  spicnt_fits = omega arith;
  spidata_fits = omega arith;
}

-- From reset, whatever the ARM7 writes to the bus and wherever the pen goes, the bus stays well
-- formed: the firmware image keeps its size and stays bytes, each device answers a byte, and the
-- touch screen is never left in a data phase with no data byte to answer.
pub run-IsBusValid : (es : List Event) → IsBusValid (run new es)
run-IsBusValid es = run-IsBus_from new es new-IsBusValid
