-- ===== src/Nds/Spi/Tests.antt =====
-- Witnesses and tests of the SPI bus.
use emulator_app.Base.{
  ℕ, ◌+◌, ◌%◌, ◌<◌, ◌≡◌, ◌≢◌, refl, true, List, [], ◌∷◌, ◌++◌, if◌then◌else◌, arith, length, get_or,
  replicate, take, some, inl, ◌||◌, ◌==◌,
}
use emulator_app.Snapshot.Codec.{Why, ok, err, malformed}
use emulator_app.Snapshot.Streams.{saved, loaded}
use emulator_app.Nds.Backup.Frames.{address}
use emulator_app.Nds.Spi.Tsc
use emulator_app.Nds.Spi.Tsc.{TouchScreenController}
use emulator_app.Nds.Spi.Pmic
use emulator_app.Nds.Spi.Firmware
use emulator_app.Nds.Spi.Firmware.{FirmwareState, firmware_bytes}
use emulator_app.Nds.Spi.Controller
use emulator_app.Nds.Spi.Controller.{SpiController, write_spidata}
use emulator_app.Nds.Spi.Conversion.{burst, decode, clocked, measurements, decode-clocked}
use emulator_app.Nds.Spi.Bus.{bus_clocked}
use emulator_app.Nds.Spi.Calibration.{OnXLine, OnYLine, bus_clocked-OnLine}
use emulator_app.Nds.Spi.Frames.{outputs, frame, header, reset_state-Idle}
use emulator_app.Nds.Spi.Readback.{outputs-frame}
use emulator_app.Nds.Spi.Driver.{drive, driven, drive-frame}
use emulator_app.Nds.Spi.Window.{outputs-reset_state}
use emulator_app.Nds.Spi.Runs.{
  IsBusValid, Event, control, transfer, byte, pen, run, run-IsBusValid, initial_image-length,
}
use emulator_app.Nds.Spi.Snapshots.{snap_spi}
use emulator_app.Nds.Spi.Restore.{with_probes, loaded-saved_spi}

abbrev pressed : TouchScreenController
pressed = record Tsc.new { touch_pressed = true; touch_x = 100; touch_y = 120 }

abbrev sampling : SpiController
sampling = record Controller.new { spicnt = 0x8A00; tsc = pressed }

bus_clocked-OnLine_example :
    (a : ℕ) × (b : ℕ) × (decode (bus_clocked (write_spidata sampling 0xD1) (burst (0x91 ∷ [])))
      ≡ a ∷ b ∷ [])
    × (OnXLine a 100 × (0 < a) × (a < 4095))
    × (OnYLine b 120 × (0 < b) × (b < 4095))
unfolding Controller.new Tsc.new
bus_clocked-OnLine_example =
    bus_clocked-OnLine sampling 100 120 0xD1 0x91
      (record { on = refl; selected = refl; holding = refl })
      (record { pressed = refl; at_x = refl; at_y = refl; in_x = omega arith; in_y = omega arith })
      (omega arith, omega arith) ((refl, refl), (refl, refl)) (refl, refl)

decode-clocked_example :
    decode (clocked (Tsc.process_byte pressed 0xD1).0 (burst (0xD1 ∷ 0x91 ∷ [])))
    ≡ measurements pressed (0xD1 ∷ 0xD1 ∷ 0x91 ∷ [])
decode-clocked_example =
    decode-clocked pressed 0xD1 (0xD1 ∷ 0x91 ∷ [])
      ((refl, refl), ((refl, refl), ((refl, refl), tt)))

abbrev payload : List ℕ
payload = 0x55 ∷ 0xAA ∷ []

abbrev idle_flash : FirmwareState
idle_flash = Firmware.reset_state Firmware.new

idle_flash_size : length idle_flash.cells ≡ firmware_bytes
unfolding Firmware.reset_state Firmware.new
idle_flash_size = initial_image-length

outputs-frame_example :
    (outputs
        (frame idle_flash (header 0x0A 3 0xFE 0 ++ payload))
        (header 0x03 3 0xFE 0 ++ 0 ∷ 0 ∷ [])
      ≡ 0 ∷ 0 ∷ 0 ∷ 0 ∷ payload)
    × ((j : ℕ)
        → ((k : ℕ) → k < length payload → (address 3 0xFE 0 + k) % firmware_bytes ≢ j)
        → get_or (frame idle_flash (header 0x0A 3 0xFE 0 ++ payload)).cells j 0xFF
          ≡ get_or idle_flash.cells j 0xFF)
outputs-frame_example =
    outputs-frame idle_flash 0x0A 3 0xFE 0 payload (0 ∷ 0 ∷ []) (reset_state-Idle Firmware.new)
      idle_flash_size refl (omega arith) (omega arith) (omega arith) (omega arith) refl

abbrev bus : SpiController
bus = Controller.new

drive-frame_example :
    ((drive bus 0x05 (0 ∷ [])).firmware ≡ frame bus.firmware (0x05 ∷ 0 ∷ []))
    × (driven bus 0x05 (0 ∷ []) ≡ outputs bus.firmware (0x05 ∷ 0 ∷ []))
    × ((drive bus 0x05 (0 ∷ [])).tsc ≡ Tsc.reset_state bus.tsc)
    × ((drive bus 0x05 (0 ∷ [])).pmic ≡ record bus.pmic { state = Pmic.expect_command })
drive-frame_example = drive-frame bus 0x05 (0 ∷ []) (omega arith, (omega arith, tt))

abbrev written : FirmwareState
written = record Firmware.new { cmd = some 0x0A; wel = true }

outputs-reset_state_example : outputs (Firmware.reset_state written) (0x05 ∷ 0 ∷ 0 ∷ 0 ∷ []) ≡ (
    if 0x0A == 0x0A || 0x0A == 0x02 || 0x0A == 0xDB || 0x0A == 0x01
    then 0 ∷ (if written.wel then 3 else 1) ∷ (if written.wel then 3 else 1) ∷ replicate 1 0
    else 0 ∷ replicate 3 (if written.wel then 2 else 0))
outputs-reset_state_example = outputs-reset_state written 0x0A 0 0 (0 ∷ []) refl (inl refl)

abbrev boot : List Event
boot = control 0x8A00 ∷ transfer 0xD1 ∷ byte 0x1C2 0 ∷ pen true 100 120 ∷ []

bus_run_example : IsBusValid (run Controller.new boot)
bus_run_example = run-IsBusValid boot

loaded-saved_spi_example :
    (loaded snap_spi (saved snap_spi (run Controller.new boot)) (run Controller.new [])
      ≡ (ok true, with_probes (run Controller.new boot) (run Controller.new [])))
    × ((k : ℕ)
        → k < length (saved snap_spi (run Controller.new boot))
        → (loaded snap_spi
            (take k (saved snap_spi (run Controller.new boot)))
            (run Controller.new [])).0
          ≡ err (malformed Why.stream_ended))
loaded-saved_spi_example = loaded-saved_spi boot []
