-- ===== src/Nds/Spi/Bus.antt =====
-- core/src/nds/spi.rs: bytes clocked through SPIDATA while chip select is held.
use emulator_app.Base.{
  ℕ, ◌<◌, ◌≡◌, refl, ap, ◌∙◌, true, arith, List, [], ◌∷◌, bit_and, bit_and_low, All,
}
use emulator_app.Nds.Spi.Tsc
use emulator_app.Nds.Spi.Firmware
use emulator_app.Nds.Spi.Controller.{
  SpiController, enabled, device, held, route, clock, write_spidata,
}
use emulator_app.Nds.Spi.Conversion.{clocked}

-- The bytes that SPIDATA reads after each of a run of writes.
unfoldable pub bus_clocked : SpiController → List ℕ → List ℕ
bus_clocked s [] = []
bus_clocked s (v ∷ vs) = (write_spidata s v).spidata ∷ bus_clocked (write_spidata s v) vs

unfoldable pub bus_after : SpiController → List ℕ → SpiController
bus_after s [] = s
bus_after s (v ∷ vs) = bus_after (write_spidata s v) vs

-- The bus is on, device `d` is selected, and chip select stays asserted between bytes.
pub record Selects (s : SpiController) (d : ℕ) : Type 0 where
  pub on : enabled s ≡ true
  pub selected : device s ≡ d
  pub holding : held s ≡ true

abbrev pub IsByte : ℕ → Type 0
IsByte v = v < 256

low_byte : (v : ℕ) → v < 256 → bit_and v 0xFF ≡ v
low_byte v h = omega (arith, bit_and_low 8 v)

-- With chip select held, a write is the clocked byte and no more.
write_spidata-clock :
    (s : SpiController) (v : ℕ)
    → enabled s ≡ true
    → held (clock s v) ≡ true
    → v < 256
    → write_spidata s v ≡ clock s v
unfolding write_spidata
write_spidata-clock s v on holding small = rw (low_byte v small, on, holding) refl

clock_tsc :
    (s : SpiController) (v : ℕ)
    → device s ≡ 2
    → clock s v
      ≡ record s { tsc = (Tsc.process_byte s.tsc v).0; spidata = (Tsc.process_byte s.tsc v).1 }
unfolding clock route
clock_tsc s v e = rw e refl

clock_firmware :
    (s : SpiController) (v : ℕ)
    → device s ≡ 1
    → clock s v ≡ record s {
      firmware = (Firmware.process_byte s.firmware v).0;
      spidata = (Firmware.process_byte s.firmware v).1;
    }
unfolding clock route
clock_firmware s v e = rw e refl

pub write_spidata_tsc :
    (s : SpiController) (v : ℕ)
    → Selects s 2
    → v < 256
    → write_spidata s v
      ≡ record s { tsc = (Tsc.process_byte s.tsc v).0; spidata = (Tsc.process_byte s.tsc v).1 }
write_spidata_tsc s v h small =
    let e = clock_tsc s v h.selected in
    write_spidata-clock s v h.on (ap held e ∙ h.holding) small ∙ e

pub write_spidata_firmware :
    (s : SpiController) (v : ℕ)
    → Selects s 1
    → v < 256
    → write_spidata s v ≡ record s {
      firmware = (Firmware.process_byte s.firmware v).0;
      spidata = (Firmware.process_byte s.firmware v).1;
    }
write_spidata_firmware s v h small =
    let e = clock_firmware s v h.selected in
    write_spidata-clock s v h.on (ap held e ∙ h.holding) small ∙ e

pub bus_clocked_tsc :
    (s : SpiController) (vs : List ℕ)
    → Selects s 2
    → All IsByte vs
    → bus_clocked s vs ≡ clocked s.tsc vs
unfolding bus_clocked clocked
bus_clocked_tsc s [] h small = refl
bus_clocked_tsc s (v ∷ vs) h small =
    let s1 : SpiController = record s {
      tsc = (Tsc.process_byte s.tsc v).0;
      spidata = (Tsc.process_byte s.tsc v).1;
    } in
    let still : Selects s1 2 = record { on = h.on; selected = h.selected; holding = h.holding } in
    ap (λ s'. s'.spidata ∷ bus_clocked s' vs) (write_spidata_tsc s v h small.0)
    ∙ ap (λ l. s1.spidata ∷ l) (bus_clocked_tsc s1 vs still small.1)
