-- ===== src/Nds/Spi/Driver.antt =====
-- core/src/nds/spi.rs: a transaction as the firmware driver puts it on the bus, with SPICNT 0x8900
-- for every byte but the last and 0x8100 for the last.
use emulator_app.Base.{ℕ, ◌<◌, ◌≡◌, refl, ap, ◌∙◌, arith, List, [], ◌∷◌, All, bit_and, bit_and_low}
use emulator_app.Nds.Spi.Tsc
use emulator_app.Nds.Spi.Pmic
use emulator_app.Nds.Spi.Firmware.{process_byte, reset_state}
use emulator_app.Nds.Spi.Frames.{clock_all, outputs, frame}
use emulator_app.Nds.Spi.Controller.{
  SpiController, write_spicnt, write_spidata, release, clock, route,
}
use emulator_app.Nds.Spi.Bus.{IsByte}

unfoldable pub drive : SpiController → ℕ → List ℕ → SpiController
drive s v [] = write_spidata (write_spicnt s 0x8100) v
drive s v (w ∷ ws) = drive (write_spidata (write_spicnt s 0x8900) v) w ws

-- What SPIDATA reads after each byte.
unfoldable pub driven : SpiController → ℕ → List ℕ → List ℕ
driven s v [] = (write_spidata (write_spicnt s 0x8100) v).spidata ∷ []
driven s v (w ∷ ws) =
    let s1 = write_spidata (write_spicnt s 0x8900) v in s1.spidata ∷ driven s1 w ws

held_byte :
    (s : SpiController) (v : ℕ)
    → v < 256
    → write_spidata (write_spicnt s 0x8900) v ≡ record s {
      spicnt = 0x8900;
      firmware = (process_byte s.firmware v).0;
      spidata = (process_byte s.firmware v).1;
    }
unfolding write_spidata write_spicnt clock route
held_byte s v small = let e : bit_and v 0xFF ≡ v = omega (arith, bit_and_low 8 v) in rw e refl

last_byte :
    (s : SpiController) (v : ℕ)
    → v < 256
    → write_spidata (write_spicnt s 0x8100) v ≡ record s {
      spicnt = 0x8100;
      tsc = Tsc.reset_state s.tsc;
      pmic = record s.pmic { state = Pmic.expect_command };
      firmware = reset_state (process_byte s.firmware v).0;
      spidata = (process_byte s.firmware v).1;
    }
unfolding write_spidata write_spicnt clock route release
last_byte s v small = let e : bit_and v 0xFF ≡ v = omega (arith, bit_and_low 8 v) in rw e refl

-- The driver's sequence of register writes is one transaction of the flash: the flash ends as after
-- the whole frame, its release included, and SPIDATA reads what the flash answers to each byte. The
-- touch screen and the power chip only end their transactions.
pub drive-frame :
    (s : SpiController) (v : ℕ) (vs : List ℕ)
    → All IsByte (v ∷ vs)
    → ((drive s v vs).firmware ≡ frame s.firmware (v ∷ vs))
      × (driven s v vs ≡ outputs s.firmware (v ∷ vs))
      × ((drive s v vs).tsc ≡ Tsc.reset_state s.tsc)
      × ((drive s v vs).pmic ≡ record s.pmic { state = Pmic.expect_command })
unfolding drive driven frame clock_all outputs
drive-frame s v [] small =
    let e = last_byte s v small.0 in
    (ap (λ x. x.firmware) e, ap (λ x. x.spidata ∷ []) e, ap (λ x. x.tsc) e, ap (λ x. x.pmic) e)
drive-frame s v (w ∷ ws) small =
    let e = held_byte s v small.0 in
    let s1 : SpiController = record s {
      spicnt = 0x8900;
      firmware = (process_byte s.firmware v).0;
      spidata = (process_byte s.firmware v).1;
    } in
    let rest = drive-frame s1 w ws small.1 in
    (
      ap (λ x. (drive x w ws).firmware) e ∙ rest.0,
      ap (λ x. x.spidata ∷ driven x w ws) e ∙ ap (λ l. (process_byte s.firmware v).1 ∷ l) rest.1,
      ap (λ x. (drive x w ws).tsc) e ∙ rest.2,
      ap (λ x. (drive x w ws).pmic) e ∙ rest.3,
    )
