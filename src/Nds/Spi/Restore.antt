-- ===== src/Nds/Spi/Restore.antt =====
-- Saving and restoring the SPI bus of core/src/nds/spi.rs in a snapshot.
use emulator_app.Base.{
  ℕ, ◌^◌, ◌<◌, ◌≡◌, refl, ap, ◌∙◌, arith, Bool, true, List, Option, some, none, length, take,
}
use emulator_app.Snapshot.Codec.{Why, ok, err, malformed}
use emulator_app.Snapshot.Lawful.{snap_le-Lawful}
use emulator_app.Snapshot.Optional.{snap_option-Lawful}
use emulator_app.Snapshot.Fields.{law_of}
use emulator_app.Snapshot.Streams.{saved, loaded, loaded-saved, loaded-take}
use emulator_app.Nds.Spi.Tsc.{TscState, expect_control, expect_data}
use emulator_app.Nds.Spi.Controller.{SpiController, new}
use emulator_app.Nds.Spi.Valid.{Pending, or_zero}
use emulator_app.Nds.Spi.Runs.{IsBusValid, Event, run, run-IsBusValid}
use emulator_app.Nds.Spi.Snapshots.{fields, with_fields, snap_fields, snap_spi, fields_law}

Pending-small : (st : TscState) (mode : Bool) (count : ℕ) → Pending st mode count → count < 2 ^ 32
Pending-small expect_control mode count h = omega arith
Pending-small expect_data mode count h = ground arith

cmd_fit :
    (o : Option ℕ)
    → or_zero o < 256
    → (law_of (snap_option-Lawful (snap_le-Lawful 1) 0 (omega arith))).Fits o
cmd_fit (some c) small = small
cmd_fit none small = omega arith

fields_fit : (s : SpiController) → IsBusValid s → fields_law.Fits (fields s)
fields_fit s h =
    let t = h.tsc_valid in
    let p = h.pmic_valid in
    let f = h.firmware_valid in
    let count = Pending-small s.tsc.state s.tsc.mode_8bit s.tsc.byte_count t.pending in
    (
      h.spicnt_fits,
      (
        omega (arith, h.spidata_fits),
        (
          (
            t.x_fits,
            (
              t.y_fits,
              (
                tt,
                (tt, (omega (arith, t.channel_fits), (tt, (omega (arith, t.result_fits), count)))),
              ),
            ),
          ),
          (
            (p.control_fits, (omega (arith, p.addr_fits), (tt, tt))),
            (
              cmd_fit s.firmware.cmd f.cmd_fits,
              (f.idx_fits, (f.addr_fits, (tt, (f.size, omega (arith, f.wip_fits))))),
            ),
          ),
        ),
      ),
    )

-- The state of `x` with the probes of `y`.
abbrev pub with_probes : SpiController → SpiController → SpiController
with_probes x y = record x {
  tsc = record x.tsc {
    conv_counts = y.tsc.conv_counts;
    io_log = y.tsc.io_log;
    io_log_on = y.tsc.io_log_on;
  };
  firmware = record x.firmware { log_on = y.firmware.log_on; read_log = y.firmware.read_log };
}

loaded-fields :
    (bytes : List ℕ) (y : SpiController)
    → loaded snap_spi bytes y ≡ (
      (loaded snap_fields bytes (fields y)).0,
      with_fields y (loaded snap_fields bytes (fields y)).1,
    )
unfolding loaded snap_spi
loaded-fields bytes y = refl

saved-fields : (x : SpiController) → saved snap_spi x ≡ saved snap_fields (fields x)
unfolding saved snap_spi
saved-fields x = refl

-- A snapshot taken after any run of the bus from reset, loaded over any other run's state, restores
-- the whole bus and the firmware image, and leaves the probes as they were; cut short anywhere, it is
-- refused as ended early.
pub loaded-saved_spi :
    (es fs : List Event)
    → (loaded snap_spi (saved snap_spi (run new es)) (run new fs)
        ≡ (ok true, with_probes (run new es) (run new fs)))
      × ((k : ℕ)
          → k < length (saved snap_spi (run new es))
          → (loaded snap_spi (take k (saved snap_spi (run new es))) (run new fs)).0
            ≡ err (malformed Why.stream_ended))
loaded-saved_spi es fs =
    let x = run new es in
    let y = run new fs in
    let fx = fields_fit x (run-IsBusValid es) in
    let fy = fields_fit y (run-IsBusValid fs) in
    (
      loaded-fields (saved snap_spi x) y
          ∙ ap
              (λ b. (
                (loaded snap_fields b (fields y)).0,
                with_fields y (loaded snap_fields b (fields y)).1,
              ))
              (saved-fields x)
          ∙ ap (λ t. (t.0, with_fields y t.1))
              (loaded-saved fields_law.law (fields x) (fields y) fx fy),
      λ k short.
          ap (λ t. t.0) (loaded-fields (take k (saved snap_spi x)) y)
          ∙ ap (λ b. (loaded snap_fields (take k b) (fields y)).0) (saved-fields x)
          ∙ loaded-take fields_law.law (fields x) (fields y) k fx fy
              (omega (arith, short, ap length (saved-fields x))),
    )
