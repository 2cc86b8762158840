-- ===== src/Nds/Spi/Valid.antt =====
-- The well-formed state of the SPI bus of core/src/nds/spi.rs, under the register writes of the ARM7.
use emulator_app.Base.{
  ℕ, ◌^◌, ◌≤◌, ◌<◌, ◌≡◌, refl, inl, inr, Bool, arith, Option, some, none, ◌!=◌, if◌then◌else◌,
  length, length-set, IsBytes, IsBytes-set, bit_and, bit_and_low, bit_and_field, u16, ◌<<◌, ◌>>◌,
  Bool-cases,
}
use mathlib.Core.Path.{subst}
use emulator_app.Nds.Backup.Valid.{shift_in-lt}
use emulator_app.Nds.Spi.Tsc
use emulator_app.Nds.Spi.Tsc.{
  TscState, expect_control, expect_data, TouchScreenController, calculate_result, latch_control,
  latch_if_start, data_phase, inner, process_byte_inner,
}
use emulator_app.Nds.Spi.Pmic
use emulator_app.Nds.Spi.Pmic.{PmicStateEnum, expect_command, PmicState}
use emulator_app.Nds.Spi.Firmware
use emulator_app.Nds.Spi.Firmware.{
  FirmwareState, firmware_bytes, cell_of, latch_command, read_status, read_data, write_data,
  respond,
}

-- In the data phase a data byte is still to come: the conversion of 8 bits has one, that of 12 two.
abbrev pub Pending : TscState → Bool → ℕ → Type 0
Pending expect_control mode count = count ≤ 2
Pending expect_data mode count = count < (if mode then 1 else 2)

pub record IsTouchValid (t : TouchScreenController) : Type 0 where
  pub pending : Pending t.state t.mode_8bit t.byte_count
  pub channel_fits : t.current_channel < 8
  pub result_fits : t.result < 4096
  pub x_fits : t.touch_x < 65536
  pub y_fits : t.touch_y < 65536

pub record IsPowerValid (p : PmicState) : Type 0 where
  pub control_fits : p.control < 256
  pub addr_fits : p.reg_addr < 128

abbrev pub or_zero : Option ℕ → ℕ
or_zero (some c) = c
or_zero none = 0

pub record IsFlashValid (f : FirmwareState) : Type 0 where
  pub size : length f.cells ≡ firmware_bytes
  pub bytes : IsBytes f.cells
  pub cmd_fits : or_zero f.cmd < 256
  pub idx_fits : f.idx < 2 ^ 32
  pub addr_fits : f.addr < 2 ^ 32
  pub wip_fits : f.wip_reads ≤ 2

calculate_result-lt : (t : TouchScreenController) → calculate_result t < 4096
unfolding calculate_result
calculate_result-lt t = ground arith

latch_control-IsTouchValid :
    (t : TouchScreenController) (v : ℕ) → IsTouchValid t → IsTouchValid (latch_control t v)
unfolding latch_control
latch_control-IsTouchValid t v h =
    let channel = bit_and (v >> 4) 7 in
    let small : channel < 8 = omega (arith, bit_and_low 3 (v >> 4)) in
    let selected : TouchScreenController = record t {
      current_channel = channel;
      conv_counts = Tsc.count_conversion t.conv_counts channel;
      mode_8bit = bit_and v 0x08 != 0;
      byte_count = 0;
      state = expect_data;
    } in
    record {
      pending = ground arith;
      channel_fits = small;
      result_fits = calculate_result-lt selected;
      x_fits = h.x_fits;
      y_fits = h.y_fits;
    }

latch_if_start-IsTouchValid :
    (t : TouchScreenController) (v : ℕ) → IsTouchValid t → IsTouchValid (latch_if_start t v)
latch_if_start-IsTouchValid t v h = elim (Bool-cases (bit_and v 0x80 != 0)) [
  | inl start ↦ rw (start) (latch_control-IsTouchValid t v h)
  | inr plain ↦ rw (plain) h
]

data_phase-IsTouchValid :
    (t : TouchScreenController)
    → t.state ≡ expect_data
    → IsTouchValid t
    → IsTouchValid (data_phase t).0 × ((data_phase t).1 < 256)
unfolding data_phase
data_phase-IsTouchValid t e h =
    let left = subst (λ st. Pending st t.mode_8bit t.byte_count) e h.pending in
    ground (
      arith,
      left,
      e,
      bit_and_low 8 (t.result >> 4),
      bit_and_low 7 (t.result >> 5),
      bit_and_field 3 5 (u16 (t.result << 3)),
    )

inner-IsTouchValid :
    (st : TscState) (t : TouchScreenController) (v : ℕ)
    → t.state ≡ st
    → IsTouchValid t
    → IsTouchValid (inner st t v).0 × ((inner st t v).1 < 256)
unfolding inner
inner-IsTouchValid expect_control t v e h = (latch_if_start-IsTouchValid t v h, omega arith)
inner-IsTouchValid expect_data t v e h =
    let (kept, small) = data_phase-IsTouchValid t e h in
    (latch_if_start-IsTouchValid (data_phase t).0 v kept, small)

pub tsc-IsTouchValid :
    (t : TouchScreenController) (v : ℕ)
    → IsTouchValid t
    → IsTouchValid (Tsc.process_byte t v).0 × ((Tsc.process_byte t v).1 < 256)
unfolding Tsc.process_byte process_byte_inner
tsc-IsTouchValid t v h = let kept = inner-IsTouchValid t.state t v refl h in ground (arith, kept)

pub pmic-IsPowerValid :
    (p : PmicState) (v : ℕ)
    → IsPowerValid p
    → IsPowerValid (Pmic.process_byte p v).0 × ((Pmic.process_byte p v).1 < 256)
unfolding Pmic.process_byte
pmic-IsPowerValid p v h = step p.state
  where
    step : (st : PmicStateEnum) → IsPowerValid (Pmic.step st p v).0 × ((Pmic.step st p v).1 < 256)
    step expect_command = unfold Pmic.step in ground (arith, bit_and_low 7 v)
    step Pmic.expect_data = unfold Pmic.step in ground arith

read_data-IsFlashValid :
    (f : FirmwareState) (v : ℕ)
    → v < 256
    → IsFlashValid f
    → IsFlashValid (read_data f v).0 × ((read_data f v).1 < 256)
unfolding read_data
read_data-IsFlashValid f v hv h = ground (arith, shift_in-lt f.addr v hv, h.bytes (cell_of f.addr))

write_data-IsFlashValid :
    (f : FirmwareState) (v : ℕ)
    → v < 256
    → IsFlashValid f
    → IsFlashValid (write_data f v).0 × ((write_data f v).1 < 256)
unfolding write_data
write_data-IsFlashValid f v hv h = ground (
  arith,
  shift_in-lt f.addr v hv,
  length-set f.cells (cell_of f.addr) v,
  IsBytes-set f.cells (cell_of f.addr) v h.bytes hv,
)

respond-IsFlashValid :
    (c : Option ℕ) (f : FirmwareState) (v : ℕ)
    → v < 256
    → IsFlashValid f
    → IsFlashValid (respond c f v).0 × ((respond c f v).1 < 256)
unfolding respond latch_command read_status
respond-IsFlashValid none f v hv h = ground arith
respond-IsFlashValid (some c) f v hv h =
    ground (arith, read_data-IsFlashValid f v hv h, write_data-IsFlashValid f v hv h)

pub firmware-IsFlashValid :
    (f : FirmwareState) (v : ℕ)
    → v < 256
    → IsFlashValid f
    → IsFlashValid (Firmware.process_byte f v).0 × ((Firmware.process_byte f v).1 < 256)
unfolding Firmware.process_byte
firmware-IsFlashValid f v hv h = respond-IsFlashValid f.cmd f v hv h
