-- ===== src/Nds/Spi/Snapshots.antt =====
-- The snapshot of the SPI bus of core/src/nds/spi.rs, through the codec of core/src/snapshot.rs. The
-- conversion counters and the logs are no part of it.
use emulator_app.Base.{
  ℕ, ◌<◌, ◌≡◌, refl, arith, Bool, ◌==◌, if◌then◌else◌, List, Option, some, none,
}
use emulator_app.Snapshot.Codec.{
  label, Snap, snap_le, snap_bool, snap_usize, snap_option, snap_enum, snap_bytes, snap_pair,
}
use emulator_app.Snapshot.Lawful.{snap_le-Lawful}
use emulator_app.Snapshot.Collections.{snap_bool-Lawful, snap_usize-Lawful, snap_enum-Lawful}
use emulator_app.Snapshot.Optional.{snap_option-Lawful}
use emulator_app.Snapshot.Regions.{snap_bytes-Lawful}
use emulator_app.Snapshot.Fields.{Law, law_of, ◌then◌}
use emulator_app.Nds.Spi.Tsc.{TscState, expect_control, expect_data, TouchScreenController}
use emulator_app.Nds.Spi.Pmic
use emulator_app.Nds.Spi.Pmic.{PmicStateEnum, PmicState}
use emulator_app.Nds.Spi.Firmware.{FirmwareState, firmware_bytes}
use emulator_app.Nds.Spi.Controller.{SpiController}

abbrev pub tsc_index : TscState → ℕ
tsc_index expect_control = 0
tsc_index expect_data = 1

abbrev pub tsc_from : ℕ → Option TscState
tsc_from i = if i == 0 then some expect_control else if i == 1 then some expect_data else none

abbrev pub pmic_index : PmicStateEnum → ℕ
pmic_index Pmic.expect_command = 0
pmic_index Pmic.expect_data = 1

abbrev pub pmic_from : ℕ → Option PmicStateEnum
pmic_from i =
    if i == 0 then some Pmic.expect_command else if i == 1 then some Pmic.expect_data else none

abbrev pub TscFields : Type 0
TscFields = ℕ × (ℕ × (Bool × (TscState × (ℕ × (Bool × (ℕ × ℕ))))))

abbrev pub PmicFields : Type 0
PmicFields = ℕ × (ℕ × (Bool × PmicStateEnum))

abbrev pub FirmwareFields : Type 0
FirmwareFields = Option ℕ × (ℕ × (ℕ × (Bool × (List ℕ × ℕ))))

abbrev pub Fields : Type 0
Fields = ℕ × (ℕ × (TscFields × (PmicFields × FirmwareFields)))

abbrev pub tsc_fields : TouchScreenController → TscFields
tsc_fields t = (
  t.touch_x,
  (
    t.touch_y,
    (t.touch_pressed, (t.state, (t.current_channel, (t.mode_8bit, (t.result, t.byte_count))))),
  ),
)

abbrev pub with_tsc : TouchScreenController → TscFields → TouchScreenController
with_tsc t (x, (y, (pressed, (state, (channel, (mode, (result, count))))))) = record t {
  touch_x = x;
  touch_y = y;
  touch_pressed = pressed;
  state = state;
  current_channel = channel;
  mode_8bit = mode;
  result = result;
  byte_count = count;
}

abbrev pub pmic_fields : PmicState → PmicFields
pmic_fields p = (p.control, (p.reg_addr, (p.is_read, p.state)))

abbrev pub with_pmic : PmicState → PmicFields → PmicState
with_pmic p (control, (reg_addr, (is_read, state))) = record p {
  control = control;
  reg_addr = reg_addr;
  is_read = is_read;
  state = state;
}

abbrev pub firmware_fields : FirmwareState → FirmwareFields
firmware_fields f = (f.cmd, (f.idx, (f.addr, (f.wel, (f.cells, f.wip_reads)))))

abbrev pub with_firmware : FirmwareState → FirmwareFields → FirmwareState
with_firmware f (cmd, (idx, (addr, (wel, (cells, wip_reads))))) = record f {
  cmd = cmd;
  idx = idx;
  addr = addr;
  wel = wel;
  cells = cells;
  wip_reads = wip_reads;
}

abbrev pub fields : SpiController → Fields
fields s =
    (s.spicnt, (s.spidata, (tsc_fields s.tsc, (pmic_fields s.pmic, firmware_fields s.firmware))))

abbrev pub with_fields : SpiController → Fields → SpiController
with_fields s (spicnt, (spidata, (tsc, (pmic, firmware)))) = record s {
  spicnt = spicnt;
  spidata = spidata;
  tsc = with_tsc s.tsc tsc;
  pmic = with_pmic s.pmic pmic;
  firmware = with_firmware s.firmware firmware;
}

abbrev pub snap_tsc : Snap TscFields
snap_tsc = snap_pair (snap_le 2) (
    snap_pair (snap_le 2) (
      snap_pair snap_bool (
        snap_pair (snap_enum tsc_index tsc_from)
          (snap_pair (snap_le 1) (snap_pair snap_bool (snap_pair (snap_le 2) snap_usize))))))

abbrev pub snap_pmic : Snap PmicFields
snap_pmic =
    snap_pair (snap_le 1)
      (snap_pair (snap_le 1) (snap_pair snap_bool (snap_enum pmic_index pmic_from)))

-- The label is "firmware image size mismatch".
abbrev pub snap_firmware : Snap FirmwareFields
snap_firmware = snap_pair (snap_option (snap_le 1) 0) (
    snap_pair (snap_le 4) (
      snap_pair (snap_le 4)
        (snap_pair snap_bool (snap_pair (snap_bytes firmware_bytes (label 0)) (snap_le 1)))))

abbrev pub snap_fields : Snap Fields
snap_fields =
    snap_pair (snap_le 2)
      (snap_pair (snap_le 2) (snap_pair snap_tsc (snap_pair snap_pmic snap_firmware)))

-- `SpiController::snap`.
unfoldable pub snap_spi : Snap SpiController
snap_spi v self = let (v1, values) = snap_fields v (fields self) in (v1, with_fields self values)

pub tsc_index-from : (st : TscState) → tsc_from (tsc_index st) ≡ some st
tsc_index-from expect_control = refl
tsc_index-from expect_data = refl

pub tsc_index-lt : (st : TscState) → tsc_index st < 256
tsc_index-lt expect_control = omega arith
tsc_index-lt expect_data = omega arith

pub pmic_index-from : (st : PmicStateEnum) → pmic_from (pmic_index st) ≡ some st
pmic_index-from Pmic.expect_command = refl
pmic_index-from Pmic.expect_data = refl

pub pmic_index-lt : (st : PmicStateEnum) → pmic_index st < 256
pmic_index-lt Pmic.expect_command = omega arith
pmic_index-lt Pmic.expect_data = omega arith

abbrev byte_law : Law (snap_le 1)
byte_law = law_of (snap_le-Lawful 1)

abbrev half_law : Law (snap_le 2)
half_law = law_of (snap_le-Lawful 2)

abbrev word_law : Law (snap_le 4)
word_law = law_of (snap_le-Lawful 4)

abbrev bool_law : Law snap_bool
bool_law = law_of snap_bool-Lawful

abbrev tsc_law : Law snap_tsc
tsc_law =
    half_law
    then half_law
    then bool_law
    then law_of (snap_enum-Lawful tsc_index tsc_from tsc_index-from tsc_index-lt)
    then byte_law
    then bool_law
    then half_law
    then law_of snap_usize-Lawful

abbrev pmic_law : Law snap_pmic
pmic_law =
    byte_law
    then byte_law
    then bool_law
    then law_of (snap_enum-Lawful pmic_index pmic_from pmic_index-from pmic_index-lt)

abbrev firmware_law : Law snap_firmware
firmware_law =
    law_of (snap_option-Lawful (snap_le-Lawful 1) 0 (omega arith))
    then word_law
    then word_law
    then bool_law
    then law_of (snap_bytes-Lawful firmware_bytes (label 0) (omega arith))
    then byte_law

abbrev pub fields_law : Law snap_fields
fields_law = half_law then half_law then tsc_law then pmic_law then firmware_law
