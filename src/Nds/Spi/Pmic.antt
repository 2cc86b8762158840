-- ===== src/Nds/Spi/Pmic.antt =====
-- core/src/nds/spi.rs, `PmicState`: the power management chip (SPI device 0).
use emulator_app.Base.{ℕ, Bool, false, ◌==◌, ◌!=◌, if◌then◌else◌, bit_and}

pub data PmicStateEnum : Type 0 where
  expect_command expect_data : PmicStateEnum

pub record PmicState : Type 0 where
  pub control : ℕ
  pub reg_addr : ℕ
  pub is_read : Bool
  pub state : PmicStateEnum

unfoldable pub new : PmicState
new = record { control = 0; reg_addr = 0; is_read = false; state = expect_command }

-- The `match` of `process_byte` on the state.
unfoldable pub step : PmicStateEnum → PmicState → ℕ → PmicState × ℕ
step expect_command p val = (
  record p { is_read = bit_and val 0x80 != 0; reg_addr = bit_and val 0x7F; state = expect_data },
  0,
)
step expect_data p val = (
  record p { state = expect_command },
  if p.is_read then if p.reg_addr == 0 then 0x03 else 0x00 else 0,
)

unfoldable pub process_byte : PmicState → ℕ → PmicState × ℕ
unfolding step
process_byte p val = step p.state p val
