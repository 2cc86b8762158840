-- ===== src/Nds/Tests.antt =====
-- Witnesses of the square-root unit.
use emulator_app.Base.{ℕ, ◌+◌, ◌*◌, ◌≤◌, ◌<◌, ◌≡◌, refl, arith}
use emulator_app.Nds.Sqrt.{SqrtUnit, operand, sqrt_result, sqrt_result-IsRoot}

abbrev loaded_unit : SqrtUnit
loaded_unit = record { sqrt_cnt = 1; sqrt_param = 99 }

abbrev estimate : ℕ → ℕ
estimate v = 12

root_of_99 : sqrt_result estimate loaded_unit ≡ 9
unfolding sqrt_result
root_of_99 = refl

sqrt_result_example :
    (sqrt_result estimate loaded_unit * sqrt_result estimate loaded_unit ≤ operand loaded_unit)
    × (operand loaded_unit
        < (sqrt_result estimate loaded_unit + 1) * (sqrt_result estimate loaded_unit + 1))
sqrt_result_example = sqrt_result-IsRoot estimate loaded_unit (omega arith)
