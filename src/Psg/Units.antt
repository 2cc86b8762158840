-- ===== src/Psg/Units.antt =====
-- The parts that the channels of psg.rs have in common, each written out in the source once for
-- every channel: the period timer, the length counter, the volume envelope and the duty table.
use emulator_app.Base.{
  ℕ, ◌+◌, ◌-◌, ◌*◌, ◌/◌, ◌%◌, Bool, false, not, ◌&&◌, ◌||◌, List, [], ◌∷◌, ltb, ◌==◌, if◌then◌else◌,
  bit_and, get_or, u8, u16,
}
use emulator_app.Base.Int.{ℤ, pos, sub_ℕ}

abbrev pub period_mask : ℕ
period_mask = 0x07FF

abbrev pub duty_step_mask : ℕ
duty_step_mask = 0x07

abbrev pub wave_step_mask : ℕ
wave_step_mask = 0x1F

abbrev pub noise_shift_mask : ℕ
noise_shift_mask = 0x0F

abbrev pub sweep_shift_mask : ℕ
sweep_shift_mask = 0x07

-- `(2048 - (period & PERIOD_MASK)) * scale`
unfoldable pub reload_value : ℕ → ℕ → ℕ
reload_value period scale = (2048 - bit_and period period_mask) * scale

-- A period timer and the position in the waveform that it moves.
pub record Phase : Type 0 where
  pub timer : ℕ
  pub step : ℕ

-- The body of `tick_period` behind its guard, for period `p` and a waveform of `positions` steps.
unfoldable pub advance_phase : ℕ → ℕ → ℕ → Phase → Phase
advance_phase p positions cycles s =
    let overflow = cycles - s.timer in
    let steps = 1 + overflow / p in
    if ltb cycles s.timer
    then record s { timer = u16 (s.timer - cycles) }
    else record { timer = u16 (p - overflow % p); step = u8 ((s.step + steps) % positions) }

pub record Length : Type 0 where
  pub enabled : Bool
  pub counter : ℕ

unfoldable pub length_step : Bool → Length → Length
length_step length_enabled s =
    let left = s.counter - 1 in
    if length_enabled && ltb 0 s.counter
    then record { enabled = if left == 0 then false else s.enabled; counter = left }
    else s

pub record Envelope : Type 0 where
  pub volume : ℕ
  pub env_enabled : Bool
  pub env_timer : ℕ

unfoldable pub envelope_step : ℕ → Bool → Envelope → Envelope
envelope_step env_period up s =
    let left = s.env_timer - 1 in
    let fired : Envelope = record s { env_timer = env_period } in
    if not s.env_enabled || env_period == 0
    then s
    else if ltb 0 s.env_timer
    then if left == 0
      then if up
        then if ltb s.volume 15
          then record fired { volume = u8 (s.volume + 1) }
          else record fired { env_enabled = false }
        else if ltb 0 s.volume
        then record fired { volume = s.volume - 1 }
        else record fired { env_enabled = false }
      else record s { env_timer = left }
    else s

unfoldable pub duty_table : ℕ → List ℕ
duty_table duty =
    if duty == 0
    then 0 ∷ 0 ∷ 0 ∷ 0 ∷ 0 ∷ 0 ∷ 0 ∷ 1 ∷ []
    else if duty == 1
    then 1 ∷ 0 ∷ 0 ∷ 0 ∷ 0 ∷ 0 ∷ 0 ∷ 1 ∷ []
    else if duty == 2
    then 1 ∷ 0 ∷ 0 ∷ 0 ∷ 0 ∷ 1 ∷ 1 ∷ 1 ∷ []
    else if duty == 3
    then 0 ∷ 1 ∷ 1 ∷ 1 ∷ 1 ∷ 1 ∷ 1 ∷ 0 ∷ []
    else 0 ∷ 0 ∷ 0 ∷ 0 ∷ 0 ∷ 0 ∷ 0 ∷ 0 ∷ []

-- An amplitude `n / 15`, as the integer `n`: the source computes it in `f64`.
abbrev pub level : Bool → ℕ → ℤ
level high volume = if high then pos volume else sub_ℕ 0 volume

unfoldable pub square_amplitude : Bool → ℕ → ℕ → ℕ → ℤ
unfolding duty_table
square_amplitude enabled volume duty duty_pointer =
    if not enabled || volume == 0
    then pos 0
    else level (get_or (duty_table duty) (bit_and duty_pointer duty_step_mask) 0 == 1) volume
