-- ===== src/Nds/Spi/Tsc.antt =====
-- core/src/nds/spi.rs, `TouchScreenController`: the touch-screen converter (SPI device 2).
use emulator_app.Base.{
  ℕ, ◌+◌, ◌*◌, Bool, false, not, ◌&&◌, ◌||◌, List, [], ◌∷◌, ◌++◌, ltb, ◌==◌, ◌!=◌, if◌then◌else◌,
  bit_and, get_or, set, length, u16, u32, replicate, ◌<<◌, ◌>>◌, min, max,
}

pub data TscState : Type 0 where
  expect_control expect_data : TscState

pub record TouchScreenController : Type 0 where
  pub touch_x : ℕ
  pub touch_y : ℕ
  pub touch_pressed : Bool
  pub state : TscState
  pub current_channel : ℕ
  pub mode_8bit : Bool
  pub result : ℕ
  pub byte_count : ℕ
  pub conv_counts : List ℕ
  pub io_log : List (ℕ × ℕ)
  pub io_log_on : Bool

-- `TouchScreenController::default`.
unfoldable pub new : TouchScreenController
unfolding replicate
new = record {
  touch_x = 0;
  touch_y = 0;
  touch_pressed = false;
  state = expect_control;
  current_channel = 0;
  mode_8bit = false;
  result = 0;
  byte_count = 0;
  conv_counts = replicate 8 0;
  io_log = [];
  io_log_on = false;
}

-- The coordinates are of 16 bits, so their `i32` products are exact.
unfoldable pub calculate_result : TouchScreenController → ℕ
calculate_result t =
    let channel = t.current_channel in
    if not t.touch_pressed
    then if channel == 1 || channel == 4 then 0xFFF else 0
    else if channel == 1
    then max 0 (min 4095 (t.touch_y * 20 + 128))
    else if channel == 5
    then max 0 (min 4095 (t.touch_x * 15 + 128))
    else if channel == 3
    then 100
    else if channel == 4
    then 200
    else 0

-- `conv_counts[channel].wrapping_add(1)`
abbrev pub count_conversion : List ℕ → ℕ → List ℕ
count_conversion counts channel = set counts channel (u32 (get_or counts channel 0 + 1))

unfoldable pub latch_control : TouchScreenController → ℕ → TouchScreenController
unfolding calculate_result
latch_control t val =
    let channel = bit_and (val >> 4) 0x7 in
    let selected = record t {
      current_channel = channel;
      conv_counts = count_conversion t.conv_counts channel;
      mode_8bit = bit_and val 0x08 != 0;
      byte_count = 0;
      state = expect_data;
    } in
    record selected { result = calculate_result selected }

-- The byte that the data phase answers with, and its effect.
unfoldable pub data_phase : TouchScreenController → TouchScreenController × ℕ
data_phase t =
    if t.mode_8bit
    then if t.byte_count == 0
      then (
        record t { byte_count = t.byte_count + 1; state = expect_control },
        bit_and (t.result >> 4) 0xFF,
      )
      else (t, 0)
    else if t.byte_count == 0
    then (record t { byte_count = t.byte_count + 1 }, bit_and (t.result >> 5) 0x7F)
    else if t.byte_count == 1
    then (
      record t { byte_count = t.byte_count + 1; state = expect_control },
      bit_and (u16 (t.result << 3)) 0xF8,
    )
    else (t, 0)

abbrev pub latch_if_start : TouchScreenController → ℕ → TouchScreenController
latch_if_start t val = if bit_and val 0x80 != 0 then latch_control t val else t

-- The `match` of `process_byte_inner` on the state.
unfoldable pub inner : TscState → TouchScreenController → ℕ → TouchScreenController × ℕ
unfolding data_phase latch_control
inner expect_control t val = (latch_if_start t val, 0)
inner expect_data t val = let (t1, response) = data_phase t in (latch_if_start t1 val, response)

unfoldable pub process_byte_inner : TouchScreenController → ℕ → TouchScreenController × ℕ
unfolding inner
process_byte_inner t val = inner t.state t val

unfoldable pub process_byte : TouchScreenController → ℕ → TouchScreenController × ℕ
unfolding process_byte_inner
process_byte t val =
    let (t1, out) = process_byte_inner t val in
    (
      if t1.io_log_on && ltb (length t1.io_log) 4096
          then record t1 { io_log = t1.io_log ++ ((val, out) ∷ []) }
          else t1,
      out,
    )

unfoldable pub reset_state : TouchScreenController → TouchScreenController
reset_state t = record t { state = expect_control; byte_count = 0 }
