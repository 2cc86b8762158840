-- ===== src/Nds/Spi/Conversion.antt =====
-- core/src/nds/spi.rs: conversions of the touch screen that the driver overlaps, each control byte
-- riding on the read of the previous result's low bits.
use emulator_app.Base.{
  ℕ, ◌*◌, ◌/◌, ◌%◌, ◌<◌, ◌≡◌, refl, ap, ◌∙◌, true, false, arith, List, [], ◌∷◌, ◌!=◌, bit_and,
  bit_or, bit_and_low, bit_and_field, bit_or_fields, All, u16, ◌<<◌, ◌>>◌,
}
use emulator_app.Nds.Spi.Tsc.{
  TscState, expect_control, expect_data, TouchScreenController, calculate_result, latch_control,
  data_phase, latch_if_start, inner, process_byte_inner, process_byte,
}

-- The channel that a control byte selects.
abbrev pub channel : ℕ → ℕ
channel c = bit_and (c >> 4) 0x7

-- What a conversion of a channel measures.
unfoldable pub adc : TouchScreenController → ℕ → ℕ
adc t ch = calculate_result (record t { current_channel = ch })

-- A control byte: the start bit is set, and the conversion is one of 12 bits.
abbrev pub IsControl : ℕ → Type 0
IsControl c = ((bit_and c 0x80 != 0) ≡ true) × ((bit_and c 0x08 != 0) ≡ false)

-- The converter holds a fresh 12-bit result `r`, and the pen is where `t0` has it.
pub record Holds (t0 t : TouchScreenController) (r : ℕ) : Type 0 where
  pub phase : t.state ≡ expect_data
  pub wide : t.mode_8bit ≡ false
  pub fresh : t.byte_count ≡ 0
  pub value : t.result ≡ r
  pub same_x : t.touch_x ≡ t0.touch_x
  pub same_y : t.touch_y ≡ t0.touch_y
  pub same_pen : t.touch_pressed ≡ t0.touch_pressed

pub record SameTouch (t0 t : TouchScreenController) : Type 0 where
  pub same_x : t.touch_x ≡ t0.touch_x
  pub same_y : t.touch_y ≡ t0.touch_y
  pub same_pen : t.touch_pressed ≡ t0.touch_pressed

latch_control-Holds :
    (t0 t : TouchScreenController) (c : ℕ)
    → SameTouch t0 t
    → IsControl c
    → Holds t0 (latch_control t c) (adc t0 (channel c))
unfolding latch_control adc calculate_result
latch_control-Holds t0 t c same h = ground arith

latch_if_start-Holds :
    (t0 t : TouchScreenController) (c : ℕ)
    → SameTouch t0 t
    → IsControl c
    → Holds t0 (latch_if_start t c) (adc t0 (channel c))
latch_if_start-Holds t0 t c same h = rw (h.0) (latch_control-Holds t0 t c same h)

data_phase-SameTouch :
    (t0 t : TouchScreenController) → SameTouch t0 t → SameTouch t0 (data_phase t).0
unfolding data_phase
data_phase-SameTouch t0 t same = ground arith

inner-Holds :
    (st : TscState) (t0 t : TouchScreenController) (c : ℕ)
    → SameTouch t0 t
    → IsControl c
    → Holds t0 (inner st t c).0 (adc t0 (channel c))
unfolding inner
inner-Holds expect_control t0 t c same h = latch_if_start-Holds t0 t c same h
inner-Holds expect_data t0 t c same h =
    latch_if_start-Holds t0 (data_phase t).0 c (data_phase-SameTouch t0 t same) h

-- A control byte starts its conversion in whatever phase the converter is.
pub process_byte-Holds :
    (t0 t : TouchScreenController) (c : ℕ)
    → SameTouch t0 t
    → IsControl c
    → Holds t0 (process_byte t c).0 (adc t0 (channel c))
unfolding process_byte process_byte_inner
process_byte-Holds t0 t c same h = ground (arith, inner-Holds t.state t0 t c same h)

-- The converter has answered the high bits of `r`, and its low bits are next.
pub record HalfRead (t0 t : TouchScreenController) (r : ℕ) : Type 0 where
  pub phase : t.state ≡ expect_data
  pub wide : t.mode_8bit ≡ false
  pub halfway : t.byte_count ≡ 1
  pub value : t.result ≡ r
  pub same_x : t.touch_x ≡ t0.touch_x
  pub same_y : t.touch_y ≡ t0.touch_y
  pub same_pen : t.touch_pressed ≡ t0.touch_pressed

-- The first data byte answers bits 5 to 11 of the result.
pub process_byte-HalfRead :
    (t0 t : TouchScreenController) (r : ℕ)
    → Holds t0 t r
    → HalfRead t0 (process_byte t 0).0 r × ((process_byte t 0).1 ≡ r / 32 % 128)
unfolding process_byte process_byte_inner
process_byte-HalfRead t0 t r h =
    rw (h.phase, inner, data_phase, h.wide, h.fresh)
      (ground arith, bit_and_low 7 (t.result >> 5) ∙ ap (λ (n : ℕ). n / 32 % 128) h.value)

-- The second answers bits 0 to 4, in its own bits 3 to 7, whatever byte is clocked in.
pub process_byte-low_bits :
    (t0 t : TouchScreenController) (r v : ℕ)
    → HalfRead t0 t r
    → r < 4096
    → (process_byte t v).1 ≡ r % 32 * 8
unfolding process_byte process_byte_inner
process_byte-low_bits t0 t r v h small =
    rw (h.phase, inner, data_phase, h.wide, h.halfway)
      (omega (arith, bit_and_field 3 5 (u16 (t.result << 3)), h.value))

HalfRead-SameTouch : (t0 t : TouchScreenController) (r : ℕ) → HalfRead t0 t r → SameTouch t0 t
HalfRead-SameTouch t0 t r h = ground arith

pub adc-lt : (t : TouchScreenController) (ch : ℕ) → adc t ch < 4096
unfolding adc calculate_result
adc-lt t ch = ground arith

-- Bytes clocked into the converter, and what it answers.
unfoldable pub clocked : TouchScreenController → List ℕ → List ℕ
clocked t [] = []
clocked t (v ∷ vs) = (process_byte t v).1 ∷ clocked (process_byte t v).0 vs

-- What the driver clocks after a control byte: each further control byte rides on the read of the
-- low bits.
abbrev pub burst : List ℕ → List ℕ
burst [] = 0 ∷ 0 ∷ []
burst (c ∷ cs) = 0 ∷ c ∷ burst cs

-- The two data bytes of a conversion.
abbrev pub data_bytes : ℕ → List ℕ → List ℕ
data_bytes r rest = (r / 32 % 128) ∷ (r % 32 * 8) ∷ rest

abbrev pub replies : TouchScreenController → ℕ → List ℕ → List ℕ
replies t0 c [] = data_bytes (adc t0 (channel c)) []
replies t0 c (d ∷ cs) = data_bytes (adc t0 (channel c)) (replies t0 d cs)

clocked-Holds :
    (t0 t : TouchScreenController) (c : ℕ) (cs : List ℕ)
    → Holds t0 t (adc t0 (channel c))
    → All IsControl cs
    → clocked t (burst cs) ≡ replies t0 c cs
unfolding clocked
clocked-Holds t0 t c [] h hs =
    let r = adc t0 (channel c) in
    let (low, high_bits) = process_byte-HalfRead t0 t r h in
    rw (high_bits, process_byte-low_bits t0 (process_byte t 0).0 r 0 low (adc-lt t0 (channel c)))
      refl
clocked-Holds t0 t c (d ∷ cs) h hs =
    let r = adc t0 (channel c) in
    let (low, high_bits) = process_byte-HalfRead t0 t r h in
    let t1 = (process_byte t 0).0 in
    let next = process_byte-Holds t0 t1 d (HalfRead-SameTouch t0 t1 r low) hs.0 in
    rw (high_bits, process_byte-low_bits t0 t1 r d low (adc-lt t0 (channel c)))
      (ap (λ l. data_bytes r l) (clocked-Holds t0 (process_byte t1 d).0 d cs next hs.1))

-- The result that two data bytes carry, as the driver puts it together.
abbrev pub decode : List ℕ → List ℕ
decode [] = []
decode (h ∷ []) = []
decode (h ∷ l ∷ rest) = bit_or (h << 5) (l >> 3) ∷ decode rest

abbrev pub measurements : TouchScreenController → List ℕ → List ℕ
measurements t [] = []
measurements t (c ∷ cs) = adc t (channel c) ∷ measurements t cs

decode-data_bytes : (r : ℕ) → r < 4096 → bit_or ((r / 32 % 128) << 5) ((r % 32 * 8) >> 3) ≡ r
decode-data_bytes r h =
    omega (arith, bit_or_fields 5 (r / 32 % 128) ((r % 32 * 8) / 8) (omega arith))

decode-replies :
    (t0 : TouchScreenController) (c : ℕ) (cs : List ℕ)
    → decode (replies t0 c cs) ≡ measurements t0 (c ∷ cs)
decode-replies t0 c [] = rw (decode-data_bytes _ (adc-lt t0 (channel c))) refl
decode-replies t0 c (d ∷ cs) =
    rw (decode-data_bytes _ (adc-lt t0 (channel c)), decode-replies t0 d cs) refl

-- A burst of overlapped 12-bit conversions, started in any phase of the converter, answers for each
-- control byte what a conversion of its channel measures: after the first byte, each pair of bytes
-- decodes to the measurement, in order, with none lost and none repeated.
pub decode-clocked :
    (t : TouchScreenController) (c : ℕ) (cs : List ℕ)
    → All IsControl (c ∷ cs)
    → decode (clocked (process_byte t c).0 (burst cs)) ≡ measurements t (c ∷ cs)
decode-clocked t c cs h =
    let same : SameTouch t t = record { same_x = refl; same_y = refl; same_pen = refl } in
    ap decode (clocked-Holds t (process_byte t c).0 c cs (process_byte-Holds t t c same h.0) h.1)
    ∙ decode-replies t c cs
