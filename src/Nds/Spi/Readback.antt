-- ===== src/Nds/Spi/Readback.antt =====
-- core/src/nds/spi.rs: what the driver reads of the firmware flash after it has programmed it.
use emulator_app.Base.{
  ℕ, ◌+◌, ◌%◌, ◌^◌, ◌≤◌, ◌<◌, ◌≡◌, ◌≢◌, refl, ap, ◌∙◌, Bool, true, ◌||◌, arith, List, ◌∷◌, ◌++◌,
  ◌==◌, length, get_or,
}
use emulator_app.Nds.Backup.Frames.{address}
use emulator_app.Nds.Spi.Firmware.{FirmwareState, firmware_bytes, reset_state}
use emulator_app.Nds.Spi.Frames.{
  clock_all, outputs, frame, clock_all-append, outputs-append, Idle, reset_state-Idle, begun,
  header, header_lem,
}
use emulator_app.Nds.Spi.Flash.{
  Streams, write_all, read_all, clock_all-write_all, outputs-read_all, write_all-miss,
  write_all-hit, read_all-eq,
}

begun-Streams : (f : FirmwareState) (c a : ℕ) → Streams (begun f c a) c a 3
begun-Streams f c a = record { busy = refl; place = refl; started = refl; past = omega arith }

-- A command that programs.
abbrev pub programs : ℕ → Bool
programs c = c == 0x02 || c == 0x0A

-- A program transaction leaves the cells that `write_all` says.
pub frame-write_all :
    (f : FirmwareState) (c a2 a1 a0 : ℕ) (vs : List ℕ)
    → Idle f
    → programs c ≡ true
    → a2 < 256
    → a1 < 256
    → a0 < 256
    → length vs ≤ firmware_bytes
    → (frame f (header c a2 a1 a0 ++ vs)).cells ≡ write_all f.cells (address a2 a1 a0) vs
unfolding frame reset_state
frame-write_all f c a2 a1 a0 vs idle h h2 h1 h0 fits =
    let a = address a2 a1 a0 in
    let small : a < 2 ^ 24 = omega arith in
    ap (λ x. x.cells) (clock_all-append f (header c a2 a1 a0) vs)
    ∙ ap (λ x. (clock_all x vs).cells) (header_lem f c a2 a1 a0 idle (ground arith) h2 h1 h0).0
    ∙ clock_all-write_all (begun f c a) c a 3 vs h (begun-Streams f c a) (omega arith) (omega arith)

-- A READ transaction answers the cells from its address on, after the four bytes of its header.
pub outputs-header :
    (f : FirmwareState) (a2 a1 a0 : ℕ) (vs : List ℕ)
    → Idle f
    → a2 < 256
    → a1 < 256
    → a0 < 256
    → length vs ≤ firmware_bytes
    → outputs f (header 0x03 a2 a1 a0 ++ vs)
      ≡ 0 ∷ 0 ∷ 0 ∷ 0 ∷ read_all f.cells (address a2 a1 a0) (length vs)
outputs-header f a2 a1 a0 vs idle h2 h1 h0 fits =
    let a = address a2 a1 a0 in
    let small : a < 2 ^ 24 = omega arith in
    let (state, zeros) = header_lem f 0x03 a2 a1 a0 idle refl h2 h1 h0 in
    outputs-append f (header 0x03 a2 a1 a0) vs
    ∙ ap (λ l. l ++ outputs (clock_all f (header 0x03 a2 a1 a0)) vs) zeros
    ∙ ap (λ x. 0 ∷ 0 ∷ 0 ∷ 0 ∷ outputs x vs) state
    ∙ ap (λ l. 0 ∷ 0 ∷ 0 ∷ 0 ∷ l)
        (outputs-read_all (begun f 0x03 a) a 3 vs (begun-Streams f 0x03 a) (omega arith)
          (omega arith))

-- What a program transaction stores is what a READ transaction at the same address answers, byte for
-- byte, with any bytes clocked in for it; the addresses wrap at the end of the flash, and a cell that
-- no byte of the payload reaches keeps its value. The write-enable latch is not asked for.
pub outputs-frame :
    (f : FirmwareState) (c a2 a1 a0 : ℕ) (payload fill : List ℕ)
    → Idle f
    → length f.cells ≡ firmware_bytes
    → programs c ≡ true
    → a2 < 256
    → a1 < 256
    → a0 < 256
    → length payload ≤ firmware_bytes
    → length fill ≡ length payload
    → (outputs (frame f (header c a2 a1 a0 ++ payload)) (header 0x03 a2 a1 a0 ++ fill)
        ≡ 0 ∷ 0 ∷ 0 ∷ 0 ∷ payload)
      × ((j : ℕ)
          → ((k : ℕ) → k < length payload → (address a2 a1 a0 + k) % firmware_bytes ≢ j)
          → get_or (frame f (header c a2 a1 a0 ++ payload)).cells j 0xFF ≡ get_or f.cells j 0xFF)
outputs-frame f c a2 a1 a0 payload fill idle size h h2 h1 h0 fits same =
    let a = address a2 a1 a0 in
    let f1 = frame f (header c a2 a1 a0 ++ payload) in
    let stored = frame-write_all f c a2 a1 a0 payload idle h h2 h1 h0 fits in
    (
      outputs-header f1 a2 a1 a0 fill (frame-Idle f (header c a2 a1 a0 ++ payload)) h2 h1 h0
            (omega arith)
          ∙ ap (λ cells. 0 ∷ 0 ∷ 0 ∷ 0 ∷ read_all cells a (length fill)) stored
          ∙ ap (λ (n : ℕ). 0 ∷ 0 ∷ 0 ∷ 0 ∷ read_all (write_all f.cells a payload) a n) same
          ∙ ap (λ l. 0 ∷ 0 ∷ 0 ∷ 0 ∷ l)
              (read_all-eq (write_all f.cells a payload) a payload
                (λ i hi. write_all-hit f.cells a payload i size fits hi)),
      λ j miss. ap (λ cells. get_or cells j 0xFF) stored ∙ write_all-miss f.cells a payload j miss,
    )
  where
    frame-Idle : (g : FirmwareState) (vs : List ℕ) → Idle (frame g vs)
    frame-Idle g vs = unfold frame in reset_state-Idle (clock_all g vs)
