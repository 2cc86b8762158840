-- ===== src/Nds/Spi/Frames.antt =====
-- core/src/nds/spi.rs: transactions of the firmware flash, as the driver clocks them.
use emulator_app.Base.{
  ℕ, ◌+◌, ◌*◌, ◌^◌, ◌<◌, ◌≡◌, refl, ap, ◌∙◌, true, arith, List, [], ◌∷◌, ◌++◌, some, none,
}
use emulator_app.Nds.Backup.Frames.{shift_in_lem, address, takes_address}
use emulator_app.Nds.Spi.Firmware.{
  FirmwareState, latch_command, read_data, write_data, respond, process_byte, reset_state,
}

-- Bytes clocked into the flash with chip select held, and what it answers.
unfoldable pub clock_all : FirmwareState → List ℕ → FirmwareState
clock_all f [] = f
clock_all f (v ∷ vs) = clock_all (process_byte f v).0 vs

unfoldable pub outputs : FirmwareState → List ℕ → List ℕ
outputs f [] = []
outputs f (v ∷ vs) = (process_byte f v).1 ∷ outputs (process_byte f v).0 vs

-- A transaction ends with the release of chip select.
unfoldable pub frame : FirmwareState → List ℕ → FirmwareState
frame f vs = reset_state (clock_all f vs)

pub clock_all-append :
    (f : FirmwareState) (xs ys : List ℕ) → clock_all f (xs ++ ys) ≡ clock_all (clock_all f xs) ys
unfolding clock_all
clock_all-append f [] ys = refl
clock_all-append f (x ∷ xs) ys = clock_all-append (process_byte f x).0 xs ys

pub outputs-append :
    (f : FirmwareState) (xs ys : List ℕ)
    → outputs f (xs ++ ys) ≡ outputs f xs ++ outputs (clock_all f xs) ys
unfolding clock_all outputs
outputs-append f [] ys = refl
outputs-append f (x ∷ xs) ys =
    ap (λ l. (process_byte f x).1 ∷ l) (outputs-append (process_byte f x).0 xs ys)

-- Between transactions.
pub record Idle (f : FirmwareState) : Type 0 where
  pub no_cmd : f.cmd ≡ none
  pub at_start : f.idx ≡ 0
  pub no_addr : f.addr ≡ 0

pub reset_state-Idle : (f : FirmwareState) → Idle (reset_state f)
unfolding reset_state
reset_state-Idle f = record { no_cmd = refl; at_start = refl; no_addr = refl }

command_lem :
    (f : FirmwareState) (c : ℕ)
    → Idle f
    → takes_address c ≡ true
    → ((process_byte f c).0 ≡ record f { cmd = some c; idx = 0; addr = 0 })
      × ((process_byte f c).1 ≡ 0)
unfolding process_byte respond latch_command
command_lem f c idle h = ground arith

address_lem :
    (f : FirmwareState) (c val : ℕ)
    → f.cmd ≡ some c
    → takes_address c ≡ true
    → f.idx < 3
    → f.addr < 2 ^ 24
    → val < 256
    → ((process_byte f val).0 ≡ record f { idx = f.idx + 1; addr = f.addr * 256 + val })
      × ((process_byte f val).1 ≡ 0)
unfolding process_byte respond read_data write_data
address_lem f c val busy h i a v = ground (arith, shift_in_lem f.addr val a v)

-- The flash after a command and its address.
abbrev pub begun : FirmwareState → ℕ → ℕ → FirmwareState
begun f c at = record f { cmd = some c; idx = 3; addr = at }

abbrev pub header : ℕ → ℕ → ℕ → ℕ → List ℕ
header c a2 a1 a0 = c ∷ a2 ∷ a1 ∷ a0 ∷ []

-- A READ or program command with its three address bytes, the highest first.
pub header_lem :
    (f : FirmwareState) (c a2 a1 a0 : ℕ)
    → Idle f
    → takes_address c ≡ true
    → a2 < 256
    → a1 < 256
    → a0 < 256
    → (clock_all f (header c a2 a1 a0) ≡ begun f c (address a2 a1 a0))
      × (outputs f (header c a2 a1 a0) ≡ 0 ∷ 0 ∷ 0 ∷ 0 ∷ [])
unfolding clock_all outputs
header_lem f c a2 a1 a0 idle h h2 h1 h0 =
    let f1 : FirmwareState = record f { cmd = some c; idx = 0; addr = 0 } in
    let f2 : FirmwareState = record f1 { idx = 0 + 1; addr = 0 * 256 + a2 } in
    let f3 : FirmwareState = record f1 { idx = 0 + 1 + 1; addr = (0 * 256 + a2) * 256 + a1 } in
    let total : (((0 * 256 + a2) * 256 + a1) * 256 + a0) ≡ address a2 a1 a0 = omega arith in
    let one = command_lem f c idle h in
    let two = address_lem f1 c a2 refl h (omega arith) (omega arith) h2 in
    let three = address_lem f2 c a1 refl h (omega arith) (omega arith) h1 in
    let four = address_lem f3 c a0 refl h (omega arith) (omega arith) h0 in
    (
      ap (λ x. (process_byte (process_byte (process_byte x a2).0 a1).0 a0).0) one.0
          ∙ ap (λ x. (process_byte (process_byte x a1).0 a0).0) two.0
          ∙ ap (λ x. (process_byte x a0).0) three.0
          ∙ four.0
          ∙ ap (λ t. begun f c t) total,
      rw (one.1, one.0, two.1, two.0, three.1, three.0, four.1) refl,
    )
