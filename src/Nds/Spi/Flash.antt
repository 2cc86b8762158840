-- ===== src/Nds/Spi/Flash.antt =====
-- core/src/nds/spi.rs: programming the firmware flash, and reading it.
use emulator_app.Base.{
  ℕ, zero, suc, ◌+◌, ◌%◌, ◌^◌, ◌≤◌, ◌<◌, ◌≡◌, ◌≢◌, refl, ap, ◌∙◌, true, ◌||◌, arith, List, [], ◌∷◌,
  some, ◌==◌, bit_and_low, length, length-set, get_or, get_or-set, set,
}
use emulator_app.Nds.Spi.Firmware.{
  FirmwareState, firmware_bytes, cell_of, read_data, write_data, respond, process_byte,
}
use emulator_app.Nds.Spi.Frames.{clock_all, outputs}

-- The cells after bytes are programmed from an address on.
unfoldable pub write_all : List ℕ → ℕ → List ℕ → List ℕ
write_all cells a [] = cells
write_all cells a (v ∷ vs) = write_all (set cells (a % firmware_bytes) v) (a + 1) vs

-- `n` cells from an address on.
unfoldable pub read_all : List ℕ → ℕ → ℕ → List ℕ
read_all cells a zero = []
read_all cells a (suc n) = get_or cells (a % firmware_bytes) 0xFF ∷ read_all cells (a + 1) n

cell_of_lem : (a : ℕ) → cell_of a ≡ a % firmware_bytes
cell_of_lem a = bit_and_low 18 a

-- In the data phase of a command.
pub record Streams (f : FirmwareState) (c a i : ℕ) : Type 0 where
  pub busy : f.cmd ≡ some c
  pub place : f.addr ≡ a
  pub started : f.idx ≡ i
  pub past : 3 ≤ i

write_step :
    (f : FirmwareState) (c a i v : ℕ)
    → (c == 0x02 || c == 0x0A) ≡ true
    → Streams f c a i
    → i + 1 < 2 ^ 32
    → a + 1 < 2 ^ 32
    → Streams (process_byte f v).0 c (a + 1) (i + 1)
      × ((process_byte f v).0.cells ≡ set f.cells (a % firmware_bytes) v)
unfolding process_byte respond write_data
write_step f c a i v h s hi ha = ground (arith, cell_of_lem f.addr)

read_step :
    (f : FirmwareState) (a i v : ℕ)
    → Streams f 0x03 a i
    → i + 1 < 2 ^ 32
    → a + 1 < 2 ^ 32
    → Streams (process_byte f v).0 0x03 (a + 1) (i + 1)
      × ((process_byte f v).0.cells ≡ f.cells)
      × ((process_byte f v).1 ≡ get_or f.cells (a % firmware_bytes) 0xFF)
unfolding process_byte respond read_data
read_step f a i v s hi ha = rw (s.busy) (ground (arith, cell_of_lem f.addr))

pub clock_all-write_all :
    (f : FirmwareState) (c a i : ℕ) (vs : List ℕ)
    → (c == 0x02 || c == 0x0A) ≡ true
    → Streams f c a i
    → i + length vs < 2 ^ 32
    → a + length vs < 2 ^ 32
    → (clock_all f vs).cells ≡ write_all f.cells a vs
unfolding clock_all write_all
clock_all-write_all f c a i [] h s hi ha = refl
clock_all-write_all f c a i (v ∷ vs) h s hi ha =
    let (next, stored) = write_step f c a i v h s (omega arith) (omega arith) in
    clock_all-write_all (process_byte f v).0 c (a + 1) (i + 1) vs h next (omega arith) (omega arith)
    ∙ ap (λ cells. write_all cells (a + 1) vs) stored

pub outputs-read_all :
    (f : FirmwareState) (a i : ℕ) (vs : List ℕ)
    → Streams f 0x03 a i
    → i + length vs < 2 ^ 32
    → a + length vs < 2 ^ 32
    → outputs f vs ≡ read_all f.cells a (length vs)
unfolding outputs read_all
outputs-read_all f a i [] s hi ha = refl
outputs-read_all f a i (v ∷ vs) s hi ha =
    let (next, same, out) = read_step f a i v s (omega arith) (omega arith) in
    rw (out) (
      ap (λ l. get_or f.cells (a % firmware_bytes) 0xFF ∷ l)
        (outputs-read_all (process_byte f v).0 (a + 1) (i + 1) vs next (omega arith) (omega arith)
          ∙ ap (λ cells. read_all cells (a + 1) (length vs)) same))

pub length-write_all :
    (cells : List ℕ) (a : ℕ) (vs : List ℕ) → length (write_all cells a vs) ≡ length cells
unfolding write_all
length-write_all cells a [] = refl
length-write_all cells a (v ∷ vs) =
    length-write_all (set cells (a % firmware_bytes) v) (a + 1) vs
    ∙ length-set cells (a % firmware_bytes) v

pub write_all-miss :
    (cells : List ℕ) (a : ℕ) (vs : List ℕ) (j : ℕ)
    → ((k : ℕ) → k < length vs → (a + k) % firmware_bytes ≢ j)
    → get_or (write_all cells a vs) j 0xFF ≡ get_or cells j 0xFF
unfolding write_all
write_all-miss cells a [] j miss = refl
write_all-miss cells a (v ∷ vs) j miss =
    write_all-miss (set cells (a % firmware_bytes) v) (a + 1) vs j (λ k h.
      let shift : a + suc k ≡ a + 1 + k = omega arith in rw shift at (miss (suc k) (omega arith)))
    ∙ ground (arith, miss 0, get_or-set cells (a % firmware_bytes) j v 0xFF)

pub write_all-hit :
    (cells : List ℕ) (a : ℕ) (vs : List ℕ) (i : ℕ)
    → length cells ≡ firmware_bytes
    → length vs ≤ firmware_bytes
    → i < length vs
    → get_or (write_all cells a vs) ((a + i) % firmware_bytes) 0xFF ≡ get_or vs i 0xFF
unfolding write_all
write_all-hit cells a [] i size fits h = absurd (omega arith)
write_all-hit cells a (v ∷ vs) zero size fits h =
    let here : a + 0 ≡ a = omega arith in
    let j = a % firmware_bytes in
    rw (here) (
      write_all-miss (set cells j v) (a + 1) vs j (λ k hk e. omega arith)
      ∙ ground (arith, get_or-set cells j j v 0xFF))
write_all-hit cells a (v ∷ vs) (suc i) size fits h =
    let next : a + suc i ≡ a + 1 + i = omega arith in
    let j = a % firmware_bytes in
    rw (next) (
      write_all-hit (set cells j v) (a + 1) vs i (length-set cells j v ∙ size) (omega arith)
        (omega arith))

pub read_all-eq :
    (cells : List ℕ) (a : ℕ) (vs : List ℕ)
    → ((i : ℕ) → i < length vs → get_or cells ((a + i) % firmware_bytes) 0xFF ≡ get_or vs i 0xFF)
    → read_all cells a (length vs) ≡ vs
unfolding read_all
read_all-eq cells a [] h = refl
read_all-eq cells a (v ∷ vs) h =
    let here : a + 0 ≡ a = omega arith in
    let first : get_or cells (a % firmware_bytes) 0xFF ≡ v = rw here at (h 0 (omega arith)) in
    rw (first) (
      ap (λ l. v ∷ l)
        (read_all-eq cells (a + 1) vs (λ i hi.
          let next : a + suc i ≡ a + 1 + i = omega arith in rw next at (h (suc i) (omega arith)))))
