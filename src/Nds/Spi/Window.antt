-- ===== src/Nds/Spi/Window.antt =====
-- core/src/nds/spi.rs: the busy window of the firmware flash, as status polls see it.
use emulator_app.Base.{
  ℕ, ◌≡◌, refl, ap, true, false, inl, inr, ◌⊎◌, ◌∙◌, ◌||◌, ◌==◌, ◌+◌, arith, Bool, Bool-cases, List,
  [], ◌∷◌, some, if◌then◌else◌, length, replicate,
}
use emulator_app.Nds.Spi.Firmware.{
  FirmwareState, process_byte, reset_state, respond, latch_command, read_status, launches,
}
use emulator_app.Nds.Spi.Frames.{outputs}

-- Where nothing is in flight, a poll answers the write-enable latch, and changes nothing.
poll_ready :
    (f : FirmwareState) (fill : List ℕ)
    → f.cmd ≡ some 0x05
    → f.wip_reads ≡ 0
    → outputs f fill ≡ replicate (length fill) (if f.wel then 2 else 0)
unfolding outputs replicate
poll_ready f [] busy ready = refl
poll_ready f (v ∷ vs) busy ready =
    let same : process_byte f v ≡ (f, if f.wel then 2 else 0) =
      unfold process_byte respond read_status in rw (busy, ready) refl in
    rw (same) (ap (λ l. (if f.wel then 2 else 0) ∷ l) (poll_ready f vs busy ready))

-- A command that writes the cells or the status: page write, page program, page erase, status write.
abbrev pub writes : ℕ → Bool
writes c = c == 0x0A || c == 0x02 || c == 0xDB || c == 0x01

launched :
    (f : FirmwareState) (x y : ℕ) (fill : List ℕ)
    → launches f.cmd ≡ true
    → outputs (reset_state f) (0x05 ∷ x ∷ y ∷ fill)
      ≡ 0 ∷ (if f.wel then 3 else 1) ∷ (if f.wel then 3 else 1) ∷ replicate (length fill) 0
unfolding outputs process_byte respond read_status latch_command reset_state
launched f x y fill started =
    let polled : FirmwareState = record f {
      cmd = some 0x05;
      idx = 0;
      addr = 0;
      wel = false;
      wip_reads = 0;
    } in
    let polls = poll_ready polled fill refl refl in
    rw (started) (ap (λ l. 0 ∷ (if f.wel then 3 else 1) ∷ (if f.wel then 3 else 1) ∷ l) polls)

unlaunched :
    (f : FirmwareState) (fill : List ℕ)
    → launches f.cmd ≡ false
    → f.wip_reads ≡ 0
    → outputs (reset_state f) (0x05 ∷ fill) ≡ 0 ∷ replicate (length fill) (if f.wel then 2 else 0)
unfolding outputs process_byte respond latch_command reset_state
unlaunched f fill other ready =
    let polled : FirmwareState = record f { cmd = some 0x05; idx = 0; addr = 0; wip_reads = 0 } in
    rw (other, ready) (ap (λ l. 0 ∷ l) (poll_ready polled fill refl refl))

-- When a transaction is released, a status command and its polls follow. After a page write (0x0A), a
-- page program (0x02), a page erase (0xDB) or a status write (0x01), two polls see a write in flight,
-- with the write-enable latch as it stood; from the third on, however long the driver polls, the flash
-- is ready and the latch is clear. After any other command no poll sees a write in flight, and the
-- latch stays as it was, if no write was in flight before.
pub outputs-reset_state :
    (f : FirmwareState) (c x y : ℕ) (fill : List ℕ)
    → f.cmd ≡ some c
    → (writes c ≡ true) ⊎ (f.wip_reads ≡ 0)
    → outputs (reset_state f) (0x05 ∷ x ∷ y ∷ fill) ≡ (
        if c == 0x0A || c == 0x02 || c == 0xDB || c == 0x01
        then 0 ∷ (if f.wel then 3 else 1) ∷ (if f.wel then 3 else 1) ∷ replicate (length fill) 0
        else 0 ∷ replicate (length fill + 2) (if f.wel then 2 else 0))
outputs-reset_state f c x y fill command h = elim (Bool-cases (writes c)) [
  | inl write ↦
      let e : launches (some c) ≡ true = ground arith in
      rw (write) (launched f x y fill (ap launches command ∙ e))
  | inr other ↦
      let e : launches (some c) ≡ false = ground arith in
      let ready : f.wip_reads ≡ 0 = ground (arith, h) in
      rw (other) (
        unlaunched f (x ∷ y ∷ fill) (ap launches command ∙ e) ready
        ∙ ap (λ n. 0 ∷ replicate n (if f.wel then 2 else 0)) (omega arith))
]
