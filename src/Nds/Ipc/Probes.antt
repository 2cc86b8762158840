-- ===== src/Nds/Ipc/Probes.antt =====
-- core/src/nds/mmu.rs: what the FIFO handlers record for the probes. Memory as the ARM9 reads it is a
-- parameter.
use emulator_app.Base.{
  ℕ, zero, suc, ◌+◌, min, Bool, true, false, ◌&&◌, ◌!=◌, ◌==◌, ltb, if◌then◌else◌, bit_and, List,
  [], ◌∷◌, ◌++◌, length, get_or, set, u32, ◌>>◌,
}
use emulator_app.Nds.Ipc.State.{Probes}

-- `fifo_log.push`, where the log is on and has room.
unfoldable pub log_word : Probes → ℕ → ℕ → Probes
log_word p source val =
    if p.fifo_log_on && ltb (length p.fifo_log) 512
    then record p { fifo_log = p.fifo_log ++ ((source, val) ∷ []) }
    else p

-- The bytes of the argument block at `at`.
unfoldable pub block_at : (ℕ → ℕ) → ℕ → ℕ → List ℕ
block_at peek at zero = []
block_at peek at (suc n) = peek (u32 at) ∷ block_at peek (at + 1) n

abbrev pub note_command : (ℕ → ℕ) → Probes → ℕ → Probes
note_command peek p word =
    let counted = record p {
      tag11_9to7 = set p.tag11_9to7 word (u32 (get_or p.tag11_9to7 word 0 + 1));
    } in
    if word == 0
    then record counted { tag11_expect_ptr = true }
    else if p.tag11_argptr != 0 && ltb (length p.tag11_args) 12
    then record counted {
      tag11_args = p.tag11_args ++ ((word, block_at peek p.tag11_argptr 0x60) ∷ []);
    }
    else counted

abbrev pub note_pointer : Probes → ℕ → Probes
note_pointer p word =
    let counted = record p { tag11_9to7_wide = u32 (p.tag11_9to7_wide + 1) } in
    if p.tag11_expect_ptr
    then record counted { tag11_argptr = word; tag11_expect_ptr = false }
    else counted

unfoldable pub note_tag11 : (ℕ → ℕ) → Probes → ℕ → ℕ → Probes
note_tag11 peek p dir val =
    let word = val >> 6 in
    let noted =
      if dir == 9
      then if ltb word 16 then note_command peek p word else note_pointer p word
      else record p { tag11_7to9 = min (p.tag11_7to9 + 1) 4294967295 } in
    if bit_and val 0x1F != 0x0B
    then p
    else if ltb (length noted.tag11_head) 64
    then record noted { tag11_head = noted.tag11_head ++ ((dir, val) ∷ []) }
    else noted

abbrev pub is_tag7 : ℕ → Bool
is_tag7 val = bit_and val 0x1F == 7

unfoldable pub note_send_arm9 : (ℕ → ℕ) → Probes → ℕ → Probes
unfolding log_word note_tag11
note_send_arm9 peek p val =
    let logged = log_word p 9 val in
    let tagged =
      if is_tag7 val
      then record logged { tag7_sent = u32 (logged.tag7_sent + 1); last_tag7_data = val >> 6 }
      else logged in
    note_tag11 peek tagged 9 val

-- A word that the full FIFO refuses.
unfoldable pub note_dropped : Probes → ℕ → Probes
unfolding log_word
note_dropped p val =
    log_word
      (if is_tag7 val then record p { tag7_dropped_full = u32 (p.tag7_dropped_full + 1) } else p)
      0xF val

unfoldable pub note_send_arm7 : (ℕ → ℕ) → Probes → ℕ → Probes
unfolding log_word note_tag11
note_send_arm7 peek p val = log_word (note_tag11 peek p 7 val) 7 val

unfoldable pub note_receive_arm7 : Probes → ℕ → Probes
unfolding log_word
note_receive_arm7 p val =
    log_word (if is_tag7 val then record p { tag7_rx7 = u32 (p.tag7_rx7 + 1) } else p) 1 val
