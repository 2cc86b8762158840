-- ===== src/Gbc/Mmu/Bounds.antt =====
-- The bounds of gbc/mmu.rs: no access, and no transfer, reaches past the end of a memory.
use emulator_app.Base.{ℕ, ◌≡◌, refl, ap, ◌∙◌, List, [], ◌∷◌, Option}
use emulator_app.Gbc.Mmu.{Mmu, new, unecho, read_byte, write_byte, hdma_step}
use emulator_app.Gbc.Mmu.Sized.{IsSized, new-IsSized, write_byte-IsSized, hdma_step-IsSized}
use emulator_app.Gbc.Mmu.Padded.{padded, read_byte-padded, unecho_plain}
use emulator_app.Gbc.Mmu.Padded.Writes.{hdma_step-padded, write_direct-padded}

-- An access of the bus: a read, a write, or a horizontal blank.
pub data Access : Type 0 where
  reads : ℕ → Access
  writes : ℕ → ℕ → Access
  blanks : Access

-- The machine after an access, and what a read answers.
unfoldable pub act : Mmu → Access → Mmu × ℕ
act m (reads a) = (m, read_byte m a)
act m (writes a v) = (write_byte m a v, 0)
act m blanks = (hdma_step m, 0)

unfoldable pub run : Mmu → List Access → Mmu × List ℕ
run m [] = (m, [])
run m (e ∷ es) = let (m1, word) = act m e in let (m2, words) = run m1 es in (m2, word ∷ words)

act-padded :
    (x : List ℕ) (m : Mmu) (e : Access)
    → IsSized m
    → act (padded x m) e ≡ (padded x (act m e).0, (act m e).1)
unfolding act write_byte
act-padded x m (reads a) h = ap (λ n. (padded x m, n)) (read_byte-padded x m h a)
act-padded x m (writes a v) h =
    ap (λ t. (t, 0)) (write_direct-padded x m (unecho a) v h (unecho_plain a))
act-padded x m blanks h = ap (λ t. (t, 0)) (hdma_step-padded x m h)

act-IsSized : (m : Mmu) (e : Access) → IsSized m → IsSized (act m e).0
unfolding act
act-IsSized m (reads a) h = h
act-IsSized m (writes a v) h = write_byte-IsSized m a v h
act-IsSized m blanks h = hdma_step-IsSized m h

run_from-padded :
    (x : List ℕ) (m : Mmu) (es : List Access)
    → IsSized m
    → run (padded x m) es ≡ (padded x (run m es).0, (run m es).1)
unfolding run
run_from-padded x m [] h = refl
run_from-padded x m (e ∷ es) h =
    let one = act-padded x m e h in
    let m1 = (act m e).0 in
    let rest = run_from-padded x m1 es (act-IsSized m e h) in
    ap (λ t. let after = run t.0 es in (after.0, t.1 ∷ after.1)) one
    ∙ ap (λ t. (t.0, (act m e).1 ∷ t.1)) rest

-- From the machine as it is made, over any reads, writes (with the transfers that they start) and
-- horizontal blanks, no access reaches past the end of video memory, work RAM, object memory, the
-- registers, high RAM or a palette: with any bytes `x` behind each of them, every read answers the
-- same, the memories end the same, and behind them the same bytes still stand.
pub run-padded :
    (rom : List ℕ) (ram : Option (List ℕ)) (x : List ℕ) (es : List Access)
    → run (padded x (new rom ram)) es
      ≡ (padded x (run (new rom ram) es).0, (run (new rom ram) es).1)
run-padded rom ram x es = run_from-padded x (new rom ram) es (new-IsSized rom ram)
