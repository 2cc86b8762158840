-- ===== src/Nds/Backup/Restore.antt =====
-- Saving and restoring the chip of nds/backup.rs in a snapshot.
use emulator_app.Base.{
  ℕ, ◌+◌, ◌-◌, ◌≤◌, ◌<◌, ◌≡◌, ◌≢◌, inl, inr, refl, ap, sym, ◌∙◌, true, ◌!=◌, ltb, Bool-cases, arith,
  List, [], ◌++◌, some, length, take, length-append,
}
use emulator_app.Snapshot.Codec.{
  Why, ok, err, malformed, Reader, new, Visitor, writer, reader, error, fail, to_le_bytes,
  snap_enum,
}
use emulator_app.Snapshot.Unread.{
  Unread, advance, advance-Unread, take_before, take_after, append_assoc, Unread-subst,
}
use emulator_app.Snapshot.Lawful.{stuck_after}
use emulator_app.Snapshot.Collections.{error-fail}
use emulator_app.Nds.Backup.{BackupKind, NdsBackup}
use emulator_app.Snapshot.Streams.{
  saved, loaded, finished, new-Unread, append_nil, finished-failed, finish-advance,
}
use emulator_app.Nds.Backup.Snapshots.{
  kind_index, kind_from, other_device, fields, with_fields, snap_backup,
}
use emulator_app.Nds.Backup.Encoded.{
  Saveable, fields_law, kind_law, fields_fit, encode, follow, saved_lem, same_index, other_index,
}

follow-reads :
    (r : Reader) (x y : NdsBackup) (rest : List ℕ)
    → Saveable x
    → Saveable y
    → x.kind ≡ y.kind
    → Unread r ((fields_law x.kind).encode (fields x) ++ rest)
    → follow y (reader r) x.kind ≡ (
      reader (advance (length ((fields_law x.kind).encode (fields x))) r),
      record x { cmd_counts = y.cmd_counts },
    )
follow-reads r x y rest hx hy e u =
    let law = fields_law x.kind in
    rw (same_index x.kind y.kind e) (
      ap (λ t. (t.0, with_fields (record y { kind = x.kind }) t.1))
        (law.law.reads r (fields x) (fields y) rest (fields_fit x x.kind hx refl)
          (fields_fit y x.kind hy e) u))

-- A snapshot of a chip restores everything but its command counters over any other chip of the same
-- kind.
pub loaded-saved_backup :
    (x y : NdsBackup)
    → Saveable x
    → Saveable y
    → x.kind ≡ y.kind
    → loaded snap_backup (saved snap_backup x) y ≡ (ok true, record x { cmd_counts = y.cmd_counts })
unfolding loaded snap_backup
loaded-saved_backup x y hx hy e =
    let first = to_le_bytes 1 (kind_index x.kind) in
    let body = (fields_law x.kind).encode (fields x) in
    let r = new (encode x ++ []) in
    let u = Unread-subst r (append_assoc first body []) (new-Unread (encode x ++ [])) in
    let r1 = advance (length first) r in
    let place : 0 + length first + length body ≡ 0 + length (encode x) =
      omega (arith, length-append first body) in
    ap (λ s. loaded snap_backup s y) (saved_lem x hx ∙ sym (append_nil (encode x)))
    ∙ ap (λ t. let v = follow y t.0 t.1 in (finished v.0, v.1))
        (kind_law.reads r x.kind y.kind (body ++ []) tt tt u)
    ∙ ap (λ v. (finished v.0, v.1))
        (follow-reads r1 x y [] hx hy e (advance-Unread r first (body ++ []) u))
    ∙ ap (λ n. (finished (reader (record r { pos = n })), record x { cmd_counts = y.cmd_counts }))
        place
    ∙ ap (λ f. (f, record x { cmd_counts = y.cmd_counts })) (finish-advance (encode x) [])

-- A snapshot of a chip of another kind is refused, and changes nothing.
pub loaded-other_kind :
    (x y : NdsBackup)
    → Saveable x
    → x.kind ≢ y.kind
    → loaded snap_backup (saved snap_backup x) y ≡ (err (malformed other_device), y)
unfolding loaded snap_backup
loaded-other_kind x y hx ne =
    let first = to_le_bytes 1 (kind_index x.kind) in
    let body = (fields_law x.kind).encode (fields x) in
    let r = new (encode x) in
    let r1 = advance (length first) r in
    let refused : follow y (reader r1) x.kind ≡ (fail (reader r1) other_device, y) =
      rw (other_index x.kind y.kind ne) refl in
    ap (λ s. loaded snap_backup s y) (saved_lem x hx)
    ∙ ap (λ t. let v = follow y t.0 t.1 in (finished v.0, v.1))
        (kind_law.reads r x.kind y.kind body tt tt (new-Unread (encode x)))
    ∙ ap (λ v. (finished v.0, v.1)) refused
    ∙ ap (λ f. (f, y)) (finished-failed (fail (reader r1) other_device) other_device refl)

follow-error :
    (v : Visitor) (y : NdsBackup) (kind : BackupKind) (why : Why)
    → error v ≡ some why
    → error (follow y v kind).0 ≡ some why
follow-error (writer out) y kind why failed = absurd (ground arith)
follow-error (reader r) y kind why failed =
    elim (Bool-cases (kind_index kind != kind_index y.kind)) [
      | inl other ↦ rw (other) (error-fail (reader r) why other_device failed)
      | inr same ↦ rw (same) (stuck_after (fields_law kind).law (reader r) (fields y) why failed)
    ]

follow-cut :
    (r : Reader) (x y : NdsBackup) (k : ℕ)
    → Saveable x
    → Saveable y
    → x.kind ≡ y.kind
    → k < length ((fields_law x.kind).encode (fields x))
    → Unread r (take k ((fields_law x.kind).encode (fields x)))
    → error (follow y (reader r) x.kind).0 ≡ some Why.stream_ended
follow-cut r x y k hx hy e short u = rw (same_index x.kind y.kind e) (
    (fields_law x.kind).law.cut r (fields x) (fields y) k (fields_fit x x.kind hx refl)
      (fields_fit y x.kind hy e) short u)

backup-cut :
    (r : Reader) (x y : NdsBackup) (k : ℕ)
    → Saveable x
    → Saveable y
    → x.kind ≡ y.kind
    → k < length (encode x)
    → Unread r (take k (encode x))
    → error (snap_backup (reader r) y).0 ≡ some Why.stream_ended
unfolding snap_backup
backup-cut r x y k hx hy e short u =
    let first = to_le_bytes 1 (kind_index x.kind) in
    let body = (fields_law x.kind).encode (fields x) in
    let got = snap_enum kind_index kind_from (reader r) y.kind in
    elim (Bool-cases (ltb k (length first))) [
      | inl early ↦
          let u1 = Unread-subst r (take_before k first body (ground arith)) u in
          follow-error got.0 y got.1 Why.stream_ended
            (kind_law.cut r x.kind y.kind k tt tt (ground arith) u1)
      | inr late ↦
          let past : length first ≤ k = ground arith in
          let j = k - length first in
          let u1 = Unread-subst r (take_after k first body past) u in
          let less : j < length body = omega (arith, short, length-append first body) in
          ap (λ t. error (follow y t.0 t.1).0)
            (kind_law.reads r x.kind y.kind (take j body) tt tt u1)
          ∙ follow-cut (advance (length first) r) x y j hx hy e less
              (advance-Unread r first (take j body) u1)
    ]

-- A snapshot of a chip that is cut short anywhere is refused as ended early.
pub loaded-take_backup :
    (x y : NdsBackup) (k : ℕ)
    → Saveable x
    → Saveable y
    → x.kind ≡ y.kind
    → k < length (saved snap_backup x)
    → (loaded snap_backup (take k (saved snap_backup x)) y).0 ≡ err (malformed Why.stream_ended)
unfolding loaded
loaded-take_backup x y k hx hy e short =
    let bytes = take k (encode x) in
    let less : k < length (encode x) = omega (arith, short, ap length (saved_lem x hx)) in
    ap (λ s. (loaded snap_backup (take k s) y).0) (saved_lem x hx)
    ∙ finished-failed (snap_backup (reader (new bytes)) y).0 Why.stream_ended
        (backup-cut (new bytes) x y k hx hy e less (new-Unread bytes))
