-- ===== src/Sweep/Readable.antt =====
-- Step (3) of `reconcile` in operator/src/sweep.rs: a row is not live once its bytes were found lost.
use onym_backup.Prelude.{
  ◌≡◌, refl, ap, subst, ◌∙◌, true, false, ◌&&◌, some, List, [], ◌∷◌, ◌++◌, Text, ℕ, arith,
  if◌then◌else◌, select, any, eq_text_refl, Bool-cases, Option-cases, inl, inr, All, All-map,
  All-zip, All-select_put, All-select_head, All-select_tail, strip_prefix, strip_prefix_sound,
}
use onym_backup.Prelude.Int.{ℤ}
use onym_backup.Prelude.Each.{each, each-keeps, each-All}
use onym_backup.Prelude.Exec.{ok, err}
use onym_backup.Error.{Fallible}
use onym_backup.Blobs.Digest.{digest_hex, digest_prefix, lower_hex_64}
use onym_backup.Blobs.Disk.{Blobs, SnapshotPath, snapshot_dir}
use onym_backup.Blobs.Files.{chunk_paths}
use onym_backup.Store.Rows.{Store, SnapshotRow}
use onym_backup.Store.Snapshots.{
  is_live, is_snapshot, update, snapshot_exists, all_live_snapshots, mark_unavailable,
}
use onym_backup.Store.Unavailable.{snapshot_exists-mark_unavailable}
use onym_backup.Operator.{State}
use onym_backup.Sweep.Bytes.{is_expired, inspect_row, lost_bytes, mark_row, check_row, mark_lost}
use onym_backup.Sweep.Tables.{mark_lost-keeps}

-- All live rows satisfy a predicate.
abbrev pub LiveAll : (SnapshotRow → Type 0) → Store → Type 0
LiveAll Q s = All Q (all_live_snapshots s)

marked_live :
    (Q : SnapshotRow → Type 0) (h d at : Text) (rows : List SnapshotRow)
    → All Q (select is_live rows)
    → All Q (
        select is_live (
          update
            (λ row. is_snapshot h d row && is_live row)
            (λ row. record row { retained = record row.retained { retained_until = some at } })
            rows))
unfolding select update
marked_live Q h d at [] k = tt
marked_live Q h d at (row ∷ rows) k =
    All-select_put Q is_live _
      (update (λ r. is_snapshot h d r && is_live r)
        (λ r. record r { retained = record r.retained { retained_until = some at } }) rows)
      new (marked_live Q h d at rows (All-select_tail Q is_live row rows k))
  where
    new :
        is_live (
            if is_snapshot h d row && is_live row
            then record row { retained = record row.retained { retained_until = some at } }
            else row)
          ≡ true
        → Q (
            if is_snapshot h d row && is_live row
            then record row { retained = record row.retained { retained_until = some at } }
            else row)
    new e = elim (Bool-cases (is_snapshot h d row && is_live row)) [
      | inl f ↦ absurd (ground (arith, e, f))
      | inr f ↦ rw f (All-select_head Q is_live row rows k (ground (arith, e, f)))
    ]

pub LiveAll-mark_unavailable :
    (Q : SnapshotRow → Type 0) (h d at : Text) (s : Store)
    → LiveAll Q s
    → LiveAll Q (mark_unavailable h d at s).1
unfolding mark_unavailable all_live_snapshots
LiveAll-mark_unavailable Q h d at s k = marked_live Q h d at s.snapshots k

pub LiveAll-same :
    (Q : SnapshotRow → Type 0) (s t : Store) → s.snapshots ≡ t.snapshots → LiveAll Q s → LiveAll Q t
unfolding all_live_snapshots
LiveAll-same Q s t e k = subst (λ rows. All Q (select is_live rows)) e k

live_there :
    (rows : List SnapshotRow)
    → All
        (λ r. any (λ x. is_snapshot r.holder_handle r.digest x && is_live x) rows ≡ true)
        (select is_live rows)
unfolding any select
live_there [] = tt
live_there (row ∷ rows) =
    All-select_put _ is_live row rows
      (λ e. ground (arith, e, eq_text_refl row.holder_handle, eq_text_refl row.digest))
      (All-map (λ r. any (λ x. is_snapshot r.holder_handle r.digest x && is_live x) rows ≡ true)
        (λ r. any (λ x. is_snapshot r.holder_handle r.digest x && is_live x) (row ∷ rows) ≡ true)
        (select is_live rows) (λ r h. ground (arith, h)) (live_there rows))

pub live_exists : (s : Store) → LiveAll (λ r. snapshot_exists r.holder_handle r.digest s ≡ true) s
unfolding snapshot_exists all_live_snapshots
live_exists s = live_there s.snapshots

-- what `digest_hex` accepts is the prefix with its result
pub digest_hex_sound :
    (digest hex : Text) → digest_hex digest ≡ ok hex → digest ≡ digest_prefix ++ hex
unfolding digest_hex lower_hex_64
digest_hex_sound digest hex h = elim (Option-cases (strip_prefix digest_prefix digest)) [
  | inl e ↦ absurd (ground (arith, h, e))
  | inr (x, e) ↦ strip_prefix_sound digest_prefix digest hex (e ∙ ap some (ground (arith, h, e)))
]

chunk_paths-same :
    (p : SnapshotPath) (n : ℤ) (size : ℕ) (b b2 : Blobs)
    → snapshot_dir p b ≡ snapshot_dir p b2
    → chunk_paths p n size b ≡ chunk_paths p n size b2
unfolding chunk_paths
chunk_paths-same p n size b b2 e = rw (e, chunk_paths) refl

-- Bytes are lost or not by what stands in the row's own directory.
pub lost_bytes-same :
    (row : SnapshotRow) (b b2 : Blobs)
    → ((hex : Text)
        → row.digest ≡ digest_prefix ++ hex
        → snapshot_dir (row.holder_handle, hex) b ≡ snapshot_dir (row.holder_handle, hex) b2)
    → lost_bytes row b ≡ lost_bytes row b2
unfolding lost_bytes inspect_row chunk_paths
lost_bytes-same row b b2 k = go (digest_hex row.digest) refl
  where
    go :
        (r : Fallible Text) → digest_hex row.digest ≡ r → inspect_row row r b ≡ inspect_row row r b2
    go (err e) h = refl
    go (ok hex) h = ap is_expired (
        chunk_paths-same (row.holder_handle, hex) row.chunk_count row.sealed_byte_size b b2
          (k hex (digest_hex_sound row.digest hex h)))

module _ (now : Text) where
  blobs-check_row : (row : SnapshotRow) (s : State) → (check_row now row s).1.blobs ≡ s.blobs
  unfolding check_row mark_row
  blobs-check_row row s = elim (Bool-cases (snapshot_exists row.holder_handle row.digest s.store)) [
    | inr e ↦ rw e refl
    | inl e ↦
        rw e (elim (Bool-cases (lost_bytes row s.blobs)) [ inr f ↦ rw f refl | inl f ↦ rw f refl ])
  ]

  pub blobs-mark_lost : (s : State) → (mark_lost now s).1.blobs ≡ s.blobs
  unfolding mark_lost
  blobs-mark_lost s =
      each-keeps (λ t. t.blobs ≡ s.blobs) (check_row now) (λ row t e. blobs-check_row row t ∙ e)
        (all_live_snapshots s.store) s refl

  -- not live, or not lost
  abbrev Checked : Blobs → SnapshotRow → State → Type 0
  Checked b row t =
      (snapshot_exists row.holder_handle row.digest t.store && lost_bytes row b) ≡ false

  checks :
      (b : Blobs) (row : SnapshotRow) (s : State)
      → s.blobs ≡ b
      → Checked b row (check_row now row s).1
  unfolding check_row mark_row
  checks b row s same = elim (Bool-cases (snapshot_exists row.holder_handle row.digest s.store)) [
    | inr e ↦ rw (e, e) refl
    | inl e ↦
        rw (e, same)
          (elim (Bool-cases (lost_bytes row b)) [
            | inr f ↦ rw (f, e) refl
            | inl f ↦ rw f (
                ground (
                  arith,
                  snapshot_exists-mark_unavailable row.holder_handle row.digest row.holder_handle
                      row.digest now s.store,
                  eq_text_refl row.holder_handle,
                  eq_text_refl row.digest,
                ))
          ])
  ]

  stays-Checked :
      (b : Blobs) (row other : SnapshotRow) (s : State)
      → Checked b row s
      → Checked b row (check_row now other s).1
  unfolding check_row mark_row
  stays-Checked b row other s k =
      elim (Bool-cases (snapshot_exists other.holder_handle other.digest s.store)) [
        | inr e ↦ rw e k
        | inl e ↦ rw e (elim (Bool-cases (lost_bytes other s.blobs)) [
          | inr f ↦ rw f k
          | inl f ↦ rw f (
              ground (
                arith,
                k,
                snapshot_exists-mark_unavailable row.holder_handle row.digest other.holder_handle
                    other.digest now s.store,
              ))
        ])
      ]

  -- After the step no live row has lost its bytes.
  pub none_lost :
      (s : State) → LiveAll (λ row. lost_bytes row s.blobs ≡ false) (mark_lost now s).1.store
  unfolding mark_lost
  none_lost s =
      let rows = all_live_snapshots s.store in
      let end = (each (check_row now) rows s).1 in
      let checked : All (λ row. Checked s.blobs row end) rows =
        each-All (λ t. t.blobs ≡ s.blobs) (Checked s.blobs) (check_row now)
          (λ row t e. blobs-check_row row t ∙ e) (λ row t e. checks s.blobs row t e)
          (λ row other t e k. stays-Checked s.blobs row other t k) rows s refl in
      All-zip (λ row. Checked s.blobs row end)
        (λ row. snapshot_exists row.holder_handle row.digest end.store ≡ true)
        (λ row. lost_bytes row s.blobs ≡ false) (all_live_snapshots end.store)
        (λ row h k. ground (arith, h, k))
        (mark_lost-keeps (LiveAll (λ row. Checked s.blobs row end))
          (λ h d at t. LiveAll-mark_unavailable (λ row. Checked s.blobs row end) h d at t) now s
          checked)
        (live_exists end.store)
