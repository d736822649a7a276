-- ===== src/Sweep/Consistent.antt =====
-- What rows and bytes have to do with each other after `reconcile` of operator/src/sweep.rs.
use onym_backup.Prelude.{
  ◌≡◌, refl, sym, ap, subst, ◌∙◌, Bool, true, false, not, List, [], ◌∷◌, Text, All, All-zip,
  All-map, select, any, any_mono, ◌&&◌, ◌||◌, ◌⊎◌, ◌++◌, eq_text, eq_text_iff, strip_prefix,
  strip_prefix_sound, Option-cases, arith, is_some, Option, none, some, Bool-cases, inl, inr,
}
use onym_backup.Prelude.Sort.Members.{any-map, any_of_select}
use onym_backup.Blobs.Digest.{digest_prefix}
use onym_backup.Blobs.Disk.{SnapshotPath, eq_path}
use onym_backup.Sweep.Intact.{InPlace, lost_bytes-InPlace}
use onym_backup.Clock.{Clock, Time}
use onym_backup.Blobs.Files.{retained_on_disk}
use onym_backup.Store.Rows.{Store, SnapshotRow}
use onym_backup.Store.Snapshots.{
  is_live, is_older, snapshot_exists, all_live_snapshots, all_retained_keys, file_name,
}
use onym_backup.Operator.{Operator, State}
use onym_backup.Sweep.Cutoffs.{Cutoffs}
use onym_backup.Sweep.Bytes.{lost_bytes, mark_lost, drop_orphan_snapshots}
use onym_backup.Sweep.Reconcile.{before_lapses, lapses, reconcile}
use onym_backup.Sweep.Lapsed.{lapses-Lapsed}
use onym_backup.Sweep.Tables.{store-drop_orphan_snapshots}
use onym_backup.Sweep.Quota.{tidied_snapshots}
use onym_backup.Sweep.Unlinked.{is_retained, unlink_keeps, no_orphans}
use onym_backup.Sweep.Readable.{
  LiveAll, LiveAll-same, lost_bytes-same, none_lost, live_exists, blobs-mark_lost,
}

old_dead :
    (c : Clock) (floor : Text) (erased_at : Option Text)
    → is_older c erased_at floor ≡ true
    → is_some erased_at ≡ true
unfolding is_older
old_dead c floor none h = h
old_dead c floor (some at) h = refl

-- sweeping old references leaves the live rows as they are
same_live :
    (c : Clock) (floor : Text) (rows : List SnapshotRow)
    → select is_live (select (λ row. not (is_older c row.erased_at floor)) rows)
      ≡ select is_live rows
unfolding select is_older
same_live c floor [] = refl
same_live c floor (row ∷ rows) = elim (Bool-cases (is_older c row.erased_at floor)) [
  | inl e ↦ rw (e, old_dead c floor row.erased_at e) (same_live c floor rows)
  | inr e ↦ rw e (rw (same_live c floor rows) refl)
]

-- Rows and directories agree, as the sweep itself sees it.
record Agreed (s : State) : Type 0 where
  readable : LiveAll (λ row. lost_bytes row s.blobs ≡ false) s.store
  accounted : All (λ e. is_retained s.store e.0 ≡ true) s.blobs.retained

-- a live row of this holder, with this for its digest, `sha256:` before it or not
abbrev pub owns : SnapshotPath → SnapshotRow → Bool
owns path row =
    is_live row
    && (eq_text path.0 row.holder_handle
        && (eq_text row.digest (digest_prefix ++ path.1) || eq_text row.digest path.1))

-- Rows and directories agree.
pub record Consistent (s : State) : Type 0 where
  -- every live row has its bytes, as many parts and as many bytes as it says
  pub readable : All (λ row. (is_live row ≡ false) ⊎ InPlace row s.blobs) s.store.snapshots
  -- every directory is that of a live row
  pub accounted : All (λ e. any (owns e.0) s.store.snapshots ≡ true) s.blobs.retained

name_stripped :
    (digest hex : Text) → strip_prefix digest_prefix digest ≡ some hex → file_name digest ≡ hex
unfolding file_name
name_stripped digest hex e = rw (e, file_name) refl

name_whole : (digest : Text) → strip_prefix digest_prefix digest ≡ none → file_name digest ≡ digest
unfolding file_name
name_whole digest e = rw (e, file_name) refl

file_named :
    (digest name : Text)
    → eq_text name (file_name digest) ≡ true
    → (eq_text digest (digest_prefix ++ name) || eq_text digest name) ≡ true
file_named digest name h = elim (Option-cases (strip_prefix digest_prefix digest)) [
  | inl e ↦
      let same = (eq_text_iff name (file_name digest)).0 h ∙ name_whole digest e in
      ground (arith, (eq_text_iff digest name).1 (sym same))
  | inr (hex, e) ↦
      let same = (eq_text_iff name (file_name digest)).0 h ∙ name_stripped digest hex e in
      ground (
        arith,
        (eq_text_iff digest (digest_prefix ++ name)).1 (
            strip_prefix_sound digest_prefix digest hex e
            ∙ ap (λ x. digest_prefix ++ x) (sym same)),
      )
]

owned_row :
    (path : SnapshotPath) (row : SnapshotRow)
    → (is_live row && eq_path path (row.holder_handle, file_name row.digest)) ≡ true
    → owns path row ≡ true
unfolding eq_path
owned_row path row h = ground (arith, h, file_named row.digest path.1)

owned :
    (s : Store) (path : SnapshotPath)
    → is_retained s path ≡ true
    → any (owns path) s.snapshots ≡ true
unfolding all_retained_keys
owned s path h =
    any_mono (λ row. is_live row && eq_path path (row.holder_handle, file_name row.digest))
      (owns path) s.snapshots (owned_row path)
      (sym (
          any_of_select (λ row. eq_path path (row.holder_handle, file_name row.digest)) is_live
            s.snapshots)
        ∙ sym (
            any-map (eq_path path) (λ row. (row.holder_handle, file_name row.digest))
              (select is_live s.snapshots))
        ∙ h)

live_first :
    (row : SnapshotRow) (rows : List SnapshotRow)
    → is_live row ≡ true
    → select is_live (row ∷ rows) ≡ (row ∷ select is_live rows)
unfolding select
live_first row rows e = rw e refl

dead_first :
    (row : SnapshotRow) (rows : List SnapshotRow)
    → is_live row ≡ false
    → select is_live (row ∷ rows) ≡ select is_live rows
unfolding select
dead_first row rows e = rw e refl

live_or_not :
    (P Q : SnapshotRow → Type 0) (rows : List SnapshotRow)
    → ((row : SnapshotRow) → P row → Q row)
    → All P (select is_live rows)
    → All (λ row. (is_live row ≡ false) ⊎ Q row) rows
live_or_not P Q [] f h = tt
live_or_not P Q (row ∷ rows) f h = elim (Bool-cases (is_live row)) [
  | inl e ↦
      let both = subst (All P) (live_first row rows e) h in
      (inr (f row both.0), live_or_not P Q rows f both.1)
  | inr e ↦ (inl e, live_or_not P Q rows f (subst (All P) (dead_first row rows e) h))
]

Agreed-Consistent : (s : State) → Agreed s → Consistent s
unfolding all_live_snapshots
Agreed-Consistent s k = record {
  readable =
      live_or_not (λ row. lost_bytes row s.blobs ≡ false) (λ row. InPlace row s.blobs)
        s.store.snapshots (λ row h. lost_bytes-InPlace row s.blobs h) k.readable;
  accounted =
      All-map (λ e. is_retained s.store e.0 ≡ true) (λ e. any (owns e.0) s.store.snapshots ≡ true) _
        (λ e h. owned s.store e.0 h) k.accounted;
}

live-drop_orphans :
    (s : State)
    → LiveAll (λ row. lost_bytes row s.blobs ≡ false) s.store
    → LiveAll (λ row. lost_bytes row (drop_orphan_snapshots s).1.blobs ≡ false) s.store
unfolding drop_orphan_snapshots
live-drop_orphans s k =
    All-zip (λ row. snapshot_exists row.holder_handle row.digest s.store ≡ true)
      (λ row. lost_bytes row s.blobs ≡ false)
      (λ row. lost_bytes row (drop_orphan_snapshots s).1.blobs ≡ false) (all_live_snapshots s.store)
      (λ row there kept.
        lost_bytes-same row (drop_orphan_snapshots s).1.blobs s.blobs (λ hex e.
          unlink_keeps (all_retained_keys s.store) (retained_on_disk s.blobs) row.holder_handle hex
            s (ap (λ d. snapshot_exists row.holder_handle d s.store) (sym e) ∙ there))
        ∙ kept)
      (live_exists s.store) k

drop_orphans-Agreed :
    (s : State)
    → LiveAll (λ row. lost_bytes row s.blobs ≡ false) s.store
    → Agreed (drop_orphan_snapshots s).1
drop_orphans-Agreed s k = record {
  readable =
      subst (LiveAll (λ row. lost_bytes row (drop_orphan_snapshots s).1.blobs ≡ false))
        (sym (store-drop_orphan_snapshots s)) (live-drop_orphans s k);
  accounted =
      subst (λ v. All (λ e. is_retained v e.0 ≡ true) (drop_orphan_snapshots s).1.blobs.retained)
        (sym (store-drop_orphan_snapshots s)) (no_orphans s);
}

same_rows-Agreed :
    (s : State) (v : Store)
    → select is_live v.snapshots ≡ select is_live s.store.snapshots
    → Agreed s
    → Agreed (record s { store = v })
unfolding all_live_snapshots all_retained_keys
same_rows-Agreed s v e k = record {
  readable = subst (All (λ row. lost_bytes row s.blobs ≡ false)) (sym e) k.readable;
  accounted = rw e k.accounted;
}

marked :
    (now : Text) (s : State)
    → LiveAll (λ row. lost_bytes row (mark_lost now s).1.blobs ≡ false) (mark_lost now s).1.store
marked now s =
    subst (λ b. LiveAll (λ row. lost_bytes row b ≡ false) (mark_lost now s).1.store)
      (sym (blobs-mark_lost now s)) (none_lost now s)

module _ (o : Operator) (revoked : List Text) (charges : Bool) (now_at : Time)
    (cutoffs : Cutoffs) where
  -- the state that step (4) starts from
  abbrev pub before_orphans : State → State
  before_orphans s =
      let first = (before_lapses o revoked charges now_at cutoffs s).1 in
      record first { store = (lapses o revoked charges now_at cutoffs first.store).1 }

  first_marked :
      (s : State)
      → LiveAll
          (λ row. lost_bytes row (before_lapses o revoked charges now_at cutoffs s).1.blobs ≡ false)
          (before_lapses o revoked charges now_at cutoffs s).1.store
  unfolding before_lapses
  first_marked s = marked cutoffs.now _

  none_lost_before :
      (s : State)
      → LiveAll (λ row. lost_bytes row (before_orphans s).blobs ≡ false) (before_orphans s).store
  none_lost_before s =
      let first = (before_lapses o revoked charges now_at cutoffs s).1 in
      LiveAll-same (λ row. lost_bytes row first.blobs ≡ false) first.store _
        (sym
          (ap (λ v. v.snapshots) (lapses-Lapsed o revoked charges now_at cutoffs first.store).same))
        (first_marked s)

  reconcile-Agreed : (s : State) → Agreed (reconcile o revoked charges now_at cutoffs s).1
  unfolding reconcile
  reconcile-Agreed s =
      let orphans = (drop_orphan_snapshots (before_orphans s)).1 in
      same_rows-Agreed orphans _
        (ap (select is_live) (tidied_snapshots o revoked charges now_at cutoffs orphans.store)
          ∙ same_live o.clock cutoffs.erased_reference orphans.store.snapshots)
        (drop_orphans-Agreed (before_orphans s) (none_lost_before s))

  -- After a sweep every live row whose digest is `sha256:` and 64 lowercase hex digits has a directory
  -- that holds exactly its number of parts, numbered from 0, with exactly its number of bytes in all,
  -- but that parts of 2^63 bytes or more in all are let be. And every directory of snapshot bytes is
  -- that of a live row.
  pub reconcile-Consistent :
      (s : State) → Consistent (reconcile o revoked charges now_at cutoffs s).1
  reconcile-Consistent s = Agreed-Consistent _ (reconcile-Agreed s)
