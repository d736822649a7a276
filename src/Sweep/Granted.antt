-- ===== src/Sweep/Granted.antt =====
-- What `reconcile` of operator/src/sweep.rs does to grants and to the directories of uploads.
use onym_backup.Prelude.{
  ◌≡◌, refl, sym, ap, subst, ◌∙◌, Bool, true, false, not, ◌||◌, List, [], ◌∷◌, Text, All, All-map,
  All-of_map, All-zip, arith, select, find?, any, is_some, is_none, none, Bool-cases, inl, inr,
  if◌then◌else◌, eq_text, eq_text_iff,
}
use onym_backup.Prelude.Assoc.{lookup, lookup-remove, All-remove, All-found}
use onym_backup.Prelude.Each.{each, each-keeps, each-All}
use onym_backup.Clock.{Clock, Time}
use onym_backup.Blobs.Disk.{Dir}
use onym_backup.Blobs.Files
use onym_backup.Blobs.Files.{discard_upload, incoming_on_disk, retained_on_disk}
use onym_backup.Blobs.Digest.{digest_prefix}
use onym_backup.Prelude.{◌++◌}
use onym_backup.Blobs.Disk.{SnapshotPath, eq_path}
use onym_backup.Store.Snapshots.{mark_unavailable, snapshot_exists, all_retained_keys}
use onym_backup.Store.Rows.{Store, UploadRow}
use onym_backup.Store.Nonces.{sweep_nonces}
use onym_backup.Store.Erasures.{sweep_outcomes_and_receipts}
use onym_backup.Store.Snapshots.{sweep_erased_references}
use onym_backup.Store.Uploads.{expired_uploads, upload, drop_upload, is_upload}
use onym_backup.Operator.{Operator, State}
use onym_backup.Sweep.Expired.{among, has_run_out, expired_rows}
use onym_backup.Sweep.Cutoffs.{Cutoffs}
use onym_backup.Sweep.Grants.{drop_grant, drop_expired, discard_unknown, drop_orphan_incoming}
use onym_backup.Sweep.Grace.{expire_post_grace}
use onym_backup.Sweep.Bytes.{mark_lost, unlink, unlink_unless_live, drop_orphan_snapshots}
use onym_backup.Sweep.Reconcile.{stored, before_lapses, tidy, reconcile}
use onym_backup.Sweep.Lapsed.{lapses-Lapsed}
use onym_backup.Sweep.Tables.{
  expire_post_grace-keeps, mark_lost-keeps, store-drop_orphan_incoming, store-drop_orphan_snapshots,
}
use onym_backup.Sweep.Readable.{blobs-mark_lost}

found_after_drop :
    (u v : Text) (rows : List UploadRow)
    → find? (is_upload u) (select (λ row. not (is_upload v row)) rows)
      ≡ (if eq_text v u then none else find? (is_upload u) rows)
unfolding find? select
found_after_drop u v [] = ground arith
found_after_drop u v (row ∷ rows) = ground (
  arith,
  found_after_drop u v rows,
  eq_text_iff row.upload_id u,
  eq_text_iff row.upload_id v,
  eq_text_iff v u,
)

upload-drop_upload :
    (u v : Text) (s : Store)
    → upload u (drop_upload v s) ≡ (if eq_text v u then none else upload u s)
unfolding upload drop_upload
upload-drop_upload u v s = found_after_drop u v s.uploads

each_dropped :
    (u : Text) (ids : List Text) (s : State)
    → upload u (each drop_grant ids s).1.store ≡ (if among u ids then none else upload u s.store)
unfolding each any drop_grant
each_dropped u [] s = refl
each_dropped u (v ∷ ids) s =
    each_dropped u ids (drop_grant v s).1 ∙ ground (arith, upload-drop_upload u v s.store)

upload-drop_expired :
    (c : Clock) (now u : Text) (s : State)
    → upload u (drop_expired c now s).1.store
      ≡ (if among u (expired_uploads c now s.store) then none else upload u s.store)
unfolding drop_expired
upload-drop_expired c now u s = each_dropped u (expired_uploads c now s.store) s

-- Both read nothing but the table of uploads.
upload-same : (u : Text) (s t : Store) → s.uploads ≡ t.uploads → upload u s ≡ upload u t
unfolding upload
upload-same u s t e = rw e refl

expired-same :
    (c : Clock) (now : Text) (s t : Store)
    → s.uploads ≡ t.uploads
    → expired_uploads c now s ≡ expired_uploads c now t
unfolding expired_uploads
expired-same c now s t e = rw e refl

-- A directory on the list has a grant, or it is gone.
abbrev Known : Store → Text → State → Type 0
Known before u t = (is_some (upload u before) || is_none (lookup eq_text u t.blobs.incoming)) ≡ true

knows :
    (before : Store) (u : Text) (t : State)
    → t.store ≡ before
    → Known before u (discard_unknown u t).1
unfolding discard_unknown discard_upload
knows before u t e = elim (Bool-cases (is_some (upload u before))) [
  | inl f ↦ rw (e, f) refl
  | inr f ↦
      rw (e, f, lookup-remove eq_text eq_text_iff u u t.blobs.incoming, (eq_text_iff u u).1 refl)
        refl
]

stays-Known :
    (before : Store) (u v : Text) (t : State)
    → Known before u t
    → Known before u (discard_unknown v t).1
unfolding discard_unknown discard_upload
stays-Known before u v t k = elim (Bool-cases (is_some (upload v t.store))) [
  | inl f ↦ rw f k
  | inr f ↦ rw f (ground (arith, k, lookup-remove eq_text eq_text_iff v u t.blobs.incoming))
]

entries_stay :
    (P : Text × Dir → Type 0) (v : Text) (t : State)
    → All P t.blobs.incoming
    → All P (discard_unknown v t).1.blobs.incoming
unfolding discard_unknown discard_upload
entries_stay P v t h = elim (Bool-cases (is_some (upload v t.store))) [
  | inl f ↦ rw f h
  | inr f ↦ rw f (All-remove eq_text eq_text_iff P v t.blobs.incoming h)
]

store-discard_unknown : (v : Text) (t : State) → (discard_unknown v t).1.store ≡ t.store
unfolding discard_unknown
store-discard_unknown v t = elim (Bool-cases (is_some (upload v t.store))) [
  | inl f ↦ rw f refl
  | inr f ↦ rw f refl
]

known_throughout :
    (s : State)
    → All (λ e. is_some (upload e.0 s.store) ≡ true) (drop_orphan_incoming s).1.blobs.incoming
unfolding drop_orphan_incoming incoming_on_disk
known_throughout s =
    let end = (each discard_unknown (incoming_on_disk s.blobs) s).1 in
    let known : All (λ u. Known s.store u end) (incoming_on_disk s.blobs) =
      each-All (λ t. t.store ≡ s.store) (Known s.store) discard_unknown
        (λ u t e. store-discard_unknown u t ∙ e) (λ u t e. knows s.store u t e)
        (λ u v t e k. stays-Known s.store u v t k) (incoming_on_disk s.blobs) s refl in
    let entries : All (λ e. Known s.store e.0 end) end.blobs.incoming =
      each-keeps (λ t. All (λ e. Known s.store e.0 end) t.blobs.incoming) discard_unknown
        (λ v t h. entries_stay (λ e. Known s.store e.0 end) v t h) (incoming_on_disk s.blobs) s
        (All-of_map (λ u. Known s.store u end) (λ e. e.0) s.blobs.incoming known) in
    All-zip (λ e. Known s.store e.0 end)
      (λ e. is_none (lookup eq_text e.0 end.blobs.incoming) ≡ false)
      (λ e. is_some (upload e.0 s.store) ≡ true) end.blobs.incoming (λ e h k. ground (arith, h, k))
      entries (All-found eq_text eq_text_iff end.blobs.incoming)

incoming-unlink :
    (live : List SnapshotPath) (path : SnapshotPath) (t : State)
    → (unlink_unless_live live path t).1.blobs.incoming ≡ t.blobs.incoming
unfolding unlink_unless_live unlink Files.erase
incoming-unlink live path t = elim (Bool-cases (any (eq_path path) live)) [
  | inl e ↦ rw e refl
  | inr e ↦ rw e (elim (Bool-cases (snapshot_exists path.0 (digest_prefix ++ path.1) t.store)) [
    | inl f ↦ rw f refl
    | inr f ↦ rw f refl
  ])
]

incoming-drop_orphan_snapshots :
    (s : State) → (drop_orphan_snapshots s).1.blobs.incoming ≡ s.blobs.incoming
unfolding drop_orphan_snapshots
incoming-drop_orphan_snapshots s =
    each-keeps (λ t. t.blobs.incoming ≡ s.blobs.incoming)
      (unlink_unless_live (all_retained_keys s.store))
      (λ path t e. incoming-unlink (all_retained_keys s.store) path t ∙ e)
      (retained_on_disk s.blobs) s refl

uploads-mark_lost : (now : Text) (s : State) → (mark_lost now s).1.store.uploads ≡ s.store.uploads
unfolding mark_unavailable
uploads-mark_lost now s =
    mark_lost-keeps (λ v. v.uploads ≡ s.store.uploads) (λ h d at t e. e) now s refl

module _ (o : Operator) (revoked : List Text) (charges : Bool) (now_at : Time)
    (cutoffs : Cutoffs) where
  open o use {clock, json}

  -- the state after step (0)
  abbrev after_grace : State → State
  after_grace s = record s {
    store = (expire_post_grace clock json revoked now_at cutoffs.now s.store).1;
  }

  uploads-after_grace : (s : State) → (after_grace s).store.uploads ≡ s.store.uploads
  unfolding mark_unavailable
  uploads-after_grace s =
      expire_post_grace-keeps (λ v. v.uploads ≡ s.store.uploads) (λ h d at t e. e) clock json
        revoked now_at cutoffs.now s.store refl

  -- the state after step (1)
  abbrev after_grants : State → State
  after_grants s = (drop_expired clock cutoffs.now (after_grace s)).1

  first_uploads :
      (s : State)
      → (before_lapses o revoked charges now_at cutoffs s).1.store.uploads
        ≡ (after_grants s).store.uploads
  unfolding before_lapses stored
  first_uploads s =
      uploads-mark_lost cutoffs.now _
      ∙ ap (λ v. v.uploads) (store-drop_orphan_incoming (after_grants s))

  first_incoming :
      (s : State)
      → (before_lapses o revoked charges now_at cutoffs s).1.blobs.incoming
        ≡ (drop_orphan_incoming (after_grants s)).1.blobs.incoming
  unfolding before_lapses stored
  first_incoming s = ap (λ b. b.incoming) (blobs-mark_lost cutoffs.now _)

  final_uploads :
      (s : State)
      → (reconcile o revoked charges now_at cutoffs s).1.store.uploads
        ≡ (after_grants s).store.uploads
  unfolding reconcile tidy sweep_nonces sweep_outcomes_and_receipts sweep_erased_references
  final_uploads s =
      ap (λ v. v.uploads) (store-drop_orphan_snapshots _)
      ∙ ap (λ v. v.uploads) (lapses-Lapsed o revoked charges now_at cutoffs _).same
      ∙ first_uploads s

  final_incoming :
      (s : State)
      → (reconcile o revoked charges now_at cutoffs s).1.blobs.incoming
        ≡ (drop_orphan_incoming (after_grants s)).1.blobs.incoming
  unfolding reconcile
  final_incoming s = incoming-drop_orphan_snapshots _ ∙ first_incoming s

  -- A grant is gone after a sweep exactly when a row under its id carried an expiry that is not later than the
  -- sweep's instant, by SQLite's reading of both; every other grant is as it was. Afterwards every directory
  -- of an upload has a grant.
  pub reconcile_grants :
      (s : State)
      → ((u : Text)
          → upload u (reconcile o revoked charges now_at cutoffs s).1.store ≡ (
              if any (has_run_out clock cutoffs.now u) s.store.uploads
              then none
              else upload u s.store))
        × All
            (λ e.
              is_some (upload e.0 (reconcile o revoked charges now_at cutoffs s).1.store) ≡ true)
            (reconcile o revoked charges now_at cutoffs s).1.blobs.incoming
  reconcile_grants s =
      let end = (reconcile o revoked charges now_at cutoffs s).1 in
      let same = uploads-after_grace s in
      (
        λ u.
            upload-same u end.store (after_grants s).store (final_uploads s)
            ∙ upload-drop_expired clock cutoffs.now u (after_grace s)
            ∙ rw
                (
                  expired-same clock cutoffs.now (after_grace s).store s.store same,
                  upload-same u (after_grace s).store s.store same,
                )
                refl
            ∙ ap (λ b. if b then none else upload u s.store)
                (expired_rows clock cutoffs.now u s.store),
        subst (All (λ e. is_some (upload e.0 end.store) ≡ true)) (sym (final_incoming s)) (
            All-map (λ e. is_some (upload e.0 (after_grants s).store) ≡ true)
              (λ e. is_some (upload e.0 end.store) ≡ true) _
              (λ e k.
                ap is_some (upload-same e.0 end.store (after_grants s).store (final_uploads s)) ∙ k)
              (known_throughout (after_grants s))),
      )
