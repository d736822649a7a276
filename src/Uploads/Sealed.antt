-- ===== src/Uploads/Sealed.antt =====
-- The quota under `commit` of operator/src/uploads.rs.
use onym_backup.Prelude.{
  ℕ, ◌<◌, ◌≡◌, ◌⊎◌, inl, inr, refl, sym, ap, subst, true, false, Text, Bytes, ltb, ltb→lt,
  Bool-cases,
}
use onym_backup.Prelude.Exec.{Result, ok, err, is_ok, continue, Exec, ◌>>=◌, ◌>>◌, pure, modify}
use onym_backup.Prelude.Exec.Preserves.{
  Preserves, Preserves-modify, Preserves-bind_if, preserve_rules,
}
use onym_backup.Error.{Error}
use onym_backup.Clock.{Time}
use onym_backup.Blobs.Disk.{Blobs}
use onym_backup.Store.Rows.{Store, UploadRow}
use onym_backup.Store.Snapshots.{usage, snapshot_exists, retain}
use onym_backup.Store.Uploads.{drop_upload}
use onym_backup.Store.Outcomes.{record_outcome}
use onym_backup.Store.Quota.{WithinQuota, WithinQuota-same, retain-WithinQuota}
use onym_backup.Operator.{Operator, State, on_blobs}
use onym_backup.Auth.{Headers}
use onym_backup.Uploads.Commit.{
  settle, check_quota, seal, give_up, verify_digest, check_parts, commit,
}
use onym_backup.Uploads.Keeps.{QuotaOfState, abandon-keeps, claim-keeps}

settle-keeps :
    (most : ℕ) (row : UploadRow) (at : Text) (s : Store)
    → WithinQuota most s
    → (snapshot_exists row.holder_handle row.digest s ≡ true)
      ⊎ ((usage row.holder_handle s).0 < most)
    → WithinQuota most (settle row at s)
unfolding settle record_outcome drop_upload
settle-keeps most row at s w room =
    WithinQuota-same most (retain row at s) _ refl (retain-WithinQuota most row at s w room)

module _ (o : Operator) where
  open o use {clock, crypto, config}

  -- there is room for the snapshot of a row
  abbrev Room : UploadRow → State → Type 0
  Room row s =
      (snapshot_exists row.holder_handle row.digest s.store ≡ true)
      ⊎ ((usage row.holder_handle s.store).0 < config.maximum_retained_snapshots)

  -- `check_quota` lets a commit go on only where there is room, and then it has changed nothing.
  check_quota-Room :
      (row : UploadRow) (stamp : Text) (s : State)
      → (is_ok (check_quota o row stamp s).0 ≡ false)
        ⊎ ((check_quota o row stamp s ≡ (ok tt, s)) × Room row s)
  unfolding check_quota ◌>>=◌
  check_quota-Room row stamp s =
      elim (Bool-cases (snapshot_exists row.holder_handle row.digest s.store)) [
        | inl e ↦ rw e (inr (refl, inl refl))
        | inr e ↦
            rw e
              (elim (Bool-cases
                (ltb (usage row.holder_handle s.store).0 config.maximum_retained_snapshots)) [
                  | inl f ↦ rw f (inr (refl, inr (ltb→lt _ _ f)))
                  | inr f ↦ rw f (inl refl)
                ])
      ]

  check-keeps :
      (most : ℕ) (row : UploadRow) (stamp : Text)
      → Preserves (QuotaOfState most) (check_quota o row stamp)
  unfolding check_quota
  check-keeps most row stamp =
      search (preserve_rules, Preserves-modify, abandon-keeps o most) depth 20

  abbrev most : ℕ
  most = config.maximum_retained_snapshots

  -- The bytes go into place and then the rows, or neither.
  placed :
      {B : Type 0} (m : Exec Error Blobs (Unit {0})) (f : Store → Store) (b : B) (s : State)
      (P : Store → Type 0)
      → P s.store
      → P (f s.store)
      → P ((on_blobs m >> (modify (λ t. record t { store = f t.store }) >> pure b)) s).1.store
  unfolding on_blobs ◌>>=◌
  placed m f b s P h k = go (m s.blobs).0
    where
      go :
          (r : Result Error (Unit {0}))
          → P
              (continue r
                (λ _. modify (λ t. record t { store = f t.store }) >> pure b)
                (record s { blobs = (m s.blobs).1 })).1.store
      go (ok tt) = k
      go (err e) = h

  seal-keeps : (row : UploadRow) (hex at : Text) → Preserves (QuotaOfState most) (seal o row hex at)
  unfolding seal
  seal-keeps row hex at =
      Preserves-bind_if (Room row) (check_quota o row at) _ (check-keeps most row at)
        (λ s w. elim (check_quota-Room row at s) [
          | inl e ↦ inl e
          | inr (e, room) ↦ inr (subst (Room row) (sym (ap (λ r. r.1) e)) room)
        ])
        (λ _ t w room.
          placed _ (settle row at) _ t (WithinQuota most) w
            (settle-keeps most row at t.store w room))

  give_up-keeps : (u : Text) → Preserves (QuotaOfState most) (give_up o u)
  unfolding give_up
  give_up-keeps u = search (preserve_rules, Preserves-modify, abandon-keeps o most) depth 20

  verify_digest-keeps :
      (row : UploadRow) (now : Time) → Preserves (QuotaOfState most) (verify_digest o row now)
  unfolding verify_digest
  verify_digest-keeps row now = search (preserve_rules, give_up-keeps, seal-keeps) depth 20

  parts-keeps :
      (u : Text) (row : UploadRow) (now : Time)
      → Preserves (QuotaOfState most) (check_parts o u row now)
  unfolding check_parts
  parts-keeps u row now = search (preserve_rules, give_up-keeps, verify_digest-keeps) depth 20

  pub commit-keeps :
      (u : Text) (headers : Headers) (body : Bytes) (now : Time)
      → Preserves (QuotaOfState most) (commit o u headers body now)
  unfolding commit
  commit-keeps u headers body now =
      search (preserve_rules, claim-keeps o most, parts-keeps) depth 20
