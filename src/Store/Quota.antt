-- ===== src/Store/Quota.antt =====
-- The number of live snapshots of a holder against the quota, under the statements of
-- operator/src/store.rs that change `snapshots`.
use onym_backup.Prelude.{
  ℕ, ◌+◌, ◌≤◌, ◌<◌, ◌≡◌, refl, Bool, true, false, ◌&&◌, none, some, List, [], ◌∷◌, ◌++◌, Text,
  arith, if◌then◌else◌, length, select, any, eq_text, eq_text_iff, Bool-cases, ◌⊎◌, inl, inr, ap,
  subst, any_mono, and-true, sym, some, is_none,
}
use onym_backup.Store.Rows.{Store, SnapshotRow, UploadRow}
use onym_backup.Store.Retention.{dormant}
use onym_backup.Store.Snapshots.{
  digest_suite, is_live, is_held_by, is_snapshot, update, count, retain, snapshot_exists, usage,
  mark_unavailable, mark_erased,
}
use onym_backup.Store.Counts.{
  count-append, count-update, count-update_same, count-both, count_zero, count-update_off,
  count-select,
}

-- live rows of a holder
abbrev pub held : Text → List SnapshotRow → ℕ
held handle rows = count (λ row. is_held_by handle row && is_live row) rows

pub held-usage : (handle : Text) (s : Store) → (usage handle s).0 ≡ held handle s.snapshots
unfolding usage count
held-usage handle s = refl

-- Every pair of a holder and a digest names one row, and no holder has more live rows than allowed.
pub record WithinQuota (most : ℕ) (s : Store) : Type 0 where
  pub keyed : (handle digest : Text) → count (is_snapshot handle digest) s.snapshots ≤ 1
  pub bounded : (handle : Text) → (usage handle s).0 ≤ most

-- The quota reads nothing but the snapshots.
pub WithinQuota-same :
    (most : ℕ) (s t : Store) → s.snapshots ≡ t.snapshots → WithinQuota most s → WithinQuota most t
unfolding usage
WithinQuota-same most s t e w = record {
  keyed = λ handle digest.
      subst (λ rows. count (is_snapshot handle digest) rows ≤ 1) e (w.keyed handle digest);
  bounded = λ handle.
      subst (λ rows. length (select (λ row. is_held_by handle row && is_live row) rows) ≤ most) e
        (w.bounded handle);
}

-- a row of the key (handle, digest) with what `retain` writes
abbrev revive : UploadRow → Text → SnapshotRow → SnapshotRow
revive upload at row = record row {
  retained = record {
    digest = upload.digest;
    algorithm = row.algorithm;
    sealed_byte_size = upload.sealed_byte_size;
    chunk_count = upload.chunk_count;
    accepted_terms_id = upload.accepted_terms_id;
    supersedes = upload.supersedes;
    retained_at = at;
    retained_until = none;
    erased_at = none;
  };
}

module _ (upload : UploadRow) (at : Text) (rows : List SnapshotRow) where
  abbrev mine : SnapshotRow → Bool
  mine = is_snapshot upload.holder_handle upload.digest

  keyed-revive :
      (handle digest : Text)
      → count (is_snapshot handle digest) rows ≤ 1
      → count
          (is_snapshot handle digest)
          (update (dormant upload.holder_handle upload.digest) (revive upload at) rows)
        ≤ 1
  keyed-revive handle digest h = omega (
    arith,
    count-update_same (is_snapshot handle digest) (dormant upload.holder_handle upload.digest)
        (revive upload at) rows (λ row e. ground (arith, e, eq_text_iff row.digest upload.digest)),
  )

  held-others :
      (handle : Text)
      → eq_text upload.holder_handle handle ≡ false
      → held handle (update (dormant upload.holder_handle upload.digest) (revive upload at) rows)
        ≡ held handle rows
  held-others handle other =
      count-update_same (λ row. is_held_by handle row && is_live row)
        (dormant upload.holder_handle upload.digest) (revive upload at) rows
        (λ row e. ground (arith, e, other, eq_text_iff row.holder_handle upload.holder_handle))

  dormant-count :
      count mine rows ≤ 1
      → count (dormant upload.holder_handle upload.digest) rows
          + (if any (λ row. is_snapshot upload.holder_handle upload.digest row && is_live row) rows
              then 1
              else 0)
        ≤ 1
  dormant-count h = omega (
    arith,
    count-both (dormant upload.holder_handle upload.digest)
        (λ row. is_snapshot upload.holder_handle upload.digest row && is_live row) mine rows
        (λ row e. ground (arith, e)) (λ row e. ground (arith, e)),
  )

  held-revive :
      (handle : Text) (most : ℕ)
      → count mine rows ≤ 1
      → held handle rows ≤ most
      → (any (λ row. mine row && is_live row) rows ≡ true) ⊎ (held upload.holder_handle rows < most)
      → held handle (update (dormant upload.holder_handle upload.digest) (revive upload at) rows)
        ≤ most
  held-revive handle most k h room = elim (Bool-cases (eq_text upload.holder_handle handle)) [
    | inr e ↦ omega (arith, held-others handle e)
    | inl e ↦
        let same = (eq_text_iff upload.holder_handle handle).0 e in
        let added =
          count-update (λ row. is_held_by handle row && is_live row)
            (dormant upload.holder_handle upload.digest) (revive upload at) rows in
        let few = dormant-count k in
        elim room [
          | inl there ↦ ground (arith, added, few, there)
          | inr below ↦ ground (arith, added, few, ap (λ u. held u rows) same)
        ]
  ]

-- what `retain` inserts for a new key
abbrev inserted : UploadRow → Text → SnapshotRow
inserted upload at = record {
  holder_handle = upload.holder_handle;
  retained = record {
    digest = upload.digest;
    algorithm = digest_suite;
    sealed_byte_size = upload.sealed_byte_size;
    chunk_count = upload.chunk_count;
    accepted_terms_id = upload.accepted_terms_id;
    supersedes = upload.supersedes;
    retained_at = at;
    retained_until = none;
    erased_at = none;
  };
}

module _ (upload : UploadRow) (at : Text) (rows : List SnapshotRow) where
  keyed-inserted :
      (handle digest : Text)
      → any (is_snapshot upload.holder_handle upload.digest) rows ≡ false
      → count (is_snapshot handle digest) rows ≤ 1
      → count (is_snapshot handle digest) (rows ++ inserted upload at ∷ []) ≤ 1
  keyed-inserted handle digest new h =
      elim (Bool-cases (is_snapshot handle digest (inserted upload at))) [
        | inl e ↦
            let key =
              and-true (eq_text upload.holder_handle handle) (eq_text upload.digest digest) e in
            let handles = (eq_text_iff upload.holder_handle handle).0 key.0 in
            let digests = (eq_text_iff upload.digest digest).0 key.1 in
            let none_yet = count_zero (is_snapshot upload.holder_handle upload.digest) rows new in
            let here =
              subst (λ h. count (is_snapshot h digest) rows ≡ 0) handles
                (subst (λ d. count (is_snapshot upload.holder_handle d) rows ≡ 0) digests
                  none_yet) in
            ground (arith, count-append (is_snapshot handle digest) rows (inserted upload at), here)
        | inr e ↦
            ground (arith, count-append (is_snapshot handle digest) rows (inserted upload at), e)
      ]

  held-inserted :
      (handle : Text) (most : ℕ)
      → any (is_snapshot upload.holder_handle upload.digest) rows ≡ false
      → held handle rows ≤ most
      → (any (λ row. is_snapshot upload.holder_handle upload.digest row && is_live row) rows ≡ true)
        ⊎ (held upload.holder_handle rows < most)
      → held handle (rows ++ inserted upload at ∷ []) ≤ most
  held-inserted handle most new h (inl there) = absurd (
      ground (
        arith,
        any_mono (λ row. is_snapshot upload.holder_handle upload.digest row && is_live row)
            (is_snapshot upload.holder_handle upload.digest) rows (λ row e. (and-true _ _ e).0)
            there,
        new,
      ))
  held-inserted handle most new h (inr below) =
      let more =
        count-append (λ row. is_held_by handle row && is_live row) rows (inserted upload at) in
      elim (Bool-cases (eq_text upload.holder_handle handle)) [
        | inl e ↦
            let same = (eq_text_iff upload.holder_handle handle).0 e in
            ground (arith, more, ap (λ u. held u rows) same)
        | inr e ↦ ground (arith, more, e)
      ]

-- `retain` keeps the quota where the snapshot is live already or the holder is below it.
pub retain-WithinQuota :
    (most : ℕ) (upload : UploadRow) (at : Text) (s : Store)
    → WithinQuota most s
    → (snapshot_exists upload.holder_handle upload.digest s ≡ true)
      ⊎ ((usage upload.holder_handle s).0 < most)
    → WithinQuota most (retain upload at s)
unfolding retain snapshot_exists usage count
retain-WithinQuota most upload at s w room =
    elim (Bool-cases (any (is_snapshot upload.holder_handle upload.digest) s.snapshots)) [
      | inl e ↦ rw e (record {
        keyed = λ handle digest.
            keyed-revive upload at s.snapshots handle digest (w.keyed handle digest);
        bounded = λ handle.
            held-revive upload at s.snapshots handle most
              (w.keyed upload.holder_handle upload.digest) (w.bounded handle) room;
      })
      | inr e ↦ rw e (record {
        keyed = λ handle digest.
            keyed-inserted upload at s.snapshots handle digest e (w.keyed handle digest);
        bounded =
            λ handle. held-inserted upload at s.snapshots handle most e (w.bounded handle) room;
      })
    ]

pub mark_unavailable-WithinQuota :
    (most : ℕ) (handle digest at : Text) (s : Store)
    → WithinQuota most s
    → WithinQuota most (mark_unavailable handle digest at s).1
unfolding mark_unavailable usage count
mark_unavailable-WithinQuota most handle digest at s w = record {
  keyed = λ h d.
      let k = w.keyed h d in
      omega (
        arith,
        count-update_off (is_snapshot h d) (λ row. is_snapshot handle digest row && is_live row)
            (λ row. record row { retained = record row.retained { retained_until = some at } })
            s.snapshots (λ row e. e),
      );
  bounded = λ h.
      let k = w.bounded h in
      omega (
        arith,
        count-update_off (λ row. is_held_by h row && is_live row)
            (λ row. is_snapshot handle digest row && is_live row)
            (λ row. record row { retained = record row.retained { retained_until = some at } })
            s.snapshots (λ row e. ground (arith, e)),
      );
}

pub empty-WithinQuota : (most : ℕ) (s : Store) → s.snapshots ≡ [] → WithinQuota most s
unfolding usage count select
empty-WithinQuota most s e = record {
  keyed = λ handle digest. rw e (omega arith);
  bounded = λ handle. rw e (omega arith);
}

-- Rows that go take nothing of the quota.
pub WithinQuota-select :
    (most : ℕ) (s t : Store) (p : SnapshotRow → Bool)
    → t.snapshots ≡ select p s.snapshots
    → WithinQuota most s
    → WithinQuota most t
unfolding usage count
WithinQuota-select most s t p e w = record {
  keyed = λ h d.
      let k = w.keyed h d in rw e (omega (arith, count-select (is_snapshot h d) p s.snapshots));
  bounded = λ h.
      let k = w.bounded h in
      rw e (omega (arith, count-select (λ row. is_held_by h row && is_live row) p s.snapshots));
}

one_erased-WithinQuota :
    (most : ℕ) (handle stamp digest : Text) (s : Store)
    → WithinQuota most s
    → WithinQuota most (record s {
      snapshots =
          update
            (λ row. is_snapshot handle digest row && is_none row.erased_at)
            (λ row. record row { retained = record row.retained { erased_at = some stamp } })
            s.snapshots;
    })
unfolding usage count
one_erased-WithinQuota most handle stamp digest s w = record {
  keyed = λ h d.
      let k = w.keyed h d in
      omega (
        arith,
        count-update_off (is_snapshot h d)
            (λ row. is_snapshot handle digest row && is_none row.erased_at)
            (λ row. record row { retained = record row.retained { erased_at = some stamp } })
            s.snapshots (λ row e. e),
      );
  bounded = λ h.
      let k = w.bounded h in
      omega (
        arith,
        count-update_off (λ row. is_held_by h row && is_live row)
            (λ row. is_snapshot handle digest row && is_none row.erased_at)
            (λ row. record row { retained = record row.retained { erased_at = some stamp } })
            s.snapshots (λ row e. ground (arith, e)),
      );
}

-- Neither does the erasure of a live row.
pub mark_erased-WithinQuota :
    (most : ℕ) (handle stamp : Text) (digests : List Text) (s t : Store)
    → t.snapshots ≡ mark_erased handle digests stamp s.snapshots
    → WithinQuota most s
    → WithinQuota most t
unfolding mark_erased
mark_erased-WithinQuota most handle stamp [] s t e w = WithinQuota-same most s t (sym e) w
mark_erased-WithinQuota most handle stamp (digest ∷ digests) s t e w =
    mark_erased-WithinQuota most handle stamp digests
      (record s {
        snapshots =
            update (λ row. is_snapshot handle digest row && is_none row.erased_at)
              (λ row. record row { retained = record row.retained { erased_at = some stamp } })
              s.snapshots;
      })
      t e (one_erased-WithinQuota most handle stamp digest s w)
