-- ===== src/Sweep/Unlinked.antt =====
-- Step (4) of `reconcile` in operator/src/sweep.rs: which directories stay and which go.
use onym_backup.Prelude.{
  ◌≡◌, refl, sym, ap, subst, ◌∙◌, ◌↔◌, Bool, true, false, ◌&&◌, ◌||◌, none, some, List, [], ◌∷◌,
  ◌++◌, map, Text, arith, if◌then◌else◌, select, any, eq_text, eq_text_iff, eq_text_refl,
  Bool-cases, inl, inr, is_none, All, All-of_map, All-zip, strip_prefix, strip_prefix-append,
}
use onym_backup.Prelude.Assoc.{lookup-remove, All-remove, All-found}
use onym_backup.Prelude.Each.{each, each-keeps, each-All}
use onym_backup.Blobs.Digest.{digest_prefix}
use onym_backup.Blobs.Disk.{Blobs, Dir, SnapshotPath, eq_path, snapshot_dir}
use onym_backup.Blobs.Files
use onym_backup.Blobs.Files.{retained_on_disk}
use onym_backup.Store.Rows.{Store, SnapshotRow}
use onym_backup.Store.Snapshots.{
  is_live, is_snapshot, snapshot_exists, all_retained_keys, file_name,
}
use onym_backup.Operator.{State}
use onym_backup.Sweep.Bytes.{unlink, unlink_unless_live, drop_orphan_snapshots}
use onym_backup.Sweep.Tables.{store-unlink_unless_live}

pub eq_path_iff : (p q : SnapshotPath) → (eq_path p q ≡ true) ↔ (p ≡ q)
unfolding eq_path
eq_path_iff (h, d) (g, e) = ground (arith, eq_text_iff h g, eq_text_iff d e)

-- Is the directory one of a live row?
abbrev pub is_retained : Store → SnapshotPath → Bool
is_retained s path = any (eq_path path) (all_retained_keys s)

file_name-prefix :
    (digest d : Text)
    → eq_text digest (digest_prefix ++ d) ≡ true
    → eq_text d (file_name digest) ≡ true
unfolding file_name
file_name-prefix digest d k =
    let e =
      subst (λ x. strip_prefix digest_prefix x ≡ some d)
        (sym ((eq_text_iff digest (digest_prefix ++ d)).0 k))
        (strip_prefix-append digest_prefix d) in
    rw (e, file_name) (eq_text_refl d)

key_of :
    (h d : Text) (rows : List SnapshotRow)
    → any (λ row. is_snapshot h (digest_prefix ++ d) row && is_live row) rows ≡ true
    → any
        (eq_path (h, d))
        (map (λ row. (row.holder_handle, file_name row.digest)) (select is_live rows))
      ≡ true
unfolding any select eq_path
key_of h d [] k = cc
key_of h d (row ∷ rows) k = elim (Bool-cases (is_live row)) [
  | inr e ↦ rw e (key_of h d rows (ground (arith, k, e)))
  | inl e ↦ rw e (elim (Bool-cases (is_snapshot h (digest_prefix ++ d) row)) [
    | inr f ↦ ground (arith, key_of h d rows, k, f)
    | inl f ↦ ground (
      arith,
      f,
      eq_text_iff row.holder_handle h,
      eq_text_iff h row.holder_handle,
      file_name-prefix row.digest d,
    )
  ])
]

-- a live row's directory is one of the keys
exists_retained :
    (h d : Text) (s : Store)
    → snapshot_exists h (digest_prefix ++ d) s ≡ true
    → is_retained s (h, d) ≡ true
unfolding snapshot_exists all_retained_keys
exists_retained h d s k = key_of h d s.snapshots k

dir-erase :
    (p q : SnapshotPath) (b : Blobs)
    → snapshot_dir q (Files.erase p b) ≡ (if eq_path p q then none else snapshot_dir q b)
unfolding snapshot_dir Files.erase
dir-erase p q b = lookup-remove eq_path eq_path_iff p q b.retained

unlinked :
    (live : List SnapshotPath) (path : SnapshotPath) (h d : Text) (t : State)
    → snapshot_exists h (digest_prefix ++ d) t.store ≡ true
    → snapshot_dir (h, d) (unlink_unless_live live path t).1.blobs ≡ snapshot_dir (h, d) t.blobs
unfolding unlink_unless_live unlink
unlinked live path h d t k = elim (Bool-cases (any (eq_path path) live)) [
  | inl e ↦ rw e refl
  | inr e ↦ rw e (elim (Bool-cases (snapshot_exists path.0 (digest_prefix ++ path.1) t.store)) [
    | inl f ↦ rw f refl
    | inr f ↦ rw f (elim (Bool-cases (eq_path path (h, d))) [
      | inl g ↦
          let same = (eq_path_iff path (h, d)).0 g in
          absurd (
            ground (arith, k, f, ap (λ p. snapshot_exists p.0 (digest_prefix ++ p.1) t.store) same))
      | inr g ↦ dir-erase path (h, d) t.blobs ∙ rw g refl
    ])
  ])
]

-- The directory of a live row stays, whatever listings the loop works from: those may be stale.
pub unlink_keeps :
    (live found : List SnapshotPath) (h d : Text) (s : State)
    → snapshot_exists h (digest_prefix ++ d) s.store ≡ true
    → snapshot_dir (h, d) (each (unlink_unless_live live) found s).1.blobs
      ≡ snapshot_dir (h, d) s.blobs
unlink_keeps live found h d s k =
    (each-keeps
      (λ t. (t.store ≡ s.store) × (snapshot_dir (h, d) t.blobs ≡ snapshot_dir (h, d) s.blobs))
      (unlink_unless_live live)
      (λ path t g. (
        store-unlink_unless_live live path t ∙ g.0,
        unlinked live path h d t (ap (snapshot_exists h (digest_prefix ++ d)) g.0 ∙ k) ∙ g.1,
      ))
      found s (refl, refl)).1

-- a path on the list is of a live row, or its directory is gone
abbrev Settled : Store → SnapshotPath → State → Type 0
Settled before path t = (is_retained before path || is_none (snapshot_dir path t.blobs)) ≡ true

settles :
    (before : Store) (path : SnapshotPath) (t : State)
    → t.store ≡ before
    → Settled before path (unlink_unless_live (all_retained_keys before) path t).1
unfolding unlink_unless_live unlink
settles before path t e = elim (Bool-cases (is_retained before path)) [
  | inl f ↦ rw f refl
  | inr f ↦ rw f (elim (Bool-cases (snapshot_exists path.0 (digest_prefix ++ path.1) t.store)) [
    | inl g ↦ absurd (
        ground (
          arith,
          f,
          exists_retained path.0 path.1 before
              (ap (snapshot_exists path.0 (digest_prefix ++ path.1)) (sym e) ∙ g),
        ))
    | inr g ↦ rw (g, dir-erase path path t.blobs, (eq_path_iff path path).1 refl) refl
  ])
]

stays-Settled :
    (before : Store) (live : List SnapshotPath) (p q : SnapshotPath) (t : State)
    → Settled before p t
    → Settled before p (unlink_unless_live live q t).1
unfolding unlink_unless_live unlink
stays-Settled before live p q t k = elim (Bool-cases (any (eq_path q) live)) [
  | inl e ↦ rw e k
  | inr e ↦ rw e (elim (Bool-cases (snapshot_exists q.0 (digest_prefix ++ q.1) t.store)) [
    | inl f ↦ rw f k
    | inr f ↦ rw f (ground (arith, k, dir-erase q p t.blobs))
  ])
]

entries_stay :
    (P : SnapshotPath × Dir → Type 0) (live : List SnapshotPath) (q : SnapshotPath) (t : State)
    → All P t.blobs.retained
    → All P (unlink_unless_live live q t).1.blobs.retained
unfolding unlink_unless_live unlink Files.erase
entries_stay P live q t h = elim (Bool-cases (any (eq_path q) live)) [
  | inl e ↦ rw e h
  | inr e ↦ rw e (elim (Bool-cases (snapshot_exists q.0 (digest_prefix ++ q.1) t.store)) [
    | inl f ↦ rw f h
    | inr f ↦ rw f (All-remove eq_path eq_path_iff P q t.blobs.retained h)
  ])
]

stays_there : (b : Blobs) → All (λ e. is_none (snapshot_dir e.0 b) ≡ false) b.retained
unfolding snapshot_dir
stays_there b = All-found eq_path eq_path_iff b.retained

-- After the step every directory is that of a live row.
pub no_orphans :
    (s : State)
    → All (λ e. is_retained s.store e.0 ≡ true) (drop_orphan_snapshots s).1.blobs.retained
unfolding drop_orphan_snapshots retained_on_disk
no_orphans s =
    let step = unlink_unless_live (all_retained_keys s.store) in
    let end = (each step (retained_on_disk s.blobs) s).1 in
    let settled : All (λ p. Settled s.store p end) (retained_on_disk s.blobs) =
      each-All (λ t. t.store ≡ s.store) (Settled s.store) step
        (λ p t e. store-unlink_unless_live (all_retained_keys s.store) p t ∙ e)
        (λ p t e. settles s.store p t e)
        (λ p q t e h. stays-Settled s.store (all_retained_keys s.store) p q t h)
        (retained_on_disk s.blobs) s refl in
    let entries : All (λ e. Settled s.store e.0 end) end.blobs.retained =
      each-keeps (λ t. All (λ e. Settled s.store e.0 end) t.blobs.retained) step
        (λ q t h. entries_stay (λ e. Settled s.store e.0 end) (all_retained_keys s.store) q t h)
        (retained_on_disk s.blobs) s
        (All-of_map (λ p. Settled s.store p end) (λ e. e.0) s.blobs.retained settled) in
    All-zip (λ e. Settled s.store e.0 end) (λ e. is_none (snapshot_dir e.0 end.blobs) ≡ false)
      (λ e. is_retained s.store e.0 ≡ true) end.blobs.retained (λ e h k. ground (arith, h, k))
      entries (stays_there end.blobs)
