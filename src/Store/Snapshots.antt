-- ===== src/Store/Snapshots.antt =====
-- The statements of operator/src/store.rs on `snapshots`.
use onym_backup.Prelude.{
  ℕ, ◌+◌, ◌-◌, Bool, true, false, not, ◌&&◌, ◌||◌, Option, none, some, List, [], ◌∷◌, ◌++◌, map,
  Text, text, leb, if◌then◌else◌, length, select, find?, any, eq_text, is_some, is_none,
  strip_prefix,
}
use onym_backup.Clock.{Clock, jd_lt}
use onym_backup.Store.Rows.{Store, SnapshotRow, RetainedRow, UploadRow}

abbrev pub digest_suite : Text
digest_suite = text "sha-256/lowercase-hex"

abbrev pub scope_all : Text
scope_all = text "all"

-- `erased_at IS NULL AND retained_until IS NULL`
abbrev pub is_live : SnapshotRow → Bool
is_live row = is_none row.erased_at && is_none row.retained_until

abbrev pub is_held_by : Text → SnapshotRow → Bool
is_held_by handle row = eq_text row.holder_handle handle

-- the primary key
abbrev pub is_snapshot : Text → Text → SnapshotRow → Bool
is_snapshot handle digest row = eq_text row.holder_handle handle && eq_text row.digest digest

-- UPDATE ... SET ... WHERE
unfoldable pub update :
    (SnapshotRow → Bool) → (SnapshotRow → SnapshotRow) → List SnapshotRow → List SnapshotRow
update p f [] = []
update p f (row ∷ rows) = (if p row then f row else row) ∷ update p f rows

unfoldable pub count : (SnapshotRow → Bool) → List SnapshotRow → ℕ
unfolding select
count p rows = length (select p rows)

unfoldable pub sum_sizes : List SnapshotRow → ℕ
sum_sizes [] = 0
sum_sizes (row ∷ rows) = row.sealed_byte_size + sum_sizes rows

-- number and bytes of the live snapshots of a holder
unfoldable pub usage : Text → Store → ℕ × ℕ
unfolding select sum_sizes
usage handle s =
    let rows = select (λ row. is_held_by handle row && is_live row) s.snapshots in
    (length rows, sum_sizes rows)

-- `INSERT ... ON CONFLICT DO UPDATE ... WHERE`: a row that is erased or unavailable comes back
-- under the new terms, and a live one is left alone.
unfoldable pub retain : UploadRow → Text → Store → Store
unfolding any update
retain upload retained_at s =
    let mine = is_snapshot upload.holder_handle upload.digest in
    let fresh : RetainedRow = record {
      digest = upload.digest;
      algorithm = digest_suite;
      sealed_byte_size = upload.sealed_byte_size;
      chunk_count = upload.chunk_count;
      accepted_terms_id = upload.accepted_terms_id;
      supersedes = upload.supersedes;
      retained_at = retained_at;
      retained_until = none;
      erased_at = none;
    } in
    if any mine s.snapshots
    then record s {
      snapshots =
          update (λ row. mine row && (is_some row.erased_at || is_some row.retained_until))
            (λ row. record row { retained = record fresh { algorithm = row.algorithm } })
            s.snapshots;
    }
    else record s {
      snapshots =
          s.snapshots ++ record { holder_handle = upload.holder_handle; retained = fresh } ∷ [];
    }

unfoldable pub snapshot_record : Text → Text → Store → Option SnapshotRow
unfolding find?
snapshot_record handle digest s = find? (is_snapshot handle digest) s.snapshots

unfoldable pub snapshot_exists : Text → Text → Store → Bool
unfolding any
snapshot_exists handle digest s =
    any (λ row. is_snapshot handle digest row && is_live row) s.snapshots

unfoldable pub all_live_snapshots : Store → List SnapshotRow
unfolding select
all_live_snapshots s = select is_live s.snapshots

-- the result counts the rows changed
unfoldable pub mark_unavailable : Text → Text → Text → Store → ℕ × Store
unfolding update count
mark_unavailable handle digest at s =
    let target = λ (row : SnapshotRow). is_snapshot handle digest row && is_live row in
    (
      count target s.snapshots,
      record s {
        snapshots =
            update target
              (λ row. record row { retained = record row.retained { retained_until = some at } })
              s.snapshots;
      },
    )

abbrev in_scope : Text → SnapshotRow → Bool
in_scope scope row = eq_text scope scope_all || eq_text row.digest scope

unfoldable pub scope_is_unavailable : Text → Text → Store → Bool
unfolding any
scope_is_unavailable handle scope s =
    any
      (λ row.
        is_held_by handle row
        && (in_scope scope row && (is_none row.erased_at && is_some row.retained_until)))
      s.snapshots

unfoldable pub erased_digests : Text → Text → Store → List Text
unfolding select
erased_digests handle scope s =
    map (λ row. row.digest)
      (select (λ row. is_held_by handle row && (in_scope scope row && is_some row.erased_at))
        s.snapshots)

-- `UPDATE snapshots SET erased_at ... AND erased_at IS NULL`, once for each digest
unfoldable pub mark_erased : Text → List Text → Text → List SnapshotRow → List SnapshotRow
unfolding update
mark_erased handle [] stamp rows = rows
mark_erased handle (digest ∷ digests) stamp rows = mark_erased handle digests stamp (
    update (λ row. is_snapshot handle digest row && is_none row.erased_at)
      (λ row. record row { retained = record row.retained { erased_at = some stamp } }) rows)

-- a digest as a directory name
unfoldable pub file_name : Text → Text
file_name digest = elim (strip_prefix (text "sha256:") digest) [ none ↦ digest | some hex ↦ hex ]

-- the keys of live rows
unfoldable pub all_retained_keys : Store → List (Text × Text)
unfolding select file_name
all_retained_keys s =
    map (λ row. (row.holder_handle, file_name row.digest)) (select is_live s.snapshots)

unfoldable pub contains : Text → List Text → Bool
contains t [] = false
contains t (u ∷ us) = eq_text u t || contains t us

-- SELECT DISTINCT, in the order of first occurrence
unfoldable pub distinct : List Text → List Text → List Text
unfolding contains
distinct seen [] = []
distinct seen (t ∷ ts) = elim (contains t seen) [
  | true ↦ distinct seen ts
  | false ↦ t ∷ distinct (t ∷ seen) ts
]

unfoldable pub holders_with_snapshots : Store → List Text
unfolding distinct select
holders_with_snapshots s = distinct [] (map (λ row. row.holder_handle) (select is_live s.snapshots))

-- `ORDER BY key DESC`: NULL last, and ties in table order
unfoldable pub above : Option ℕ → Option ℕ → Bool
above (some a) (some b) = leb b a
above (some a) none = true
above none (some b) = false
above none none = true

module _ {A : Type 0} (key : A → Option ℕ) where
  unfoldable pub place_desc : A → List A → List A
  unfolding above
  place_desc x [] = x ∷ []
  place_desc x (y ∷ ys) =
      let rest = place_desc x ys in if above (key x) (key y) then x ∷ y ∷ ys else y ∷ rest

  unfoldable pub order_desc : List A → List A
  unfolding place_desc
  order_desc [] = []
  order_desc (x ∷ xs) = place_desc x (order_desc xs)

module _ (c : Clock) where
  unfoldable pub listed : Text → Bool → Store → List SnapshotRow
  unfolding select order_desc
  listed handle live_only s =
      order_desc (λ row. c.julianday row.retained_at)
        (select (λ row. is_held_by handle row && (not live_only || is_live row)) s.snapshots)

  unfoldable pub snapshots : Text → Store → List SnapshotRow
  snapshots handle s = listed handle true s

  unfoldable pub snapshots_including_erased : Text → Store → List SnapshotRow
  snapshots_including_erased handle s = listed handle false s

  unfoldable pub snapshots_in_scope : Text → Text → Store → List SnapshotRow
  unfolding snapshots
  snapshots_in_scope handle scope s =
      if eq_text scope scope_all
      then snapshots handle s
      else select (λ row. eq_text row.digest scope) (snapshots handle s)

  unfoldable pub is_older : Option Text → Text → Bool
  is_older none floor = false
  is_older (some at) floor = jd_lt c at floor

  unfoldable pub sweep_erased_references : Text → Store → ℕ × Store
  unfolding select is_older
  sweep_erased_references older_than s =
      let kept = select (λ row. not (is_older row.erased_at older_than)) s.snapshots in
      (length s.snapshots - length kept, record s { snapshots = kept })
