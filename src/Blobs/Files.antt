-- ===== src/Blobs/Files.antt =====
-- The operations of `Blobs` in operator/src/blobs.rs. Directories are synced before they are relied
-- on in the source; a `sync` that succeeds changes nothing here.
use mathlib.Core.Option
use onym_backup.Prelude.{
  ℕ, zero, suc, ◌+◌, ◌^◌, Bool, true, false, not, ◌&&◌, ◌||◌, Option, none, some, List, [], ◌∷◌,
  ◌++◌, map, Text, Bytes, ◌==◌, ltb, leb, if◌then◌else◌, length, eq_text,
}
use onym_backup.Prelude.Int.{ℤ, pos, pos_part, eq_int}
use onym_backup.Prelude.Assoc.{insert, remove}
use onym_backup.Prelude.Exec.{ok, err, Exec}
use onym_backup.Error.{Error, Fallible, chunk_mismatch, retention_expired, internal}
use onym_backup.Crypto.{Crypto}
use onym_backup.Blobs.Digest.{digest_prefix, digest_text}
use onym_backup.Blobs.Disk.{
  Dir, SnapshotPath, Blobs, chunk, add_chunk, eq_path, incoming_dir, snapshot_dir, part,
}

-- `create_dir_all` leaves a directory that is there as it is
unfoldable pub begin_upload : Text → Blobs → Blobs
unfolding incoming_dir
begin_upload upload_id b = elim (incoming_dir upload_id b) [
  | some d ↦ b
  | none ↦ record b { incoming = insert eq_text upload_id [] b.incoming }
]

place_chunk : Text → ℕ → Bytes → Option Dir → Exec Error Blobs (Unit {0})
place_chunk upload_id index bytes none b = (err (internal "create chunk"), b)
place_chunk upload_id index bytes (some d) b = elim (chunk index d) [
  | some existing ↦ if eq_text existing bytes then (ok tt, b) else (err chunk_mismatch, b)
  | none ↦
      (ok tt, record b { incoming = insert eq_text upload_id (add_chunk index bytes d) b.incoming })
]

unfoldable pub write_chunk : Text → ℕ → Bytes → Exec Error Blobs (Unit {0})
unfolding place_chunk
write_chunk upload_id index bytes b = place_chunk upload_id index bytes (incoming_dir upload_id b) b

-- The bytes of the parts in order, if all are there.
unfoldable pub join_parts : Option Dir → ℕ → ℕ → Option Bytes
join_parts d index zero = some []
join_parts d index (suc rounds) = elim (part d index) [
  | none ↦ none
  | some bytes ↦ Option.map (λ rest. bytes ++ rest) (join_parts d (suc index) rounds)
]

unfoldable pub digest_of : Crypto → Text → ℤ → Blobs → Fallible Text
unfolding join_parts
digest_of x upload_id chunk_count b =
    elim (join_parts (incoming_dir upload_id b) 0 (pos_part chunk_count)) [
      | none ↦ err (internal "read chunk")
      | some bytes ↦ ok (digest_text x bytes)
    ]

unfoldable pub discard_upload : Text → Blobs → Blobs
discard_upload upload_id b = record b { incoming = remove eq_text upload_id b.incoming }

unfoldable pub place : ℕ → List ℕ → List ℕ
place i [] = i ∷ []
place i (j ∷ js) = let rest = place i js in if leb i j then i ∷ j ∷ js else j ∷ rest

-- `sort_unstable`; equal numbers cannot be told apart
unfoldable pub sort_indices : List ℕ → List ℕ
unfolding place
sort_indices [] = []
sort_indices (i ∷ is) = place i (sort_indices is)

-- `enumerate().all(|(expected, actual)| actual == expected)`
unfoldable pub contiguous : ℕ → List ℕ → Bool
contiguous expected [] = true
contiguous expected (actual ∷ rest) = actual == expected && contiguous (suc expected) rest

unfoldable pub contents : Dir → List ℕ → List Bytes
contents d [] = []
contents d (i ∷ is) = elim (chunk i d) [ none ↦ contents d is | some b ↦ b ∷ contents d is ]

-- the sum by `checked_add` on `i64`
unfoldable pub total_size : ℕ → List Bytes → Option ℕ
total_size total [] = some total
total_size total (b ∷ bs) = elim (ltb (total + length b) (2 ^ 63)) [
  | true ↦ total_size (total + length b) bs
  | false ↦ none
]

unfoldable pub sized : ℕ → List Bytes → Option ℕ → Fallible (List Bytes)
sized sealed_byte_size parts none = err (internal "snapshot size overflow")
sized sealed_byte_size parts (some total) =
    if total == sealed_byte_size then ok parts else err retention_expired

unfoldable pub inspect : Dir → ℤ → ℕ → Fallible (List Bytes)
unfolding sized sort_indices contiguous contents total_size
inspect d chunk_count sealed_byte_size =
    let indices = sort_indices (map (λ e. e.0) d) in
    if not (eq_int (pos (length indices)) chunk_count) || not (contiguous 0 indices)
    then err retention_expired
    else sized sealed_byte_size (contents d indices) (total_size 0 (contents d indices))

-- The parts of a retained snapshot in order, here by their bytes, if they are all there.
unfoldable pub chunk_paths : SnapshotPath → ℤ → ℕ → Blobs → Fallible (List Bytes)
unfolding inspect
chunk_paths path chunk_count sealed_byte_size b = elim (snapshot_dir path b) [
  | none ↦ err retention_expired
  | some d ↦ inspect d chunk_count sealed_byte_size
]

unfoldable pub concat : List Bytes → Bytes
concat [] = []
concat (b ∷ bs) = b ++ concat bs

-- A destination that is there already must be the same snapshot; then the upload is redundant.
keep_existing : Crypto → Text → Text → Fallible (List Bytes) → Exec Error Blobs (Unit {0})
keep_existing x upload_id hex (ok parts) b =
    if eq_text (digest_text x (concat parts)) (digest_prefix ++ hex)
    then (ok tt, discard_upload upload_id b)
    else (err (internal "existing snapshot bytes do not match their digest"), b)
keep_existing x upload_id hex (err retention_expired) b =
    (err (internal "existing snapshot destination is incomplete"), b)
keep_existing x upload_id hex (err e) b = (err e, b)

-- the rename; a missing upload directory is an error of the file system
move_upload : Text → SnapshotPath → Option Dir → Exec Error Blobs (Unit {0})
move_upload upload_id path none b = (err (internal "commit upload"), b)
move_upload upload_id path (some d) b = (
  ok tt,
  record b {
    incoming = remove eq_text upload_id b.incoming;
    retained = insert eq_path path d b.retained;
  },
)

unfoldable pub commit : Crypto → Text → Text → Text → ℤ → ℕ → Exec Error Blobs (Unit {0})
unfolding keep_existing move_upload discard_upload concat
commit x upload_id handle hex chunk_count sealed_byte_size b = elim (snapshot_dir (handle, hex) b) [
  | some d ↦
      keep_existing x upload_id hex (chunk_paths (handle, hex) chunk_count sealed_byte_size b) b
  | none ↦ move_upload upload_id (handle, hex) (incoming_dir upload_id b) b
]

unfoldable pub erase : SnapshotPath → Blobs → Blobs
erase path b = record b { retained = remove eq_path path b.retained }

unfoldable pub retained_on_disk : Blobs → List SnapshotPath
retained_on_disk b = map (λ e. e.0) b.retained

unfoldable pub incoming_on_disk : Blobs → List Text
incoming_on_disk b = map (λ e. e.0) b.incoming
