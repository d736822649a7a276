-- ===== src/Blobs/Disk.antt =====
-- The tree under the blob root of operator/src/blobs.rs, and the parts of an upload. A directory is
-- a finite map from the index in `{index}.part` to the bytes of that file, listed by index: the
-- program lists directories in no particular order and sorts them so itself. Failures of the file
-- system other than a missing entry are not modelled, nor are files that the operator did not write.
use onym_backup.Prelude.{
  ℕ, Bool, ◌&&◌, Option, none, some, List, [], ◌∷◌, Text, Bytes, ◌==◌, ltb, if◌then◌else◌, eq_text,
}
use onym_backup.Prelude.Assoc.{Assoc, lookup}

abbrev pub Dir : Type 0
Dir = List (ℕ × Bytes)

unfoldable pub chunk : ℕ → Dir → Option Bytes
chunk i [] = none
chunk i ((j, b) ∷ d) = let rest = chunk i d in if j == i then some b else rest

-- `create_new` of an absent file
unfoldable pub add_chunk : ℕ → Bytes → Dir → Dir
add_chunk i b [] = (i, b) ∷ []
add_chunk i b ((j, c) ∷ d) =
    let rest = add_chunk i b d in if ltb i j then (i, b) ∷ (j, c) ∷ d else (j, c) ∷ rest

-- (holder handle, digest hex): the two levels below the shard, which repeats the handle's start
abbrev pub SnapshotPath : Type 0
SnapshotPath = Text × Text

unfoldable pub eq_path : SnapshotPath → SnapshotPath → Bool
eq_path (h, d) (g, e) = eq_text h g && eq_text d e

pub record Blobs : Type 0 where
  pub incoming : Assoc Text Dir
  pub retained : Assoc SnapshotPath Dir

unfoldable pub incoming_dir : Text → Blobs → Option Dir
incoming_dir upload_id b = lookup eq_text upload_id b.incoming

unfoldable pub snapshot_dir : SnapshotPath → Blobs → Option Dir
snapshot_dir path b = lookup eq_path path b.retained

-- What reading a path under a directory that may be absent finds.
unfoldable pub part : Option Dir → ℕ → Option Bytes
part none i = none
part (some d) i = chunk i d
