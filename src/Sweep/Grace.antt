-- ===== src/Sweep/Grace.antt =====
-- Step (0) of `reconcile` in operator/src/sweep.rs: snapshots whose own grace window closed.
use onym_backup.Prelude.{ℕ, List, Text, text, eq_text, if◌then◌else◌}
use onym_backup.Prelude.Each.{each}
use onym_backup.Prelude.Exec.{ok, err}
use onym_backup.Error.{Fallible}
use onym_backup.Clock.{Clock, Time}
use onym_backup.Documents.Json.{Json}
use onym_backup.Store.Rows.{Store}
use onym_backup.Store.Snapshots.{holders_with_snapshots, mark_unavailable}
use onym_backup.Lapse.Window.{post_grace_due}

-- the one post-grace state that the operator implements
unfoldable pub erase_action : Text
erase_action = text "erase"

-- a clause that asks for anything else keeps the bytes
unfoldable pub expire_one : Text → Text → Text × Text → Store → ℕ × Store
expire_one now handle (digest, after_grace) s =
    if eq_text after_grace erase_action then mark_unavailable handle digest now s else (0, s)

-- a holder whose state cannot be read is passed over
unfoldable pub expire_all : Text → Text → Fallible (List (Text × Text)) → Store → ℕ × Store
unfolding expire_one each
expire_all now handle (err e) s = (0, s)
expire_all now handle (ok due) s = each (expire_one now handle) due s

module _ (c : Clock) (j : Json) where
  unfoldable pub expire_holder : List Text → Time → Text → Text → Store → ℕ × Store
  unfolding expire_all
  expire_holder revoked now_at now handle s =
      expire_all now handle (post_grace_due c j s handle revoked now_at) s

  unfoldable pub expire_post_grace : List Text → Time → Text → Store → ℕ × Store
  unfolding expire_holder each
  expire_post_grace revoked now_at now s =
      each (expire_holder revoked now_at now) (holders_with_snapshots s) s
