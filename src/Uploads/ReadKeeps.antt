-- ===== src/Uploads/ReadKeeps.antt =====
-- The quota under `list`, `download` and the export of a snapshot.
use onym_backup.Prelude.{ℕ, Option, none, some, List, Text, Bytes}
use onym_backup.Prelude.Exec.{ok, err, modify}
use onym_backup.Prelude.Exec.Preserves.{Preserves, Preserves-modify, preserve_rules}
use onym_backup.Error.{Error, Fallible, retention_expired}
use onym_backup.Clock.{Time}
use onym_backup.Store.Snapshots.{mark_unavailable}
use onym_backup.Store.Quota.{mark_unavailable-WithinQuota}
use onym_backup.Operator.{Operator}
use onym_backup.Auth.{Headers, Holder}
use onym_backup.Uploads.Keeps.{QuotaOfState, authenticate-keeps, require-keeps}
use onym_backup.Uploads.Read.{refuse_if, serve, fetch_snapshot, list, download, export_snapshot}

module _ (o : Operator) (most : ℕ) where
  open o use {clock}

  expire-keeps :
      (handle digest at : Text)
      → Preserves (QuotaOfState most) (
          modify {E = Error}
            (λ s. record s { store = (mark_unavailable handle digest at s.store).1 }))
  expire-keeps handle digest at =
      Preserves-modify _ (λ s w. mark_unavailable-WithinQuota most handle digest at s.store w)

  serve-keeps :
      (holder : Holder) (digest : Text) (now : Time) (read : Fallible (List Bytes))
      → Preserves (QuotaOfState most) (serve o holder digest now read)
  unfolding serve
  serve-keeps holder digest now (ok parts) = search preserve_rules depth 16
  serve-keeps holder digest now (err retention_expired) =
      search (preserve_rules, expire-keeps) depth 16
  serve-keeps holder digest now (err e) = search preserve_rules depth 16

  refuse-keeps : (e : Option Error) → Preserves (QuotaOfState most) (refuse_if o e)
  unfolding refuse_if
  refuse-keeps none = search preserve_rules depth 16
  refuse-keeps (some e) = search preserve_rules depth 16

  fetch-keeps :
      (holder : Holder) (digest_path : Text) (now : Time)
      → Preserves (QuotaOfState most) (fetch_snapshot o holder digest_path now)
  unfolding fetch_snapshot
  fetch-keeps holder digest_path now = search (preserve_rules, refuse-keeps, serve-keeps) depth 20

  pub list-keeps :
      (headers : Headers) (now : Time) → Preserves (QuotaOfState most) (list o headers now)
  unfolding list
  list-keeps headers now =
      search (preserve_rules, authenticate-keeps o most, require-keeps o most) depth 20

  pub download-keeps :
      (digest_path : Text) (headers : Headers) (now : Time)
      → Preserves (QuotaOfState most) (download o digest_path headers now)
  unfolding download
  download-keeps digest_path headers now =
      search (preserve_rules, authenticate-keeps o most, require-keeps o most, fetch-keeps) depth 20

  pub export-keeps :
      (digest_path : Text) (headers : Headers) (now : Time)
      → Preserves (QuotaOfState most) (export_snapshot o digest_path headers now)
  unfolding export_snapshot
  export-keeps digest_path headers now =
      search (preserve_rules, authenticate-keeps o most, fetch-keeps) depth 20
