-- ===== src/Operator.antt =====
-- `AppState` of operator/src/api.rs, in two parts: what is fixed at boot, with the libraries that the
-- code calls, and what requests change.
use onym_backup.Prelude.{Option, none, some, List, [], Text, Bytes}
use onym_backup.Prelude.Int.{ℤ}
use onym_backup.Prelude.Exec.{Exec}
use onym_backup.Error.{Error}
use onym_backup.Clock.{Clock, Time}
use onym_backup.Crypto.{Crypto}
use onym_backup.Documents.Json.{Json}
use onym_backup.Config.{Config}
use onym_backup.Store.Rows.{Store}
use onym_backup.Blobs.Disk.{Blobs}

-- `Documents`: what the operator publishes, signed at boot
pub record Documents : Type 0 where
  pub manifest : Bytes
  pub profile : Bytes
  pub manifest_signature : Text
  pub terms_signature : Text
  pub terms_id : Text
  pub terms : Bytes
  pub operator_key : Text

pub record Operator : Type 0 where
  pub clock : Clock
  pub crypto : Crypto
  pub json : Json
  pub config : Config
  pub documents : Documents

-- A verified revocation epoch (operator/src/revocation.rs).
pub record Epoch : Type 0 where
  pub epoch : ℤ
  pub published_at : Time
  pub revoked : List Text
  pub raw : Bytes

pub record State : Type 0 where
  pub store : Store
  pub blobs : Blobs
  -- the epoch in force and when it was fetched
  pub revocation : Option (Epoch × Time)

-- A section under the store's lock.
unfoldable pub on_store : {A : Type 0} → Exec Error Store A → Exec Error State A
on_store m s = let r = m s.store in (r.0, record s { store = r.1 })

-- A step on the blob tree.
unfoldable pub on_blobs : {A : Type 0} → Exec Error Blobs A → Exec Error State A
on_blobs m s = let r = m s.blobs in (r.0, record s { blobs = r.1 })

-- `Revocation::revoked`: none before the first epoch
unfoldable pub revoked : State → List Text
revoked s = elim s.revocation [ none ↦ [] | some held ↦ held.0.revoked ]
