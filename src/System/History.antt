-- ===== src/System/History.antt =====
-- Any sequence of requests to the routes of operator/src that authenticate a holder, of fetched
-- revocation epochs, and of sweeps, each run to its end or to its error.
use onym_backup.Prelude.{ℕ, ◌≤◌, ◌≡◌, Option, List, [], ◌∷◌, Text, Bytes}
use onym_backup.Prelude.Int.{ℤ}
use onym_backup.Clock.{Time}
use onym_backup.Config.{requires_entitlement}
use onym_backup.Store.Snapshots.{usage}
use onym_backup.Store.Quota.{empty-WithinQuota}
use onym_backup.Operator.{Operator, State, Epoch, revoked}
use onym_backup.Auth.{Headers}
use onym_backup.Revocation.{install}
use onym_backup.Uploads.Preflight.{PreflightRequest, preflight}
use onym_backup.Uploads.Transfer.{put_chunk}
use onym_backup.Uploads.Commit.{commit}
use onym_backup.Uploads.Read.{list, download, export_snapshot}
use onym_backup.Uploads.Keeps.{QuotaOfState, preflight-keeps, put_chunk-keeps}
use onym_backup.Uploads.Sealed.{commit-keeps}
use onym_backup.Uploads.ReadKeeps.{list-keeps, download-keeps, export-keeps}
use onym_backup.Erasures.Erase.{EraseRequest, erase}
use onym_backup.Entitlements.Register.{register}
use onym_backup.Operations.{query}
use onym_backup.Export.Container.{manifest, receipt}
use onym_backup.Sweep.Cutoffs.{Cutoffs}
use onym_backup.Sweep.Reconcile.{reconcile}
use onym_backup.Sweep.Quota.{reconcile-WithinQuota}
use onym_backup.System.Keeps.{
  erase-keeps, register-keeps, query-keeps, manifest-keeps, receipt-keeps,
}

-- A request as its handler takes it. A preflight and an erasure come with serde's reading of bodies and
-- with new ids; a sweep with its instant and its floors.
pub data Call : Type 0 where
  asks : (Bytes → Option PreflightRequest) → Text → Headers → Bytes → Time → Call
  sends : Text → ℤ → Headers → Bytes → Time → Call
  commits : Text → Headers → Bytes → Time → Call
  lists : Headers → Time → Call
  downloads : Text → Headers → Time → Call
  exports : Text → Headers → Time → Call
  erases : (Bytes → Option EraseRequest) → (ℕ → Text) → Headers → Bytes → Time → Call
  registers : Headers → Bytes → Time → Call
  queries : Text → Text → Headers → Time → Call
  packs : Headers → Time → Call
  fetches_receipt : Text → Headers → Time → Call
  learns : Epoch → Time → Call
  sweeps : Time → Cutoffs → Call

module _ (o : Operator) where
  unfoldable pub after : Call → State → State
  after (asks read_body u headers body now) s = (preflight o read_body u headers body now s).1
  after (sends u index headers body now) s = (put_chunk o u index headers body now s).1
  after (commits u headers body now) s = (commit o u headers body now s).1
  after (lists headers now) s = (list o headers now s).1
  after (downloads digest_path headers now) s = (download o digest_path headers now s).1
  after (exports digest_path headers now) s = (export_snapshot o digest_path headers now s).1
  after (erases read_body new_id headers body now) s =
      (erase o read_body new_id headers body now s).1
  after (registers headers body now) s = (register o headers body now s).1
  after (queries path id headers now) s = (query o path id headers now s).1
  after (packs headers now) s = (manifest o headers now s).1
  after (fetches_receipt id headers now) s = (receipt o id headers now s).1
  after (learns epoch at) s = record s { revocation = (install epoch at s.revocation).1 }
  after (sweeps at cutoffs) s =
      (reconcile o (revoked s) (requires_entitlement o.config) at cutoffs s).1

  unfoldable pub after_all : List Call → State → State
  unfolding after
  after_all [] s = s
  after_all (call ∷ calls) s = after_all calls (after call s)

  abbrev most : ℕ
  most = o.config.maximum_retained_snapshots

  after-keeps : (call : Call) (s : State) → QuotaOfState most s → QuotaOfState most (after call s)
  unfolding after
  after-keeps (asks read_body u headers body now) s w =
      (preflight-keeps o most read_body u headers body now).at s w
  after-keeps (sends u index headers body now) s w =
      (put_chunk-keeps o most u index headers body now).at s w
  after-keeps (commits u headers body now) s w = (commit-keeps o u headers body now).at s w
  after-keeps (lists headers now) s w = (list-keeps o most headers now).at s w
  after-keeps (downloads digest_path headers now) s w =
      (download-keeps o most digest_path headers now).at s w
  after-keeps (exports digest_path headers now) s w =
      (export-keeps o most digest_path headers now).at s w
  after-keeps (erases read_body new_id headers body now) s w =
      (erase-keeps o most read_body new_id headers body now).at s w
  after-keeps (registers headers body now) s w = (register-keeps o most headers body now).at s w
  after-keeps (queries path id headers now) s w = (query-keeps o most path id headers now).at s w
  after-keeps (packs headers now) s w = (manifest-keeps o most headers now).at s w
  after-keeps (fetches_receipt id headers now) s w = (receipt-keeps o most id headers now).at s w
  after-keeps (learns epoch at) s w = w
  after-keeps (sweeps at cutoffs) s w =
      reconcile-WithinQuota o (revoked s) (requires_entitlement o.config) at cutoffs most s w

  all-keeps :
      (calls : List Call) (s : State) → QuotaOfState most s → QuotaOfState most (after_all calls s)
  unfolding after_all
  all-keeps [] s w = w
  all-keeps (call ∷ calls) s w = all-keeps calls (after call s) (after-keeps call s w)

  -- From a state with no snapshots, after any sequence of preflights, chunks, commits, lists,
  -- downloads, exports, erasures, registrations, queries, epochs and sweeps, each honoured or refused
  -- and run one after the other, no holder has more live snapshots than the configuration allows.
  pub quota_never_exceeded :
      (calls : List Call) (s : State) (handle : Text)
      → s.store.snapshots ≡ []
      → (usage handle (after_all calls s).store).0 ≤ o.config.maximum_retained_snapshots
  quota_never_exceeded calls s handle e =
      (all-keeps calls s (empty-WithinQuota most s.store e)).bounded handle
