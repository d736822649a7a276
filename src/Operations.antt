-- ===== src/Operations.antt =====
-- operator/src/operations.rs: the outcome of an operation whose response was lost.
pub mod Scoped
use onym_backup.Prelude.{Option, List, [], Text, text}
use onym_backup.Prelude.Exec.{ok, Exec, pure, gets, or_fail, ◌>>=◌, ◌>>◌}
use onym_backup.Error.{Error, not_found, Resource}
use onym_backup.Clock.{Time}
use onym_backup.Store.Rows.{OutcomeRow}
use onym_backup.Store.Outcomes.{outcome}
use onym_backup.Operator.{Operator, State, on_store, revoked}
use onym_backup.Auth.{Headers, authenticate}
use onym_backup.Lapse.Access.{require, Operation}

module _ (o : Operator) where
  open o use {clock, crypto, config}

  -- `path` is the target that was signed, before percent-decoding gave `operation_id`. The reply is
  -- the row; its JSON names the subject a scope or a digest by the status.
  unfoldable pub query : Text → Text → Headers → Time → Exec Error State OutcomeRow
  query path operation_id headers now = do
    holder ← on_store (authenticate clock crypto headers (text "GET") path [] config now)
    gone ← gets revoked
    on_store (require o holder headers gone Operation.reconcile now)
    found ← gets (λ s. outcome holder.handle operation_id s.store)
    or_fail found (not_found Resource.operation)
