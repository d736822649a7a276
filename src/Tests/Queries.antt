-- ===== src/Tests/Queries.antt =====
-- Offers of epochs and a query for an outcome, at concrete inputs.
use onym_backup.Prelude.{
  ℕ, ◌≡◌, refl, none, some, List, [], ◌∷◌, text, All, eq_text, any, all, find?, strip_prefix,
}
use onym_backup.Prelude.Int.{pos}
use onym_backup.Prelude.Exec.{Result, ok, ◌>>=◌}
use onym_backup.Error.{Error}
use onym_backup.Clock.{Time}
use onym_backup.Payload.{verify, whole_seconds_apart, holder_key, holder_handle}
use onym_backup.Store.Rows.{OutcomeRow, in_memory}
use onym_backup.Store.Outcomes.{outcome, retained_status}
use onym_backup.Store.Nonces.{record_nonce, seen}
use onym_backup.Operator.{State, Epoch, on_store}
use onym_backup.Auth.{Headers, Holder, authenticate}
use onym_backup.Config.{requires_entitlement}
use onym_backup.Lapse.Access.{require}
use onym_backup.Operations.{query}
use onym_backup.Operations.Scoped.{query_scoped}
use onym_backup.Revocation.Newest.{AtLeast, install_all, install_newest}
use onym_backup.Tests.Fixture.{clock, crypto, key}
use onym_backup.Tests.Setting.{config, operator, at_second, signed_headers}

abbrev epoch : ℕ → Epoch
epoch n = record { epoch = pos n; published_at = at_second n; revoked = []; raw = [] }

abbrev offers : List (Epoch × Time)
offers = (epoch 3, at_second 1) ∷ (epoch 5, at_second 2) ∷ (epoch 4, at_second 3) ∷ []

install_newest_example : All (λ offer. AtLeast offer.0.epoch (install_all offers none)) offers
install_newest_example = install_newest offers none

abbrev recorded : OutcomeRow
recorded = record {
  operation_id = text "op1";
  holder_handle = holder_handle crypto key;
  subject = text "sha256:d";
  status = retained_status;
  receipt_ids = none;
  recorded_at = text "then";
}

abbrev answered : State
answered = record {
  store = record in_memory { operation_outcomes = recorded ∷ [] };
  blobs = record { incoming = []; retained = [] };
  revocation = none;
}

abbrev headers : Headers
headers = signed_headers (at_second 100_000) (text "n1")

abbrev run : Result Error OutcomeRow × State
run = query operator (text "/v1/operations/op1") (text "op1") headers (at_second 100_000) answered

run_returns : run ≡ (ok recorded, run.1)
unfolding query authenticate verify whole_seconds_apart holder_key holder_handle in_memory ◌>>=◌
    text eq_text strip_prefix all any on_store record_nonce seen require requires_entitlement
    outcome find?
run_returns = refl

query_scoped_example :
    (holder : Holder) × (u : State) × (on_store
        (authenticate clock crypto headers
          (text "GET")
          (text "/v1/operations/op1")
          []
          config
          (at_second 100_000))
        answered
      ≡ (ok holder, u))
    × (outcome holder.handle (text "op1") answered.store ≡ some recorded)
    × (recorded.holder_handle ≡ holder.handle)
    × (recorded.operation_id ≡ text "op1")
query_scoped_example =
    query_scoped operator (text "/v1/operations/op1") (text "op1") headers (at_second 100_000)
      answered run.1 recorded run_returns
