-- ===== src/Tests/Export.antt =====
-- An export manifest that is served, at a concrete input.
use onym_backup.Prelude.{◌≡◌, refl, [], ◌∷◌, Text, text, eq_text, any, all, strip_prefix}
use onym_backup.Prelude.Exec.{Result, ok, ◌>>=◌}
use onym_backup.Error.{Error}
use onym_backup.Payload.{holder_handle, verify, whole_seconds_apart, holder_key}
use onym_backup.Store.Nonces.{record_nonce, seen}
use onym_backup.Store.Rows.{in_memory}
use onym_backup.Store.Snapshots.{retain, snapshots, listed}
use onym_backup.Store.Receipts.{receipts}
use onym_backup.Store.Erasures.{receipt_terms_ids}
use onym_backup.Operator.{State, on_store}
use onym_backup.Auth.{Headers, Holder, authenticate}
use onym_backup.Export.Container.{Container, manifest, container}
use onym_backup.Export.Carried.{pins, manifest_carries}
use onym_backup.Tests.Fixture.{clock, crypto, key}
use onym_backup.Tests.Setting.{config, operator, at_second, signed_headers}
use onym_backup.Tests.Erase.{pinned, holding}

abbrev headers : Headers
headers = signed_headers (at_second 100_000) (text "n1")

abbrev run : Result Error Container × State
run = manifest operator headers (at_second 100_000) (holding pinned)

abbrev served : Container
served =
    container operator (snapshots clock (holder_handle crypto key) pinned) [] []
      ((at_second 100_000).nanos ∷ 0 ∷ [])

run_returns : run ≡ (ok served, run.1)
unfolding manifest ◌>>=◌ on_store authenticate eq_text text verify whole_seconds_apart holder_key
    strip_prefix all record_nonce seen retain in_memory snapshots receipts receipt_terms_ids listed
run_returns = refl

manifest_carries_example :
    (holder : Holder) × (u : State) × (on_store
        (authenticate clock crypto headers
          (text "GET")
          (text "/v1/exports")
          []
          config
          (at_second 100_000))
        (holding pinned)
      ≡ (ok holder, u))
    × ((id : Text) → any (λ e. eq_text e.terms_id id) served.terms ≡ pins holder.handle id u.store)
manifest_carries_example =
    manifest_carries operator headers (at_second 100_000) (holding pinned) run.1 served run_returns
