-- ===== src/Tests/Erase.antt =====
-- A request for an erasure that is acknowledged and one that fails, at concrete inputs.
use onym_backup.Prelude.{
  ◌≡◌, refl, false, none, some, List, [], ◌∷◌, ◌++◌, ℕ, Option, Text, Bytes, text, eq_text,
  if◌then◌else◌, strip_prefix, all, any, select, find?, trim, strip_suffix,
}
use onym_backup.Prelude.Decimal.{parse_digits}
use onym_backup.Prelude.Sort.{sorted_set}
use onym_backup.Config.{requires_entitlement}
use onym_backup.Lapse.Access.{require}
use onym_backup.Store.Nonces.{record_nonce, seen}
use onym_backup.Store.Terms.{terms_document}
use onym_backup.Store.Erasures.{commit_erasure}
use onym_backup.Documents.Sign.{sign_receipt}
use onym_backup.Documents.Canonical.{canonical_bytes, write_canonical}
use onym_backup.Erasures.Days.{iso8601_days}
use onym_backup.Erasures.Compose.{compose}
use onym_backup.Erasures.Mint.{hex_of_all}
use onym_backup.Prelude.Exec.{Result, ok, is_ok, ◌>>=◌}
use onym_backup.Error.{Error}
use onym_backup.Payload.{holder_handle, verify, whole_seconds_apart, holder_key}
use onym_backup.Blobs.Digest.{digest_hex}
use onym_backup.Documents.Json.{Value, string, object, end, field, get, get_field}
use onym_backup.Store.Rows.{Store, UploadRow, in_memory}
use onym_backup.Store.Snapshots.{retain, update, snapshots_in_scope, snapshots, listed, order_desc}
use onym_backup.Operator.{Operator, State, on_store}
use onym_backup.Auth.{Headers, Holder, authenticate}
use onym_backup.Erasures.Erase.{EraseRequest, erase, decide}
use onym_backup.Erasures.Undecided.{erase_undecided, KeptState}
use onym_backup.Erasures.Decided.{erase_decided, ScopeErased}
use onym_backup.Tests.Fixture.{clock, crypto, key, zeros, hex}
use onym_backup.Tests.Setting.{config, operator, at_second, signed_headers}
use onym_backup.Tests.Data.{row}

abbrev terms : Value
terms = object (
    field (text "erasure")
      (object (
        field (text "excluded") (string (text "copies")) (
          field (text "scope") (string (text "bytes"))
            (field (text "completionDeadline") (string (text "P30D")) end))))
      end)

abbrev signed : Value
signed = string (text "signed")

abbrev read : Bytes → Option Value
read b = if eq_text b (9 ∷ []) then some terms else some signed

abbrev eraser : Operator
eraser = record operator { json = record { from_slice = read; to_vec = λ v. 8 ∷ [] } }

abbrev digest : Text
digest = text "sha256:" ++ hex (zeros 32)

abbrev upload : UploadRow
upload = record row { digest = digest; holder_handle = holder_handle crypto key }

abbrev unpinned : Store
unpinned = retain upload (text "now") in_memory

abbrev pub pinned : Store
pinned = record unpinned {
  terms_documents =
      record { terms_id = text "t"; raw = 9 ∷ []; signature = []; first_seen = text "then" } ∷ [];
}

abbrev pub holding : Store → State
holding s = record { store = s; blobs = record { incoming = []; retained = [] }; revocation = none }

abbrev all_of_it : EraseRequest
all_of_it = record { operation_id = text "op2"; scope = text "all" }

abbrev read_request : Bytes → Option EraseRequest
read_request b = some all_of_it

abbrev ids : ℕ → Text
ids n = n ∷ []

abbrev headers : Headers
headers = signed_headers (at_second 100_000) (text "n1")

abbrev run : Store → Result Error (List Value) × State
run s = erase eraser read_request ids headers [] (at_second 100_000) (holding s)

run_returns : run pinned ≡ (ok (signed ∷ []), (run pinned).1)
unfolding erase ◌>>=◌ on_store authenticate eq_text text verify whole_seconds_apart holder_key
    holder_handle strip_prefix all record_nonce seen retain in_memory require requires_entitlement
    trim decide any select update snapshots_in_scope snapshots listed order_desc sorted_set compose
    iso8601_days sign_receipt canonical_bytes commit_erasure hex_of_all digest_hex terms_document
    find? get get_field strip_suffix parse_digits write_canonical
run_returns = refl

erase_decided_example :
    (holder : Holder) × (u : State) × (request : EraseRequest) × (on_store
        (authenticate clock crypto headers
          (text "POST")
          (text "/v1/erasures")
          []
          config
          (at_second 100_000))
        (holding pinned)
      ≡ (ok holder, u))
    × (read_request [] ≡ some request)
    × ScopeErased holder.handle request pinned (run pinned).1.store
erase_decided_example =
    erase_decided eraser ids read_request headers [] (at_second 100_000) (holding pinned)
      (run pinned).1 (signed ∷ []) run_returns

run_fails : is_ok (run unpinned).0 ≡ false
unfolding erase ◌>>=◌ on_store authenticate eq_text text verify whole_seconds_apart holder_key
    holder_handle strip_prefix all record_nonce seen retain in_memory require requires_entitlement
    trim decide any select update snapshots_in_scope snapshots listed order_desc sorted_set compose
    iso8601_days sign_receipt canonical_bytes commit_erasure hex_of_all digest_hex terms_document
    find? get get_field
run_fails = refl

erase_undecided_example : KeptState (holding unpinned) (run unpinned).1
unfolding retain in_memory digest_hex strip_prefix text all
erase_undecided_example =
    erase_undecided eraser ids (holding unpinned) read_request headers [] (at_second 100_000)
      (refl, tt) run_fails
