-- ===== src/Tests/Auth.antt =====
-- Signed requests, their framing and their single use, at concrete inputs.
use onym_backup.Prelude.{
  none, ℕ, ◌-◌, ◌*◌, ◌≡◌, refl, true, false, some, List, [], ◌∷◌, Text, text, arith, eq_text,
  strip_prefix, any, all,
}
use onym_backup.Prelude.Exec.{Result, ok, is_ok, ◌>>=◌}
use onym_backup.Error.Detail.{detail}
use onym_backup.Error.Body.{detail_adds_only}
use onym_backup.Documents.Json.{get}
use onym_backup.Error.{snapshot_too_large, Error, retention_expired, status, is_server_error}
use onym_backup.Error.Codes.{server_error_internal}
use onym_backup.Prelude.Int.{wrap_i64}
use onym_backup.Clock.{Time, nanos_per_second}
use onym_backup.Payload.{
  Request, verify, signing_bytes, holder_key, holder_handle, whole_seconds_apart, upper,
}
use onym_backup.Payload.Framing.{FitsAll, SameSigned, signing_bytes_injective}
use onym_backup.Store.Rows.{Store, in_memory}
use onym_backup.Store.Nonces.{record_nonce, sweep_nonces, seen}
use onym_backup.Sweep.Cutoffs.{cutoffs, Cutoffs}
use onym_backup.Auth.{Headers, Holder, timestamp_header, authenticate}
use onym_backup.Auth.Replay.{Event, asked, swept, after_all, replay_refused}
use onym_backup.Auth.Reopened.{replay_reopened}
use onym_backup.Tests.Fixture.{clock, crypto, key, reference}
use onym_backup.Tests.Setting.{config, at_second, signed_headers}

-- signed 100000 s after the earliest instant
abbrev headers : Headers
headers = signed_headers (at_second 100_000) (text "n1")

abbrev path : Text
path = text "/v1/snapshots"

abbrev who : Holder
who = record { reference = reference; handle = holder_handle crypto key }

abbrev run_at : Time → Store → Result Error Holder × Store
run_at now = authenticate clock crypto headers (text "GET") path [] config now

abbrev on_time : Store
on_time = (run_at (at_second 100_000) in_memory).1

on_time_honoured : run_at (at_second 100_000) in_memory ≡ (ok who, on_time)
unfolding authenticate verify whole_seconds_apart holder_key holder_handle record_nonce seen
    in_memory ◌>>=◌ text eq_text strip_prefix all any
on_time_honoured = refl

abbrev history : List Event
history = swept (at_second 100_300) ∷ asked headers (text "GET") path [] (at_second 100_301) ∷ []

replay_refused_example :
    is_ok (run_at (at_second 100_300) (after_all clock crypto config history on_time)).0 ≡ false
replay_refused_example =
    replay_refused clock crypto config headers (text "GET") path [] (at_second 100_000)
      (at_second 100_300) in_memory on_time who history on_time_honoured (omega arith)

-- 300.9 s before the request's own timestamp
abbrev early : Time
early = record { nanos = 99_699_100_000_000; offset = 0 }

-- 300.9 s after it
abbrev late : Time
late = record { nanos = 100_300_900_000_000; offset = 0 }

abbrev between : Time
between = record { nanos = 100_299_200_000_000; offset = 0 }

abbrev at_early : Store
at_early = (run_at early in_memory).1

early_honoured : run_at early in_memory ≡ (ok who, at_early)
unfolding authenticate verify whole_seconds_apart holder_key holder_handle record_nonce seen
    in_memory ◌>>=◌ text eq_text strip_prefix all any
early_honoured = refl

abbrev back : ℕ → Text
back secs = (between.nanos - secs * nanos_per_second) ∷ 0 ∷ []

abbrev cuts : Cutoffs
cuts = record {
  now = back 0;
  nonce = back 600;
  outcome = back 21600;
  receipt = back 86400;
  erased_reference = back 86400;
  entitlement = back 900;
}

cutoffs-between : cutoffs clock config between ≡ some cuts
unfolding cutoffs wrap_i64
cutoffs-between = refl

timestamp_sent : headers timestamp_header ≡ some (100_000_000_000_000 ∷ 0 ∷ [])
unfolding text eq_text
timestamp_sent = refl

replay_reopened_example : is_ok (run_at late (sweep_nonces clock cuts.nonce at_early).1).0 ≡ true
replay_reopened_example =
    replay_reopened clock crypto config headers (text "GET") path [] early late between
      (at_second 100_000) in_memory at_early who (100_000_000_000_000 ∷ 0 ∷ [])
      (100_300_900_000_000 ∷ 0 ∷ []) cuts early_honoured timestamp_sent refl (omega arith)
      (omega arith) refl cutoffs-between (omega arith) (omega arith)

abbrev get_list : Request
get_list = record {
  method = text "get";
  path = path;
  holder = reference;
  timestamp = text "t";
  nonce = text "n";
  body = [];
}

abbrev upper_get : Request
upper_get = record get_list { method = text "GET" }

same_bytes : signing_bytes crypto get_list ≡ signing_bytes crypto upper_get
unfolding signing_bytes text upper
same_bytes = refl

get_fits : FitsAll get_list
unfolding text
get_fits = omega arith

upper_fits : FitsAll upper_get
unfolding text
upper_fits = omega arith

signing_bytes_injective_example : SameSigned crypto get_list upper_get
signing_bytes_injective_example =
    signing_bytes_injective crypto get_list upper_get get_fits upper_fits same_bytes

server_error_internal_example : is_server_error (status retention_expired) ≡ false
server_error_internal_example = server_error_internal retention_expired

detail_adds_only_example :
    (get (text "error") (detail (snapshot_too_large 7)) ≡ none)
    × (get (text "message") (detail (snapshot_too_large 7)) ≡ none)
detail_adds_only_example = detail_adds_only (snapshot_too_large 7)
