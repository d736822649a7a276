-- ===== src/Auth/Reopened.antt =====
-- The floor of the nonce sweep in operator/src/main.rs, against the whole seconds that `verify` of
-- operator/src/payload.rs compares.
use onym_backup.Prelude.{ℕ, ◌+◌, ◌*◌, ◌≤◌, ◌≡◌, true, some, Text, Bytes, arith}
use onym_backup.Prelude.Exec.{ok, is_ok}
use onym_backup.Clock.{Clock, Time, nanos_per_second, jd_lt_of_apart}
use onym_backup.Crypto.{Crypto}
use onym_backup.Config.{Config}
use onym_backup.Payload.{whole_seconds_apart}
use onym_backup.Payload.Window.{verify_later}
use onym_backup.Store.Rows.{Store}
use onym_backup.Store.Nonces.{sweep_nonces, seen-sweep_nonces}
use onym_backup.Sweep.Cutoffs.{Cutoffs, cutoffs, nonce-cutoffs}
use onym_backup.Auth.{Headers, Holder, timestamp_header, authenticate}
use onym_backup.Auth.Honoured.{authenticate-ok, record_proof-ok, authenticate_honours}

abbrev pub tenth : ℕ
tenth = 100_000_000

-- nine tenths of a second past the skew still count as the skew
apart_late :
    (later signed : Time) (skew : ℕ)
    → later.nanos ≡ signed.nanos + skew * nanos_per_second + 9 * tenth
    → whole_seconds_apart later signed ≤ skew
unfolding whole_seconds_apart
apart_late later signed skew e = omega arith

module _ (c : Clock) (x : Crypto) (config : Config) where
  -- A request that arrives skew + 0.9 s before its own timestamp is honoured; a sweep that runs
  -- between 2 * skew s + 2 ms later and skew + 0.9 s after the timestamp forgets its nonce, and the
  -- same request is honoured a second time at that last instant.
  pub replay_reopened :
      (headers : Headers) (method path : Text) (body : Bytes) (t1 t2 at signed : Time)
      (s s1 : Store) (holder : Holder) (timestamp stamp2 : Text) (cuts : Cutoffs)
      → authenticate c x headers method path body config t1 s ≡ (ok holder, s1)
      → headers timestamp_header ≡ some timestamp
      → c.parse timestamp ≡ some signed
      → signed.nanos ≡ t1.nanos + config.max_skew_secs * nanos_per_second + 9 * tenth
      → t2.nanos ≡ signed.nanos + config.max_skew_secs * nanos_per_second + 9 * tenth
      → c.format t2 ≡ some stamp2
      → cutoffs c config at ≡ some cuts
      → t1.nanos + config.max_skew_secs * 2 * nanos_per_second + 2_000_000 ≤ at.nanos
      → at.nanos ≤ t2.nanos
      → is_ok
          (authenticate c x headers method path body config t2 (sweep_nonces c cuts.nonce s1).1).0
        ≡ true
  replay_reopened headers method path body t1 t2 at signed s s1 holder timestamp stamp2 cuts
        honoured et parsed e1 e2 f2 cut late early =
      let a = authenticate-ok c x headers method path body config t1 s s1 holder honoured in
      let (floor, written, far) = nonce-cutoffs c config at cuts cut in
      let forgotten =
        seen-sweep_nonces c a.proof.handle a.proof.nonce a.stamp cuts.nonce s s1
          (record_proof-ok a.proof a.request.holder a.stamp s s1 holder a.recorded)
          (jd_lt_of_apart c t1 floor a.stamp cuts.nonce a.stamped written (omega arith)) in
      let parsed' : c.parse a.request.timestamp ≡ some signed = cc (a.from_timestamp, et, parsed) in
      authenticate_honours c x headers method path body config a.request a.signature a.proof stamp2
        t2 (sweep_nonces c cuts.nonce s1).1 a.from_holder a.from_timestamp a.from_nonce
        a.from_signature a.same_method a.same_path a.same_body
        (verify_later c x a.request a.signature t1 t2 config.max_skew_secs a.proof signed a.verified
          parsed' (apart_late t2 signed config.max_skew_secs e2))
        f2 forgotten
