-- ===== src/Lapse/Window.antt =====
-- The grace window of operator/src/lapse.rs: `EndOfPayment`, `end_of_payment`, the horizons, and what
-- is due or promised at an instant.
use onym_backup.Prelude.{
  ℕ, ◌+◌, ◌^◌, Option, none, some, List, [], ◌∷◌, Text, text, ltb, leb, if◌then◌else◌,
}
use onym_backup.Prelude.Exec.{ok}
use onym_backup.Prelude.Results.{◌>>=◌, ok_or}
use onym_backup.Error.{Fallible, internal}
use onym_backup.Clock.{Clock, Time}
use onym_backup.Documents.Json.{Json, Value, get, as_str, string_items}
use onym_backup.Documents.Duration.{duration_seconds}
use onym_backup.Store.Rows.{Store, SnapshotRow, TermsRow, LapseState}
use onym_backup.Store.Snapshots.{snapshots}
use onym_backup.Store.Entitlements.{entitlement_horizon, lapse_state, EntitlementHorizon}
use onym_backup.Store.Terms.{terms_document}

pub record EndOfPayment : Type 0 where
  pub notice_secs : ℕ
  pub grace_secs : ℕ
  pub during_grace : List Text
  pub after_grace : Text

-- both durations readable, or no clause
clause_of : Value → Option ℕ → Option ℕ → Option EndOfPayment
clause_of clause (some notice) (some grace) = some (record {
  notice_secs = notice;
  grace_secs = grace;
  during_grace = string_items (get (text "duringGrace") clause);
  after_grace = elim (as_str (get (text "afterGrace") clause)) [ none ↦ text "erase" | some t ↦ t ];
})
clause_of clause _ _ = none

duration_at : Value → Text → Option ℕ
duration_at clause key = elim (as_str (get key clause)) [
  | none ↦ none
  | some t ↦ duration_seconds t
]

unfoldable pub read_clause : Value → Option EndOfPayment
unfolding clause_of duration_at
read_clause document = elim (get (text "endOfPayment") document) [
  | none ↦ none
  | some clause ↦
      clause_of clause (duration_at clause (text "notice")) (duration_at clause (text "grace"))
]

module _ (c : Clock) (j : Json) where
  -- `checked_add` of the two periods, then of the sum to the lapse
  unfoldable pub window_end : EndOfPayment → Time → Option Time
  window_end clause lapsed_at =
      if ltb (clause.notice_secs + clause.grace_secs) (2 ^ 63)
      then c.checked_add lapsed_at (clause.notice_secs + clause.grace_secs)
      else none

  -- the stored terms, read
  terms_clause : Option TermsRow → Fallible (Option EndOfPayment)
  terms_clause none = ok none
  terms_clause (some row) =
      ok_or (j.from_slice row.raw) (internal "stored terms are not JSON") >>= λ document.
      ok (read_clause document)

  unfoldable pub end_of_payment : Store → Text → Fallible (Option EndOfPayment)
  unfolding terms_clause
  end_of_payment s terms_id = terms_clause (terms_document terms_id s)

  -- The clause of a snapshot with the end of its window; `none` is every `continue` of the loops.
  windowed : Time → Option EndOfPayment → Option (EndOfPayment × Time)
  windowed lapsed_at none = none
  windowed lapsed_at (some clause) = elim (window_end clause lapsed_at) [
    | none ↦ none
    | some ends ↦ some (clause, ends)
  ]

  unfoldable pub window_of : Store → Time → SnapshotRow → Fallible (Option (EndOfPayment × Time))
  unfolding windowed window_end
  window_of s lapsed_at row =
      end_of_payment s row.accepted_terms_id >>= λ clause. ok (windowed lapsed_at clause)

  -- the horizon's text: the records' if there are any, else the derived state's
  horizon_text : Option EntitlementHorizon → Option LapseState → Option Text
  horizon_text (some horizon) state = some horizon.lifecycle
  horizon_text none (some state) = some state.lapsed_at
  horizon_text none none = none

  parse_horizon : Option Text → Fallible (Option Time)
  parse_horizon none = ok none
  parse_horizon (some t) =
      ok_or (c.parse t) (internal "stored lapse horizon") >>= λ at. ok (some at)

  unfoldable pub lifecycle_horizon : Store → Text → List Text → Fallible (Option Time)
  unfolding horizon_text parse_horizon
  lifecycle_horizon s handle revoked =
      parse_horizon (horizon_text (entitlement_horizon c handle revoked s) (lapse_state handle s))

  -- What `post_grace_due` pushes for one snapshot.
  unfoldable pub due_entry :
      Time → SnapshotRow → Option (EndOfPayment × Time) → List (Text × Text) → List (Text × Text)
  due_entry now row none rest = rest
  due_entry now row (some (clause, ends)) rest =
      if leb ends.nanos now.nanos then (row.digest, clause.after_grace) ∷ rest else rest

  unfoldable pub due_loop : Store → Time → Time → List SnapshotRow → Fallible (List (Text × Text))
  unfolding due_entry window_of
  due_loop s lapsed_at now [] = ok []
  due_loop s lapsed_at now (row ∷ rows) =
      let later = due_loop s lapsed_at now rows in
      window_of s lapsed_at row >>= λ window. later >>= λ rest. ok (due_entry now row window rest)

  due_since : Store → Text → Time → Option Time → Fallible (List (Text × Text))
  unfolding due_loop
  due_since s handle now none = ok []
  due_since s handle now (some lapsed_at) =
      if ltb now.nanos lapsed_at.nanos
      then ok []
      else due_loop s lapsed_at now (snapshots c handle s)

  unfoldable pub post_grace_due : Store → Text → List Text → Time → Fallible (List (Text × Text))
  unfolding due_since lifecycle_horizon
  post_grace_due s handle revoked now =
      lifecycle_horizon s handle revoked >>= λ horizon. due_since s handle now horizon

  -- the window that ends last; the first of two equal ones stays
  keep_latest : Option (EndOfPayment × Time) → Option (Time × Text) → Option (Time × Text)
  keep_latest none latest = latest
  keep_latest (some (clause, ends)) none = some (ends, clause.after_grace)
  keep_latest (some (clause, ends)) (some (held, action)) =
      if ltb held.nanos ends.nanos then some (ends, clause.after_grace) else some (held, action)

  unfoldable pub latest_loop :
      Store → Time → List SnapshotRow → Option (Time × Text) → Fallible (Option (Time × Text))
  unfolding keep_latest window_of
  latest_loop s lapsed_at [] latest = ok latest
  latest_loop s lapsed_at (row ∷ rows) latest = window_of s lapsed_at row >>= λ window.
      latest_loop s lapsed_at rows (keep_latest window latest)

  state_from : Time → Option (Time × Text) → Fallible (Option LapseState)
  state_from lapsed_at none = ok none
  state_from lapsed_at (some (ends, after_grace)) =
      ok_or (c.format lapsed_at) (internal "format timestamp") >>= λ lapsed_text.
      ok_or (c.format ends) (internal "format timestamp") >>= λ ends_text. ok (
        some (record {
          lapsed_at = lapsed_text;
          grace_expires_at = ends_text;
          post_grace_action = after_grace;
        }))

  unfoldable pub lapse_state_at : Store → Text → Time → Fallible (Option LapseState)
  unfolding latest_loop state_from
  lapse_state_at s handle lapsed_at =
      latest_loop s lapsed_at (snapshots c handle s) none >>= λ latest. state_from lapsed_at latest

  derive_from : Store → Text → Option Time → Fallible (Option LapseState)
  unfolding lapse_state_at
  derive_from s handle none = ok none
  derive_from s handle (some lapsed_at) = lapse_state_at s handle lapsed_at

  unfoldable pub derive_lapse_state : Store → Text → List Text → Fallible (Option LapseState)
  unfolding derive_from lifecycle_horizon
  derive_lapse_state s handle revoked =
      lifecycle_horizon s handle revoked >>= λ horizon. derive_from s handle horizon
