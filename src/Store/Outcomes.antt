-- ===== src/Store/Outcomes.antt =====
-- The statements of operator/src/store.rs on `operation_outcomes`.
use onym_backup.Prelude.{Bool, not, ◌&&◌, Option, [], ◌∷◌, ◌++◌, Text, text, select, find?, eq_text}
use onym_backup.Store.Rows.{Store, OutcomeRow}

abbrev pub retained_status : Text
retained_status = text "retained"

abbrev pub erasure_status : Text
erasure_status = text "erasure_acknowledged"

-- the primary key: the id is the client's, so it is kept apart for each holder
abbrev pub is_outcome : Text → Text → OutcomeRow → Bool
is_outcome handle operation_id row =
    eq_text row.holder_handle handle && eq_text row.operation_id operation_id

-- INSERT OR REPLACE
unfoldable pub record_outcome : OutcomeRow → Store → Store
unfolding select
record_outcome row s = record s {
  operation_outcomes =
      select (λ old. not (is_outcome row.holder_handle row.operation_id old)) s.operation_outcomes
      ++ row ∷ [];
}

unfoldable pub outcome : Text → Text → Store → Option OutcomeRow
unfolding find?
outcome handle operation_id s = find? (is_outcome handle operation_id) s.operation_outcomes
