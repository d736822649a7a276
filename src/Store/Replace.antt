-- ===== src/Store/Replace.antt =====
-- The outcome table as a map from a holder and the id that the holder chose.
use onym_backup.Prelude.{
  ◌≡◌, refl, not, some, List, [], ◌∷◌, ◌++◌, Text, arith, if◌then◌else◌, select, find?, eq_text_iff,
  Bool-cases, inl, inr,
}
use onym_backup.Store.Rows.{Store, OutcomeRow}
use onym_backup.Store.Outcomes.{is_outcome, record_outcome, outcome}

find-replaced :
    (row : OutcomeRow) (handle id : Text) (rows : List OutcomeRow)
    → find?
        (is_outcome handle id)
        (select (λ old. not (is_outcome row.holder_handle row.operation_id old)) rows ++ row ∷ [])
      ≡ (if is_outcome handle id row then some row else find? (is_outcome handle id) rows)
unfolding find? select
find-replaced row handle id [] = refl
find-replaced row handle id (old ∷ rows) =
    elim (Bool-cases (is_outcome row.holder_handle row.operation_id old)) [
      | inl e ↦ rw e (
          ground (
            arith,
            find-replaced row handle id rows,
            eq_text_iff old.holder_handle row.holder_handle,
            eq_text_iff old.operation_id row.operation_id,
          ))
      | inr e ↦ rw e (
          ground (
            arith,
            find-replaced row handle id rows,
            eq_text_iff old.holder_handle handle,
            eq_text_iff row.holder_handle handle,
            eq_text_iff old.operation_id id,
            eq_text_iff row.operation_id id,
            eq_text_iff old.holder_handle row.holder_handle,
            eq_text_iff old.operation_id row.operation_id,
          ))
    ]

-- After an outcome is recorded, a question under the same holder and operation id gives that
-- outcome, and every other question gives what it gave before.
pub outcome-record_outcome :
    (row : OutcomeRow) (handle id : Text) (s : Store)
    → outcome handle id (record_outcome row s)
      ≡ (if is_outcome handle id row then some row else outcome handle id s)
unfolding outcome record_outcome
outcome-record_outcome row handle id s = find-replaced row handle id s.operation_outcomes
