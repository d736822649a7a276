-- ===== src/Operations/Scoped.antt =====
-- Whose outcome a query of operator/src/operations.rs may read.
use onym_backup.Prelude.{
  ◌≡◌, refl, sym, subst, ◌∙◌, some, List, [], ◌∷◌, Text, text, arith, find?, eq_text_iff,
  Bool-cases, inl, inr,
}
use onym_backup.Prelude.Exec.{ok, Exec, >>=-ok, gets-ok, or_fail_last}
use onym_backup.Prelude.Exec.Preserves.{Preserves}
use onym_backup.Error.{Error}
use onym_backup.Store.Nonces.{record_nonce, seen}
use onym_backup.Store.Entitlements.{insert_entitlement, forget_lapse_state}
use onym_backup.Auth.Honoured.{authenticate-Preserves}
use onym_backup.Lapse.Access.{Operation, require}
use onym_backup.Lapse.Keeps.{require-Preserves}
use onym_backup.Clock.{Time}
use onym_backup.Store.Rows.{Store, OutcomeRow, EntitlementRow}
use onym_backup.Store.Outcomes.{outcome, is_outcome}
use onym_backup.Operator.{Operator, State, on_store, revoked}
use onym_backup.Auth.{Headers, Holder, authenticate}
use onym_backup.Operations.{query}

found_key :
    (handle id : Text) (rows : List OutcomeRow) (row : OutcomeRow)
    → find? (is_outcome handle id) rows ≡ some row
    → (row.holder_handle ≡ handle) × (row.operation_id ≡ id)
unfolding find?
found_key handle id [] row h = cc
found_key handle id (x ∷ rows) row h = ground (
  arith,
  eq_text_iff x.holder_handle handle,
  eq_text_iff x.operation_id id,
  found_key handle id rows row,
)

outcome_key :
    (handle id : Text) (s : Store) (row : OutcomeRow)
    → outcome handle id s ≡ some row
    → (row.holder_handle ≡ handle) × (row.operation_id ≡ id)
unfolding outcome
outcome_key handle id s row h = found_key handle id s.operation_outcomes row h

-- The outcomes of an operation are read, not written, by what comes before the lookup.
module _ (handle id : Text) (before : Store) where
  abbrev Same : Store → Type 0
  Same s = outcome handle id s ≡ outcome handle id before

  nonce-Same : (h n at : Text) (s : Store) → Same s → Same (record_nonce h n at s).1
  unfolding record_nonce outcome
  nonce-Same h n at s e = elim (Bool-cases (seen s.seen_nonces h n)) [
    | inl new ↦ rw new e
    | inr new ↦ rw new e
  ]

  insert-Same : (row : EntitlementRow) (s : Store) → Same s → Same (insert_entitlement row s)
  unfolding insert_entitlement outcome
  insert-Same row s e = e

  forget-Same : (h : Text) (s : Store) → Same s → Same (forget_lapse_state h s).1
  unfolding forget_lapse_state outcome
  forget-Same h s e = e

  lifted :
      {A : Type 0} (m : Exec Error Store A) (s : State)
      → Preserves Same m
      → Same s.store
      → Same (on_store m s).1.store
  unfolding on_store
  lifted m s k e = k.at s.store e

module _ (o : Operator) where
  open o use {clock, crypto, config}

  unchanged :
      (holder : Holder) (path operation_id : Text) (headers : Headers) (now : Time) (s u v : State)
      → on_store (authenticate clock crypto headers (text "GET") path [] config now) s
        ≡ (ok holder, u)
      → on_store (require o holder headers (revoked u) Operation.reconcile now) u ≡ (ok tt, v)
      → outcome holder.handle operation_id v.store ≡ outcome holder.handle operation_id s.store
  unchanged holder path operation_id headers now s u v e f =
      let same = Same holder.handle operation_id s.store in
      let at_u =
        subst (λ r. same r.1.store) e
          (lifted holder.handle operation_id s.store _ s
            (authenticate-Preserves clock crypto headers (text "GET") path [] config same now
              (nonce-Same holder.handle operation_id s.store))
            refl) in
      subst (λ r. same r.1.store) f
        (lifted holder.handle operation_id s.store _ u
          (require-Preserves o same (insert-Same holder.handle operation_id s.store)
            (forget-Same holder.handle operation_id s.store) holder headers (revoked u)
            Operation.reconcile now)
          at_u)

  -- A query that is answered was signed by a holder, and the outcome that it gives is the one in
  -- the tables under that holder's own handle and the operation id asked for.
  pub query_scoped :
      (path operation_id : Text) (headers : Headers) (now : Time) (s t : State) (row : OutcomeRow)
      → query o path operation_id headers now s ≡ (ok row, t)
      → (holder : Holder) × (u : State) × (on_store
            (authenticate clock crypto headers (text "GET") path [] config now)
            s
          ≡ (ok holder, u))
        × (outcome holder.handle operation_id s.store ≡ some row)
        × (row.holder_handle ≡ holder.handle)
        × (row.operation_id ≡ operation_id)
  unfolding query
  query_scoped path operation_id headers now s t row h =
      let (holder, u, e, h1) = >>=-ok _ _ s t row h in
      let (_, v, f, h2) = >>=-ok _ _ u t row (gets-ok _ _ u t row h1) in
      let (found, _) = or_fail_last _ _ v t row (gets-ok _ _ v t row h2) in
      let kept = unchanged holder path operation_id headers now s u v e f in
      let (handles, ids) = outcome_key holder.handle operation_id v.store row found in
      (holder, u, e, sym kept ∙ found, handles, ids)
