-- ===== src/Sweep/Lapsed.antt =====
-- The tables that steps (3b) to (3d) of `reconcile` in operator/src/sweep.rs may change.
use onym_backup.Prelude.{
  ◌≡◌, refl, ap, Bool, true, false, not, ◌||◌, Option, none, some, List, [], ◌∷◌, Text, eq_text,
  Bool-cases, inl, inr,
}
use onym_backup.Prelude.Each.{each-keeps}
use onym_backup.Prelude.Exec.{ok, err}
use onym_backup.Error.{Fallible}
use onym_backup.Clock.{Clock, Time}
use onym_backup.Documents.Json.{Json}
use onym_backup.Store.Rows.{Store, LapseRow, LapseState, EntitlementRow}
use onym_backup.Store.Entitlements.{
  holder_losing_entitlements, sweep_entitlements, sweep_superseded_entitlements, record_lapse_state,
  forget_lapse_state, lapsed_holders,
}
use onym_backup.Lapse.Window.{derive_lapse_state, lapse_state_at, post_grace_due}
use onym_backup.Sweep.Cutoffs.{Cutoffs}
use onym_backup.Operator.{Operator}
use onym_backup.Sweep.Records.{
  hand_over, lose_records, holders_losing_entitlements, sweep_records, adopt_state, adopt,
  adopt_unrecorded, or_nobody, unrecorded_lapsed_holders, same_state, refresh, forget_if_done,
  is_closed, close, retire, lapsed_since, settle_lapse, settle_lapses,
}
use onym_backup.Sweep.Grace.{erase_action}
use onym_backup.Sweep.Reconcile.{lapses}

-- Nothing but entitlement records and lapse states differs from `before`.
pub record Lapsed (before s : Store) : Type 0 where
  pub same :
      s
      ≡ record before { holder_entitlements = s.holder_entitlements; lapse_states = s.lapse_states }

module _ (before : Store) where
  new_records :
      (s : Store) (rows : List EntitlementRow)
      → Lapsed before s
      → Lapsed before (record s { holder_entitlements = rows })
  new_records s rows h = record {
    same = ap {A = Store} (λ t. record t { holder_entitlements = rows }) h.same;
  }

  new_states :
      (s : Store) (rows : List LapseRow)
      → Lapsed before s
      → Lapsed before (record s { lapse_states = rows })
  new_states s rows h = record {
    same = ap {A = Store} (λ t. record t { lapse_states = rows }) h.same;
  }

  recorded :
      (handle : Text) (state : LapseState) (s : Store)
      → Lapsed before s
      → Lapsed before (record_lapse_state handle state s)
  unfolding record_lapse_state
  recorded handle state s h = new_states s _ h

  forgotten :
      (handle : Text) (s : Store) → Lapsed before s → Lapsed before (forget_lapse_state handle s).1
  unfolding forget_lapse_state
  forgotten handle s h = new_states s _ h

  module _ (c : Clock) (j : Json) where
    swept :
        (handle floor : Text) (s : Store)
        → Lapsed before s
        → Lapsed before (sweep_entitlements c handle floor s).1
    unfolding sweep_entitlements
    swept handle floor s h = new_records s _ h

    superseded :
        (floor : Text) (s : Store)
        → Lapsed before s
        → Lapsed before (sweep_superseded_entitlements c floor s).1
    unfolding sweep_superseded_entitlements
    superseded floor s h = new_records s _ h

    handed :
        (floor handle : Text) (r : Fallible (Option LapseState)) (s : Store)
        → Lapsed before s
        → Lapsed before (hand_over c j floor handle r s).1
    unfolding hand_over
    handed floor handle (err e) s h = h
    handed floor handle (ok none) s h = swept handle floor s h
    handed floor handle (ok (some state)) s h = swept handle floor _ (recorded handle state s h)

    lost :
        (revoked : List Text) (floor handle : Text) (s : Store)
        → Lapsed before s
        → Lapsed before (lose_records c j revoked floor handle s).1
    unfolding lose_records
    lost revoked floor handle s h =
        elim (Bool-cases (holder_losing_entitlements c handle floor s)) [
          | inl e ↦ rw e (handed floor handle (derive_lapse_state c j s handle revoked) s h)
          | inr e ↦ rw e h
        ]

    pub sweep_records-Lapsed :
        (revoked : List Text) (floor : Text) (s : Store)
        → Lapsed before s
        → Lapsed before (sweep_records c j revoked floor s).1
    unfolding sweep_records
    sweep_records-Lapsed revoked floor s h = superseded floor _ (
        each-keeps (Lapsed before) (lose_records c j revoked floor) (lost revoked floor)
          (holders_losing_entitlements c floor s) s h)

    adopted_state :
        (handle : Text) (r : Fallible (Option LapseState)) (s : Store)
        → Lapsed before s
        → Lapsed before (adopt_state c j handle r s)
    unfolding adopt_state
    adopted_state handle (err e) s h = h
    adopted_state handle (ok none) s h = h
    adopted_state handle (ok (some state)) s h = recorded handle state s h

    adopted :
        (now_at : Time) (handle : Text) (s : Store)
        → Lapsed before s
        → Lapsed before (adopt c j now_at handle s).1
    unfolding adopt
    adopted now_at handle s h = adopted_state handle (lapse_state_at c j s handle now_at) s h

    pub adopt_unrecorded-Lapsed :
        (charges : Bool) (revoked : List Text) (now_at : Time) (s : Store)
        → Lapsed before s
        → Lapsed before (adopt_unrecorded c j charges revoked now_at s)
    unfolding adopt_unrecorded
    adopt_unrecorded-Lapsed false revoked now_at s h = h
    adopt_unrecorded-Lapsed true revoked now_at s h =
        each-keeps (Lapsed before) (adopt c j now_at) (adopted now_at)
          (or_nobody c j (unrecorded_lapsed_holders c j revoked s)) s h

    refreshed :
        (handle : Text) (stored fresh : LapseState) (s : Store)
        → Lapsed before s
        → Lapsed before (refresh c j handle stored fresh s)
    unfolding refresh
    refreshed handle stored fresh s h = elim (Bool-cases (same_state c j fresh stored)) [
      | inl e ↦ rw e h
      | inr e ↦ rw e (recorded handle fresh s h)
    ]

    done :
        (handle : Text) (r : Fallible (List (Text × Text))) (s : Store)
        → Lapsed before s
        → Lapsed before (forget_if_done c j handle r s).1
    unfolding forget_if_done
    done handle (err e) s h = h
    done handle (ok []) s h = forgotten handle s h
    done handle (ok (x ∷ xs)) s h = h

    closed :
        (revoked : List Text) (now_at : Time) (handle : Text) (fresh : LapseState) (s : Store)
        → Lapsed before s
        → Lapsed before (close c j revoked now_at handle fresh s).1
    unfolding close
    closed revoked now_at handle fresh s h =
        elim (Bool-cases (
          not (is_closed c j now_at fresh.grace_expires_at)
          || not (eq_text fresh.post_grace_action erase_action))) [
            | inl e ↦ rw e h
            | inr e ↦ rw e (done handle (post_grace_due c j s handle revoked now_at) s h)
          ]

    retired :
        (revoked : List Text) (now_at : Time) (row : LapseRow) (r : Fallible (Option LapseState))
        (s : Store)
        → Lapsed before s
        → Lapsed before (retire c j revoked now_at row r s).1
    unfolding retire
    retired revoked now_at row (err e) s h = h
    retired revoked now_at row (ok none) s h = forgotten row.holder_handle s h
    retired revoked now_at row (ok (some fresh)) s h =
        closed revoked now_at row.holder_handle fresh _
          (refreshed row.holder_handle row.state fresh s h)

    settled :
        (revoked : List Text) (now_at : Time) (row : LapseRow) (s : Store)
        → Lapsed before s
        → Lapsed before (settle_lapse c j revoked now_at row s).1
    unfolding settle_lapse
    settled revoked now_at row s h =
        retired revoked now_at row
          (lapse_state_at c j s row.holder_handle (lapsed_since c j now_at row.state.lapsed_at)) s h

    pub settle_lapses-Lapsed :
        (revoked : List Text) (now_at : Time) (s : Store)
        → Lapsed before s
        → Lapsed before (settle_lapses c j revoked now_at s).1
    unfolding settle_lapses
    settle_lapses-Lapsed revoked now_at s h =
        each-keeps (Lapsed before) (settle_lapse c j revoked now_at) (settled revoked now_at)
          (lapsed_holders s) s h

pub lapses-Lapsed :
    (o : Operator) (revoked : List Text) (charges : Bool) (now_at : Time) (cutoffs : Cutoffs)
    (s : Store)
    → Lapsed s (lapses o revoked charges now_at cutoffs s).1
unfolding lapses
lapses-Lapsed o revoked charges now_at cutoffs s =
    settle_lapses-Lapsed s o.clock o.json revoked now_at _ (
      adopt_unrecorded-Lapsed s o.clock o.json charges revoked now_at _ (
        sweep_records-Lapsed s o.clock o.json revoked cutoffs.entitlement s
          (record { same = refl })))
