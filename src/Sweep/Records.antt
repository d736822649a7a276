-- ===== src/Sweep/Records.antt =====
-- Steps (3b) to (3d) of `reconcile` in operator/src/sweep.rs: entitlement records past their bound, and
-- the derived lapse state that takes over from them.
use onym_backup.Prelude.{
  ℕ, ◌+◌, Bool, false, not, ◌&&◌, ◌||◌, Option, none, some, List, [], ◌∷◌, map, Text, leb,
  if◌then◌else◌, any, eq_text, is_some, is_none, select,
}
use onym_backup.Prelude.Each.{each}
use onym_backup.Prelude.Exec.{ok, err}
use onym_backup.Prelude.Results.{◌>>=◌}
use onym_backup.Error.{Fallible}
use onym_backup.Clock.{Clock, Time}
use onym_backup.Documents.Json.{Json}
use onym_backup.Store.Rows.{Store, EntitlementRow, LapseRow, LapseState}
use onym_backup.Store.Snapshots.{holders_with_snapshots, distinct}
use onym_backup.Store.Entitlements.{
  is_entitled, is_current, holder_losing_entitlements, sweep_entitlements,
  sweep_superseded_entitlements, record_lapse_state, forget_lapse_state, lapsed_holders,
}
use onym_backup.Lapse.Window.{derive_lapse_state, lapse_state_at, lifecycle_horizon, post_grace_due}
use onym_backup.Sweep.Grace.{erase_action}

module _ (c : Clock) where
  -- `MAX(julianday(expires_at)) < julianday(floor)`: `MAX` passes over NULL, and is NULL of nothing else
  all_below : Text → List EntitlementRow → Text → Bool
  unfolding any is_current
  all_below floor rows handle =
      any (λ row. is_entitled handle row && is_some (c.julianday row.expires_at)) rows
      && (is_some (c.julianday floor)
          && not (any (λ row. is_entitled handle row && is_current c floor row) rows))

  -- GROUP BY holder; the groups come in no particular order
  unfoldable pub holders_losing_entitlements : Text → Store → List Text
  unfolding select distinct all_below
  holders_losing_entitlements floor s =
      select (all_below floor s.holder_entitlements)
        (distinct [] (map (λ row. row.holder_handle) s.holder_entitlements))

module _ (c : Clock) (j : Json) where
  -- the state derived goes in before the records go out; without one there is nothing to keep
  unfoldable pub hand_over : Text → Text → Fallible (Option LapseState) → Store → ℕ × Store
  unfolding sweep_entitlements record_lapse_state
  hand_over floor handle (err e) s = (0, s)
  hand_over floor handle (ok none) s = sweep_entitlements c handle floor s
  hand_over floor handle (ok (some state)) s =
      sweep_entitlements c handle floor (record_lapse_state handle state s)

  -- The list may be stale, so the holder is checked again.
  unfoldable pub lose_records : List Text → Text → Text → Store → ℕ × Store
  unfolding hand_over holder_losing_entitlements
  lose_records revoked floor handle s =
      if holder_losing_entitlements c handle floor s
      then hand_over floor handle (derive_lapse_state c j s handle revoked) s
      else (0, s)

  unfoldable pub sweep_records : List Text → Text → Store → ℕ × Store
  unfolding lose_records each
  sweep_records revoked floor s =
      let lost = each (lose_records revoked floor) (holders_losing_entitlements c floor s) s in
      let superseded = sweep_superseded_entitlements c floor lost.1 in
      (lost.0 + superseded.0, superseded.1)

  unrecorded : List Text → List Text → Store → Fallible (List Text)
  unrecorded [] revoked s = ok []
  unrecorded (handle ∷ handles) revoked s =
      let rest = unrecorded handles revoked s in
      lifecycle_horizon c j s handle revoked >>= λ horizon.
      rest >>= λ later. ok (if is_none horizon then handle ∷ later else later)

  unfoldable pub unrecorded_lapsed_holders : List Text → Store → Fallible (List Text)
  unfolding unrecorded
  unrecorded_lapsed_holders revoked s = unrecorded (holders_with_snapshots s) revoked s

  unfoldable pub adopt_state : Text → Fallible (Option LapseState) → Store → Store
  unfolding record_lapse_state
  adopt_state handle (ok (some state)) s = record_lapse_state handle state s
  adopt_state handle (ok none) s = s
  adopt_state handle (err e) s = s

  -- the lapse of a holder of whom nothing tells it begins now
  unfoldable pub adopt : Time → Text → Store → ℕ × Store
  unfolding adopt_state lapse_state_at
  adopt now_at handle s = (0, adopt_state handle (lapse_state_at c j s handle now_at) s)

  unfoldable pub or_nobody : Fallible (List Text) → List Text
  or_nobody (ok handles) = handles
  or_nobody (err e) = []

  unfoldable pub adopt_unrecorded : Bool → List Text → Time → Store → Store
  unfolding unrecorded_lapsed_holders or_nobody adopt each
  adopt_unrecorded charges revoked now_at s =
      if charges
      then (each (adopt now_at) (or_nobody (unrecorded_lapsed_holders revoked s)) s).1
      else s

  unfoldable pub same_state : LapseState → LapseState → Bool
  same_state a b =
      eq_text a.grace_expires_at b.grace_expires_at
      && (eq_text a.post_grace_action b.post_grace_action && eq_text a.lapsed_at b.lapsed_at)

  unfoldable pub refresh : Text → LapseState → LapseState → Store → Store
  unfolding same_state record_lapse_state
  refresh handle stored fresh s =
      if same_state fresh stored then s else record_lapse_state handle fresh s

  -- `parse(..).is_ok_and(|ends| now_at >= ends)`
  unfoldable pub is_closed : Time → Text → Bool
  is_closed now_at grace_expires_at = elim (c.parse grace_expires_at) [
    | none ↦ false
    | some ends ↦ leb ends.nanos now_at.nanos
  ]

  unfoldable pub forget_if_done : Text → Fallible (List (Text × Text)) → Store → ℕ × Store
  unfolding forget_lapse_state
  forget_if_done handle (ok []) s = forget_lapse_state handle s
  forget_if_done handle (ok (entry ∷ due)) s = (0, s)
  forget_if_done handle (err e) s = (0, s)

  unfoldable pub close : List Text → Time → Text → LapseState → Store → ℕ × Store
  unfolding is_closed erase_action forget_if_done
  close revoked now_at handle fresh s =
      if not (is_closed now_at fresh.grace_expires_at)
        || not (eq_text fresh.post_grace_action erase_action)
      then (0, s)
      else forget_if_done handle (post_grace_due c j s handle revoked now_at) s

  unfoldable pub retire :
      List Text → Time → LapseRow → Fallible (Option LapseState) → Store → ℕ × Store
  unfolding close refresh forget_lapse_state
  retire revoked now_at row (err e) s = (0, s)
  retire revoked now_at row (ok none) s = forget_lapse_state row.holder_handle s
  retire revoked now_at row (ok (some fresh)) s =
      close revoked now_at row.holder_handle fresh (refresh row.holder_handle row.state fresh s)

  unfoldable pub lapsed_since : Time → Text → Time
  lapsed_since now_at lapsed_at = elim (c.parse lapsed_at) [ none ↦ now_at | some at ↦ at ]

  -- One row of the listing: derived again from the snapshots, and gone once it has been acted on.
  unfoldable pub settle_lapse : List Text → Time → LapseRow → Store → ℕ × Store
  unfolding retire lapsed_since
  settle_lapse revoked now_at row s =
      retire revoked now_at row
        (lapse_state_at c j s row.holder_handle (lapsed_since now_at row.state.lapsed_at)) s

  unfoldable pub settle_lapses : List Text → Time → Store → ℕ × Store
  unfolding settle_lapse each
  settle_lapses revoked now_at s = each (settle_lapse revoked now_at) (lapsed_holders s) s
