-- ===== src/Store/Entitlements.antt =====
-- The statements of operator/src/store.rs on `holder_entitlements` and `lapse_state`.
use onym_backup.Prelude.{
  ℕ, ◌-◌, Bool, false, not, ◌&&◌, ◌||◌, Option, none, some, List, [], ◌∷◌, ◌++◌, Text, Bytes, ltb,
  if◌then◌else◌, length, select, find?, any, eq_text, is_some,
}
use mathlib.Core.Option
use onym_backup.Prelude.Exec.{Exec, or_fail, modify, ◌>>=◌, ◌>>◌}
use onym_backup.Error.{Error, internal}
use onym_backup.Clock.{Clock, Time, jd_lt}
use onym_backup.Store.Rows.{Store, EntitlementRow, LapseRow, LapseState}

-- `VerifiedEntitlement` of operator/src/entitlements.rs
pub record VerifiedEntitlement : Type 0 where
  pub entitlement_id : Text
  pub offer_id : Text
  pub not_before : Time
  pub expires_at : Time
  pub raw : Bytes

abbrev pub is_entitled : Text → EntitlementRow → Bool
is_entitled handle row = eq_text row.holder_handle handle

unfoldable pub contains : Text → List Text → Bool
contains t [] = false
contains t (u ∷ us) = eq_text u t || contains t us

-- the result counts the rows deleted
unfoldable pub forget_lapse_state : Text → Store → ℕ × Store
unfolding select
forget_lapse_state handle s =
    let kept = select (λ row. not (eq_text row.holder_handle handle)) s.lapse_states in
    (length s.lapse_states - length kept, record s { lapse_states = kept })

-- INSERT OR REPLACE
unfoldable pub record_lapse_state : Text → LapseState → Store → Store
unfolding select
record_lapse_state handle state s = record s {
  lapse_states =
      select (λ row. not (eq_text row.holder_handle handle)) s.lapse_states
      ++ record { holder_handle = handle; state = state } ∷ [];
}

unfoldable pub lapse_state : Text → Store → Option LapseState
unfolding find?
lapse_state handle s =
    Option.map (λ row. row.state) (find? (λ row. eq_text row.holder_handle handle) s.lapse_states)

unfoldable pub lapsed_holders : Store → List LapseRow
lapsed_holders s = s.lapse_states

unfoldable pub has_entitlement_record : Text → Store → Bool
unfolding any
has_entitlement_record handle s = any (is_entitled handle) s.holder_entitlements

-- INSERT OR REPLACE, on the id alone
unfoldable pub insert_entitlement : EntitlementRow → Store → Store
unfolding select
insert_entitlement row s = record s {
  holder_entitlements =
      select (λ old. not (eq_text old.entitlement_id row.entitlement_id)) s.holder_entitlements
      ++ row ∷ [];
}

pub record EntitlementHorizon : Type 0 where
  pub access : Option Text
  pub lifecycle : Text

-- the later of what is held and a new instant with its text; the first of two equal ones stays
unfoldable pub keep_later : Option (Time × Text) → Time → Text → Option (Time × Text)
keep_later none at t = some (at, t)
keep_later (some (held, u)) at t = if ltb held.nanos at.nanos then some (at, t) else some (held, u)

module _ (c : Clock) where
  unfoldable pub register_entitlement :
      Text → VerifiedEntitlement → Text → Exec Error Store (Unit {0})
  unfolding insert_entitlement forget_lapse_state
  register_entitlement handle e now = do
    not_before ← or_fail (c.format e.not_before) (internal "format timestamp")
    expires_at ← or_fail (c.format e.expires_at) (internal "format timestamp")
    modify (
        insert_entitlement (record {
          entitlement_id = e.entitlement_id;
          holder_handle = handle;
          offer_id = e.offer_id;
          not_before = not_before;
          expires_at = expires_at;
          raw = e.raw;
          registered_at = now;
        }))
    modify (λ s. (forget_lapse_state handle s).1)

  -- the loop: the latest expiry of all records, and of those not revoked
  unfoldable pub horizon_loop :
      List EntitlementRow
      → List Text
      → Option (Time × Text)
      → Option (Time × Text)
      → Option (Time × Text) × Option (Time × Text)
  unfolding contains keep_later
  horizon_loop [] revoked live latest = (live, latest)
  horizon_loop (row ∷ rows) revoked live latest = elim (c.parse row.expires_at) [
    | none ↦ horizon_loop rows revoked live latest
    | some at ↦
        horizon_loop rows revoked
          (if contains row.entitlement_id revoked then live else keep_later live at row.expires_at)
          (keep_later latest at row.expires_at)
  ]

  horizon_of : Option (Time × Text) × Option (Time × Text) → Option EntitlementHorizon
  horizon_of (live, none) = none
  horizon_of (live, some (at, lifecycle)) =
      some (record { access = Option.map (λ l. l.1) live; lifecycle = lifecycle })

  unfoldable pub entitlement_horizon : Text → List Text → Store → Option EntitlementHorizon
  unfolding horizon_of horizon_loop select
  entitlement_horizon handle revoked s =
      horizon_of
        (horizon_loop (select (is_entitled handle) s.holder_entitlements) revoked none none)

  -- the record is not below the floor: `julianday(expires_at) >= julianday(floor)`, not NULL
  unfoldable pub is_current : Text → EntitlementRow → Bool
  is_current floor row =
      is_some (c.julianday row.expires_at)
      && (is_some (c.julianday floor) && not (jd_lt c row.expires_at floor))

  -- COUNT(*) > 0, and no record at or above the floor
  unfoldable pub holder_losing_entitlements : Text → Text → Store → Bool
  unfolding any is_current
  holder_losing_entitlements handle floor s =
      has_entitlement_record handle s
      && not (any (λ row. is_entitled handle row && is_current floor row) s.holder_entitlements)

  unfoldable pub sweep_entitlements : Text → Text → Store → ℕ × Store
  unfolding select
  sweep_entitlements handle floor s =
      let kept =
        select (λ row. not (is_entitled handle row && jd_lt c row.expires_at floor))
          s.holder_entitlements in
      (length s.holder_entitlements - length kept, record s { holder_entitlements = kept })

  -- holders with a record at or above the floor: `MAX` passes over NULL
  has_current : Text → List EntitlementRow → Text → Bool
  unfolding any is_current
  has_current floor rows handle = any (λ row. is_entitled handle row && is_current floor row) rows

  unfoldable pub sweep_superseded_entitlements : Text → Store → ℕ × Store
  unfolding select has_current
  sweep_superseded_entitlements floor s =
      let kept =
        select
          (λ row. not (
            jd_lt c row.expires_at floor
            && has_current floor s.holder_entitlements row.holder_handle))
          s.holder_entitlements in
      (length s.holder_entitlements - length kept, record s { holder_entitlements = kept })
