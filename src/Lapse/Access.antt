-- ===== src/Lapse/Access.antt =====
-- `Operation`, `evaluate`, `grace_from` and `require` of operator/src/lapse.rs: what a holder's
-- payment lets a request do.
use onym_backup.Prelude.{
  Bool, true, false, not, ◌||◌, Option, none, some, List, [], ◌∷◌, ◌++◌, Text, text, ltb, leb,
  if◌then◌else◌,
}
use onym_backup.Prelude.Exec.{ok, err, Exec, pure, lift, gets, or_fail, ◌>>=◌, ◌>>◌}
use onym_backup.Error.{Error, Fallible, payment_required, internal}
use onym_backup.Clock.{Time}
use onym_backup.Config.{requires_entitlement, manifest_url}
use onym_backup.Store.Rows.{Store, SnapshotRow}
use onym_backup.Store.Snapshots.{snapshots}
use onym_backup.Store.Entitlements.{
  VerifiedEntitlement, EntitlementHorizon, contains, entitlement_horizon, has_entitlement_record,
  register_entitlement,
}
use onym_backup.Operator.{Operator}
use onym_backup.Auth.{Headers, Holder}
use onym_backup.Entitlements.{presented}
use onym_backup.Lapse.Window.{EndOfPayment, window_of, lifecycle_horizon}

pub data Operation : Type 0 where
  register preflight upload commit list download erase export reconcile : Operation

-- the word that a grace clause names the operation by
unfoldable pub grace_term : Operation → Option Text
grace_term download = some (text "download")
grace_term erase = some (text "erase")
grace_term export = some (text "export")
grace_term _ = none

unfoldable pub always_available : Operation → Bool
always_available export = true
always_available register = true
always_available list = true
always_available reconcile = true
always_available upload = true
always_available commit = true
always_available _ = false

unfoldable pub refused_holder_wide : Operation → Bool
refused_holder_wide preflight = true
refused_holder_wide _ = false

pub data Access : Type 0 where
  entitled unpaid lapsed : Access
  grace : List Text → Access

module _ (o : Operator) where
  open o use {clock, json, config}

  -- one snapshot's clause: does it keep the window open, and for what?
  unfoldable pub note_window :
      Time → Option (EndOfPayment × Time) → Option (List Text) → Option (List Text)
  note_window now none allowed = allowed
  note_window now (some (clause, ends)) allowed =
      if leb ends.nanos now.nanos
      then allowed
      else some ((elim allowed [ none ↦ [] | some words ↦ words ]) ++ clause.during_grace)

  -- `none` while no window is open, else the words gathered
  unfoldable pub grace_loop :
      Store → Time → Time → List SnapshotRow → Option (List Text) → Fallible (Option (List Text))
  unfolding note_window
  grace_loop s lapsed_at now [] allowed = ok allowed
  grace_loop s lapsed_at now (row ∷ rows) allowed = elim (window_of clock json s lapsed_at row) [
    | err e ↦ err e
    | ok window ↦ grace_loop s lapsed_at now rows (note_window now window allowed)
  ]

  unfoldable pub access_of : Fallible (Option (List Text)) → Fallible Access
  access_of (ok none) = ok lapsed
  access_of (ok (some allowed)) = ok (grace allowed)
  access_of (err e) = err e

  unfoldable pub grace_from : Store → Holder → Time → Time → Fallible Access
  unfolding grace_loop access_of
  grace_from s holder lapsed_at now =
      access_of (grace_loop s lapsed_at now (snapshots clock holder.handle s) none)

  -- is the stored access horizon still ahead?
  still_entitled : Option Text → Time → Fallible Bool
  still_entitled none now = ok false
  still_entitled (some access) now = elim (clock.parse access) [
    | none ↦ err (internal "stored entitlement expiry")
    | some expires_at ↦ ok (ltb now.nanos expires_at.nanos)
  ]

  access_text : Option EntitlementHorizon → Option Text
  access_text none = none
  access_text (some horizon) = horizon.access

  unfoldable pub after_horizon : Holder → Option Time → Time → Exec Error Store Access
  unfolding grace_from
  after_horizon holder none now = do
    known ← gets (has_entitlement_record holder.handle)
    pure (if known then lapsed else unpaid)
  after_horizon holder (some lapsed_at) now = do
    s ← gets (λ s. s)
    lift (grace_from s holder lapsed_at now)

  unfoldable pub on_record : Holder → List Text → Time → Exec Error Store Access
  unfolding still_entitled access_text after_horizon
  on_record holder revoked now = do
    s ← gets (λ s. s)
    live ←
        lift (still_entitled (access_text (entitlement_horizon clock holder.handle revoked s)) now)
    if live then pure entitled else do
      horizon ← lift (lifecycle_horizon clock json s holder.handle revoked)
      after_horizon holder horizon now

  unfoldable pub on_presented :
      Holder → List Text → Time → Option VerifiedEntitlement → Exec Error Store Access
  unfolding on_record
  on_presented holder revoked now none = on_record holder revoked now
  on_presented holder revoked now (some verified) = do
    stamp ← or_fail (clock.format now) (internal "format timestamp")
    register_entitlement clock holder.handle verified stamp
    pure entitled

  unfoldable pub evaluate : Holder → Headers → List Text → Time → Exec Error Store Access
  unfolding on_presented
  evaluate holder headers revoked now =
      if not (requires_entitlement config) then pure entitled else do
        verified ← lift (presented o headers holder.reference revoked now)
        on_presented holder revoked now verified

  unfoldable pub payment_refusal : Error
  payment_refusal =
      payment_required config.component_id config.offers config.entitlement_issuers
        (manifest_url config)

  term_allowed : Option Text → List Text → Bool
  unfolding contains
  term_allowed none allowed = false
  term_allowed (some term) allowed = contains term allowed

  permit : Operation → Access → Fallible (Unit {0})
  unfolding payment_refusal term_allowed refused_holder_wide grace_term
  permit operation entitled = ok tt
  permit operation unpaid = err payment_refusal
  permit operation lapsed = err payment_refusal
  permit operation (grace allowed) =
      if refused_holder_wide operation
      then err payment_refusal
      else if term_allowed (grace_term operation) allowed
      then ok tt
      else err payment_refusal

  unfoldable pub require :
      Holder → Headers → List Text → Operation → Time → Exec Error Store (Unit {0})
  unfolding permit evaluate always_available
  require holder headers revoked operation now =
      if always_available operation || not (requires_entitlement config)
      then pure tt
      else do access ← evaluate holder headers revoked now; lift (permit operation access)
