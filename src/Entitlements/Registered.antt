-- ===== src/Entitlements/Registered.antt =====
-- What a registration leaves, `register` of operator/src/entitlements.rs.
use onym_backup.Prelude.{
  ◌≡◌, refl, sym, ap, subst, Bool, true, not, ◌&&◌, none, List, [], ◌∷◌, Text, Bytes, text, arith,
  some, find?, select, any, eq_text, eq_text_refl, any-append_last, Bool-cases, inl, inr,
}
use mathlib.Core.Option
use onym_backup.Prelude.Exec.{
  ok, >>=-ok, or_fail-ok, lift-ok, gets-ok, require_that-ok, modify-ok, pure-ok, modify_last,
}
use onym_backup.Error.{Error}
use onym_backup.Clock.{Time}
use onym_backup.Config.{requires_entitlement}
use onym_backup.Documents.Json.{Value, get}
use onym_backup.Store.Rows.{Store, EntitlementRow, LapseRow}
use onym_backup.Store.Entitlements.{
  VerifiedEntitlement, insert_entitlement, forget_lapse_state, register_entitlement, lapse_state,
}
use onym_backup.Operator.{Operator, State, on_store, revoked}
use onym_backup.Auth.{Headers, Holder, authenticate}
use onym_backup.Documents.Canonical.{canonical_bytes}
use onym_backup.Entitlements.Verified.{Sound, verify-Sound}
use onym_backup.Entitlements.Register.{put_on_record, register}

-- The credential is on record for the holder.
abbrev pub is_recorded : Text → VerifiedEntitlement → EntitlementRow → Bool
is_recorded handle e row =
    eq_text row.holder_handle handle
    && (eq_text row.entitlement_id e.entitlement_id && eq_text row.raw e.raw)

forgotten :
    (handle : Text) (rows : List LapseRow)
    → find?
        (λ row. eq_text row.holder_handle handle)
        (select (λ row. not (eq_text row.holder_handle handle)) rows)
      ≡ none
unfolding find? select
forgotten handle [] = refl
forgotten handle (row ∷ rows) = elim (Bool-cases (eq_text row.holder_handle handle)) [
  | inl e ↦ rw e (forgotten handle rows)
  | inr e ↦ rw (e, e) (forgotten handle rows)
]

module _ (o : Operator) where
  open o use {clock, crypto, json, config}

  store-registered :
      (handle : Text) (e : VerifiedEntitlement) (stamp : Text) (s t : Store)
      → register_entitlement clock handle e stamp s ≡ (ok tt, t)
      → (any (is_recorded handle e) t.holder_entitlements ≡ true) × (lapse_state handle t ≡ none)
  unfolding register_entitlement insert_entitlement forget_lapse_state lapse_state
  store-registered handle e stamp s t h =
      let (from, _, h1) = or_fail-ok _ _ _ s t tt h in
      let (until, _, h2) = or_fail-ok _ _ _ s t tt h1 in
      let there = modify_last {E = Error} _ _ t tt (modify-ok _ _ s t tt h2) in
      subst
        (λ v.
          (any (is_recorded handle e) v.holder_entitlements ≡ true) × (lapse_state handle v ≡ none))
        (sym there)
        (
          any-append_last (is_recorded handle e) _ _ (
              ground
                (arith, eq_text_refl handle, eq_text_refl e.entitlement_id, eq_text_refl e.raw)),
          ap (Option.map (λ row. row.state)) (forgotten handle s.lapse_states),
        )

  record-ok :
      (holder : Holder) (e : VerifiedEntitlement) (now : Time) (s t : State) (reply : Value)
      → put_on_record o holder e now s ≡ (ok reply, t)
      → (any (is_recorded holder.handle e) t.store.holder_entitlements ≡ true)
        × (lapse_state holder.handle t.store ≡ none)
  unfolding put_on_record on_store
  record-ok holder e now s t reply h =
      let (stamp, _, h1) = or_fail-ok _ _ _ s t reply h in
      let (_, u, f, h2) = >>=-ok _ _ s t reply h1 in
      let (expires, _, h3) = or_fail-ok _ _ _ u t reply h2 in
      let (_, there) = pure-ok _ reply u t h3 in
      subst
        (λ v.
          (any (is_recorded holder.handle e) v.store.holder_entitlements ≡ true)
          × (lapse_state holder.handle v.store ≡ none))
        (sym there)
        (store-registered holder.handle e stamp s.store u.store (ap (λ r. (r.0, r.1.store)) f))

  -- A registration that succeeds was asked by an authenticated holder of an operator that charges, in a
  -- body with a credential whose canonical bytes are, by what is read from them, signed by a configured
  -- issuer's key, for this operator and with this very holder as the subject, in force at the instant and
  -- not revoked. Afterwards that credential is on record for the holder under its id and with those
  -- bytes, and the holder is in no derived lapse.
  pub register_recorded :
      (headers : Headers) (body : Bytes) (now : Time) (s t : State) (reply : Value)
      → register o headers body now s ≡ (ok reply, t)
      → (holder : Holder) × (u : State) × (request : Value) × (entitlement : Value) × (raw : Bytes)
        × (e : VerifiedEntitlement) × (on_store
              (authenticate clock crypto headers
                (text "POST")
                (text "/v1/entitlements")
                body
                config
                now)
              s
            ≡ (ok holder, u))
        × (requires_entitlement config ≡ true)
        × (json.from_slice body ≡ some request)
        × (get (text "entitlement") request ≡ some entitlement)
        × (canonical_bytes entitlement [] ≡ ok raw)
        × Sound o raw holder.reference (revoked u) now e
        × (any (is_recorded holder.handle e) t.store.holder_entitlements ≡ true)
        × (lapse_state holder.handle t.store ≡ none)
  unfolding register
  register_recorded headers body now s t reply h =
      let (holder, u, a, h1) = >>=-ok _ _ s t reply h in
      let (_, v, _, h2) = >>=-ok _ _ u t reply (gets-ok _ _ u t reply h1) in
      let (paid, h3) = require_that-ok _ _ _ v t reply h2 in
      let (request, read, h4) = or_fail-ok _ _ _ v t reply h3 in
      let (_, h5) = require_that-ok _ _ _ v t reply h4 in
      let (entitlement, there, h6) = or_fail-ok _ _ _ v t reply h5 in
      let (raw, written, h7) = lift-ok _ _ v t reply h6 in
      let (e, verified, h8) = lift-ok _ _ v t reply h7 in
      let (on_record, no_lapse) = record-ok holder e now v t reply h8 in
      (
        holder,
        u,
        request,
        entitlement,
        raw,
        e,
        a,
        paid,
        read,
        there,
        written,
        verify-Sound o raw holder.reference (revoked u) now e verified,
        on_record,
        no_lapse,
      )
