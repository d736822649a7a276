-- ===== src/Lapse/Keeps.antt =====
-- What `require` of operator/src/lapse.rs leaves alone.
use onym_backup.Prelude.{Option, none, some, List, Text}
use onym_backup.Prelude.Exec.Preserves.{Preserves, Preserves-modify, preserve_rules}
use onym_backup.Clock.{Time}
use onym_backup.Store.Rows.{Store, EntitlementRow}
use onym_backup.Store.Entitlements.{
  VerifiedEntitlement, insert_entitlement, forget_lapse_state, register_entitlement,
}
use onym_backup.Operator.{Operator}
use onym_backup.Auth.{Headers, Holder}
use onym_backup.Lapse.Access.{Operation, after_horizon, on_record, on_presented, evaluate, require}

module _ (o : Operator) (P : Store → Type 0)
    (inserts : (row : EntitlementRow) (s : Store) → P s → P (insert_entitlement row s))
    (forgets : (handle : Text) (s : Store) → P s → P (forget_lapse_state handle s).1) where
  pub register-Preserves :
      (handle : Text) (e : VerifiedEntitlement) (now : Text)
      → Preserves P (register_entitlement o.clock handle e now)
  unfolding register_entitlement
  register-Preserves handle e now =
      search (preserve_rules, Preserves-modify, inserts, forgets) depth 16

  after_horizon-Preserves :
      (holder : Holder) (horizon : Option Time) (now : Time)
      → Preserves P (after_horizon o holder horizon now)
  unfolding after_horizon
  after_horizon-Preserves holder none now = search preserve_rules depth 16
  after_horizon-Preserves holder (some at) now = search preserve_rules depth 16

  on_record-Preserves :
      (holder : Holder) (revoked : List Text) (now : Time)
      → Preserves P (on_record o holder revoked now)
  unfolding on_record
  on_record-Preserves holder revoked now = search (preserve_rules, after_horizon-Preserves) depth 16

  on_presented-Preserves :
      (holder : Holder) (revoked : List Text) (now : Time) (v : Option VerifiedEntitlement)
      → Preserves P (on_presented o holder revoked now v)
  unfolding on_presented
  on_presented-Preserves holder revoked now none = on_record-Preserves holder revoked now
  on_presented-Preserves holder revoked now (some v) =
      search (preserve_rules, register-Preserves) depth 16

  evaluate-Preserves :
      (holder : Holder) (headers : Headers) (revoked : List Text) (now : Time)
      → Preserves P (evaluate o holder headers revoked now)
  unfolding evaluate
  evaluate-Preserves holder headers revoked now =
      search (preserve_rules, on_presented-Preserves) depth 16

  -- Permitted or refused, a request changes nothing here but by those two statements.
  pub require-Preserves :
      (holder : Holder) (headers : Headers) (revoked : List Text) (operation : Operation)
      (now : Time)
      → Preserves P (require o holder headers revoked operation now)
  unfolding require
  require-Preserves holder headers revoked operation now =
      search (preserve_rules, evaluate-Preserves) depth 16
