-- ===== src/Sweep/Cutoffs.antt =====
-- The floors of one sweep: the loop of operator/src/main.rs and `record_floor` of lapse.rs.
use onym_backup.Prelude.{
  ℕ, suc, ◌+◌, ◌*◌, ◌^◌, ◌≡◌, inl, inr, Option, none, some, Text, arith, ltb, if◌then◌else◌,
  Option-cases,
}
use onym_backup.Prelude.Int.{ℤ, pos, negsuc, wrap_i64}
use onym_backup.Clock.{Clock, Time, nanos_per_second}
use onym_backup.Config.{Config}

pub record Cutoffs : Type 0 where
  pub now : Text
  pub nonce : Text
  pub outcome : Text
  pub receipt : Text
  pub erased_reference : Text
  pub entitlement : Text

infixl 5 ◌>>=◌
abbrev ◌>>=◌ {ℓ κ} : {A : Type ℓ} {B : Type κ} → Option A → (A → Option B) → Option B
none >>= f = none
some a >>= f = f a

-- `i64::checked_mul` of nonnegative numbers
unfoldable pub checked_mul : ℕ → ℕ → Option ℕ
checked_mul a b = if ltb (a * b) (2 ^ 63) then some (a * b) else none

module _ (c : Clock) where
  -- to subtract a negative interval is to add
  unfoldable pub record_floor : ℤ → Time → Option Time
  record_floor (pos secs) now = c.checked_sub now secs
  record_floor (negsuc n) now = c.checked_add now (suc n)

  -- `None` skips the sweep
  unfoldable pub cutoffs : Config → Time → Option Cutoffs
  unfolding record_floor checked_mul
  cutoffs config at = do
    entitlement_floor ← record_floor (wrap_i64 config.revocation_poll_secs) at
    twice ← checked_mul config.max_skew_secs 2
    floor ← c.checked_sub at twice
    outcomes ← c.checked_sub at config.outcome_retention_secs
    receipts ← c.checked_sub at config.receipt_retention_secs
    erased ← c.checked_sub at config.erased_reference_retention_secs
    now_text ← c.format at
    floor_text ← c.format floor
    outcomes_text ← c.format outcomes
    receipts_text ← c.format receipts
    erased_text ← c.format erased
    entitlement_text ← c.format entitlement_floor
    some (record {
      now = now_text;
      nonce = floor_text;
      outcome = outcomes_text;
      receipt = receipts_text;
      erased_reference = erased_text;
      entitlement = entitlement_text;
    })

  -- The nonce floor lies twice the skew before the sweep.
  pub nonce-cutoffs :
      (config : Config) (at : Time) (k : Cutoffs)
      → cutoffs config at ≡ some k
      → (floor : Time) × (c.format floor ≡ some k.nonce)
        × (at.nanos ≡ floor.nanos + config.max_skew_secs * 2 * nanos_per_second)
  unfolding cutoffs
  nonce-cutoffs config at k h = elim (Option-cases (c.checked_sub at (config.max_skew_secs * 2))) [
    | inl e ↦ absurd (ground arith)
    | inr (floor, e) ↦ (floor, ground arith, c.sub_nanos at floor _ e)
  ]
