-- ===== src/Payload/Window.antt =====
-- What an accepted signature says, and how acceptance depends on the time of arrival.
use onym_backup.Prelude.{ℕ, ◌≤◌, ◌≡◌, some, Text, arith, Option-cases, inl, inr}
use onym_backup.Prelude.Exec.{ok}
use onym_backup.Clock.{Clock, Time}
use onym_backup.Crypto.{Crypto}
use onym_backup.Payload.{
  Request, VerifiedProof, verify, holder_key, holder_handle, whole_seconds_apart,
}

module _ (c : Clock) (x : Crypto) where
  -- An accepted proof: when it was signed, and by which key.
  pub record Accepted (r : Request) (now : Time) (max_skew_secs : ℕ) (p : VerifiedProof)
      : Type 0 where
    pub signed_at : Time
    pub parsed : c.parse r.timestamp ≡ some signed_at
    pub fresh : whole_seconds_apart now signed_at ≤ max_skew_secs
    pub keyed : holder_key x r.holder ≡ ok p.key
    pub handled : p.handle ≡ holder_handle x p.key
    pub nonced : p.nonce ≡ r.nonce

  pub verify-Accepted :
      (r : Request) (signature_b64 : Text) (now : Time) (skew : ℕ) (p : VerifiedProof)
      → verify c x r signature_b64 now skew ≡ ok p
      → Accepted r now skew p
  unfolding verify
  verify-Accepted r sig now skew p h = elim (Option-cases (c.parse r.timestamp)) [
    | inl e ↦ ground arith
    | inr (t, e) ↦ record {
      signed_at = t;
      parsed = e;
      fresh = ground arith;
      keyed = ground arith;
      handled = ground arith;
      nonced = ground arith;
    }
  ]

  -- Acceptance depends on the time of arrival through the window alone.
  pub verify_later :
      (r : Request) (sig : Text) (now later : Time) (skew : ℕ) (p : VerifiedProof) (signed : Time)
      → verify c x r sig now skew ≡ ok p
      → c.parse r.timestamp ≡ some signed
      → whole_seconds_apart later signed ≤ skew
      → verify c x r sig later skew ≡ ok p
  unfolding verify
  verify_later r sig now later skew p signed h e w = ground arith
