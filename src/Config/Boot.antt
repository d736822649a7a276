-- ===== src/Config/Boot.antt =====
-- What an operator that boots runs under, by `Config::from_env` of operator/src/config.rs.
use onym_backup.Prelude.{
  ℕ, zero, suc, ◌*◌, ◌≤◌, ◌<◌, ◌≡◌, subst, true, false, Option, none, some, List, [], ◌∷◌, Text,
  arith, is_empty, is_some, is_none, All, Bool-cases, Option-cases, inl, inr, trim,
}
use onym_backup.Prelude.Int.{ℤ, pos, negsuc}
use onym_backup.Prelude.Signed.{parse_i64, parse_u64}
use onym_backup.Prelude.Exec.{ok}
use onym_backup.Prelude.Checks.{>>=-ok, require_that-ok, ok-injective}
use onym_backup.Clock.{Clock, Time}
use onym_backup.Crypto.{Crypto}
use onym_backup.Config.{Config, requires_entitlement}
use onym_backup.Config.Issuers.{issuer_key}
use onym_backup.Config.Env.{
  Env, maximum_chunk_body, above_zero, above_zero_u64, positive_or, positive_or_u64,
  parse_positive_i64, parse_positive_u64, chunk_bytes, parse_past_window_secs, check_issuers,
  read_payment, read_sizes, read_windows, from_env,
}

-- A window that the sweep can subtract from the clock, so many times over.
abbrev pub Subtractable : Clock → Time → ℕ → Type 0
Subtractable c now secs = (u : Time) × (c.checked_sub now secs ≡ some u)

-- What the rest of the operator may take for granted of its configuration.
pub record ValidConfig (x : Crypto) (c : Clock) (now : Time) (config : Config) : Type 0 where
  pub bytes : 0 < config.maximum_sealed_snapshot_bytes
  pub snapshots : 0 < config.maximum_retained_snapshots
  pub chunks : 0 < config.chunk_bytes
  pub chunk_fits : config.chunk_bytes ≤ maximum_chunk_body
  pub expiry : 0 < config.upload_expiry_secs
  pub poll : 0 < config.revocation_poll_secs
  pub skew_above : 0 < config.max_skew_secs
  pub outcomes_above : 0 < config.outcome_retention_secs
  pub receipts_above : 0 < config.receipt_retention_secs
  pub references_above : 0 < config.erased_reference_retention_secs
  pub skew : Subtractable c now (config.max_skew_secs * 2)
  pub outcomes : Subtractable c now (config.outcome_retention_secs * 1)
  pub receipts : Subtractable c now (config.receipt_retention_secs * 1)
  pub references : Subtractable c now (config.erased_reference_retention_secs * 1)
  pub issuers : All (λ issuer. is_some (issuer_key x issuer) ≡ true) config.entitlement_issuers
  pub charges :
      requires_entitlement config ≡ true
      → (is_empty config.offers ≡ false) × (is_none config.revocation_url ≡ false)

above_zero-ok : (key : Text) (r : Option ℤ) (n : ℕ) → above_zero key r ≡ ok n → 0 < n
unfolding above_zero
above_zero-ok key none n h = cc
above_zero-ok key (some (negsuc m)) n h = cc
above_zero-ok key (some (pos zero)) n h = cc
above_zero-ok key (some (pos (suc m))) n h = ground (arith, h)

positive_or-ok :
    (key : Text) (d : ℕ) (o : Option Text) (n : ℕ) → 0 < d → positive_or key d o ≡ ok n → 0 < n
unfolding positive_or
positive_or-ok key d none n k h = ground (arith, h, k)
positive_or-ok key d (some value) n k h = above_zero-ok key (parse_i64 (trim value)) n h

positive : (env : Env) (key : Text) (d n : ℕ) → 0 < d → parse_positive_i64 env key d ≡ ok n → 0 < n
unfolding parse_positive_i64
positive env key d n k h = positive_or-ok key d (env key) n k h

above_zero_u64-ok : (key : Text) (r : Option ℕ) (n : ℕ) → above_zero_u64 key r ≡ ok n → 0 < n
unfolding above_zero_u64
above_zero_u64-ok key none n h = cc
above_zero_u64-ok key (some zero) n h = cc
above_zero_u64-ok key (some (suc m)) n h = ground (arith, h)

positive_or_u64-ok :
    (key : Text) (d : ℕ) (o : Option Text) (n : ℕ) → 0 < d → positive_or_u64 key d o ≡ ok n → 0 < n
unfolding positive_or_u64
positive_or_u64-ok key d none n k h = ground (arith, h, k)
positive_or_u64-ok key d (some value) n k h = above_zero_u64-ok key (parse_u64 (trim value)) n h

positive_u64 :
    (env : Env) (key : Text) (d n : ℕ) → 0 < d → parse_positive_u64 env key d ≡ ok n → 0 < n
unfolding parse_positive_u64
positive_u64 env key d n k h = positive_or_u64-ok key d (env key) n k h

chunk_bytes-ok : (env : Env) (n : ℕ) → chunk_bytes env ≡ ok n → (0 < n) × (n ≤ maximum_chunk_body)
unfolding chunk_bytes
chunk_bytes-ok env n h =
    let (bytes, e, h1) = >>=-ok _ _ n h in
    let (fits, h2) = require_that-ok _ _ _ n h1 in
    let above = positive env _ 8_388_608 bytes (omega arith) e in
    let same = ok-injective bytes n h2 in ground (arith, fits, same, above)

window-ok :
    (c : Clock) (env : Env) (now : Time) (key : Text) (d m n : ℕ)
    → 0 < d
    → parse_past_window_secs c env now key d m ≡ ok n
    → (0 < n) × Subtractable c now (n * m)
unfolding parse_past_window_secs
window-ok c env now key d m n k h =
    let (value, e, h1) = >>=-ok _ _ n h in
    let above = positive env key d value k e in
    let (_, h2) = require_that-ok _ _ _ n h1 in
    let (there, h3) = require_that-ok _ _ _ n h2 in
    let same = ok-injective value n h3 in
    (
      subst (λ v. 0 < v) same above,
      elim (Option-cases (c.checked_sub now (value * m))) [
        | inl f ↦ absurd (ground (arith, there, f))
        | inr (u, f) ↦ (u, subst (λ v. c.checked_sub now (v * m) ≡ some u) same f)
      ],
    )

issuers-ok :
    (x : Crypto) (issuers : List Text)
    → check_issuers x issuers ≡ ok tt
    → All (λ issuer. is_some (issuer_key x issuer) ≡ true) issuers
unfolding check_issuers
issuers-ok x [] h = tt
issuers-ok x (issuer ∷ issuers) h = elim (Bool-cases (is_some (issuer_key x issuer))) [
  | inl e ↦ (e, issuers-ok x issuers (ground (arith, h, e)))
  | inr e ↦ absurd (ground (arith, h, e))
]

module _ (x : Crypto) (env : Env) where
  -- What each part of the boot leaves, and that the later ones keep it.
  record Paid (config : Config) : Type 0 where
    issuers : All (λ issuer. is_some (issuer_key x issuer) ≡ true) config.entitlement_issuers
    charges :
        requires_entitlement config ≡ true
        → (is_empty config.offers ≡ false) × (is_none config.revocation_url ≡ false)

  record Sized (config : Config) : Type 0 where
    paid : Paid config
    bytes : 0 < config.maximum_sealed_snapshot_bytes
    snapshots : 0 < config.maximum_retained_snapshots
    chunks : 0 < config.chunk_bytes
    chunk_fits : config.chunk_bytes ≤ maximum_chunk_body
    expiry : 0 < config.upload_expiry_secs
    poll : 0 < config.revocation_poll_secs

  payment-Paid : (from to : Config) → read_payment x env from ≡ ok to → Paid to
  unfolding read_payment requires_entitlement
  payment-Paid from to h =
      let (_, issuers, h1) = >>=-ok _ _ to h in
      let (offers, h2) = require_that-ok _ _ _ to h1 in
      let (url, h3) = require_that-ok _ _ _ to h2 in
      let (_, h4) = require_that-ok _ _ _ to h3 in
      subst Paid (ok-injective _ to h4)
        (record { issuers = issuers-ok x _ issuers; charges = λ k. ground (arith, offers, url, k) })

  sizes-Sized : (from to : Config) → Paid from → read_sizes x env from ≡ ok to → Sized to
  unfolding read_sizes requires_entitlement
  sizes-Sized from to k h =
      let (_, poll, h1) = >>=-ok _ _ to h in
      let (_, bytes, h2) = >>=-ok _ _ to h1 in
      let (_, snapshots, h3) = >>=-ok _ _ to h2 in
      let (_, chunk, h4) = >>=-ok _ _ to h3 in
      let (_, expiry, h5) = >>=-ok _ _ to h4 in
      let (above, fits) = chunk_bytes-ok env _ chunk in
      subst Sized (ok-injective _ to h5) (record {
        paid = record { issuers = k.issuers; charges = k.charges };
        bytes = positive env _ 2_147_483_648 _ (omega arith) bytes;
        snapshots = positive env _ 3 _ (omega arith) snapshots;
        chunks = above;
        chunk_fits = fits;
        expiry = positive env _ 86_400 _ (omega arith) expiry;
        poll = positive_u64 env _ 900 _ (omega arith) poll;
      })

  windows-ValidConfig :
      (c : Clock) (now : Time) (from to : Config)
      → Sized from
      → read_windows x c env now from ≡ ok to
      → ValidConfig x c now to
  unfolding read_windows requires_entitlement
  windows-ValidConfig c now from to k h =
      let (_, skew, h1) = >>=-ok _ _ to h in
      let (_, receipts, h2) = >>=-ok _ _ to h1 in
      let (_, references, h3) = >>=-ok _ _ to h2 in
      let (_, outcomes, h4) = >>=-ok _ _ to h3 in
      subst (ValidConfig x c now) (ok-injective _ to h4) (record {
        bytes = k.bytes;
        snapshots = k.snapshots;
        chunks = k.chunks;
        chunk_fits = k.chunk_fits;
        expiry = k.expiry;
        poll = k.poll;
        skew_above = (window-ok c env now _ 300 2 _ (omega arith) skew).0;
        skew = (window-ok c env now _ 300 2 _ (omega arith) skew).1;
        outcomes_above = (window-ok c env now _ 21_600 1 _ (omega arith) outcomes).0;
        outcomes = (window-ok c env now _ 21_600 1 _ (omega arith) outcomes).1;
        receipts_above = (window-ok c env now _ 31_536_000 1 _ (omega arith) receipts).0;
        receipts = (window-ok c env now _ 31_536_000 1 _ (omega arith) receipts).1;
        references_above = (window-ok c env now _ 31_536_000 1 _ (omega arith) references).0;
        references = (window-ok c env now _ 31_536_000 1 _ (omega arith) references).1;
        issuers = k.paid.issuers;
        charges = k.paid.charges;
      })

-- An operator that boots has a configuration that is sound: every size and period is above zero, a
-- chunk fits in a request body, every window can be subtracted from the clock at boot, the skew's even
-- twice over, every issuer is a key, and one that charges names offers and a place to learn of
-- revocations.
pub from_env_valid :
    (x : Crypto) (c : Clock) (env : Env) (now : Time) (config : Config)
    → from_env x c env now ≡ ok config
    → ValidConfig x c now config
unfolding from_env
from_env_valid x c env now config h =
    let (identity, _, h1) = >>=-ok _ _ config h in
    let (paid, e, h2) = >>=-ok _ _ config h1 in
    let (sized, f, h3) = >>=-ok _ _ config h2 in
    windows-ValidConfig x env c now sized config
      (sizes-Sized x env paid sized (payment-Paid x env identity paid e) f) h3
