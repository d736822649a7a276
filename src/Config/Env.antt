-- ===== src/Config/Env.antt =====
-- `Config::from_env` of operator/src/config.rs: what the environment says, checked once at boot. The
-- address and the two paths that it also reads are used by nothing modelled. A refusal is its message.
use mathlib.Core.List.{reverse}
use onym_backup.Prelude.{
  ℕ, zero, suc, ◌*◌, ◌^◌, Bool, true, false, not, ◌&&◌, Option, none, some, List, [], ◌∷◌, ◌++◌,
  map, Text, Bytes, text, ltb, ◌==◌, if◌then◌else◌, length, is_empty, is_some, is_none, select,
  strip_prefix, trim,
}
use onym_backup.Prelude.Int.{ℤ, pos, negsuc}
use onym_backup.Prelude.Decimal.{decimal}
use onym_backup.Prelude.Signed.{parse_i64, parse_u64}
use onym_backup.Prelude.Exec.{Result, ok, err}
use onym_backup.Prelude.Checks.{◌>>=◌, ◌>>◌, ok_or, require_that}
use onym_backup.Clock.{Clock, Time}
use onym_backup.Crypto.{Crypto}
use onym_backup.Config.{Config}
use onym_backup.Config.Issuers.{issuer_key}

-- `env::var`: none where the variable is not set
abbrev pub Env : Type 0
Env = Text → Option Text

abbrev pub Checked : Type 0 → Type 0
Checked A = Result Text A

or_else : Option Text → Text → Text
or_else none t = t
or_else (some u) t = u

starts_with : Text → Text → Bool
unfolding strip_prefix
starts_with p t = is_some (strip_prefix p t)

-- the pieces between commas, of which there is at least one
split_commas : Text → Text → List Text
split_commas piece [] = reverse piece ∷ []
split_commas piece (c ∷ t) = elim (c == b',') [
  | true ↦ reverse piece ∷ split_commas [] t
  | false ↦ split_commas (c ∷ piece) t
]

-- the trimmed entries that are not empty
unfoldable pub entries : Text → List Text
unfolding split_commas select trim
entries t = select (λ value. not (is_empty value)) (map trim (split_commas [] t))

drop_slashes : Text → Text
drop_slashes [] = []
drop_slashes (c ∷ t) = let rest = drop_slashes t in if c == b'/' then rest else c ∷ t

trim_end_slashes : Text → Text
unfolding drop_slashes
trim_end_slashes t = reverse (drop_slashes (reverse t))

unfoldable pub maximum_chunk_body : ℕ
maximum_chunk_body = 67_108_864

-- a value above zero
unfoldable pub above_zero : Text → Option ℤ → Checked ℕ
above_zero key none = err (key ++ text " must be an integer")
above_zero key (some (negsuc n)) = err (key ++ text " must be greater than zero")
above_zero key (some (pos zero)) = err (key ++ text " must be greater than zero")
above_zero key (some (pos (suc n))) = ok (suc n)

unfoldable pub positive_or : Text → ℕ → Option Text → Checked ℕ
unfolding above_zero
positive_or key default none = ok default
positive_or key default (some value) = above_zero key (parse_i64 (trim value))

unfoldable pub parse_positive_i64 : Env → Text → ℕ → Checked ℕ
unfolding positive_or
parse_positive_i64 env key default = positive_or key default (env key)

unfoldable pub above_zero_u64 : Text → Option ℕ → Checked ℕ
above_zero_u64 key none = err (key ++ text " must be an integer")
above_zero_u64 key (some zero) = err (key ++ text " must be greater than zero")
above_zero_u64 key (some (suc n)) = ok (suc n)

unfoldable pub positive_or_u64 : Text → ℕ → Option Text → Checked ℕ
unfolding above_zero_u64
positive_or_u64 key default none = ok default
positive_or_u64 key default (some value) = above_zero_u64 key (parse_u64 (trim value))

unfoldable pub parse_positive_u64 : Env → Text → ℕ → Checked ℕ
unfolding positive_or_u64
parse_positive_u64 env key default = positive_or_u64 key default (env key)

unfoldable pub chunk_bytes : Env → Checked ℕ
unfolding parse_positive_i64 maximum_chunk_body
chunk_bytes env = do
  bytes ← parse_positive_i64 env (text "BACKUP_CHUNK_BYTES") 8_388_608
  require_that (not (ltb maximum_chunk_body bytes)) (
      text "BACKUP_CHUNK_BYTES is "
      ++ (decimal bytes
          ++ (text ", above the "
              ++ (decimal maximum_chunk_body
                  ++ text
                      "-byte request body ceiling; every non-final chunk would be refused at the body limit"))))
  ok bytes

-- the sweep subtracts the window from the clock, `multiplier` times
unfoldable pub parse_past_window_secs : Clock → Env → Time → Text → ℕ → ℕ → Checked ℕ
unfolding parse_positive_i64
parse_past_window_secs c env now key default multiplier = do
  value ← parse_positive_i64 env key default
  require_that (ltb (value * multiplier) (2 ^ 63)) (key ++ text " is too large")
  require_that (is_some (c.checked_sub now (value * multiplier)))
      (key ++ text " is too large for the supported timestamp range")
  ok value

module _ (x : Crypto) where
  seed_of : Option Bytes → Checked Bytes
  seed_of none = err (text "BACKUP_SIGNING_SEED must be hex")
  seed_of (some bytes) =
      if length bytes == 32
      then ok bytes
      else err (text "BACKUP_SIGNING_SEED must be 32 bytes (64 hex chars)")

  unfoldable pub parse_seed : Text → Checked Bytes
  unfolding seed_of
  parse_seed hex_value = seed_of (x.hex_decode (trim hex_value))

  -- the first entry that is no key; its reason is left out
  unfoldable pub check_issuers : List Text → Checked (Unit {0})
  unfolding issuer_key
  check_issuers [] = ok tt
  check_issuers (issuer ∷ issuers) =
      let rest = check_issuers issuers in
      if is_some (issuer_key x issuer)
      then rest
      else err (text "BACKUP_ENTITLEMENT_ISSUERS entry " ++ issuer)

  https_if_set : Option Text → Bool
  unfolding starts_with
  https_if_set none = true
  https_if_set (some url) = starts_with (text "https://") url

  not_empty : Option Text → Option Text
  not_empty none = none
  not_empty (some t) = if is_empty t then none else some t

  -- the four windows that the sweep subtracts, over what has been read before
  unfoldable pub read_windows : Clock → Env → Time → Config → Checked Config
  unfolding parse_past_window_secs
  read_windows c env now config = do
    max_skew_secs ← parse_past_window_secs c env now (text "BACKUP_MAX_SKEW_SECS") 300 2
    receipts ← parse_past_window_secs c env now (text "BACKUP_RECEIPT_RETENTION_SECS") 31_536_000 1
    references ←
        parse_past_window_secs c env now (text "BACKUP_ERASED_REFERENCE_RETENTION_SECS") 31_536_000
          1
    outcomes ← parse_past_window_secs c env now (text "BACKUP_OUTCOME_RETENTION_SECS") 21_600 1
    ok (record config {
      max_skew_secs = max_skew_secs;
      receipt_retention_secs = receipts;
      erased_reference_retention_secs = references;
      outcome_retention_secs = outcomes;
    })

  -- the sizes and periods, over what has been read before
  unfoldable pub read_sizes : Env → Config → Checked Config
  unfolding parse_positive_u64 parse_positive_i64 chunk_bytes
  read_sizes env config = do
    revocation_poll_secs ← parse_positive_u64 env (text "BACKUP_REVOCATION_POLL_SECS") 900
    maximum_bytes ← parse_positive_i64 env (text "BACKUP_MAX_SNAPSHOT_BYTES") 2_147_483_648
    maximum_snapshots ← parse_positive_i64 env (text "BACKUP_MAX_SNAPSHOTS") 3
    chunk ← chunk_bytes env
    upload_expiry_secs ← parse_positive_i64 env (text "BACKUP_UPLOAD_EXPIRY_SECS") 86_400
    ok (record config {
      revocation_poll_secs = revocation_poll_secs;
      maximum_sealed_snapshot_bytes = maximum_bytes;
      maximum_retained_snapshots = maximum_snapshots;
      chunk_bytes = chunk;
      upload_expiry_secs = upload_expiry_secs;
    })

  -- what an operator that charges must also say
  unfoldable pub read_payment : Env → Config → Checked Config
  unfolding or_else entries check_issuers not_empty https_if_set
  read_payment env config = do
    let issuers = entries (or_else (env (text "BACKUP_ENTITLEMENT_ISSUERS")) [])
    check_issuers issuers
    let offers = entries (or_else (env (text "BACKUP_OFFERS")) [])
    require_that (not (not (is_empty issuers) && is_empty offers))
        (text "BACKUP_OFFERS is required when BACKUP_ENTITLEMENT_ISSUERS is set")
    let revocation_url = not_empty (env (text "BACKUP_REVOCATION_URL"))
    require_that (not (not (is_empty issuers) && is_none revocation_url))
        (text "BACKUP_REVOCATION_URL is required when BACKUP_ENTITLEMENT_ISSUERS is set")
    require_that (https_if_set revocation_url) (text "BACKUP_REVOCATION_URL must be https")
    ok (record config {
      entitlement_issuers = issuers;
      offers = offers;
      revocation_url = revocation_url;
    })

  -- who the operator is; the rest is blank until it is read
  unfoldable pub read_identity : Env → Checked Config
  unfolding starts_with parse_seed trim_end_slashes
  read_identity env = do
    component_id ← ok_or (env (text "BACKUP_COMPONENT_ID")) (text "BACKUP_COMPONENT_ID is required")
    require_that (starts_with (text "onym:component:") component_id)
        (text "BACKUP_COMPONENT_ID must look like onym:component:<id>")
    public_url ← ok_or (env (text "BACKUP_PUBLIC_URL")) (text "BACKUP_PUBLIC_URL is required")
    require_that (starts_with (text "https://") public_url) (text "BACKUP_PUBLIC_URL must be https")
    seed ←
        ok_or (env (text "BACKUP_SIGNING_SEED"))
          (text "BACKUP_SIGNING_SEED is required (64 hex chars)")
    signing_seed ← parse_seed seed
    ok (record {
      component_id = component_id;
      public_url = trim_end_slashes public_url;
      signing_seed = signing_seed;
      entitlement_issuers = [];
      revocation_url = none;
      revocation_poll_secs = 0;
      offers = [];
      maximum_sealed_snapshot_bytes = 0;
      maximum_retained_snapshots = 0;
      chunk_bytes = 0;
      upload_expiry_secs = 0;
      max_skew_secs = 0;
      outcome_retention_secs = 0;
      receipt_retention_secs = 0;
      erased_reference_retention_secs = 0;
    })

  unfoldable pub from_env : Clock → Env → Time → Checked Config
  unfolding read_identity read_payment read_sizes read_windows
  from_env c env now = do
    identity ← read_identity env
    paid ← read_payment env identity
    sized ← read_sizes env paid
    read_windows c env now sized
