-- ===== src/Config.antt =====
-- operator/src/config.rs: the values that the operator runs under.
pub mod Issuers
pub mod Env
pub mod Boot
use onym_backup.Prelude.{ℕ, Bool, not, Option, List, ◌++◌, Text, Bytes, text, is_empty}

-- The sizes and periods are positive `i64`s and the poll interval a positive `u64`: `from_env` refuses
-- any other value.
pub record Config : Type 0 where
  pub component_id : Text
  pub public_url : Text
  pub signing_seed : Bytes
  pub entitlement_issuers : List Text
  pub revocation_url : Option Text
  pub revocation_poll_secs : ℕ
  pub offers : List Text
  pub maximum_sealed_snapshot_bytes : ℕ
  pub maximum_retained_snapshots : ℕ
  pub chunk_bytes : ℕ
  pub upload_expiry_secs : ℕ
  pub max_skew_secs : ℕ
  pub outcome_retention_secs : ℕ
  pub receipt_retention_secs : ℕ
  pub erased_reference_retention_secs : ℕ

-- Free mode is the absence of issuers, not a flag.
unfoldable pub requires_entitlement : Config → Bool
requires_entitlement config = not (is_empty config.entitlement_issuers)

unfoldable pub manifest_url : Config → Text
manifest_url config = config.public_url ++ text "/manifest.json"
