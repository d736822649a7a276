-- ===== src/Config/Issuers.antt =====
-- `issuer_key` and `issuer_keys` of operator/src/config.rs.
use onym_backup.Prelude.{
  ◌&&◌, Option, none, some, List, [], ◌∷◌, Text, Bytes, text, ◌==◌, if◌then◌else◌, length, all,
  eq_text, strip_prefix, is_lower_hex, is_some,
}
use onym_backup.Crypto.{Crypto}

module _ (x : Crypto) where
  decoded : Option Bytes → Option Bytes
  decoded none = none
  decoded (some bytes) = if length bytes == 32 && x.valid_key bytes then some bytes else none

  key_hex : Option Text → Option Bytes
  unfolding decoded
  key_hex none = none
  key_hex (some hex_value) =
      if length hex_value == 64 && all is_lower_hex hex_value
      then decoded (x.hex_decode hex_value)
      else none

  -- the reason of a refusal is for the boot log
  unfoldable pub issuer_key : Text → Option Bytes
  unfolding key_hex
  issuer_key reference = key_hex (strip_prefix (text "onym:key:") reference)

  -- `issuer_keys(references).get(issuer)`
  unfoldable pub key_of_issuer : Text → List Text → Option Bytes
  unfolding issuer_key
  key_of_issuer issuer [] = none
  key_of_issuer issuer (reference ∷ references) =
      let rest = key_of_issuer issuer references in
      if eq_text reference issuer && is_some (issuer_key reference)
      then issuer_key reference
      else rest
