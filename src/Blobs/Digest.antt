-- ===== src/Blobs/Digest.antt =====
-- `digest_hex` of operator/src/blobs.rs, and the digest texts that the operator writes.
use onym_backup.Prelude.{
  not, ◌||◌, Option, none, some, ◌++◌, Text, Bytes, text, ◌==◌, if◌then◌else◌, length, all,
  strip_prefix, is_lower_hex,
}
use onym_backup.Prelude.Exec.{ok, err}
use onym_backup.Error.{Fallible, bad_request}
use onym_backup.Crypto.{Crypto}

abbrev pub digest_prefix : Text
digest_prefix = text "sha256:"

unfoldable pub lower_hex_64 : Option Text → Fallible Text
lower_hex_64 none = err (bad_request "digest must be sha256:<hex>")
lower_hex_64 (some hex_value) =
    if not (length hex_value == 64) || not (all is_lower_hex hex_value)
    then err (bad_request "digest must be 64 lowercase hex characters")
    else ok hex_value

-- The directory name of a digest.
unfoldable pub digest_hex : Text → Fallible Text
unfolding lower_hex_64
digest_hex digest = lower_hex_64 (strip_prefix digest_prefix digest)

-- `format!("sha256:{}", hex::encode(..))` of the bytes hashed
unfoldable pub digest_text : Crypto → Bytes → Text
digest_text x bytes = digest_prefix ++ x.hex_encode (x.sha256 bytes)
