-- ===== src/Crypto.antt =====
-- What the operator uses of sha2, ed25519-dalek, base64 and hex: parameters, with laws.
use onym_backup.Prelude.{◌≡◌, ◌*◌, Bool, Option, some, Text, Bytes, length}

pub record Crypto : Type 0 where
  -- `Sha256::digest`
  pub sha256 : Bytes → Bytes
  -- `VerifyingKey::from_bytes(..).is_ok()`; a key is the bytes that it was made of
  pub valid_key : Bytes → Bool
  -- `VerifyingKey::verify(message, signature).is_ok()`
  pub verify : Bytes → Bytes → Bytes → Bool
  -- `SigningKey::sign` of the key's seed and a message
  pub sign : Bytes → Bytes → Bytes
  -- the bytes of `SigningKey::verifying_key`
  pub verifying_key : Bytes → Bytes
  -- base64's STANDARD engine
  pub base64_decode : Text → Option Bytes
  pub base64_encode : Bytes → Text
  -- `hex::encode` and `hex::decode`
  pub hex_encode : Bytes → Text
  pub hex_decode : Text → Option Bytes
  pub length-sha256 : (b : Bytes) → length (sha256 b) ≡ 32
  pub hex_decode-encode : (b : Bytes) → hex_decode (hex_encode b) ≡ some b
  pub length-hex_encode : (b : Bytes) → length (hex_encode b) ≡ 2 * length b
