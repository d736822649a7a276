-- ===== src/Payload.antt =====
-- operator/src/payload.rs: the bytes that a holder signs, and the check of a signature.
pub mod Framing
pub mod Window
use onym_backup.Prelude.{
  ℕ, ◌+◌, ◌-◌, ◌*◌, ◌/◌, ◌%◌, ◌^◌, String, Bool, true, false, not, ◌&&◌, ◌||◌, Option, none, some,
  List, [], ◌∷◌, ◌++◌, map, Text, Bytes, text, ltb, leb, ◌==◌, if◌then◌else◌, length, all,
  strip_prefix, is_lower_hex,
}
use onym_backup.Prelude.Exec.{ok, err}
use onym_backup.Prelude.Results.{◌>>=◌, ◌>>◌, ok_or, require_that}
use onym_backup.Error.{Error, Fallible, signature_invalid}
use onym_backup.Clock.{Clock, Time, nanos_per_second}
use onym_backup.Crypto.{Crypto}

abbrev pub context : Text
context = text "onym-backup-v1"

abbrev pub holder_prefix : Text
holder_prefix = text "onym:seat-key:"

abbrev pub handle_prefix : Text
handle_prefix = text "onym-backup-holder-v1"

-- `(n as u32).to_be_bytes()`
unfoldable pub u32_be : ℕ → Bytes
u32_be n =
    let m = n % 2 ^ 32 in (m / 2 ^ 24) ∷ (m / 2 ^ 16 % 256) ∷ (m / 2 ^ 8 % 256) ∷ (m % 256) ∷ []

-- `append`, in the style that returns what is pushed
unfoldable pub append : Bytes → Bytes
append field = u32_be (length field) ++ field

-- `to_ascii_uppercase` on one byte
unfoldable pub upper : ℕ → ℕ
upper c = if leb b'a' c && leb c b'z' then c - 32 else c

pub record Request : Type 0 where
  pub method : Text
  pub path : Text
  pub holder : Text
  pub timestamp : Text
  pub nonce : Text
  pub body : Bytes

pub record VerifiedProof : Type 0 where
  pub key : Bytes
  pub nonce : Text
  pub handle : Text

module _ (x : Crypto) where
  open x use {sha256, valid_key, verify as key_verify, base64_decode, hex_encode, hex_decode}

  unfoldable pub signing_bytes : Request → Bytes
  unfolding append
  signing_bytes r =
      append context
      ++ (append (map upper r.method)
          ++ (append r.path
              ++ (append r.holder
                  ++ (append r.timestamp ++ (append r.nonce ++ append (sha256 r.body))))))

  -- a decoded key of the right length that is a point of the curve
  key_of_bytes : Option Bytes → Fallible Bytes
  key_of_bytes none = err signature_invalid
  key_of_bytes (some bytes) =
      if length bytes == 32 && valid_key bytes then ok bytes else err signature_invalid

  key_of_hex : Option Text → Fallible Bytes
  unfolding key_of_bytes
  key_of_hex none = err signature_invalid
  key_of_hex (some hex_value) =
      if not (length hex_value == 64) || not (all is_lower_hex hex_value)
      then err signature_invalid
      else key_of_bytes (hex_decode hex_value)

  unfoldable pub holder_key : Text → Fallible Bytes
  unfolding key_of_hex
  holder_key reference = key_of_hex (strip_prefix holder_prefix reference)

  unfoldable pub holder_handle : Bytes → Text
  holder_handle key = hex_encode (sha256 (handle_prefix ++ key))

-- `(now - signed_at).whole_seconds().abs()`: the whole seconds between the two, rounded to zero
unfoldable pub whole_seconds_apart : Time → Time → ℕ
whole_seconds_apart a b = ((a.nanos - b.nanos) + (b.nanos - a.nanos)) / nanos_per_second

module _ (c : Clock) (x : Crypto) where
  -- Every failure is one refusal, so a forger learns nothing of which check stopped it.
  unfoldable pub verify : Request → Text → Time → ℕ → Fallible VerifiedProof
  verify r signature_b64 now max_skew_secs = do
    signed_at ← ok_or (c.parse r.timestamp) signature_invalid
    require_that (leb (whole_seconds_apart now signed_at) max_skew_secs) signature_invalid
    key ← holder_key x r.holder
    signature ← ok_or (x.base64_decode signature_b64) signature_invalid
    require_that (length signature == 64) signature_invalid
    require_that (x.verify key (signing_bytes x r) signature) signature_invalid
    ok (record { key = key; nonce = r.nonce; handle = holder_handle x key })
