-- ===== src/Tests/Fixture.antt =====
-- Concrete libraries and a small operator, at which the theorems are run. A timestamp is written as
-- two numbers, the digest of some bytes is their sum, and a signature repeats its key.

use onym_backup.Prelude.{
  ℕ, zero, suc, ◌+◌, ◌-◌, ◌*◌, ◌/◌, ◌%◌, ◌≤◌, ◌<◌, ◌≡◌, refl, true, Option, none, some, [], ◌∷◌,
  ◌++◌, Text, Bytes, text, arith, ltb, leb, if◌then◌else◌, length, eq_text,
}
use onym_backup.Clock.{Clock, Time, nanos_per_second}
use onym_backup.Crypto.{Crypto}

abbrev write_time : Time → Option Text
write_time t = some (t.nanos ∷ t.offset ∷ [])

abbrev read_time : Text → Option Time
read_time (n ∷ z ∷ []) = some (record { nanos = n; offset = z })
read_time _ = none

abbrev later_by : Time → ℕ → Option Time
later_by t secs = some (record t { nanos = t.nanos + secs * nanos_per_second })

abbrev earlier_by : Time → ℕ → Option Time
earlier_by t secs =
    if leb (secs * nanos_per_second) t.nanos
    then some (record t { nanos = t.nanos - secs * nanos_per_second })
    else none

abbrev millis : Text → Option ℕ
millis (n ∷ z ∷ []) = some (n / 1_000_000)
millis _ = none

pub read-write : (t : Time) (s : Text) → write_time t ≡ some s → read_time s ≡ some t
read-write t [] h = ground arith
read-write t (n ∷ []) h = ground arith
read-write t (n ∷ z ∷ []) h = ground arith
read-write t (n ∷ z ∷ y ∷ r) h = ground arith

pub later_law :
    (t u : Time) (secs : ℕ) → later_by t secs ≡ some u → u.nanos ≡ t.nanos + secs * nanos_per_second
later_law t u secs h = ground arith

pub earlier_law :
    (t u : Time) (secs : ℕ)
    → earlier_by t secs ≡ some u
    → t.nanos ≡ u.nanos + secs * nanos_per_second
earlier_law t u secs h = ground arith

millis-write : (t : Time) (s : Text) → write_time t ≡ some s → millis s ≡ some (t.nanos / 1_000_000)
millis-write t [] h = ground arith
millis-write t (n ∷ []) h = ground arith
millis-write t (n ∷ z ∷ []) h = ground arith
millis-write t (n ∷ z ∷ y ∷ r) h = ground arith

pub mono_law :
    (t u : Time) (s r : Text)
    → write_time t ≡ some s
    → write_time u ≡ some r
    → t.nanos ≤ u.nanos
    → (a : ℕ) × (b : ℕ) × (millis s ≡ some a) × (millis r ≡ some b) × (a ≤ b)
mono_law t u s r f g h =
    (t.nanos / 1_000_000, u.nanos / 1_000_000, millis-write t s f, millis-write u r g, omega arith)

pub separates_law :
    (t u : Time) (s r : Text)
    → write_time t ≡ some s
    → write_time u ≡ some r
    → t.nanos + 2_000_000 ≤ u.nanos
    → (a : ℕ) × (b : ℕ) × (millis s ≡ some a) × (millis r ≡ some b) × (a < b)
separates_law t u s r f g h =
    (t.nanos / 1_000_000, u.nanos / 1_000_000, millis-write t s f, millis-write u r g, omega arith)

abbrev pub clock : Clock
clock = record {
  format = write_time;
  parse = read_time;
  checked_add = later_by;
  checked_sub = earlier_by;
  julianday = millis;
  parse-format = read-write;
  add_nanos = later_law;
  sub_nanos = earlier_law;
  julianday_mono = mono_law;
  julianday_separates = separates_law;
}

abbrev hex_digit : ℕ → ℕ
hex_digit n = if ltb n 10 then 48 + n else 87 + n

abbrev hex_value : ℕ → ℕ
hex_value c = if ltb c 97 then c - 48 else c - 87

abbrev pub hex : Bytes → Text
hex [] = []
hex (b ∷ bs) = hex_digit (b / 16) ∷ hex_digit (b % 16) ∷ hex bs

abbrev unhex_more : ℕ → Option Bytes → Option Bytes
unhex_more b none = none
unhex_more b (some bs) = some (b ∷ bs)

abbrev unhex : Text → Option Bytes
unhex [] = some []
unhex (c ∷ []) = none
unhex (c ∷ d ∷ t) = unhex_more (hex_value c * 16 + hex_value d) (unhex t)

digit_law : (b : ℕ) → hex_value (hex_digit (b / 16)) * 16 + hex_value (hex_digit (b % 16)) ≡ b
digit_law b = ground arith

pub unhex-hex : (b : Bytes) → unhex (hex b) ≡ some b
unhex-hex [] = refl
unhex-hex (b ∷ bs) = rw (unhex-hex bs) (rw (digit_law b))

pub length-hex : (b : Bytes) → length (hex b) ≡ 2 * length b
length-hex [] = refl
length-hex (b ∷ bs) = omega (arith, length-hex bs)

abbrev total : Bytes → ℕ
total [] = 0
total (b ∷ bs) = b + total bs

abbrev pub zeros : ℕ → Bytes
zeros zero = []
zeros (suc n) = 0 ∷ zeros n

abbrev sum_digest : Bytes → Bytes
sum_digest b = (total b % 256) ∷ zeros 31

abbrev pub crypto : Crypto
crypto = record {
  sha256 = sum_digest;
  valid_key = λ key. true;
  verify = λ key message signature. eq_text signature (key ++ key);
  sign = λ seed message. seed ++ seed;
  verifying_key = λ seed. seed;
  base64_decode = λ t. some t;
  base64_encode = λ b. b;
  hex_encode = hex;
  hex_decode = unhex;
  length-sha256 = λ b. refl;
  hex_decode-encode = unhex-hex;
  length-hex_encode = length-hex;
}

-- 32 bytes, and the reference that names them as a holder's key
abbrev pub key : Bytes
key = 7 ∷ zeros 31

abbrev pub reference : Text
reference = text "onym:seat-key:" ++ hex key
