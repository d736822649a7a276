-- ===== src/Erasures/Days.antt =====
-- `iso8601_days` of operator/src/erasures.rs.
use onym_backup.Prelude.{
  ℕ, zero, suc, ◌*◌, ◌^◌, Option, none, some, Text, text, ltb, if◌then◌else◌, strip_prefix,
  strip_suffix,
}
use onym_backup.Prelude.Int.{ℤ, pos, negsuc}
use onym_backup.Prelude.Signed.{parse_i64}
use onym_backup.Prelude.Exec.{ok, err}
use onym_backup.Error.{Fallible, internal}

between_letters : Option Text → Option ℤ
unfolding parse_i64
between_letters none = none
between_letters (some rest) = elim (strip_suffix (text "D") rest) [
  | none ↦ none
  | some days ↦ parse_i64 days
]

-- positive, and the seconds fit an `i64`
in_range : Option ℤ → Fallible ℕ
in_range none = err (internal "completion deadline is not a whole number of days")
in_range (some (negsuc n)) = err (internal "completion deadline must be positive")
in_range (some (pos zero)) = err (internal "completion deadline must be positive")
in_range (some (pos (suc n))) =
    if ltb (suc n * 86_400) (2 ^ 63)
    then ok (suc n * 86_400)
    else err (internal "completion deadline is too large")

-- the period in seconds
unfoldable pub iso8601_days : Text → Fallible ℕ
unfolding between_letters in_range
iso8601_days period = in_range (between_letters (strip_prefix (text "P") period))
