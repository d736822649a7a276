-- ===== src/Clock.antt =====
-- What the operator uses of the `time` crate and of SQLite's `julianday`: parameters, with the
-- documented behaviour that the proofs rely on as laws.
use onym_backup.Prelude.{
  ℕ, ◌+◌, ◌*◌, ◌≤◌, ◌<◌, ◌≡◌, Bool, false, Option, some, Text, arith, ltb, leb, true,
}

-- An `OffsetDateTime`: the instant in nanoseconds from the earliest one, and its UTC offset.
pub record Time : Type 0 where
  pub nanos : ℕ
  pub offset : ℕ

abbrev pub nanos_per_second : ℕ
nanos_per_second = 1_000_000_000

pub record Clock : Type 0 where
  -- `format(&Rfc3339)` and `OffsetDateTime::parse(_, &Rfc3339)`
  pub format : Time → Option Text
  pub parse : Text → Option Time
  -- `checked_add` and `checked_sub` of a number of seconds
  pub checked_add : Time → ℕ → Option Time
  pub checked_sub : Time → ℕ → Option Time
  -- SQLite's `julianday`, in milliseconds; `none` is NULL
  pub julianday : Text → Option ℕ
  pub parse-format : (t : Time) (s : Text) → format t ≡ some s → parse s ≡ some t
  pub add_nanos :
      (t u : Time) (secs : ℕ)
      → checked_add t secs ≡ some u
      → u.nanos ≡ t.nanos + secs * nanos_per_second
  pub sub_nanos :
      (t u : Time) (secs : ℕ)
      → checked_sub t secs ≡ some u
      → t.nanos ≡ u.nanos + secs * nanos_per_second
  -- SQLite reads what `format` wrote, and keeps the order of instants.
  pub julianday_mono :
      (t u : Time) (s r : Text)
      → format t ≡ some s
      → format u ≡ some r
      → t.nanos ≤ u.nanos
      → (a : ℕ) × (b : ℕ) × (julianday s ≡ some a) × (julianday r ≡ some b) × (a ≤ b)
  -- Instants two milliseconds apart stay apart.
  pub julianday_separates :
      (t u : Time) (s r : Text)
      → format t ≡ some s
      → format u ≡ some r
      → t.nanos + 2_000_000 ≤ u.nanos
      → (a : ℕ) × (b : ℕ) × (julianday s ≡ some a) × (julianday r ≡ some b) × (a < b)

-- An SQL comparison with NULL is not true.
abbrev both_lt : Option ℕ → Option ℕ → Bool
both_lt (some a) (some b) = ltb a b
both_lt _ _ = false

abbrev pub both_le : Option ℕ → Option ℕ → Bool
both_le (some a) (some b) = leb a b
both_le _ _ = false

module _ (c : Clock) where
  open c use {julianday, format}

  -- `julianday(s) < julianday(t)` and `julianday(s) <= julianday(t)`
  unfoldable pub jd_lt : Text → Text → Bool
  jd_lt s t = both_lt (julianday s) (julianday t)

  unfoldable pub jd_le : Text → Text → Bool
  jd_le s t = both_le (julianday s) (julianday t)

  module _ (t u : Time) (s r : Text) (ft : format t ≡ some s) (fu : format u ≡ some r) where
    pub not_jd_lt : u.nanos ≤ t.nanos → jd_lt s r ≡ false
    unfolding jd_lt
    not_jd_lt h = ground (arith, c.julianday_mono u t r s)

    pub jd_le_of_le : t.nanos ≤ u.nanos → jd_le s r ≡ true
    unfolding jd_le
    jd_le_of_le h = ground (arith, c.julianday_mono t u s r)

    pub jd_lt_of_apart : t.nanos + 2_000_000 ≤ u.nanos → jd_lt s r ≡ true
    unfolding jd_lt
    jd_lt_of_apart h = ground (arith, c.julianday_separates t u s r)
