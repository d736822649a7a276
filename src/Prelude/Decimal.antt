-- ===== src/Prelude/Decimal.antt =====
-- Decimal numbers as `to_string` prints them and as `str::parse` reads plain digits.
use Prim.Native.Nat.{ℕ, zero, suc, ◌+◌, ◌-◌, ◌*◌, ◌/◌, ◌%◌, ◌^◌, ◌<◌}
use mathlib.Core.Path.{◌≡◌, refl}
use mathlib.Core.Logic.{inl, inr}
use mathlib.Core.Bool.{true, false, ◌||◌, not}
use mathlib.Core.Option.{Option, none, some}
use mathlib.Core.List.{[], ◌∷◌, ◌++◌}
use native.Mathlib.Omega.{arith}
use onym_backup.Prelude.Tests.{ltb, if◌then◌else◌, Bool-cases}
use onym_backup.Prelude.Lists.{all, is_empty}
use onym_backup.Prelude.Texts.{Text, is_digit}

-- the fuel bounds the number of digits
decimal_digits : ℕ → ℕ → Text
decimal_digits zero n = []
decimal_digits (suc fuel) n =
    let more = decimal_digits fuel (n / 10) ++ (48 + n % 10) ∷ [] in
    if ltb n 10 then (48 + n) ∷ [] else more

unfoldable pub decimal : ℕ → Text
unfolding decimal_digits
decimal n = decimal_digits (suc n) n

unfoldable pub digits_value : ℕ → Text → ℕ
digits_value acc [] = acc
digits_value acc (d ∷ ds) = digits_value (acc * 10 + (d - 48)) ds

-- `str::parse::<i64>` of a text of digits: empty and too large texts are errors
unfoldable pub parse_digits : Text → Option ℕ
unfolding digits_value
parse_digits ds =
    if is_empty ds || not (ltb (digits_value 0 ds) (2 ^ 63)) then none else some (digits_value 0 ds)

digits_value-snoc :
    (acc : ℕ) (ds : Text) (d : ℕ)
    → digits_value acc (ds ++ d ∷ []) ≡ digits_value acc ds * 10 + (d - 48)
unfolding digits_value
digits_value-snoc acc [] d = refl
digits_value-snoc acc (e ∷ ds) d = digits_value-snoc (acc * 10 + (e - 48)) ds d

all-snoc :
    (ds : Text) (d : ℕ)
    → all is_digit ds ≡ true
    → is_digit d ≡ true
    → all is_digit (ds ++ d ∷ []) ≡ true
unfolding all
all-snoc [] d h k = ground arith
all-snoc (e ∷ ds) d h k = ground (arith, all-snoc ds d)

is_empty-snoc : (ds : Text) (d : ℕ) → is_empty (ds ++ d ∷ []) ≡ false
is_empty-snoc [] d = refl
is_empty-snoc (e ∷ ds) d = refl

digits_value-decimal_digits : (fuel n : ℕ) → n < fuel → digits_value 0 (decimal_digits fuel n) ≡ n
unfolding decimal_digits digits_value
digits_value-decimal_digits zero n h = elim h [ ]
digits_value-decimal_digits (suc fuel) n h = elim (Bool-cases (ltb n 10)) [
  | inl small ↦ rw small (omega arith)
  | inr big ↦ rw big (
      rw digits_value-snoc
        (rw (digits_value-decimal_digits fuel (n / 10) (ground arith)) (omega arith)))
]

all-decimal_digits : (fuel n : ℕ) → all is_digit (decimal_digits fuel n) ≡ true
unfolding decimal_digits all
all-decimal_digits zero n = refl
all-decimal_digits (suc fuel) n = elim (Bool-cases (ltb n 10)) [
  | inl small ↦ rw small (ground arith)
  | inr big ↦ rw big (
      all-snoc (decimal_digits fuel (n / 10)) (48 + n % 10) (all-decimal_digits fuel (n / 10))
        (ground arith))
]

pub all-decimal : (n : ℕ) → all is_digit (decimal n) ≡ true
unfolding decimal
all-decimal n = all-decimal_digits (suc n) n

nonempty_digits : (fuel n : ℕ) → is_empty (decimal_digits (suc fuel) n) ≡ false
unfolding decimal_digits
nonempty_digits fuel n = elim (Bool-cases (ltb n 10)) [
  | inl small ↦ rw small
  | inr big ↦ rw big (is_empty-snoc (decimal_digits fuel (n / 10)) (48 + n % 10))
]

-- What was printed reads back, below 2^63.
pub parse_digits-decimal : (n : ℕ) → n < 2 ^ 63 → parse_digits (decimal n) ≡ some n
unfolding parse_digits decimal
parse_digits-decimal n h =
    rw (nonempty_digits n n, digits_value-decimal_digits (suc n) n (omega arith)) (ground arith)

pub decimal_example : decimal 31536000 ≡ 51 ∷ 49 ∷ 53 ∷ 51 ∷ 54 ∷ 48 ∷ 48 ∷ 48 ∷ []
unfolding decimal
decimal_example = refl
