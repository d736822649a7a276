-- ===== src/Documents/Duration.antt =====
-- `iso_duration` and `duration_seconds` of operator/src/documents.rs.
use mathlib.Core.List.{append-nil, append_assoc}
use onym_backup.Prelude.{
  ℕ, ◌+◌, ◌*◌, ◌/◌, ◌%◌, ◌^◌, ◌<◌, ◌≡◌, refl, inl, inr, Bool, true, false, not, ◌||◌, Option, none,
  some, [], ◌∷◌, ◌++◌, Text, text, arith, ltb, ◌==◌, if◌then◌else◌, is_empty, all, eq_text,
  strip_prefix, is_digit, Bool-cases, and-true, ap, ◌∙◌,
}
use onym_backup.Prelude.Decimal.{decimal, all-decimal, parse_digits, parse_digits-decimal}

-- For the nonnegative periods that `from_env` admits.
unfoldable pub iso_duration : ℕ → Text
iso_duration seconds =
    if seconds % (24 * 60 * 60) == 0
    then text "P" ++ (decimal (seconds / (24 * 60 * 60)) ++ text "D")
    else if seconds % (60 * 60) == 0
    then text "PT" ++ (decimal (seconds / (60 * 60)) ++ text "H")
    else if seconds % 60 == 0
    then text "PT" ++ (decimal (seconds / 60) ++ text "M")
    else text "PT" ++ (decimal seconds ++ text "S")

-- The match on the unit and on whether a `T` went before it.
unfoldable pub unit_seconds : ℕ → Bool → Option ℕ
unit_seconds character false =
    if character == b'Y'
    then some (365 * 86_400)
    else if character == b'M'
    then some (30 * 86_400)
    else if character == b'W'
    then some (7 * 86_400)
    else if character == b'D'
    then some 86_400
    else none
unit_seconds character true =
    if character == b'H'
    then some 3_600
    else if character == b'M'
    then some 60
    else if character == b'S'
    then some 1
    else none

-- `total.checked_add(magnitude.checked_mul(seconds)?)?`, nothing being negative
unfoldable pub add_units : ℕ → Option ℕ → Option ℕ → Option ℕ
add_units total (some magnitude) (some seconds) =
    if ltb (total + magnitude * seconds) (2 ^ 63) then some (total + magnitude * seconds) else none
add_units total _ _ = none

-- The loop over the characters after the `P`; `number` holds the digits since the last unit.
unfoldable pub scan : Text → ℕ → Text → Bool → Bool → Option ℕ
scan [] total number in_time saw_unit =
    if not (is_empty number) || not saw_unit then none else some total
scan (character ∷ rest) total number in_time saw_unit = elim (character == b'T') [
  | true ↦ scan rest total number true saw_unit
  | false ↦ elim (is_digit character) [
    | true ↦ scan rest total (number ++ character ∷ []) in_time saw_unit
    | false ↦ elim (add_units total (parse_digits number) (unit_seconds character in_time)) [
      | none ↦ none
      | some sum ↦ scan rest sum [] in_time true
    ]
  ]
]

scan_after_prefix : Option Text → Option ℕ
scan_after_prefix none = none
scan_after_prefix (some rest) = scan rest 0 [] false false

unfoldable pub duration_seconds : Text → Option ℕ
unfolding scan_after_prefix scan unit_seconds add_units
duration_seconds value =
    if eq_text value (text "none")
    then some 0
    else scan_after_prefix (strip_prefix (text "P") value)

digit_not_T : (d : ℕ) → is_digit d ≡ true → (d == b'T') ≡ false
digit_not_T d h = ground arith

scan-digits :
    (ds rest : Text) (total : ℕ) (number : Text) (in_time saw_unit : Bool)
    → all is_digit ds ≡ true
    → scan (ds ++ rest) total number in_time saw_unit
      ≡ scan rest total (number ++ ds) in_time saw_unit
unfolding scan all
scan-digits [] rest total number in_time saw_unit h = rw append-nil
scan-digits (d ∷ ds) rest total number in_time saw_unit h =
    let digit = (and-true (is_digit d) _ h).0 in
    rw (digit_not_T d digit, scan)
      (rw (digit, scan)
        (scan-digits ds rest total (number ++ d ∷ []) in_time saw_unit (and-true (is_digit d) _ h).1
          ∙ ap (λ (t : Text). scan rest total t in_time saw_unit)
              (append_assoc number (d ∷ []) ds)))

-- A number and its unit at the end of a period.
scan_unit :
    (n unit seconds : ℕ) (in_time : Bool)
    → (unit == b'T') ≡ false
    → is_digit unit ≡ false
    → unit_seconds unit in_time ≡ some seconds
    → n * seconds < 2 ^ 63
    → n < 2 ^ 63
    → scan (decimal n ++ unit ∷ []) 0 [] in_time false ≡ some (n * seconds)
unfolding scan add_units
scan_unit n unit seconds in_time not_T not_digit known fits small =
    scan-digits (decimal n) (unit ∷ []) 0 [] in_time false (all-decimal n)
    ∙ rw (not_T, scan)
        (rw (not_digit, scan) (rw (parse_digits-decimal n small, known, scan) (ground arith)))

-- What `iso_duration` declares, `duration_seconds` reads back, for every period below 2^63 seconds.
pub duration_seconds-iso_duration :
    (n : ℕ) → n < 2 ^ 63 → duration_seconds (iso_duration n) ≡ some n
unfolding duration_seconds iso_duration text eq_text strip_prefix
duration_seconds-iso_duration n h = elim (Bool-cases (n % (24 * 60 * 60) == 0)) [
  | inl days ↦ rw days (
      scan_unit (n / 86_400) b'D' 86_400 false refl refl refl (omega arith) (omega arith)
      ∙ ap some (ground arith))
  | inr not_days ↦ elim (Bool-cases (n % (60 * 60) == 0)) [
    | inl hours ↦
        rw (not_days, hours)
          (scan_unit (n / 3_600) b'H' 3_600 true refl refl refl (omega arith) (omega arith)
            ∙ ap some (ground arith))
    | inr not_hours ↦ elim (Bool-cases (n % 60 == 0)) [
      | inl minutes ↦
          rw (not_days, not_hours, minutes)
            (scan_unit (n / 60) b'M' 60 true refl refl refl (omega arith) (omega arith)
              ∙ ap some (ground arith))
      | inr not_minutes ↦
          rw (not_days, not_hours, not_minutes)
            (scan_unit n b'S' 1 true refl refl refl (omega arith) h ∙ ap some (omega arith))
    ]
  ]
]
