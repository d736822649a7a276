-- ===== src/Prelude/Signed.antt =====
-- `str::parse` of the signed and unsigned 64-bit integers.
use Prim.Native.Nat.{ℕ, zero, suc, ◌^◌}
use mathlib.Core.Bool.{not, ◌&&◌}
use mathlib.Core.Option
use mathlib.Core.Option.{Option, none, some}
use mathlib.Core.List.{[], ◌∷◌}
use onym_backup.Prelude.Tests.{leb, ltb, ◌==◌, if◌then◌else◌}
use onym_backup.Prelude.Lists.{all, is_empty}
use onym_backup.Prelude.Texts.{Text, is_digit}
use onym_backup.Prelude.Int.{ℤ, pos, negsuc}
use onym_backup.Prelude.Decimal.{parse_digits, digits_value}

-- plain digits below 2^63
plain : Text → Option ℤ
plain t = if all is_digit t then Option.map pos (parse_digits t) else none

minus : ℕ → ℤ
minus zero = pos 0
minus (suc n) = negsuc n

-- digits after a `-`, down to -2^63
negated : Text → Option ℤ
unfolding minus digits_value
negated t =
    if all is_digit t && (not (is_empty t) && leb (digits_value 0 t) (2 ^ 63))
    then some (minus (digits_value 0 t))
    else none

-- `str::parse::<i64>`: one sign may lead
unfoldable pub parse_i64 : Text → Option ℤ
unfolding plain negated
parse_i64 [] = none
parse_i64 (c ∷ t) = if c == b'+' then plain t else if c == b'-' then negated t else plain (c ∷ t)

unsigned : Text → Option ℕ
unfolding digits_value all
unsigned t =
    if all is_digit t && (not (is_empty t) && ltb (digits_value 0 t) (2 ^ 64))
    then some (digits_value 0 t)
    else none

-- `str::parse::<u64>`: only a plus may lead
unfoldable pub parse_u64 : Text → Option ℕ
unfolding unsigned
parse_u64 [] = none
parse_u64 (c ∷ t) = if c == b'+' then unsigned t else unsigned (c ∷ t)
