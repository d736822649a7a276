-- ===== src/Prelude/Int.antt =====
-- Signed integers over the native numbers, and the wrap-around of `i64`.
use Prim.Native.Nat.{ℕ, suc, ◌-◌, ◌/◌, ◌%◌, ◌^◌, ◌<◌}
use mathlib.Core.Path.{◌≡◌}
use mathlib.Core.Bool.{Bool, true, false}
use native.Mathlib.Omega.{arith}
use onym_backup.Prelude.Tests.{ltb, leb, ◌==◌, if◌then◌else◌}

-- `negsuc n` is -(n + 1).
pub data ℤ : Type 0 where
  pos : ℕ → ℤ
  negsuc : ℕ → ℤ

abbrev pub pos_part : ℤ → ℕ
pos_part (pos n) = n
pos_part (negsuc n) = 0

abbrev pub is_negative : ℤ → Bool
is_negative (pos n) = false
is_negative (negsuc n) = true

-- The `i64` that a nonnegative result of `+` or `*` is left as in a release build.
unfoldable pub wrap_i64 : ℕ → ℤ
wrap_i64 n = let m = n % 2 ^ 64 in if ltb m (2 ^ 63) then pos m else negsuc (2 ^ 64 - m - 1)

-- `/` on `i64` truncates towards zero.
unfoldable pub div_i64 : ℤ → ℕ → ℤ
div_i64 (pos n) d = pos (n / d)
div_i64 (negsuc n) d = let q = suc n / d in if leb q 0 then pos 0 else negsuc (q - 1)

pub wrap_i64_small : (n : ℕ) → n < 2 ^ 63 → wrap_i64 n ≡ pos n
unfolding wrap_i64
wrap_i64_small n h = ground arith

abbrev pub eq_int : ℤ → ℤ → Bool
eq_int (pos a) (pos b) = a == b
eq_int (negsuc a) (negsuc b) = a == b
eq_int _ _ = false

abbrev pub ltb_int : ℤ → ℤ → Bool
ltb_int (pos a) (pos b) = ltb a b
ltb_int (pos a) (negsuc b) = false
ltb_int (negsuc a) (pos b) = true
ltb_int (negsuc a) (negsuc b) = ltb b a

-- a - b, as an integer
abbrev pub sub_ℕ : ℕ → ℕ → ℤ
sub_ℕ a b = if leb b a then pos (a - b) else negsuc (b - a - 1)

-- n - 1
unfoldable pub pred_int : ℤ → ℤ
pred_int (pos n) = sub_ℕ n 1
pred_int (negsuc n) = negsuc (suc n)
