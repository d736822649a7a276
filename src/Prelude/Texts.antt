-- ===== src/Prelude/Texts.antt =====
-- Texts as the lists of their UTF-8 bytes, so that the program's walks over text are recursions.
use Prim.Native.Nat.{ℕ}
use Prim.Native.Char.{code}
use Prim.Native.String.{String}
use mathlib.Core.Path.{◌≡◌, refl, sym, ap, ◌∙◌}
use mathlib.Core.Logic.{◌↔◌}
use mathlib.Core.Bool.{Bool, true, false, ◌&&◌, ◌||◌}
use mathlib.Core.List.{List, [], ◌∷◌, ◌++◌, reverse, reverse-append, reverse-reverse}
use mathlib.Core.Option
use mathlib.Core.Option.{Option, none, some}
use native.Mathlib.Omega.{arith}
use onym_backup.Prelude.Tests.{◌==◌, leb, if◌then◌else◌}

abbrev pub Text : Type 0
Text = List ℕ

abbrev pub Bytes : Type 0
Bytes = List ℕ

-- The bytes of an ASCII literal.
unfoldable pub text : String → Text
text String.[] = []
text (String.◌∷◌ c s) = code c ∷ text s

unfoldable pub eq_text : Text → Text → Bool
eq_text [] [] = true
eq_text (a ∷ x) (b ∷ y) = a == b && eq_text x y
eq_text _ _ = false

pub eq_text_iff : (x y : Text) → (eq_text x y ≡ true) ↔ (x ≡ y)
unfolding eq_text
eq_text_iff [] [] = (λ _. refl, λ _. refl)
eq_text_iff [] (b ∷ y) = ground arith
eq_text_iff (a ∷ x) [] = ground arith
eq_text_iff (a ∷ x) (b ∷ y) = ground (arith, eq_text_iff x y)

pub eq_text_refl : (x : Text) → eq_text x x ≡ true
eq_text_refl x = (eq_text_iff x x).1 refl

-- `str::strip_prefix`
unfoldable pub strip_prefix : Text → Text → Option Text
strip_prefix [] s = some s
strip_prefix (p ∷ ps) [] = none
strip_prefix (p ∷ ps) (c ∷ s) = if p == c then strip_prefix ps s else none

pub strip_prefix-append : (p s : Text) → strip_prefix p (p ++ s) ≡ some s
unfolding strip_prefix
strip_prefix-append [] s = refl
strip_prefix-append (c ∷ p) s = ground (arith, strip_prefix-append p s)

pub strip_prefix_sound : (p x rest : Text) → strip_prefix p x ≡ some rest → x ≡ p ++ rest
unfolding strip_prefix
strip_prefix_sound [] x rest h = ground arith
strip_prefix_sound (c ∷ p) [] rest h = cc
strip_prefix_sound (c ∷ p) (d ∷ x) rest h = ground (arith, strip_prefix_sound p x rest)

-- `str::strip_suffix`
unfoldable pub strip_suffix : Text → Text → Option Text
unfolding strip_prefix
strip_suffix p s = Option.map reverse (strip_prefix (reverse p) (reverse s))

pub strip_suffix_sound : (p x rest : Text) → strip_suffix p x ≡ some rest → x ≡ rest ++ p
unfolding strip_suffix
strip_suffix_sound p x rest h = by_front (strip_prefix (reverse p) (reverse x)) refl h
  where
    by_front :
        (front : Option Text)
        → strip_prefix (reverse p) (reverse x) ≡ front
        → Option.map reverse front ≡ some rest
        → x ≡ rest ++ p
    by_front none e k = cc
    by_front (some t) e k =
        sym (reverse-reverse x)
        ∙ ap reverse (strip_prefix_sound (reverse p) (reverse x) t e)
        ∙ reverse-append (reverse p) t
        ∙ rw (reverse-reverse p) (ap (λ l. l ++ p) (ground (arith, k)))

abbrev pub is_digit : ℕ → Bool
is_digit c = leb b'0' c && leb c b'9'

-- `is_ascii_hexdigit() && !is_ascii_uppercase()`
abbrev pub is_lower_hex : ℕ → Bool
is_lower_hex c = is_digit c || (leb b'a' c && leb c b'f')

is_space : ℕ → Bool
is_space c = c == 32 || (leb 9 c && leb c 13)

trim_start : Text → Text
unfolding is_space
trim_start [] = []
trim_start (c ∷ s) = let rest = trim_start s in if is_space c then rest else c ∷ s

-- `str::trim`, over ASCII white space
unfoldable pub trim : Text → Text
unfolding trim_start
trim s = reverse (trim_start (reverse (trim_start s)))
