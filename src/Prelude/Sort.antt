-- ===== src/Prelude/Sort.antt =====
-- Sorting by insertion, for sorts of the source whose order of equal elements does not show.
pub mod Members
use mathlib.Core.Bool.{Bool, true, false}
use mathlib.Core.List.{List, [], ◌∷◌}
use onym_backup.Prelude.Tests.{ltb, ◌==◌, if◌then◌else◌}
use onym_backup.Prelude.Texts.{Text, eq_text}

-- byte order, a prefix first
unfoldable pub text_le : Text → Text → Bool
text_le [] u = true
text_le (c ∷ t) [] = false
text_le (c ∷ t) (d ∷ u) = if c == d then text_le t u else ltb c d

module _ {A : Type 0} (le : A → A → Bool) where
  unfoldable pub place : A → List A → List A
  place x [] = x ∷ []
  place x (y ∷ ys) = let rest = place x ys in if le x y then x ∷ y ∷ ys else y ∷ rest

  -- `sort` and `sort_by`
  unfoldable pub sort_by : List A → List A
  unfolding place
  sort_by [] = []
  sort_by (x ∷ xs) = place x (sort_by xs)

unfoldable pub keep_new : Text → List Text → List Text
keep_new t [] = t ∷ []
keep_new t (u ∷ us) = if eq_text t u then u ∷ us else t ∷ u ∷ us

-- `dedup`: of equal neighbours one stays
unfoldable pub dedup : List Text → List Text
unfolding keep_new
dedup [] = []
dedup (t ∷ ts) = keep_new t (dedup ts)

-- `sort` and then `dedup`
unfoldable pub sorted_set : List Text → List Text
unfolding sort_by dedup text_le
sorted_set ts = dedup (sort_by text_le ts)
