-- ===== src/Prelude/Each.antt =====
-- Loops of the sweep: a state goes through one step for each entry of a list, and a count adds up.
use Prim.Native.Nat.{ℕ, ◌+◌}
use mathlib.Core.List.{List, [], ◌∷◌}
use onym_backup.Prelude.Lists.{All}

module _ {S A : Type 0} where
  unfoldable pub each : (A → S → ℕ × S) → List A → S → ℕ × S
  each step [] s = (0, s)
  each step (a ∷ xs) s =
      let first = step a s in let rest = each step xs first.1 in (first.0 + rest.0, rest.1)

  -- What every step keeps, the loop keeps.
  pub each-keeps :
      (P : S → Type 0) (step : A → S → ℕ × S)
      → ((a : A) (s : S) → P s → P (step a s).1)
      → (xs : List A) (s : S) → P s
      → P (each step xs s).1
  unfolding each
  each-keeps P step k [] s h = h
  each-keeps P step k (a ∷ xs) s h = each-keeps P step k xs (step a s).1 (k a s h)

  -- What a step brings about for its entry, and later steps keep, holds for every entry at the end;
  -- `J` is what the steps need and keep.
  pub each-All :
      (J : S → Type 0) (P : A → S → Type 0) (step : A → S → ℕ × S)
      → ((a : A) (s : S) → J s → J (step a s).1)
      → ((a : A) (s : S) → J s → P a (step a s).1)
      → ((a b : A) (s : S) → J s → P a s → P a (step b s).1)
      → (xs : List A) (s : S) → J s
      → All (λ a. P a (each step xs s).1) xs
  unfolding each
  each-All J P step j k l [] s h = tt
  each-All J P step j k l (a ∷ xs) s h = (
    (each-keeps (λ t. J t × P a t) step (λ b t g. (j b t g.0, l a b t g.0 g.1)) xs (step a s).1
        (j a s h, k a s h)).1,
    each-All J P step j k l xs (step a s).1 (j a s h),
  )
