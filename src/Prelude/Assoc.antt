-- ===== src/Prelude/Assoc.antt =====
-- Finite maps as association lists over keys with a Boolean equality.
use mathlib.Core.Path.{◌≡◌, refl}
use mathlib.Core.Logic.{◌↔◌, inl, inr}
use mathlib.Core.Bool.{Bool, true, false}
use mathlib.Core.Option.{Option, none, some}
use mathlib.Core.List.{List, [], ◌∷◌}
use native.Mathlib.Omega.{arith}
use onym_backup.Prelude.Tests.{if◌then◌else◌, is_some, is_none, Bool-cases}
use onym_backup.Prelude.Lists.{All, All-map}

abbrev pub Assoc : Type 0 → Type 0 → Type 0
Assoc K V = List (K × V)

module _ {K V : Type 0} (same : K → K → Bool) where
  unfoldable pub lookup : K → Assoc K V → Option V
  lookup k [] = none
  lookup k ((j, v) ∷ m) = let rest = lookup k m in if same j k then some v else rest

  unfoldable pub insert : K → V → Assoc K V → Assoc K V
  insert k v [] = (k, v) ∷ []
  insert k v ((j, w) ∷ m) =
      let rest = insert k v m in if same j k then (k, v) ∷ m else (j, w) ∷ rest

  unfoldable pub remove : K → Assoc K V → Assoc K V
  remove k [] = []
  remove k ((j, v) ∷ m) = let rest = remove k m in if same j k then rest else (j, v) ∷ rest

  abbrev pub has : K → Assoc K V → Bool
  has k m = is_some (lookup k m)

-- The laws, for a test that decides equality.
module _ {K V : Type 0} (same : K → K → Bool)
    (same_iff : (a b : K) → (same a b ≡ true) ↔ (a ≡ b)) where
  pub lookup-insert :
      (k j : K) (v : V) (m : Assoc K V)
      → lookup same j (insert same k v m) ≡ (if same k j then some v else lookup same j m)
  unfolding lookup insert
  lookup-insert k j v [] = refl
  lookup-insert k j v ((i, w) ∷ m) =
      ground (arith, lookup-insert k j v m, same_iff i k, same_iff i j, same_iff k j)

  pub lookup-remove :
      (k j : K) (m : Assoc K V)
      → lookup same j (remove same k m) ≡ (if same k j then none else lookup same j m)
  unfolding lookup remove
  lookup-remove k j [] = ground arith
  lookup-remove k j ((i, w) ∷ m) =
      ground (arith, lookup-remove k j m, same_iff i k, same_iff i j, same_iff k j)

  -- Entries only go.
  pub All-remove : (P : K × V → Type 0) (k : K) (m : Assoc K V) → All P m → All P (remove same k m)
  unfolding remove
  All-remove P k [] h = tt
  All-remove P k ((j, v) ∷ m) h = elim (Bool-cases (same j k)) [
    | inl e ↦ rw e (All-remove P k m h.1)
    | inr e ↦ rw e (h.0, All-remove P k m h.1)
  ]

  looked_up :
      (e : K × V) (k : K) (v : V) (m : Assoc K V)
      → is_none (lookup same e.0 m) ≡ false
      → is_none (lookup same e.0 ((k, v) ∷ m)) ≡ false
  unfolding lookup
  looked_up e k v m h = elim (Bool-cases (same k e.0)) [ inl f ↦ rw f refl | inr f ↦ rw f h ]

  -- Every key of the list is found in it.
  pub All-found : (m : Assoc K V) → All (λ e. is_none (lookup same e.0 m) ≡ false) m
  unfolding lookup
  All-found [] = tt
  All-found ((k, v) ∷ m) = (
    rw ((same_iff k k).1 refl) refl,
    All-map (λ e. is_none (lookup same e.0 m) ≡ false)
        (λ e. is_none (lookup same e.0 ((k, v) ∷ m)) ≡ false) m (λ e. looked_up e k v m)
        (All-found m),
  )
