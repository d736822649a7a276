-- ===== src/Prelude/Lists.antt =====
-- Lists measured and cut by native numbers, and filters by a Boolean test.
use Prim.Native.Nat.{ℕ, suc, ◌+◌, ◌≤◌}
use mathlib.Core.Path.{◌≡◌, refl, subst}
use mathlib.Core.Bool.{Bool, true, false, ◌&&◌, ◌||◌}
use mathlib.Core.List.{List, [], ◌∷◌, ◌++◌, map}
use mathlib.Core.Option.{Option, none, some}
use native.Mathlib.Omega.{arith}
use mathlib.Core.Logic.{inl, inr}
use onym_backup.Prelude.Tests.{if◌then◌else◌, Bool-cases}

module _ {ℓ} {A : Type ℓ} where
  abbrev pub length : List A → ℕ
  length [] = 0
  length (x ∷ xs) = suc (length xs)

  pub length-append : (xs ys : List A) → length (xs ++ ys) ≡ length xs + length ys
  length-append [] ys = omega arith
  length-append (x ∷ xs) ys = omega (arith, length-append xs ys)

  abbrev pub is_empty : List A → Bool
  is_empty [] = true
  is_empty (x ∷ xs) = false

  abbrev pub head? : List A → Option A
  head? [] = none
  head? (x ∷ xs) = some x

  -- The rows that pass a test, in order.
  unfoldable pub select : (A → Bool) → List A → List A
  select p [] = []
  select p (x ∷ xs) = let rest = select p xs in if p x then x ∷ rest else rest

  -- The first row that passes a test.
  unfoldable pub find? : (A → Bool) → List A → Option A
  find? p [] = none
  find? p (x ∷ xs) = let rest = find? p xs in if p x then some x else rest

  unfoldable pub all : (A → Bool) → List A → Bool
  all p [] = true
  all p (x ∷ xs) = p x && all p xs

  unfoldable pub any : (A → Bool) → List A → Bool
  any p [] = false
  any p (x ∷ xs) = p x || any p xs

  pub length-select-le : (p : A → Bool) (xs : List A) → length (select p xs) ≤ length xs
  unfolding select
  length-select-le p [] = omega arith
  length-select-le p (x ∷ xs) = ground (arith, length-select-le p xs)

  pub all-select : (p : A → Bool) (xs : List A) → all p (select p xs) ≡ true
  unfolding select all
  all-select p [] = refl
  all-select p (x ∷ xs) = ground (arith, all-select p xs)

  -- Every element satisfies a predicate.
  abbrev pub All {κ} : (A → Type κ) → List A → Type κ
  All P [] = Unit
  All P (x ∷ xs) = P x × All P xs

  pub All-select {κ} :
      (P : A → Type κ) (p : A → Bool) (xs : List A) → All P xs → All P (select p xs)
  unfolding select
  All-select P p [] h = tt
  All-select P p (x ∷ xs) h = elim (Bool-cases (p x)) [
    | inl e ↦ rw e (h.0, All-select P p xs h.1)
    | inr e ↦ rw e (All-select P p xs h.1)
  ]

  pub All-append {κ} : (P : A → Type κ) (xs ys : List A) → All P xs → All P ys → All P (xs ++ ys)
  All-append P [] ys h k = k
  All-append P (x ∷ xs) ys h k = (h.0, All-append P xs ys h.1 k)

  pub All-map {κ μ} :
      (P : A → Type κ) (Q : A → Type μ) (xs : List A) → ((a : A) → P a → Q a) → All P xs → All Q xs
  All-map P Q [] f h = tt
  All-map P Q (x ∷ xs) f h = (f x h.0, All-map P Q xs f h.1)

  pub All-zip {κ} :
      (P Q R : A → Type κ) (xs : List A)
      → ((a : A) → P a → Q a → R a)
      → All P xs
      → All Q xs
      → All R xs
  All-zip P Q R [] f h k = tt
  All-zip P Q R (x ∷ xs) f h k = (f x h.0 k.0, All-zip P Q R xs f h.1 k.1)

  -- A filtered list, from its first element on.
  pub All-select_put {κ} :
      (P : A → Type κ) (p : A → Bool) (x : A) (xs : List A)
      → (p x ≡ true → P x)
      → All P (select p xs)
      → All P (select p (x ∷ xs))
  unfolding select
  All-select_put P p x xs f h = elim (Bool-cases (p x)) [ inl e ↦ rw e (f e, h) | inr e ↦ rw e h ]

  pub All-select_head {κ} :
      (P : A → Type κ) (p : A → Bool) (x : A) (xs : List A)
      → All P (select p (x ∷ xs))
      → p x ≡ true
      → P x
  unfolding select
  All-select_head P p x xs h e =
      (subst (λ b. All P (if b then x ∷ select p xs else select p xs)) e h).0

  pub All-select_tail {κ} :
      (P : A → Type κ) (p : A → Bool) (x : A) (xs : List A)
      → All P (select p (x ∷ xs))
      → All P (select p xs)
  unfolding select
  All-select_tail P p x xs h = split (p x) h
    where
      split : (b : Bool) → All P (if b then x ∷ select p xs else select p xs) → All P (select p xs)
      split true k = k.1
      split false k = k

  pub any-append_left : (p : A → Bool) (xs ys : List A) → any p xs ≡ true → any p (xs ++ ys) ≡ true
  unfolding any
  any-append_left p [] ys h = cc
  any-append_left p (x ∷ xs) ys h = ground (arith, any-append_left p xs ys)

  pub any-append_last :
      (p : A → Bool) (xs : List A) (y : A) → p y ≡ true → any p (xs ++ y ∷ []) ≡ true
  unfolding any
  any-append_last p [] y h = ground arith
  any-append_last p (x ∷ xs) y h = ground (arith, any-append_last p xs y)

  pub any_mono :
      (p q : A → Bool) (xs : List A)
      → ((a : A) → p a ≡ true → q a ≡ true)
      → any p xs ≡ true
      → any q xs ≡ true
  unfolding any
  any_mono p q [] f h = cc
  any_mono p q (x ∷ xs) f h = ground (arith, f x, any_mono p q xs f)

  -- A filter that lets all such elements through keeps one.
  pub any-select :
      (p q : A → Bool) (xs : List A)
      → ((a : A) → p a ≡ true → q a ≡ true)
      → any p xs ≡ true
      → any p (select q xs) ≡ true
  unfolding any select
  any-select p q [] f h = cc
  any-select p q (x ∷ xs) f h = ground (arith, f x, any-select p q xs f)

  -- A filter that stops all such elements keeps none.
  pub none-select :
      (p q : A → Bool) (xs : List A)
      → ((a : A) → p a ≡ true → q a ≡ false)
      → any p (select q xs) ≡ false
  unfolding any select
  none-select p q [] f = refl
  none-select p q (x ∷ xs) f = ground (arith, f x, none-select p q xs f)

  pub any-append : (p : A → Bool) (xs ys : List A) → any p (xs ++ ys) ≡ (any p xs || any p ys)
  unfolding any
  any-append p [] ys = refl
  any-append p (x ∷ xs) ys = ground (arith, any-append p xs ys)

  pub select-append :
      (p : A → Bool) (xs ys : List A) → select p (xs ++ ys) ≡ select p xs ++ select p ys
  unfolding select
  select-append p [] ys = refl
  select-append p (x ∷ xs) ys = ground (arith, select-append p xs ys)

  -- A filter adds nothing.
  pub any-false-select :
      (p q : A → Bool) (xs : List A) → any p xs ≡ false → any p (select q xs) ≡ false
  unfolding any select
  any-false-select p q [] h = refl
  any-false-select p q (x ∷ xs) h = ground (arith, any-false-select p q xs)

module _ {ℓ} {A B : Type ℓ} where
  pub All-of_map {κ} :
      (P : A → Type κ) (f : B → A) (xs : List B) → All P (map f xs) → All (λ x. P (f x)) xs
  All-of_map P f [] h = tt
  All-of_map P f (x ∷ xs) h = (h.0, All-of_map P f xs h.1)
