-- ===== src/Prelude/Sort/Members.antt =====
-- Sorting and dropping repeats keep exactly the members of a list.
use onym_backup.Prelude.{
  ◌≡◌, refl, ◌∙◌, Bool, ◌||◌, ◌&&◌, List, [], ◌∷◌, map, Text, arith, any, select, ap, eq_text,
  eq_text_iff, Bool-cases, inl, inr,
}
use onym_backup.Prelude.Sort.{place, sort_by, keep_new, dedup, sorted_set, text_le}

pub any-map :
    {A B : Type 0} (p : B → Bool) (f : A → B) (xs : List A)
    → any p (map f xs) ≡ any (λ x. p (f x)) xs
unfolding any
any-map p f [] = refl
any-map p f (x ∷ xs) = rw (any-map p f xs) refl

pub any_of_select :
    {A : Type 0} (p q : A → Bool) (xs : List A) → any p (select q xs) ≡ any (λ x. q x && p x) xs
unfolding any select
any_of_select p q [] = refl
any_of_select p q (x ∷ xs) = ground (arith, any_of_select p q xs)

pub any-same :
    {A : Type 0} (p q : A → Bool) → ((x : A) → p x ≡ q x) → (xs : List A) → any p xs ≡ any q xs
unfolding any
any-same p q h [] = refl
any-same p q h (x ∷ xs) = rw (h x, any-same p q h xs) refl

module _ {A : Type 0} (le : A → A → Bool) (p : A → Bool) where
  any-place : (x : A) (xs : List A) → any p (place le x xs) ≡ (p x || any p xs)
  unfolding place any
  any-place x [] = refl
  any-place x (y ∷ ys) = elim (Bool-cases (le x y)) [
    | inl e ↦ rw e refl
    | inr e ↦ rw e (ground (arith, any-place x ys))
  ]

  pub any-sort_by : (xs : List A) → any p (sort_by le xs) ≡ any p xs
  unfolding sort_by any
  any-sort_by [] = refl
  any-sort_by (x ∷ xs) = any-place x (sort_by le xs) ∙ rw (any-sort_by xs) refl

module _ (id : Text) where
  any-keep_new :
      (t : Text) (ts : List Text)
      → any (λ u. eq_text u id) (keep_new t ts) ≡ (eq_text t id || any (λ u. eq_text u id) ts)
  unfolding keep_new any
  any-keep_new t [] = refl
  any-keep_new t (u ∷ us) = elim (Bool-cases (eq_text t u)) [
    | inl e ↦ rw e (ground (arith, ap (λ v. eq_text v id) ((eq_text_iff t u).0 e)))
    | inr e ↦ rw e refl
  ]

  any-dedup : (ts : List Text) → any (λ u. eq_text u id) (dedup ts) ≡ any (λ u. eq_text u id) ts
  unfolding dedup any
  any-dedup [] = refl
  any-dedup (t ∷ ts) = any-keep_new t (dedup ts) ∙ rw (any-dedup ts) refl

  pub any-sorted_set :
      (ts : List Text) → any (λ u. eq_text u id) (sorted_set ts) ≡ any (λ u. eq_text u id) ts
  unfolding sorted_set
  any-sorted_set ts = any-dedup (sort_by text_le ts) ∙ any-sort_by text_le (λ u. eq_text u id) ts
