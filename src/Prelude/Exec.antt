-- ===== src/Prelude/Exec.antt =====
-- Code that changes a state and may fail. What was written before an error stays written, so the
-- state comes back beside the error too.
pub mod Preserves
pub mod Undone
use mathlib.Core.Path.{◌≡◌, refl, ap}
use mathlib.Core.Logic.{◌⊎◌, inl, inr}
use mathlib.Core.Bool.{Bool, true, false, not}
use mathlib.Core.Option.{Option, none, some}
use onym_backup.Prelude.Tests.{if◌then◌else◌}
use native.Mathlib.Omega.{arith}

pub data Result {ℓ} (E : Type ℓ) (A : Type ℓ) : Type ℓ where
  ok : A → Result E A
  err : E → Result E A

-- Whether the code returned a value.
abbrev pub is_ok {ℓ} : {E A : Type ℓ} → Result E A → Bool
is_ok (ok a) = true
is_ok (err e) = false

abbrev pub Exec {ℓ} : Type ℓ → Type ℓ → Type ℓ → Type ℓ
Exec E S A = S → Result E A × S

module _ {ℓ} {E S A : Type ℓ} where
  -- Whether a run returned a value, with the state that it left.
  pub run-cases : (r : Result E A × S) → (is_ok r.0 ≡ false) ⊎ ((a : A) × (r ≡ (ok a, r.1)))
  run-cases (ok a, s) = inr (a, refl)
  run-cases (err e, s) = inl refl

  pub pure : A → Exec E S A
  pure a s = (ok a, s)

  pub fail : E → Exec E S A
  fail e s = (err e, s)

  -- `?` on a result that touches no state
  pub lift : Result E A → Exec E S A
  lift r s = (r, s)

  -- `.ok_or(e)?`
  pub or_fail : Option A → E → Exec E S A
  or_fail none e s = (err e, s)
  or_fail (some a) e s = (ok a, s)

  -- a read of the state
  pub gets : (S → A) → Exec E S A
  gets f s = (ok (f s), s)

  -- a call that cannot fail, with its value
  pub call : (S → A × S) → Exec E S A
  call f s = let r = f s in (ok r.0, r.1)

module _ {E S : Type 0} where
  -- a call that cannot fail and has no value
  pub modify : (S → S) → Exec E S (Unit {0})
  modify f s = (ok tt, f s)

  -- `if !b { return Err(e) }`
  pub require_that : Bool → E → Exec E S (Unit {0})
  require_that true e s = (ok tt, s)
  require_that false e s = (err e, s)

module _ {ℓ} {E S A B : Type ℓ} where
  abbrev pub continue : Result E A → (A → Exec E S B) → Exec E S B
  continue (ok a) f s = f a s
  continue (err e) f s = (err e, s)

  infixl 5 ◌>>=◌ ◌>>◌
  -- opening this opens the actions above too
  unfoldable pub ◌>>=◌ : Exec E S A → (A → Exec E S B) → Exec E S B
  unfolding pure fail lift or_fail gets call modify require_that
  ◌>>=◌ m f s = let r = m s in continue r.0 f r.1

  abbrev pub ◌>>◌ : Exec E S A → Exec E S B → Exec E S B
  m >> n = m >>= λ _. n

  -- Inversion of a step that succeeded, with the state it left.
  pub >>=-ok :
      (m : Exec E S A) (f : A → Exec E S B) (s t : S) (b : B)
      → (m >>= f) s ≡ (ok b, t)
      → (a : A) × (u : S) × (m s ≡ (ok a, u)) × (f a u ≡ (ok b, t))
  unfolding ◌>>=◌
  >>=-ok m f s t b h = split (m s) refl h
    where
      split :
          (r : Result E A × S)
          → m s ≡ r
          → continue r.0 f r.1 ≡ (ok b, t)
          → (a : A) × (u : S) × (m s ≡ (ok a, u)) × (f a u ≡ (ok b, t))
      split (ok a, u) e k = (a, u, e, k)
      split (err x, u) e k = absurd (ground arith)

  pub or_fail-ok :
      (o : Option A) (e : E) (f : A → Exec E S B) (s t : S) (b : B)
      → (or_fail o e >>= f) s ≡ (ok b, t)
      → (a : A) × (o ≡ some a) × (f a s ≡ (ok b, t))
  unfolding ◌>>=◌
  or_fail-ok none e f s t b h = ground arith
  or_fail-ok (some a) e f s t b h = (a, refl, h)

  pub lift-ok :
      (r : Result E A) (f : A → Exec E S B) (s t : S) (b : B)
      → (lift r >>= f) s ≡ (ok b, t)
      → (a : A) × (r ≡ ok a) × (f a s ≡ (ok b, t))
  unfolding ◌>>=◌
  lift-ok (ok a) f s t b h = (a, refl, h)
  lift-ok (err e) f s t b h = ground arith

  pub gets-ok :
      (g : S → A) (f : A → Exec E S B) (s t : S) (b : B)
      → (gets g >>= f) s ≡ (ok b, t)
      → f (g s) s ≡ (ok b, t)
  unfolding ◌>>=◌
  gets-ok g f s t b h = h

module _ {ℓ} {E S A : Type ℓ} where
  pub pure-ok : (a b : A) (s t : S) → pure {E = E} a s ≡ (ok b, t) → (b ≡ a) × (t ≡ s)
  unfolding pure
  pure-ok a b s t h = ground (arith, h)

  pub or_fail_last :
      (o : Option A) (e : E) (s t : S) (a : A) → or_fail o e s ≡ (ok a, t) → (o ≡ some a) × (t ≡ s)
  unfolding or_fail
  or_fail_last none e s t a h = absurd (ground (arith, ap (λ r. is_ok r.0) h))
  or_fail_last (some b) e s t a h = ground (arith, h)

  -- The way past an action that always fails.
  pub unless-ok :
      (b : Bool) (m n : Exec E S A) (s t : S) (a : A)
      → is_ok (m s).0 ≡ false
      → (if not b then m else n) s ≡ (ok a, t)
      → (b ≡ true) × (n s ≡ (ok a, t))
  unless-ok true m n s t a f h = (refl, h)
  unless-ok false m n s t a f h = absurd (ground (arith, f, ap (λ r. is_ok r.0) h))

module _ {E S B : Type 0} where
  pub modify-ok :
      (g : S → S) (m : Exec E S B) (s t : S) (b : B)
      → (modify g >> m) s ≡ (ok b, t)
      → m (g s) ≡ (ok b, t)
  unfolding ◌>>=◌
  modify-ok g m s t b h = h

  pub require_that-ok :
      (c : Bool) (e : E) (m : Exec E S B) (s t : S) (b : B)
      → (require_that c e >> m) s ≡ (ok b, t)
      → (c ≡ true) × (m s ≡ (ok b, t))
  unfolding ◌>>=◌
  require_that-ok true e m s t b h = (refl, h)
  require_that-ok false e m s t b h = ground arith

module _ {E S : Type 0} where
  pub modify_last : (g : S → S) (s t : S) (b : Unit {0}) → modify {E = E} g s ≡ (ok b, t) → t ≡ g s
  unfolding modify
  modify_last g s t b h = ground (arith, h)
