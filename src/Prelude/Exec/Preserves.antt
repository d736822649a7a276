-- ===== src/Prelude/Exec/Preserves.antt =====
-- Invariants of actions, one rule for each way to build an action.
use mathlib.Core.Path.{◌≡◌, refl}
use mathlib.Core.Logic.{◌⊎◌, inl, inr}
use mathlib.Core.Bool.{Bool, true, false}
use mathlib.Core.Option.{Option, none, some}
use native.Mathlib.Omega.{arith}
use onym_backup.Prelude.Tests.{if◌then◌else◌}
use onym_backup.Prelude.Exec.{
  Result, ok, err, is_ok, Exec, pure, fail, lift, or_fail, gets, call, modify, require_that,
  continue, ◌>>=◌,
}

-- `m` keeps `P`, whether it returns or fails.
pub record Preserves {ℓ} {E S A : Type ℓ} (P : S → Type ℓ) (m : Exec E S A) : Type ℓ where
  pub at : (s : S) → P s → P (m s).1

module _ {ℓ} {E S A : Type ℓ} {P : S → Type ℓ} where
  pub Preserves-pure : (a : A) → Preserves P (pure {E = E} a)
  unfolding pure
  Preserves-pure a = record { at = λ s h. h }

  pub Preserves-fail : (e : E) → Preserves P (fail {A = A} e)
  unfolding fail
  Preserves-fail e = record { at = λ s h. h }

  pub Preserves-lift : (r : Result E A) → Preserves P (lift r)
  unfolding lift
  Preserves-lift r = record { at = λ s h. h }

  pub Preserves-or_fail : (o : Option A) (e : E) → Preserves P (or_fail o e)
  unfolding or_fail
  Preserves-or_fail none e = record { at = λ s h. h }
  Preserves-or_fail (some a) e = record { at = λ s h. h }

  pub Preserves-gets : (f : S → A) → Preserves P (gets {E = E} f)
  unfolding gets
  Preserves-gets f = record { at = λ s h. h }

  pub Preserves-call : (f : S → A × S) → ((s : S) → P s → P (f s).1) → Preserves P (call {E = E} f)
  unfolding call
  Preserves-call f k = record { at = k }

  pub Preserves-if :
      (b : Bool) (m n : Exec E S A)
      → (b ≡ true → Preserves P m)
      → (b ≡ false → Preserves P n)
      → Preserves P (if b then m else n)
  Preserves-if true m n km kn = km refl
  Preserves-if false m n km kn = kn refl

module _ {E S : Type 0} {P : S → Type 0} where
  pub Preserves-modify : (f : S → S) → ((s : S) → P s → P (f s)) → Preserves P (modify {E = E} f)
  unfolding modify
  Preserves-modify f k = record { at = k }

  pub Preserves-require_that : (b : Bool) (e : E) → Preserves P (require_that b e)
  unfolding require_that
  Preserves-require_that true e = record { at = λ s h. h }
  Preserves-require_that false e = record { at = λ s h. h }

module _ {ℓ} {E S A B : Type ℓ} {P : S → Type ℓ} where
  continue-keeps :
      (r : Result E A) (f : A → Exec E S B) (s : S)
      → P s
      → ((a : A) → Preserves P (f a))
      → P (continue r f s).1
  continue-keeps (ok a) f s h k = (k a).at s h
  continue-keeps (err e) f s h k = h

  pub Preserves-bind :
      (m : Exec E S A) (f : A → Exec E S B)
      → Preserves P m
      → ((a : A) → Preserves P (f a))
      → Preserves P (m >>= f)
  unfolding ◌>>=◌
  Preserves-bind m f km kf = record { at = λ s h. continue-keeps (m s).0 f (m s).1 (km.at s h) kf }

module _ {ℓ} {E S A B : Type ℓ} {P : S → Type ℓ} where
  -- What a first action leaves when it succeeds may be used for the second.
  pub Preserves-bind_if :
      (Q : S → Type ℓ) (m : Exec E S A) (f : A → Exec E S B)
      → Preserves P m
      → ((s : S) → P s → (is_ok (m s).0 ≡ false) ⊎ Q (m s).1)
      → ((a : A) (t : S) → P t → Q t → P (f a t).1)
      → Preserves P (m >>= f)
  unfolding ◌>>=◌
  Preserves-bind_if Q m f km kq kf = record { at = λ s h. go (m s).0 (m s).1 (km.at s h) (kq s h) }
    where
      go : (r : Result E A) (t : S) → P t → (is_ok r ≡ false) ⊎ Q t → P (continue r f t).1
      go (ok a) t h (inl e) = absurd (ground arith)
      go (ok a) t h (inr q) = kf a t h q
      go (err e) t h q = h

pub ruleset preserve_rules = (
  Preserves-pure, Preserves-fail, Preserves-lift, Preserves-or_fail, Preserves-gets, Preserves-if,
  Preserves-require_that, Preserves-bind,
)
