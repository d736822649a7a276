-- ===== src/Prelude/Checks.antt =====
-- Chains of checks, each of which may refuse: the `?` of Results, kept folded, so that a long chain
-- that succeeded can be taken apart again.
use mathlib.Core.Path.{◌≡◌, refl}
use mathlib.Core.Bool.{Bool, true, false}
use mathlib.Core.Option.{Option, none, some}
use native.Mathlib.Omega.{arith}
use onym_backup.Prelude.Exec.{Result, ok, err}

module _ {E A B : Type 0} where
  infixl 5 ◌>>=◌ ◌>>◌
  unfoldable pub ◌>>=◌ : Result E A → (A → Result E B) → Result E B
  ok a >>= f = f a
  err e >>= f = err e

  abbrev pub ◌>>◌ : Result E A → Result E B → Result E B
  m >> n = m >>= λ _. n

  pub >>=-ok :
      (m : Result E A) (f : A → Result E B) (b : B)
      → (m >>= f) ≡ ok b
      → (a : A) × (m ≡ ok a) × (f a ≡ ok b)
  unfolding ◌>>=◌
  >>=-ok (ok a) f b h = (a, refl, h)
  >>=-ok (err e) f b h = cc

-- `if !b { return Err(e) }`
unfoldable pub require_that : {E : Type 0} → Bool → E → Result E (Unit {0})
require_that true e = ok tt
require_that false e = err e

-- `.ok_or(e)`
unfoldable pub ok_or : {E A : Type 0} → Option A → E → Result E A
ok_or none e = err e
ok_or (some a) e = ok a

module _ {E A : Type 0} where
  pub require_that-ok :
      (c : Bool) (e : E) (n : Result E A) (a : A)
      → (require_that c e >> n) ≡ ok a
      → (c ≡ true) × (n ≡ ok a)
  unfolding require_that ◌>>=◌
  require_that-ok true e n a h = (refl, h)
  require_that-ok false e n a h = cc

  pub ok-injective : (a b : A) → ◌≡◌ {A = Result E A} (ok a) (ok b) → a ≡ b
  ok-injective a b h = ground (arith, h)
