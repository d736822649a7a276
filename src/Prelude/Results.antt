-- ===== src/Prelude/Results.antt =====
-- The `?` of functions that touch no state.
use mathlib.Core.Path.{◌≡◌, refl}
use mathlib.Core.Bool.{Bool, true, false}
use mathlib.Core.Option.{Option, none, some}
use onym_backup.Prelude.Exec.{Result, ok, err}

module _ {ℓ} {E A B : Type ℓ} where
  infixl 5 ◌>>=◌ ◌>>◌
  abbrev pub ◌>>=◌ : Result E A → (A → Result E B) → Result E B
  ok a >>= f = f a
  err e >>= f = err e

  abbrev pub ◌>>◌ : Result E A → Result E B → Result E B
  ok a >> n = n
  err e >> n = err e

  -- Inversion of a successful bind.
  pub >>=-ok :
      (m : Result E A) (f : A → Result E B) {b : B}
      → (m >>= f) ≡ ok b
      → (a : A) × (m ≡ ok a) × (f a ≡ ok b)
  >>=-ok (ok a) f h = (a, refl, h)
  >>=-ok (err e) f h = cc

-- `.ok_or(e)`
abbrev pub ok_or {ℓ} : {E A : Type ℓ} → Option A → E → Result E A
ok_or none e = err e
ok_or (some a) e = ok a

-- `if !b { return Err(e) }`
abbrev pub require_that : {E : Type 0} → Bool → E → Result E (Unit {0})
require_that true e = ok tt
require_that false e = err e
