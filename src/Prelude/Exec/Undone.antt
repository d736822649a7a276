-- ===== src/Prelude/Exec/Undone.antt =====
-- What holds of the state that a failed run leaves, one rule for each way to build an action.
use mathlib.Core.Path.{◌≡◌, refl}
use mathlib.Core.Bool.{Bool, true, false}
use native.Mathlib.Omega.{arith}
use onym_backup.Prelude.Tests.{if◌then◌else◌}
use onym_backup.Prelude.Exec.{
  Result, ok, err, is_ok, Exec, pure, lift, gets, modify, continue, ◌>>=◌,
}
use onym_backup.Prelude.Exec.Preserves.{Preserves}

-- Where `m` fails, it leaves `P`.
pub record Undone {ℓ} {E S A : Type ℓ} (P : S → Type ℓ) (m : Exec E S A) : Type ℓ where
  pub at : (s : S) → P s → is_ok (m s).0 ≡ false → P (m s).1

module _ {ℓ} {E S A : Type ℓ} {P : S → Type ℓ} where
  pub Undone-Preserves : (m : Exec E S A) → Preserves P m → Undone P m
  Undone-Preserves m k = record { at = λ s h _. k.at s h }

  pub Undone-pure : (a : A) → Undone P (pure {E = E} a)
  unfolding pure
  Undone-pure a = record { at = λ s h _. h }

  pub Undone-if :
      (b : Bool) (m n : Exec E S A) → Undone P m → Undone P n → Undone P (if b then m else n)
  Undone-if true m n km kn = km
  Undone-if false m n km kn = kn

module _ {E S A : Type 0} {P : S → Type 0} where
  -- A step that changes the state, where all that follows it succeeds.
  pub Undone-step :
      (f : S → S) (m : Exec E S A)
      → ((s : S) → P s → is_ok (m (f s)).0 ≡ true)
      → Undone P (modify f >>= λ _. m)
  unfolding ◌>>=◌
  Undone-step f m k = record { at = λ s h e. absurd (ground (arith, k s h)) }

module _ {ℓ} {E S A B : Type ℓ} {P : S → Type ℓ} where
  continue-Undone :
      (r : Result E A) (f : A → Exec E S B) (s : S)
      → P s
      → ((a : A) → Undone P (f a))
      → is_ok (continue r f s).0 ≡ false
      → P (continue r f s).1
  continue-Undone (ok a) f s h k e = (k a).at s h e
  continue-Undone (err x) f s h k e = h

  pub Undone-bind :
      (m : Exec E S A) (f : A → Exec E S B)
      → Preserves P m
      → ((a : A) → Undone P (f a))
      → Undone P (m >>= f)
  unfolding ◌>>=◌
  Undone-bind m f km kf = record {
    at = λ s h e. continue-Undone (m s).0 f (m s).1 (km.at s h) kf e;
  }

  -- What was read may be used for what follows.
  pub Undone-gets :
      (g : S → A) (f : A → Exec E S B)
      → ((s : S) → P s → is_ok (f (g s) s).0 ≡ false → P (f (g s) s).1)
      → Undone P (gets g >>= f)
  unfolding ◌>>=◌
  Undone-gets g f k = record { at = k }

  pub Undone-lift :
      (r : Result E A) (f : A → Exec E S B) → ((a : A) → Undone P (f a)) → Undone P (lift r >>= f)
  unfolding ◌>>=◌
  Undone-lift r f kf = record { at = λ s h e. continue-Undone r f s h kf e }

module _ {ℓ} {E S A B : Type ℓ} where
  pub lift-succeeds :
      (r : Result E A) (f : A → B) (s : S)
      → is_ok r ≡ true
      → is_ok ((lift r >>= λ a. pure (f a)) s).0 ≡ true
  unfolding ◌>>=◌
  lift-succeeds (ok a) f s h = h
  lift-succeeds (err e) f s h = h

module _ {S A : Type 0} where
  pub modify-succeeds :
      (E : Type 0) (f : S → S) (a : A) (s : S)
      → is_ok ((modify {E = E} f >>= λ _. pure a) s).0 ≡ true
  unfolding ◌>>=◌
  modify-succeeds E f a s = refl

module _ {ℓ} {E S A B : Type ℓ} (P : S → Type ℓ) where
  continue-then :
      (r : Result E A) (f : A → Exec E S B) (s : S)
      → (is_ok r ≡ false → P s)
      → ((a : A) (t : S) → is_ok (f a t).0 ≡ true)
      → is_ok (continue r f s).0 ≡ false
      → P (continue r f s).1
  continue-then (ok a) f s h k e = absurd (ground (arith, k a s))
  continue-then (err x) f s h k e = ground (arith, h)

  -- After the last step that can fail.
  pub Undone-then :
      (m : Exec E S A) (f : A → Exec E S B)
      → Undone P m
      → ((a : A) (t : S) → is_ok (f a t).0 ≡ true)
      → Undone P (m >>= f)
  unfolding ◌>>=◌
  Undone-then m f km kf = record { at = λ s h e. continue-then (m s).0 f (m s).1 (km.at s h) kf e }
