-- ===== src/Revocation/Newest.antt =====
-- A sequence of offers to `install` of operator/src/revocation.rs.
use onym_backup.Prelude.{
  ◌≡◌, refl, true, false, Option, none, some, List, [], ◌∷◌, arith, All, Bool-cases, inl, inr,
}
use onym_backup.Prelude.Int.{ℤ, pos, negsuc, ltb_int}
use onym_backup.Clock.{Time}
use onym_backup.Operator.{Epoch}
use onym_backup.Revocation.{install}

abbrev pub Held : Type 0
Held = Option (Epoch × Time)

unfoldable pub install_all : List (Epoch × Time) → Held → Held
unfolding install
install_all [] held = held
install_all (offer ∷ offers) held = install_all offers (install offer.0 offer.1 held).1

-- The cache holds an epoch that is not below a number.
abbrev pub AtLeast : ℤ → Held → Type 0
AtLeast n held = (h : Epoch × Time) × (held ≡ some h) × (ltb_int h.0.epoch n ≡ false)

keep_order : (a b n : ℤ) → ltb_int a b ≡ false → ltb_int b n ≡ false → ltb_int a n ≡ false
keep_order (pos a) (pos b) (pos n) h k = ground arith
keep_order (pos a) (pos b) (negsuc n) h k = refl
keep_order (pos a) (negsuc b) (pos n) h k = absurd (ground arith)
keep_order (pos a) (negsuc b) (negsuc n) h k = refl
keep_order (negsuc a) (pos b) n h k = absurd (ground arith)
keep_order (negsuc a) (negsuc b) (pos n) h k = absurd (ground arith)
keep_order (negsuc a) (negsuc b) (negsuc n) h k = ground arith

irreflexive : (a : ℤ) → ltb_int a a ≡ false
irreflexive (pos a) = ground arith
irreflexive (negsuc a) = ground arith

asymmetric : (a b : ℤ) → ltb_int a b ≡ true → ltb_int b a ≡ false
asymmetric (pos a) (pos b) h = ground arith
asymmetric (pos a) (negsuc b) h = absurd (ground arith)
asymmetric (negsuc a) (pos b) h = refl
asymmetric (negsuc a) (negsuc b) h = ground arith

install-AtLeast :
    (n : ℤ) (offer : Epoch × Time) (held : Held)
    → AtLeast n held
    → AtLeast n (install offer.0 offer.1 held).1
unfolding install
install-AtLeast n offer none (h, e, k) = absurd (ground arith)
install-AtLeast n offer (some g) (h, e, k) = elim (Bool-cases (ltb_int offer.0.epoch g.0.epoch)) [
  | inl below ↦ rw below (h, e, k)
  | inr above ↦
      rw above (offer, refl, keep_order offer.0.epoch g.0.epoch n above (ground (arith, e, k)))
]

all-AtLeast :
    (n : ℤ) (offers : List (Epoch × Time)) (held : Held)
    → AtLeast n held
    → AtLeast n (install_all offers held)
unfolding install_all
all-AtLeast n [] held h = h
all-AtLeast n (offer ∷ offers) held h = all-AtLeast n offers _ (install-AtLeast n offer held h)

offered :
    (offer : Epoch × Time) (held : Held) → AtLeast offer.0.epoch (install offer.0 offer.1 held).1
unfolding install
offered offer none = (offer, refl, irreflexive offer.0.epoch)
offered offer (some g) = elim (Bool-cases (ltb_int offer.0.epoch g.0.epoch)) [
  | inl below ↦ rw below (g, refl, asymmetric offer.0.epoch g.0.epoch below)
  | inr above ↦ rw above (offer, refl, irreflexive offer.0.epoch)
]

-- Whatever epochs are offered and in whatever order, the one in force afterwards is not older than
-- any of them: a stale document that is published again un-revokes nothing.
pub install_newest :
    (offers : List (Epoch × Time)) (held : Held)
    → All (λ offer. AtLeast offer.0.epoch (install_all offers held)) offers
unfolding install_all
install_newest [] held = tt
install_newest (offer ∷ offers) held =
    (all-AtLeast offer.0.epoch offers _ (offered offer held), install_newest offers _)
