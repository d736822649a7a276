-- ===== src/Blobs/Arrival.antt =====
-- `arrival` of operator/src/blobs.rs: the bytes that have come and the ranges that have not.
use native.Mathlib.Nat.{add-zero, zero-add}
use mathlib.Core.List.{reverse, reverse-cons, reverse-reverse}
use onym_backup.Prelude.{
  ℕ, zero, suc, ◌+◌, ◌≤◌, ◌<◌, ◌≡◌, refl, Bool, true, not, ◌&&◌, Option, none, some, List, [], ◌∷◌,
  Bytes, ◌==◌, ltb, leb, if◌then◌else◌, is_some, length, any, arith, Option-cases, inl, inr,
  any-append, subst, ap, ◌∙◌,
}
use onym_backup.Prelude.Int.{ℤ, pos_part}
use onym_backup.Blobs.Disk.{Dir, part}

abbrev pub Range : Type 0
Range = ℕ × ℕ

-- One missing index: it lengthens the last range if it follows it. The last range is the head.
unfoldable pub note_missing : ℕ → List Range → List Range
note_missing index [] = (index, index) ∷ []
note_missing index ((first, last) ∷ ranges) =
    if suc last == index then (first, index) ∷ ranges else (index, index) ∷ (first, last) ∷ ranges

visit : Option Bytes → ℕ → ℕ × List Range → ℕ × List Range
visit (some bytes) index (total, ranges) = (total + length bytes, ranges)
visit none index (total, ranges) = (total, note_missing index ranges)

-- `for index in ..`, from `index` on for as many rounds as are left
unfoldable pub arrival_loop : ℕ → ℕ → Option Dir → ℕ × List Range → ℕ × List Range
unfolding visit note_missing
arrival_loop zero index d acc = acc
arrival_loop (suc rounds) index d acc =
    arrival_loop rounds (suc index) d (visit (part d index) index acc)

-- `0..chunk_count` is empty at a negative count
unfoldable pub arrival : Option Dir → ℤ → ℕ × List Range
unfolding arrival_loop
arrival d chunk_count =
    let (total, ranges) = arrival_loop (pos_part chunk_count) 0 d (0, []) in (total, reverse ranges)

abbrev pub in_range : ℕ → Range → Bool
in_range i r = leb r.0 i && leb i r.1

unfoldable pub in_ranges : ℕ → List Range → Bool
unfolding any
in_ranges i = any (in_range i)

-- The ranges seen so far: each is not empty, and a gap separates it from the one before.
abbrev pub Separated : List Range → Type 0
Separated [] = Unit {0}
Separated (r ∷ []) = r.0 ≤ r.1
Separated (r ∷ q ∷ rs) = (r.0 ≤ r.1) × (q.1 + 1 < r.0) × Separated (q ∷ rs)

abbrev pub size : Option Bytes → ℕ
size none = 0
size (some b) = length b

-- What the loop knows before it visits `index`.
record Tracks (d : Option Dir) (index : ℕ) (ranges : List Range) : Type 0 where
  exact : (i : ℕ) → in_ranges i ranges ≡ (ltb i index && not (is_some (part d i)))
  separated : Separated ranges

head_ordered : (r : Range) (rs : List Range) → Separated (r ∷ rs) → r.0 ≤ r.1
head_ordered r [] h = h
head_ordered r (q ∷ rs) h = h.0

note_missing-exact :
    (d : Option Dir) (index : ℕ) (ranges : List Range)
    → part d index ≡ none
    → Tracks d index ranges
    → (i : ℕ)
    → in_ranges i (note_missing index ranges) ≡ (ltb i (suc index) && not (is_some (part d i)))
unfolding in_ranges note_missing
note_missing-exact d index [] e t i = ground (arith, t.exact i)
note_missing-exact d index ((first, last) ∷ ranges) e t i =
    ground (arith, t.exact i, t.exact last, head_ordered (first, last) ranges t.separated)

note_missing-Separated :
    (d : Option Dir) (index : ℕ) (ranges : List Range)
    → Tracks d index ranges
    → Separated (note_missing index ranges)
unfolding note_missing in_ranges
note_missing-Separated d index [] t = omega arith
note_missing-Separated d index ((first, last) ∷ []) t = ground (arith, t.exact last)
note_missing-Separated d index ((first, last) ∷ r ∷ rs) t = ground (arith, t.exact last)

visit-Tracks :
    (d : Option Dir) (index : ℕ) (total : ℕ) (ranges : List Range)
    → Tracks d index ranges
    → Tracks d (suc index) (visit (part d index) index (total, ranges)).1
unfolding visit
visit-Tracks d index total ranges t = elim (Option-cases (part d index)) [
  | inl e ↦ rw e (record {
    exact = note_missing-exact d index ranges e t;
    separated = note_missing-Separated d index ranges t;
  })
  | inr (b, e) ↦ rw e (record { exact = λ i. ground (arith, t.exact i); separated = t.separated })
]

any-reverse : (p : Range → Bool) (rs : List Range) → any p (reverse rs) ≡ any p rs
unfolding any
any-reverse p [] = refl
any-reverse p (r ∷ rs) =
    rw (reverse-cons r rs, any-append p (reverse rs) (r ∷ []), any-reverse p rs) (ground arith)

add-suc-left : (a b : ℕ) → a + suc b ≡ suc a + b
add-suc-left a b = omega arith

loop-Tracks :
    (rounds index : ℕ) (d : Option Dir) (total : ℕ) (ranges : List Range)
    → Tracks d index ranges
    → Tracks d (index + rounds) (arrival_loop rounds index d (total, ranges)).1
unfolding arrival_loop
loop-Tracks zero index d total ranges t = rw add-zero t
loop-Tracks (suc rounds) index d total ranges t =
    let next = visit (part d index) index (total, ranges) in
    rw (add-suc-left index rounds)
      (loop-Tracks rounds (suc index) d next.0 next.1 (visit-Tracks d index total ranges t))

-- The bytes of the parts from `index` on.
pub sizes : Option Dir → ℕ → ℕ → ℕ
sizes d index zero = 0
sizes d index (suc rounds) = size (part d index) + sizes d (suc index) rounds

visit-size :
    (o : Option Bytes) (index total : ℕ) (ranges : List Range)
    → (visit o index (total, ranges)).0 ≡ total + size o
unfolding visit
visit-size none index total ranges = omega arith
visit-size (some b) index total ranges = refl

loop-sizes :
    (rounds index : ℕ) (d : Option Dir) (total : ℕ) (ranges : List Range)
    → (arrival_loop rounds index d (total, ranges)).0 ≡ total + sizes d index rounds
unfolding arrival_loop sizes
loop-sizes zero index d total ranges = omega arith
loop-sizes (suc rounds) index d total ranges =
    let next = visit (part d index) index (total, ranges) in
    omega (
      arith,
      loop-sizes rounds (suc index) d next.0 next.1,
      visit-size (part d index) index total ranges,
    )

pub arrival-sizes :
    (d : Option Dir) (chunk_count : ℤ)
    → (arrival d chunk_count).0 ≡ sizes d 0 (pos_part chunk_count)
unfolding arrival
arrival-sizes d chunk_count = loop-sizes (pos_part chunk_count) 0 d 0 [] ∙ omega arith

tracked : (d : Option Dir) (n : ℕ) → Tracks d n (arrival_loop n 0 d (0, [])).1
unfolding in_ranges
tracked d n =
    subst (λ k. Tracks d k (arrival_loop n 0 d (0, [])).1) (zero-add n)
      (loop-Tracks n 0 d 0 [] (record { exact = λ i. ground arith; separated = tt }))

-- The ranges that `arrival` reports hold exactly the indices below the chunk count that have not
-- come; read from the last one back, each is nonempty and a gap of an arrived index or more
-- separates it from the one before.
pub arrival_exact :
    (d : Option Dir) (chunk_count : ℤ)
    → ((i : ℕ)
        → in_ranges i (arrival d chunk_count).1
          ≡ (ltb i (pos_part chunk_count) && not (is_some (part d i))))
      × Separated (reverse (arrival d chunk_count).1)
unfolding arrival in_ranges
arrival_exact d chunk_count =
    let t = tracked d (pos_part chunk_count) in
    (λ i. rw any-reverse (t.exact i), rw reverse-reverse t.separated)

-- An empty report means that every part is there.
pub arrival_complete :
    (d : Option Dir) (chunk_count : ℤ) (i : ℕ)
    → (arrival d chunk_count).1 ≡ []
    → i < pos_part chunk_count
    → is_some (part d i) ≡ true
unfolding in_ranges
arrival_complete d chunk_count i e h =
    ground (arith, (arrival_exact d chunk_count).0 i, ap (in_ranges i) e)
