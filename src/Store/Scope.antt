-- ===== src/Store/Scope.antt =====
-- What `snapshots_in_scope` of operator/src/store.rs finds.
use onym_backup.Prelude.{
  ◌≡◌, refl, ◌∙◌, Bool, ◌&&◌, ◌||◌, List, [], ◌∷◌, map, Text, arith, select, any, eq_text,
  eq_text_iff, Bool-cases, inl, inr, All, All-select, ℕ, Option,
}
use onym_backup.Prelude.Sort.Members.{any_of_select}
use onym_backup.Clock.{Clock}
use onym_backup.Store.Rows.{Store, SnapshotRow}
use onym_backup.Store.Snapshots.{
  is_live, is_held_by, is_snapshot, scope_all, snapshot_exists, order_desc, place_desc, above,
  listed, snapshots, snapshots_in_scope,
}
use onym_backup.Store.Erasures.Erased.{named}

module _ {A : Type 0} (key : A → Option ℕ) where
  any-place : (p : A → Bool) (x : A) (xs : List A) → any p (place_desc key x xs) ≡ (p x || any p xs)
  unfolding place_desc any
  any-place p x [] = refl
  any-place p x (y ∷ ys) = elim (Bool-cases (above (key x) (key y))) [
    | inl e ↦ rw e refl
    | inr e ↦ rw e (ground (arith, any-place p x ys))
  ]

  pub any-order : (p : A → Bool) (xs : List A) → any p (order_desc key xs) ≡ any p xs
  unfolding order_desc any
  any-order p [] = refl
  any-order p (x ∷ xs) = any-place p x (order_desc key xs) ∙ rw (any-order p xs) refl

  All-place : (P : A → Type 0) (x : A) (xs : List A) → P x → All P xs → All P (place_desc key x xs)
  unfolding place_desc
  All-place P x [] h k = (h, tt)
  All-place P x (y ∷ ys) h k = elim (Bool-cases (above (key x) (key y))) [
    | inl e ↦ rw e (h, k)
    | inr e ↦ rw e (k.0, All-place P x ys h k.1)
  ]

  All-order : (P : A → Type 0) (xs : List A) → All P xs → All P (order_desc key xs)
  unfolding order_desc
  All-order P [] h = tt
  All-order P (x ∷ xs) h = All-place P x (order_desc key xs) h.0 (All-order P xs h.1)

named-map :
    (d : Text) (rows : List SnapshotRow)
    → named d (map (λ row. row.digest) rows) ≡ any (λ row. eq_text row.digest d) rows
unfolding any
named-map d [] = refl
named-map d (row ∷ rows) = rw (named-map d rows) refl

live_named :
    (handle d : Text) (rows : List SnapshotRow)
    → any (λ row. (is_held_by handle row && is_live row) && eq_text row.digest d) rows
      ≡ any (λ row. is_snapshot handle d row && is_live row) rows
unfolding any
live_named handle d [] = refl
live_named handle d (row ∷ rows) = ground (arith, live_named handle d rows)

scoped :
    (scope d : Text) (rows : List SnapshotRow)
    → any (λ row. eq_text row.digest d) (select (λ row. eq_text row.digest scope) rows)
      ≡ (eq_text d scope && any (λ row. eq_text row.digest d) rows)
unfolding any select
scoped scope d [] = ground arith
scoped scope d (row ∷ rows) = ground (
  arith,
  scoped scope d rows,
  eq_text_iff row.digest d,
  eq_text_iff row.digest scope,
  eq_text_iff d scope,
)

module _ (c : Clock) where
  listed_named :
      (handle d : Text) (s : Store)
      → any (λ row. eq_text row.digest d) (snapshots c handle s) ≡ snapshot_exists handle d s
  unfolding snapshots listed snapshot_exists
  listed_named handle d s =
      any-order (λ row. c.julianday row.retained_at) (λ row. eq_text row.digest d) _
      ∙ any_of_select (λ row. eq_text row.digest d) (λ row. is_held_by handle row && is_live row)
          s.snapshots
      ∙ live_named handle d s.snapshots

  -- The digests in scope are those of the holder's live snapshots that the scope names.
  pub named-snapshots_in_scope :
      (handle scope d : Text) (s : Store)
      → named d (map (λ row. row.digest) (snapshots_in_scope c handle scope s))
        ≡ ((eq_text scope scope_all || eq_text d scope) && snapshot_exists handle d s)
  unfolding snapshots_in_scope
  named-snapshots_in_scope handle scope d s =
      named-map d _ ∙ elim (Bool-cases (eq_text scope scope_all)) [
        | inl e ↦ rw e (listed_named handle d s)
        | inr e ↦ rw e (scoped scope d (snapshots c handle s) ∙ rw (listed_named handle d s) refl)
      ]

  pub All-snapshots_in_scope :
      (P : SnapshotRow → Type 0) (handle scope : Text) (s : Store)
      → All P s.snapshots
      → All P (snapshots_in_scope c handle scope s)
  unfolding snapshots_in_scope snapshots listed
  All-snapshots_in_scope P handle scope s h =
      let rows =
        All-order (λ row. c.julianday row.retained_at) P _
          (All-select P (λ row. is_held_by handle row && is_live row) s.snapshots h) in
      elim (Bool-cases (eq_text scope scope_all)) [
        | inl e ↦ rw e rows
        | inr e ↦ rw e (All-select P (λ row. eq_text row.digest scope) _ rows)
      ]
