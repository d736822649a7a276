-- ===== src/Store/Counts.antt =====
-- Counting the rows of `snapshots` that pass a test, under the statements that change them.
use onym_backup.Prelude.{
  ◌+◌, ◌≤◌, ◌≡◌, refl, Bool, true, false, List, [], ◌∷◌, ◌++◌, arith, if◌then◌else◌, select, any,
  Bool-cases, inl, inr,
}
use onym_backup.Store.Rows.{SnapshotRow}
use onym_backup.Store.Snapshots.{update, count}

pub count-append :
    (p : SnapshotRow → Bool) (rows : List SnapshotRow) (row : SnapshotRow)
    → count p (rows ++ row ∷ []) ≡ count p rows + (if p row then 1 else 0)
unfolding count select
count-append p [] row = ground arith
count-append p (r ∷ rows) row = elim (Bool-cases (p r)) [
  | inl e ↦ rw e (omega (arith, count-append p rows row))
  | inr e ↦ rw e (count-append p rows row)
]

-- An update adds at most the rows that it changes.
pub count-update :
    (p q : SnapshotRow → Bool) (f : SnapshotRow → SnapshotRow) (rows : List SnapshotRow)
    → count p (update q f rows) ≤ count p rows + count q rows
unfolding count select update
count-update p q f [] = omega arith
count-update p q f (r ∷ rows) = elim (Bool-cases (q r)) [
  | inl e ↦ rw e (elim (Bool-cases (p r)) [
    | inl d ↦ rw d (elim (Bool-cases (p (f r))) [
      | inl g ↦ rw g (omega (arith, count-update p q f rows))
      | inr g ↦ rw g (omega (arith, count-update p q f rows))
    ])
    | inr d ↦ rw d (elim (Bool-cases (p (f r))) [
      | inl g ↦ rw g (omega (arith, count-update p q f rows))
      | inr g ↦ rw g (omega (arith, count-update p q f rows))
    ])
  ])
  | inr e ↦ rw e (elim (Bool-cases (p r)) [
    | inl d ↦ rw d (omega (arith, count-update p q f rows))
    | inr d ↦ rw d (count-update p q f rows)
  ])
]

-- An update that does not change what a test says keeps its count.
pub count-update_same :
    (p q : SnapshotRow → Bool) (f : SnapshotRow → SnapshotRow) (rows : List SnapshotRow)
    → ((row : SnapshotRow) → q row ≡ true → p (f row) ≡ p row)
    → count p (update q f rows) ≡ count p rows
unfolding count select update
count-update_same p q f [] k = refl
count-update_same p q f (r ∷ rows) k = elim (Bool-cases (q r)) [
  | inl e ↦ rw (e, k r e) (ground (arith, count-update_same p q f rows k))
  | inr e ↦ rw e (ground (arith, count-update_same p q f rows k))
]

-- Rows that pass `p` and not `q`, with one that passes both.
pub count-both :
    (p q r : SnapshotRow → Bool) (rows : List SnapshotRow)
    → ((row : SnapshotRow) → p row ≡ true → (r row ≡ true) × (q row ≡ false))
    → ((row : SnapshotRow) → q row ≡ true → r row ≡ true)
    → count p rows + (if any q rows then 1 else 0) ≤ count r rows
unfolding count select any
count-both p q r [] k l = omega arith
count-both p q r (x ∷ rows) k l = elim (Bool-cases (p x)) [
  | inl e ↦ rw (e, (k x e).0, (k x e).1) (omega (arith, count-both p q r rows k l))
  | inr e ↦ rw e (elim (Bool-cases (q x)) [
    | inl d ↦ rw (d, l x d) (ground (arith, count-both p q r rows k l))
    | inr d ↦ rw d (elim (Bool-cases (r x)) [
      | inl g ↦ rw g (omega (arith, count-both p q r rows k l))
      | inr g ↦ rw g (count-both p q r rows k l)
    ])
  ])
]

pub count_zero :
    (p : SnapshotRow → Bool) (rows : List SnapshotRow) → any p rows ≡ false → count p rows ≡ 0
unfolding count select any
count_zero p [] h = refl
count_zero p (x ∷ rows) h = elim (Bool-cases (p x)) [
  | inl e ↦ absurd (ground arith)
  | inr e ↦ rw e (ground (arith, count_zero p rows))
]

pub count-update_off :
    (p q : SnapshotRow → Bool) (f : SnapshotRow → SnapshotRow) (rows : List SnapshotRow)
    → ((row : SnapshotRow) → p (f row) ≡ true → p row ≡ true)
    → count p (update q f rows) ≤ count p rows
unfolding count select update
count-update_off p q f [] k = omega arith
count-update_off p q f (r ∷ rows) k = elim (Bool-cases (q r)) [
  | inl e ↦ rw e (elim (Bool-cases (p (f r))) [
    | inl g ↦ rw (g, k r g) (omega (arith, count-update_off p q f rows k))
    | inr g ↦ rw g (elim (Bool-cases (p r)) [
      | inl d ↦ rw d (omega (arith, count-update_off p q f rows k))
      | inr d ↦ rw d (count-update_off p q f rows k)
    ])
  ])
  | inr e ↦ rw e (elim (Bool-cases (p r)) [
    | inl d ↦ rw d (omega (arith, count-update_off p q f rows k))
    | inr d ↦ rw d (count-update_off p q f rows k)
  ])
]

pub count-select :
    (p q : SnapshotRow → Bool) (rows : List SnapshotRow) → count p (select q rows) ≤ count p rows
unfolding count select
count-select p q [] = omega arith
count-select p q (r ∷ rows) = elim (Bool-cases (q r)) [
  | inl e ↦ rw e (elim (Bool-cases (p r)) [
    | inl d ↦ rw d (omega (arith, count-select p q rows))
    | inr d ↦ rw d (count-select p q rows)
  ])
  | inr e ↦ rw e (elim (Bool-cases (p r)) [
    | inl d ↦ rw d (omega (arith, count-select p q rows))
    | inr d ↦ rw d (count-select p q rows)
  ])
]
