-- ===== src/Sweep/Intact.antt =====
-- What the inspection of step (3) of `reconcile` in operator/src/sweep.rs finds out about a directory,
-- in the terms of the reader that joins its parts.
use mathlib.Core.Option
use onym_backup.Prelude.{
  ℕ, suc, ◌+◌, ◌^◌, ◌≤◌, ◌≡◌, refl, sym, ap, subst, ◌∙◌, ◌⊎◌, Bool, true, false, not, Option, none,
  some, List, [], ◌∷◌, ◌++◌, map, Bytes, arith, ltb, leb, ◌==◌, ◌||◌, ◌&&◌, all, is_lower_hex,
  strip_prefix, if◌then◌else◌, Text, length, length-append, is_some, All, All-map, Bool-cases,
  Option-cases, inl, inr,
}
use onym_backup.Prelude.Int.{ℤ, pos, negsuc, eq_int}
use onym_backup.Prelude.Exec.{ok, err}
use onym_backup.Error.{Error, Fallible, retention_expired}
use onym_backup.Store.Rows.{SnapshotRow}
use onym_backup.Blobs.Digest.{digest_prefix, digest_hex, lower_hex_64}
use onym_backup.Blobs.Disk.{Dir, Blobs, SnapshotPath, snapshot_dir, chunk, part}
use onym_backup.Blobs.Files.{
  place, sort_indices, contiguous, contents, total_size, concat, join_parts, inspect, sized,
  chunk_paths,
}
use onym_backup.Sweep.Bytes.{is_expired, inspect_row, lost_bytes}
use onym_backup.Sweep.Readable.{digest_hex_sound}

-- A directory holds exactly the parts 0, 1, .. of so many, which can be read one after the other and
-- come to so many bytes. Only of parts that come to 2^63 bytes or more is the sum not known.
abbrev pub Intact : ℤ → ℕ → Dir → Type 0
Intact chunk_count sealed_byte_size d =
    (bytes : Bytes) × (pos (length d) ≡ chunk_count)
    × (join_parts (some d) 0 (length d) ≡ some bytes)
    × ((length bytes ≡ sealed_byte_size) ⊎ (2 ^ 63 ≤ length bytes))

length-place : (i : ℕ) (is : List ℕ) → length (place i is) ≡ suc (length is)
unfolding place
length-place i [] = refl
length-place i (j ∷ js) = elim (Bool-cases (leb i j)) [
  | inl e ↦ rw e refl
  | inr e ↦ rw (e, length-place i js) refl
]

length-sort_indices : (is : List ℕ) → length (sort_indices is) ≡ length is
unfolding sort_indices
length-sort_indices [] = refl
length-sort_indices (i ∷ is) = length-place i (sort_indices is) ∙ ap suc (length-sort_indices is)

All-place : (P : ℕ → Type 0) (i : ℕ) (is : List ℕ) → P i → All P is → All P (place i is)
unfolding place
All-place P i [] h k = (h, tt)
All-place P i (j ∷ js) h k = elim (Bool-cases (leb i j)) [
  | inl e ↦ rw e (h, k)
  | inr e ↦ rw e (k.0, All-place P i js h k.1)
]

All-sort_indices : (P : ℕ → Type 0) (is : List ℕ) → All P is → All P (sort_indices is)
unfolding sort_indices
All-sort_indices P [] h = tt
All-sort_indices P (i ∷ is) h = All-place P i (sort_indices is) h.0 (All-sort_indices P is h.1)

later_chunk :
    (j i : ℕ) (b : Bytes) (d : Dir)
    → is_some (chunk i d) ≡ true
    → is_some (chunk i ((j, b) ∷ d)) ≡ true
unfolding chunk
later_chunk j i b d h = elim (Bool-cases (j == i)) [ inl e ↦ rw e refl | inr e ↦ rw e h ]

this_chunk : (j : ℕ) (b : Bytes) (d : Dir) → is_some (chunk j ((j, b) ∷ d)) ≡ true
unfolding chunk
this_chunk j b d = ground arith

indexed : (d : Dir) → All (λ i. is_some (chunk i d) ≡ true) (map (λ e. e.0) d)
indexed [] = tt
indexed ((j, b) ∷ d) = (
  this_chunk j b d,
  All-map (λ i. is_some (chunk i d) ≡ true) (λ i. is_some (chunk i ((j, b) ∷ d)) ≡ true) _
      (λ i h. later_chunk j i b d h) (indexed d),
)

join_next :
    (d : Dir) (k n : ℕ) (b : Bytes)
    → chunk k d ≡ some b
    → join_parts (some d) k (suc n) ≡ Option.map (λ rest. b ++ rest) (join_parts (some d) (suc k) n)
unfolding join_parts part
join_next d k n b e = rw (e, join_parts) refl

contents_next :
    (d : Dir) (i : ℕ) (is : List ℕ) (b : Bytes)
    → chunk i d ≡ some b
    → contents d (i ∷ is) ≡ (b ∷ contents d is)
unfolding contents
contents_next d i is b e = rw (e, contents) refl

first_index : (i k : ℕ) (is : List ℕ) → contiguous k (i ∷ is) ≡ true → i ≡ k
unfolding contiguous
first_index i k is h = ground (arith, h)

other_indices :
    (i k : ℕ) (is : List ℕ) → contiguous k (i ∷ is) ≡ true → contiguous (suc k) is ≡ true
unfolding contiguous
other_indices i k is h = ground (arith, h)

joined :
    (d : Dir) (k : ℕ) (is : List ℕ)
    → contiguous k is ≡ true
    → All (λ i. is_some (chunk i d) ≡ true) is
    → join_parts (some d) k (length is) ≡ some (concat (contents d is))
unfolding join_parts contents concat
joined d k [] h a = refl
joined d k (i ∷ is) h a = elim (Option-cases (chunk i d)) [
  | inl e ↦ absurd (ground (arith, e, a.0))
  | inr (b, e) ↦
      join_next d k (length is) b (ap (λ x. chunk x d) (sym (first_index i k is h)) ∙ e)
      ∙ ap (Option.map (λ rest. b ++ rest)) (joined d (suc k) is (other_indices i k is h) a.1)
      ∙ ap (λ bs. some (concat bs)) (sym (contents_next d i is b e))
]

length-map_index : (d : Dir) → length (map (λ e. e.0) d) ≡ length d
length-map_index [] = refl
length-map_index (e ∷ d) = ap suc (length-map_index d)

-- the sum, or that it does not fit an `i64`
sum_of :
    (t : ℕ) (bs : List Bytes)
    → (total_size t bs ≡ some (t + length (concat bs)))
      ⊎ ((total_size t bs ≡ none) × (2 ^ 63 ≤ t + length (concat bs)))
unfolding total_size concat
sum_of t [] = inl (ap some (omega arith))
sum_of t (b ∷ bs) = elim (Bool-cases (ltb (t + length b) (2 ^ 63))) [
  | inl e ↦ elim (sum_of (t + length b) bs) [
    | inl f ↦ inl (rw (e, total_size) (f ∙ ap some (omega (arith, length-append b (concat bs)))))
    | inr (f, g) ↦ inr (rw (e, total_size) f, omega (arith, length-append b (concat bs), g))
  ]
  | inr e ↦ inr (rw (e, total_size) refl, ground (arith, e, length-append b (concat bs)))
]

passed :
    (a b : Bool) (r : Fallible (List Bytes))
    → is_expired (if not a || not b then err retention_expired else r) ≡ false
    → (a ≡ true) × (b ≡ true) × (is_expired r ≡ false)
unfolding is_expired
passed true true r h = (refl, refl, h)
passed true false r h = cc
passed false b r h = cc

sized_right :
    (size t : ℕ) (parts : List Bytes) → is_expired (sized size parts (some t)) ≡ false → t ≡ size
unfolding sized is_expired
sized_right size t parts h = elim (Bool-cases (t == size)) [
  | inl e ↦ ground (arith, e)
  | inr e ↦ absurd (ground (arith, h, e))
]

same_count : (n : ℕ) (z : ℤ) → eq_int (pos n) z ≡ true → pos n ≡ z
same_count n (pos m) h = ap pos (ground (arith, h))
same_count n (negsuc m) h = cc

-- A directory that is not found to be incomplete is intact.
pub inspect-Intact :
    (d : Dir) (chunk_count : ℤ) (sealed_byte_size : ℕ)
    → is_expired (inspect d chunk_count sealed_byte_size) ≡ false
    → Intact chunk_count sealed_byte_size d
unfolding inspect
inspect-Intact d chunk_count sealed_byte_size h =
    let indices = sort_indices (map (λ e. e.0) d) in
    let count = length-sort_indices (map (λ e. e.0) d) ∙ length-map_index d in
    let (counted, in_order, measured) =
      passed (eq_int (pos (length indices)) chunk_count) (contiguous 0 indices)
        (sized sealed_byte_size (contents d indices) (total_size 0 (contents d indices))) h in
    (
      concat (contents d indices),
      ap pos (sym count) ∙ same_count (length indices) chunk_count counted,
      ap (join_parts (some d) 0) (sym count)
          ∙ joined d 0 indices in_order
              (All-sort_indices (λ i. is_some (chunk i d) ≡ true) (map (λ e. e.0) d) (indexed d)),
      elim (sum_of 0 (contents d indices)) [
        | inl e ↦ inl (
            sized_right sealed_byte_size (length (concat (contents d indices))) (contents d indices)
              (subst (λ t. is_expired (sized sealed_byte_size (contents d indices) t) ≡ false)
                (e ∙ ap some (omega arith)) measured))
        | inr (e, f) ↦ inr (omega (arith, f))
      ],
    )

-- `sha256:` and 64 lowercase hex digits
abbrev pub is_digest : Text → Bool
is_digest digest = elim (strip_prefix digest_prefix digest) [
  | none ↦ false
  | some hex ↦ length hex == 64 && all is_lower_hex hex
]

no_digest : (digest : Text) (e : Error) → digest_hex digest ≡ err e → is_digest digest ≡ false
unfolding digest_hex lower_hex_64
no_digest digest e h = by_rest (strip_prefix digest_prefix digest) h
  where
    by_rest :
        (rest : Option Text)
        → lower_hex_64 rest ≡ err e
        → (elim rest [ none ↦ false | some hex ↦ length hex == 64 && all is_lower_hex hex ]) ≡ false
    by_rest none k = refl
    by_rest (some hex) k = ground (arith, k)

-- The bytes of a row are in place: what it has for a digest is none, or the digest's directory is intact.
abbrev pub InPlace : SnapshotRow → Blobs → Type 0
InPlace row b =
    (is_digest row.digest ≡ false)
    ⊎ ((hex : Text) × (d : Dir) × (row.digest ≡ digest_prefix ++ hex)
        × (snapshot_dir (row.holder_handle, hex) b ≡ some d)
        × Intact row.chunk_count row.sealed_byte_size d)

directory-Intact :
    (path : SnapshotPath) (chunk_count : ℤ) (size : ℕ) (b : Blobs)
    → is_expired (chunk_paths path chunk_count size b) ≡ false
    → (d : Dir) × (snapshot_dir path b ≡ some d) × Intact chunk_count size d
unfolding chunk_paths is_expired
directory-Intact path chunk_count size b h = elim (Option-cases (snapshot_dir path b)) [
  | inl e ↦ absurd (ground (arith, h, e))
  | inr (d, e) ↦
      (d, e, inspect-Intact d chunk_count size (ap is_expired (sym (rw (e, chunk_paths) refl)) ∙ h))
]

pub lost_bytes-InPlace : (row : SnapshotRow) (b : Blobs) → lost_bytes row b ≡ false → InPlace row b
unfolding lost_bytes
lost_bytes-InPlace row b h = by_digest (digest_hex row.digest) refl h
  where
    by_digest :
        (r : Fallible Text)
        → digest_hex row.digest ≡ r
        → inspect_row row r b ≡ false
        → InPlace row b
    by_digest (err e) k g = inl (no_digest row.digest e k)
    by_digest (ok hex) k g =
        let (d, there, intact) =
          directory-Intact (row.holder_handle, hex) row.chunk_count row.sealed_byte_size b g in
        inr (hex, d, digest_hex_sound row.digest hex k, there, intact)
