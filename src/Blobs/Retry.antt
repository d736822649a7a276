-- ===== src/Blobs/Retry.antt =====
-- What a chunk that was accepted means for later ones, `write_chunk` in operator/src/blobs.rs.
use onym_backup.Prelude.{
  ℕ, ◌≡◌, refl, sym, ap, subst, ◌∙◌, false, none, some, [], ◌∷◌, Text, Bytes, arith, ◌==◌, ltb,
  if◌then◌else◌, eq_text, eq_text_iff, eq_text_refl, Option-cases, Bool-cases, inl, inr,
}
use onym_backup.Prelude.Assoc.{insert, lookup-insert}
use onym_backup.Prelude.Exec.{ok, err, is_ok}
use onym_backup.Error.{chunk_mismatch}
use onym_backup.Blobs.Disk.{Dir, Blobs, chunk, add_chunk, incoming_dir}
use onym_backup.Blobs.Files.{write_chunk}

pub chunk-add_chunk :
    (i j : ℕ) (b : Bytes) (d : Dir)
    → chunk i d ≡ none
    → chunk j (add_chunk i b d) ≡ (if i == j then some b else chunk j d)
unfolding chunk add_chunk
chunk-add_chunk i j b [] h = refl
chunk-add_chunk i j b ((k, c) ∷ d) h = elim (Bool-cases (ltb i k)) [
  | inl e ↦ rw e refl
  | inr e ↦ rw e (ground (arith, chunk-add_chunk i j b d))
]

module _ (u : Text) (i : ℕ) (bytes : Bytes) (b : Blobs) (d : Dir) where
  absent : incoming_dir u b ≡ none → is_ok (write_chunk u i bytes b).0 ≡ false
  unfolding write_chunk
  absent e = rw e refl

  stored :
      incoming_dir u b ≡ some d
      → chunk i d ≡ none
      → write_chunk u i bytes b
        ≡ (ok tt, record b { incoming = insert eq_text u (add_chunk i bytes d) b.incoming })
  unfolding write_chunk
  stored e f = ground (arith, e, f)

  repeated :
      (old : Bytes)
      → incoming_dir u b ≡ some d
      → chunk i d ≡ some old
      → write_chunk u i bytes b
        ≡ (if eq_text old bytes then (ok tt, b) else (err chunk_mismatch, b))
  unfolding write_chunk
  repeated old e f = ground (arith, e, f)

  inserted :
      incoming_dir u (record b { incoming = insert eq_text u (add_chunk i bytes d) b.incoming })
      ≡ some (add_chunk i bytes d)
  unfolding incoming_dir
  inserted = lookup-insert eq_text eq_text_iff u u _ b.incoming ∙ rw (eq_text_refl u) refl

-- The directory of an upload after a chunk was accepted.
write_chunk-part :
    (u : Text) (i : ℕ) (bytes : Bytes) (b t : Blobs)
    → write_chunk u i bytes b ≡ (ok tt, t)
    → (d : Dir) × (incoming_dir u t ≡ some d) × (chunk i d ≡ some bytes)
write_chunk-part u i bytes b t h = elim (Option-cases (incoming_dir u b)) [
  | inl e ↦ absurd (ground (arith, ap (λ r. is_ok r.0) h, absent u i bytes b [] e))
  | inr (d, e) ↦ elim (Option-cases (chunk i d)) [
    | inl f ↦ (
      add_chunk i bytes d,
      subst (λ v. incoming_dir u v ≡ some (add_chunk i bytes d))
          (ap (λ r. r.1) (sym (stored u i bytes b d e f) ∙ h)) (inserted u i bytes b d),
      chunk-add_chunk i i bytes d f ∙ ground arith,
    )
    | inr (old, f) ↦ (
      d,
      ground (arith, repeated u i bytes b d old e f, h, e),
      ground (arith, repeated u i bytes b d old e f, eq_text_iff old bytes),
    )
  ]
]

-- Once a chunk was accepted, sending that index again changes nothing: the same bytes are accepted
-- and other bytes are refused as a mismatch.
pub write_chunk_again :
    (u : Text) (i : ℕ) (bytes other : Bytes) (b t : Blobs)
    → write_chunk u i bytes b ≡ (ok tt, t)
    → write_chunk u i other t
      ≡ (if eq_text bytes other then (ok tt, t) else (err chunk_mismatch, t))
write_chunk_again u i bytes other b t h =
    let (d, e, f) = write_chunk-part u i bytes b t h in repeated u i other t d bytes e f
