-- ===== src/Store/Epochs.antt =====
-- `cache_epoch` and `latest_epoch` of operator/src/store.rs.
use onym_backup.Prelude.{
  ◌≡◌, refl, true, false, not, Option, none, some, List, [], ◌∷◌, ◌++◌, Text, Bytes, arith,
  if◌then◌else◌, select, all, Bool-cases, inl, inr, select-append,
}
use onym_backup.Prelude.Int.{ℤ, pos, negsuc, eq_int, ltb_int}
use onym_backup.Store.Rows.{Store, EpochRow}

-- INSERT OR REPLACE, then DELETE of all that are older
unfoldable pub cache_epoch : ℤ → Text → Bytes → Store → Store
unfolding select
cache_epoch epoch fetched_at document s = record s {
  revocation_cache =
      select (λ row. not (ltb_int row.epoch epoch))
        (select (λ row. not (eq_int row.epoch epoch)) s.revocation_cache
          ++ record { epoch = epoch; fetched_at = fetched_at; document = document } ∷ []);
}

-- the row with the greatest epoch, which is the primary key
newest : Option EpochRow → List EpochRow → Option EpochRow
newest held [] = held
newest none (row ∷ rows) = newest (some row) rows
newest (some held) (row ∷ rows) =
    newest (some (if ltb_int held.epoch row.epoch then row else held)) rows

unfoldable pub latest_epoch : Store → Option (Bytes × Text)
unfolding newest
latest_epoch s = elim (newest none s.revocation_cache) [
  | none ↦ none
  | some row ↦ some (row.document, row.fetched_at)
]

older : (a b : ℤ) → eq_int a b ≡ false → ltb_int b a ≡ false → ltb_int a b ≡ true
older (pos a) (pos b) h k = ground (arith, h, k)
older (pos a) (negsuc b) h k = ground (arith, h, k)
older (negsuc a) (pos b) h k = refl
older (negsuc a) (negsuc b) h k = ground (arith, h, k)

not_below_itself : (a : ℤ) → ltb_int a a ≡ false
not_below_itself (pos a) = ground arith
not_below_itself (negsuc a) = ground arith

none_newer :
    (epoch : ℤ) (rows : List EpochRow)
    → all (λ row. not (ltb_int epoch row.epoch)) rows ≡ true
    → select
        (λ row. not (ltb_int row.epoch epoch))
        (select (λ row. not (eq_int row.epoch epoch)) rows)
      ≡ []
unfolding all select
none_newer epoch [] h = refl
none_newer epoch (row ∷ rows) h = elim (Bool-cases (eq_int row.epoch epoch)) [
  | inl e ↦ rw e (none_newer epoch rows (ground (arith, h)))
  | inr e ↦
      rw (e, older row.epoch epoch e (ground (arith, h)))
        (none_newer epoch rows (ground (arith, h)))
]

-- An epoch that is cached comes back as the newest, with its document and the time of its fetch, where
-- the cache held none above it.
pub latest_epoch-cache_epoch :
    (epoch : ℤ) (fetched_at : Text) (document : Bytes) (s : Store)
    → all (λ row. not (ltb_int epoch row.epoch)) s.revocation_cache ≡ true
    → latest_epoch (cache_epoch epoch fetched_at document s) ≡ some (document, fetched_at)
unfolding latest_epoch cache_epoch newest
latest_epoch-cache_epoch epoch fetched_at document s h =
    rw
      (
        select-append (λ row. not (ltb_int row.epoch epoch))
            (select (λ row. not (eq_int row.epoch epoch)) s.revocation_cache) _,
        none_newer epoch s.revocation_cache h,
      )
      (rw (not_below_itself epoch) refl)
