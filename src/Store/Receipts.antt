-- ===== src/Store/Receipts.antt =====
-- `latest_receipts_for_erased_scope` and `receipts` of operator/src/store.rs.
use onym_backup.Prelude.{
  ℕ, Bool, true, false, ◌&&◌, ◌||◌, Option, none, some, List, [], ◌∷◌, map, Text, Bytes, ltb, ◌==◌,
  if◌then◌else◌, any, select, eq_text,
}
use onym_backup.Prelude.Sort.{text_le, sort_by}
use onym_backup.Prelude.Exec.{ok}
use onym_backup.Prelude.Results.{◌>>=◌, ok_or}
use onym_backup.Error.{Fallible, internal}
use onym_backup.Clock.{Clock, Time}
use onym_backup.Store.Rows.{Store, ReceiptRow, CoverRow}

-- the receipt's own scope, or one of the digests among its coverage
unfoldable pub is_relevant : Text → List Text → List CoverRow → ReceiptRow → Bool
unfolding any
is_relevant scope digests covers row =
    eq_text row.scope scope
    || any
        (λ cover.
          eq_text cover.receipt_id row.receipt_id && any (λ d. eq_text d cover.digest) digests)
        covers

-- by terms, then by id
receipt_le : ReceiptRow → ReceiptRow → Bool
unfolding text_le
receipt_le a b =
    if eq_text a.terms_id b.terms_id
    then text_le a.receipt_id b.receipt_id
    else text_le a.terms_id b.terms_id

-- the latest instant, above one that is held
latest : Option ℕ → List (ReceiptRow × Time) → Option ℕ
latest held [] = held
latest none (c ∷ cs) = latest (some c.1.nanos) cs
latest (some n) (c ∷ cs) = latest (some (if ltb n c.1.nanos then c.1.nanos else n)) cs

newest_set : List (ReceiptRow × Time) → Option ℕ → List (Text × Bytes)
unfolding select sort_by receipt_le
newest_set candidates none = []
newest_set candidates (some newest) =
    map (λ row. (row.receipt_id, row.raw))
      (sort_by receipt_le (map (λ c. c.0) (select (λ c. c.1.nanos == newest) candidates)))

module _ (c : Clock) where
  -- the relevant receipts with their instants; one that cannot be read is an error
  unfoldable pub candidates :
      (ReceiptRow → Bool) → List ReceiptRow → Fallible (List (ReceiptRow × Time))
  candidates relevant [] = ok []
  candidates relevant (row ∷ rows) =
      let rest = candidates relevant rows in
      if relevant row
      then (ok_or (c.parse row.issued_at) (internal "stored receipt timestamp") >>= λ at.
          rest >>= λ more. ok ((row, at) ∷ more))
      else rest

  unfoldable pub latest_receipts_for_erased_scope :
      Text → Text → List Text → Store → Fallible (List (Text × Bytes))
  unfolding candidates is_relevant latest newest_set
  latest_receipts_for_erased_scope handle scope digests s =
      candidates
        (λ row.
          eq_text row.holder_handle handle && is_relevant scope digests s.receipt_snapshots row)
        s.erasure_receipts
      >>= λ found. ok (newest_set found (latest none found))

-- ascending, NULL first
unfoldable pub ascending : Option ℕ → Option ℕ → Bool
ascending none b = true
ascending (some a) none = false
ascending (some a) (some b) = if ltb b a then false else true

unfoldable pub receipts : Clock → Text → Store → List (Text × Bytes)
unfolding select sort_by ascending
receipts c handle s =
    map (λ row. (row.receipt_id, row.raw))
      (sort_by (λ a b. ascending (c.julianday a.issued_at) (c.julianday b.issued_at))
        (select (λ row. eq_text row.holder_handle handle) s.erasure_receipts))
