-- ===== src/Store/Erasures/Covered.antt =====
-- The rows of `receipt_snapshots` and the receipts that they name, operator/src/store.rs.
use onym_backup.Prelude.{
  ◌≡◌, sym, subst, ◌∙◌, Bool, true, false, not, ◌&&◌, List, [], ◌∷◌, ◌++◌, Text, arith, any, select,
  eq_text, eq_text_iff, eq_text_refl, Bool-cases, inl, inr, All, All-append,
}
use onym_backup.Clock.{Clock, jd_lt}
use onym_backup.Store.Rows.{Store, ReceiptRow, CoverRow}
use onym_backup.Store.Outcomes.{record_outcome}
use onym_backup.Store.Erasures.{
  NewReceipt, add_covers, add_receipts, commit_erasure, loses_receipt, sweep_outcomes_and_receipts,
}

abbrev pub has_receipt : Text → List ReceiptRow → Bool
has_receipt receipt_id receipts = any (λ row. eq_text row.receipt_id receipt_id) receipts

abbrev pub CoveredRows : List CoverRow → List ReceiptRow → Type 0
CoveredRows covers receipts = All (λ cover. has_receipt cover.receipt_id receipts ≡ true) covers

abbrev pub Covered : Store → Type 0
Covered s = CoveredRows s.receipt_snapshots s.erasure_receipts

module _ (c : Clock) (before : Text) where
  receipt_kept :
      (id : Text) (receipts : List ReceiptRow)
      → has_receipt id receipts ≡ true
      → any (λ row. eq_text row.receipt_id id && jd_lt c row.issued_at before) receipts ≡ false
      → has_receipt id (select (λ row. not (jd_lt c row.issued_at before)) receipts) ≡ true
  unfolding any select
  receipt_kept id [] h k = cc
  receipt_kept id (row ∷ receipts) h k = elim (Bool-cases (jd_lt c row.issued_at before)) [
    | inl e ↦ rw e (ground (arith, e, receipt_kept id receipts))
    | inr e ↦ rw e (ground (arith, e, receipt_kept id receipts))
  ]

  covers_kept :
      (receipts : List ReceiptRow) (covers : List CoverRow)
      → CoveredRows covers receipts
      → CoveredRows
          (select (λ cover. not (loses_receipt c before receipts cover)) covers)
          (select (λ row. not (jd_lt c row.issued_at before)) receipts)
  unfolding select loses_receipt
  covers_kept receipts [] h = tt
  covers_kept receipts (cover ∷ covers) h =
      elim (Bool-cases (loses_receipt c before receipts cover)) [
        | inl e ↦ rw e (covers_kept receipts covers h.1)
        | inr e ↦
            rw e (receipt_kept cover.receipt_id receipts h.0 e, covers_kept receipts covers h.1)
      ]

added :
    (new : ReceiptRow) (receipts : List ReceiptRow)
    → has_receipt new.receipt_id (receipts ++ new ∷ []) ≡ true
unfolding any
added new [] = ground (arith, eq_text_refl new.receipt_id)
added new (row ∷ receipts) = ground (arith, added new receipts)

replaced :
    (id : Text) (new : ReceiptRow) (receipts : List ReceiptRow)
    → has_receipt id receipts ≡ true
    → has_receipt id
        (select (λ row. not (eq_text row.receipt_id new.receipt_id)) receipts ++ new ∷ [])
      ≡ true
unfolding any select
replaced id new [] h = cc
replaced id new (row ∷ receipts) h = elim (Bool-cases (eq_text row.receipt_id new.receipt_id)) [
  | inl e ↦ rw e (elim (Bool-cases (eq_text row.receipt_id id)) [
    | inl here ↦
        subst
          (λ i.
            has_receipt i
              (select (λ r. not (eq_text r.receipt_id new.receipt_id)) receipts ++ new ∷ [])
            ≡ true)
          (sym ((eq_text_iff row.receipt_id new.receipt_id).0 e)
            ∙ (eq_text_iff row.receipt_id id).0 here)
          (added new (select (λ r. not (eq_text r.receipt_id new.receipt_id)) receipts))
    | inr away ↦ replaced id new receipts (ground (arith, h, away))
  ])
  | inr e ↦ rw e (ground (arith, replaced id new receipts))
]

covers_replaced :
    (new : ReceiptRow) (receipts : List ReceiptRow) (covers : List CoverRow)
    → CoveredRows covers receipts
    → CoveredRows covers
        (select (λ row. not (eq_text row.receipt_id new.receipt_id)) receipts ++ new ∷ [])
covers_replaced new receipts [] h = tt
covers_replaced new receipts (cover ∷ covers) h =
    (replaced cover.receipt_id new receipts h.0, covers_replaced new receipts covers h.1)

covers_added :
    (id : Text) (digests : List Text) (receipts : List ReceiptRow) (covers : List CoverRow)
    → has_receipt id receipts ≡ true
    → CoveredRows covers receipts
    → CoveredRows (add_covers id digests covers) receipts
unfolding add_covers
covers_added id [] receipts covers there h = h
covers_added id (digest ∷ digests) receipts covers there h =
    elim (Bool-cases (any (λ row. eq_text row.receipt_id id && eq_text row.digest digest) covers)) [
      | inl e ↦ rw e (covers_added id digests receipts covers there h)
      | inr e ↦ rw e (
          covers_added id digests receipts _ there (
            All-append (λ cover. has_receipt cover.receipt_id receipts ≡ true) covers _ h
              (there, tt)))
    ]

receipts-Covered :
    (handle scope stamp : Text) (rs : List NewReceipt) (s : Store)
    → Covered s
    → Covered (add_receipts handle scope stamp rs s)
unfolding add_receipts
receipts-Covered handle scope stamp [] s h = h
receipts-Covered handle scope stamp (r ∷ rs) s h =
    let new : ReceiptRow = record {
      receipt_id = r.receipt_id;
      holder_handle = handle;
      scope = scope;
      terms_id = r.terms_id;
      raw = r.raw;
      issued_at = stamp;
    } in
    receipts-Covered handle scope stamp rs _ (
      covers_added r.receipt_id r.covers _ s.receipt_snapshots
        (added new (select (λ row. not (eq_text row.receipt_id r.receipt_id)) s.erasure_receipts))
        (covers_replaced new s.erasure_receipts s.receipt_snapshots h))

-- If every covered digest is listed under a receipt that is there, then the erasure transaction and
-- the sweep of aged outcomes and receipts, at any cutoffs, keep it so: no coverage is left without
-- its receipt.
pub coverage_kept :
    (c : Clock) (s : Store)
    → Covered s
    → ((handle scope : Text) (digests : List Text) (receipts : List NewReceipt)
          (operation_id stamp : Text)
        → Covered (commit_erasure handle scope digests receipts operation_id stamp s))
      × ((uploads_before receipts_before : Text)
          → Covered (sweep_outcomes_and_receipts c uploads_before receipts_before s).1)
unfolding commit_erasure record_outcome sweep_outcomes_and_receipts
coverage_kept c s h = (
  λ handle scope digests receipts operation_id stamp.
      receipts-Covered handle scope stamp receipts _ h,
  λ uploads_before receipts_before.
      covers_kept c receipts_before s.erasure_receipts s.receipt_snapshots h,
)
