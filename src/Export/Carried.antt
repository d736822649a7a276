-- ===== src/Export/Carried.antt =====
-- Which terms documents the export manifest of operator/src/export.rs names.
use onym_backup.Prelude.{
  ◌≡◌, refl, sym, ap, ◌∙◌, Bool, true, false, ◌&&◌, ◌||◌, not, List, [], ◌∷◌, map, Text, Bytes,
  text, arith, any, select, eq_text, eq_text_iff, Bool-cases, inl, inr, any-append,
}
use onym_backup.Prelude.Sort.Members.{any-map, any_of_select, any-sorted_set}
use onym_backup.Prelude.Exec.{ok, >>=-ok, gets-ok, or_fail-ok, pure-ok}
use onym_backup.Clock.{Clock, Time}
use onym_backup.Store.Rows.{Store, SnapshotRow}
use onym_backup.Store.Snapshots.{is_live, is_held_by, snapshots, listed, distinct, contains}
use onym_backup.Store.Scope.{any-order}
use onym_backup.Store.Receipts.{receipts}
use onym_backup.Store.Erasures.{receipt_terms_ids}
use onym_backup.Operator.{Operator, State, on_store}
use onym_backup.Auth.{Headers, Holder, authenticate}
use onym_backup.Export.Container.{Container, terms_entry, container, manifest}

known :
    (t : Text) (seen ts : List Text)
    → contains t seen ≡ true
    → distinct seen (t ∷ ts) ≡ distinct seen ts
unfolding distinct
known t seen ts e = rw (e, distinct) refl

new :
    (t : Text) (seen ts : List Text)
    → contains t seen ≡ false
    → distinct seen (t ∷ ts) ≡ (t ∷ distinct (t ∷ seen) ts)
unfolding distinct
new t seen ts e = rw (e, distinct) refl

module _ (id : Text) where
  any-distinct :
      (seen ts : List Text)
      → any (λ u. eq_text u id) (distinct seen ts)
        ≡ (any (λ u. eq_text u id) ts && not (contains id seen))
  unfolding distinct any contains
  any-distinct seen [] = refl
  any-distinct seen (t ∷ ts) = elim (Bool-cases (contains t seen)) [
    | inl e ↦
        ap (any (λ u. eq_text u id)) (known t seen ts e)
        ∙ any-distinct seen ts
        ∙ elim (Bool-cases (eq_text t id)) [
          | inl f ↦
              rw (f, sym (ap (λ v. contains v seen) ((eq_text_iff t id).0 f)) ∙ e) (ground arith)
          | inr f ↦ rw f refl
        ]
    | inr e ↦
        ap (any (λ u. eq_text u id)) (new t seen ts e)
        ∙ rw (any-distinct (t ∷ seen) ts) (elim (Bool-cases (eq_text t id)) [
          | inl f ↦ rw (f, sym (ap (λ v. contains v seen) ((eq_text_iff t id).0 f)) ∙ e) refl
          | inr f ↦ rw f refl
        ])
  ]

-- The terms that a live snapshot or a receipt of a holder pins.
abbrev pub pins : Text → Text → Store → Bool
pins handle id s =
    any (λ row. (is_held_by handle row && is_live row) && eq_text row.accepted_terms_id id)
      s.snapshots
    || any (λ row. eq_text row.holder_handle handle && eq_text row.terms_id id) s.erasure_receipts

pinned_live :
    (c : Clock) (handle id : Text) (s : Store)
    → any (λ row. eq_text row.accepted_terms_id id) (snapshots c handle s)
      ≡ any
          (λ row. (is_held_by handle row && is_live row) && eq_text row.accepted_terms_id id)
          s.snapshots
unfolding snapshots listed
pinned_live c handle id s =
    any-order (λ row. c.julianday row.retained_at) (λ row. eq_text row.accepted_terms_id id) _
    ∙ any_of_select (λ row. eq_text row.accepted_terms_id id)
        (λ row. is_held_by handle row && is_live row) s.snapshots

pinned_receipts :
    (handle id : Text) (s : Store)
    → any (λ u. eq_text u id) (receipt_terms_ids handle s)
      ≡ any (λ row. eq_text row.holder_handle handle && eq_text row.terms_id id) s.erasure_receipts
unfolding receipt_terms_ids
pinned_receipts handle id s =
    any-distinct id [] _
    ∙ rw
        (
          any-map (λ u. eq_text u id) (λ row. row.terms_id)
              (select (λ row. eq_text row.holder_handle handle) s.erasure_receipts),
          any_of_select (λ row. eq_text row.terms_id id) (λ row. eq_text row.holder_handle handle)
              s.erasure_receipts,
        )
        (ground arith)

module _ (o : Operator) where
  open o use {clock, crypto, config}

  carried :
      (rows : List SnapshotRow) (found : List (Text × Bytes)) (receipt_terms : List Text)
      (at id : Text)
      → any (λ e. eq_text e.terms_id id) (container o rows found receipt_terms at).terms ≡ (
          any (λ row. eq_text row.accepted_terms_id id) rows
          || any (λ u. eq_text u id) receipt_terms)
  unfolding container terms_entry
  carried rows found receipt_terms at id =
      any-map (λ e. eq_text e.terms_id id) (terms_entry o) _
      ∙ any-sorted_set id _
      ∙ any-append (λ u. eq_text u id) (map (λ row. row.accepted_terms_id) rows) receipt_terms
      ∙ rw (any-map (λ u. eq_text u id) (λ row. row.accepted_terms_id) rows) refl

  -- An export manifest that is served is for an authenticated holder, and names a terms document
  -- exactly when one of that holder's live snapshots or receipts pins it.
  pub manifest_carries :
      (headers : Headers) (now : Time) (s t : State) (served : Container)
      → manifest o headers now s ≡ (ok served, t)
      → (holder : Holder) × (u : State) × (on_store
            (authenticate clock crypto headers (text "GET") (text "/v1/exports") [] config now)
            s
          ≡ (ok holder, u))
        × ((id : Text)
            → any (λ e. eq_text e.terms_id id) served.terms ≡ pins holder.handle id u.store)
  unfolding manifest
  manifest_carries headers now s t served h =
      let (holder, u, e, h1) = >>=-ok _ _ s t served h in
      let h3 = gets-ok _ _ u t served (gets-ok _ _ u t served (gets-ok _ _ u t served h1)) in
      let (at, _, h4) = or_fail-ok _ _ _ u t served h3 in
      let (same, _) = pure-ok _ served u t h4 in
      (
        holder,
        u,
        e,
        λ id.
            ap (λ c. any (λ e. eq_text e.terms_id id) c.terms) same
            ∙ carried (snapshots clock holder.handle u.store) (receipts clock holder.handle u.store)
                (receipt_terms_ids holder.handle u.store) at id
            ∙ rw
                (
                  pinned_live clock holder.handle id u.store,
                  pinned_receipts holder.handle id u.store,
                )
                refl,
      )
