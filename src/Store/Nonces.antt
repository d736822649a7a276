-- ===== src/Store/Nonces.antt =====
-- `record_nonce` and `sweep_nonces` of operator/src/store.rs.
use mathlib.Core.List.{append-nil}
use onym_backup.Prelude.{
  ℕ, ◌-◌, ◌≡◌, Bool, true, false, not, ◌&&◌, List, [], ◌∷◌, ◌++◌, Text, eq_text, arith, length,
  select, any, if◌then◌else◌, eq_text_refl, select-append, any-false-select,
}
use onym_backup.Clock.{Clock, jd_lt}
use onym_backup.Store.Rows.{Store, NonceRow}

unfoldable pub has_key : Text → Text → NonceRow → Bool
has_key handle nonce row = eq_text row.holder_handle handle && eq_text row.nonce nonce

-- the single-use check: is the pair in the table?
unfoldable pub seen : List NonceRow → Text → Text → Bool
unfolding has_key any
seen rows handle nonce = any (has_key handle nonce) rows

-- INSERT OR IGNORE; the result is whether a row was inserted
unfoldable pub record_nonce : Text → Text → Text → Store → Bool × Store
record_nonce handle nonce now s = if seen s.seen_nonces handle nonce then (false, s) else (
  true,
  record s {
    seen_nonces =
        s.seen_nonces ++ record { holder_handle = handle; nonce = nonce; seen_at = now } ∷ [];
  },
)

module _ (c : Clock) where
  -- DELETE ... WHERE julianday(seen_at) < julianday(?1); the result counts the rows deleted
  unfoldable pub sweep_nonces : Text → Store → ℕ × Store
  unfolding select
  sweep_nonces older_than s =
      let kept = select (λ row. not (jd_lt c row.seen_at older_than)) s.seen_nonces in
      (length s.seen_nonces - length kept, record s { seen_nonces = kept })

seen-append :
    (rows : List NonceRow) (row : NonceRow) (handle nonce : Text)
    → has_key handle nonce row ≡ true
    → seen (rows ++ row ∷ []) handle nonce ≡ true
unfolding seen
seen-append [] row handle nonce h = ground arith
seen-append (x ∷ rows) row handle nonce h = ground (arith, seen-append rows row handle nonce h)

-- Whatever the table held, the pair is in it after `record_nonce`.
pub seen-record_nonce :
    (handle nonce now : Text) (s : Store)
    → seen (record_nonce handle nonce now s).1.seen_nonces handle nonce ≡ true
unfolding record_nonce has_key
seen-record_nonce handle nonce now s = ground (
  arith,
  seen-append s.seen_nonces (record { holder_handle = handle; nonce = nonce; seen_at = now }) handle
      nonce,
  eq_text_refl handle,
  eq_text_refl nonce,
)

-- A pair is accepted exactly when it is new, and a refused one leaves the table alone.
pub record_nonce-seen :
    (handle nonce now : Text) (s : Store)
    → (record_nonce handle nonce now s).0 ≡ not (seen s.seen_nonces handle nonce)
unfolding record_nonce
record_nonce-seen handle nonce now s = ground arith

-- Only the row just added holds a new pair, so a sweep that takes that row reopens it.
pub seen-sweep_nonces :
    (c : Clock) (handle nonce now floor : Text) (s t : Store)
    → record_nonce handle nonce now s ≡ (true, t)
    → jd_lt c now floor ≡ true
    → seen (sweep_nonces c floor t).1.seen_nonces handle nonce ≡ false
unfolding record_nonce seen sweep_nonces
seen-sweep_nonces c handle nonce now floor s t e old = ground (
  arith,
  select-append (λ row. not (jd_lt c row.seen_at floor)) s.seen_nonces
      (record { holder_handle = handle; nonce = nonce; seen_at = now } ∷ []),
  append-nil (select (λ (row : NonceRow). not (jd_lt c row.seen_at floor)) s.seen_nonces),
  any-false-select (has_key handle nonce) (λ row. not (jd_lt c row.seen_at floor)) s.seen_nonces,
)
