-- ===== src/Auth/Replay.antt =====
-- The single use of a signed request across later requests and sweeps.
use onym_backup.Prelude.{
  ℕ, ◌+◌, ◌*◌, ◌≤◌, ◌≡◌, refl, ap, Bool, true, false, ◌&&◌, none, some, List, [], ◌∷◌, Text, Bytes,
  arith, any, any-append_left, any-append_last, any_mono, any-select, eq_text, eq_text_iff,
  eq_text_refl, Option-cases, inl, inr, and-true, All,
}
use onym_backup.Prelude.Exec.{ok, is_ok, run-cases}
use onym_backup.Clock.{Clock, Time, jd_lt, not_jd_lt, nanos_per_second}
use onym_backup.Crypto.{Crypto}
use onym_backup.Config.{Config}
use onym_backup.Payload.Window.{verify-Accepted}
use onym_backup.Store.Rows.{Store, NonceRow}
use onym_backup.Store.Nonces.{has_key, seen, record_nonce, sweep_nonces, record_nonce-seen}
use onym_backup.Sweep.Cutoffs.{cutoffs, nonce-cutoffs}
use onym_backup.Auth.{Headers, Holder, authenticate}
use onym_backup.Auth.Honoured.{
  Authenticated, authenticate-ok, record_proof-ok, authenticate-Preserves,
}

-- What may happen to the nonce table: a request, honoured or not, and a sweep.
pub data Event : Type 0 where
  asked : Headers → Text → Text → Bytes → Time → Event
  swept : Time → Event

is_row : Text → Text → Text → NonceRow → Bool
unfolding has_key
is_row handle nonce stamp row = has_key handle nonce row && eq_text row.seen_at stamp

-- The nonce of the holder is in the table with its first arrival.
abbrev Holds : Text → Text → Text → Store → Type 0
Holds handle nonce stamp s = any (is_row handle nonce stamp) s.seen_nonces ≡ true

module _ (handle nonce stamp : Text) where
  Holds-record_nonce :
      (h n at : Text) (s : Store)
      → Holds handle nonce stamp s
      → Holds handle nonce stamp (record_nonce h n at s).1
  unfolding record_nonce
  Holds-record_nonce h n at s k = ground (
    arith,
    any-append_left (is_row handle nonce stamp) s.seen_nonces
        (record { holder_handle = h; nonce = n; seen_at = at } ∷ []),
  )

  record_nonce-Holds :
      (s t : Store) → record_nonce handle nonce stamp s ≡ (true, t) → Holds handle nonce stamp t
  unfolding record_nonce is_row has_key
  record_nonce-Holds s t e = ground (
    arith,
    any-append_last (is_row handle nonce stamp) s.seen_nonces
        (record { holder_handle = handle; nonce = nonce; seen_at = stamp }),
    eq_text_refl handle,
    eq_text_refl nonce,
    eq_text_refl stamp,
  )

  Holds-seen : (s : Store) → Holds handle nonce stamp s → seen s.seen_nonces handle nonce ≡ true
  unfolding seen is_row
  Holds-seen s = any_mono _ _ s.seen_nonces (λ row h. (and-true _ _ h).0)

  Holds-sweep_nonces :
      (c : Clock) (floor : Text) (s : Store)
      → jd_lt c stamp floor ≡ false
      → Holds handle nonce stamp s
      → Holds handle nonce stamp (sweep_nonces c floor s).1
  unfolding sweep_nonces is_row
  Holds-sweep_nonces c floor s young = any-select _ _ s.seen_nonces (λ row h.
      rw ((eq_text_iff row.seen_at stamp).0 (and-true (has_key handle nonce row) _ h).1) (rw young))

module _ (c : Clock) (x : Crypto) (config : Config) where
  pub after : Event → Store → Store
  after (asked headers method path body at) s =
      (authenticate c x headers method path body config at s).1
  after (swept at) s = elim (cutoffs c config at) [
    | none ↦ s
    | some k ↦ (sweep_nonces c k.nonce s).1
  ]

  pub after_all : List Event → Store → Store
  after_all [] s = s
  after_all (e ∷ es) s = after_all es (after e s)

  -- No sweep of the history ran later than an instant.
  abbrev pub SweptBy : ℕ → Event → Type 0
  SweptBy limit (asked headers method path body at) = Unit {0}
  SweptBy limit (swept at) = at.nanos ≤ limit

  module _ (handle nonce stamp : Text) where
    Holds-after :
        (limit : ℕ) (t1 : Time) (e : Event) (s : Store)
        → c.format t1 ≡ some stamp
        → limit ≡ t1.nanos + config.max_skew_secs * 2 * nanos_per_second
        → SweptBy limit e
        → Holds handle nonce stamp s
        → Holds handle nonce stamp (after e s)
    unfolding after
    Holds-after limit t1 (asked headers method path body at) s f l early k =
        (authenticate-Preserves c x headers method path body config (Holds handle nonce stamp) at
            (Holds-record_nonce handle nonce stamp)).at
          s k
    Holds-after limit t1 (swept at) s f l early k = elim (Option-cases (cutoffs c config at)) [
      | inl e ↦ rw (e, after) k
      | inr (cuts, e) ↦
          let (floor, written, far) = nonce-cutoffs c config at cuts e in
          rw (e, after)
            (Holds-sweep_nonces handle nonce stamp c cuts.nonce s
              (not_jd_lt c t1 floor stamp cuts.nonce f written (omega arith)) k)
    ]

    Holds-after_all :
        (limit : ℕ) (t1 : Time) (es : List Event) (s : Store)
        → c.format t1 ≡ some stamp
        → limit ≡ t1.nanos + config.max_skew_secs * 2 * nanos_per_second
        → All (SweptBy limit) es
        → Holds handle nonce stamp s
        → Holds handle nonce stamp (after_all es s)
    unfolding after_all
    Holds-after_all limit t1 [] s f l early k = k
    Holds-after_all limit t1 (e ∷ es) s f l early k =
        Holds-after_all limit t1 es (after e s) f l early.1 (Holds-after limit t1 e s f l early.0 k)

  -- Two honoured arrivals of one request carry one nonce, which the second one found absent.
  twice :
      (headers : Headers) (method path : Text) (body : Bytes) (t1 t2 : Time) (s s1 : Store)
      (holder : Holder) (s2 s3 : Store) (other : Holder)
      (a : Authenticated c x headers method path body config t1 s s1 holder)
      → Authenticated c x headers method path body config t2 s2 s3 other
      → Holds a.proof.handle a.proof.nonce a.stamp s2
      → ⊥
  twice headers method path body t1 t2 s s1 holder s2 s3 other a b held =
      let va = verify-Accepted c x a.request a.signature t1 _ a.proof a.verified in
      let vb = verify-Accepted c x b.request b.signature t2 _ b.proof b.verified in
      let same_holder : a.request.holder ≡ b.request.holder = cc (a.from_holder, b.from_holder) in
      let same_nonce : a.proof.nonce ≡ b.proof.nonce =
        cc (a.from_nonce, b.from_nonce, va.nonced, vb.nonced) in
      let same_key : a.proof.key ≡ b.proof.key = cc (same_holder, va.keyed, vb.keyed) in
      let same_handle : a.proof.handle ≡ b.proof.handle = cc (same_key, va.handled, vb.handled) in
      let found = Holds-seen a.proof.handle a.proof.nonce a.stamp s2 held in
      let fresh = record_proof-ok b.proof b.request.holder b.stamp s2 s3 other b.recorded in
      ground (
        arith,
        found,
        same_nonce,
        same_handle,
        ap (λ r. r.0) fresh,
        record_nonce-seen b.proof.handle b.proof.nonce b.stamp s2,
      )

  -- A request that was honoured at `t1` is refused at any `t2`, whatever requests came in between,
  -- if no sweep in between ran later than twice the skew, in seconds, after `t1`.
  pub replay_refused :
      (headers : Headers) (method path : Text) (body : Bytes) (t1 t2 : Time) (s s1 : Store)
      (holder : Holder) (es : List Event)
      → authenticate c x headers method path body config t1 s ≡ (ok holder, s1)
      → All (SweptBy (t1.nanos + config.max_skew_secs * 2 * nanos_per_second)) es
      → is_ok (authenticate c x headers method path body config t2 (after_all es s1)).0 ≡ false
  replay_refused headers method path body t1 t2 s s1 holder es honoured early =
      let a = authenticate-ok c x headers method path body config t1 s s1 holder honoured in
      let held =
        record_nonce-Holds a.proof.handle a.proof.nonce a.stamp s s1
          (record_proof-ok a.proof a.request.holder a.stamp s s1 holder a.recorded) in
      let kept =
        Holds-after_all a.proof.handle a.proof.nonce a.stamp _ t1 es s1 a.stamped refl early held in
      let again = authenticate c x headers method path body config t2 (after_all es s1) in
      elim (run-cases again) [
        | inl refused ↦ refused
        | inr (other, e) ↦ absurd (
            twice headers method path body t1 t2 s s1 holder (after_all es s1) again.1 other a
              (authenticate-ok c x headers method path body config t2 (after_all es s1) again.1
                other e)
              kept)
      ]
