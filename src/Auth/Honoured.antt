-- ===== src/Auth/Honoured.antt =====
-- Inversion of an honoured request: what its headers, its signature and the nonce table said.
use onym_backup.Prelude.{◌≡◌, refl, true, false, some, Text, Bytes, arith, inl, inr, Bool-cases}
use onym_backup.Prelude.Exec.{ok, is_ok, ◌>>=◌, or_fail-ok, lift-ok}
use onym_backup.Prelude.Exec.Preserves.{Preserves, preserve_rules}
use onym_backup.Clock.{Clock, Time}
use onym_backup.Crypto.{Crypto}
use onym_backup.Config.{Config}
use onym_backup.Payload.{Request, VerifiedProof, verify}
use onym_backup.Store.Rows.{Store}
use onym_backup.Store.Nonces.{seen, record_nonce}
use onym_backup.Auth.{
  Headers, Holder, holder_header, timestamp_header, nonce_header, signature_header, record_proof,
  authenticate,
}

-- What an honoured request went through.
pub record Authenticated (c : Clock) (x : Crypto) (headers : Headers) (method path : Text)
    (body : Bytes) (config : Config) (now : Time) (s t : Store) (holder : Holder) : Type 0 where
  pub request : Request
  pub signature : Text
  pub proof : VerifiedProof
  pub stamp : Text
  pub from_holder : headers holder_header ≡ some request.holder
  pub from_timestamp : headers timestamp_header ≡ some request.timestamp
  pub from_nonce : headers nonce_header ≡ some request.nonce
  pub from_signature : headers signature_header ≡ some signature
  pub same_method : request.method ≡ method
  pub same_path : request.path ≡ path
  pub same_body : request.body ≡ body
  pub verified : verify c x request signature now config.max_skew_secs ≡ ok proof
  pub stamped : c.format now ≡ some stamp
  pub recorded : record_proof proof request.holder stamp s ≡ (ok holder, t)

-- An honoured request had a nonce that was not in the table.
pub record_proof-ok :
    (proof : VerifiedProof) (reference stamp : Text) (s t : Store) (holder : Holder)
    → record_proof proof reference stamp s ≡ (ok holder, t)
    → record_nonce proof.handle proof.nonce stamp s ≡ (true, t)
unfolding record_proof record_nonce
record_proof-ok proof reference stamp s t holder h = ground arith

record_proof-Preserves :
    (P : Store → Type 0) (proof : VerifiedProof) (reference stamp : Text)
    → ((handle nonce at : Text) (s : Store) → P s → P (record_nonce handle nonce at s).1)
    → Preserves P (record_proof proof reference stamp)
unfolding record_proof
record_proof-Preserves P proof reference stamp k = record {
  at = λ s h. elim (Bool-cases (record_nonce proof.handle proof.nonce stamp s).0) [
    | inl e ↦ rw e (k proof.handle proof.nonce stamp s h)
    | inr e ↦ rw e (k proof.handle proof.nonce stamp s h)
  ];
}

module _ (c : Clock) (x : Crypto) (headers : Headers) (method path : Text) (body : Bytes)
    (config : Config) where
  pub authenticate-ok :
      (now : Time) (s t : Store) (holder : Holder)
      → authenticate c x headers method path body config now s ≡ (ok holder, t)
      → Authenticated c x headers method path body config now s t holder
  unfolding authenticate
  authenticate-ok now s t holder h =
      let (reference, e1, h1) = or_fail-ok (headers holder_header) _ _ s t holder h in
      let (timestamp, e2, h2) = or_fail-ok (headers timestamp_header) _ _ s t holder h1 in
      let (nonce, e3, h3) = or_fail-ok (headers nonce_header) _ _ s t holder h2 in
      let (signature, e4, h4) = or_fail-ok (headers signature_header) _ _ s t holder h3 in
      let (proof, e5, h5) = lift-ok _ _ s t holder h4 in
      let (stamp, e6, h6) = or_fail-ok (c.format now) _ _ s t holder h5 in
      record {
        request = record {
          method = method;
          path = path;
          holder = reference;
          timestamp = timestamp;
          nonce = nonce;
          body = body;
        };
        signature = signature;
        proof = proof;
        stamp = stamp;
        from_holder = e1;
        from_timestamp = e2;
        from_nonce = e3;
        from_signature = e4;
        same_method = refl;
        same_path = refl;
        same_body = refl;
        verified = e5;
        stamped = e6;
        recorded = h6;
      }

  -- Honoured or not, a request changes nothing but the nonce table, by `record_nonce`.
  pub authenticate-Preserves :
      (P : Store → Type 0) (now : Time)
      → ((handle nonce at : Text) (s : Store) → P s → P (record_nonce handle nonce at s).1)
      → Preserves P (authenticate c x headers method path body config now)
  unfolding authenticate
  authenticate-Preserves P now k = search (preserve_rules, record_proof-Preserves) depth 16

  -- The other way: a request whose parts are in order and whose nonce is new is honoured.
  pub authenticate_honours :
      (request : Request) (signature : Text) (proof : VerifiedProof) (stamp : Text) (now : Time)
      (s : Store)
      → headers holder_header ≡ some request.holder
      → headers timestamp_header ≡ some request.timestamp
      → headers nonce_header ≡ some request.nonce
      → headers signature_header ≡ some signature
      → request.method ≡ method
      → request.path ≡ path
      → request.body ≡ body
      → verify c x request signature now config.max_skew_secs ≡ ok proof
      → c.format now ≡ some stamp
      → seen s.seen_nonces proof.handle proof.nonce ≡ false
      → is_ok (authenticate c x headers method path body config now s).0 ≡ true
  unfolding authenticate record_proof record_nonce ◌>>=◌
  authenticate_honours request signature proof stamp now s eh et en es em ep eb v f new =
      rw (eh, et, en, es, ← em, ← ep, ← eb, v, f, new) refl
