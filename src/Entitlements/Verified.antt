-- ===== src/Entitlements/Verified.antt =====
-- What a credential that `verify` of operator/src/entitlements.rs accepts is worth.
use onym_backup.Prelude.{
  ◌≡◌, refl, sym, ap, subst, ◌∙◌, Bool, true, false, Option, none, some, List, [], ◌∷◌, Text, Bytes,
  text, arith, any, eq_text, eq_text_iff, ◌≤◌, Bool-cases, is_some, inl, inr,
}
use onym_backup.Prelude.Exec.{ok, err}
use onym_backup.Prelude.Checks.{ok_or, require_that, >>=-ok, require_that-ok, ok-injective}
use onym_backup.Error.{Fallible, Error}
use onym_backup.Clock.{Time}
use onym_backup.Config.Issuers.{issuer_key, key_of_issuer}
use onym_backup.Crypto.{Crypto}
use onym_backup.Documents.Json.{Value, get, as_str}
use onym_backup.Documents.Canonical.{canonical_bytes}
use onym_backup.Store.Entitlements.{VerifiedEntitlement, contains}
use onym_backup.Operator.{Operator}
use onym_backup.Entitlements.{
  string_at, or_refuse, check_signature, check_parties, check_dates, check_grant, verify,
}

any-contains : (t : Text) (us : List Text) → contains t us ≡ any (λ u. eq_text u t) us
unfolding contains any
any-contains t [] = refl
any-contains t (u ∷ us) = rw (any-contains t us) refl

ok_or-some : {A : Type 0} (o : Option A) (e : Error) (a : A) → ok_or o e ≡ ok a → o ≡ some a
unfolding ok_or
ok_or-some none e a h = cc
ok_or-some (some b) e a h = ground (arith, h)

or_refuse_same : {A : Type 0} (r : Fallible A) (e : Error) (a : A) → or_refuse r e ≡ ok a → r ≡ ok a
unfolding or_refuse
or_refuse_same (ok b) e a h = h
or_refuse_same (err f) e a h = cc

-- the key of an issuer is the one that the issuer's name spells, and the issuer is a configured one
pinned_key :
    (x : Crypto) (issuer : Text) (references : List Text) (key : Bytes)
    → key_of_issuer x issuer references ≡ some key
    → (any (λ r. eq_text r issuer) references ≡ true) × (issuer_key x issuer ≡ some key)
unfolding key_of_issuer any
pinned_key x issuer [] key h = absurd (ground arith)
pinned_key x issuer (reference ∷ references) key h = elim (Bool-cases (eq_text reference issuer)) [
  | inl e ↦ elim (Bool-cases (is_some (issuer_key x reference))) [
    | inl f ↦ (
      rw e refl,
      ap (issuer_key x) (sym ((eq_text_iff reference issuer).0 e)) ∙ ground (arith, h, e, f),
    )
    | inr f ↦
        let later = pinned_key x issuer references key (ground (arith, h, e, f)) in
        (rw e refl, later.1)
  ]
  | inr e ↦
      let later = pinned_key x issuer references key (ground (arith, h, e)) in
      (ground (arith, later.0), later.1)
]

require_that-true : (b : Bool) (e : Error) → require_that b e ≡ ok tt → b ≡ true
unfolding require_that
require_that-true true e h = refl
require_that-true false e h = cc

module _ (o : Operator) where
  open o use {clock, crypto, json, config}

  -- A signed credential of a configured issuer, for this operator and this holder, in force at this
  -- instant and not revoked.
  pub record Sound (raw : Bytes) (reference : Text) (revoked : List Text) (now : Time)
      (e : VerifiedEntitlement) : Type 0 where
    pub document : Value
    pub key : Bytes
    pub issuer : Text
    pub signed : Bytes
    pub signature : Bytes
    pub read : json.from_slice raw ≡ some document
    pub configured : any (λ r. eq_text r issuer) config.entitlement_issuers ≡ true
    pub spelled : issuer_key crypto issuer ≡ some key
    pub issued : as_str (get (text "issuer") document) ≡ some issuer
    pub covers : canonical_bytes document (text "signature" ∷ []) ≡ ok signed
    pub genuine : crypto.verify key signed signature ≡ true
    pub audience : as_str (get (text "audience") document) ≡ some config.component_id
    pub subject : as_str (get (text "subject") document) ≡ some reference
    pub named : as_str (get (text "entitlementId") document) ≡ some e.entitlement_id
    pub starts :
        (t : Text) × (as_str (get (text "notBefore") document) ≡ some t)
        × (clock.parse t ≡ some e.not_before)
    pub ends :
        (t : Text) × (as_str (get (text "expiresAt") document) ≡ some t)
        × (clock.parse t ≡ some e.expires_at)
    pub begun : e.not_before.nanos ≤ now.nanos
    pub open_yet : now.nanos ≤ e.expires_at.nanos
    pub unrevoked : any (λ id. eq_text id e.entitlement_id) revoked ≡ false
    pub kept : e.raw ≡ raw

  named_text :
      (document : Value) (name t : Text)
      → string_at o document name ≡ ok t
      → as_str (get name document) ≡ some t
  unfolding string_at
  named_text document name t h = ok_or-some _ _ t h

  genuine_signature :
      (document : Value)
      → check_signature o document ≡ ok tt
      → (issuer : Text) × (key : Bytes) × (signed : Bytes) × (signature : Bytes) × (as_str
            (get (text "issuer") document)
          ≡ some issuer)
        × (key_of_issuer crypto issuer config.entitlement_issuers ≡ some key)
        × (canonical_bytes document (text "signature" ∷ []) ≡ ok signed)
        × (crypto.verify key signed signature ≡ true)
  unfolding check_signature
  genuine_signature document h =
      let (issuer, issued, h1) = >>=-ok _ _ tt h in
      let (key, trusted, h2) = >>=-ok _ _ tt h1 in
      let (_, _, h3) = >>=-ok _ _ tt h2 in
      let (signature, _, h4) = >>=-ok _ _ tt h3 in
      let (_, h5) = require_that-ok _ _ _ tt h4 in
      let (signed, covers, h6) = >>=-ok _ _ tt h5 in
      (
        issuer,
        key,
        signed,
        signature,
        named_text document (text "issuer") issuer issued,
        ok_or-some _ _ key trusted,
        or_refuse_same _ _ signed covers,
        require_that-true _ _ h6,
      )

  right_parties :
      (document : Value) (reference : Text)
      → check_parties o document reference ≡ ok tt
      → (as_str (get (text "audience") document) ≡ some config.component_id)
        × (as_str (get (text "subject") document) ≡ some reference)
  unfolding check_parties
  right_parties document reference h =
      let (audience, meant, h1) = >>=-ok _ _ tt h in
      let (here, h2) = require_that-ok _ _ _ tt h1 in
      let (subject, whose, h3) = >>=-ok _ _ tt h2 in
      (
        named_text document (text "audience") audience meant
            ∙ ap some ((eq_text_iff audience config.component_id).0 here),
        named_text document (text "subject") subject whose
            ∙ ap some ((eq_text_iff subject reference).0 (require_that-true _ _ h3)),
      )

  -- an instant that the document names
  abbrev NamedAt : Value → Text → Time → Type 0
  NamedAt document name at =
      (t : Text) × (as_str (get name document) ≡ some t) × (clock.parse t ≡ some at)

  abbrev InForce : Value → Time → Time × Time → Type 0
  InForce document now dates =
      NamedAt document (text "notBefore") dates.0
      × NamedAt document (text "expiresAt") dates.1
      × (dates.0.nanos ≤ now.nanos)
      × (now.nanos ≤ dates.1.nanos)

  right_dates :
      (document : Value) (now : Time) (dates : Time × Time)
      → check_dates o document now ≡ ok dates
      → InForce document now dates
  unfolding check_dates
  right_dates document now dates h =
      let (from, e, h1) = >>=-ok _ _ dates h in
      let (not_before, f, h2) = >>=-ok _ _ dates h1 in
      let (until, g, h3) = >>=-ok _ _ dates h2 in
      let (expires_at, k, h4) = >>=-ok _ _ dates h3 in
      let (within, h5) = require_that-ok _ _ _ dates h4 in
      subst (InForce document now) (ok-injective _ dates h5) (
        (from, named_text document (text "notBefore") from e, ok_or-some _ _ not_before f),
        (until, named_text document (text "expiresAt") until g, ok_or-some _ _ expires_at k),
        ground (arith, within),
        ground (arith, within),
      )

  -- what the last checks leave of the credential
  abbrev Granted : Bytes → Value → List Text → Time × Time → VerifiedEntitlement → Type 0
  Granted raw document revoked dates e =
      (as_str (get (text "entitlementId") document) ≡ some e.entitlement_id)
      × (any (λ id. eq_text id e.entitlement_id) revoked ≡ false)
      × (e.raw ≡ raw)
      × (e.not_before ≡ dates.0)
      × (e.expires_at ≡ dates.1)

  right_grant :
      (raw : Bytes) (document : Value) (revoked : List Text) (dates : Time × Time)
      (e : VerifiedEntitlement)
      → check_grant o raw document revoked dates ≡ ok e
      → Granted raw document revoked dates e
  unfolding check_grant
  right_grant raw document revoked dates e h =
      let (entitlement_id, named, h1) = >>=-ok _ _ e h in
      let (unrevoked, h2) = require_that-ok _ _ _ e h1 in
      let (_, h3) = require_that-ok _ _ _ e h2 in
      let (_, _, h4) = >>=-ok _ _ e h3 in
      subst (Granted raw document revoked dates) (ok-injective _ e h4) (
        named_text document (text "entitlementId") entitlement_id named,
        sym (any-contains entitlement_id revoked) ∙ ground (arith, unrevoked),
        refl,
        refl,
        refl,
      )

  pub verify-Sound :
      (raw : Bytes) (reference : Text) (revoked : List Text) (now : Time) (e : VerifiedEntitlement)
      → verify o raw reference revoked now ≡ ok e
      → Sound raw reference revoked now e
  unfolding verify
  verify-Sound raw reference revoked now e h =
      let (document, read, h1) = >>=-ok _ _ e h in
      let (_, _, h2) = >>=-ok _ _ e h1 in
      let (_, f, h3) = >>=-ok _ _ e h2 in
      let (_, g, h4) = >>=-ok _ _ e h3 in
      let (dates, k, h5) = >>=-ok _ _ e h4 in
      let (issuer, key, signed, signature, issued, trusted, covers, genuine) =
        genuine_signature document f in
      let (audience, subject) = right_parties document reference g in
      let (starts, ends, begun, open_yet) = right_dates document now dates k in
      let (named, unrevoked, kept, from, until) = right_grant raw document revoked dates e h5 in
      record {
        document = document;
        key = key;
        issuer = issuer;
        signed = signed;
        signature = signature;
        read = ok_or-some _ _ document read;
        configured = (pinned_key crypto issuer config.entitlement_issuers key trusted).0;
        spelled = (pinned_key crypto issuer config.entitlement_issuers key trusted).1;
        issued = issued;
        covers = covers;
        genuine = genuine;
        audience = audience;
        subject = subject;
        named = named;
        starts = (starts.0, starts.1, starts.2 ∙ ap some (sym from));
        ends = (ends.0, ends.1, ends.2 ∙ ap some (sym until));
        begun = rw from begun;
        open_yet = rw until open_yet;
        unrevoked = unrevoked;
        kept = kept;
      }
