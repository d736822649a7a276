-- ===== src/Erasures/Decided.antt =====
-- What an acknowledged erasure leaves: `erase` of operator/src/erasures.rs.
use onym_backup.Prelude.{
  ◌≡◌, refl, sym, ap, ◌∙◌, ℕ, Bool, true, false, ◌&&◌, ◌||◌, some, List, [], ◌∷◌, map, Text, Bytes,
  text, arith, if◌then◌else◌, is_empty, eq_text, eq_text_iff, Bool-cases, inl, inr, Option, any,
}
use onym_backup.Prelude.Exec.{
  ok, Exec, >>=-ok, or_fail-ok, gets-ok, lift-ok, require_that-ok, modify-ok, pure-ok,
}
use onym_backup.Prelude.Exec.Preserves.{Preserves}
use onym_backup.Error.{Error}
use onym_backup.Clock.{Time}
use onym_backup.Documents.Json.{Value}
use onym_backup.Store.Rows.{Store, SnapshotRow}
use onym_backup.Store.Snapshots.{scope_all, snapshot_exists, snapshots_in_scope}
use onym_backup.Store.Erasures.Erased.{named, commit_erasure_erases}
use onym_backup.Store.Kept.{Kept, authenticate-Kept, require-Kept}
use onym_backup.Store.Scope.{named-snapshots_in_scope}
use onym_backup.Operator.{Operator, State, on_store}
use onym_backup.Auth.{Headers, Holder, authenticate}
use onym_backup.Erasures.Erase.{
  EraseRequest, Decision, replay_receipts, erase_targets, decide, erase,
}
use onym_backup.Erasures.Undecided.{replay_receipts-Kept}

exists_same :
    (h d : Text) (s t : Store)
    → s.snapshots ≡ t.snapshots
    → snapshot_exists h d s ≡ snapshot_exists h d t
unfolding snapshot_exists
exists_same h d s t e = rw e refl

none_named :
    (d : Text) (rows : List SnapshotRow)
    → is_empty rows ≡ true
    → named d (map (λ row. row.digest) rows) ≡ false
unfolding any
none_named d [] h = refl
none_named d (row ∷ rows) h = absurd (ground arith)

-- the step's store, after one that keeps the snapshots
stepped :
    {A : Type 0} (m : Exec Error Store A) (s t : State) (a : A)
    → Preserves (Kept s.store) m
    → on_store m s ≡ (ok a, t)
    → t.store.snapshots ≡ s.store.snapshots
unfolding on_store
stepped m s t a k h =
    sym (ap (λ r. r.1.store.snapshots) h)
    ∙ (k.at s.store (record { snapshots = refl; receipts = refl; covers = refl })).snapshots

-- is the digest in the scope of the request?
abbrev pub covers_digest : EraseRequest → Text → Bool
covers_digest request d = eq_text request.scope scope_all || eq_text d request.scope

-- Nothing of the holder in the scope is live in `t`, and all else is live as in `s`.
abbrev pub ScopeErased : Text → EraseRequest → Store → Store → Type 0
ScopeErased handle request s t =
    (h d : Text)
    → snapshot_exists h d t
      ≡ (if eq_text handle h && covers_digest request d then false else snapshot_exists h d s)

module _ (o : Operator) (new_id : ℕ → Text) where
  open o use {clock, crypto, config}

  left_dead :
      (holder : Holder) (request : EraseRequest) (s t : Store)
      → ((h d : Text)
          → snapshot_exists h d t ≡ (
              if eq_text holder.handle h
                && named d (
                    map
                      (λ row. row.digest)
                      (snapshots_in_scope clock holder.handle request.scope s))
              then false
              else snapshot_exists h d s))
      → ScopeErased holder.handle request s t
  left_dead holder request s t k h d =
      k h d
      ∙ rw (named-snapshots_in_scope clock holder.handle request.scope d s)
          (elim (Bool-cases (eq_text holder.handle h)) [
            | inr e ↦ rw e refl
            | inl e ↦ rw (e, (eq_text_iff holder.handle h).0 e) (ground arith)
          ])

  targets-erased :
      (holder : Holder) (request : EraseRequest) (stamp : Text) (targets : List SnapshotRow)
      (s t : Store) (decision : Decision)
      → erase_targets o new_id holder request stamp targets s ≡ (ok decision, t)
      → (h d : Text)
      → snapshot_exists h d t ≡ (
          if eq_text holder.handle h && named d (map (λ row. row.digest) targets)
          then false
          else snapshot_exists h d s)
  unfolding erase_targets
  targets-erased holder request stamp targets s t decision k h d =
      let (minted, _, k1) = lift-ok _ _ s t decision (gets-ok _ _ s t decision k) in
      let (hexes, _, k2) = lift-ok _ _ _ t decision (modify-ok _ _ s t decision k1) in
      let (_, there) = pure-ok _ decision _ t k2 in
      ap (snapshot_exists h d) there
      ∙ (commit_erasure_erases h d holder.handle request.scope (map (λ row. row.digest) targets)
          (map (λ m. m.0) minted) request.operation_id stamp s).0

  decide-erased :
      (holder : Holder) (request : EraseRequest) (stamp : Text) (s t : Store) (decision : Decision)
      → decide o new_id holder request stamp s ≡ (ok decision, t)
      → ScopeErased holder.handle request s t
  unfolding decide
  decide-erased holder request stamp s t decision k =
      let (_, k1) = require_that-ok _ _ _ s t decision k in
      let (_, _, k2) = lift-ok _ _ s t decision k1 in
      let k3 = gets-ok _ _ s t decision k2 in
      left_dead holder request s t
        (branch (snapshots_in_scope clock holder.handle request.scope s) k3)
    where
      replayed :
          replay_receipts o holder request stamp s ≡ (ok decision, t)
          → (h d : Text) → snapshot_exists h d t ≡ snapshot_exists h d s
      replayed k h d = exists_same h d t s (
          sym (ap (λ r. r.1.snapshots) k)
          ∙ ((replay_receipts-Kept o s holder request stamp).at s
              (record { snapshots = refl; receipts = refl; covers = refl })).snapshots)

      branch :
          (targets : List SnapshotRow)
          → (if is_empty targets
                then replay_receipts o holder request stamp
                else erase_targets o new_id holder request stamp targets)
              s
            ≡ (ok decision, t)
          → (h d : Text)
          → snapshot_exists h d t ≡ (
              if eq_text holder.handle h && named d (map (λ row. row.digest) targets)
              then false
              else snapshot_exists h d s)
      branch [] k h d =
          replayed k h d
          ∙ rw (none_named d [] refl) (elim (Bool-cases (eq_text holder.handle h)) [
            | inl e ↦ rw e refl
            | inr e ↦ rw e refl
          ])
      branch (row ∷ rows) k h d =
          targets-erased holder request stamp (row ∷ rows) s t decision k h d

  decided :
      (holder : Holder) (request : EraseRequest) (stamp : Text) (v w : State) (decision : Decision)
      → on_store (decide o new_id holder request stamp) v ≡ (ok decision, w)
      → ScopeErased holder.handle request v.store w.store
  unfolding on_store
  decided holder request stamp v w decision g =
      decide-erased holder request stamp v.store w.store decision (ap (λ r. (r.0, r.1.store)) g)

  -- An erasure that is acknowledged was asked by an authenticated holder, in a body that could be
  -- read. Of that holder nothing in the scope asked for is live afterwards, whether it was erased now
  -- or before, and every other pair of a holder and a digest is live exactly when it was.
  pub erase_decided :
      (read_body : Bytes → Option EraseRequest) (headers : Headers) (body : Bytes) (now : Time)
      (s t : State) (documents : List Value)
      → erase o read_body new_id headers body now s ≡ (ok documents, t)
      → (holder : Holder) × (u : State) × (request : EraseRequest) × (on_store
            (authenticate clock crypto headers (text "POST") (text "/v1/erasures") body config now)
            s
          ≡ (ok holder, u))
        × (read_body body ≡ some request)
        × ScopeErased holder.handle request s.store t.store
  unfolding erase
  erase_decided read_body headers body now s t documents k =
      let (stamp, _, k1) = or_fail-ok _ _ _ s t documents k in
      let (holder, u, e, k2) = >>=-ok _ _ s t documents k1 in
      let (_, v, f, k3) = >>=-ok _ _ u t documents (gets-ok _ _ u t documents k2) in
      let (request, read, k4) = or_fail-ok _ _ _ v t documents k3 in
      let (decision, w, g, k5) = >>=-ok _ _ v t documents k4 in
      let (_, there) = pure-ok _ documents _ t (modify-ok _ _ w t documents k5) in
      (
        holder,
        u,
        request,
        e,
        read,
        λ h d.
            ap (λ r. snapshot_exists h d r.store) there
            ∙ decided holder request stamp v w decision g h d
            ∙ rw
                (exists_same h d v.store s.store (
                  stepped _ u v tt (require-Kept u.store o holder headers _ _ now) f
                  ∙ stepped _ s u holder (authenticate-Kept s.store o headers _ _ body now) e))
                refl,
      )
