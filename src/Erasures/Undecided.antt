-- ===== src/Erasures/Undecided.antt =====
-- What a request for an erasure that is refused, or that fails, leaves: `erase` of
-- operator/src/erasures.rs.
use onym_backup.Prelude.{
  ◌≡◌, refl, sym, subst, ℕ, true, false, List, [], ◌∷◌, Text, Bytes, arith, Option, All, is_empty,
}
use onym_backup.Prelude.Exec.{is_ok, Exec}
use onym_backup.Prelude.Exec.Preserves.{
  Preserves, Preserves-modify, preserve_rules, Preserves-or_fail, Preserves-gets,
  Preserves-require_that,
}
use onym_backup.Prelude.Exec.Undone.{
  Undone, Undone-Preserves, Undone-if, Undone-step, Undone-bind, Undone-gets, Undone-lift,
  Undone-then, lift-succeeds, modify-succeeds,
}
use onym_backup.Error.{Error}
use onym_backup.Clock.{Time}
use onym_backup.Blobs.Digest.{digest_hex}
use onym_backup.Store.Rows.{Store, SnapshotRow, OutcomeRow}
use onym_backup.Store.Outcomes.{record_outcome}
use onym_backup.Store.Snapshots.{snapshots_in_scope}
use onym_backup.Store.Erasures.{commit_erasure}
use onym_backup.Store.Kept.{Kept, authenticate-Kept, require-Kept}
use onym_backup.Store.Scope.{All-snapshots_in_scope}
use onym_backup.Operator.{Operator, State, on_store}
use onym_backup.Auth.{Headers, Holder}
use onym_backup.Erasures.Mint.{hex_of_all}
use onym_backup.Erasures.Erase.{EraseRequest, replay_receipts, erase_targets, decide, erase}

-- a stored digest that names a directory
abbrev pub Readable : SnapshotRow → Type 0
Readable row = is_ok (digest_hex row.digest) ≡ true

hexes :
    (handle : Text) (rows : List SnapshotRow)
    → All Readable rows
    → is_ok (hex_of_all handle rows) ≡ true
unfolding hex_of_all
hexes handle [] h = refl
hexes handle (row ∷ rows) h = ground (arith, h.0, hexes handle rows h.1)

-- the tables of `Kept` and all the bytes
abbrev pub KeptState : State → State → Type 0
KeptState before s = Kept before.store s.store × (s.blobs ≡ before.blobs)

module _ (before : State) {A : Type 0} (m : Exec Error Store A) where
  stored-Preserves : Preserves (Kept before.store) m → Preserves (KeptState before) (on_store m)
  unfolding on_store
  stored-Preserves k = record { at = λ s h. (k.at s.store h.0, h.1) }

  stored-Undone : Undone (Kept before.store) m → Undone (KeptState before) (on_store m)
  unfolding on_store
  stored-Undone k = record { at = λ s h e. (k.at s.store h.0 e, h.1) }

module _ (o : Operator) (before : Store) where
  recorded : (row : OutcomeRow) (s : Store) → Kept before s → Kept before (record_outcome row s)
  unfolding record_outcome
  recorded row s k = record { snapshots = k.snapshots; receipts = k.receipts; covers = k.covers }

  pub replay_receipts-Kept :
      (holder : Holder) (request : EraseRequest) (stamp : Text)
      → Preserves (Kept before) (replay_receipts o holder request stamp)
  unfolding replay_receipts
  replay_receipts-Kept holder request stamp =
      search (preserve_rules, Preserves-modify, recorded) depth 24

module _ (o : Operator) (new_id : ℕ → Text) (before : State) where
  open o use {clock, crypto, json, config}

  targets-Undone :
      (holder : Holder) (request : EraseRequest) (stamp : Text) (targets : List SnapshotRow)
      → All Readable targets
      → Undone (Kept before.store) (erase_targets o new_id holder request stamp targets)
  unfolding erase_targets
  targets-Undone holder request stamp targets valid = Undone-gets _ _ (λ s k.
      (Undone-lift {P = Kept before.store} _ _ (λ minted.
          Undone-step (commit_erasure holder.handle request.scope _ _ request.operation_id stamp) _
            (λ t _. lift-succeeds _ _ _ (hexes holder.handle targets valid)))).at
        s k)

  decide-Undone :
      (holder : Holder) (request : EraseRequest) (stamp : Text)
      → All Readable before.store.snapshots
      → Undone (Kept before.store) (decide o new_id holder request stamp)
  unfolding decide
  decide-Undone holder request stamp valid = Undone-bind _ _ (Preserves-require_that _ _) (λ _.
      Undone-lift _ _ (λ _. Undone-gets _ _ (λ s k e.
        (Undone-if (is_empty (snapshots_in_scope clock holder.handle request.scope s)) _ _
            (Undone-Preserves _ (replay_receipts-Kept o before.store holder request stamp))
            (targets-Undone holder request stamp _ (
              All-snapshots_in_scope clock Readable holder.handle request.scope s
                (subst (All Readable) (sym k.snapshots) valid)))).at
          s k e)))

  erase-Undone :
      (read_body : Bytes → Option EraseRequest) (headers : Headers) (body : Bytes) (now : Time)
      → All Readable before.store.snapshots
      → Undone (KeptState before) (erase o read_body new_id headers body now)
  unfolding erase
  erase-Undone read_body headers body now valid = Undone-bind _ _ (Preserves-or_fail _ _) (λ stamp.
      Undone-bind _ _
        (stored-Preserves before _ (authenticate-Kept before.store o headers _ _ body now))
        (λ holder. Undone-bind _ _ (Preserves-gets _) (λ gone.
          Undone-bind _ _
            (stored-Preserves before _ (require-Kept before.store o holder headers gone _ now))
            (λ _. Undone-bind _ _ (Preserves-or_fail _ _) (λ request.
              Undone-then (KeptState before) _ _
                (stored-Undone before _ (decide-Undone holder request stamp valid))
                (λ decision t. modify-succeeds Error _ decision.receipts t))))))

  -- A request for an erasure that fails, at whatever point, leaves every snapshot row, every receipt
  -- and its coverage, and every stored byte as they were, where each stored digest names a directory:
  -- an erasure that is not acknowledged has destroyed nothing.
  pub erase_undecided :
      (read_body : Bytes → Option EraseRequest) (headers : Headers) (body : Bytes) (now : Time)
      → All Readable before.store.snapshots
      → is_ok (erase o read_body new_id headers body now before).0 ≡ false
      → KeptState before (erase o read_body new_id headers body now before).1
  erase_undecided read_body headers body now valid e =
      (erase-Undone read_body headers body now valid).at before
        (record { snapshots = refl; receipts = refl; covers = refl }, refl) e
