-- ===== src/Lapse/Decisive.antt =====
-- What the walks of `grace_from` and `post_grace_due` in operator/src/lapse.rs take from each snapshot's
-- own window.
use onym_backup.Prelude.{
  ◌≡◌, ◌||◌, ◌&&◌, Bool, false, Option, none, some, List, [], Text, ltb, leb, any, eq_text, is_some,
}
use onym_backup.Prelude.Exec.{ok}
use onym_backup.Error.{Fallible}
use onym_backup.Clock.{Time}
use onym_backup.Store.Rows.{Store, SnapshotRow}
use onym_backup.Store.Snapshots.{snapshots}
use onym_backup.Operator.{Operator}
use onym_backup.Auth.{Holder}
use onym_backup.Lapse.Window.{EndOfPayment, window_of}
use onym_backup.Lapse.Access.{Access}

-- the window of one snapshot, if its terms have one that can be read
abbrev pub Window : Type 0
Window = Fallible (Option (EndOfPayment × Time))

abbrev pub is_open : Time → Window → Bool
is_open now (ok (some (clause, ends))) = ltb now.nanos ends.nanos
is_open now _ = false

-- an open window whose terms name this operation
abbrev pub allows : Text → Time → Window → Bool
allows word now (ok (some (clause, ends))) =
    ltb now.nanos ends.nanos && any (λ v. eq_text v word) clause.during_grace
allows word now _ = false

-- a window that is over, of the snapshot with this digest and with this for what follows
abbrev pub is_due : Text → Text → Time → SnapshotRow → Window → Bool
is_due digest action now row (ok (some (clause, ends))) =
    leb ends.nanos now.nanos && (eq_text row.digest digest && eq_text clause.after_grace action)
is_due digest action now row _ = false

abbrev words_of : Option (List Text) → List Text
words_of none = []
words_of (some words) = words

module _ (o : Operator) (s : Store) (lapsed_at now : Time) where
  open o use {clock, json}

  abbrev pub window : SnapshotRow → Window
  window row = window_of clock json s lapsed_at row

  module _ (digest action : Text) where
    abbrev is_pair : Text × Text → Bool
    is_pair e = eq_text e.0 digest && eq_text e.1 action

  -- what the walk over the open windows leaves, from `allowed` on
  abbrev Gathers : Option (List Text) → Option (List Text) → List SnapshotRow → Type 0
  Gathers allowed r rows =
      (is_some r ≡ (is_some allowed || any (λ row. is_open now (window row)) rows))
      × ((word : Text)
          → any (λ v. eq_text v word) (words_of r) ≡ (
              any (λ v. eq_text v word) (words_of allowed)
              || any (λ row. allows word now (window row)) rows))

  -- the same for one window, whatever the rest of the walk finds
  abbrev Adds : Option (List Text) → Option (List Text) → Bool → (Text → Bool) → Type 0
  Adds allowed r found named =
      (is_some r ≡ (is_some allowed || found))
      × ((word : Text)
          → any (λ v. eq_text v word) (words_of r)
            ≡ (any (λ v. eq_text v word) (words_of allowed) || named word))

  module _ (holder : Holder) where
    abbrev pub rows : List SnapshotRow
    rows = snapshots clock holder.handle s
