-- ===== src/Tests/Lapse.antt =====
-- A lapsed holder with one snapshot whose terms grant a window, inside it.
use onym_backup.Prelude.{none, some, [], ◌∷◌, text}
use onym_backup.Prelude.Int.{pos}
use onym_backup.Clock.{Time}
use onym_backup.Documents.Json.{Value, string, array, object, nil, cons, end, field}
use onym_backup.Store.Rows.{Store, SnapshotRow, TermsRow, in_memory}
use onym_backup.Store.Snapshots.{snapshots}
use onym_backup.Operator.{Operator}
use onym_backup.Auth.{Holder}
use onym_backup.Lapse.Decisive.{Window, window}
use onym_backup.Tests.Setting.{operator, at_second}

-- what every stored terms document reads as
abbrev terms_value : Value
terms_value = object (
    field (text "endOfPayment")
      (object (
        field (text "notice") (string (text "PT0S")) (
          field (text "grace") (string (text "PT100S"))
            (field (text "duringGrace") (array (cons (string (text "download")) nil)) end))))
      end)

abbrev paid : Operator
paid = record operator { json = record { from_slice = λ b. some terms_value; to_vec = λ v. [] } }

abbrev terms_row : TermsRow
terms_row = record { terms_id = text "t"; raw = []; signature = []; first_seen = text "x" }

abbrev snapshot_row : SnapshotRow
snapshot_row = record {
  holder_handle = text "h";
  retained = record {
    digest = text "sha256:d";
    algorithm = text "a";
    sealed_byte_size = 5;
    chunk_count = pos 2;
    accepted_terms_id = text "t";
    supersedes = none;
    retained_at = 7 ∷ 0 ∷ [];
    retained_until = none;
    erased_at = none;
  };
}

abbrev held : Store
held = record in_memory { snapshots = snapshot_row ∷ []; terms_documents = terms_row ∷ [] }

abbrev who : Holder
who = record { reference = text "r"; handle = text "h" }

abbrev lapsed_at : Time
lapsed_at = at_second 1000

abbrev now : Time
now = at_second 1050

abbrev of_row : SnapshotRow → Window
of_row = window paid held lapsed_at now
