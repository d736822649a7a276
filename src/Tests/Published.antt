-- ===== src/Tests/Published.antt =====
-- The published terms, at concrete inputs.
use onym_backup.Prelude.{◌≡◌, refl, some, [], ◌∷◌, text}
use onym_backup.Prelude.Exec.{ok}
use onym_backup.Clock.{Time}
use onym_backup.Documents.Json.{Value, string, get}
use onym_backup.Documents.Published.{default_terms}
use onym_backup.Erasures.Compose.{compose}
use onym_backup.Erasures.Promised.{default_terms_erasable}
use onym_backup.Tests.Setting.{config, documents, operator, at_second}

abbrev week_later : Time
week_later = at_second 704_800

default_terms_erasable_example :
    (receipt : Value) × (compose operator
        (text "id")
        (default_terms config documents.operator_key)
        (text "t")
        (text "all")
        (text "d" ∷ [])
        ((at_second 100_000).nanos ∷ 0 ∷ [])
      ≡ ok receipt)
    × (get (text "completionCommittedBy") receipt ≡ some (string (week_later.nanos ∷ 0 ∷ [])))
    × (get (text "termsId") receipt ≡ some (string (text "t")))
default_terms_erasable_example =
    default_terms_erasable operator (text "id") (text "t") (text "all") (text "d" ∷ [])
      ((at_second 100_000).nanos ∷ 0 ∷ []) (week_later.nanos ∷ 0 ∷ []) (at_second 100_000)
      week_later refl refl refl
