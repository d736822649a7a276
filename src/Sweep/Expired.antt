-- ===== src/Sweep/Expired.antt =====
-- Which grants the listing of step (1) of `reconcile` in operator/src/sweep.rs names.
use onym_backup.Prelude.{
  ℕ, ◌≡◌, refl, ◌∙◌, Bool, false, ◌&&◌, Option, none, some, List, Text, leb, any, eq_text,
}
use onym_backup.Prelude.Sort.Members.{any-map, any_of_select, any-same}
use onym_backup.Clock.{Clock, jd_le, both_le}
use onym_backup.Store.Rows.{Store, UploadRow}
use onym_backup.Store.Uploads.{expired_uploads}

-- is the id among these?
abbrev pub among : Text → List Text → Bool
among u ids = any (λ v. eq_text v u) ids

-- A row under this id whose expiry, read by SQLite, is not after the instant; NULL is never so.
abbrev not_after : Option ℕ → Option ℕ → Bool
not_after (some a) (some b) = leb a b
not_after _ _ = false

abbrev pub has_run_out : Clock → Text → Text → UploadRow → Bool
has_run_out c now u row =
    not_after (c.julianday row.expires_at) (c.julianday now) && eq_text row.upload_id u

run_out_row :
    (c : Clock) (now u : Text) (row : UploadRow)
    → (jd_le c row.expires_at now && eq_text row.upload_id u) ≡ has_run_out c now u row
unfolding jd_le
run_out_row c now u row = same (c.julianday row.expires_at) (c.julianday now)
  where
    same :
        (a b : Option ℕ)
        → (both_le a b && eq_text row.upload_id u) ≡ (not_after a b && eq_text row.upload_id u)
    same none b = refl
    same (some a) none = refl
    same (some a) (some b) = refl

pub expired_rows :
    (c : Clock) (now u : Text) (s : Store)
    → among u (expired_uploads c now s) ≡ any (has_run_out c now u) s.uploads
unfolding expired_uploads
expired_rows c now u s =
    any-map (λ v. eq_text v u) (λ row. row.upload_id) _
    ∙ any_of_select (λ row. eq_text row.upload_id u) (λ row. jd_le c row.expires_at now) s.uploads
    ∙ any-same (λ row. jd_le c row.expires_at now && eq_text row.upload_id u) (has_run_out c now u)
        (run_out_row c now u) s.uploads
