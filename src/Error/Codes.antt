-- ===== src/Error/Codes.antt =====
-- Which refusals are the operator's fault and not the client's.
use onym_backup.Prelude.{◌≡◌, refl, Bool, true, false}
use onym_backup.Error.{Error, not_found, internal, status, is_server_error}

abbrev pub is_internal : Error → Bool
is_internal (internal _) = true
is_internal _ = false

-- A refusal is logged as a server error exactly when it is `Internal`.
pub server_error_internal : (e : Error) → is_server_error (status e) ≡ is_internal e
unfolding status is_server_error
server_error_internal (not_found r) = refl
server_error_internal _ = refl
