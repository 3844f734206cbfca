-- ===== src/Api/Errors.antt =====
-- internal/api/errors.go: the status and the code that an error of the manager is answered with.
use sandkasten.Base.{ℕ}
use sandkasten.World.{Error}

-- The error codes of the replies.
pub data ErrorCode : Type 0 where
  session_not_found session_expired invalid_image invalid_workspace command_timeout : ErrorCode
  invalid_request internal_error unauthorized workspace_not_found : ErrorCode

pub record ApiError : Type 0 where
  pub code : ErrorCode
  pub status_code : ℕ

-- writeAPIError. `not_found` wraps session.ErrNotFound; no error that the program makes wraps
-- store.ErrNotFound.
unfoldable pub write_api_error : Error → ApiError
write_api_error (Error.not_found _) = record { code = session_not_found; status_code = 404 }
write_api_error (Error.session_expired _) = record { code = session_expired; status_code = 410 }
write_api_error (Error.invalid_image _) = record { code = invalid_image; status_code = 400 }
write_api_error (Error.command_timeout _) = record { code = command_timeout; status_code = 504 }
write_api_error _ = record { code = internal_error; status_code = 500 }
