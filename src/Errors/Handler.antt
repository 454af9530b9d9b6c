-- ===== src/Errors/Handler.antt =====
-- src/api/errorHandler.ts: the status and the body of the response to a thrown value.
use db_backup_tool.Base.{ℕ, String, Bool, false, Option, none, some, ◌==◌, if◌then◌else◌}
use db_backup_tool.Base.Json.{Json}
use db_backup_tool.Errors.{Err, app, foreign}

pub record ErrorResponse : Type 0 where
  pub status : ℕ
  pub code : String
  pub message : String
  pub details : Option Json

abbrev code_is : Option String → String → Bool
code_is none c = false
code_is (some b) c = b == c

abbrev plain : ℕ → String → String → ErrorResponse
plain status code message = record {
  status = status;
  code = code;
  message = message;
  details = none;
}

-- `errorHandler`
unfoldable pub error_handler : Err → ErrorResponse
error_handler (app e) = record {
  status = e.status_code;
  code = e.error_code;
  message = e.message;
  details = e.details;
}
error_handler (foreign name code message) =
    if code_is code "P2002"
    then plain 409 "conflict" "Resource already exists"
    else if code_is code "P2025"
    then plain 404 "not_found" "Resource not found"
    else plain 500 "internal" "Internal server error"
