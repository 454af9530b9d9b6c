-- ===== src/Errors.antt =====
-- src/lib/errors.ts and src/api/errorHandler.ts: thrown values, and the response made of them.
pub mod Handler
use db_backup_tool.Base.{ℕ, String, Option, none, some}
use db_backup_tool.Base.Json.{Json}

-- `class AppError`
pub record AppError : Type 0 where
  pub status_code : ℕ
  pub message : String
  pub error_code : String
  pub details : Option Json

-- A thrown value: an `AppError`, or an error of another library with its `name`, `code` and
-- `message`.
pub data Err : Type 0 where
  app : AppError → Err
  foreign : (name : String) (code : Option String) (message : String) → Err

-- `(err as Error).message`
abbrev pub message_of : Err → String
message_of (app e) = e.message
message_of (foreign name code message) = message

-- `(err as { name?: string }).name`; the constructor of `AppError` sets its own.
abbrev pub name_of : Err → String
name_of (app e) = "AppError"
name_of (foreign name code message) = name

abbrev pub bad_request : String → Option Json → Err
bad_request msg details =
    app (record { status_code = 400; message = msg; error_code = "bad_request"; details = details })

abbrev pub unauthorized : String → Err
unauthorized msg =
    app (record { status_code = 401; message = msg; error_code = "unauthorized"; details = none })

abbrev pub forbidden : String → Err
forbidden msg =
    app (record { status_code = 403; message = msg; error_code = "forbidden"; details = none })

abbrev pub not_found : String → Err
not_found msg =
    app (record { status_code = 404; message = msg; error_code = "not_found"; details = none })

abbrev pub conflict : String → Err
conflict msg =
    app (record { status_code = 409; message = msg; error_code = "conflict"; details = none })

abbrev pub internal : String → Err
internal msg =
    app (record { status_code = 500; message = msg; error_code = "internal"; details = none })

-- What an operation that may throw gives.
pub data Result {ℓ} (A : Type ℓ) : Type ℓ where
  ok : A → Result A
  err : Err → Result A
