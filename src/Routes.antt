-- ===== src/Routes.antt =====
-- src/api/http.ts and src/api/routes/: the handlers of the HTTP routes.
-- A handler takes the context that the guards of its route left, and gives the status and the body of
-- its response; what it throws goes to the error handler. The dates of rows are left out of bodies.
pub mod Backups
pub mod Transfers
pub mod Servers
pub mod Schedules
pub mod Users
pub mod Sessions
pub mod Requests
pub mod Scope
pub mod Stream
pub mod Jobs
pub mod Logs
pub mod Listings
pub mod Mounting
pub mod Schemas
pub mod Table
use db_backup_tool.Base.{ℕ, String, Option, none, some, List}
use db_backup_tool.Base.Json.{Json}
use db_backup_tool.Errors.{bad_request, Err, not_found}
use db_backup_tool.Model.{Job, JobType, JobStatus, DbServer}
use db_backup_tool.Effects.{server_find_first}
use db_backup_tool.Effects.Io.{Io, call, pure, throw, found_or, ◌>>=◌}
use db_backup_tool.Auth.{AuthContext, guarded}
use db_backup_tool.Audit.{AuditEntry}

pub record Response (A : Type 0) : Type 0 where
  pub status : ℕ
  pub body : A

-- `schema.safeParse(body)`
pub data Parsed (A : Type 0) : Type 0 where
  valid : A → Parsed A
  invalid : (flattened : Json) → Parsed A

-- `parseBody`
abbrev pub parse_body : {A : Type 0} → Parsed A → Io A
parse_body (valid a) = pure a
parse_body (invalid flattened) = throw (bad_request "Validation failed" (some flattened))

-- `requirePermission(...required)` with a handler behind it.
unfoldable pub route : {A : Type 0} → List String → (AuthContext → Io A) → Option String → Io A
route required handler header = guarded required header >>= handler

-- What a handler writes to the audit log about its user.
abbrev pub by : AuthContext → (action : String) → Option String → Option Json → AuditEntry
by auth action target meta = record {
  tenant_id = auth.tenant_id;
  actor_id = some auth.user_id;
  actor_email = some auth.email;
  action = action;
  target = target;
  meta = meta;
  ip = none;
}

-- The body of a response about a new job.
pub record Accepted : Type 0 where
  pub id : String
  pub type : JobType
  pub status : JobStatus
  pub progress : ℕ

abbrev pub accepted : Job → Response Accepted
accepted job = record {
  status = 202;
  body = record { id = job.id; type = job.type; status = job.status; progress = 0 };
}

-- `findFirst` of a server in the tenant, with its guard.
unfoldable pub find_server : (tenant_id server_id message : String) → Io DbServer
find_server tenant_id server_id message = do
  server ← call (server_find_first server_id tenant_id)
  found_or (not_found message) server
