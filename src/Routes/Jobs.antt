-- ===== src/Routes/Jobs.antt =====
-- src/api/routes/jobs.routes.ts.
use db_backup_tool.Base.{
  ℕ, String, ◌==◌, if◌then◌else◌, Option, none, some, or_else, List, map, starts_with, drop_chars,
}
use db_backup_tool.Base.Json.{Json}
use db_backup_tool.Errors.{unauthorized, not_found}
use db_backup_tool.Model.{Job, JobType, JobStatus}
use db_backup_tool.Effects.{
  job_find_many, job_count, job_with_events, job_find_first, verify_access,
}
use db_backup_tool.Effects.Inputs.{JobEvent}
use db_backup_tool.Effects.Io.{Io, call, pure, throw, found_or, try_catch, ◌>>=◌, ◌>>◌}
use db_backup_tool.Auth.{AuthContext, has, get_user_permissions}
use db_backup_tool.Routes.{Response}
use db_backup_tool.Routes.Stream.{Connection, open_connection}

-- `publicJob`
pub record PublicJob : Type 0 where
  pub id : String
  pub type : JobType
  pub status : JobStatus
  pub progress : ℕ
  pub params : Json
  pub result : Option Json
  pub error : Option String
  pub started_at : Option ℕ
  pub finished_at : Option ℕ

abbrev pub public_job : Job → PublicJob
public_job j = record {
  id = j.id;
  type = j.type;
  status = j.status;
  progress = j.progress;
  params = j.params;
  result = j.result;
  error = j.error;
  started_at = j.started_at;
  finished_at = j.finished_at;
}

-- The body of a listing: its rows, and how many there are in all.
pub record Listing (A : Type 0) : Type 0 where
  pub data_rows : List A
  pub total : ℕ

-- GET /jobs
unfoldable pub list : AuthContext → Io (Response (Listing PublicJob))
list auth = do
  jobs ← call (job_find_many auth.tenant_id 100)
  total ← call (job_count auth.tenant_id)
  pure (record { status = 200; body = record { data_rows = map public_job jobs; total = total } })

-- GET /jobs/:id
unfoldable pub get : AuthContext → (id : String) → Io (Response (PublicJob × List JobEvent))
get auth id = do
  job ← call (job_with_events id auth.tenant_id)
  found ← found_or (not_found "Job not found") job
  pure (record { status = 200; body = (public_job found.0, found.1) })

-- The token behind "Bearer " of the Authorization header.
abbrev pub header_token : Option String → Option String
header_token none = none
header_token (some header) =
    if starts_with header "Bearer " then some (drop_chars 7 header) else none

-- `if (!token) throw`
abbrev present : Option String → Io String
present none = throw (unauthorized "Missing token")
present (some token) = if token == "" then throw (unauthorized "Missing token") else pure token

-- GET /jobs/:id/stream, with the Authorization header and the parameters of the query.
unfoldable pub stream : (id : String) → (header access_token token : Option String) → Io Connection
stream id header access_token token = do
  chosen ← present (or_else (or_else (header_token header) access_token) token)
  payload ← try_catch (call (verify_access chosen)) (λ e. throw (unauthorized "Invalid token"))
  permissions ← get_user_permissions payload.sub
  if has permissions "job:read" then pure tt else throw (unauthorized "Missing permission")
  job ← call (job_find_first id payload.tid)
  found ← found_or (not_found "Job not found") job
  pure (open_connection found)
