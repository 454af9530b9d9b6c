-- ===== src/Routes/Transfers.antt =====
-- src/api/routes/transfer.routes.ts: exports, imports and clones. The bodies are what the schemas let
-- through.
use db_backup_tool.Base.{
  ℕ, String, ◌<>◌, show_nat, eqb, length, if◌then◌else◌, none, some, List, [], ◌∷◌, ◌++◌,
}
use db_backup_tool.Base.Json.{Json, object, str}
use db_backup_tool.Errors.{bad_request}
use db_backup_tool.Model.{JobType, BackupFormat}
use db_backup_tool.Effects.{storage_put, now}
use db_backup_tool.Effects.Inputs.{QueueName, CloneMode, export_data, import_data, clone_data}
use db_backup_tool.Effects.Io.{Io, call, pure, asks, throw, ◌>>=◌, ◌>>◌}
use db_backup_tool.Auth.{AuthContext}
use db_backup_tool.Audit.{audit}
use db_backup_tool.Jobs.{create_job}
use db_backup_tool.Queue.{enqueue, job_id_option}
use db_backup_tool.Routes.{Response, Parsed, parse_body, by, Accepted, accepted, find_server}
use db_backup_tool.Worker.Clones.{mode_text}
use db_backup_tool.Worker.Exports.{format_text}

-- `exportSchema`
pub record ExportBody : Type 0 where
  pub database : String
  pub table : String
  pub format : BackupFormat

-- POST /servers/:id/export
unfoldable pub request_export :
    AuthContext → (id : String) → Parsed ExportBody → Io (Response Accepted)
request_export auth id body = do
  input ← parse_body body
  server ← find_server auth.tenant_id id "Server not found"
  job ← create_job auth.tenant_id JobType.«export» (some auth.user_id) none (
      object (
        ("serverId", str id)
        ∷ ("database", str input.database)
        ∷ ("table", str input.table)
        ∷ ("format", str (format_text input.format))
        ∷ []))
  added ←
      enqueue QueueName.«export»
        (export_data (record {
          job_id = job.id;
          tenant_id = auth.tenant_id;
          server_id = id;
          database = input.database;
          table = input.table;
          format = input.format;
        }))
        (some (job_id_option job.id))
  audit (
      by auth "export.requested" (some ("server:" <> id)) (
        some (
          object (
            ("database", str input.database)
            ∷ ("table", str input.table)
            ∷ ("format", str (format_text input.format))
            ∷ ("jobId", str job.id)
            ∷ []))))
  pure (accepted job)

-- `importSchema`
pub record ImportBody : Type 0 where
  pub server_id : String
  pub database : String
  pub table : String
  pub format : BackupFormat
  pub file_base64 : String

-- `if (buffer.length === 0) throw`
unfoldable pub non_empty : List ℕ → Io (List ℕ)
non_empty buffer =
    if eqb (length buffer) 0 then throw (bad_request "Empty file" none) else pure buffer

-- POST /imports
unfoldable pub request_import : AuthContext → Parsed ImportBody → Io (Response Accepted)
request_import auth body = do
  input ← parse_body body
  server ← find_server auth.tenant_id input.server_id "Server not found"
  decoded ← asks (λ env. env.from_base64 input.file_base64)
  buffer ← non_empty decoded
  time ← call now
  let file_key =
      "tenants/"
      <> auth.tenant_id
      <> "/imports/"
      <> show_nat time
      <> "-"
      <> input.table
      <> "."
      <> format_text input.format
  stored ← call (storage_put file_key (buffer ∷ []))
  job ← create_job auth.tenant_id JobType.«import» (some auth.user_id) none (
      object (
        ("serverId", str input.server_id)
        ∷ ("database", str input.database)
        ∷ ("table", str input.table)
        ∷ ("format", str (format_text input.format))
        ∷ []))
  added ←
      enqueue QueueName.«import»
        (import_data (record {
          job_id = job.id;
          tenant_id = auth.tenant_id;
          server_id = input.server_id;
          database = input.database;
          table = input.table;
          format = input.format;
          file_key = file_key;
        }))
        (some (job_id_option job.id))
  audit (
      by auth "import.requested" (some ("server:" <> input.server_id)) (
        some (
          object (
            ("database", str input.database)
            ∷ ("table", str input.table)
            ∷ ("format", str (format_text input.format))
            ∷ ("jobId", str job.id)
            ∷ []))))
  pure (accepted job)

-- `cloneSchema`
pub record CloneBody : Type 0 where
  pub source_server_id : String
  pub target_server_id : String
  pub database : String
  pub target_database : String
  pub mode : CloneMode

abbrev clone_fields : CloneBody → List (String × Json)
clone_fields input =
    ("sourceServerId", str input.source_server_id)
    ∷ ("targetServerId", str input.target_server_id)
    ∷ ("database", str input.database)
    ∷ ("targetDatabase", str input.target_database)
    ∷ ("mode", str (mode_text input.mode))
    ∷ []

-- POST /clone
unfoldable pub request_clone : AuthContext → Parsed CloneBody → Io (Response Accepted)
request_clone auth body = do
  input ← parse_body body
  source ← find_server auth.tenant_id input.source_server_id "Server not found"
  target ← find_server auth.tenant_id input.target_server_id "Server not found"
  job ←
      create_job auth.tenant_id JobType.clone (some auth.user_id) none (object (clone_fields input))
  added ←
      enqueue QueueName.clone
        (clone_data (record {
          job_id = job.id;
          tenant_id = auth.tenant_id;
          source_server_id = input.source_server_id;
          target_server_id = input.target_server_id;
          database = input.database;
          target_database = input.target_database;
          mode = input.mode;
        }))
        (some (job_id_option job.id))
  audit (
      by auth "clone.requested" none
        (some (object (clone_fields input ++ ("jobId", str job.id) ∷ []))))
  pure (accepted job)
