-- ===== src/Routes/Backups.antt =====
-- src/api/routes/backups.routes.ts. The bodies are what the schemas let through.
use db_backup_tool.Base.{ℕ, Option, String, ◌<>◌, Bool, none, some, [], ◌∷◌}
use db_backup_tool.Base.Json.{object, str, bool}
use db_backup_tool.Errors.{not_found}
use db_backup_tool.Model.{JobType, Backup, BackupFormat, BackupStatus}
use db_backup_tool.Effects.{backup_find_first, storage_get}
use db_backup_tool.Effects.Inputs.{QueueName, backup_data, restore_data}
use db_backup_tool.Effects.Io.{Io, call, pure, asks, found_or, ◌>>=◌, ◌>>◌}
use db_backup_tool.Auth.{AuthContext}
use db_backup_tool.Audit.{audit}
use db_backup_tool.Jobs.{create_job}
use db_backup_tool.Queue.{enqueue, job_id_option}
use db_backup_tool.Routes.{Response, Parsed, parse_body, by, Accepted, accepted, find_server}
use db_backup_tool.Worker.Backups.{artifact}

-- POST /servers/:id/backups
unfoldable pub run_backup : AuthContext → (id : String) → Parsed String → Io (Response Accepted)
run_backup auth id body = do
  database ← parse_body body
  server ← find_server auth.tenant_id id "Server not found"
  job ←
      create_job auth.tenant_id JobType.backup (some auth.user_id) none
        (object (("serverId", str server.id) ∷ ("database", str database) ∷ []))
  added ←
      enqueue QueueName.backup
        (backup_data (record {
          job_id = job.id;
          tenant_id = auth.tenant_id;
          server_id = server.id;
          database = database;
        }))
        (some (job_id_option job.id))
  audit (
      by auth "backup.requested" (some ("server:" <> server.id))
        (some (object (("database", str database) ∷ ("jobId", str job.id) ∷ []))))
  pure (accepted job)

-- `publicBackup`
pub record PublicBackup : Type 0 where
  pub id : String
  pub server_id : String
  pub database : String
  pub format : BackupFormat
  pub status : BackupStatus
  pub size : ℕ
  pub storage_uri : Option String
  pub checksum : Option String
  pub job_id : Option String

abbrev pub public_backup : Backup → PublicBackup
public_backup b = record {
  id = b.id;
  server_id = b.server_id;
  database = b.database;
  format = b.format;
  status = b.status;
  size = b.size;
  storage_uri = b.storage_uri;
  checksum = b.checksum;
  job_id = b.job_id;
}

-- GET /backups/:id
unfoldable pub get_backup : AuthContext → (id : String) → Io (Response PublicBackup)
get_backup auth id = do
  backup ← call (backup_find_first id auth.tenant_id)
  b ← found_or (not_found "Backup not found") backup
  pure (record { status = 200; body = public_backup b })

-- GET /backups/:id/download: the stream that is piped into the response.
unfoldable pub download : AuthContext → (id : String) → Io String
download auth id = do
  found ← call (backup_find_first id auth.tenant_id)
  backup ← found_or (not_found "Backup artifact not found") found
  uri ← artifact backup.storage_uri
  audit (by auth "backup.downloaded" (some ("backup:" <> backup.id)) none)
  key ← asks (λ env. env.uri_to_key uri)
  call (storage_get key)

-- `restoreSchema`
pub record RestoreBody : Type 0 where
  pub target_server_id : String
  pub target_database : String
  pub create_database : Bool

-- POST /backups/:id/restore
unfoldable pub restore_backup :
    AuthContext → (id : String) → Parsed RestoreBody → Io (Response Accepted)
restore_backup auth id body = do
  input ← parse_body body
  found ← call (backup_find_first id auth.tenant_id)
  backup ← found_or (not_found "Backup not found") found
  target ← find_server auth.tenant_id input.target_server_id "Target server not found"
  let fields =
      ("targetServerId", str input.target_server_id)
      ∷ ("targetDatabase", str input.target_database)
      ∷ ("createDatabase", bool input.create_database)
      ∷ []
  job ←
      create_job auth.tenant_id JobType.restore (some auth.user_id) none
        (object (("backupId", str backup.id) ∷ fields))
  added ←
      enqueue QueueName.restore
        (restore_data (record {
          job_id = job.id;
          tenant_id = auth.tenant_id;
          backup_id = backup.id;
          target_server_id = input.target_server_id;
          target_database = input.target_database;
          create_database = input.create_database;
        }))
        (some (job_id_option job.id))
  audit (
      by auth "restore.requested" (some ("backup:" <> backup.id)) (
        some (
          object (
            ("targetServerId", str input.target_server_id)
            ∷ ("targetDatabase", str input.target_database)
            ∷ ("createDatabase", bool input.create_database)
            ∷ ("jobId", str job.id)
            ∷ []))))
  pure (accepted job)
