-- ===== src/Worker/Backups.antt =====
-- src/worker/processors/backup.processor.ts and src/worker/processors/restore.processor.ts.
use db_backup_tool.Base.{
  String, ◌<>◌, ◌==◌, if◌then◌else◌, show_nat, pos, Option, none, some, [], ◌∷◌, false,
}
use db_backup_tool.Base.Json.{object, str, num}
use db_backup_tool.Errors.{Err, message_of, not_found}
use db_backup_tool.Model.{Backup, sql, available}
use db_backup_tool.Effects.{
  adapter_dump, adapter_restore, adapter_close, dump_to_storage, backup_create, backup_find_first,
  storage_get,
}
use db_backup_tool.Effects.Inputs.{
  BackupJobData, RestoreJobData, Adapter, Streamed, PutResult, promise_all,
}
use db_backup_tool.Effects.Io.{Io, call, asks, lift, throw, pure, ◌>>=◌, ◌>>◌}
use db_backup_tool.HashStream.{new_stream, through, digest, size_of}
use db_backup_tool.Jobs.{mark_running, update_progress}
use db_backup_tool.Servers.{get_adapter}
use db_backup_tool.Worker.{note, completed, failing, guarded_by}

abbrev backup_key : BackupJobData → String
backup_key d = "tenants/" <> d.tenant_id <> "/backups/" <> d.job_id <> "/" <> d.database <> ".sql"

-- The row of the artifact, and the end of the `try` block.
unfoldable pub record_backup : BackupJobData → Streamed → PutResult → Io (Unit {0})
record_backup d streamed put = do
  let hasher = (through new_stream streamed.chunks).0
  let size = size_of hasher put.size
  checksum ← asks (λ env. digest env hasher)
  backup ← call (
      backup_create (record {
        tenant_id = d.tenant_id;
        server_id = d.server_id;
        job_id = d.job_id;
        database = d.database;
        format = sql;
        status = available;
        size = size;
        storage_uri = put.uri;
        checksum = checksum;
      }))
  completed d.job_id
      (object (
        ("backupId", str backup.id)
        ∷ ("size", num size)
        ∷ ("checksum", str checksum)
        ∷ ("storageUri", str put.uri)
        ∷ []))
      (note d.tenant_id "backup.completed" d.server_id (
        object
          (("database", str d.database) ∷ ("backupId", str backup.id) ∷ ("size", num size) ∷ [])))
      ("Backup of " <> d.database <> " completed (" <> show_nat size <> " bytes).")

-- The `try` block of `backupProcessor`.
unfoldable pub run_backup : BackupJobData → Adapter → Io (Unit {0})
run_backup d adapter = do
  mark_running d.job_id
  update_progress d.job_id (pos 5) (some ("Starting backup of " <> d.database))
  dump ←
      call
        (adapter_dump adapter (record { database = d.database; schema_only = false; tables = [] }))
  update_progress d.job_id (pos 30) (some "Streaming dump to storage")
  streamed ← call (dump_to_storage (backup_key d) dump)
  put ← lift (promise_all streamed.settled)
  record_backup d streamed put

unfoldable pub backup_failing : BackupJobData → Err → Io (Unit {0})
backup_failing d =
    failing d.job_id
      (λ e.
        note d.tenant_id "backup.failed" d.server_id
          (object (("database", str d.database) ∷ ("error", str (message_of e)) ∷ [])))
      (λ e. "Backup of " <> d.database <> " failed: " <> message_of e)

-- `backupProcessor`
unfoldable pub backup_processor : BackupJobData → Io (Unit {0})
backup_processor d = do
  adapter ← get_adapter d.server_id d.tenant_id (some d.database)
  guarded_by (run_backup d adapter) (backup_failing d) (call (adapter_close adapter))

abbrev pub uri_of : Option Backup → Option String
uri_of none = none
uri_of (some backup) = backup.storage_uri

-- `if (!backup?.storageUri) throw`, where an empty text counts as missing.
abbrev pub artifact : Option String → Io String
artifact none = throw (not_found "Backup artifact not found")
artifact (some uri) = if uri == "" then throw (not_found "Backup artifact not found") else pure uri

-- The `try` block of `restoreProcessor`.
unfoldable pub run_restore : RestoreJobData → Adapter → Io (Unit {0})
run_restore d adapter = do
  mark_running d.job_id
  backup ← call (backup_find_first d.backup_id d.tenant_id)
  uri ← artifact (uri_of backup)
  update_progress d.job_id (pos 20) (some "Fetching backup artifact")
  key ← asks (λ env. env.uri_to_key uri)
  input ← call (storage_get key)
  update_progress d.job_id (pos 40) (some ("Restoring into " <> d.target_database))
  call (
      adapter_restore adapter input
        (record { database = d.target_database; create_database = d.create_database }))
  completed d.job_id
      (object (
        ("targetServerId", str d.target_server_id)
        ∷ ("targetDatabase", str d.target_database)
        ∷ []))
      (note d.tenant_id "restore.completed" d.target_server_id
        (object (("backupId", str d.backup_id) ∷ ("targetDatabase", str d.target_database) ∷ [])))
      ("Restore into " <> d.target_database <> " completed.")

unfoldable pub restore_failing : RestoreJobData → Err → Io (Unit {0})
restore_failing d =
    failing d.job_id
      (λ e.
        note d.tenant_id "restore.failed" d.target_server_id
          (object (("backupId", str d.backup_id) ∷ ("error", str (message_of e)) ∷ [])))
      (λ e. "Restore failed: " <> message_of e)

-- `restoreProcessor`
unfoldable pub restore_processor : RestoreJobData → Io (Unit {0})
restore_processor d = do
  adapter ← get_adapter d.target_server_id d.tenant_id (some d.target_database)
  guarded_by (run_restore d adapter) (restore_failing d) (call (adapter_close adapter))
