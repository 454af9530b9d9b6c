-- ===== src/Worker/Dispatch.antt =====
-- src/worker.ts: the processor of each queue, and the adapters that it builds first.
use db_backup_tool.Base.{String, some, List, [], ◌∷◌}
use db_backup_tool.Effects.Inputs.{
  BackupJobData, RestoreJobData, ExportJobData, ImportJobData, CloneJobData, Adapter,
}
use db_backup_tool.Effects.Io.{Io, pure, ◌>>=◌}
use db_backup_tool.Servers.{get_adapter}
use db_backup_tool.Worker.Backups.{backup_processor, restore_processor}
use db_backup_tool.Worker.Exports.{export_processor}
use db_backup_tool.Worker.Imports.{import_processor}
use db_backup_tool.Worker.Clones.{clone_processor}

-- A job of one of the queues that the worker serves.
pub data WorkerJob : Type 0 where
  backup : BackupJobData → WorkerJob
  restore : RestoreJobData → WorkerJob
  «export» : ExportJobData → WorkerJob
  «import» : ImportJobData → WorkerJob
  clone : CloneJobData → WorkerJob

abbrev pub id_of : WorkerJob → String
id_of (backup d) = d.job_id
id_of (restore d) = d.job_id
id_of («export» d) = d.job_id
id_of («import» d) = d.job_id
id_of (clone d) = d.job_id

-- `processors`
abbrev pub processors : WorkerJob → Io (Unit {0})
processors (backup d) = backup_processor d
processors (restore d) = restore_processor d
processors («export» d) = export_processor d
processors («import» d) = import_processor d
processors (clone d) = clone_processor d

unfoldable pub open_one : (server_id tenant_id database : String) → Io (List Adapter)
open_one server_id tenant_id database = do
  adapter ← get_adapter server_id tenant_id (some database)
  pure (adapter ∷ [])

-- What a processor awaits before its `try` block.
abbrev pub opened : WorkerJob → Io (List Adapter)
opened (backup d) = open_one d.server_id d.tenant_id d.database
opened (restore d) = open_one d.target_server_id d.tenant_id d.target_database
opened («export» d) = open_one d.server_id d.tenant_id d.database
opened («import» d) = open_one d.server_id d.tenant_id d.database
opened (clone d) = get_adapter d.source_server_id d.tenant_id (some d.database) >>= λ source.
    get_adapter d.target_server_id d.tenant_id (some d.target_database) >>= λ target.
    pure (source ∷ target ∷ [])
