-- ===== src/Worker.antt =====
-- src/worker/processors/: the jobs that the worker runs, one module each.
-- Every processor builds its adapter, runs inside `try`/`catch`/`finally`, and closes the adapter.
pub mod Backups
pub mod Clones
pub mod Csv
pub mod Exports
pub mod Imports
pub mod Dispatch
pub mod Status
pub mod Outcome
pub mod Settled
pub mod Processors
pub mod Closing
pub mod Inserted
use db_backup_tool.Base.{String, ◌<>◌, Option, none, some, List, ◌∷◌, [], true, false}
use db_backup_tool.Base.Json.{Json, object, str}
use db_backup_tool.Errors.{Err, message_of}
use db_backup_tool.Effects.Io.{Io, throw, try_catch, try_finally, ◌>>=◌, ◌>>◌}
use db_backup_tool.Jobs.{mark_done, mark_failed}
use db_backup_tool.Notifications.{notify_job_outcome}
use db_backup_tool.Audit.{AuditEntry, audit}

-- What a processor writes to the audit log.
abbrev pub note : (tenant_id action server_id : String) → Json → AuditEntry
note tenant_id action server_id meta = record {
  tenant_id = tenant_id;
  actor_id = none;
  actor_email = none;
  action = action;
  target = some ("server:" <> server_id);
  meta = some meta;
  ip = none;
}

-- The end of every `try` block.
unfoldable pub completed :
    (job_id : String) (result : Json) → AuditEntry → (summary : String) → Io (Unit {0})
completed job_id result entry summary = do
  mark_done job_id (some result)
  audit entry
  notify_job_outcome job_id true summary

-- Every `catch` block.
unfoldable pub failing :
    (job_id : String) (entry : Err → AuditEntry) (summary : Err → String) → Err → Io (Unit {0})
failing job_id entry summary e = do
  mark_failed job_id (message_of e)
  audit (entry e)
  notify_job_outcome job_id false (summary e)
  throw e

-- `try { body } catch (err) { handle(err) } finally { close }`
unfoldable pub guarded_by :
    (body : Io (Unit {0})) (handle : Err → Io (Unit {0})) (close : Io (Unit {0})) → Io (Unit {0})
guarded_by body handle close = try_finally (try_catch body handle) close
