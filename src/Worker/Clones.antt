-- ===== src/Worker/Clones.antt =====
-- src/worker/processors/clone.processor.ts.
use db_backup_tool.Base.{String, ◌<>◌, pos, some, [], ◌∷◌, Bool, true, false}
use db_backup_tool.Base.Json.{object, str}
use db_backup_tool.Errors.{Err, message_of}
use db_backup_tool.Effects.{adapter_dump, adapter_close, restore_from_dump}
use db_backup_tool.Effects.Inputs.{CloneJobData, CloneMode, schema, full, Adapter, promise_all}
use db_backup_tool.Effects.Io.{Io, call, lift, ◌>>=◌, ◌>>◌}
use db_backup_tool.Jobs.{mark_running, update_progress}
use db_backup_tool.Servers.{get_adapter}
use db_backup_tool.Worker.{note, completed, failing, guarded_by}

abbrev pub mode_text : CloneMode → String
mode_text schema = "schema"
mode_text full = "full"

abbrev schema_only : CloneMode → Bool
schema_only schema = true
schema_only full = false

-- The `try` block of `cloneProcessor`.
unfoldable pub run_clone : CloneJobData → (source target : Adapter) → Io (Unit {0})
run_clone d source target = do
  mark_running d.job_id
  update_progress d.job_id (pos 15) (some ("Dumping " <> d.database <> " from source"))
  dump ← call (
      adapter_dump source
        (record { database = d.database; schema_only = schema_only d.mode; tables = [] }))
  update_progress d.job_id (pos 50) (some ("Restoring into " <> d.target_database <> " on target"))
  settled ← call (
      restore_from_dump target dump
        (record { database = d.target_database; create_database = true }))
  lift (promise_all settled)
  completed d.job_id
      (object (
        ("targetServerId", str d.target_server_id)
        ∷ ("targetDatabase", str d.target_database)
        ∷ ("mode", str (mode_text d.mode))
        ∷ []))
      (note d.tenant_id "clone.completed" d.target_server_id (
        object (
          ("sourceServerId", str d.source_server_id)
          ∷ ("database", str d.database)
          ∷ ("targetDatabase", str d.target_database)
          ∷ ("mode", str (mode_text d.mode))
          ∷ [])))
      ("Clone of " <> d.database <> " → " <> d.target_database <> " completed.")

unfoldable pub clone_failing : CloneJobData → Err → Io (Unit {0})
clone_failing d =
    failing d.job_id
      (λ e.
        note d.tenant_id "clone.failed" d.target_server_id
          (object (("database", str d.database) ∷ ("error", str (message_of e)) ∷ [])))
      (λ e. "Clone failed: " <> message_of e)

-- `await source.close(); await target.close();`
unfoldable pub close_both : (source target : Adapter) → Io (Unit {0})
close_both source target = call (adapter_close source) >> call (adapter_close target)

-- `cloneProcessor`
unfoldable pub clone_processor : CloneJobData → Io (Unit {0})
clone_processor d = do
  source ← get_adapter d.source_server_id d.tenant_id (some d.database)
  target ← get_adapter d.target_server_id d.tenant_id (some d.target_database)
  guarded_by (run_clone d source target) (clone_failing d) (close_both source target)
