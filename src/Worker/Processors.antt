-- ===== src/Worker/Processors.antt =====
-- Every processor of the worker: the status of its job, and its adapters.
use db_backup_tool.Base.{String, List, [], ◌∷◌, ◌≡◌, sym, some}
use db_backup_tool.Errors.{Result, ok}
use db_backup_tool.Model.{done}
use db_backup_tool.Effects.Inputs.{Adapter}
use db_backup_tool.Effects.Io.{Env, History, Io, pure, ◌>>=◌}
use db_backup_tool.Effects.Logic.{Ensures}
use db_backup_tool.Worker.Backups.{
  run_backup, record_backup, run_restore, backup_processor, backup_failing, restore_processor,
  restore_failing,
}
use db_backup_tool.Worker.Clones.{run_clone, clone_processor, clone_failing}
use db_backup_tool.Worker.Exports.{run_export, record_export, export_processor, export_failing}
use db_backup_tool.Worker.Imports.{run_import, import_processor, import_failing}
use db_backup_tool.Worker.Dispatch.{
  WorkerJob, backup, restore, «export», «import», clone, id_of, processors, opened, open_one,
}
use db_backup_tool.Servers.{get_adapter}
use db_backup_tool.Effects.Inputs.{
  BackupJobData, RestoreJobData, ExportJobData, ImportJobData, CloneJobData,
}
use db_backup_tool.Effects.Invert.{bind-ok, pure-ok}
use db_backup_tool.Worker.Status.{IsReliable, Any}
use db_backup_tool.Worker.Outcome.{Ends, Ends-late, completed-Ends}
use db_backup_tool.Worker.Settled.{Settles, guarded_by-Settles, close-Closes, close_both-Closes}

module _ (env : Env) where
  run_backup-Ends :
      (d : BackupJobData) (a : Adapter) → Ensures env Any (run_backup d a) (Ends d.job_id done)
  unfolding run_backup record_backup
  run_backup-Ends d a = search (Ends-late, completed-Ends) depth 12

  run_restore-Ends :
      (d : RestoreJobData) (a : Adapter) → Ensures env Any (run_restore d a) (Ends d.job_id done)
  unfolding run_restore
  run_restore-Ends d a = search (Ends-late, completed-Ends) depth 12

  run_export-Ends :
      (d : ExportJobData) (a : Adapter) → Ensures env Any (run_export d a) (Ends d.job_id done)
  unfolding run_export record_export
  run_export-Ends d a = search (Ends-late, completed-Ends) depth 12

  run_import-Ends :
      (d : ImportJobData) (a : Adapter) → Ensures env Any (run_import d a) (Ends d.job_id done)
  unfolding run_import
  run_import-Ends d a = search (Ends-late, completed-Ends) depth 12

  run_clone-Ends :
      (d : CloneJobData) (a b : Adapter) → Ensures env Any (run_clone d a b) (Ends d.job_id done)
  unfolding run_clone
  run_clone-Ends d a b = search (Ends-late, completed-Ends) depth 12

module _ (env : Env) (h : History) where
  -- Behind an adapter that was obtained.
  pub after_one :
      {Q : Result (Unit {0}) → History → Type 0} (server tenant database : String)
      (f : Adapter → Io (Unit {0})) (adapters : List Adapter) (mid : History)
      → open_one server tenant database env h ≡ (ok adapters, mid)
      → ((a : Adapter) → adapters ≡ a ∷ [] → Ensures env Any (f a) Q)
      → Q
          ((get_adapter server tenant (some database) >>= f) env h).0
          ((get_adapter server tenant (some database) >>= f) env h).1
  unfolding open_one ◌>>=◌
  after_one server tenant database f adapters mid e k =
      let (a, h₁, got, rest) =
        bind-ok (get_adapter server tenant (some database)) (λ a. pure (a ∷ [])) env h e in
      rw got ((k a (sym (pure-ok rest).0)).at h₁ tt)

  pub after_two :
      {Q : Result (Unit {0}) → History → Type 0} (first second : Io Adapter)
      (f : Adapter → Adapter → Io (Unit {0})) (adapters : List Adapter) (mid : History)
      → (first >>= λ a. second >>= λ b. pure (a ∷ b ∷ [])) env h ≡ (ok adapters, mid)
      → ((a b : Adapter) → adapters ≡ a ∷ b ∷ [] → Ensures env Any (f a b) Q)
      → Q
          ((first >>= λ a. second >>= λ b. f a b) env h).0
          ((first >>= λ a. second >>= λ b. f a b) env h).1
  unfolding ◌>>=◌
  after_two first second f adapters mid e k =
      let (a, h₁, got, rest) = bind-ok first (λ a. second >>= λ b. pure (a ∷ b ∷ [])) env h e in
      let (b, h₂, got₂, last) = bind-ok second (λ b. pure (a ∷ b ∷ [])) env h₁ rest in
      rw got (rw got₂ ((k a b (sym (pure-ok last).0)).at h₂ tt))

  -- With a database that takes the updates of the job, a processor that obtained its adapters leaves
  -- the job done where it returns. Where it throws, it leaves the job failed, unless what threw is
  -- the last call, which closes an adapter.
  pub processors-Settles :
      (w : WorkerJob) (adapters : List Adapter) (mid : History)
      → IsReliable env (id_of w)
      → opened w env h ≡ (ok adapters, mid)
      → Settles (id_of w) (processors w env h).0 (processors w env h).1
  unfolding backup_processor restore_processor export_processor import_processor clone_processor
      backup_failing restore_failing export_failing import_failing clone_failing
  processors-Settles (backup d) adapters mid reliable e =
      after_one d.server_id d.tenant_id d.database _ adapters mid e (λ a same.
        guarded_by-Settles env d.job_id reliable _ _ _ _ (run_backup-Ends env d a)
          (close-Closes env d.job_id a))
  processors-Settles (restore d) adapters mid reliable e =
      after_one d.target_server_id d.tenant_id d.target_database _ adapters mid e (λ a same.
        guarded_by-Settles env d.job_id reliable _ _ _ _ (run_restore-Ends env d a)
          (close-Closes env d.job_id a))
  processors-Settles («export» d) adapters mid reliable e =
      after_one d.server_id d.tenant_id d.database _ adapters mid e (λ a same.
        guarded_by-Settles env d.job_id reliable _ _ _ _ (run_export-Ends env d a)
          (close-Closes env d.job_id a))
  processors-Settles («import» d) adapters mid reliable e =
      after_one d.server_id d.tenant_id d.database _ adapters mid e (λ a same.
        guarded_by-Settles env d.job_id reliable _ _ _ _ (run_import-Ends env d a)
          (close-Closes env d.job_id a))
  processors-Settles (clone d) adapters mid reliable e =
      after_two (get_adapter d.source_server_id d.tenant_id (some d.database))
        (get_adapter d.target_server_id d.tenant_id (some d.target_database)) _ adapters mid e
        (λ a b same.
          guarded_by-Settles env d.job_id reliable _ _ _ _ (run_clone-Ends env d a b)
            (close_both-Closes env d.job_id a b))
