-- ===== src/Scheduler/Retention.antt =====
-- src/scheduler/retention.ts: old backups of a database are deleted.
use db_backup_tool.Base.{
  ℕ, suc, String, ◌==◌, Bool, true, false, Option, none, some, List, [], ◌∷◌, drop,
}
use db_backup_tool.Errors.{Result, ok, err}
use db_backup_tool.Model.{Backup, deleted}
use db_backup_tool.Effects.{backup_find_available, backup_set_status, storage_delete}
use db_backup_tool.Effects.Io.{Io, call, pure, asks, attempt, ◌>>=◌, ◌>>◌}

unfoldable pub delete_uri : (empty : Bool) → String → Io (Unit {0})
delete_uri true uri = pure tt
delete_uri false uri = do key ← asks (λ env. env.uri_to_key uri); call (storage_delete key)

-- The object of a backup in storage, if it has one.
abbrev pub delete_object : Option String → Io (Unit {0})
delete_object none = pure tt
delete_object (some uri) = delete_uri (uri == "") uri

-- The `try` block of the loop of `enforceRetention`.
unfoldable pub delete_backup : Backup → Io (Unit {0})
delete_backup b = do delete_object b.storage_uri; call (backup_set_status b.id deleted)

abbrev pub counted : Result (Unit {0}) → ℕ → ℕ
counted (ok u) n = suc n
counted (err e) n = n

-- The loop of `enforceRetention`; a failure is logged, and the loop goes on.
unfoldable pub delete_each : (removed : ℕ) → List Backup → Io ℕ
delete_each removed [] = pure removed
delete_each removed (b ∷ bs) = attempt (delete_backup b) >>= λ r. delete_each (counted r removed) bs

-- `enforceRetention`
unfoldable pub enforce_retention : (tenant_id server_id database : String) → (retention : ℕ) → Io ℕ
enforce_retention tenant_id server_id database retention = do
  backups ← call (backup_find_available tenant_id server_id database)
  delete_each 0 (drop retention backups)
