-- ===== src/Frontend/Requests/Served.antt =====
-- The hooks of the client against the routes of the API.
use db_backup_tool.Base.{String, ◌==◌, Bool, false, some, List, [], ◌∷◌, ◌≡◌, refl}
use db_backup_tool.Routes.Table.{api_routes, permission_of}
use db_backup_tool.Routes.Requests.{Request, needs}
use db_backup_tool.Routes.Requests
use db_backup_tool.Frontend.Requests.{
  server_hook, backup_hook, import_hook, job_hook, schedule_hook, user_hook, audit_hook, Use,
  server_use, backup_use, import_use, job_use, schedule_use, user_use, audit_use, hook_of, verb_of,
  path_of, use_servers, use_server, use_server_databases, use_create_server, use_update_server,
  use_delete_server, use_test_connection, use_run_backup, use_export, use_clone, use_backups,
  use_backup, use_restore, use_jobs, use_job, use_schedules, use_create_schedule,
  use_update_schedule, use_delete_schedule, use_users, use_roles, use_create_user, use_update_user,
  use_delete_user, use_assign_role,
}

-- The request that a hook asks for, with the verdict on its body.
pub data Asks : Use → Request → Type 0 where
  list_servers : Asks (server_use use_servers) Requests.list_servers
  get_server : (id : String) → Asks (server_use (use_server (some id))) (Requests.get_server id)
  list_databases :
      (id : String) (enabled : Bool)
      → Asks (server_use (use_server_databases (some id) enabled)) (Requests.list_databases id)
  create_server : (b : _) → Asks (server_use use_create_server) (Requests.create_server b)
  update_server :
      (id : String) (b : _) → Asks (server_use (use_update_server id)) (Requests.update_server id b)
  delete_server :
      (id : String) → Asks (server_use (use_delete_server id)) (Requests.delete_server id)
  test_connection :
      (id : String) → Asks (server_use (use_test_connection id)) (Requests.test_connection id)
  run_backup :
      (id : String) (b : _) → Asks (server_use (use_run_backup id)) (Requests.run_backup id b)
  export_table :
      (id : String) (b : _) → Asks (server_use (use_export id)) (Requests.request_export id b)
  clone : (b : _) → Asks (server_use use_clone) (Requests.request_clone b)
  list_backups : Asks (backup_use use_backups) Requests.list_backups
  get_backup : (id : String) → Asks (backup_use (use_backup (some id))) (Requests.get_backup id)
  restore_backup :
      (id : String) (b : _) → Asks (backup_use (use_restore id)) (Requests.restore_backup id b)
  import_file : (b : _) → Asks import_use (Requests.request_import b)
  list_jobs : Asks (job_use use_jobs) Requests.list_jobs
  get_job : (id : String) → Asks (job_use (use_job (some id))) (Requests.get_job id)
  list_schedules : Asks (schedule_use use_schedules) Requests.list_schedules
  create_schedule : (b : _) → Asks (schedule_use use_create_schedule) (Requests.create_schedule b)
  update_schedule :
      (id : String) (b : _)
      → Asks (schedule_use (use_update_schedule id)) (Requests.update_schedule id b)
  delete_schedule :
      (id : String) → Asks (schedule_use (use_delete_schedule id)) (Requests.delete_schedule id)
  list_users : Asks (user_use use_users) Requests.list_users
  list_roles : Asks (user_use use_roles) Requests.list_roles
  create_user : (b : _) → Asks (user_use use_create_user) (Requests.create_user b)
  update_user :
      (id : String) (b : _) → Asks (user_use (use_update_user id)) (Requests.update_user id b)
  delete_user : (id : String) → Asks (user_use (use_delete_user id)) (Requests.delete_user id)
  assign_role :
      (id : String) (b : _) → Asks (user_use (use_assign_role id)) (Requests.assign_role id b)
  list_audit : (params : String) (q : _) → Asks (audit_use params) (Requests.list_audit q)

-- The identifiers in the path of a hook.
abbrev pub Named : List String → Type 0
Named [] = Unit
Named (s ∷ ss) = ((s == "") ≡ false) × Named ss

-- What a hook of the client sends, its identifiers not being empty, is served by a route of the API
-- that requires the permission of the request that the hook asks for.
pub hook_of-served :
    (u : Use) (r : Request)
    → Asks u r
    → Named (path_of (hook_of u))
    → permission_of api_routes (verb_of (hook_of u)) (path_of (hook_of u)) ≡ some (some (needs r))
unfolding server_hook backup_hook import_hook job_hook schedule_hook user_hook audit_hook
    permission_of
hook_of-served _ _ list_servers n = refl
hook_of-served _ _ (get_server id) (_, (i, _)) = rw i refl
hook_of-served _ _ (list_databases id enabled) (_, (i, _)) = rw i refl
hook_of-served _ _ (create_server b) n = refl
hook_of-served _ _ (update_server id b) (_, (i, _)) = rw i refl
hook_of-served _ _ (delete_server id) (_, (i, _)) = rw i refl
hook_of-served _ _ (test_connection id) (_, (i, _)) = rw i refl
hook_of-served _ _ (run_backup id b) (_, (i, _)) = rw i refl
hook_of-served _ _ (export_table id b) (_, (i, _)) = rw i refl
hook_of-served _ _ (clone b) n = refl
hook_of-served _ _ list_backups n = refl
hook_of-served _ _ (get_backup id) (_, (i, _)) = rw i refl
hook_of-served _ _ (restore_backup id b) (_, (i, _)) = rw i refl
hook_of-served _ _ (import_file b) n = refl
hook_of-served _ _ list_jobs n = refl
hook_of-served _ _ (get_job id) (_, (i, _)) = rw i refl
hook_of-served _ _ list_schedules n = refl
hook_of-served _ _ (create_schedule b) n = refl
hook_of-served _ _ (update_schedule id b) (_, (i, _)) = rw i refl
hook_of-served _ _ (delete_schedule id) (_, (i, _)) = rw i refl
hook_of-served _ _ list_users n = refl
hook_of-served _ _ list_roles n = refl
hook_of-served _ _ (create_user b) n = refl
hook_of-served _ _ (update_user id b) (_, (i, _)) = rw i refl
hook_of-served _ _ (delete_user id) (_, (i, _)) = rw i refl
hook_of-served _ _ (assign_role id b) (_, (i, _)) = rw i refl
hook_of-served _ _ (list_audit params q) n = refl
