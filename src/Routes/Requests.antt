-- ===== src/Routes/Requests.antt =====
-- src/api/routes/: the requests of signed-in users that the routes above serve, each with the
-- permission of its route.
use db_backup_tool.Base.{String, Option, [], ◌∷◌}
use db_backup_tool.Effects.Io.{Io, pure, ◌>>=◌}
use db_backup_tool.Effects.Inputs.{ScheduleInput, SchedulePatch}
use db_backup_tool.Servers.{ServerInput}
use db_backup_tool.Auth.{AuthContext}
use db_backup_tool.Routes.{Parsed, route}
use db_backup_tool.Routes.Backups
use db_backup_tool.Routes.Transfers
use db_backup_tool.Routes.Backups.{RestoreBody}
use db_backup_tool.Routes.Transfers.{ExportBody, ImportBody, CloneBody}
use db_backup_tool.Routes.Servers
use db_backup_tool.Routes.Schedules
use db_backup_tool.Routes.Users
use db_backup_tool.Routes.Jobs
use db_backup_tool.Routes.Logs
use db_backup_tool.Routes.Logs.{AuditQuery}
use db_backup_tool.Routes.Listings

pub data Request : Type 0 where
  run_backup : (id : String) → Parsed String → Request
  get_backup : (id : String) → Request
  download : (id : String) → Request
  restore_backup : (id : String) → Parsed RestoreBody → Request
  request_export : (id : String) → Parsed ExportBody → Request
  request_import : Parsed ImportBody → Request
  request_clone : Parsed CloneBody → Request
  create_server : Parsed ServerInput → Request
  get_server : (id : String) → Request
  update_server : (id : String) → Parsed Servers.UpdateBody → Request
  delete_server : (id : String) → Request
  test_connection : (id : String) → Request
  list_databases : (id : String) → Request
  create_schedule : Parsed ScheduleInput → Request
  update_schedule : (id : String) → Parsed SchedulePatch → Request
  delete_schedule : (id : String) → Request
  create_user : Parsed Users.CreateBody → Request
  update_user : (id : String) → Parsed Users.UpdateBody → Request
  delete_user : (id : String) → Request
  assign_role : (id : String) → Parsed String → Request
  list_jobs : Request
  get_job : (id : String) → Request
  list_audit : Parsed AuditQuery → Request
  verify_audit : Request
  list_servers : Request
  list_backups : Request
  list_schedules : Request
  list_users : Request
  list_roles : Request

-- The permission in `requirePermission(...)`.
abbrev pub needs : Request → String
needs (run_backup id body) = "backup:run"
needs (get_backup id) = "backup:read"
needs (download id) = "backup:read"
needs (restore_backup id body) = "restore:run"
needs (request_export id body) = "export:run"
needs (request_import body) = "import:run"
needs (request_clone body) = "clone:run"
needs (create_server body) = "server:create"
needs (get_server id) = "server:read"
needs (update_server id body) = "server:update"
needs (delete_server id) = "server:delete"
needs (test_connection id) = "server:read"
needs (list_databases id) = "server:read"
needs (create_schedule body) = "schedule:manage"
needs (update_schedule id body) = "schedule:manage"
needs (delete_schedule id) = "schedule:manage"
needs (create_user body) = "user:manage"
needs (update_user id body) = "user:manage"
needs (delete_user id) = "user:manage"
needs (assign_role id body) = "user:manage"
needs list_jobs = "job:read"
needs (get_job id) = "job:read"
needs (list_audit query) = "audit:read"
needs verify_audit = "audit:read"
needs list_servers = "server:read"
needs list_backups = "backup:read"
needs list_schedules = "schedule:manage"
needs list_users = "user:manage"
needs list_roles = "user:manage"

-- The handler of a request, without its response.
unfoldable pub done_by : {A : Type 0} → Io A → Io (Unit {0})
done_by m = m >>= λ response. pure tt

abbrev pub handle : Request → AuthContext → Io (Unit {0})
handle (run_backup id body) auth = done_by (Backups.run_backup auth id body)
handle (get_backup id) auth = done_by (Backups.get_backup auth id)
handle (download id) auth = done_by (Backups.download auth id)
handle (restore_backup id body) auth = done_by (Backups.restore_backup auth id body)
handle (request_export id body) auth = done_by (Transfers.request_export auth id body)
handle (request_import body) auth = done_by (Transfers.request_import auth body)
handle (request_clone body) auth = done_by (Transfers.request_clone auth body)
handle (create_server body) auth = done_by (Servers.create auth body)
handle (get_server id) auth = done_by (Servers.get auth id)
handle (update_server id body) auth = done_by (Servers.update auth id body)
handle (delete_server id) auth = done_by (Servers.delete auth id)
handle (test_connection id) auth = done_by (Servers.test_connection auth id)
handle (list_databases id) auth = done_by (Servers.databases auth id)
handle (create_schedule body) auth = done_by (Schedules.create auth body)
handle (update_schedule id body) auth = done_by (Schedules.update auth id body)
handle (delete_schedule id) auth = done_by (Schedules.delete auth id)
handle (create_user body) auth = done_by (Users.create auth body)
handle (update_user id body) auth = done_by (Users.update auth id body)
handle (delete_user id) auth = done_by (Users.delete auth id)
handle (assign_role id body) auth = done_by (Users.assign auth id body)
handle list_jobs auth = done_by (Jobs.list auth)
handle (get_job id) auth = done_by (Jobs.get auth id)
handle (list_audit query) auth = done_by (Logs.list auth query)
handle verify_audit auth = done_by (Logs.verify auth)
handle list_servers auth = done_by (Listings.servers auth)
handle list_backups auth = done_by (Listings.backups auth)
handle list_schedules auth = done_by (Listings.schedules auth)
handle list_users auth = done_by (Listings.users auth)
handle list_roles auth = done_by (Listings.roles auth)

-- A request with the value of its Authorization header.
abbrev pub serve : Request → Option String → Io (Unit {0})
serve request header = route (needs request ∷ []) (handle request) header
