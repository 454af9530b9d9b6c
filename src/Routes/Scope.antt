-- ===== src/Routes/Scope.antt =====
-- The tenant of every call that a request makes.
use db_backup_tool.Base.{
  String, if◌then◌else◌, Option, none, some, [], ◌∷◌, ◌≡◌, All, Bool, true, false,
}
use db_backup_tool.Errors.{ok}
use db_backup_tool.Model.{DbServer, Credential}
use db_backup_tool.Effects.{
  Call, job_create, backup_find_first, schedule_find_first, schedule_create, audit_find_latest,
  audit_create, server_find_first, server_create, user_find_first, user_create, role_find_first,
  queue_add, job_find_many, job_count, job_with_events, audit_find_all, audit_find_many,
  audit_count, server_find_many, server_count, backup_find_many, backup_count, schedule_find_many,
  user_find_many, role_find_many,
}
use db_backup_tool.Effects.Inputs.{
  QueueData, backup_data, restore_data, export_data, import_data, clone_data, trigger_data,
}
use db_backup_tool.Effects.Io.{◌>>=◌, Io, Env, History}
use db_backup_tool.Effects.Logic.{
  keeps_rules, Keeps, Keeps-bind, Keeps-pure, Keeps-throw, Keeps-asked,
}
use db_backup_tool.Auth.{AuthContext, guarded, has}
use db_backup_tool.Auth.Guards.{IsVouched, guarded-IsVouched}
use db_backup_tool.Audit.{AuditEntry, audit, append_entry, audit_input, verify_audit_chain}
use db_backup_tool.Jobs.{create_job}
use db_backup_tool.Queue.{enqueue}
use db_backup_tool.Crypto.{encrypt_secret, aes_encrypt, wrap_dek}
use db_backup_tool.Servers.{
  create_server, update_server_credential_password, get_adapter, get_connection_info, connection_of,
}
use db_backup_tool.Scheduler.Triggers.{
  ScheduleLike, register_schedule, remove_schedule, safe_remove,
}
use db_backup_tool.Routes.{route, Parsed, valid, invalid, parse_body, find_server}
use db_backup_tool.Routes.Requests.{Request, needs, serve, handle, done_by}
use db_backup_tool.Routes.Requests
use db_backup_tool.Worker.Backups.{artifact}
use db_backup_tool.Routes.Backups
use db_backup_tool.Routes.Transfers
use db_backup_tool.Routes.Servers
use db_backup_tool.Routes.Schedules
use db_backup_tool.Routes.Users
use db_backup_tool.Routes.Jobs
use db_backup_tool.Routes.Logs
use db_backup_tool.Routes.Logs.{parse_query}
use db_backup_tool.Routes.Listings

abbrev pub DataScoped : String → QueueData → Type 0
DataScoped t (backup_data d) = d.tenant_id ≡ t
DataScoped t (restore_data d) = d.tenant_id ≡ t
DataScoped t (export_data d) = d.tenant_id ≡ t
DataScoped t (import_data d) = d.tenant_id ≡ t
DataScoped t (clone_data d) = d.tenant_id ≡ t
DataScoped t (trigger_data d) = Unit

-- Where a call names a tenant, it is this one. Rows looked up by their identifier are looked up in
-- the tenant too. A trigger carries the tenant that its schedule's row holds.
abbrev pub Scoped : String → Call → Type 0
Scoped t (job_create d) = d.tenant_id ≡ t
Scoped t (backup_find_first id u) = u ≡ t
Scoped t (schedule_find_first id u) = u ≡ t
Scoped t (schedule_create u d) = u ≡ t
Scoped t (audit_find_latest u) = u ≡ t
Scoped t (audit_create d) = d.tenant_id ≡ t
Scoped t (server_find_first id u) = u ≡ t
Scoped t (server_create u d c) = u ≡ t
Scoped t (user_find_first id u) = u ≡ t
Scoped t (user_create d) = d.tenant_id ≡ t
Scoped t (role_find_first id u) = u ≡ t
Scoped t (queue_add q n d o) = DataScoped t d
Scoped t (job_find_many u n) = u ≡ t
Scoped t (job_count u) = u ≡ t
Scoped t (job_with_events id u) = u ≡ t
Scoped t (audit_find_all u) = u ≡ t
Scoped t (audit_find_many w n) = w.tenant_id ≡ t
Scoped t (audit_count w) = w.tenant_id ≡ t
Scoped t (server_find_many u) = u ≡ t
Scoped t (server_count u) = u ≡ t
Scoped t (backup_find_many u n) = u ≡ t
Scoped t (backup_count u) = u ≡ t
Scoped t (schedule_find_many u) = u ≡ t
Scoped t (user_find_many u) = u ≡ t
Scoped t (role_find_many u) = u ≡ t
Scoped t c = Unit

abbrev pub AllScoped : String → History → Type 0
AllScoped t = All (λ e. Scoped t e.request)

module _ (env : Env) (t : String) where
  parse_body-Scoped : {A : Type 0} (body : Parsed A) → Keeps env (AllScoped t) (parse_body body)
  parse_body-Scoped (valid a) = Keeps-pure a
  parse_body-Scoped (invalid flattened) = Keeps-throw _

  parse_query-Scoped : {A : Type 0} (query : Parsed A) → Keeps env (AllScoped t) (parse_query query)
  parse_query-Scoped (valid a) = Keeps-pure a
  parse_query-Scoped (invalid flattened) = Keeps-throw _

  audit-Scoped : (entry : AuditEntry) → entry.tenant_id ≡ t → Keeps env (AllScoped t) (audit entry)
  unfolding audit append_entry audit_input
  audit-Scoped entry e = search (Keeps-asked, keeps_rules) depth 12

  encrypt_secret-Scoped : (plaintext : String) → Keeps env (AllScoped t) (encrypt_secret plaintext)
  unfolding encrypt_secret aes_encrypt wrap_dek
  encrypt_secret-Scoped plaintext = search keeps_rules depth 12

  find_server-Scoped : (id message : String) → Keeps env (AllScoped t) (find_server t id message)
  unfolding find_server
  find_server-Scoped id message = search keeps_rules

  register_schedule-Scoped : (s : ScheduleLike) → Keeps env (AllScoped t) (register_schedule s)
  unfolding register_schedule safe_remove
  register_schedule-Scoped s = search keeps_rules

  remove_schedule-Scoped : (s : ScheduleLike) → Keeps env (AllScoped t) (remove_schedule s)
  unfolding remove_schedule safe_remove
  remove_schedule-Scoped s = search keeps_rules

  connection_of-Scoped :
      (database : Option String) (server : Option DbServer) (credential : Option Credential)
      → Keeps env (AllScoped t) (connection_of database server credential)
  unfolding connection_of
  connection_of-Scoped database none credential = search keeps_rules
  connection_of-Scoped database (some server) none = search keeps_rules
  connection_of-Scoped database (some server) (some c) =
      Keeps-bind _ _ (record { at = λ h p. p }) (λ password. Keeps-pure _)

  get_adapter-Scoped :
      (id : String) (database : Option String) → Keeps env (AllScoped t) (get_adapter id t database)
  unfolding get_adapter get_connection_info
  get_adapter-Scoped id database = search (keeps_rules, connection_of-Scoped)

  if-Scoped :
      {A : Type 0} (b : Bool) (m n : Io A)
      → Keeps env (AllScoped t) m
      → Keeps env (AllScoped t) n
      → Keeps env (AllScoped t) (if b then m else n)
  if-Scoped true m n k l = k
  if-Scoped false m n k l = l

  artifact-Scoped : (uri : Option String) → Keeps env (AllScoped t) (artifact uri)
  artifact-Scoped none = Keeps-throw _
  artifact-Scoped (some uri) = search (if-Scoped, keeps_rules)

  change_password-Scoped :
      (id : String) (password : Option String)
      → Keeps env (AllScoped t) (Servers.change_password id password)
  unfolding Servers.change_password update_server_credential_password
  change_password-Scoped id none = Keeps-pure tt
  change_password-Scoped id (some password) = search (if-Scoped, encrypt_secret-Scoped, keeps_rules)

  check_role-Scoped :
      (role_id : Option String) → Keeps env (AllScoped t) (Users.check_role t role_id)
  unfolding Users.check_role Users.find_role
  check_role-Scoped none = Keeps-pure tt
  check_role-Scoped (some role_id) = search keeps_rules

  hash_new-Scoped : (password : Option String) → Keeps env (AllScoped t) (Users.hash_new password)
  unfolding Users.hash_new
  hash_new-Scoped none = Keeps-pure none
  hash_new-Scoped (some password) = search keeps_rules

ruleset scope_rules = (
  parse_query-Scoped, parse_body-Scoped, find_server-Scoped, audit-Scoped, artifact-Scoped,
  if-Scoped, encrypt_secret-Scoped, change_password-Scoped, get_adapter-Scoped,
  register_schedule-Scoped, remove_schedule-Scoped, check_role-Scoped, hash_new-Scoped, keeps_rules,
)

module _ (env : Env) (auth : AuthContext) where
  handle-Scoped : (request : Request) → Keeps env (AllScoped auth.tenant_id) (handle request auth)
  unfolding done_by Backups.run_backup Backups.get_backup Backups.download Backups.restore_backup
      Transfers.request_export Transfers.request_import Transfers.non_empty Transfers.request_clone
      Servers.create create_server Servers.get Servers.update Servers.change_password
      update_server_credential_password Servers.delete Servers.test_connection Servers.databases
      Schedules.create Schedules.find_schedule Schedules.update Schedules.delete Users.create
      Users.find_user Users.find_role Users.update Users.delete Users.delete_other Users.assign
      enqueue create_job Jobs.list Jobs.get Logs.list Logs.where_of Logs.verify Listings.servers
      Listings.backups Listings.schedules Listings.users Listings.roles verify_audit_chain
  handle-Scoped (Requests.run_backup id body) = search scope_rules depth 20
  handle-Scoped (Requests.get_backup id) = search scope_rules depth 20
  handle-Scoped (Requests.download id) = search scope_rules depth 20
  handle-Scoped (Requests.restore_backup id body) = search scope_rules depth 20
  handle-Scoped (Requests.request_export id body) = search scope_rules depth 20
  handle-Scoped (Requests.request_import body) = search scope_rules depth 20
  handle-Scoped (Requests.request_clone body) = search scope_rules depth 20
  handle-Scoped (Requests.create_server body) = search scope_rules depth 20
  handle-Scoped (Requests.get_server id) = search scope_rules depth 20
  handle-Scoped (Requests.update_server id body) = search scope_rules depth 20
  handle-Scoped (Requests.delete_server id) = search scope_rules depth 20
  handle-Scoped (Requests.test_connection id) = search scope_rules depth 20
  handle-Scoped (Requests.list_databases id) = search scope_rules depth 20
  handle-Scoped (Requests.create_schedule body) = search scope_rules depth 20
  handle-Scoped (Requests.update_schedule id body) = search scope_rules depth 20
  handle-Scoped (Requests.delete_schedule id) = search scope_rules depth 20
  handle-Scoped (Requests.create_user body) = search scope_rules depth 20
  handle-Scoped (Requests.update_user id body) = search scope_rules depth 20
  handle-Scoped (Requests.delete_user id) = search scope_rules depth 20
  handle-Scoped (Requests.assign_role id body) = search scope_rules depth 20
  handle-Scoped Requests.list_jobs = search scope_rules depth 20
  handle-Scoped (Requests.get_job id) = search scope_rules depth 20
  handle-Scoped (Requests.list_audit query) = search scope_rules depth 20
  handle-Scoped Requests.verify_audit = search scope_rules depth 20
  handle-Scoped Requests.list_servers = search scope_rules depth 20
  handle-Scoped Requests.list_backups = search scope_rules depth 20
  handle-Scoped Requests.list_schedules = search scope_rules depth 20
  handle-Scoped Requests.list_users = search scope_rules depth 20
  handle-Scoped Requests.list_roles = search scope_rules depth 20

-- A request whose guards let it pass carries a bearer token that was verified, and its user holds the
-- permission of the route. Then every call that the request makes, whether it succeeds or not, stays
-- in the tenant of that token wherever the call names a tenant, the data of a schedule's trigger apart.
pub serve-Scoped :
    (env : Env) (request : Request) (header : Option String) (auth : AuthContext) (mid : History)
    → guarded (needs request ∷ []) header env [] ≡ (ok auth, mid)
    → (token : String) × IsVouched env [] token auth mid
      × (has auth.permissions (needs request) ≡ true)
      × All (λ e. Scoped auth.tenant_id e.request) (serve request header env []).1
unfolding route ◌>>=◌
serve-Scoped env request header auth mid e =
    let (token, bears, vouched, held) =
      guarded-IsVouched env [] (needs request ∷ []) header auth mid e in
    (
      token,
      vouched,
      held.0,
      rw e ((handle-Scoped env auth request).at mid (rw vouched.trace (tt, (tt, tt)))),
    )
