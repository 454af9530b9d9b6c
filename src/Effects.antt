-- ===== src/Effects.antt =====
-- What the backend asks of code outside the repository: one constructor of `Call` for each call of
-- Prisma, Redis, BullMQ, object storage, the database drivers and tools, bcrypt, jsonwebtoken and
-- nodemailer, with the arguments that the code passes.
-- `Reply` is what a call gives; every call may throw instead.
pub mod Inputs
pub mod Io
pub mod Logic
pub mod Invert
pub mod Happened
use db_backup_tool.Base.{ℕ, String, Bool, Option, List}
use db_backup_tool.Base.Json.{Json}
use db_backup_tool.Errors.{Result}
use db_backup_tool.Model.{
  Tenant, User, UserStatus, Role, DbServer, Job, JobStatus, Backup, BackupStatus, Schedule,
  AuditLog, Notification, NotificationStatus,
}
use Inputs.{
  JobInput, JobPatch, BackupInput, AuditInput, NotificationInput, UserInput, UserPatch, RoleInput,
  ServerInput, ServerPatch, EncryptedSecret, ScheduleInput, SchedulePatch, JobProgressEvent,
  QueueName, QueueData, AddOptions, Adapter, DumpOptions, RestoreOptions, Rows, Settled, TableRead,
  PutResult, Streamed, AccessTokenPayload, RefreshTokenPayload, Mail, Value, ColumnInfo, Statement,
  Command, ConnectOptions, JobEvent, AuditWhere, Pool, ChildRun,
}

pub data Call : Type 0 where
  -- `new Date()`, `Date.now()` and `crypto.randomBytes(n)`
  now : Call
  random_bytes : ℕ → Call
  -- prisma.job and prisma.jobEvent
  job_create : JobInput → Call
  job_update : (id : String) → JobPatch → Call
  job_find_unique : (id : String) → Call
  job_find_first : (id tenant_id : String) → Call
  job_event_create : (job_id level message : String) → Option ℕ → Call
  -- prisma.backup
  backup_create : BackupInput → Call
  backup_find_first : (id tenant_id : String) → Call
  backup_find_available : (tenant_id server_id database : String) → Call
  backup_set_status : (id : String) → BackupStatus → Call
  -- prisma.schedule
  schedule_find_unique : (id : String) → Call
  schedule_find_first : (id tenant_id : String) → Call
  schedule_find_enabled : Call
  schedule_create : (tenant_id : String) → ScheduleInput → Call
  schedule_update : (id : String) → SchedulePatch → Call
  schedule_touch : (id : String) → (last_run_at : ℕ) → Call
  schedule_delete : (id : String) → Call
  -- prisma.auditLog
  audit_find_latest : (tenant_id : String) → Call
  audit_create : AuditInput → Call
  audit_find_all : (tenant_id : String) → Call
  -- prisma.dbServer and prisma.credential
  server_find_first : (id tenant_id : String) → Call
  server_create : (tenant_id : String) → ServerInput → EncryptedSecret → Call
  server_update : (id : String) → ServerPatch → Call
  server_delete : (id : String) → Call
  credential_update : (server_id : String) → EncryptedSecret → Call
  -- prisma.user, prisma.role, prisma.roleAssignment, prisma.permission
  user_find_by_email : (email : String) → Call
  user_find_unique : (id : String) → Call
  user_find_first : (id tenant_id : String) → Call
  user_create : UserInput → Call
  user_update : (id : String) → UserPatch → Call
  user_touch_login : (id : String) → ℕ → Call
  user_delete : (id : String) → Call
  role_find_first : (id tenant_id : String) → Call
  role_create : RoleInput → Call
  role_assign : (user_id role_id : String) → Call
  role_assignments : (user_id : String) → Call
  permission_upsert : (key description : String) → Call
  -- prisma.tenant
  tenant_create : (name slug : String) → Call
  -- prisma.notification
  notification_create : NotificationInput → Call
  notification_set_status : (id : String) → NotificationStatus → Call
  -- listings
  job_find_many : (tenant_id : String) → (take : ℕ) → Call
  job_count : (tenant_id : String) → Call
  job_with_events : (id tenant_id : String) → Call
  audit_find_many : AuditWhere → (take : ℕ) → Call
  audit_count : AuditWhere → Call
  server_find_many : (tenant_id : String) → Call
  server_count : (tenant_id : String) → Call
  backup_find_many : (tenant_id : String) → (take : ℕ) → Call
  backup_count : (tenant_id : String) → Call
  schedule_find_many : (tenant_id : String) → Call
  user_find_many : (tenant_id : String) → Call
  role_find_many : (tenant_id : String) → Call
  notification_find_many : (user_id : String) → (take : ℕ) → Call
  notification_find_first : (id user_id : String) → Call
  notification_mark_read : (id : String) → (read_at : ℕ) → Call
  -- redis.publish and BullMQ
  publish : (channel : String) → JobProgressEvent → Call
  queue_add : QueueName → (name : String) → QueueData → AddOptions → Call
  queue_remove_repeatable : QueueName → (name pattern job_id : String) → Call
  -- object storage
  storage_put : (key : String) → (chunks : List (List ℕ)) → Call
  storage_get : (key : String) → Call
  storage_delete : (key : String) → Call
  -- an adapter's operations
  adapter_test : Adapter → Call
  adapter_list_databases : Adapter → Call
  adapter_dump : Adapter → DumpOptions → Call
  adapter_restore : Adapter → (input : String) → RestoreOptions → Call
  restore_from_dump : Adapter → (dump : String) → RestoreOptions → Call
  adapter_read_table : Adapter → (database table : String) → Call
  adapter_insert_rows :
      Adapter → (database table : String) → (header : List String) → List (List Value) → Call
  adapter_close : Adapter → Call
  dump_to_storage : (key dump : String) → Call
  xlsx_chunks : (table : String) → List (List Value) → Call
  csv_records : (file : String) → Call
  xlsx_rows : (file : String) → Call
  -- mysql2 and pg: pools, clients and queries
  pool_query_names : Pool → Statement → Call
  pool_query_columns : Pool → Statement → Call
  pool_query : Pool → Statement → Call
  pool_insert : Pool → (sql : String) → List (List Value) → Call
  pool_end : Pool → Call
  client_connect : ConnectOptions → Call
  pool_connect : Pool → Call
  client_query : (client : String) → Statement → Call
  client_stream : (client sql : String) → Call
  client_release : (client : String) → Call
  client_end : (client : String) → Call
  -- child processes
  spawn : (program : String) → Command → Call
  pipe_into : (input child : String) → Call
  child_run : (child : String) → Call
  -- bcrypt, jsonwebtoken, nodemailer
  hash_password : String → Call
  verify_password : (plain hash : String) → Call
  sign_access : AccessTokenPayload → Call
  sign_refresh : RefreshTokenPayload → Call
  verify_access : (token : String) → Call
  verify_refresh : (token : String) → Call
  send_mail : Mail → Call

-- A stream, a file, a client or a child process is named by a text.
abbrev pub Reply : Call → Type 0
Reply now = ℕ
Reply (random_bytes n) = List ℕ
Reply (job_create d) = Job
Reply (job_find_unique i) = Option Job
Reply (job_find_first i t) = Option Job
Reply (backup_create d) = Backup
Reply (backup_find_first i t) = Option Backup
Reply (backup_find_available t s d) = List Backup
Reply (schedule_find_unique i) = Option Schedule
Reply (schedule_find_first i t) = Option Schedule
Reply schedule_find_enabled = List Schedule
Reply (schedule_create t d) = Schedule
Reply (schedule_update i d) = Schedule
Reply (audit_find_latest t) = Option String
Reply (audit_find_all t) = List AuditLog
Reply (server_find_first i t) = Option DbServer
Reply (server_create t d c) = DbServer
Reply (server_update i d) = DbServer
Reply (user_find_by_email e) = Option User
Reply (user_find_unique i) = Option User
Reply (user_find_first i t) = Option User
Reply (user_create d) = User
Reply (user_update i d) = User
Reply (role_find_first i t) = Option Role
Reply (role_create d) = Role
Reply (role_assignments i) = List (List String)
Reply (tenant_create n s) = Tenant
Reply (notification_create d) = Notification
Reply (job_find_many t n) = List Job
Reply (job_count t) = ℕ
Reply (job_with_events i t) = Option (Job × List JobEvent)
Reply (audit_find_many w n) = List AuditLog
Reply (audit_count w) = ℕ
Reply (server_find_many t) = List DbServer
Reply (server_count t) = ℕ
Reply (backup_find_many t n) = List Backup
Reply (backup_count t) = ℕ
Reply (schedule_find_many t) = List Schedule
Reply (user_find_many t) = List (User × List Role)
Reply (role_find_many t) = List Role
Reply (notification_find_many u n) = List Notification
Reply (notification_find_first i u) = Option Notification
Reply (notification_mark_read i at) = Notification
Reply (queue_add q n d o) = String
Reply (storage_put k c) = PutResult
Reply (storage_get k) = String
Reply (adapter_list_databases a) = List String
Reply (adapter_dump a o) = String
Reply (restore_from_dump a d o) = Settled (Unit {0})
Reply (adapter_read_table a d t) = TableRead
Reply (adapter_insert_rows a d t c r) = ℕ
Reply (dump_to_storage k d) = Streamed
Reply (xlsx_chunks t r) = List (List ℕ)
Reply (csv_records f) = Rows (List String)
Reply (xlsx_rows f) = Rows (List Value)
Reply (pool_query_names p s) = List String
Reply (pool_query_columns p s) = List ColumnInfo
Reply (pool_query p s) = Option ℕ
Reply (pool_insert p s r) = ℕ
Reply (client_connect o) = String
Reply (pool_connect p) = String
Reply (client_query c s) = Option ℕ
Reply (client_stream c s) = Rows (String → Value)
Reply (spawn p c) = String
Reply (child_run c) = ChildRun
Reply (hash_password p) = String
Reply (verify_password p h) = Bool
Reply (sign_access p) = String
Reply (sign_refresh p) = String
Reply (verify_access t) = AccessTokenPayload
Reply (verify_refresh t) = RefreshTokenPayload
Reply _ = Unit
