-- ===== src/Frontend/Requests.antt =====
-- src/frontend/src/hooks/: the queries and the mutations of the web client, each with the request that
-- it sends and the keys of the cache that it uses.
pub mod Served
use db_backup_tool.Base.{
  String, ◌<>◌, ◌==◌, Bool, true, false, not, ◌&&◌, Option, none, some, ◌otherwise◌, List, [], ◌∷◌,
}
use db_backup_tool.Base.Json.{Json, Fields}
use db_backup_tool.Routes.Schemas.{value_of}
use db_backup_tool.Routes.Table.{Verb, get, post, patch, delete}

-- A query has its key and says whether it runs; a mutation says which keys it invalidates.
pub data Hook : Type 0 where
  query : (key : List String) → (enabled : Bool) → (path : List String) → Hook
  mutation : Verb → (path : List String) → (invalidates : List (List String)) → Hook

-- `qk` of queryKeys.ts, where a key depends on nothing or on an identifier.
abbrev key : (name : String) → List String
key name = name ∷ []

abbrev key_at : (name id : String) → List String
key_at name id = name ∷ id ∷ []

-- `!!id` of an identifier that may be missing.
abbrev given : Option String → Bool
given none = false
given (some id) = not (id == "")

-- useServers.ts
pub data ServerHook : Type 0 where
  use_servers : ServerHook
  use_server : (id : Option String) → ServerHook
  use_server_databases : (id : Option String) → (enabled : Bool) → ServerHook
  use_create_server : ServerHook
  use_update_server : (id : String) → ServerHook
  use_delete_server : (id : String) → ServerHook
  use_test_connection : (id : String) → ServerHook
  use_run_backup : (server_id : String) → ServerHook
  use_export : (server_id : String) → ServerHook
  use_clone : ServerHook

unfoldable pub server_hook : ServerHook → Hook
server_hook use_servers = query (key "servers") true ("servers" ∷ [])
server_hook (use_server id) =
    let i = id otherwise "" in query (key_at "servers" i) (given id) ("servers" ∷ i ∷ [])
server_hook (use_server_databases id enabled) =
    let i = id otherwise "" in
    query ("servers" ∷ i ∷ "databases" ∷ []) (given id && enabled)
      ("servers" ∷ i ∷ "databases" ∷ [])
server_hook use_create_server = mutation post ("servers" ∷ []) (key "servers" ∷ [])
server_hook (use_update_server id) =
    mutation patch ("servers" ∷ id ∷ []) (key "servers" ∷ key_at "servers" id ∷ [])
server_hook (use_delete_server id) = mutation delete ("servers" ∷ id ∷ []) (key "servers" ∷ [])
server_hook (use_test_connection id) = mutation post ("servers" ∷ id ∷ "test" ∷ []) []
server_hook (use_run_backup id) =
    mutation post ("servers" ∷ id ∷ "backups" ∷ []) (key "backups" ∷ key "jobs" ∷ [])
server_hook (use_export id) = mutation post ("servers" ∷ id ∷ "export" ∷ []) (key "jobs" ∷ [])
server_hook use_clone = mutation post ("clone" ∷ []) (key "jobs" ∷ [])

-- What `useServerDatabases` gives of the body of its answer.
unfoldable pub databases_of : (body : Fields) → Option Json
databases_of body = value_of "databases" body

-- useBackups.ts
pub data BackupHook : Type 0 where
  use_backups : BackupHook
  use_backup : (id : Option String) → BackupHook
  use_restore : (backup_id : String) → BackupHook

unfoldable pub backup_hook : BackupHook → Hook
backup_hook use_backups = query (key "backups") true ("backups" ∷ [])
backup_hook (use_backup id) =
    let i = id otherwise "" in query (key_at "backups" i) (given id) ("backups" ∷ i ∷ [])
backup_hook (use_restore id) = mutation post ("backups" ∷ id ∷ "restore" ∷ []) (key "jobs" ∷ [])

-- useImport.ts
unfoldable pub import_hook : Hook
import_hook = mutation post ("imports" ∷ []) (key "jobs" ∷ [])

-- `useJobs` and `useJob` of useJobs.ts
pub data JobHook : Type 0 where
  use_jobs : JobHook
  use_job : (id : Option String) → JobHook

unfoldable pub job_hook : JobHook → Hook
job_hook use_jobs = query (key "jobs") true ("jobs" ∷ [])
job_hook (use_job id) =
    let i = id otherwise "" in query (key_at "jobs" i) (given id) ("jobs" ∷ i ∷ [])

-- useSchedules.ts
pub data ScheduleHook : Type 0 where
  use_schedules use_create_schedule : ScheduleHook
  use_update_schedule use_delete_schedule : (id : String) → ScheduleHook

unfoldable pub schedule_hook : ScheduleHook → Hook
schedule_hook use_schedules = query (key "schedules") true ("schedules" ∷ [])
schedule_hook use_create_schedule = mutation post ("schedules" ∷ []) (key "schedules" ∷ [])
schedule_hook (use_update_schedule id) =
    mutation patch ("schedules" ∷ id ∷ []) (key "schedules" ∷ [])
schedule_hook (use_delete_schedule id) =
    mutation delete ("schedules" ∷ id ∷ []) (key "schedules" ∷ [])

-- useUsers.ts
pub data UserHook : Type 0 where
  use_users use_roles use_create_user : UserHook
  use_update_user use_delete_user use_assign_role : (id : String) → UserHook

unfoldable pub user_hook : UserHook → Hook
user_hook use_users = query (key "users") true ("users" ∷ [])
user_hook use_roles = query (key "roles") true ("roles" ∷ [])
user_hook use_create_user = mutation post ("users" ∷ []) (key "users" ∷ [])
user_hook (use_update_user id) = mutation patch ("users" ∷ id ∷ []) (key "users" ∷ [])
user_hook (use_delete_user id) = mutation delete ("users" ∷ id ∷ []) (key "users" ∷ [])
user_hook (use_assign_role id) = mutation post ("users" ∷ id ∷ "roles" ∷ []) (key "users" ∷ [])

-- `useAudit` of useAudit.ts, for the text of its parameters, and `useNotifications` of
-- useNotifications.ts, which runs where there is a token.
unfoldable pub audit_hook : (params : String) → Hook
audit_hook params = query (key_at "audit" params) true ("audit" ∷ [])

unfoldable pub notification_hook : (token : Option String) → Hook
notification_hook token = query (key "notifications") (given token) ("notifications" ∷ [])

-- `useMe` of useAuth.ts
unfoldable pub me_hook : (token : Option String) → Hook
me_hook token = query (key "me") (given token) ("me" ∷ [])

-- Every hook that sends a request behind a session.
pub data Use : Type 0 where
  server_use : ServerHook → Use
  backup_use : BackupHook → Use
  import_use : Use
  job_use : JobHook → Use
  schedule_use : ScheduleHook → Use
  user_use : UserHook → Use
  audit_use : (params : String) → Use
  notification_use me_use : (token : Option String) → Use

abbrev pub hook_of : Use → Hook
hook_of (server_use h) = server_hook h
hook_of (backup_use h) = backup_hook h
hook_of import_use = import_hook
hook_of (job_use h) = job_hook h
hook_of (schedule_use h) = schedule_hook h
hook_of (user_use h) = user_hook h
hook_of (audit_use params) = audit_hook params
hook_of (notification_use token) = notification_hook token
hook_of (me_use token) = me_hook token

abbrev pub verb_of : Hook → Verb
verb_of (query k enabled path) = get
verb_of (mutation verb path keys) = verb

abbrev pub path_of : Hook → List String
path_of (query k enabled path) = path
path_of (mutation verb path keys) = path

abbrev pub invalidated : Hook → List (List String)
invalidated (query k enabled path) = []
invalidated (mutation verb path keys) = keys
