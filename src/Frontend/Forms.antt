-- ===== src/Frontend/Forms.antt =====
-- src/frontend/src/pages/: the forms of the web client, with the bodies that they send. Each form is
-- the state of its component; opening it sets the state that `useEffect` sets.
pub mod Bodies
use db_backup_tool.Base.{
  ℕ, String, ◌==◌, Bool, true, false, not, ◌&&◌, if◌then◌else◌, Option, none, some, List, [], ◌∷◌,
  ◌++◌,
}
use db_backup_tool.Base.Json.{Json, object, str, num, bool}

-- `database` and `format` of servers/BackupModal.tsx
pub record BackupForm : Type 0 where
  pub database : String
  pub format : String

abbrev pub backup_formats : List String
backup_formats = "sql" ∷ "custom" ∷ "dump" ∷ []

unfoldable pub open_backup : BackupForm
open_backup = record { database = ""; format = "custom" }

unfoldable pub backup_body : BackupForm → Json
backup_body form = object (("database", str form.database) ∷ ("format", str form.format) ∷ [])

-- servers/ExportModal.tsx, and `ExportForm` of ImportExportPage.tsx without its server.
pub record ExportForm : Type 0 where
  pub database : String
  pub table : String
  pub format : String

abbrev pub export_formats : List String
export_formats = "csv" ∷ "xlsx" ∷ "sql" ∷ []

unfoldable pub open_export : ExportForm
open_export = record { database = ""; table = ""; format = "csv" }

unfoldable pub export_body : ExportForm → Json
export_body form =
    object (
      ("database", str form.database)
      ∷ ("table", str form.table)
      ∷ ("format", str form.format)
      ∷ [])

abbrev pub is_filled : String → Bool
is_filled s = not (s == "")

-- Whether the button of `ExportForm` is enabled.
unfoldable pub can_export : (server_id : String) → ExportForm → Bool
can_export server_id form = is_filled server_id && is_filled form.database && is_filled form.table

-- servers/CloneModal.tsx
pub record CloneForm : Type 0 where
  pub target_server_id : String
  pub database : String
  pub target_database : String
  pub mode : String

unfoldable pub open_clone : (source : String) → CloneForm
open_clone source = record {
  target_server_id = source;
  database = "";
  target_database = "";
  mode = "full";
}

unfoldable pub clone_body : (source : String) → CloneForm → Json
clone_body source form = object (
    ("sourceServerId", str source)
    ∷ ("targetServerId", str form.target_server_id)
    ∷ ("database", str form.database)
    ∷ ("targetDatabase", str form.target_database)
    ∷ ("mode", str form.mode)
    ∷ [])

-- `ServerCreateInput`, the state of servers/ServerFormModal.tsx
pub record ServerForm : Type 0 where
  pub name : String
  pub engine : String
  pub host : String
  pub port : ℕ
  pub ssl_mode : String
  pub username : String
  pub password : String
  pub database : String

-- `Server`
pub record ServerView : Type 0 where
  pub id : String
  pub name : String
  pub engine : String
  pub host : String
  pub port : ℕ
  pub ssl_mode : String

abbrev pub ssl_modes : List String
ssl_modes = "disable" ∷ "require" ∷ "verify-ca" ∷ "verify-full" ∷ []

-- The effect that runs when the form is opened, for a server or for a new one.
unfoldable pub open_server : Option ServerView → ServerForm
open_server (some server) = record {
  name = server.name;
  engine = server.engine;
  host = server.host;
  port = server.port;
  ssl_mode = server.ssl_mode;
  username = "";
  password = "";
  database = "";
}
open_server none = record {
  name = "";
  engine = "postgres";
  host = "";
  port = 5432;
  ssl_mode = "disable";
  username = "";
  password = "";
  database = "";
}

-- `DEFAULT_PORTS`
abbrev default_port : (engine : String) → ℕ
default_port engine = if engine == "postgres" then 5432 else 3306

-- `onEngineChange`
unfoldable pub on_engine_change : (engine : String) → ServerForm → ServerForm
on_engine_change engine form = record form { engine = engine; port = default_port engine }

abbrev server_fields : ServerForm → List (String × Json)
server_fields form =
    ("name", str form.name)
    ∷ ("engine", str form.engine)
    ∷ ("host", str form.host)
    ∷ ("port", num form.port)
    ∷ ("sslMode", str form.ssl_mode)
    ∷ []

abbrev when_filled : (key value : String) → List (String × Json)
when_filled key value = if is_filled value then (key, str value) ∷ [] else []

-- The body of `create`.
unfoldable pub create_server_body : ServerForm → Json
create_server_body form = object (
    server_fields form
    ++ ("username", str form.username)
      ∷ ("password", str form.password)
      ∷ ("database", str form.database)
      ∷ [])

-- The body of `update`: `patch`.
unfoldable pub update_server_body : ServerForm → Json
update_server_body form = object (
    server_fields form
    ++ when_filled "username" form.username
    ++ when_filled "password" form.password
    ++ when_filled "database" form.database)

-- `ScheduleInput`, the state of schedules/ScheduleModal.tsx
pub record ScheduleForm : Type 0 where
  pub server_id : String
  pub database : String
  pub type : String
  pub cron : String
  pub enabled : Bool
  pub retention : ℕ

-- The effect that runs when the form is opened, for a schedule or for a new one.
unfoldable pub open_schedule : Option ScheduleForm → ScheduleForm
open_schedule (some schedule) = schedule
open_schedule none = record {
  server_id = "";
  database = "";
  type = "backup";
  cron = "0 2 * * *";
  enabled = true;
  retention = 7;
}

-- Whether the button of the form is enabled.
unfoldable pub can_save : ScheduleForm → Bool
can_save form = is_filled form.server_id && is_filled form.database && is_filled form.cron

-- The body of `create` and of `update`.
unfoldable pub schedule_body : ScheduleForm → Json
schedule_body form = object (
    ("serverId", str form.server_id)
    ∷ ("database", str form.database)
    ∷ ("type", str form.type)
    ∷ ("cron", str form.cron)
    ∷ ("enabled", bool form.enabled)
    ∷ ("retention", num form.retention)
    ∷ [])

-- users/UserModal.tsx
pub record UserForm : Type 0 where
  pub email : String
  pub name : String
  pub role_id : String

unfoldable pub open_user : UserForm
open_user = record { email = ""; name = ""; role_id = "" }

-- An `undefined` field is left out.
unfoldable pub user_body : UserForm → Json
user_body form =
    object (
      ("email", str form.email) ∷ when_filled "name" form.name ++ when_filled "roleId" form.role_id)
