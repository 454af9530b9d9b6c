-- ===== src/Effects/Inputs/Work.antt =====
-- What the queues carry (src/queue/types.ts), and the arguments and the replies of adapters, storage,
-- tokens and mail (src/db/adapters/types.ts, src/auth/jwt.ts).
use db_backup_tool.Base.{ℕ, String, Bool, Option, List, if◌then◌else◌}
use db_backup_tool.Errors.{Err, Result, ok, err}
use db_backup_tool.Model.{Engine, SslMode, BackupFormat}

-- `QUEUE_NAMES` and the data that each queue carries.
pub data QueueName : Type 0 where
  backup restore «export» «import» clone notify schedule : QueueName

abbrev pub queue_text : QueueName → String
queue_text backup = "backup"
queue_text restore = "restore"
queue_text «export» = "export"
queue_text «import» = "import"
queue_text clone = "clone"
queue_text notify = "notify"
queue_text schedule = "schedule"

-- `format` is `sql` in every job, and not read.
pub record BackupJobData : Type 0 where
  pub job_id : String
  pub tenant_id : String
  pub server_id : String
  pub database : String

pub record RestoreJobData : Type 0 where
  pub job_id : String
  pub tenant_id : String
  pub backup_id : String
  pub target_server_id : String
  pub target_database : String
  pub create_database : Bool

pub record ExportJobData : Type 0 where
  pub job_id : String
  pub tenant_id : String
  pub server_id : String
  pub database : String
  pub table : String
  pub format : BackupFormat

-- `format` is `csv` or `xlsx`; `options` is carried and never read.
pub record ImportJobData : Type 0 where
  pub job_id : String
  pub tenant_id : String
  pub server_id : String
  pub database : String
  pub table : String
  pub format : BackupFormat
  pub file_key : String

pub data CloneMode : Type 0 where
  schema full : CloneMode

pub record CloneJobData : Type 0 where
  pub job_id : String
  pub tenant_id : String
  pub source_server_id : String
  pub target_server_id : String
  pub database : String
  pub target_database : String
  pub mode : CloneMode

pub record TriggerData : Type 0 where
  pub schedule_id : String
  pub tenant_id : String

pub data QueueData : Type 0 where
  backup_data : BackupJobData → QueueData
  restore_data : RestoreJobData → QueueData
  export_data : ExportJobData → QueueData
  import_data : ImportJobData → QueueData
  clone_data : CloneJobData → QueueData
  trigger_data : TriggerData → QueueData

pub record AddOptions : Type 0 where
  pub job_id : Option String
  pub delay : Option ℕ
  pub repeat_pattern : Option String

-- `ConnectionInfo`
pub record ConnectionInfo : Type 0 where
  pub engine : Engine
  pub host : String
  pub port : ℕ
  pub username : String
  pub password : String
  pub database : Option String
  pub ssl_mode : SslMode

-- An adapter is the class that `createAdapter` picks, and the connection that it was built with.
pub data Adapter : Type 0 where
  mysql_adapter : ConnectionInfo → Adapter
  postgres_adapter : ConnectionInfo → Adapter

pub record DumpOptions : Type 0 where
  pub database : String
  pub schema_only : Bool
  pub tables : List String

pub record RestoreOptions : Type 0 where
  pub database : String
  pub create_database : Bool

pub record ColumnInfo : Type 0 where
  pub name : String
  pub type : String

-- A value of a row: missing, the hole of a sparse array, a date with what `toISOString` and `String`
-- give for it, or another value with what `String` gives.
pub data Value : Type 0 where
  null undefined hole : Value
  date : (iso text : String) → Value
  other : (text : String) → Value

-- The rows that an iterator yields, and the error by which it ends, if it throws.
pub record Rows (A : Type 0) : Type 0 where
  pub items : List A
  pub failure : Option Err

-- The columns of a table, and its rows: each gives the value under a column's name.
pub record TableRead : Type 0 where
  pub columns : List ColumnInfo
  pub rows : Rows (String → Value)

pub record PutResult : Type 0 where
  pub uri : String
  pub size : ℕ

-- How two promises that run at the same time settle: what each gives, and which is first.
pub record Settled (A : Type 0) : Type 0 where
  pub first : Result A
  pub second : Result (Unit {0})
  pub first_settles : Bool

-- `Promise.all([first, second])`, its first component.
abbrev both : {A : Type 0} → Result A → Result (Unit {0}) → Bool → Result A
both (ok a) (ok u) first = ok a
both (ok a) (err e) first = err e
both (err d) (ok u) first = err d
both (err d) (err e) first = if first then err d else err e

abbrev pub promise_all : {A : Type 0} → Settled A → Result A
promise_all s = both s.first s.second s.first_settles

-- The chunks that went through a pipe into object storage, with the write and the process that fed
-- it.
pub record Streamed : Type 0 where
  pub chunks : List (List ℕ)
  pub settled : Settled PutResult

pub record AccessTokenPayload : Type 0 where
  pub sub : String
  pub tid : String
  pub email : String

pub record RefreshTokenPayload : Type 0 where
  pub sub : String
  pub tid : String
  pub v : ℕ

pub record Mail : Type 0 where
  pub to : String
  pub subject : String
  pub text : String
