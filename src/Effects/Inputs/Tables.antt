-- ===== src/Effects/Inputs/Tables.antt =====
-- Rows to create and to change, and the event that a job publishes (src/queue/index.ts).
use db_backup_tool.Base.{ℕ, String, Bool, Option, List}
use db_backup_tool.Base.Json.{Json}
use db_backup_tool.Model.{Engine, SslMode, JobType, JobStatus, BackupFormat, BackupStatus, Channel}
use db_backup_tool.Model.{UserStatus, NotificationStatus}

-- Rows to create, and the fields that an update sets: `none` is a field that the code leaves out.
pub record JobInput : Type 0 where
  pub tenant_id : String
  pub type : JobType
  pub actor_id : Option String
  pub schedule_id : Option String
  pub params : Json
  pub status : JobStatus

pub record JobPatch : Type 0 where
  pub status : Option JobStatus
  pub progress : Option ℕ
  pub started_at : Option ℕ
  pub finished_at : Option ℕ
  pub result : Option Json
  pub error : Option String

pub record BackupInput : Type 0 where
  pub tenant_id : String
  pub server_id : String
  pub job_id : String
  pub database : String
  pub format : BackupFormat
  pub status : BackupStatus
  pub size : ℕ
  pub storage_uri : String
  pub checksum : String

pub record AuditInput : Type 0 where
  pub tenant_id : String
  pub actor_id : Option String
  pub actor_email : Option String
  pub action : String
  pub target : Option String
  pub meta : Json
  pub ip : Option String
  pub prev_hash : String
  pub hash : String

pub record NotificationInput : Type 0 where
  pub user_id : String
  pub subject : String
  pub body : String
  pub channel : Channel
  pub status : NotificationStatus

pub record UserInput : Type 0 where
  pub tenant_id : String
  pub email : String
  pub name : Option String
  pub password_hash : String
  pub role_id : Option String

pub record UserPatch : Type 0 where
  pub name : Option String
  pub status : Option UserStatus
  pub password_hash : Option String

pub record RoleInput : Type 0 where
  pub tenant_id : String
  pub name : String
  pub is_system : Bool
  pub permissions : List String

pub record ServerInput : Type 0 where
  pub name : String
  pub engine : Engine
  pub host : String
  pub port : ℕ
  pub ssl_mode : SslMode
  pub username : String
  pub database : Option String

pub record ServerPatch : Type 0 where
  pub name : Option String
  pub host : Option String
  pub port : Option ℕ
  pub ssl_mode : Option SslMode

-- `EncryptedSecret`
pub record EncryptedSecret : Type 0 where
  pub ciphertext : String
  pub auth_tag : String
  pub iv : String
  pub dek_wrapped : String
  pub key_version : String

pub record ScheduleInput : Type 0 where
  pub server_id : String
  pub database : String
  pub cron : String
  pub enabled : Bool
  pub retention : ℕ

pub record SchedulePatch : Type 0 where
  pub cron : Option String
  pub enabled : Option Bool
  pub retention : Option ℕ

-- `JobProgressEvent`
pub record JobProgressEvent : Type 0 where
  pub job_id : String
  pub status : String
  pub progress : ℕ
  pub message : Option String
  pub result : Option Json
  pub error : Option String

-- The columns of a job's event that responses give.
pub record JobEvent : Type 0 where
  pub level : String
  pub message : String
  pub progress : Option ℕ

-- The `where` of a search in the audit log: an action, and a text that the action, the target or the
-- e-mail of the actor contains.
pub record AuditWhere : Type 0 where
  pub tenant_id : String
  pub action : Option String
  pub containing : Option String
