-- ===== src/Model.antt =====
-- prisma/schema.prisma: the rows of the metadata database, as far as the code reads them.
-- Times are milliseconds since the epoch; identifiers are texts.
use db_backup_tool.Base.{ℕ, String, Bool, Option, List}
use db_backup_tool.Base.Json.{Json}

pub data UserStatus : Type 0 where
  active invited disabled : UserStatus

pub data Engine : Type 0 where
  mysql mariadb postgres : Engine

pub data SslMode : Type 0 where
  disable require verify_full : SslMode

pub data JobType : Type 0 where
  backup restore «export» «import» clone : JobType

pub data JobStatus : Type 0 where
  queued running done failed cancelled : JobStatus

pub data BackupFormat : Type 0 where
  sql csv xlsx : BackupFormat

pub data BackupStatus : Type 0 where
  pending available failed deleted : BackupStatus

pub data Channel : Type 0 where
  email webhook inapp : Channel

pub data NotificationStatus : Type 0 where
  pending sent failed : NotificationStatus

pub record Tenant : Type 0 where
  pub id : String
  pub name : String
  pub slug : String

pub record User : Type 0 where
  pub id : String
  pub tenant_id : String
  pub email : String
  pub name : Option String
  pub password_hash : String
  pub status : UserStatus

pub record Role : Type 0 where
  pub id : String
  pub tenant_id : String
  pub name : String
  pub is_system : Bool
  pub permissions : List String

pub record Credential : Type 0 where
  pub username : String
  pub ciphertext : String
  pub auth_tag : String
  pub iv : String
  pub dek_wrapped : String
  pub key_version : String
  pub database : Option String

pub record DbServer : Type 0 where
  pub id : String
  pub tenant_id : String
  pub name : String
  pub engine : Engine
  pub host : String
  pub port : ℕ
  pub ssl_mode : SslMode
  pub credential : Option Credential

pub record Job : Type 0 where
  pub id : String
  pub tenant_id : String
  pub type : JobType
  pub status : JobStatus
  pub progress : ℕ
  pub params : Json
  pub result : Option Json
  pub error : Option String
  pub actor_id : Option String
  pub schedule_id : Option String
  pub started_at : Option ℕ
  pub finished_at : Option ℕ

pub record Backup : Type 0 where
  pub id : String
  pub tenant_id : String
  pub server_id : String
  pub job_id : Option String
  pub database : String
  pub format : BackupFormat
  pub status : BackupStatus
  pub size : ℕ
  pub storage_uri : Option String
  pub checksum : Option String

pub record Schedule : Type 0 where
  pub id : String
  pub tenant_id : String
  pub server_id : String
  pub database : String
  pub cron : String
  pub enabled : Bool
  pub retention : ℕ

pub record AuditLog : Type 0 where
  pub id : String
  pub tenant_id : String
  pub actor_id : Option String
  pub actor_email : Option String
  pub action : String
  pub target : Option String
  pub meta : Json
  pub ip : Option String
  pub prev_hash : Option String
  pub hash : String
  pub created_at : ℕ

pub record Notification : Type 0 where
  pub id : String
  pub user_id : String
  pub channel : Channel
  pub subject : String
  pub body : String
  pub status : NotificationStatus
