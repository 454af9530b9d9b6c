-- ===== src/Sql.antt =====
-- src/db/adapters/mysql.ts and src/db/adapters/postgres.ts: the commands and the statements that the
-- adapters build. The tools, the drivers and the pools they use are other code.
pub mod Statements
pub mod Placeholders
pub mod Quoting
use db_backup_tool.Base.{
  ℕ, String, ◌<>◌, ◌==◌, show_nat, Bool, true, false, if◌then◌else◌, Option, none, some, List, [],
  ◌∷◌, ◌++◌, flat_map,
}
use db_backup_tool.Model.{SslMode, disable, require, verify_full}
use db_backup_tool.Effects.Inputs.{ConnectionInfo, DumpOptions, RestoreOptions, Command}

-- `ssl()`: none where TLS is off, and else whether an unknown certificate is refused.
unfoldable pub reject_unauthorized : SslMode → Option Bool
reject_unauthorized disable = none
reject_unauthorized require = some false
reject_unauthorized verify_full = some true

abbrev mysql_ssl : SslMode → List String
mysql_ssl disable = []
mysql_ssl _ = "--ssl-mode=REQUIRED" ∷ []

abbrev database_argument : Option String → List String
database_argument none = []
database_argument (some database) = if database == "" then [] else database ∷ []

-- `clientArgs` of MySQL.
unfoldable pub client_args : ConnectionInfo → (extra : List String) → Option String → Command
client_args conn extra database = record {
  arguments =
      ("-h" <> conn.host)
      ∷ ("-P" <> show_nat conn.port)
      ∷ ("-u" <> conn.username)
      ∷ (mysql_ssl conn.ssl_mode ++ extra ++ database_argument database);
  variables = ("MYSQL_PWD", conn.password) ∷ [];
}

abbrev flag : Bool → String → List String
flag true text = text ∷ []
flag false text = []

-- `dump` of MySQL.
unfoldable pub mysql_dump : ConnectionInfo → DumpOptions → Command
mysql_dump conn opts =
    client_args conn
      ("--single-transaction"
        ∷ "--quick"
        ∷ "--routines"
        ∷ "--triggers"
        ∷ "--events"
        ∷ "--default-character-set=utf8mb4"
        ∷ (flag opts.schema_only "--no-data" ++ opts.database ∷ opts.tables))
      none

-- `restore` of MySQL.
unfoldable pub mysql_restore : ConnectionInfo → RestoreOptions → Command
mysql_restore conn opts = client_args conn [] (some opts.database)

abbrev postgres_ssl : SslMode → String
postgres_ssl disable = "disable"
postgres_ssl require = "require"
postgres_ssl verify_full = "verify-full"

-- `clientEnv`
abbrev client_env : ConnectionInfo → List (String × String)
client_env conn = ("PGPASSWORD", conn.password) ∷ ("PGSSLMODE", postgres_ssl conn.ssl_mode) ∷ []

-- `baseArgs`
abbrev base_args : ConnectionInfo → (database : String) → List String
base_args conn database =
    "-h" ∷ conn.host ∷ "-p" ∷ show_nat conn.port ∷ "-U" ∷ conn.username ∷ "-d" ∷ database ∷ []

-- `dump` of PostgreSQL.
unfoldable pub postgres_dump : ConnectionInfo → DumpOptions → Command
postgres_dump conn opts = record {
  arguments =
      base_args conn opts.database
      ++ "--no-owner"
        ∷ "--no-privileges"
        ∷ (flag opts.schema_only "--schema-only" ++ flat_map (λ t. "-t" ∷ t ∷ []) opts.tables);
  variables = client_env conn;
}

-- `restore` of PostgreSQL.
unfoldable pub postgres_restore : ConnectionInfo → RestoreOptions → Command
postgres_restore conn opts = record {
  arguments = base_args conn opts.database ++ "-v" ∷ "ON_ERROR_STOP=1" ∷ [];
  variables = client_env conn;
}
