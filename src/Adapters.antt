-- ===== src/Adapters.antt =====
-- src/db/adapters/mysql.ts and src/db/adapters/postgres.ts: what both adapters hand to their drivers
-- and tools. The state of an adapter is its record of pools; a method gives the adapter that it
-- leaves, and what it does. A pool is made without a call, so the adapter it leaves is known before.
pub mod Tools
pub mod Mysql
pub mod Postgres
pub mod Pools
pub mod Single
pub mod Released
pub mod Stderr
use db_backup_tool.Base.{String, Option, none, List, [], ◌∷◌}
use db_backup_tool.Effects.{client_query, client_end, client_connect}
use db_backup_tool.Effects.Inputs.{ConnectionInfo, ConnectOptions, Statement, Value}
use db_backup_tool.Effects.Io.{Io, call, pure, ◌>>=◌, try_finally}
use db_backup_tool.Sql.{reject_unauthorized}

abbrev pub connect_options : ConnectionInfo → (database : Option String) → ConnectOptions
connect_options conn database = record {
  host = conn.host;
  port = conn.port;
  user = conn.username;
  password = conn.password;
  database = database;
  ssl = reject_unauthorized conn.ssl_mode;
}

abbrev pub query : (sql : String) → List Value → Statement
query sql values = record { sql = sql; values = values }

-- The body of `testConnection`, behind the connection.
unfoldable pub probe : ConnectOptions → Io (Unit {0})
probe options = do
  client ← call (client_connect options)
  try_finally (call (client_query client (query "SELECT 1" [])) >>= λ n. pure tt)
      (call (client_end client))
