-- ===== src/Adapters/Mysql.antt =====
-- src/db/adapters/mysql.ts: the adapter of MySQL and MariaDB.
use db_backup_tool.Base.{
  ℕ, String, false, true, not, if◌then◌else◌, Option, none, some, ◌otherwise◌, or_else, List, [],
  ◌∷◌, keep,
}
use db_backup_tool.Auth.{has}
use db_backup_tool.Effects.{
  pool_query_names, pool_query_columns, pool_query, pool_insert, pool_end, pool_connect,
  client_stream, client_release, spawn, pipe_into,
}
use db_backup_tool.Effects.Inputs.{
  ConnectionInfo, Pool, mysql_pool, DumpOptions, RestoreOptions, ColumnInfo, Value, other,
}
use db_backup_tool.Effects.Io.{Io, call, pure, ◌>>=◌, ◌>>◌, try_finally, for_each, when}
use db_backup_tool.Sql.{mysql_dump, mysql_restore}
use db_backup_tool.Sql.Statements.{mysql_create_database, mysql_select, mysql_insert}
use db_backup_tool.Adapters.{connect_options, query, probe}
use db_backup_tool.Adapters.Tools.{Binaries, done_of, Dump}
use db_backup_tool.Worker.Exports.{ended}

pub record MysqlAdapter : Type 0 where
  pub conn : ConnectionInfo
  pub pool : Option Pool

abbrev pub new_adapter : ConnectionInfo → MysqlAdapter
new_adapter conn = record { conn = conn; pool = none }

-- `mysql.createPool` for a database, or for that of the connection.
unfoldable pub create_pool : ConnectionInfo → (database : Option String) → Pool
create_pool conn database =
    mysql_pool (connect_options conn (or_else database conn.database)) 5 true false

-- `getPool`
unfoldable pub get_pool : (database : Option String) → MysqlAdapter → Pool × MysqlAdapter
get_pool database a =
    let pool = a.pool otherwise create_pool a.conn database in (pool, record a { pool = some pool })

-- `testConnection`
unfoldable pub test_connection : MysqlAdapter → Io (Unit {0})
test_connection a = probe (connect_options a.conn none)

abbrev system : List String
system = "information_schema" ∷ "mysql" ∷ "performance_schema" ∷ "sys" ∷ []

-- `listDatabases`
unfoldable pub list_databases : MysqlAdapter → MysqlAdapter × Io (List String)
list_databases a =
    let (pool, next) = get_pool none a in
    (
      next,
      call (pool_query_names pool (query "SHOW DATABASES" [])) >>= λ names.
          pure (keep (λ d. not (has system d)) names),
    )

-- `listTables`
unfoldable pub list_tables : (database : String) → MysqlAdapter → MysqlAdapter × Io (List String)
list_tables database a =
    let (pool, next) = get_pool none a in
    (
      next,
      call (
          pool_query_names pool (
            query
              "SELECT table_name AS name FROM information_schema.tables WHERE table_schema = ? AND table_type = ?"
              (other database ∷ other "BASE TABLE" ∷ []))),
    )

-- `dump`
unfoldable pub dump : Binaries → DumpOptions → MysqlAdapter → Io Dump
dump bin opts a = do
  child ← call (spawn bin.mysqldump (mysql_dump a.conn opts))
  pure (record { stream = child; done = done_of "mysqldump" child })

-- `ensureDatabase`
unfoldable pub ensure_database : (database : String) → MysqlAdapter → MysqlAdapter × Io (Unit {0})
ensure_database database a =
    let (pool, next) = get_pool none a in
    (next, call (pool_query pool (query (mysql_create_database database) [])) >>= λ count. pure tt)

-- `restore`
unfoldable pub restore :
    Binaries → (input : String) → RestoreOptions → MysqlAdapter → MysqlAdapter × Io (Unit {0})
restore bin input opts a =
    let (next, ensured) = ensure_database opts.database a in
    (
      if opts.create_database then next else a,
      do
        when opts.create_database ensured
        child ← call (spawn bin.mysql (mysql_restore a.conn opts))
        call (pipe_into input child)
        done_of "mysql" child,
    )

-- `readTable`: the columns, and the client that the generator reads from.
unfoldable pub read_table :
    (database table : String) → MysqlAdapter → MysqlAdapter × Io (List ColumnInfo × String)
read_table database table a =
    let (pool, next) = get_pool (some database) a in
    (
      next,
      do
        columns ← call (
            pool_query_columns pool (
              query
                "SELECT column_name AS name, data_type AS type FROM information_schema.columns WHERE table_schema = ? AND table_name = ? ORDER BY ordinal_position"
                (other database ∷ other table ∷ [])))
        client ← call (pool_connect pool)
        pure (columns, client),
    )

-- The generator of `readTable`, run by a `for await` with the body `visit`.
unfoldable pub gen :
    (client table : String) → (visit : (String → Value) → Io (Unit {0})) → Io (Unit {0})
gen client table visit =
    try_finally
      (do
        rows ← call (client_stream client (mysql_select table))
        for_each rows.items visit
        ended rows.failure)
      (call (client_release client))

-- `insertRows`
unfoldable pub insert_rows :
    (database table : String)
    → (columns : List String) → List (List Value)
    → MysqlAdapter
    → MysqlAdapter × Io ℕ
insert_rows database table columns [] a = (a, pure 0)
insert_rows database table columns (row ∷ rows) a =
    let (pool, next) = get_pool (some database) a in
    (next, call (pool_insert pool (mysql_insert table columns) (row ∷ rows)))

-- `close`: the adapter that it leaves where it returns.
unfoldable pub close : MysqlAdapter → Io MysqlAdapter
close a =
    let closed = record a { pool = none } in
    elim a.pool [ none ↦ pure closed | some pool ↦ call (pool_end pool) >>= λ u. pure closed ]
