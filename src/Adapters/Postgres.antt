-- ===== src/Adapters/Postgres.antt =====
-- src/db/adapters/postgres.ts: the adapter of PostgreSQL.
use db_backup_tool.Base.{
  ℕ, ◌+◌, eqb, String, ◌==◌, false, Bool, if◌then◌else◌, Option, none, some, ◌otherwise◌, or_else,
  List, [], ◌∷◌, ◌++◌,
}
use db_backup_tool.Effects.{
  pool_query_names, pool_query_columns, pool_query, pool_end, pool_connect, client_query,
  client_stream, client_release, spawn, pipe_into,
}
use db_backup_tool.Effects.Inputs.{
  ConnectionInfo, Pool, postgres_pool, DumpOptions, RestoreOptions, ColumnInfo, Value, other,
  Statement,
}
use db_backup_tool.Effects.Io.{Io, call, pure, ◌>>=◌, ◌>>◌, try_finally, for_each, when}
use db_backup_tool.Sql.{postgres_dump, postgres_restore}
use db_backup_tool.Sql.Statements.{postgres_create_database, postgres_select, postgres_insert_rows}
use db_backup_tool.Adapters.{connect_options, query, probe}
use db_backup_tool.Adapters.Tools.{Binaries, done_of, Dump}
use db_backup_tool.Worker.Exports.{ended}

-- `new Map<string, Pool>()`, its entries in the order of insertion.
pub record PostgresAdapter : Type 0 where
  pub conn : ConnectionInfo
  pub pools : List (String × Pool)

abbrev pub new_adapter : ConnectionInfo → PostgresAdapter
new_adapter conn = record { conn = conn; pools = [] }

-- `pools.get(db)`
unfoldable pub find : List (String × Pool) → (db : String) → Option Pool
find [] db = none
find (entry ∷ entries) db =
    let rest = find entries db in if entry.0 == db then some entry.1 else rest

-- The database that `getPool` is asked for.
abbrev pub resolved : ConnectionInfo → Option String → String
resolved conn database = or_else database conn.database otherwise "postgres"

-- `new Pool({ ... })`
unfoldable pub create_pool : ConnectionInfo → (db : String) → Pool
create_pool conn db = postgres_pool (connect_options conn (some db)) 5

abbrev pooled : (db : String) → PostgresAdapter → Option Pool → Pool × PostgresAdapter
pooled db a (some pool) = (pool, a)
pooled db a none =
    let pool = create_pool a.conn db in (pool, record a { pools = a.pools ++ (db, pool) ∷ [] })

-- `getPool`
unfoldable pub get_pool : (database : Option String) → PostgresAdapter → Pool × PostgresAdapter
get_pool database a = let db = resolved a.conn database in pooled db a (find a.pools db)

-- `testConnection`
unfoldable pub test_connection : PostgresAdapter → Io (Unit {0})
test_connection a = probe (connect_options a.conn (some (a.conn.database otherwise "postgres")))

-- `listDatabases`
unfoldable pub list_databases : PostgresAdapter → PostgresAdapter × Io (List String)
list_databases a =
    let (pool, next) = get_pool (some "postgres") a in
    (
      next,
      call (
          pool_query_names pool (
            query
              "SELECT datname FROM pg_database WHERE datistemplate = false AND datname NOT IN ($1) ORDER BY datname"
              (other "postgres" ∷ []))),
    )

-- `listTables`
unfoldable pub list_tables :
    (database : String) → PostgresAdapter → PostgresAdapter × Io (List String)
list_tables database a =
    let (pool, next) = get_pool (some database) a in
    (
      next,
      call (
          pool_query_names pool (
            query
              "SELECT tablename FROM pg_tables WHERE schemaname NOT IN ('pg_catalog','information_schema') ORDER BY tablename"
              [])),
    )

-- `dump`
unfoldable pub dump : Binaries → DumpOptions → PostgresAdapter → Io Dump
dump bin opts a = do
  child ← call (spawn bin.pg_dump (postgres_dump a.conn opts))
  pure (record { stream = child; done = done_of "pg_dump" child })

-- `rowCount === 0`, where the driver may give no count.
abbrev no_rows : Option ℕ → Bool
no_rows none = false
no_rows (some count) = eqb count 0

-- `ensureDatabase`
unfoldable pub ensure_database :
    (database : String) → PostgresAdapter → PostgresAdapter × Io (Unit {0})
ensure_database database a =
    let (pool, next) = get_pool (some "postgres") a in
    (
      next,
      do
        count ← call (
            pool_query pool
              (query "SELECT 1 FROM pg_database WHERE datname = $1" (other database ∷ [])))
        when (no_rows count) (
            call (pool_query pool (query (postgres_create_database database) [])) >>= λ made.
            pure tt),
    )

-- `restore`
unfoldable pub restore :
    Binaries → (input : String) → RestoreOptions → PostgresAdapter → PostgresAdapter × Io (Unit {0})
restore bin input opts a =
    let (next, ensured) = ensure_database opts.database a in
    (
      if opts.create_database then next else a,
      do
        when opts.create_database ensured
        child ← call (spawn bin.psql (postgres_restore a.conn opts))
        call (pipe_into input child)
        done_of "psql" child,
    )

-- `readTable`: the columns, and the client that the generator reads from.
unfoldable pub read_table :
    (database table : String) → PostgresAdapter → PostgresAdapter × Io (List ColumnInfo × String)
read_table database table a =
    let (pool, next) = get_pool (some database) a in
    (
      next,
      do
        columns ← call (
            pool_query_columns pool (
              query
                "SELECT column_name AS name, data_type AS type FROM information_schema.columns WHERE table_name = $1 ORDER BY ordinal_position"
                (other table ∷ [])))
        client ← call (pool_connect pool)
        pure (columns, client),
    )

-- The generator of `readTable`, run by a `for await` with the body `visit`.
unfoldable pub gen :
    (client table : String) → (visit : (String → Value) → Io (Unit {0})) → Io (Unit {0})
gen client table visit =
    try_finally
      (do
        rows ← call (client_stream client (postgres_select table))
        for_each rows.items visit
        ended rows.failure)
      (call (client_release client))

-- The loop of `insertRows`, over the statements of its batches.
unfoldable pub insert_batches : (client : String) → List Statement → (inserted : ℕ) → Io ℕ
insert_batches client [] inserted = pure inserted
insert_batches client (s ∷ ss) inserted = call (client_query client s) >>= λ count.
    insert_batches client ss (inserted + (count otherwise 0))

unfoldable pub insert_into : Pool → List Statement → Io ℕ
insert_into pool statements = do
  client ← call (pool_connect pool)
  try_finally (insert_batches client statements 0) (call (client_release client))

-- `insertRows`
unfoldable pub insert_rows :
    (database table : String)
    → (columns : List String) → List (List Value)
    → PostgresAdapter
    → PostgresAdapter × Io ℕ
insert_rows database table columns [] a = (a, pure 0)
insert_rows database table columns (row ∷ rows) a =
    let (pool, next) = get_pool (some database) a in
    (next, insert_into pool (postgres_insert_rows table columns (row ∷ rows)))

-- `close`: the adapter that it leaves where it returns.
unfoldable pub close : PostgresAdapter → Io PostgresAdapter
close a =
    for_each a.pools (λ entry. call (pool_end entry.1)) >>= λ u. pure (record a { pools = [] })
