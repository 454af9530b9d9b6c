-- ===== src/Examples/Stores.antt =====
-- The adapters at concrete inputs.
use db_backup_tool.Base.{map, ltb, if◌then◌else◌, String, some, List, [], ◌∷◌, concat, ◌≡◌, refl}
use db_backup_tool.Errors.{ok}
use db_backup_tool.Model.{postgres, disable}
use db_backup_tool.Auth.Guards.{Distinct}
use db_backup_tool.Effects.{pool_connect, client_release}
use db_backup_tool.Effects.Inputs.{ConnectionInfo, other}
use db_backup_tool.Effects.Io.{History, gave, ◌>>=◌, try_finally, attempt, for_each}
use db_backup_tool.Examples.World.{world}
use db_backup_tool.Sql.Statements.{postgres_insert_rows, batches, batches_from, spread}
use db_backup_tool.Adapters.Tools.{Binaries, Decoder, buffered}
use db_backup_tool.Adapters.Stderr.{last, buffered_lem}
use db_backup_tool.Adapters.Postgres.{
  new_adapter, get_pool, find, insert_rows, insert_into, insert_batches, close,
}
use db_backup_tool.Adapters.Postgres
use db_backup_tool.Adapters.Pools.{
  Method, list_databases, list_tables, ensure_database, read_table, left_by, left_by_all, represent,
  opened_by, ended_pools, left_by_all_lem, close_lem,
}
use db_backup_tool.Adapters.Released.{Inserted, values_of, insert_rows_lem}

abbrev conn : ConnectionInfo
conn = record {
  engine = postgres;
  host = "db";
  port = 5432;
  username = "root";
  password = "";
  database = some "shop";
  ssl_mode = disable;
}

abbrev bin : Binaries
bin = record { mysql = "mysql"; mysqldump = "mysqldump"; psql = "psql"; pg_dump = "pg_dump" }

abbrev methods : List Method
methods =
    list_tables "shop" ∷ ensure_database "new" ∷ list_databases ∷ read_table "shop" "items" ∷ []

left_by_all_lem_example :
    (left_by_all bin methods (new_adapter conn) ≡ represent conn (opened_by [] methods))
    × Distinct (opened_by [] methods)
left_by_all_lem_example = left_by_all_lem conn bin methods

abbrev ended : History
ended = (close (left_by_all bin methods (new_adapter conn)) world []).1

closed :
    close (left_by_all bin methods (new_adapter conn)) world [] ≡ (ok (new_adapter conn), ended)
unfolding close left_by_all left_by Postgres.list_databases Postgres.list_tables
    Postgres.ensure_database Postgres.read_table get_pool find for_each ◌>>=◌
closed = refl

close_lem_example :
    (new_adapter conn ≡ new_adapter conn) × (ended ≡ ended_pools conn (opened_by [] methods) [])
close_lem_example = close_lem conn bin methods world [] (new_adapter conn) ended closed

abbrev after : History
after =
    ((insert_rows "shop" "items" ("id" ∷ []) ((other "1" ∷ []) ∷ []) (new_adapter conn)).1 world
      []).1

inserted :
    (insert_rows "shop" "items" ("id" ∷ []) ((other "1" ∷ []) ∷ []) (new_adapter conn)).1 world []
    ≡ (ok 2, after)
unfolding insert_rows insert_into insert_batches get_pool find try_finally attempt ◌>>=◌
    postgres_insert_rows batches batches_from
inserted = refl

insert_rows_lem_example :
    (client : String) × (mid : History) × Inserted client
      (postgres_insert_rows "items" ("id" ∷ []) ((other "1" ∷ []) ∷ []))
      2
      (gave (pool_connect (get_pool (some "shop") (new_adapter conn)).0) (ok client) ∷ [])
      mid
    × (after ≡ gave (client_release client) (ok tt) ∷ mid)
    × (values_of (postgres_insert_rows "items" ("id" ∷ []) ((other "1" ∷ []) ∷ []))
        ≡ map spread (concat ((other "1" ∷ []) ∷ [])))
insert_rows_lem_example =
    insert_rows_lem "shop" "items" ("id" ∷ []) (other "1" ∷ []) [] (new_adapter conn) world [] 2
      after inserted

-- Bytes below 128 stand for themselves; others are U+FFFD.
abbrev ascii : Decoder
ascii = map (λ b. if ltb b 128 then b else 65533)

buffered_lem_example :
    buffered ascii [] ((69 ∷ 195 ∷ []) ∷ (169 ∷ []) ∷ [])
    ≡ last 8192 (concat (map ascii ((69 ∷ 195 ∷ []) ∷ (169 ∷ []) ∷ [])))
buffered_lem_example = buffered_lem ascii ((69 ∷ 195 ∷ []) ∷ (169 ∷ []) ∷ [])
