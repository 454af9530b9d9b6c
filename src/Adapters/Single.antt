-- ===== src/Adapters/Single.antt =====
-- The single pool of a MySQL adapter.
use db_backup_tool.Base.{String, ◌≡◌, sym, ap, ◌∙◌, none, List, ◌∷◌}
use db_backup_tool.Errors.{ok}
use db_backup_tool.Effects.{pool_query_columns, pool_connect}
use db_backup_tool.Effects.Inputs.{ColumnInfo}
use db_backup_tool.Effects.Io.{Env, History, call, gave}
use db_backup_tool.Effects.Invert.{bind-ok, call-ok, pure-ok}
use db_backup_tool.Adapters.Mysql.{MysqlAdapter, get_pool, list_tables, read_table}

-- Once a method of a MySQL adapter has made its pool, a table of any database is read through that
-- pool: the name of the database changes neither the client nor the database it is connected to.
pub read_table_lem :
    (first second table : String) (a : MysqlAdapter) (env : Env) (h : History)
    (columns : List ColumnInfo) (client : String) (h' : History)
    → (read_table second table (list_tables first a).0).1 env h ≡ (ok (columns, client), h')
    → (mid : History) × (h' ≡ gave (pool_connect (get_pool none a).0) (ok client) ∷ mid)
unfolding read_table list_tables get_pool
read_table_lem first second table a env h columns client h' e =
    let pool = (get_pool none a).0 in
    let (found, h₁, asked, rest) = bind-ok (call (pool_query_columns pool _)) _ env h e in
    let (given, h₂, connected, last) = bind-ok (call (pool_connect pool)) _ env h₁ rest in
    let (same, over) = pure-ok last in
    (
      h₁,
      sym over
          ∙ (call-ok (pool_connect pool) env h₁ connected).1
          ∙ ap (λ c. gave (pool_connect pool) (ok c) ∷ h₁) (ap (λ p. p.1) same),
    )
