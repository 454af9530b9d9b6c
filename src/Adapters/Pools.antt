-- ===== src/Adapters/Pools.antt =====
-- The pools of the adapters: PostgreSQL keeps one for each database, MySQL a single one.
use db_backup_tool.Base.{
  String, ◌==◌, eq_iff, ◌≡◌, refl, sym, ap, ◌∙◌, if◌then◌else◌, Option, none, some, List, [], ◌∷◌,
  ◌++◌, map, Bool-cases, inl, inr, arith,
}
use db_backup_tool.Errors.{ok}
use db_backup_tool.Auth.{has, add}
use db_backup_tool.Auth.Guards.{Distinct, Distinct-add}
use db_backup_tool.Effects.{pool_end}
use db_backup_tool.Effects.Inputs.{ConnectionInfo, RestoreOptions, Value}
use db_backup_tool.Effects.Io.{Env, History, call, gave, for_each, pure}
use db_backup_tool.Effects.Invert.{bind-ok, call-ok, pure-ok}
use db_backup_tool.Adapters.Postgres.{
  PostgresAdapter, new_adapter, find, resolved, create_pool, get_pool, close,
}
use db_backup_tool.Adapters.Postgres
use db_backup_tool.Adapters.Tools.{Binaries}

-- The methods of an adapter that may ask for a pool.
pub data Method : Type 0 where
  list_databases : Method
  list_tables : (database : String) → Method
  ensure_database : (database : String) → Method
  restore : (input : String) → RestoreOptions → Method
  read_table : (database table : String) → Method
  insert_rows : (database table : String) → List String → List (List Value) → Method

module _ (bin : Binaries) where
  -- The adapter that a method leaves.
  unfoldable pub left_by : Method → PostgresAdapter → PostgresAdapter
  left_by list_databases a = (Postgres.list_databases a).0
  left_by (list_tables db) a = (Postgres.list_tables db a).0
  left_by (ensure_database db) a = (Postgres.ensure_database db a).0
  left_by (restore input opts) a = (Postgres.restore bin input opts a).0
  left_by (read_table db table) a = (Postgres.read_table db table a).0
  left_by (insert_rows db table columns rows) a = (Postgres.insert_rows db table columns rows a).0

  unfoldable pub left_by_all : List Method → PostgresAdapter → PostgresAdapter
  left_by_all [] a = a
  left_by_all (m ∷ ms) a = left_by_all ms (left_by m a)

-- The abstract view of an adapter is the set of the databases that it has a pool for.
abbrev pub represent : ConnectionInfo → List String → PostgresAdapter
represent conn opened = record { conn = conn; pools = map (λ db. (db, create_pool conn db)) opened }

-- The database that a method opens a pool for, if any: a restoration and the creation of a database
-- go through the database postgres, and an insertion of no rows through none.
abbrev pub opens : Method → Option String
opens list_databases = some "postgres"
opens (list_tables db) = some db
opens (ensure_database db) = some "postgres"
opens (restore input opts) = if opts.create_database then some "postgres" else none
opens (read_table db table) = some db
opens (insert_rows db table columns []) = none
opens (insert_rows db table columns (row ∷ rows)) = some db

abbrev pub with_one : List String → Option String → List String
with_one opened none = opened
with_one opened (some db) = add opened db

abbrev pub opened_by : List String → List Method → List String
opened_by opened [] = opened
opened_by opened (m ∷ ms) = opened_by (with_one opened (opens m)) ms

module _ (conn : ConnectionInfo) where
  find-represent :
      (opened : List String) (db : String)
      → find (represent conn opened).pools db
        ≡ (if has opened db then some (create_pool conn db) else none)
  unfolding find has
  find-represent [] db = refl
  find-represent (d ∷ ds) db = elim (Bool-cases (d == db)) [
    | inl same ↦
        let e = (eq_iff d db).0 same in
        rw (same, (eq_iff db d).1 (sym e)) (ap (λ x. some (create_pool conn x)) e)
    | inr differ ↦ ground (arith, find-represent ds db, eq_iff db d, eq_iff d db)
  ]

  map-concat :
      (opened : List String) (db : String)
      → (represent conn opened).pools ++ (db, create_pool conn db) ∷ []
        ≡ (represent conn (opened ++ db ∷ [])).pools
  map-concat [] db = refl
  map-concat (d ∷ ds) db = ap (λ l. (d, create_pool conn d) ∷ l) (map-concat ds db)

  -- `getPool` gives the pool of the database asked for, and adds that database to the set.
  pub get_pool_lem :
      (opened : List String) (database : Option String)
      → get_pool database (represent conn opened) ≡ (
        create_pool conn (resolved conn database),
        represent conn (add opened (resolved conn database)),
      )
  unfolding get_pool add
  get_pool_lem opened database =
      let db = resolved conn database in
      elim (Bool-cases (has opened db)) [
        | inl old ↦ rw (find-represent opened db, old) refl
        | inr new ↦
            rw (find-represent opened db, new)
              (ap (λ pools. (create_pool conn db, record { conn = conn; pools = pools }))
                (map-concat opened db))
      ]

  left_by_one :
      (bin : Binaries) (m : Method) (opened : List String)
      → left_by bin m (represent conn opened) ≡ represent conn (with_one opened (opens m))
  unfolding left_by Postgres.list_databases Postgres.list_tables Postgres.ensure_database
      Postgres.restore Postgres.read_table Postgres.insert_rows
  left_by_one bin list_databases opened = ap (λ r. r.1) (get_pool_lem opened (some "postgres"))
  left_by_one bin (list_tables db) opened = ap (λ r. r.1) (get_pool_lem opened (some db))
  left_by_one bin (ensure_database db) opened =
      ap (λ r. r.1) (get_pool_lem opened (some "postgres"))
  left_by_one bin (restore input opts) opened = elim (Bool-cases opts.create_database) [
    | inl create ↦ rw create (ap (λ r. r.1) (get_pool_lem opened (some "postgres")))
    | inr leave ↦ rw leave refl
  ]
  left_by_one bin (read_table db table) opened = ap (λ r. r.1) (get_pool_lem opened (some db))
  left_by_one bin (insert_rows db table columns []) opened = refl
  left_by_one bin (insert_rows db table columns (row ∷ rows)) opened =
      ap (λ r. r.1) (get_pool_lem opened (some db))

  left_by_all-represent :
      (bin : Binaries) (ms : List Method) (opened : List String)
      → left_by_all bin ms (represent conn opened) ≡ represent conn (opened_by opened ms)
  unfolding left_by_all
  left_by_all-represent bin [] opened = refl
  left_by_all-represent bin (m ∷ ms) opened =
      ap (left_by_all bin ms) (left_by_one bin m opened)
      ∙ left_by_all-represent bin ms (with_one opened (opens m))

  -- The calls of `close` for the pools of some databases, in front of a history.
  abbrev pub ended_pools : List String → History → History
  ended_pools [] h = h
  ended_pools (db ∷ dbs) h = ended_pools dbs (gave (pool_end (create_pool conn db)) (ok tt) ∷ h)

  ending-ok :
      (opened : List String) (env : Env) (h : History) {u : Unit {0}} {h' : History}
      → for_each (represent conn opened).pools (λ entry. call (pool_end entry.1)) env h ≡ (ok u, h')
      → h' ≡ ended_pools opened h
  unfolding for_each
  ending-ok [] env h e = sym (pure-ok e).1
  ending-ok (db ∷ dbs) env h e =
      let (u, h₁, first, rest) = bind-ok (call (pool_end (create_pool conn db))) _ env h e in
      ending-ok dbs env h₁ rest
      ∙ ap (ended_pools dbs) (call-ok (pool_end (create_pool conn db)) env h first).1

with_one-Distinct :
    (dbs : List String) (o : Option String) → Distinct dbs → Distinct (with_one dbs o)
with_one-Distinct dbs none d = d
with_one-Distinct dbs (some db) d = Distinct-add dbs db d

opened_by-Distinct :
    (opened : List String) (ms : List Method) → Distinct opened → Distinct (opened_by opened ms)
opened_by-Distinct opened [] d = d
opened_by-Distinct opened (m ∷ ms) d =
    opened_by-Distinct (with_one opened (opens m)) ms (with_one-Distinct opened (opens m) d)

-- A new PostgreSQL adapter, after any methods in any order, holds one pool for each database that
-- these go through, made for that database, and no other: it stands for the set of these databases.
pub left_by_all_lem :
    (conn : ConnectionInfo) (bin : Binaries) (ms : List Method)
    → (left_by_all bin ms (new_adapter conn) ≡ represent conn (opened_by [] ms))
      × Distinct (opened_by [] ms)
left_by_all_lem conn bin ms = (left_by_all-represent conn bin ms [], opened_by-Distinct [] ms tt)

-- Where `close` returns after any methods on a new PostgreSQL adapter, it has ended every pool that
-- they made, each of them once and in the order in which they were made, and leaves no pool.
pub close_lem :
    (conn : ConnectionInfo) (bin : Binaries) (ms : List Method) (env : Env) (h : History)
    (a : PostgresAdapter) (h' : History)
    → close (left_by_all bin ms (new_adapter conn)) env h ≡ (ok a, h')
    → (a ≡ new_adapter conn) × (h' ≡ ended_pools conn (opened_by [] ms) h)
unfolding close
close_lem conn bin ms env h a h' e =
    let opened = opened_by [] ms in
    let (u, h₁, ending, last) =
      bind-ok (for_each (represent conn opened).pools (λ entry. call (pool_end entry.1)))
        (λ u. pure (new_adapter conn)) env h
        (ap (λ b. close b env h) (sym (left_by_all-represent conn bin ms [])) ∙ e) in
    let (same, over) = pure-ok last in (sym same, sym over ∙ ending-ok conn opened env h ending)
