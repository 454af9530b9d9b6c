-- ===== src/Adapters/Released.antt =====
-- The clients that PostgreSQL's adapter takes from a pool, and the rows that it inserts with one.
use db_backup_tool.Base.{
  ℕ, suc, ◌+◌, String, ◌≡◌, refl, sym, ap, ◌∙◌, Option, some, ◌otherwise◌, List, [], ◌∷◌, ◌++◌, map,
  concat, length, append_assoc, arith,
}
use db_backup_tool.Errors.{ok}
use db_backup_tool.Effects.{pool_connect, client_query, client_release}
use db_backup_tool.Effects.Inputs.{Statement, Value}
use db_backup_tool.Effects.Io.{Io, Env, History, call, gave, try_finally, attempt}
use db_backup_tool.Effects.Invert.{bind-ok, call-ok, pure-ok, lift-ok}
use db_backup_tool.Sql.Statements.{postgres_insert_rows, postgres_insert, batches, spread}
use db_backup_tool.Sql.Placeholders.{batches_lem}
use db_backup_tool.Adapters.Postgres.{
  PostgresAdapter, get_pool, insert_batches, insert_into, insert_rows,
}

-- Some statements with the counts that a client gave for them, in front of a history.
abbrev pub queried : (client : String) → List Statement → List (Option ℕ) → History → History
queried client (s ∷ ss) (n ∷ ns) h = queried client ss ns (gave (client_query client s) (ok n) ∷ h)
queried client ss ns h = h

-- The sum of the counts, a missing one as 0.
abbrev pub total : List (Option ℕ) → ℕ
total [] = 0
total (n ∷ ns) = (n otherwise 0) + total ns

-- What stands between the connection and the release of a client, with the number of rows it gives.
pub record Inserted (client : String) (statements : List Statement) (n : ℕ) (h h' : History)
    : Type 0 where
  pub counts : List (Option ℕ)
  pub complete : length counts ≡ length statements
  pub sum : n ≡ total counts
  pub trace : h' ≡ queried client statements counts h

module _ (env : Env) (client : String) where
  insert_batches-ok :
      (statements : List Statement) (before : ℕ) (h : History) {n : ℕ} {h' : History}
      → insert_batches client statements before env h ≡ (ok n, h')
      → (m : ℕ) × (n ≡ before + m) × Inserted client statements m h h'
  unfolding insert_batches
  insert_batches-ok [] before h e =
      let (same, end) = pure-ok e in
      (0, omega arith, record { counts = []; complete = refl; sum = refl; trace = sym end })
  insert_batches-ok (s ∷ ss) before h e =
      let (count, h₁, first, rest) = bind-ok (call (client_query client s)) _ env h e in
      let (m, split, made) = insert_batches-ok ss (before + (count otherwise 0)) h₁ rest in
      (
        (count otherwise 0) + m,
        omega arith,
        record {
          counts = count ∷ made.counts;
          complete = ap suc made.complete;
          sum = ap (λ k. (count otherwise 0) + k) made.sum;
          trace =
              made.trace
              ∙ ap (queried client ss made.counts) (call-ok (client_query client s) env h first).1;
        },
      )

module _ {A : Type 0} (env : Env) (m : Io A) (client : String) where
  -- A run of `try { m } finally { client.release() }` that returns.
  finally-ok :
      (h : History) {a : A} {h' : History}
      → try_finally m (call (client_release client)) env h ≡ (ok a, h')
      → (mid : History) × (m env h ≡ (ok a, mid))
        × (h' ≡ gave (client_release client) (ok tt) ∷ mid)
  unfolding try_finally attempt
  finally-ok h e =
      let (r, mid, tried, rest) = bind-ok (attempt m) _ env h e in
      let (u, h₂, released, last) = bind-ok (call (client_release client)) _ env mid rest in
      let (given, over) = lift-ok r env h₂ last in
      let (same, at) = pure-ok tried in
      (
        mid,
        (λ i. ((same ∙ given) i, at i)),
        sym over ∙ (call-ok (client_release client) env mid released).1,
      )

concat-append : {A : Type 0} (xs ys : List (List A)) → concat (xs ++ ys) ≡ concat xs ++ concat ys
concat-append [] ys = refl
concat-append (x ∷ xs) ys =
    ap (λ l. x ++ l) (concat-append xs ys) ∙ sym (append_assoc x (concat xs) (concat ys))

map-concat :
    {A : Type 0} (xss : List (List (List A))) → concat (map concat xss) ≡ concat (concat xss)
map-concat [] = refl
map-concat (xs ∷ xss) =
    ap (λ l. concat xs ++ l) (map-concat xss) ∙ sym (concat-append xs (concat xss))

map-append : {A B : Type 0} (f : A → B) (xs ys : List A) → map f (xs ++ ys) ≡ map f xs ++ map f ys
map-append f [] ys = refl
map-append f (x ∷ xs) ys = ap (λ l. f x ∷ l) (map-append f xs ys)

-- The values of some statements, in order.
abbrev pub values_of : List Statement → List Value
values_of statements = concat (map (λ s. s.values) statements)

values_of-postgres_insert :
    (table : String) (columns : List String) (batches : List (List (List Value)))
    → values_of (map (postgres_insert table columns) batches)
      ≡ map spread (concat (map concat batches))
unfolding postgres_insert
values_of-postgres_insert table columns [] = refl
values_of-postgres_insert table columns (b ∷ bs) =
    ap (λ l. map spread (concat b) ++ l) (values_of-postgres_insert table columns bs)
    ∙ sym (map-append spread (concat b) (concat (map concat bs)))

values_of-postgres_insert_rows :
    (table : String) (columns : List String) (rows : List (List Value))
    → values_of (postgres_insert_rows table columns rows) ≡ map spread (concat rows)
unfolding postgres_insert_rows
values_of-postgres_insert_rows table columns rows =
    values_of-postgres_insert table columns (batches rows)
    ∙ ap (map spread) (map-concat (batches rows) ∙ ap concat (batches_lem rows).0)

-- Where `insertRows` of PostgreSQL returns for some rows, it has taken one client from the pool of
-- the database, run the statements of the batches with it in order, each once, released it as its
-- last call, and gives the sum of the rows that the statements report. The values of the statements are
-- those of the rows, all of them and in order, a hole as undefined.
pub insert_rows_lem :
    (database table : String) (columns : List String) (row : List Value) (rows : List (List Value))
    (a : PostgresAdapter) (env : Env) (h : History) (n : ℕ) (h' : History)
    → (insert_rows database table columns (row ∷ rows) a).1 env h ≡ (ok n, h')
    → (client : String) × (mid : History) × Inserted client
        (postgres_insert_rows table columns (row ∷ rows))
        n
        (gave (pool_connect (get_pool (some database) a).0) (ok client) ∷ h)
        mid
      × (h' ≡ gave (client_release client) (ok tt) ∷ mid)
      × (values_of (postgres_insert_rows table columns (row ∷ rows))
          ≡ map spread (concat (row ∷ rows)))
unfolding insert_rows insert_into
insert_rows_lem database table columns row rows a env h n h' e =
    let pool = (get_pool (some database) a).0 in
    let statements = postgres_insert_rows table columns (row ∷ rows) in
    let (client, h₁, connected, rest) = bind-ok (call (pool_connect pool)) _ env h e in
    let (mid, queries, over) = finally-ok env (insert_batches client statements 0) client h₁ rest in
    let (m, whole, made) = insert_batches-ok env client statements 0 h₁ queries in
    (
      client,
      mid,
      record {
        counts = made.counts;
        complete = made.complete;
        sum = omega (arith, whole, made.sum);
        trace =
            made.trace
            ∙ ap (queried client statements made.counts)
                (call-ok (pool_connect pool) env h connected).1;
      },
      over,
      values_of-postgres_insert_rows table columns (row ∷ rows),
    )
