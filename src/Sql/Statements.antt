-- ===== src/Sql/Statements.antt =====
-- src/db/adapters/mysql.ts and src/db/adapters/postgres.ts: quoted identifiers and insertions.
use db_backup_tool.Base.{
  ℕ, suc, zero, ◌+◌, ◌*◌, String, ◌<>◌, join, show_nat, code, eqb, if◌then◌else◌, Bool, true, false,
  Option, none, some, List, [], ◌∷◌, map, concat, length, take, drop,
}
use db_backup_tool.Effects.Inputs.{Value, null, undefined, hole, date, other, Statement}

-- `text.replace(/q/g, '')` for the quote `q`.
unfoldable pub remove : (quote : ℕ) → String → String
remove q String.[] = ""
remove q (String.◌∷◌ c s) =
    let rest = remove q s in if eqb (code c) q then rest else String.◌∷◌ c rest

-- The statement of `ensureDatabase` of MySQL; the quote is a backtick.
unfoldable pub mysql_create_database : String → String
mysql_create_database database =
    "CREATE DATABASE IF NOT EXISTS `" <> remove 96 database <> "` CHARACTER SET utf8mb4"

-- The statement of `ensureDatabase` of PostgreSQL, where the database is missing.
unfoldable pub postgres_create_database : String → String
postgres_create_database database = "CREATE DATABASE \"" <> remove 34 database <> "\""

-- The query of `readTable`.
unfoldable pub mysql_select : String → String
mysql_select table = "SELECT * FROM `" <> remove 96 table <> "`"

unfoldable pub postgres_select : String → String
postgres_select table = "SELECT * FROM \"" <> remove 34 table <> "\""

-- The statement of `insertRows` of MySQL, whose driver expands the single placeholder.
unfoldable pub mysql_insert : (table : String) (columns : List String) → String
mysql_insert table columns =
    "INSERT INTO `"
    <> remove 96 table
    <> "` ("
    <> join ", " (map (λ c. "`" <> remove 96 c <> "`") columns)
    <> ") VALUES ?"

abbrev pub is_hole : Value → Bool
is_hole hole = true
is_hole null = false
is_hole undefined = false
is_hole (date iso text) = false
is_hole (other text) = false

-- The numbers of the placeholders of row `ri`, from column `ci` on; `map` skips the holes of the row.
unfoldable pub row_numbers : (width ri ci : ℕ) → List Value → List (Option ℕ)
row_numbers width ri ci [] = []
row_numbers width ri ci (v ∷ vs) =
    (if is_hole v then none else some (ri * width + ci + 1)) ∷ row_numbers width ri (suc ci) vs

-- Those of the rows of a batch, from row `ri` on.
unfoldable pub batch_numbers : (width ri : ℕ) → List (List Value) → List (List (Option ℕ))
batch_numbers width ri [] = []
batch_numbers width ri (row ∷ rows) = row_numbers width ri 0 row ∷ batch_numbers width (suc ri) rows

abbrev pub placeholder : Option ℕ → String
placeholder none = ""
placeholder (some n) = "$" <> show_nat n

-- `(${ph.join(', ')})`, where a hole is joined as nothing.
unfoldable pub tuple_text : List (Option ℕ) → String
tuple_text numbers = "(" <> join ", " (map placeholder numbers) <> ")"

-- An element of `...row`.
abbrev pub spread : Value → Value
spread v = if is_hole v then undefined else v

-- The statement for one batch.
unfoldable pub postgres_insert :
    (table : String) (columns : List String) → List (List Value) → Statement
postgres_insert table columns batch = record {
  sql =
      "INSERT INTO \""
      <> remove 34 table
      <> "\" ("
      <> join ", " (map (λ c. "\"" <> remove 34 c <> "\"") columns)
      <> ") VALUES "
      <> join ", " (map tuple_text (batch_numbers (length columns) 0 batch));
  values = map spread (concat batch);
}

-- `rows.slice(i, i + batchSize)` for `i` in steps of `batchSize`; the fuel is the number of rows.
unfoldable pub batches_from : (fuel : ℕ) → List (List Value) → List (List (List Value))
batches_from zero rows = []
batches_from (suc fuel) [] = []
batches_from (suc fuel) (row ∷ rows) =
    take 500 (row ∷ rows) ∷ batches_from fuel (drop 500 (row ∷ rows))

-- The batches of `insertRows` of PostgreSQL.
unfoldable pub batches : List (List Value) → List (List (List Value))
batches rows = batches_from (length rows) rows

-- The statements of `insertRows` of PostgreSQL.
unfoldable pub postgres_insert_rows :
    (table : String) (columns : List String) → List (List Value) → List Statement
postgres_insert_rows table columns rows = map (postgres_insert table columns) (batches rows)
