-- ===== src/Sql/Quoting.antt =====
-- The quotes in the statements that hold names from elsewhere.
use text.Mathlib.TextLemmas.{cons-append, nil-append}
use db_backup_tool.Base.{
  Option, none, some, ℕ, zero, suc, ◌+◌, ◌*◌, ◌<◌, String, ◌<>◌, join, show_nat, code, eqb,
  if◌then◌else◌, List, [], ◌∷◌, map, length, ◌≡◌, refl, ap, ◌∙◌, Bool-cases, inl, inr, arith,
}
use db_backup_tool.Base.Text.Digits.{AllChars, IsDigit, show_nat-IsDigit}
use db_backup_tool.Effects.Inputs.{Value}
use db_backup_tool.Sql.Statements.{
  remove, mysql_create_database, mysql_select, mysql_insert, postgres_create_database,
  postgres_select, postgres_insert, placeholder, tuple_text, batch_numbers,
}

-- How many characters of a text have the code `q`.
abbrev pub quotes : (q : ℕ) → String → ℕ
quotes q String.[] = 0
quotes q (String.◌∷◌ c s) = (if eqb (code c) q then 1 else 0) + quotes q s

quotes-append : (q : ℕ) (a b : String) → quotes q (a <> b) ≡ quotes q a + quotes q b
quotes-append q String.[] b = ap (quotes q) (nil-append b) ∙ omega arith
quotes-append q (String.◌∷◌ c a) b =
    ap (quotes q) (cons-append c a b) ∙ omega (arith, quotes-append q a b)

quotes-remove : (q : ℕ) (s : String) → quotes q (remove q s) ≡ 0
unfolding remove
quotes-remove q String.[] = refl
quotes-remove q (String.◌∷◌ c s) = elim (Bool-cases (eqb (code c) q)) [
  | inl same ↦ rw same (omega (arith, quotes-remove q s))
  | inr other ↦ rw other (rw other (omega (arith, quotes-remove q s)))
]

quotes-digits : (q : ℕ) (s : String) → q < 48 → AllChars IsDigit s → quotes q s ≡ 0
quotes-digits q String.[] low h = refl
quotes-digits q (String.◌∷◌ c s) low (d, h) = ground (arith, quotes-digits q s low h)

-- A name between two texts, from which its quote was removed.
quotes-around :
    (q : ℕ) (a name b : String) → quotes q (a <> remove q name <> b) ≡ quotes q a + quotes q b
quotes-around q a name b =
    quotes-append q a (remove q name <> b)
    ∙ omega (arith, quotes-append q (remove q name) b, quotes-remove q name)

-- `k` for each of some elements.
abbrev several : (count k : ℕ) → ℕ
several zero k = 0
several (suc n) k = k + several n k

several_none : (n : ℕ) → several n 0 ≡ 0
several_none zero = refl
several_none (suc n) = omega (arith, several_none n)

several_two : (n : ℕ) → several n 2 ≡ 2 * n
several_two zero = refl
several_two (suc n) = omega (arith, several_two n)

quotes-join :
    {A : Type 0} (q k : ℕ) (f : A → String)
    → quotes q ", " ≡ 0
    → ((x : A) → quotes q (f x) ≡ k)
    → (xs : List A) → quotes q (join ", " (map f xs)) ≡ several (length xs) k
quotes-join q k f comma each [] = refl
quotes-join q k f comma each (x ∷ []) = each x ∙ omega arith
quotes-join q k f comma each (x ∷ y ∷ xs) =
    let rest = join ", " (map f (y ∷ xs)) in
    quotes-append q (f x) (", " <> rest)
    ∙ omega (arith, each x, quotes-append q ", " rest, comma, quotes-join q k f comma each (y ∷ xs))

placeholder-quotes : (number : Option ℕ) → quotes 34 (placeholder number) ≡ 0
placeholder-quotes none = refl
placeholder-quotes (some n) =
    quotes-append 34 "$" (show_nat n)
    ∙ omega (arith, quotes-digits 34 (show_nat n) (omega arith) (show_nat-IsDigit n))

tuple-quotes : (numbers : List (Option ℕ)) → quotes 34 (tuple_text numbers) ≡ 0
unfolding tuple_text
tuple-quotes numbers =
    quotes-append 34 "(" (join ", " (map placeholder numbers) <> ")")
    ∙ omega (
      arith,
      quotes-append 34 (join ", " (map placeholder numbers)) ")",
      quotes-join 34 0 placeholder refl placeholder-quotes numbers,
      several_none (length numbers),
    )

-- The head of an insertion: a table, and columns each between two quotes.
head-quotes :
    (q : ℕ) (a table b : String) (column : String → String) (columns : List String) (c : String)
    → quotes q ", " ≡ 0
    → quotes q a ≡ 1
    → quotes q b ≡ 1
    → quotes q c ≡ 0
    → ((name : String) → quotes q (column name) ≡ 2)
    → quotes q (a <> remove q table <> b <> join ", " (map column columns) <> c)
      ≡ 2 + 2 * length columns
head-quotes q a table b column columns c comma one other quoteless each =
    let names = join ", " (map column columns) in
    quotes-around q a table (b <> names <> c)
    ∙ omega (
      arith,
      one,
      other,
      quoteless,
      quotes-append q b (names <> c),
      quotes-append q names c,
      quotes-join q 2 column comma each columns,
      several_two (length columns),
    )

postgres_insert-quotes :
    (table : String) (columns : List String) (batch : List (List Value))
    → quotes 34 (postgres_insert table columns batch).sql ≡ 2 + 2 * length columns
unfolding postgres_insert
postgres_insert-quotes table columns batch =
    let tuples = batch_numbers (length columns) 0 batch in
    head-quotes 34 "INSERT INTO \"" table "\" (" (λ c. "\"" <> remove 34 c <> "\"") columns
      (") VALUES " <> join ", " (map tuple_text tuples)) refl refl refl
      (quotes-append 34 ") VALUES " (join ", " (map tuple_text tuples))
        ∙ omega (
          arith,
          quotes-join 34 0 tuple_text refl tuple-quotes tuples,
          several_none (length tuples),
        ))
      (λ name. quotes-around 34 "\"" name "\"")

-- The statements of the adapters hold the quotes that they write themselves and no others, two for each
-- name, whatever is in the names of the database, of the table and of the columns: no name ends its own
-- quotes. The quote is the backtick for MySQL and the double quote for PostgreSQL.
pub quotes_lem :
    (database table : String) (columns : List String) (batch : List (List Value))
    → (quotes 96 (mysql_create_database database) ≡ 2)
      × (quotes 96 (mysql_select table) ≡ 2)
      × (quotes 96 (mysql_insert table columns) ≡ 2 + 2 * length columns)
      × (quotes 34 (postgres_create_database database) ≡ 2)
      × (quotes 34 (postgres_select table) ≡ 2)
      × (quotes 34 (postgres_insert table columns batch).sql ≡ 2 + 2 * length columns)
unfolding mysql_create_database mysql_select mysql_insert postgres_create_database postgres_select
quotes_lem database table columns batch = (
  quotes-around 96 "CREATE DATABASE IF NOT EXISTS `" database "` CHARACTER SET utf8mb4",
  quotes-around 96 "SELECT * FROM `" table "`",
  head-quotes 96 "INSERT INTO `" table "` (" (λ c. "`" <> remove 96 c <> "`") columns ") VALUES ?"
      refl refl refl refl (λ name. quotes-around 96 "`" name "`"),
  quotes-around 34 "CREATE DATABASE \"" database "\"",
  quotes-around 34 "SELECT * FROM \"" table "\"",
  postgres_insert-quotes table columns batch,
)
