-- ===== src/Examples/Numbers.antt =====
-- Insertions at concrete inputs.
use db_backup_tool.Base.{
  some, ℕ, ◌+◌, ◌*◌, ◌<>◌, join, map, String, List, [], ◌∷◌, ◌≡◌, refl, length, concat,
}
use db_backup_tool.Effects.Inputs.{Value, other}
use db_backup_tool.Sql.Statements.{
  tuple_text, postgres_insert, mysql_create_database, mysql_select, mysql_insert,
  postgres_create_database, postgres_select,
}
use db_backup_tool.Sql.Quoting.{quotes, quotes_lem}
use db_backup_tool.Sql.Placeholders.{range, postgres_insert_lem}

abbrev rows : List (List Value)
rows = (other "1" ∷ other "pen" ∷ []) ∷ (other "2" ∷ other "ink" ∷ []) ∷ []

abbrev columns : List String
columns = "id" ∷ "name" ∷ []

postgres_insert_lem_example :
    (head : String) × (numbers : List (List ℕ)) × ((postgres_insert "items" columns rows).sql
      ≡ head <> ") VALUES " <> join ", " (map (λ n. tuple_text (map some n)) numbers))
    × (map length numbers ≡ map length rows)
    × (concat numbers ≡ range 1 (length (postgres_insert "items" columns rows).values))
postgres_insert_lem_example =
    postgres_insert_lem "items" columns rows (refl, (refl, tt))
      ((refl, (refl, tt)), ((refl, (refl, tt)), tt))

quotes_lem_example :
    (quotes 96 (mysql_create_database "a`b") ≡ 2)
    × (quotes 96 (mysql_select "it`ems") ≡ 2)
    × (quotes 96 (mysql_insert "it`ems" columns) ≡ 2 + 2 * length columns)
    × (quotes 34 (postgres_create_database "a`b") ≡ 2)
    × (quotes 34 (postgres_select "it`ems") ≡ 2)
    × (quotes 34 (postgres_insert "it`ems" columns rows).sql ≡ 2 + 2 * length columns)
quotes_lem_example = quotes_lem "a`b" "it`ems" columns rows
