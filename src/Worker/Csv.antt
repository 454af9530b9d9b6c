-- ===== src/Worker/Csv.antt =====
-- src/worker/processors/export.processor.ts: `csvCell` and the lines that are made of cells.
pub mod RoundTrip
use db_backup_tool.Base.{
  String, ◌<>◌, join, Bool, false, ◌||◌, List, map, Char, code, eqb, if◌then◌else◌,
}
use db_backup_tool.Effects.Inputs.{Value, null, undefined, hole, date, other}

-- `/[",\n\r]/`
unfoldable pub special : Char → Bool
special c = eqb (code c) 34 || (eqb (code c) 44 || (eqb (code c) 10 || eqb (code c) 13))

unfoldable pub has_special : String → Bool
has_special String.[] = false
has_special (String.◌∷◌ c s) = special c || has_special s

-- `s.replace(/"/g, '""')`
unfoldable pub double_quotes : String → String
double_quotes String.[] = ""
double_quotes (String.◌∷◌ c s) =
    let rest = double_quotes s in
    if eqb (code c) 34 then String.◌∷◌ c (String.◌∷◌ c rest) else String.◌∷◌ c rest

-- `csvCell` of a text.
unfoldable pub cell_text : String → String
cell_text s = if has_special s then "\"" <> double_quotes s <> "\"" else s

-- `csvCell`
unfoldable pub csv_cell : Value → String
csv_cell null = ""
csv_cell undefined = ""
csv_cell hole = ""
csv_cell (date iso text) = cell_text iso
csv_cell (other text) = cell_text text

-- A line of the file, without its line feed.
unfoldable pub csv_line : List Value → String
csv_line values = join "," (map csv_cell values)
