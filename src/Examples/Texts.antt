-- ===== src/Examples/Texts.antt =====
-- Cells at concrete inputs.
use db_backup_tool.Base.{◌<>◌, ◌≡◌, refl, some}
use db_backup_tool.Worker.Csv.{cell_text}
use db_backup_tool.Worker.Csv.RoundTrip.{read_cell, read_cell-cell_text}

read_cell-cell_text_example : read_cell (cell_text "a,\"b" <> ",c") ≡ some ("a,\"b", ",c")
read_cell-cell_text_example = read_cell-cell_text "a,\"b" ",c" refl
