-- ===== src/Worker/Imports.antt =====
-- src/worker/processors/import.processor.ts: rows of a file, inserted in batches.
use db_backup_tool.Base.{
  ℕ, ◌+◌, leb, String, ◌<>◌, show_nat, pos, Option, none, some, List, [], ◌∷◌, ◌++◌, map, length,
  if◌then◌else◌,
}
use db_backup_tool.Base.Json.{object, str, num}
use db_backup_tool.Errors.{Err, message_of}
use db_backup_tool.Model.{csv, BackupFormat}
use db_backup_tool.Effects.{adapter_insert_rows, adapter_close, storage_get, csv_records, xlsx_rows}
use db_backup_tool.Effects.Inputs.{ImportJobData, Adapter, Value, Rows}
use db_backup_tool.Effects.Inputs
use db_backup_tool.Effects.Io.{Io, call, pure, ◌>>=◌, ◌>>◌}
use db_backup_tool.Jobs.{mark_running, update_progress}
use db_backup_tool.Servers.{get_adapter}
use db_backup_tool.Worker.{note, completed, failing, guarded_by}
use db_backup_tool.Worker.Exports.{ended}

-- `BATCH`
abbrev pub batch_size : ℕ
batch_size = 500

-- `header`, `batch` and `total`
pub record Progress : Type 0 where
  pub header : Option (List String)
  pub batch : List (List Value)
  pub total : ℕ

abbrev pub fresh : Progress
fresh = record { header = none; batch = []; total = 0 }

unfoldable pub insert : ImportJobData → Adapter → List String → List (List Value) → Io ℕ
insert d adapter header batch = call (adapter_insert_rows adapter d.database d.table header batch)

-- A full batch is inserted, and the count published.
unfoldable pub flush :
    ImportJobData → Adapter → List String → List (List Value) → (total : ℕ) → Io Progress
flush d adapter header batch total = do
  inserted ← insert d adapter header batch
  update_progress d.job_id (pos 50) (some ("Imported " <> show_nat (total + inserted) <> " rows"))
  pure (record { header = some header; batch = []; total = total + inserted })

unfoldable pub push_row :
    ImportJobData → Adapter → List String → Progress → List Value → Io Progress
push_row d adapter header s row =
    let batch = s.batch ++ row ∷ [] in
    if leb batch_size (length batch)
    then flush d adapter header batch s.total
    else pure (record { header = some header; batch = batch; total = s.total })

-- How a record is read as a header and as a row.
pub record Reading (A : Type 0) : Type 0 where
  pub as_header : A → List String
  pub as_row : A → List Value

module _ {A : Type 0} (reading : Reading A) (d : ImportJobData) (adapter : Adapter) where
  -- One turn of the loop: the first record is the header.
  unfoldable pub on_record : Option (List String) → Progress → A → Io Progress
  on_record none s r =
      pure (record { header = some (reading.as_header r); batch = s.batch; total = s.total })
  on_record (some header) s r = push_row d adapter header s (reading.as_row r)

  unfoldable pub on_records : Progress → List A → Io Progress
  on_records s [] = pure s
  on_records s (r ∷ rs) = on_record s.header s r >>= λ next. on_records next rs

  -- `if (header && batch.length)`
  unfoldable pub insert_rest : Option (List String) → List (List Value) → (total : ℕ) → Io ℕ
  insert_rest (some header) (row ∷ rows) total = do
    inserted ← insert d adapter header (row ∷ rows)
    pure (total + inserted)
  insert_rest _ _ total = pure total

  unfoldable pub import_records : Rows A → Io ℕ
  import_records rows = do
    s ← on_records fresh rows.items
    ended rows.failure
    insert_rest s.header s.batch s.total

abbrev pub of_csv : Reading (List String)
of_csv = record { as_header = λ r. r; as_row = λ r. map Inputs.other r }

-- `String(v)`; a hole of the header, which `map` keeps, has no text.
abbrev text_of : Value → String
text_of Inputs.hole = ""
text_of Inputs.null = "null"
text_of Inputs.undefined = "undefined"
text_of (Inputs.date iso text) = text
text_of (Inputs.other text) = text

abbrev pub of_xlsx : Reading (List Value)
of_xlsx = record { as_header = λ r. map text_of r; as_row = λ r. r }

-- `importCsv`
unfoldable pub import_csv : ImportJobData → Adapter → (file : String) → Io ℕ
import_csv d adapter file = do
  records ← call (csv_records file)
  import_records of_csv d adapter records

-- `importXlsx`: the rows of the first worksheet.
unfoldable pub import_xlsx : ImportJobData → Adapter → (file : String) → Io ℕ
import_xlsx d adapter file = do rows ← call (xlsx_rows file); import_records of_xlsx d adapter rows

unfoldable pub import_as : BackupFormat → ImportJobData → Adapter → (file : String) → Io ℕ
import_as csv = import_csv
import_as _ = import_xlsx

-- The `try` block of `importProcessor`.
unfoldable pub run_import : ImportJobData → Adapter → Io (Unit {0})
run_import d adapter = do
  mark_running d.job_id
  update_progress d.job_id (pos 10) (some ("Importing into " <> d.database <> "." <> d.table))
  file ← call (storage_get d.file_key)
  total ← import_as d.format d adapter file
  completed d.job_id (object (("rowsImported", num total) ∷ []))
      (note d.tenant_id "import.completed" d.server_id
        (object (("database", str d.database) ∷ ("table", str d.table) ∷ ("rows", num total) ∷ [])))
      ("Imported " <> show_nat total <> " rows into " <> d.database <> "." <> d.table <> ".")

unfoldable pub import_failing : ImportJobData → Err → Io (Unit {0})
import_failing d =
    failing d.job_id
      (λ e. note d.tenant_id "import.failed" d.server_id (
        object (
          ("database", str d.database)
          ∷ ("table", str d.table)
          ∷ ("error", str (message_of e))
          ∷ [])))
      (λ e. "Import failed: " <> message_of e)

-- `importProcessor`
unfoldable pub import_processor : ImportJobData → Io (Unit {0})
import_processor d = do
  adapter ← get_adapter d.server_id d.tenant_id (some d.database)
  guarded_by (run_import d adapter) (import_failing d) (call (adapter_close adapter))
