-- ===== src/Worker/Exports.antt =====
-- src/worker/processors/export.processor.ts: a table as SQL, CSV or a workbook.
-- The write to storage is recorded where its stream has ended; a row that cannot be read leaves the
-- stream open, and nothing is written.
use db_backup_tool.Base.{
  ℕ, suc, ◌%◌, eqb, String, ◌<>◌, show_nat, pos, Option, none, some, List, [], ◌∷◌, map, false,
}
use db_backup_tool.Base.Json.{object, str, num}
use db_backup_tool.Errors.{Err, message_of}
use db_backup_tool.Model.{BackupFormat, sql, csv, xlsx, available}
use db_backup_tool.Effects.{
  adapter_dump, adapter_read_table, adapter_close, dump_to_storage, storage_put, xlsx_chunks,
  backup_create,
}
use db_backup_tool.Effects.Inputs.{
  ExportJobData, Adapter, ColumnInfo, TableRead, PutResult, Streamed, Settled, Value, Rows,
}
use db_backup_tool.Effects.Inputs
use db_backup_tool.Effects.Io.{Io, call, asks, lift, throw, pure, when, ◌>>=◌, ◌>>◌}
use db_backup_tool.HashStream.{HashingStream, new_stream, through, digest, size_of}
use db_backup_tool.Jobs.{mark_running, update_progress}
use db_backup_tool.Servers.{get_adapter}
use db_backup_tool.Worker.{note, completed, failing, guarded_by}
use db_backup_tool.Worker.Csv.{csv_line}

abbrev pub format_text : BackupFormat → String
format_text sql = "sql"
format_text csv = "csv"
format_text xlsx = "xlsx"

abbrev export_key : ExportJobData → String
export_key d =
    "tenants/"
    <> d.tenant_id
    <> "/exports/"
    <> d.job_id
    <> "/"
    <> d.table
    <> "."
    <> format_text d.format

-- What is in storage, and the stream that it came through.
pub record Written : Type 0 where
  pub put : PutResult
  pub hasher : HashingStream

-- The dump of one table: its process is awaited before the write.
unfoldable pub export_sql : ExportJobData → Adapter → Io Written
export_sql d adapter = do
  dump ← call (
      adapter_dump adapter
        (record { database = d.database; schema_only = false; tables = d.table ∷ [] }))
  streamed ← call (dump_to_storage (export_key d) dump)
  lift streamed.settled.second
  put ← lift streamed.settled.first
  pure (record { put = put; hasher = (through new_stream streamed.chunks).0 })

-- `if (++n % 5000 === 0) await updateProgress(...)`, `n` counted already.
unfoldable pub tick : (job_id : String) (n : ℕ) → Io (Unit {0})
tick job_id n =
    when (eqb (n % 5000) 0)
      (update_progress job_id (pos 50) (some ("Exported " <> show_nat n <> " rows")))

-- The loop over the rows, `n` of them written: each gives its values in the columns' order.
unfoldable pub read_rows :
    (job_id : String) → List ColumnInfo → ℕ → List (String → Value) → Io (List (List Value))
read_rows job_id columns n [] = pure []
read_rows job_id columns n (row ∷ rows) =
    let later = read_rows job_id columns (suc n) rows in
    tick job_id (suc n) >> (later >>= λ values. pure (map (λ c. row c.name) columns ∷ values))

-- An iterator that throws does so behind its rows.
unfoldable pub ended : Option Err → Io (Unit {0})
ended none = pure tt
ended (some e) = throw e

unfoldable pub all_rows : (job_id : String) → TableRead → Io (List (List Value))
all_rows job_id read = do
  values ← read_rows job_id read.columns 0 read.rows.items
  ended read.rows.failure
  pure values

abbrev header_values : List ColumnInfo → List Value
header_values columns = map (λ c. Inputs.other c.name) columns

-- The texts written to the stream, each as its bytes.
unfoldable pub csv_lines : List ColumnInfo → List (List Value) → List String
csv_lines columns rows =
    (csv_line (header_values columns) <> "\n") ∷ map (λ values. csv_line values <> "\n") rows

unfoldable pub store : ExportJobData → (chunks : List (List ℕ)) → Io Written
store d chunks = do
  let (hasher, out) = through new_stream chunks
  put ← call (storage_put (export_key d) out)
  pure (record { put = put; hasher = hasher })

unfoldable pub export_csv : ExportJobData → Adapter → Io Written
export_csv d adapter = do
  read ← call (adapter_read_table adapter d.database d.table)
  rows ← all_rows d.job_id read
  chunks ← asks (λ env. map env.utf8 (csv_lines read.columns rows))
  store d chunks

-- `row[c.name] ?? null`
abbrev or_null : Value → Value
or_null Inputs.undefined = Inputs.null
or_null Inputs.hole = Inputs.null
or_null v = v

unfoldable pub export_xlsx : ExportJobData → Adapter → Io Written
export_xlsx d adapter = do
  read ← call (adapter_read_table adapter d.database d.table)
  rows ← all_rows d.job_id read
  chunks ← call (xlsx_chunks d.table (header_values read.columns ∷ map (map or_null) rows))
  store d chunks

unfoldable pub export_as : BackupFormat → ExportJobData → Adapter → Io Written
export_as sql = export_sql
export_as csv = export_csv
export_as xlsx = export_xlsx

unfoldable pub record_export : ExportJobData → Written → Io (Unit {0})
record_export d written = do
  let size = size_of written.hasher written.put.size
  checksum ← asks (λ env. digest env written.hasher)
  artifact ← call (
      backup_create (record {
        tenant_id = d.tenant_id;
        server_id = d.server_id;
        job_id = d.job_id;
        database = d.database;
        format = d.format;
        status = available;
        size = size;
        storage_uri = written.put.uri;
        checksum = checksum;
      }))
  completed d.job_id
      (object (
        ("artifactId", str artifact.id)
        ∷ ("storageUri", str written.put.uri)
        ∷ ("size", num size)
        ∷ []))
      (note d.tenant_id "export.completed" d.server_id (
        object (
          ("database", str d.database)
          ∷ ("table", str d.table)
          ∷ ("format", str (format_text d.format))
          ∷ ("artifactId", str artifact.id)
          ∷ [])))
      ("Export of " <> d.database <> "." <> d.table <> " completed.")

-- The `try` block of `exportProcessor`.
unfoldable pub run_export : ExportJobData → Adapter → Io (Unit {0})
run_export d adapter = do
  mark_running d.job_id
  update_progress d.job_id (pos 10)
      (some ("Exporting " <> d.database <> "." <> d.table <> " as " <> format_text d.format))
  written ← export_as d.format d adapter
  record_export d written

unfoldable pub export_failing : ExportJobData → Err → Io (Unit {0})
export_failing d =
    failing d.job_id
      (λ e. note d.tenant_id "export.failed" d.server_id (
        object (
          ("database", str d.database)
          ∷ ("table", str d.table)
          ∷ ("error", str (message_of e))
          ∷ [])))
      (λ e. "Export failed: " <> message_of e)

-- `exportProcessor`
unfoldable pub export_processor : ExportJobData → Io (Unit {0})
export_processor d = do
  adapter ← get_adapter d.server_id d.tenant_id (some d.database)
  guarded_by (run_export d adapter) (export_failing d) (call (adapter_close adapter))
