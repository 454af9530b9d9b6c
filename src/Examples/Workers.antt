-- ===== src/Examples/Workers.antt =====
-- The worker and the requests at concrete inputs.
use db_backup_tool.Base.{String, List, [], ◌∷◌, ◌≡◌, refl, none, some}
use db_backup_tool.Examples.World.{world, server_row}
use db_backup_tool.Errors.{ok, err, Err, foreign}
use db_backup_tool.Effects.{server_find_first, adapter_insert_rows}
use db_backup_tool.Effects.Inputs.{ImportJobData, Adapter, mysql_adapter, Rows, other}
use db_backup_tool.Effects.Io.{Env, History, gave, ◌>>=◌}
use db_backup_tool.Model.{csv, mysql, disable}
use db_backup_tool.Worker.Dispatch.{WorkerJob, backup, processors, opened, open_one}
use db_backup_tool.Worker.Status.{IsReliable, status_in}
use db_backup_tool.Worker.Settled.{Settles}
use db_backup_tool.Worker.Processors.{processors-Settles}
use db_backup_tool.Worker.Closing.{EndsClosing, processors-closing, processors-unopened}
use db_backup_tool.Worker.Exports.{ended}
use db_backup_tool.Worker.Imports.{
  import_records, on_records, on_record, push_row, insert_rest, insert, of_csv,
}
use db_backup_tool.Worker.Inserted.{inserted, body_rows, import_records_lem}
use db_backup_tool.Servers.{get_adapter, get_connection_info, connection_of, create_adapter}
use db_backup_tool.Crypto.{decrypt_secret, unwrap_dek, get_kek, open_segments}
use db_backup_tool.Base.Text.Split.{split}

abbrev down : Err
down = foreign "Error" none "down"

abbrev nightly : WorkerJob
nightly = backup (record { job_id = "j1"; tenant_id = "t1"; server_id = "s1"; database = "shop" })

world-IsReliable : IsReliable world "j1"
world-IsReliable = record { updates = λ h patch. refl; clock = λ h. (7, refl) }

abbrev adapter : Adapter
adapter = mysql_adapter (record {
  engine = mysql;
  host = "db";
  port = 3306;
  username = "root";
  password = "";
  database = some "shop";
  ssl_mode = disable;
})

abbrev mid : History
mid = gave (server_find_first "s1" "t1") (ok (some server_row)) ∷ []

opened-nightly : opened nightly world [] ≡ (ok (adapter ∷ []), mid)
unfolding open_one get_adapter get_connection_info connection_of create_adapter decrypt_secret
    unwrap_dek get_kek open_segments split ◌>>=◌
opened-nightly = refl

processors-Settles_example :
    Settles "j1" (processors nightly world []).0 (processors nightly world []).1
processors-Settles_example =
    processors-Settles world [] nightly (adapter ∷ []) mid world-IsReliable opened-nightly

processors-closing_example :
    EndsClosing (adapter ∷ []) (processors nightly world []).0 (processors nightly world []).1
processors-closing_example = processors-closing world [] nightly (adapter ∷ []) mid opened-nightly

-- A database that answers nothing.
abbrev nothing : Env
nothing = record world { answer = λ h c. err down }

abbrev asked : History
asked = gave (server_find_first "s1" "t1") (err down) ∷ []

unopened_nightly : opened nightly nothing [] ≡ (err down, asked)
unfolding open_one get_adapter get_connection_info ◌>>=◌
unopened_nightly = refl

processors-unopened_example :
    (processors nightly nothing [] ≡ (err down, asked))
    × ((job : String) → status_in job asked ≡ status_in job [])
processors-unopened_example = processors-unopened nothing [] nightly down asked unopened_nightly

abbrev import_job : ImportJobData
import_job = record {
  job_id = "j1";
  tenant_id = "t1";
  server_id = "s1";
  database = "shop";
  table = "items";
  format = csv;
  file_key = "f";
}

abbrev file : Rows (List String)
file = record { items = ("id" ∷ []) ∷ ("1" ∷ []) ∷ ("2" ∷ []) ∷ []; failure = none }

abbrev after_import : History
after_import =
    gave
      (adapter_insert_rows adapter "shop" "items" ("id" ∷ [])
        ((other "1" ∷ []) ∷ (other "2" ∷ []) ∷ []))
      (ok 2)
    ∷ []

imported : import_records of_csv import_job adapter file world [] ≡ (ok 2, after_import)
unfolding import_records on_records on_record push_row insert_rest insert ended ◌>>=◌
imported = refl

import_records_lem_example :
    (file.failure ≡ none) × (inserted after_import ≡ body_rows of_csv file.items)
import_records_lem_example =
    import_records_lem of_csv import_job adapter world file 2 after_import imported
