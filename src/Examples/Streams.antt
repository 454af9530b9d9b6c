-- ===== src/Examples/Streams.antt =====
-- The stream of a job at concrete inputs.
use db_backup_tool.Base.{String, true, false, none, some, List, [], ◌∷◌, ◌++◌, ◌≡◌, refl}
use db_backup_tool.Base.Json.{object}
use db_backup_tool.Errors.{err, unauthorized}
use db_backup_tool.Model.{Job, JobType, running}
use db_backup_tool.Effects.Inputs.{JobProgressEvent}
use db_backup_tool.Examples.World.{world}
use db_backup_tool.Jobs.{status_text}
use db_backup_tool.Routes.Mounting.{serve_stream, serve_stream_bare}
use db_backup_tool.Routes.Stream.{
  open_connection, snapshot_of, Happening, message, malformed, interval, request_closed, run,
  is_last, on, on_event, cleanup,
}
use db_backup_tool.Routes.Stream.Frames.{told, messages, through_last, any_last, run_lem, run-ended}

serve_stream_bare_example :
    serve_stream "j1" none (some "token") none world []
    ≡ (err (unauthorized "Missing bearer token"), [])
serve_stream_bare_example = serve_stream_bare "j1" none (some "token") none world [] refl

abbrev job : Job
job = record {
  id = "j1";
  tenant_id = "t1";
  type = JobType.backup;
  status = running;
  progress = 10;
  params = object [];
  result = none;
  error = none;
  actor_id = none;
  schedule_id = none;
  started_at = none;
  finished_at = none;
}

abbrev event : String → JobProgressEvent
event status = record {
  job_id = "j1";
  status = status;
  progress = 50;
  message = none;
  result = none;
  error = none;
}

abbrev happenings : List Happening
happenings =
    message (event "running") ∷ interval ∷ malformed ∷ message (event "done") ∷ interval ∷ []

going : is_last (status_text job.status) ≡ false
unfolding is_last
going = refl

run_lem_example :
    (told (run (open_connection job) happenings).written
      ≡ snapshot_of job ∷ through_last (messages happenings))
    × ((run (open_connection job) happenings).ended ≡ any_last (messages happenings))
run_lem_example = run_lem job happenings going

over : (run (open_connection job) happenings).ended ≡ true
unfolding run on on_event cleanup is_last open_connection
over = refl

run-ended_example :
    ((run (open_connection job) happenings).subscribed ≡ false)
    × ((run (open_connection job) happenings).heartbeat ≡ false)
    × (run (open_connection job) (happenings ++ request_closed ∷ [])
        ≡ run (open_connection job) happenings)
run-ended_example = run-ended job happenings (request_closed ∷ []) over
