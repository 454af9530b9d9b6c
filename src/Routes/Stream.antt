-- ===== src/Routes/Stream.antt =====
-- src/api/routes/jobs.routes.ts and src/queue/index.ts: a connection that streams the progress of a
-- job, from the answer of its handler on.
pub mod Frames
use db_backup_tool.Base.{
  ℕ, String, ◌==◌, Bool, true, false, ◌||◌, if◌then◌else◌, List, [], ◌∷◌, ◌++◌,
}
use db_backup_tool.Model.{Job}
use db_backup_tool.Effects.Inputs.{JobProgressEvent}
use db_backup_tool.Jobs.{status_text}

pub record Snapshot : Type 0 where
  pub job_id : String
  pub status : String
  pub progress : ℕ

-- What is written to the response.
pub data Frame : Type 0 where
  snapshot : Snapshot → Frame
  progress_event : JobProgressEvent → Frame
  ping : Frame

-- The response and the two resources behind it: the subscription and the interval of the heartbeat.
pub record Connection : Type 0 where
  pub written : List Frame
  pub ended : Bool
  pub subscribed : Bool
  pub heartbeat : Bool

-- The test for the last status of a job.
unfoldable pub is_last : (status : String) → Bool
is_last status = status == "done" || status == "failed" || status == "cancelled"

abbrev pub snapshot_of : Job → Frame
snapshot_of job =
    snapshot (record { job_id = job.id; status = status_text job.status; progress = job.progress })

-- The handler behind the lookup of the job.
unfoldable pub open_connection : Job → Connection
open_connection job =
    let over = is_last (status_text job.status) in
    record {
      written = snapshot_of job ∷ [];
      ended = over;
      subscribed = if over then false else true;
      heartbeat = if over then false else true;
    }

-- What reaches a connection: a message of the channel of the job, well formed or not, a turn of the
-- interval, and the end of the request.
pub data Happening : Type 0 where
  message : JobProgressEvent → Happening
  malformed : Happening
  interval : Happening
  request_closed : Happening

-- `send`
abbrev send : Frame → Connection → Connection
send frame c = record c { written = c.written ++ frame ∷ [] }

-- `cleanup`
unfoldable pub cleanup : Connection → Connection
cleanup c = record c { heartbeat = false; subscribed = false }

-- The listener of the subscription.
unfoldable pub on_event : Connection → JobProgressEvent → Connection
on_event c ev =
    let sent = send (progress_event ev) c in
    if is_last ev.status then record (cleanup sent) { ended = true } else sent

-- What Redis and the timer deliver: a message to a connection that is still subscribed, an interval to
-- one whose interval is not cleared.
unfoldable pub on : Connection → Happening → Connection
on c (message ev) = if c.subscribed then on_event c ev else c
on c malformed = c
on c interval = if c.heartbeat then send ping c else c
on c request_closed = cleanup c

unfoldable pub run : Connection → List Happening → Connection
run c [] = c
run c (h ∷ hs) = run (on c h) hs
