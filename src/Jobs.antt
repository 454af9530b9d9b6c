-- ===== src/Jobs.antt =====
-- src/modules/jobs/jobService.ts: the life of a job row, and the progress that it publishes.
use db_backup_tool.Base.{
  ℕ, String, ◌<>◌, Option, none, some, ◌otherwise◌, ℤ, pos, negsuc, ltb, if◌then◌else◌, [],
  take_chars,
}
use db_backup_tool.Base.Json.{Json, object}
use db_backup_tool.Model.{Job, JobType, JobStatus, queued, running, done, failed, cancelled}
use db_backup_tool.Effects.{job_create, job_update, job_event_create, publish, now}
use db_backup_tool.Effects.Inputs.{JobPatch}
use db_backup_tool.Effects.Io.{Io, call, ◌>>=◌, ◌>>◌}

-- `createJob`
unfoldable pub create_job :
    (tenant_id : String) (type : JobType) (actor_id schedule_id : Option String) (params : Json)
    → Io Job
create_job tenant_id type actor_id schedule_id params = call (
    job_create (record {
      tenant_id = tenant_id;
      type = type;
      actor_id = actor_id;
      schedule_id = schedule_id;
      params = params;
      status = queued;
    }))

abbrev pub status_text : JobStatus → String
status_text queued = "queued"
status_text running = "running"
status_text done = "done"
status_text failed = "failed"
status_text cancelled = "cancelled"

abbrev level_of : JobStatus → String
level_of failed = "error"
level_of _ = "info"

abbrev error_of : JobStatus → Option String → Option String
error_of failed message = message
error_of _ message = none

-- `emit`
unfoldable pub emit :
    (job_id : String) → JobStatus → Option ℕ → Option String → Option Json → Io (Unit {0})
emit job_id status progress message result = do
  call (job_event_create job_id (level_of status) (message otherwise status_text status) progress)
  call (
      publish ("job:" <> job_id) (record {
        job_id = job_id;
        status = status_text status;
        progress = progress otherwise 0;
        message = message;
        result = result;
        error = error_of status message;
      }))

-- An update that sets nothing; each operation sets some of its fields.
abbrev no_change : JobPatch
no_change = record {
  status = none;
  progress = none;
  started_at = none;
  finished_at = none;
  result = none;
  error = none;
}

-- `markRunning`
unfoldable pub mark_running : (job_id : String) → Io (Unit {0})
mark_running job_id = do
  time ← call now
  call (
      job_update job_id
        (record no_change { status = some running; started_at = some time; progress = some 0 }))
  emit job_id running (some 0) (some "Job started") none

-- `Math.max(0, Math.min(100, Math.round(progress)))` of an integer, which `Math.round` leaves.
unfoldable pub clamp : ℤ → ℕ
clamp (pos n) = if ltb 100 n then 100 else n
clamp (negsuc n) = 0

-- `updateProgress`
unfoldable pub update_progress : (job_id : String) → ℤ → Option String → Io (Unit {0})
update_progress job_id progress message = do
  let clamped = clamp progress
  call (job_update job_id (record no_change { progress = some clamped }))
  emit job_id running (some clamped) message none

-- `markDone`
unfoldable pub mark_done : (job_id : String) → Option Json → Io (Unit {0})
mark_done job_id result = do
  time ← call now
  call (
      job_update job_id (record no_change {
        status = some done;
        progress = some 100;
        finished_at = some time;
        result = some (result otherwise object []);
      }))
  emit job_id done (some 100) (some "Completed") result

-- `markFailed`
unfoldable pub mark_failed : (job_id error : String) → Io (Unit {0})
mark_failed job_id error = do
  time ← call now
  call (
      job_update job_id (record no_change {
        status = some failed;
        finished_at = some time;
        error = some (take_chars 2000 error);
      }))
  emit job_id failed none (some error) none
