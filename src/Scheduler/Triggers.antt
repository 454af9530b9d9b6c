-- ===== src/Scheduler/Triggers.antt =====
-- src/scheduler/scheduleManager.ts, src/scheduler/scheduleProcessor.ts and src/scheduler.ts.
use db_backup_tool.Base.{String, ◌<>◌, Bool, true, false, Option, none, some, [], ◌∷◌}
use db_backup_tool.Base.Json.{object, str, bool}
use db_backup_tool.Model.{Schedule, JobType}
use db_backup_tool.Effects.{
  queue_add, queue_remove_repeatable, schedule_find_unique, schedule_find_enabled, schedule_touch,
  now,
}
use db_backup_tool.Effects.Inputs.{QueueName, trigger_data, backup_data}
use db_backup_tool.Effects.Io.{Io, call, pure, try_catch, for_each, ◌>>=◌, ◌>>◌}
use db_backup_tool.Queue.{enqueue, job_id_option}
use db_backup_tool.Jobs.{create_job}
use db_backup_tool.Audit.{audit}
use db_backup_tool.Scheduler.Retention.{enforce_retention}

-- `ScheduleLike`
pub record ScheduleLike : Type 0 where
  pub id : String
  pub tenant_id : String
  pub cron : String

abbrev pub like : Schedule → ScheduleLike
like s = record { id = s.id; tenant_id = s.tenant_id; cron = s.cron }

abbrev repeat_job_name : String
repeat_job_name = "trigger"

abbrev pub repeat_key : (schedule_id : String) → String
repeat_key schedule_id = "sched-" <> schedule_id

-- `safeRemove`: a failure is taken for a job that is not there.
unfoldable pub safe_remove : ScheduleLike → Io (Unit {0})
safe_remove schedule =
    try_catch
      (call (
        queue_remove_repeatable QueueName.schedule repeat_job_name schedule.cron
          (repeat_key schedule.id)))
      (λ e. pure tt)

-- `registerSchedule`
unfoldable pub register_schedule : ScheduleLike → Io (Unit {0})
unfolding safe_remove
register_schedule schedule = do
  safe_remove schedule
  added ← call (
      queue_add QueueName.schedule repeat_job_name
        (trigger_data (record { schedule_id = schedule.id; tenant_id = schedule.tenant_id }))
        (record {
          job_id = some (repeat_key schedule.id);
          delay = none;
          repeat_pattern = some schedule.cron;
        }))
  pure tt

-- `removeSchedule`
unfoldable pub remove_schedule : ScheduleLike → Io (Unit {0})
unfolding safe_remove
remove_schedule schedule = safe_remove schedule

-- `syncSchedules`
unfoldable pub sync_schedules : Io (Unit {0})
unfolding register_schedule for_each
sync_schedules = do
  schedules ← call schedule_find_enabled
  for_each schedules (λ s. register_schedule (like s))

-- The part of `scheduleProcessor` behind its guard.
unfoldable pub trigger : Schedule → Io (Unit {0})
trigger schedule = do
  job ← create_job schedule.tenant_id JobType.backup none (some schedule.id) (
      object (
        ("serverId", str schedule.server_id)
        ∷ ("database", str schedule.database)
        ∷ ("scheduled", bool true)
        ∷ []))
  added ←
      enqueue QueueName.backup
        (backup_data (record {
          job_id = job.id;
          tenant_id = schedule.tenant_id;
          server_id = schedule.server_id;
          database = schedule.database;
        }))
        (some (job_id_option job.id))
  time ← call now
  call (schedule_touch schedule.id time)
  audit (record {
    tenant_id = schedule.tenant_id;
    actor_id = none;
    actor_email = none;
    action = "schedule.triggered";
    target = some ("schedule:" <> schedule.id);
    meta = some (object (("jobId", str job.id) ∷ ("database", str schedule.database) ∷ []));
    ip = none;
  })
  removed ←
      enforce_retention schedule.tenant_id schedule.server_id schedule.database schedule.retention
  pure tt

abbrev when_enabled : Bool → Schedule → Io (Unit {0})
when_enabled true schedule = trigger schedule
when_enabled false schedule = pure tt

abbrev when_found : Option Schedule → Io (Unit {0})
when_found none = pure tt
when_found (some schedule) = when_enabled schedule.enabled schedule

-- `scheduleProcessor`
unfoldable pub schedule_processor : (schedule_id : String) → Io (Unit {0})
schedule_processor schedule_id = do
  found ← call (schedule_find_unique schedule_id)
  when_found found
