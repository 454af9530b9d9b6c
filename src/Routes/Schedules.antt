-- ===== src/Routes/Schedules.antt =====
-- src/api/routes/schedules.routes.ts.
use db_backup_tool.Base.{String, ◌<>◌, none, some, [], ◌∷◌}
use db_backup_tool.Base.Json.{object, str}
use db_backup_tool.Errors.{not_found}
use db_backup_tool.Model.{Schedule}
use db_backup_tool.Effects.{schedule_find_first, schedule_create, schedule_update, schedule_delete}
use db_backup_tool.Effects.Inputs.{ScheduleInput, SchedulePatch}
use db_backup_tool.Effects.Io.{Io, call, pure, when, found_or, ◌>>=◌, ◌>>◌}
use db_backup_tool.Auth.{AuthContext}
use db_backup_tool.Audit.{audit}
use db_backup_tool.Scheduler.Triggers.{like, register_schedule, remove_schedule}
use db_backup_tool.Routes.{Response, Parsed, parse_body, by, find_server}

-- POST /schedules
unfoldable pub create : AuthContext → Parsed ScheduleInput → Io (Response Schedule)
create auth body = do
  input ← parse_body body
  server ← find_server auth.tenant_id input.server_id "Server not found"
  schedule ← call (schedule_create auth.tenant_id input)
  when schedule.enabled (register_schedule (like schedule))
  audit (
      by auth "schedule.created" (some ("schedule:" <> schedule.id))
        (some (object (("cron", str input.cron) ∷ ("database", str input.database) ∷ []))))
  pure (record { status = 201; body = schedule })

unfoldable pub find_schedule : (tenant_id id : String) → Io Schedule
find_schedule tenant_id id = do
  existing ← call (schedule_find_first id tenant_id)
  found_or (not_found "Schedule not found") existing

-- PATCH /schedules/:id
unfoldable pub update : AuthContext → (id : String) → Parsed SchedulePatch → Io (Response Schedule)
update auth id body = do
  input ← parse_body body
  existing ← find_schedule auth.tenant_id id
  schedule ← call (schedule_update existing.id input)
  remove_schedule (like existing)
  when schedule.enabled (register_schedule (like schedule))
  audit (by auth "schedule.updated" (some ("schedule:" <> schedule.id)) none)
  pure (record { status = 200; body = schedule })

-- DELETE /schedules/:id
unfoldable pub delete : AuthContext → (id : String) → Io (Response (Unit {0}))
delete auth id = do
  existing ← find_schedule auth.tenant_id id
  remove_schedule (like existing)
  call (schedule_delete existing.id)
  audit (by auth "schedule.deleted" (some ("schedule:" <> existing.id)) none)
  pure (record { status = 204; body = tt })
