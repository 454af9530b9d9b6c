-- ===== src/Worker/Status.antt =====
-- The status that the updates of a job leave it with.
use db_backup_tool.Base.{
  ℕ, String, ◌==◌, Option, none, some, or_else, if◌then◌else◌, [], ◌∷◌, ◌≡◌, Bool, true, false,
}
use db_backup_tool.Errors.{Result, ok}
use db_backup_tool.Model.{JobStatus, Channel, email, webhook, inapp, User, Job}
use db_backup_tool.Effects.{Call, Reply, job_update, now}
use db_backup_tool.Effects.Inputs.{JobPatch}
use db_backup_tool.Effects.Io.{Env, History}
use db_backup_tool.Effects.Logic.{keeps_rules, Keeps}
use db_backup_tool.Jobs.{emit}
use db_backup_tool.Audit.{AuditEntry, audit, append_entry}
use db_backup_tool.Notifications.{
  deliver_to, deliver, notify_job_outcome, notify_actor, notify_user, send_on,
}
use db_backup_tool.Worker.{completed}

abbrev status_set : String → (c : Call) → Result (Reply c) → Option JobStatus
status_set job (job_update id patch) (ok u) = if id == job then patch.status else none
status_set job _ r = none

-- The status of the latest update of the job that set one.
abbrev pub status_in : (job_id : String) → History → Option JobStatus
status_in job [] = none
status_in job (e ∷ h) = or_else (status_set job e.request e.reply) (status_in job h)

abbrev pub StatusIs : String → JobStatus → History → Type 0
StatusIs job s h = status_in job h ≡ some s

-- The database takes an update of the job, and the clock can be read.
pub record IsReliable (env : Env) (job_id : String) : Type 0 where
  pub updates : (h : History) (patch : JobPatch) → env.answer h (job_update job_id patch) ≡ ok tt
  pub clock : (h : History) → (time : ℕ) × (env.answer h now ≡ ok time)

abbrev pub Any : History → Type 0
Any h = Unit

module _ (env : Env) (job : String) (s : JobStatus) where
  pub emit-StatusIs :
      (id : String) (status : JobStatus) (progress : _) (message : _) (result : _)
      → Keeps env (StatusIs job s) (emit id status progress message result)
  unfolding emit
  emit-StatusIs id status progress message result = search keeps_rules

  pub audit-StatusIs : (entry : AuditEntry) → Keeps env (StatusIs job s) (audit entry)
  unfolding audit append_entry
  audit-StatusIs entry = search keeps_rules

  deliver_to-StatusIs :
      (id subject body : String) (user : Option User) (configured : Bool)
      → Keeps env (StatusIs job s) (deliver_to id subject body user configured)
  unfolding deliver_to deliver
  deliver_to-StatusIs id subject body none configured = search keeps_rules
  deliver_to-StatusIs id subject body (some user) true = search keeps_rules
  deliver_to-StatusIs id subject body (some user) false = search keeps_rules

  send_on-StatusIs :
      (channel : Channel) (user_id id subject body : String)
      → Keeps env (StatusIs job s) (send_on channel user_id id subject body)
  unfolding send_on
  send_on-StatusIs email user_id id subject body = search (keeps_rules, deliver_to-StatusIs)
  send_on-StatusIs webhook user_id id subject body = search keeps_rules
  send_on-StatusIs inapp user_id id subject body = search keeps_rules

  notify_actor-StatusIs :
      (row : Option Job) (actor : Option String) (completed : Bool) (summary : String)
      → Keeps env (StatusIs job s) (notify_actor row actor completed summary)
  unfolding notify_actor notify_user
  notify_actor-StatusIs none actor completed summary = search keeps_rules
  notify_actor-StatusIs (some row) none completed summary = search keeps_rules
  notify_actor-StatusIs (some row) (some actor) completed summary =
      search (keeps_rules, send_on-StatusIs)

  pub notify-StatusIs :
      (id : String) (completed : Bool) (summary : String)
      → Keeps env (StatusIs job s) (notify_job_outcome id completed summary)
  unfolding notify_job_outcome
  notify-StatusIs id completed summary = search (keeps_rules, notify_actor-StatusIs)
