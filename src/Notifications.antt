-- ===== src/Notifications.antt =====
-- src/modules/notifications/notificationService.ts: in-app and e-mail notifications.
pub mod Delivered
use db_backup_tool.Base.{String, ◌<>◌, Bool, true, Option, none, some, if◌then◌else◌}
use db_backup_tool.Model.{
  User, Job, JobType, backup, restore, «export», «import», clone, Channel, email, inapp,
  NotificationStatus, sent,
}
use db_backup_tool.Effects.{
  notification_create, notification_set_status, user_find_unique, send_mail, job_find_unique,
}
use db_backup_tool.Effects.Io.{Io, call, asks, pure, try_catch, ◌>>=◌, ◌>>◌}

-- The mail with the statuses that follow it.
unfoldable pub deliver : (notification_id to subject body : String) → Io (Unit {0})
deliver notification_id to subject body =
    try_catch
      (call (send_mail (record { to = to; subject = subject; text = body }))
        >> call (notification_set_status notification_id sent))
      (λ e. call (notification_set_status notification_id NotificationStatus.failed))

-- `if (user && tx)`
unfoldable pub deliver_to :
    (notification_id subject body : String) → Option User → (configured : Bool) → Io (Unit {0})
deliver_to notification_id subject body (some user) true =
    deliver notification_id user.email subject body
deliver_to notification_id subject body _ _ = call (notification_set_status notification_id sent)

unfoldable pub send_on : Channel → (user_id notification_id subject body : String) → Io (Unit {0})
send_on email user_id notification_id subject body = do
  user ← call (user_find_unique user_id)
  configured ← asks (λ env. env.smtp_configured)
  deliver_to notification_id subject body user configured
send_on _ user_id notification_id subject body = call (notification_set_status notification_id sent)

-- `notifyUser`, its channel given.
unfoldable pub notify_user : (user_id subject body : String) → Channel → Io (Unit {0})
notify_user user_id subject body channel = do
  notification ← call (
      notification_create (record {
        user_id = user_id;
        subject = subject;
        body = body;
        channel = channel;
        status = NotificationStatus.pending;
      }))
  send_on channel user_id notification.id subject body

abbrev pub type_text : JobType → String
type_text backup = "backup"
type_text restore = "restore"
type_text «export» = "export"
type_text «import» = "import"
type_text clone = "clone"

abbrev actor_of : Option Job → Option String
actor_of none = none
actor_of (some job) = job.actor_id

unfoldable pub notify_actor :
    Option Job → Option String → (completed : Bool) → (summary : String) → Io (Unit {0})
notify_actor (some job) (some actor_id) completed summary =
    notify_user actor_id
      (type_text job.type <> " " <> (if completed then "completed" else "failed")) summary inapp
notify_actor _ _ completed summary = pure tt

-- `notifyJobOutcome`
unfoldable pub notify_job_outcome : (job_id : String) → Bool → (summary : String) → Io (Unit {0})
notify_job_outcome job_id completed summary = do
  job ← call (job_find_unique job_id)
  notify_actor job (actor_of job) completed summary
