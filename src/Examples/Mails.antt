-- ===== src/Examples/Mails.antt =====
-- A notification at a concrete input.
use db_backup_tool.Base.{[], ◌∷◌, ◌≡◌, refl}
use db_backup_tool.Errors.{Result, ok, err, foreign}
use db_backup_tool.Base.{Option}
use db_backup_tool.Model.{Notification, inapp, sent, NotificationStatus}
use db_backup_tool.Effects.{Call, Reply, notification_create, notification_set_status}
use db_backup_tool.Effects.Io.{Env, History, gave, ◌>>=◌}
use db_backup_tool.Examples.World.{world}
use db_backup_tool.Effects.Happened.{Happened}
use db_backup_tool.Notifications.{notify_user, send_on}
use db_backup_tool.Notifications.Delivered.{Closed, pending_note, notify_user-Closed}

abbrev note : Notification
note = record {
  id = "n1";
  user_id = "u1";
  channel = inapp;
  subject = "backup completed";
  body = "done";
  status = NotificationStatus.pending;
}

abbrev reply_to : History → (c : Call) → Result (Reply c)
reply_to h (notification_create d) = ok note
reply_to h (notification_set_status id s) = ok tt
reply_to h c = err (foreign "Error" Option.none "down")

abbrev office : Env
office = record world { answer = reply_to }

abbrev after : History
after =
    gave (notification_set_status "n1" sent) (ok tt)
    ∷ gave
        (notification_create (record {
          user_id = "u1";
          subject = "backup completed";
          body = "done";
          channel = inapp;
          status = NotificationStatus.pending;
        }))
        (ok note)
    ∷ []

notified : notify_user "u1" "backup completed" "done" inapp office [] ≡ (ok tt, after)
unfolding notify_user send_on ◌>>=◌
notified = refl

notify_user-Closed_example :
    (created : Notification) × Happened
      (gave (notification_create (pending_note "u1" "backup completed" "done" inapp)) (ok created))
      after
    × Closed created.id after
notify_user-Closed_example =
    notify_user-Closed office [] "u1" "backup completed" "done" inapp after notified
