-- ===== src/Notifications/Delivered.antt =====
-- What is left of a notification.
use db_backup_tool.Base.{
  String, Bool, true, false, Option, none, some, ◌≡◌, refl, ap, subst, ◌∷◌, ◌⊎◌, inl, inr,
}
use db_backup_tool.Errors.{Result, ok, err}
use db_backup_tool.Model.{
  User, Channel, email, webhook, inapp, NotificationStatus, sent, Notification,
}
use db_backup_tool.Effects.{
  notification_set_status, user_find_unique, send_mail, notification_create,
}
use db_backup_tool.Effects.Inputs.{NotificationInput}
use db_backup_tool.Effects.Logic.{Keeps, Keeps-asked, keeps_rules}
use db_backup_tool.Effects.Happened.{Happened, kept, answered}
use db_backup_tool.Effects.Io.{Env, Event, History, gave, call, asks, ◌>>◌, try_catch, recover}
use db_backup_tool.Effects.Invert.{bind-ok, call-ok}
use db_backup_tool.Notifications.{deliver, deliver_to, send_on, notify_user}

-- The last call set the status of the notification to sent or failed.
abbrev pub Closed : (id : String) → History → Type 0
Closed id h =
    (s : NotificationStatus) × (before : History) × ((s ≡ sent) ⊎ (s ≡ NotificationStatus.failed))
    × (h ≡ gave (notification_set_status id s) (ok tt) ∷ before)

module _ (env : Env) (id : String) where
  set-Closed :
      (s : NotificationStatus) (h : History) {u : Unit {0}} {h' : History}
      → (s ≡ sent) ⊎ (s ≡ NotificationStatus.failed)
      → call (notification_set_status id s) env h ≡ (ok u, h')
      → Closed id h'
  set-Closed s h p e = (s, h, p, (call-ok (notification_set_status id s) env h e).1)

  recover-Closed :
      (r : Result (Unit {0})) (h : History) {u : Unit {0}} {h' : History}
      → (r ≡ ok tt → Closed id h)
      → recover r (λ e. call (notification_set_status id NotificationStatus.failed)) env h
        ≡ (ok u, h')
      → Closed id h'
  recover-Closed (ok v) h k e = subst (Closed id) (ap (λ p. p.1) e) (k refl)
  recover-Closed (err x) h k e = set-Closed NotificationStatus.failed h (inr refl) e

  deliver-Closed :
      (to subject body : String) (h : History) {u : Unit {0}} {h' : History}
      → deliver id to subject body env h ≡ (ok u, h')
      → Closed id h'
  unfolding deliver try_catch
  deliver-Closed to subject body h e =
      let mail = call (send_mail (record { to = to; subject = subject; text = body })) in
      let set = call (notification_set_status id sent) in
      recover-Closed ((mail >> set) env h).0 ((mail >> set) env h).1
        (λ r.
          let (u, mid, mailed, last) =
            bind-ok mail (λ u. set) env h (λ i. (r i, ((mail >> set) env h).1)) in
          set-Closed sent mid (inl refl) last)
        e

  deliver_to-Closed :
      (subject body : String) (user : Option User) (configured : Bool) (h : History) {u : Unit {0}}
      {h' : History}
      → deliver_to id subject body user configured env h ≡ (ok u, h')
      → Closed id h'
  unfolding deliver_to
  deliver_to-Closed subject body none configured h e = set-Closed sent h (inl refl) e
  deliver_to-Closed subject body (some user) true h e = deliver-Closed user.email subject body h e
  deliver_to-Closed subject body (some user) false h e = set-Closed sent h (inl refl) e

  send_on-Closed :
      (channel : Channel) (user_id subject body : String) (h : History) {u : Unit {0}}
      {h' : History}
      → send_on channel user_id id subject body env h ≡ (ok u, h')
      → Closed id h'
  unfolding send_on
  send_on-Closed email user_id subject body h e =
      let (user, h₁, found, rest) = bind-ok (call (user_find_unique user_id)) _ env h e in
      let (configured, h₂, read, last) = bind-ok (asks (λ v. v.smtp_configured)) _ env h₁ rest in
      deliver_to-Closed subject body user configured h₂ last
  send_on-Closed webhook user_id subject body h e = set-Closed sent h (inl refl) e
  send_on-Closed inapp user_id subject body h e = set-Closed sent h (inl refl) e

-- What `notifyUser` creates.
abbrev pub pending_note : (user_id subject body : String) → Channel → NotificationInput
pending_note user_id subject body channel = record {
  user_id = user_id;
  subject = subject;
  body = body;
  channel = channel;
  status = NotificationStatus.pending;
}

deliver_to-Happened :
    (env : Env) (x : Event) (id subject body : String) (user : Option User) (configured : Bool)
    → Keeps env (Happened x) (deliver_to id subject body user configured)
unfolding deliver_to deliver
deliver_to-Happened env x id subject body none configured = search (keeps_rules, inr)
deliver_to-Happened env x id subject body (some user) true = search (keeps_rules, inr)
deliver_to-Happened env x id subject body (some user) false = search (keeps_rules, inr)

send_on-Happened :
    (env : Env) (x : Event) (channel : Channel) (user_id id subject body : String)
    → Keeps env (Happened x) (send_on channel user_id id subject body)
unfolding send_on
send_on-Happened env x email user_id id subject body =
    search (deliver_to-Happened, Keeps-asked, keeps_rules, inr)
send_on-Happened env x webhook user_id id subject body = search (keeps_rules, inr)
send_on-Happened env x inapp user_id id subject body = search (keeps_rules, inr)

-- Where `notifyUser` returns, it has created a pending notification of the user with the subject and
-- the text that it was given, and its last call has set the notification that was created to sent or
-- failed: none is left pending.
pub notify_user-Closed :
    (env : Env) (h : History) (user_id subject body : String) (channel : Channel) (h' : History)
    → notify_user user_id subject body channel env h ≡ (ok tt, h')
    → (created : Notification) × Happened
        (gave (notification_create (pending_note user_id subject body channel)) (ok created))
        h'
      × Closed created.id h'
unfolding notify_user
notify_user-Closed env h user_id subject body channel h' e =
    let create = notification_create (pending_note user_id subject body channel) in
    let (created, mid, made, rest) = bind-ok (call create) _ env h e in
    (
      created,
      kept env (Happened (gave create (ok created)))
          (send_on channel user_id created.id subject body) mid
          (send_on-Happened env _ channel user_id created.id subject body) rest
          (answered create env h made),
      send_on-Closed env created.id channel user_id subject body mid rest,
    )
