-- ===== src/Worker/Outcome.antt =====
-- How a processor leaves its job: the rules for the `try`, `catch` and `finally` blocks.
use db_backup_tool.Base.{ℕ, String, Option, some, ◌∷◌, ◌≡◌, refl, eq_iff}
use db_backup_tool.Base.Json.{Json}
use db_backup_tool.Errors.{Err, Result, ok, err, message_of}
use db_backup_tool.Model.{JobStatus, done, failed}
use db_backup_tool.Effects.{job_update, now}
use db_backup_tool.Effects.Inputs.{JobPatch}
use db_backup_tool.Effects.Io.{Env, History, Io, call, gave, ◌>>=◌, continue}
use db_backup_tool.Effects.Logic.{keeps_rules, Ensures, Keeps, Ensures-bind}
use db_backup_tool.Jobs.{mark_done, mark_failed}
use db_backup_tool.Audit.{AuditEntry}
use db_backup_tool.Worker.{completed, failing}
use db_backup_tool.Worker.Status.{
  StatusIs, IsReliable, Any, emit-StatusIs, audit-StatusIs, notify-StatusIs,
}

abbrev pub Ends : {A : Type 0} → String → JobStatus → Result A → History → Type 0
Ends job s (ok a) h = StatusIs job s h
Ends job s (err e) h = Unit

module _ (env : Env) (job : String) where
  pub Ends-late :
      {A B : Type 0} {s : JobStatus} (m : Io A) (f : A → Io B)
      → ((a : A) → Ensures env Any (f a) (Ends job s))
      → Ensures env Any (m >>= f) (Ends job s)
  Ends-late m f k = Ensures-bind (λ r h. Any h) m f (record { at = λ h p. tt }) k (λ e h p. tt)

  Ends-after :
      {B : Type 0} {s : JobStatus} (r : Result B) (h : History) → StatusIs job s h → Ends job s r h
  Ends-after (ok b) h p = p
  Ends-after (err e) h p = tt

  pub Ends-early :
      {A B : Type 0} {s : JobStatus} (m : Io A) (f : A → Io B)
      → Ensures env Any m (Ends job s)
      → ((a : A) → Keeps env (StatusIs job s) (f a))
      → Ensures env Any (m >>= f) (Ends job s)
  Ends-early {s = s} m f k kf =
      Ensures-bind (Ends job s) m f k
        (λ a. record { at = λ h p. Ends-after (f a env h).0 (f a env h).1 ((kf a).at h p) })
        (λ e h p. tt)

  updated :
      (s : JobStatus) (r : Result (Unit {0})) (patch : JobPatch) (h : History)
      → patch.status ≡ some s
      → Ends job s r (gave (job_update job patch) r ∷ h)
  updated s (ok u) patch h e = rw ((eq_iff job job).1 refl) (rw e refl)
  updated s (err x) patch h e = tt

  pub Ends-update :
      {s : JobStatus} (patch : JobPatch)
      → patch.status ≡ some s
      → Ensures env Any (call (job_update job patch)) (Ends job s)
  Ends-update {s} patch e = record {
    at = λ h p. updated s (env.answer h (job_update job patch)) patch h e;
  }

  mark_done-Ends : (result : Option Json) → Ensures env Any (mark_done job result) (Ends job done)
  unfolding mark_done
  mark_done-Ends result = search (Ends-late, Ends-early, Ends-update, emit-StatusIs)

  -- The end of the `try` block.
  pub completed-Ends :
      (result : Json) (entry : AuditEntry) (summary : String)
      → Ensures env Any (completed job result entry summary) (Ends job done)
  unfolding completed
  completed-Ends result entry summary =
      search (Ends-early, mark_done-Ends, keeps_rules, audit-StatusIs, notify-StatusIs)

-- With a reliable database, the status of a job is set however its marking ends.
module _ (env : Env) (job : String) (reliable : IsReliable env job) where
  continued-StatusIs :
      (s : JobStatus) (r : Result (Unit {0})) (patch : JobPatch) (f : Unit {0} → Io (Unit {0}))
      (h : History)
      → r ≡ ok tt
      → patch.status ≡ some s
      → ((u : Unit {0}) → Keeps env (StatusIs job s) (f u))
      → StatusIs job s (continue r f env (gave (job_update job patch) r ∷ h)).1
  continued-StatusIs s (ok u) patch f h taken e k =
      (k u).at (gave (job_update job patch) (ok u) ∷ h) (updated env job s (ok u) patch h e)
  continued-StatusIs s (err x) patch f h taken e k = cc

  set-StatusIs :
      {s : JobStatus} (patch : JobPatch) (f : Unit {0} → Io (Unit {0}))
      → patch.status ≡ some s
      → ((u : Unit {0}) → Keeps env (StatusIs job s) (f u))
      → Ensures env Any (call (job_update job patch) >>= f) (λ r h. StatusIs job s h)
  unfolding ◌>>=◌
  set-StatusIs {s} patch f e k = record {
    at = λ h p.
        continued-StatusIs s (env.answer h (job_update job patch)) patch f h
          (reliable.updates h patch) e k;
  }

  timed-StatusIs :
      {s : JobStatus} (f : ℕ → Io (Unit {0}))
      → ((time : ℕ) → Ensures env Any (f time) (λ r h. StatusIs job s h))
      → Ensures env Any (call now >>= f) (λ r h. StatusIs job s h)
  timed-StatusIs f k =
      Ensures-bind (λ r h. (time : ℕ) × (r ≡ ok time)) (call now) f
        (record { at = λ h p. reliable.clock h }) (λ time. record { at = λ h p. (k time).at h tt })
        (λ e h p. cc (p.1))

  mark_failed-StatusIs :
      (error : String) → Ensures env Any (mark_failed job error) (λ r h. StatusIs job failed h)
  unfolding mark_failed
  mark_failed-StatusIs error = search (timed-StatusIs, set-StatusIs, emit-StatusIs)

  -- Every `catch` block.
  pub failing-StatusIs :
      (entry : Err → AuditEntry) (summary : Err → String) (e : Err)
      → Ensures env Any (failing job entry summary e) (λ r h. StatusIs job failed h)
  unfolding failing
  failing-StatusIs entry summary e =
      Ensures-bind (λ r h. StatusIs job failed h) (mark_failed job (message_of e)) _
        (mark_failed-StatusIs (message_of e))
        (λ u. search (keeps_rules, audit-StatusIs, notify-StatusIs)) (λ x h p. p)
