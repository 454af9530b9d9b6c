-- ===== src/Worker/Settled.antt =====
-- How every processor of the worker ends: the status of its job, and its adapters.
use db_backup_tool.Base.{String, ◌∷◌, ◌≡◌, refl, sym, subst, ◌⊎◌, inl, inr}
use db_backup_tool.Errors.{Err, Result, ok, err}
use db_backup_tool.Model.{JobStatus, done, failed}
use db_backup_tool.Effects.{adapter_close}
use db_backup_tool.Effects.Inputs.{Adapter}
use db_backup_tool.Effects.Io.{
  Env, History, Io, call, gave, ◌>>=◌, try_catch, try_finally, attempt, lift, recover,
}
use db_backup_tool.Effects.Logic.{Ensures, Ensures-bind}
use db_backup_tool.Audit.{AuditEntry}
use db_backup_tool.Worker.{failing, guarded_by}
use db_backup_tool.Worker.Clones.{close_both}
use db_backup_tool.Worker.Status.{StatusIs, IsReliable, Any}
use db_backup_tool.Worker.Outcome.{Ends, failing-StatusIs}

-- The last call closed an adapter, and threw `e`.
abbrev pub CloseThrew : Err → History → Type 0
CloseThrew e h = (a : Adapter) × (before : History) × (h ≡ gave (adapter_close a) (err e) ∷ before)

-- A processor that returned has left its job done. One that threw has left it failed, or the closing
-- of an adapter is what threw.
abbrev pub Settles : String → Result (Unit {0}) → History → Type 0
Settles job (ok u) h = StatusIs job done h
Settles job (err e) h = StatusIs job failed h ⊎ CloseThrew e h

abbrev Outcome : String → Result (Unit {0}) → History → Type 0
Outcome job (ok u) h = StatusIs job done h
Outcome job (err e) h = StatusIs job failed h

abbrev Closes : String → JobStatus → Result (Unit {0}) → History → Type 0
Closes job s (ok u) h = StatusIs job s h
Closes job s (err e) h = CloseThrew e h

module _ (env : Env) (job : String) where
  recover-Outcome :
      (r : Result (Unit {0})) (handle : Err → Io (Unit {0})) (h : History)
      → Ends job done r h
      → ((e : Err) → Ensures env Any (handle e) (λ r h. (x : Err) × (r ≡ err x)))
      → ((e : Err) → Ensures env Any (handle e) (λ r h. StatusIs job failed h))
      → Outcome job (recover r handle env h).0 (recover r handle env h).1
  recover-Outcome (ok u) handle h p throws fails = p
  recover-Outcome (err e) handle h p throws fails =
      let (x, thrown) = (throws e).at h tt in
      subst (λ r. Outcome job r (handle e env h).1) (sym thrown) ((fails e).at h tt)

  finally-Settles :
      (r : Result (Unit {0})) (close : Io (Unit {0}))
      → ((s : JobStatus) → Ensures env (StatusIs job s) close (Closes job s))
      → Ensures env (Outcome job r) (close >>= λ u. lift r) (Settles job)
  finally-Settles (ok u) close k =
      Ensures-bind (Closes job done) close _ (k done) (λ u. record { at = λ h p. p })
        (λ e h p. inr p)
  finally-Settles (err e) close k =
      Ensures-bind (Closes job failed) close _ (k failed) (λ u. record { at = λ h p. inl p })
        (λ x h p. inr p)

  throws-late :
      {A : Type 0} (m : Io A) (f : A → Io (Unit {0}))
      → ((a : A) → Ensures env Any (f a) (λ r h. (x : Err) × (r ≡ err x)))
      → Ensures env Any (m >>= f) (λ r h. (x : Err) × (r ≡ err x))
  throws-late m f k =
      Ensures-bind (λ r h. Any h) m f (record { at = λ h p. tt }) k (λ e h p. (e, refl))

  failing-throws :
      (entry : Err → AuditEntry) (summary : Err → String) (e : Err)
      → Ensures env Any (failing job entry summary e) (λ r h. (x : Err) × (r ≡ err x))
  unfolding failing
  failing-throws entry summary e =
      throws-late _ _
        (λ u. throws-late _ _ (λ u. throws-late _ _ (λ u. record { at = λ h p. (e, refl) })))

  closed :
      (a : Adapter) (s : JobStatus) (r : Result (Unit {0})) (h : History)
      → StatusIs job s h
      → Closes job s r (gave (adapter_close a) r ∷ h)
  closed a s (ok u) h p = p
  closed a s (err e) h p = (a, h, refl)

  pub close-Closes :
      (a : Adapter) (s : JobStatus)
      → Ensures env (StatusIs job s) (call (adapter_close a)) (Closes job s)
  close-Closes a s = record { at = λ h p. closed a s (env.answer h (adapter_close a)) h p }

  pub close_both-Closes :
      (a b : Adapter) (s : JobStatus) → Ensures env (StatusIs job s) (close_both a b) (Closes job s)
  unfolding close_both
  close_both-Closes a b s =
      Ensures-bind (Closes job s) (call (adapter_close a)) _ (close-Closes a s)
        (λ u. close-Closes b s) (λ e h p. p)

abbrev Attempted : String → Result (Result (Unit {0})) → History → Type 0
Attempted job (ok r) h = Outcome job r h
Attempted job (err e) h = Settles job (err e) h

module _ (env : Env) (job : String) (reliable : IsReliable env job) where
  pub guarded_by-Settles :
      (body : Io (Unit {0})) (entry : Err → AuditEntry) (summary : Err → String)
      (close : Io (Unit {0}))
      → Ensures env Any body (Ends job done)
      → ((s : JobStatus) → Ensures env (StatusIs job s) close (Closes job s))
      → Ensures env Any (guarded_by body (failing job entry summary) close) (Settles job)
  unfolding guarded_by try_finally try_catch attempt
  guarded_by-Settles body entry summary close k kc =
      Ensures-bind (Attempted job) (attempt (try_catch body (failing job entry summary))) _
        (record {
          at = λ h p.
              recover-Outcome env job (body env h).0 (failing job entry summary) (body env h).1
                (k.at h p) (failing-throws env job entry summary)
                (failing-StatusIs env job reliable entry summary);
        })
        (λ r. finally-Settles env job r close kc) (λ e h p. p)
