-- ===== src/Worker/Closing.antt =====
-- The adapters of a processor, closed or never obtained.
use db_backup_tool.Base.{String, List, [], ◌∷◌, ◌≡◌, refl, sym, ap, ◌∙◌, some, none, Option}
use db_backup_tool.Errors.{Err, Result, ok, err}
use db_backup_tool.Model.{JobStatus}
use db_backup_tool.Effects.{adapter_close}
use db_backup_tool.Effects.Inputs.{Adapter}
use db_backup_tool.Effects.Io.{
  Env, History, Io, call, gave, pure, ◌>>=◌, try_catch, try_finally, attempt, lift, continue,
}
use db_backup_tool.Effects.Logic.{Keeps-bind, Keeps-pure, keeps_rules, Ensures, Keeps, Ensures-bind}
use db_backup_tool.Worker.{guarded_by}
use db_backup_tool.Worker.Backups.{backup_processor, restore_processor}
use db_backup_tool.Worker.Clones.{close_both, clone_processor}
use db_backup_tool.Worker.Exports.{export_processor}
use db_backup_tool.Worker.Imports.{import_processor}
use db_backup_tool.Worker.Dispatch.{
  WorkerJob, backup, restore, «export», «import», clone, processors, opened, open_one,
}
use db_backup_tool.Servers.{get_adapter, get_connection_info, connection_of}
use db_backup_tool.Model.{DbServer, Credential}
use db_backup_tool.Worker.Status.{status_in, Any}
use db_backup_tool.Worker.Processors.{after_one, after_two}

-- The calls that close some adapters one after the other, between two histories, with what they
-- give: the first that throws is the last, and the adapters behind it are not closed.
pub data ClosedFrom : List Adapter → Result (Unit {0}) → (before after : History) → Type 0 where
  all_closed : (h : History) → ClosedFrom [] (ok tt) h h
  closed :
      (a : Adapter) (more : List Adapter) (c : Result (Unit {0})) (h h' : History)
      → ClosedFrom more c (gave (adapter_close a) (ok tt) ∷ h) h'
      → ClosedFrom (a ∷ more) c h h'
  threw :
      (a : Adapter) (more : List Adapter) (e : Err) (h : History)
      → ClosedFrom (a ∷ more) (err e) h (gave (adapter_close a) (err e) ∷ h)

-- An error of the closing is the error of the whole.
abbrev pub Passes : (closing whole : Result (Unit {0})) → Type 0
Passes (ok u) r = Unit
Passes (err e) r = r ≡ err e

abbrev pub EndsClosing : List Adapter → Result (Unit {0}) → History → Type 0
EndsClosing adapters r h =
    (before : History) × (c : Result (Unit {0})) × ClosedFrom adapters c before h × Passes c r

abbrev Attempted : List Adapter → Result (Result (Unit {0})) → History → Type 0
Attempted adapters (ok r) h = Unit
Attempted adapters (err e) h = EndsClosing adapters (err e) h

abbrev Closes : Env → List Adapter → Io (Unit {0}) → Type 0
Closes env adapters close = (h : History) → ClosedFrom adapters (close env h).0 h (close env h).1

module _ (env : Env) where
  finally-last :
      (r : Result (Unit {0})) (adapters : List Adapter) (close : Io (Unit {0}))
      → Closes env adapters close
      → Ensures env Any (close >>= λ u. lift r) (EndsClosing adapters)
  finally-last r adapters close k =
      Ensures-bind (λ c h. (before : History) × ClosedFrom adapters c before h) close _
        (record { at = λ h p. (h, k h) })
        (λ u. record { at = λ h (before, c). (before, ok u, c, tt) })
        (λ e h (before, c). (before, err e, c, refl))

  guarded_by-closing :
      (body : Io (Unit {0})) (handle : Err → Io (Unit {0})) (adapters : List Adapter)
      (close : Io (Unit {0}))
      → Closes env adapters close
      → Ensures env Any (guarded_by body handle close) (EndsClosing adapters)
  unfolding guarded_by try_finally attempt
  guarded_by-closing body handle adapters close k =
      Ensures-bind (Attempted adapters) (attempt (try_catch body handle)) _
        (record { at = λ h p. tt }) (λ r. finally-last r adapters close k) (λ e h p. p)

  close_one :
      (a : Adapter) (r : Result (Unit {0})) (h : History)
      → ClosedFrom (a ∷ []) r h (gave (adapter_close a) r ∷ h)
  close_one a (ok u) h = closed a [] (ok tt) h _ (all_closed _)
  close_one a (err e) h = threw a [] e h

  close_two :
      (a b : Adapter) (r : Result (Unit {0})) (h : History)
      → (let run = continue r (λ u. call (adapter_close b)) env (gave (adapter_close a) r ∷ h) in
          ClosedFrom (a ∷ b ∷ []) run.0 h run.1)
  close_two a b (ok u) h = closed a (b ∷ []) _ h _ (
      close_one b (env.answer (gave (adapter_close a) (ok u) ∷ h) (adapter_close b))
        (gave (adapter_close a) (ok u) ∷ h))
  close_two a b (err e) h = threw a (b ∷ []) e h

  adapter_close-Closes :
      (a : Adapter) (adapters : List Adapter)
      → adapters ≡ a ∷ []
      → Closes env adapters (call (adapter_close a))
  adapter_close-Closes a adapters same h = rw same (close_one a (env.answer h (adapter_close a)) h)

  close_both-Closes :
      (a b : Adapter) (adapters : List Adapter)
      → adapters ≡ a ∷ b ∷ []
      → Closes env adapters (close_both a b)
  unfolding close_both ◌>>=◌
  close_both-Closes a b adapters same h = rw same (close_two a b (env.answer h (adapter_close a)) h)

  connection_of-status :
      (job : String) (database : Option String) (server : Option DbServer)
      (credential : Option Credential) (s : Option JobStatus)
      → Keeps env (λ h. status_in job h ≡ s) (connection_of database server credential)
  unfolding connection_of
  connection_of-status job database none credential s = search keeps_rules
  connection_of-status job database (some server) none s = search keeps_rules
  connection_of-status job database (some server) (some c) s =
      Keeps-bind _ _ (record { at = λ h p. p }) (λ password. Keeps-pure _)

  get_adapter-status :
      (job server tenant : String) (database : Option String) (s : Option JobStatus)
      → Keeps env (λ h. status_in job h ≡ s) (get_adapter server tenant database)
  unfolding get_adapter get_connection_info
  get_adapter-status job server tenant database s = search (keeps_rules, connection_of-status)

  opened-status :
      (w : WorkerJob) (job : String) (s : Option JobStatus)
      → Keeps env (λ h. status_in job h ≡ s) (opened w)
  unfolding open_one
  opened-status (backup d) job s = search (keeps_rules, get_adapter-status)
  opened-status (restore d) job s = search (keeps_rules, get_adapter-status)
  opened-status («export» d) job s = search (keeps_rules, get_adapter-status)
  opened-status («import» d) job s = search (keeps_rules, get_adapter-status)
  opened-status (clone d) job s = search (keeps_rules, get_adapter-status)

module _ (env : Env) where
  same_error :
      {B C : Type 0} {x y : Err} {h mid : History}
      → ◌≡◌ {A = Result B × History} (err y, h) (err x, mid)
      → ◌≡◌ {A = Result C × History} (err y, h) (err x, mid)
  same_error {x = x} {y} e =
      let same : y ≡ x = cc (ap (λ r. r.0) e) in λ i. (err (same i), ap (λ r. r.1) e i)

  continue-thrown :
      {A B C : Type 0} (r : Result A) (f : A → Io B) (g : A → Io C) (x : Err) (h mid : History)
      → ((a : A) → f a env h ≡ (err x, mid) → g a env h ≡ (err x, mid))
      → continue r f env h ≡ (err x, mid)
      → continue r g env h ≡ (err x, mid)
  continue-thrown (ok a) f g x h mid k e = k a e
  continue-thrown (err y) f g x h mid k e = same_error e

  -- Where what stands behind a step throws the same, the whole does.
  bind-thrown :
      {A B C : Type 0} (m : Io A) (f : A → Io B) (g : A → Io C) (x : Err) (h mid : History)
      → ((a : A) (k : History) → f a env k ≡ (err x, mid) → g a env k ≡ (err x, mid))
      → (m >>= f) env h ≡ (err x, mid)
      → (m >>= g) env h ≡ (err x, mid)
  unfolding ◌>>=◌
  bind-thrown m f g x h mid k e =
      continue-thrown (m env h).0 f g x (m env h).1 mid (λ a. k a (m env h).1) e

module _ (env : Env) (h : History) where
  -- A processor that obtained its adapters ends by closing them one after the other, whether its work
  -- returned or threw. Where the closing of one throws, the processor throws that error and the
  -- adapters behind it stay open; otherwise all of them are closed.
  pub processors-closing :
      (w : WorkerJob) (adapters : List Adapter) (mid : History)
      → opened w env h ≡ (ok adapters, mid)
      → EndsClosing adapters (processors w env h).0 (processors w env h).1
  unfolding backup_processor restore_processor export_processor import_processor clone_processor
  processors-closing (backup d) adapters mid e =
      after_one env h d.server_id d.tenant_id d.database _ adapters mid e
        (λ a same. guarded_by-closing env _ _ adapters _ (adapter_close-Closes env a adapters same))
  processors-closing (restore d) adapters mid e =
      after_one env h d.target_server_id d.tenant_id d.target_database _ adapters mid e
        (λ a same. guarded_by-closing env _ _ adapters _ (adapter_close-Closes env a adapters same))
  processors-closing («export» d) adapters mid e =
      after_one env h d.server_id d.tenant_id d.database _ adapters mid e
        (λ a same. guarded_by-closing env _ _ adapters _ (adapter_close-Closes env a adapters same))
  processors-closing («import» d) adapters mid e =
      after_one env h d.server_id d.tenant_id d.database _ adapters mid e
        (λ a same. guarded_by-closing env _ _ adapters _ (adapter_close-Closes env a adapters same))
  processors-closing (clone d) adapters mid e =
      after_two env h (get_adapter d.source_server_id d.tenant_id (some d.database))
        (get_adapter d.target_server_id d.tenant_id (some d.target_database)) _ adapters mid e
        (λ a b same.
          guarded_by-closing env _ _ adapters _ (close_both-Closes env a b adapters same))

  thrown_one :
      (server tenant database : String) (f : Adapter → Io (Unit {0})) (x : Err) (mid : History)
      → open_one server tenant database env h ≡ (err x, mid)
      → (get_adapter server tenant (some database) >>= f) env h ≡ (err x, mid)
  unfolding open_one
  thrown_one server tenant database f x mid e =
      bind-thrown env (get_adapter server tenant (some database)) (λ a. pure (a ∷ [])) f x h mid
        (λ a k p. cc) e

  processors-thrown :
      (w : WorkerJob) (x : Err) (mid : History)
      → opened w env h ≡ (err x, mid)
      → processors w env h ≡ (err x, mid)
  unfolding backup_processor restore_processor export_processor import_processor clone_processor
  processors-thrown (backup d) x mid e = thrown_one _ _ _ _ x mid e
  processors-thrown (restore d) x mid e = thrown_one _ _ _ _ x mid e
  processors-thrown («export» d) x mid e = thrown_one _ _ _ _ x mid e
  processors-thrown («import» d) x mid e = thrown_one _ _ _ _ x mid e
  processors-thrown (clone d) x mid e =
      bind-thrown env _ _ _ x h mid (λ a k. bind-thrown env _ _ _ x k mid (λ b k' p. cc)) e

  -- A processor that cannot obtain its adapters throws that error, and the status of every job stays
  -- what it was.
  pub processors-unopened :
      (w : WorkerJob) (x : Err) (mid : History)
      → opened w env h ≡ (err x, mid)
      → (processors w env h ≡ (err x, mid)) × ((job : String) → status_in job mid ≡ status_in job h)
  processors-unopened w x mid e = (
    processors-thrown w x mid e,
    λ job.
        ap (λ r. status_in job r.1) (sym e) ∙ (opened-status env w job (status_in job h)).at h refl,
  )
