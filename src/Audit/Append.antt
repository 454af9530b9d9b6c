-- ===== src/Audit/Append.antt =====
-- What `audit` appends, and when the longer chain still verifies.
use db_backup_tool.Base.{
  ℕ, String, ◌<>◌, ◌≡◌, refl, ◌≢◌, Option, none, some, subst, ◌otherwise◌, List, [], ◌∷◌, ◌++◌, ap,
  sym,
}
use mathlib.Core.Option.{some-injective}
use db_backup_tool.Base.Json.{Json, object}
use db_backup_tool.Model.{AuditLog}
use db_backup_tool.Errors.{Result, ok, err}
use db_backup_tool.Effects.{audit_find_latest, audit_create, now}
use db_backup_tool.Effects.Inputs.{AuditInput}
use db_backup_tool.Effects.Io.{Env, History, ◌>>=◌, try_catch, gave, recover, pure}
use db_backup_tool.Audit.{
  AuditEntry, canonical, genesis, entry_hash, entry_of, audit_input, append_entry, audit,
  verify_from, intact,
}
use db_backup_tool.Audit.Chain.{IsSealed, Linked, last_hash, verify_from_iff}

-- The row that the database keeps of what `audit` creates: it gives the identifier and the time, and
-- gives the meta as its column of type JSONB prints it, `jsonb`, which may order the keys anew.
abbrev pub stored : (jsonb : Json → Json) → (id : String) → (created_at : ℕ) → AuditInput → AuditLog
stored jsonb id created_at input = record {
  id = id;
  tenant_id = input.tenant_id;
  actor_id = input.actor_id;
  actor_email = input.actor_email;
  action = input.action;
  target = input.target;
  meta = jsonb input.meta;
  ip = input.ip;
  prev_hash = some input.prev_hash;
  hash = input.hash;
  created_at = created_at;
}

-- The meta that `audit` writes.
abbrev pub meta_of : AuditEntry → Json
meta_of entry = entry.meta otherwise object []

stored-IsSealed :
    (env : Env) (jsonb : Json → Json) (entry : AuditEntry) (id prev_hash : String) (time at : ℕ)
    → jsonb (meta_of entry) ≡ meta_of entry
    → env.to_iso at ≡ env.to_iso time
    → IsSealed env prev_hash (stored jsonb id at (audit_input env entry prev_hash time))
unfolding entry_hash audit_input entry_of canonical
stored-IsSealed env jsonb entry id prev_hash time at kept same = record {
  hashed = λ i.
      env.sha256
        (prev_hash <> canonical (record entry { meta = some (kept i) }) prev_hash (same i));
  chained = refl;
}

Linked-append :
    (env : Env) (prev_hash : String) (logs : List AuditLog) (log : AuditLog)
    → Linked env prev_hash logs
    → IsSealed env (last_hash prev_hash logs) log
    → Linked env prev_hash (logs ++ log ∷ [])
Linked-append env prev_hash [] log l s = (s, tt)
Linked-append env prev_hash (first ∷ logs) log l s =
    (l.0, Linked-append env first.hash logs log l.1 s)

recover_quietly :
    (r : Result (Unit {0})) (env : Env) (h : History) → recover r (λ e. pure tt) env h ≡ (ok tt, h)
recover_quietly (ok a) env h = refl
recover_quietly (err e) env h = refl

-- `audit` never throws.
pub audit-ok : (env : Env) (h : History) (entry : AuditEntry) → (audit entry env h).0 ≡ ok tt
unfolding audit try_catch
audit-ok env h entry =
    ap (λ r. r.0) (recover_quietly (append_entry entry env h).0 env (append_entry entry env h).1)

-- Where the latest hash of the tenant and the clock can be read, the last call of `audit` creates the
-- row of the entry.
audit-call :
    (env : Env) (h : History) (entry : AuditEntry) (prev : Option String) (time : ℕ)
    → env.answer h (audit_find_latest entry.tenant_id) ≡ ok prev
    → env.answer (gave (audit_find_latest entry.tenant_id) (ok prev) ∷ h) now ≡ ok time
    → (r : Result (Unit {0})) × ((audit entry env h).1
        ≡ gave (audit_create (audit_input env entry (prev otherwise genesis) time)) r
          ∷ gave now (ok time)
          ∷ gave (audit_find_latest entry.tenant_id) (ok prev)
          ∷ h)
unfolding audit append_entry ◌>>=◌ try_catch
audit-call env h entry prev time found clock =
    let create = audit_create (audit_input env entry (prev otherwise genesis) time) in
    let before : History =
      gave now (ok time) ∷ gave (audit_find_latest entry.tenant_id) (ok prev) ∷ h in
    (
      env.answer before create,
      rw found (
          rw clock (
            ap (λ r. r.1)
              (recover_quietly (env.answer before create) env
                (gave create (env.answer before create) ∷ before)))),
    )

-- The hash of the last row, if there is a row: what the lookup of `audit` gives for these rows.
abbrev pub latest_hash : List AuditLog → Option String
latest_hash [] = none
latest_hash (log ∷ logs) = some (last_hash log.hash logs)

last_hash-latest_hash :
    (logs : List AuditLog) → (latest_hash logs otherwise genesis) ≡ last_hash genesis logs
last_hash-latest_hash [] = refl
last_hash-latest_hash (log ∷ logs) = refl

-- The columns of a row that are those of an entry.
pub record Records (entry : AuditEntry) (input : AuditInput) : Type 0 where
  pub tenant : input.tenant_id ≡ entry.tenant_id
  pub actor : input.actor_id ≡ entry.actor_id
  pub email : input.actor_email ≡ entry.actor_email
  pub action : input.action ≡ entry.action
  pub target : input.target ≡ entry.target
  pub meta : input.meta ≡ meta_of entry
  pub address : input.ip ≡ entry.ip

audit_input-Records :
    (env : Env) (entry : AuditEntry) (prev_hash : String) (time : ℕ)
    → Records entry (audit_input env entry prev_hash time)
unfolding audit_input
audit_input-Records env entry prev_hash time = record {
  tenant = refl;
  actor = refl;
  email = refl;
  action = refl;
  target = refl;
  meta = refl;
  address = refl;
}

-- Take the rows of a tenant, which verify. Where the lookup of `audit` gives the hash of their last and
-- the clock can be read, the last call of `audit` creates a row with the tenant, the actor, the action,
-- the target, the meta and the addresses of the entry, and the rows with this row behind them verify, if the
-- database keeps it with a time that is printed as the one that the clock gave and gives its meta back
-- as it was written.
pub verify-audit :
    (env : Env) (h : History) (entry : AuditEntry) (logs : List AuditLog) (time at : ℕ)
    (jsonb : Json → Json) (id : String)
    → env.answer h (audit_find_latest entry.tenant_id) ≡ ok (latest_hash logs)
    → env.answer (gave (audit_find_latest entry.tenant_id) (ok (latest_hash logs)) ∷ h) now
      ≡ ok time
    → verify_from env genesis logs ≡ intact
    → jsonb (meta_of entry) ≡ meta_of entry
    → env.to_iso at ≡ env.to_iso time
    → (input : AuditInput) × (r : Result (Unit {0})) × (before : History) × ((audit entry env h).1
        ≡ gave (audit_create input) r ∷ before)
      × Records entry input
      × (verify_from env genesis (logs ++ stored jsonb id at input ∷ []) ≡ intact)
verify-audit env h entry logs time at jsonb id found clock verified kept same =
    let prev_hash = latest_hash logs otherwise genesis in
    let (r, trace) = audit-call env h entry (latest_hash logs) time found clock in
    let sealed =
      subst (λ p. IsSealed env p (stored jsonb id at (audit_input env entry prev_hash time)))
        (last_hash-latest_hash logs)
        (stored-IsSealed env jsonb entry id prev_hash time at kept same) in
    (
      audit_input env entry prev_hash time,
      r,
      _,
      trace,
      audit_input-Records env entry prev_hash time,
      (verify_from_iff env genesis _).1
          (Linked-append env genesis logs _ ((verify_from_iff env genesis logs).0 verified) sealed),
    )

pub Linked-prefix :
    (env : Env) (prev_hash : String) (logs more : List AuditLog)
    → Linked env prev_hash (logs ++ more)
    → Linked env prev_hash logs
Linked-prefix env prev_hash [] more l = tt
Linked-prefix env prev_hash (log ∷ logs) more l = (l.0, Linked-prefix env log.hash logs more l.1)

pub Linked-suffix :
    (env : Env) (prev_hash : String) (logs more : List AuditLog)
    → Linked env prev_hash (logs ++ more)
    → Linked env (last_hash prev_hash logs) more
Linked-suffix env prev_hash [] more l = l
Linked-suffix env prev_hash (log ∷ logs) more l = Linked-suffix env log.hash logs more l.1

-- Two entries hashed behind the same row, as two requests of one tenant that overlap do: the chain
-- with both rows does not verify, unless the first row repeats the hash behind which it stands.
pub verify_fork :
    (env : Env) (logs rest : List AuditLog) (a b : AuditEntry) (id_a id_b : String)
    (at_a time_a at_b time_b : ℕ) (jsonb : Json → Json)
    → entry_hash env a (last_hash genesis logs) time_a ≢ last_hash genesis logs
    → verify_from env genesis (
        logs
        ++ stored jsonb id_a at_a (audit_input env a (last_hash genesis logs) time_a)
          ∷ stored jsonb id_b at_b (audit_input env b (last_hash genesis logs) time_b)
          ∷ rest)
      ≢ intact
unfolding audit_input
verify_fork env logs rest a b id_a id_b at_a time_a at_b time_b jsonb moved verified =
    let linked = Linked-suffix env genesis logs _ ((verify_from_iff env genesis _).0 verified) in
    moved (sym (some-injective _ _ linked.1.0.chained))
