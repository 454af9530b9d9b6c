-- ===== src/Audit.antt =====
-- src/audit/audit.ts: the hash chain of a tenant's audit records.
pub mod Chain
pub mod Append
pub mod Kept
pub mod Skew
pub mod Reordered
pub mod Forgery
use db_backup_tool.Base.{
  ℕ, String, ◌<>◌, ◌==◌, Bool, not, ◌||◌, Option, none, some, ◌otherwise◌, List, [], ◌∷◌, map,
  if◌then◌else◌,
}
use db_backup_tool.Base.Json.{Json, str, null, object}
use db_backup_tool.Base.Json.Print.{stringify}
use db_backup_tool.Model.{AuditLog}
use db_backup_tool.Effects.{audit_find_latest, audit_find_all, audit_create, now}
use db_backup_tool.Effects.Inputs.{AuditInput}
use db_backup_tool.Effects.Io.{Env, Io, call, asks, pure, try_catch, ◌>>=◌, ◌>>◌}

-- `AuditEntry`
pub record AuditEntry : Type 0 where
  pub tenant_id : String
  pub actor_id : Option String
  pub actor_email : Option String
  pub action : String
  pub target : Option String
  pub meta : Option Json
  pub ip : Option String

abbrev pub nullable : Option String → Json
nullable none = null
nullable (some s) = str s

-- `canonical`
unfoldable pub canonical : AuditEntry → (prev_hash created_at : String) → String
canonical entry prev_hash created_at = stringify (
    object (
      ("tenantId", str entry.tenant_id)
      ∷ ("actorId", nullable entry.actor_id)
      ∷ ("action", str entry.action)
      ∷ ("target", nullable entry.target)
      ∷ ("meta", entry.meta otherwise object [])
      ∷ ("createdAt", str created_at)
      ∷ ("prevHash", str prev_hash)
      ∷ []))

abbrev pub genesis : String
genesis = "GENESIS"

-- The hash of an entry behind the hash `prev_hash`, at the time `created_at`.
unfoldable pub entry_hash : Env → AuditEntry → (prev_hash : String) → (created_at : ℕ) → String
entry_hash env entry prev_hash created_at =
    env.sha256 (prev_hash <> canonical entry prev_hash (env.to_iso created_at))

-- The row that `audit` creates. The time that went into the hash is not among its fields.
unfoldable pub audit_input : Env → AuditEntry → (prev_hash : String) → (created_at : ℕ) → AuditInput
audit_input env entry prev_hash created_at = record {
  tenant_id = entry.tenant_id;
  actor_id = entry.actor_id;
  actor_email = entry.actor_email;
  action = entry.action;
  target = entry.target;
  meta = entry.meta otherwise object [];
  ip = entry.ip;
  prev_hash = prev_hash;
  hash = entry_hash env entry prev_hash created_at;
}

-- The body of the `try` block of `audit`.
unfoldable pub append_entry : AuditEntry → Io (Unit {0})
append_entry entry = do
  prev ← call (audit_find_latest entry.tenant_id)
  let prev_hash = prev otherwise genesis
  created_at ← call now
  input ← asks (λ env. audit_input env entry prev_hash created_at)
  call (audit_create input)

-- `audit`: a failure is logged and goes no further.
unfoldable pub audit : AuditEntry → Io (Unit {0})
audit entry = try_catch (append_entry entry) (λ e. pure tt)

-- The entry that `verifyAuditChain` rebuilds from a row.
unfoldable pub entry_of : AuditLog → AuditEntry
entry_of log = record {
  tenant_id = log.tenant_id;
  actor_id = log.actor_id;
  actor_email = none;
  action = log.action;
  target = log.target;
  meta = some log.meta;
  ip = none;
}

-- `{ ok: true }` or `{ ok: false, brokenAt }`
pub data Verdict : Type 0 where
  intact : Verdict
  broken_at : (id : String) → Verdict

abbrev pub same_hash : Option String → String → Bool
same_hash none h = Bool.false
same_hash (some p) h = p == h

-- The test of the loop of `verifyAuditChain`.
unfoldable pub breaks : Env → (prev_hash : String) → AuditLog → Bool
breaks env prev_hash log =
    let expected = entry_hash env (entry_of log) prev_hash log.created_at in
    not (expected == log.hash) || not (same_hash log.prev_hash prev_hash)

-- The loop of `verifyAuditChain`.
unfoldable pub verify_from : Env → (prev_hash : String) → List AuditLog → Verdict
verify_from env prev_hash [] = intact
verify_from env prev_hash (log ∷ logs) =
    let rest = verify_from env log.hash logs in
    if breaks env prev_hash log then broken_at log.id else rest

-- `verifyAuditChain`
unfoldable pub verify_audit_chain : (tenant_id : String) → Io Verdict
verify_audit_chain tenant_id = do
  logs ← call (audit_find_all tenant_id)
  asks (λ env. verify_from env genesis logs)
