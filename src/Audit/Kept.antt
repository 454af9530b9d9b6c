-- ===== src/Audit/Kept.antt =====
-- `audit` of src/audit/audit.ts takes nothing back of what has happened.
use db_backup_tool.Base.{◌∷◌, inr}
use db_backup_tool.Effects.Io.{Env, Event, History}
use db_backup_tool.Effects.Happened.{Happened}
use db_backup_tool.Effects.Logic.{Keeps, Keeps-asked, keeps_rules}
use db_backup_tool.Audit.{AuditEntry, audit, append_entry}

-- What no further call ends is kept.
pub audit-Keeps :
    (env : Env) (P : History → Type 0)
    → ((x : Event) (h : History) → P h → P (x ∷ h))
    → (entry : AuditEntry) → Keeps env P (audit entry)
unfolding audit append_entry
audit-Keeps env P grows entry = search (Keeps-asked, keeps_rules, grows) depth 12

pub audit-Happened :
    (env : Env) (e : Event) (entry : AuditEntry) → Keeps env (Happened e) (audit entry)
audit-Happened env e entry = audit-Keeps env (Happened e) (λ x h p. inr p) entry
