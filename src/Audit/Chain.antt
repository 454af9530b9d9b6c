-- ===== src/Audit/Chain.antt =====
-- The chain that `verify_from` accepts, and where it stops.
use db_backup_tool.Base.{
  String, ◌≡◌, refl, ◌↔◌, inl, inr, true, false, Option, none, some, List, [], ◌∷◌, arith, eq_iff,
  Bool-cases,
}
use db_backup_tool.Model.{AuditLog}
use db_backup_tool.Effects.Io.{Env}
use db_backup_tool.Audit.{entry_hash, entry_of, intact, verify_from, same_hash, breaks}

-- A row that carries the hash of its own entry behind the hash before it.
pub record IsSealed (env : Env) (prev_hash : String) (log : AuditLog) : Type 0 where
  pub hashed : entry_hash env (entry_of log) prev_hash log.created_at ≡ log.hash
  pub chained : log.prev_hash ≡ some prev_hash

-- The hash behind which the row after `logs` stands.
abbrev pub last_hash : (prev_hash : String) → List AuditLog → String
last_hash prev_hash [] = prev_hash
last_hash prev_hash (log ∷ logs) = last_hash log.hash logs

-- Every row is sealed behind the hash of the row before it.
abbrev pub Linked : Env → (prev_hash : String) → List AuditLog → Type 0
Linked env prev_hash [] = Unit
Linked env prev_hash (log ∷ logs) = IsSealed env prev_hash log × Linked env log.hash logs

same_hash_iff : (o : Option String) (p : String) → (same_hash o p ≡ true) ↔ (o ≡ some p)
same_hash_iff none p = ground arith
same_hash_iff (some q) p = ground (arith, eq_iff q p)

-- The test of the loop fails exactly on the sealed rows.
pub breaks_sealed :
    (env : Env) (prev_hash : String) (log : AuditLog)
    → IsSealed env prev_hash log
    → breaks env prev_hash log ≡ false
unfolding breaks
breaks_sealed env prev_hash log s = ground (
  arith,
  eq_iff (entry_hash env (entry_of log) prev_hash log.created_at) log.hash,
  same_hash_iff log.prev_hash prev_hash,
  s.hashed,
  s.chained,
)

pub IsSealed-of_passes :
    (env : Env) (prev_hash : String) (log : AuditLog)
    → breaks env prev_hash log ≡ false
    → IsSealed env prev_hash log
unfolding breaks
IsSealed-of_passes env prev_hash log h = record {
  hashed = ground (
    arith,
    eq_iff (entry_hash env (entry_of log) prev_hash log.created_at) log.hash,
    same_hash_iff log.prev_hash prev_hash,
  );
  chained = ground (
    arith,
    eq_iff (entry_hash env (entry_of log) prev_hash log.created_at) log.hash,
    same_hash_iff log.prev_hash prev_hash,
  );
}

-- `verify_from` accepts exactly the chains in which every row is sealed.
pub verify_from_iff :
    (env : Env) (prev_hash : String) (logs : List AuditLog)
    → (verify_from env prev_hash logs ≡ intact) ↔ Linked env prev_hash logs
unfolding verify_from
verify_from_iff env prev_hash [] = (λ _. tt, λ _. refl)
verify_from_iff env prev_hash (log ∷ logs) =
    let (to, from) = verify_from_iff env log.hash logs in
    elim (Bool-cases (breaks env prev_hash log)) [
      | inl bad ↦ (λ e. cc (rw bad at e), λ (s, l). cc (bad, breaks_sealed env prev_hash log s))
      | inr good ↦ (
        λ e. (IsSealed-of_passes env prev_hash log good, to (rw good at e)),
        λ l. rw good (from l.1),
      )
    ]
