-- ===== src/Audit/Forgery.antt =====
-- Which changes to the stored rows verification sees, and which it does not.
use db_backup_tool.Base.{String, ◌<>◌, ◌≡◌, ◌≢◌, refl, Option, List, [], ◌∷◌, ◌++◌, map, sym, ◌∙◌}
use text.Mathlib.TextLemmas.{append_cancel_left}
use db_backup_tool.Model.{AuditLog}
use db_backup_tool.Effects.Io.{Env}
use db_backup_tool.Audit.{
  canonical, genesis, entry_hash, entry_of, breaks, broken_at, verify_from, intact,
}
use db_backup_tool.Audit.Chain.{last_hash, verify_from_iff}
use db_backup_tool.Audit.Skew.{verify_behind}
use db_backup_tool.Audit.Append.{Linked-prefix, Linked-suffix}

-- The text over which a row's hash is taken, behind the hash before it.
abbrev pub sealed_text : Env → (prev_hash : String) → AuditLog → String
sealed_text env prev_hash log = canonical (entry_of log) prev_hash (env.to_iso log.created_at)

-- Where a chain verifies and one of its rows is replaced by a row with the same hash and another
-- canonical text, verification stops at the new row, unless the two texts have one hash behind the hash
-- of the row before them.
pub verify_forged :
    (env : Env) (logs rest : List AuditLog) (log forged : AuditLog)
    → (let prev_hash = last_hash genesis logs in
        env.sha256 (prev_hash <> sealed_text env prev_hash forged)
          ≡ env.sha256 (prev_hash <> sealed_text env prev_hash log)
        → prev_hash <> sealed_text env prev_hash forged
          ≡ prev_hash <> sealed_text env prev_hash log)
    → verify_from env genesis (logs ++ log ∷ rest) ≡ intact
    → forged.hash ≡ log.hash
    → sealed_text env (last_hash genesis logs) forged ≢ sealed_text env (last_hash genesis logs) log
    → verify_from env genesis (logs ++ forged ∷ rest) ≡ broken_at forged.id
unfolding entry_hash
verify_forged env logs rest log forged no_collision verified same_hash other =
    let linked = (verify_from_iff env genesis _).0 verified in
    verify_behind env genesis logs forged rest (Linked-prefix env genesis logs _ linked) λ sealed.
      other (
        append_cancel_left (last_hash genesis logs) _ _ (
          no_collision
            (sealed.hashed ∙ same_hash ∙ sym (Linked-suffix env genesis logs _ linked).0.hashed)))

-- A row with another e-mail address and another network address of its actor.
abbrev pub reattribute :
    (AuditLog → Option String) → (AuditLog → Option String) → AuditLog → AuditLog
reattribute email ip log = record log { actor_email = email log; ip = ip log }

reattribute-verify :
    (env : Env) (email ip : AuditLog → Option String) (prev_hash : String) (logs : List AuditLog)
    → verify_from env prev_hash (map (reattribute email ip) logs) ≡ verify_from env prev_hash logs
unfolding verify_from breaks entry_of
reattribute-verify env email ip prev_hash [] = refl
reattribute-verify env email ip prev_hash (log ∷ logs) =
    rw (reattribute-verify env email ip log.hash logs)

-- Verification does not see the address and the e-mail of the actor, nor a cut at the end of the
-- chain: whatever is put in their place, and whatever last rows are left out, the verdict on a chain
-- that verifies stays the same.
pub verify_blind :
    (env : Env) (email ip : AuditLog → Option String) (logs dropped : List AuditLog)
    → verify_from env genesis (logs ++ dropped) ≡ intact
    → verify_from env genesis (map (reattribute email ip) logs) ≡ intact
verify_blind env email ip logs dropped verified =
    reattribute-verify env email ip genesis logs
    ∙ (verify_from_iff env genesis logs).1
        (Linked-prefix env genesis logs dropped ((verify_from_iff env genesis _).0 verified))
