-- ===== src/Examples/Chains.antt =====
-- The audit chain at concrete inputs.
use db_backup_tool.Base.{String, [], ◌∷◌, ◌++◌, ◌≡◌, ◌≢◌, ◌↔◌, refl, none, some, arith, map, eq_iff}
use db_backup_tool.Base.Json.{Json, str, obj, object, field, end}
use db_backup_tool.Base.Json.Print.{stringify}
use db_backup_tool.Examples.World.{world}
use db_backup_tool.Errors.{Result, ok, err, foreign}
use db_backup_tool.Model.{AuditLog}
use db_backup_tool.Effects.{Call, Reply, audit_find_latest, audit_create, now}
use db_backup_tool.Effects.Io.{Env, History, gave}
use db_backup_tool.Effects.Inputs.{AuditInput}
use db_backup_tool.Audit.{
  AuditEntry, canonical, genesis, entry_hash, audit_input, audit, verify_from, intact, broken_at,
  entry_of, breaks,
}
use db_backup_tool.Audit.Chain.{Linked, last_hash, verify_from_iff}
use db_backup_tool.Audit.Append.{stored, meta_of, verify-audit, Records, audit-ok, verify_fork}
use db_backup_tool.Audit.Skew.{verify_skewed}
use db_backup_tool.Audit.Reordered.{verify_reordered}
use db_backup_tool.Audit.Forgery.{sealed_text, verify_forged, reattribute, verify_blind}

abbrev entry : (action : String) → AuditEntry
entry action = record {
  tenant_id = "t1";
  actor_id = some "u1";
  actor_email = some "ann@shop";
  action = action;
  target = none;
  meta = none;
  ip = none;
}

-- A column that gives its values back as they were written.
abbrev same : Json → Json
same json = json

abbrev first : AuditLog
first = stored same "a1" 7 (audit_input world (entry "backup.requested") genesis 7)

first_hashed : entry_hash world (entry_of first) genesis 7 ≡ first.hash
unfolding entry_hash entry_of audit_input canonical
first_hashed = refl

first_verifies : verify_from world genesis (first ∷ []) ≡ intact
unfolding audit_input
first_verifies =
    (verify_from_iff world genesis (first ∷ [])).1
      (record { hashed = first_hashed; chained = refl }, tt)

verify_from_iff_example :
    (verify_from world genesis (first ∷ []) ≡ intact) ↔ Linked world genesis (first ∷ [])
verify_from_iff_example = verify_from_iff world genesis (first ∷ [])

-- The first row is the latest.
abbrev reply_to : History → (c : Call) → Result (Reply c)
reply_to h (audit_find_latest t) = ok (some first.hash)
reply_to h now = ok 9
reply_to h (audit_create d) = ok tt
reply_to h c = err (foreign "Error" none "down")

abbrev ledger : Env
ledger = record world { answer = reply_to }

verify-audit_example :
    (input : AuditInput) × (r : Result (Unit {0})) × (before : History) × ((audit
        (entry "backup.completed")
        ledger
        []).1
      ≡ gave (audit_create input) r ∷ before)
    × Records (entry "backup.completed") input
    × (verify_from ledger genesis ((first ∷ []) ++ stored same "a2" 9 input ∷ []) ≡ intact)
unfolding verify_from breaks entry_hash
verify-audit_example =
    verify-audit ledger [] (entry "backup.completed") (first ∷ []) 9 9 same "a2" refl refl
      first_verifies refl refl

audit-ok_example : (audit (entry "auth.login") world []).0 ≡ ok tt
audit-ok_example = audit-ok world [] (entry "auth.login")

verify_skewed_example :
    verify_from world genesis (
      (first ∷ [])
      ++ stored same "a2" 9
          (audit_input world (entry "auth.login") (last_hash genesis (first ∷ [])) 8)
        ∷ [])
    ≡ broken_at "a2"
verify_skewed_example =
    verify_skewed world (first ∷ []) [] (entry "auth.login") "a2" 8 9 same refl (λ e. e)
      first_verifies (λ e. ground (arith, (eq_iff (world.to_iso 8) (world.to_iso 9)).1 e))

-- The entry of a backup that was requested, with the meta that the route gives it.
abbrev requested : AuditEntry
requested = record (entry "backup.requested") {
  meta = some (object (("database", str "shop") ∷ ("jobId", str "j1") ∷ []));
}

-- A column that puts the last of two keys first, as JSONB does where it is the shorter one.
abbrev turned : Json → Json
turned (obj (field k v (field l w end))) = obj (field l w (field k v end))
turned json = json

printed_otherwise : stringify (turned (meta_of requested)) ≢ stringify (meta_of requested)
unfolding stringify
printed_otherwise e =
    ground
      (arith, (eq_iff (stringify (turned (meta_of requested))) (stringify (meta_of requested))).1 e)

verify_reordered_example :
    verify_from world genesis (
      (first ∷ [])
      ++ stored turned "a2" 9 (audit_input world requested (last_hash genesis (first ∷ [])) 9) ∷ [])
    ≡ broken_at "a2"
verify_reordered_example =
    verify_reordered world (first ∷ []) [] requested "a2" 9 turned (λ e. e) first_verifies
      printed_otherwise

moved : entry_hash world (entry "auth.login") genesis 7 ≢ genesis
unfolding entry_hash canonical stringify
moved e = ground (arith, (eq_iff (entry_hash world (entry "auth.login") genesis 7) genesis).1 e)

verify_fork_example :
    verify_from world genesis (
      stored same "a1" 7 (audit_input world (entry "auth.login") genesis 7)
      ∷ stored same "a2" 9 (audit_input world (entry "auth.login") genesis 9)
      ∷ [])
    ≢ intact
verify_fork_example =
    verify_fork world [] [] (entry "auth.login") (entry "auth.login") "a1" "a2" 7 7 9 9 same moved

abbrev forged : AuditLog
forged = record first { action = "backup.downloaded" }

differs : sealed_text world genesis forged ≢ sealed_text world genesis first
unfolding entry_of audit_input canonical stringify
differs e =
    ground
      (arith, (eq_iff (sealed_text world genesis forged) (sealed_text world genesis first)).1 e)

verify_forged_example : verify_from world genesis (forged ∷ []) ≡ broken_at "a1"
verify_forged_example = verify_forged world [] [] first forged (λ e. e) first_verifies refl differs

verify_blind_example :
    verify_from world genesis
      (map (reattribute (λ log. none) (λ log. some "10.0.0.1")) (first ∷ []))
    ≡ intact
verify_blind_example =
    verify_blind world (λ log. none) (λ log. some "10.0.0.1") (first ∷ []) [] first_verifies
