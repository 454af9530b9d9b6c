-- ===== src/Audit/Reordered.antt =====
-- What the database's printing of a row's meta does to its verification: `audit` hashes the meta as it
-- is written, `verifyAuditChain` as its column gives it back.
use text.Mathlib.TextLemmas.{append_cancel_left, append_cancel_right}
use db_backup_tool.Base.{ℕ, String, ◌<>◌, ◌≡◌, ◌≢◌, some, List, [], ◌∷◌, ◌++◌}
use db_backup_tool.Base.Json.{Json, str, Fields, field, fields}
use db_backup_tool.Base.Json.Print.{quote, stringify, stringify_fields}
use db_backup_tool.Model.{AuditLog}
use db_backup_tool.Effects.Io.{Env}
use db_backup_tool.Audit.{
  AuditEntry, nullable, canonical, genesis, entry_hash, entry_of, audit_input, broken_at,
  verify_from, intact,
}
use db_backup_tool.Audit.Chain.{IsSealed, last_hash, verify_from_iff}
use db_backup_tool.Audit.Append.{stored, meta_of}
use db_backup_tool.Audit.Skew.{object_cancel, verify_behind}

value_cancel :
    (k : String) (v w : Json) (x : Fields)
    → stringify_fields (field k v x) ≡ stringify_fields (field k w x)
    → stringify v ≡ stringify w
unfolding stringify
value_cancel k v w x e =
    append_cancel_right (stringify v) (stringify w) (stringify_fields x)
      (append_cancel_left ":" _ _ (append_cancel_left (quote k) _ _ (append_cancel_left "," _ _ e)))

-- The canonical texts of one entry with two metas differ where these are printed otherwise.
canonical_meta_injective :
    (entry : AuditEntry) (prev_hash iso : String) (v w : Json)
    → canonical (record entry { meta = some v }) prev_hash iso
      ≡ canonical (record entry { meta = some w }) prev_hash iso
    → stringify v ≡ stringify w
unfolding canonical
canonical_meta_injective entry prev_hash iso v w e =
    value_cancel "meta" v w (fields (("createdAt", str iso) ∷ ("prevHash", str prev_hash) ∷ [])) (
      object_cancel "tenantId" (str entry.tenant_id)
        (("actorId", nullable entry.actor_id)
          ∷ ("action", str entry.action)
          ∷ ("target", nullable entry.target)
          ∷ [])
        _ _ e)

-- The text that is hashed of an entry with the meta `meta`.
abbrev pub text_with : AuditEntry → (prev_hash iso : String) → (meta : Json) → String
text_with entry prev_hash iso meta =
    prev_hash <> canonical (record entry { meta = some meta }) prev_hash iso

not-IsSealed :
    (env : Env) (jsonb : Json → Json) (entry : AuditEntry) (id prev_hash : String) (time : ℕ)
    → (let text = text_with entry prev_hash (env.to_iso time) in
        env.sha256 (text (jsonb (meta_of entry))) ≡ env.sha256 (text (meta_of entry))
        → text (jsonb (meta_of entry)) ≡ text (meta_of entry))
    → stringify (jsonb (meta_of entry)) ≢ stringify (meta_of entry)
    → ¬ IsSealed env prev_hash (stored jsonb id time (audit_input env entry prev_hash time))
unfolding entry_hash audit_input entry_of canonical
not-IsSealed env jsonb entry id prev_hash time no_collision printed sealed = printed (
    canonical_meta_injective entry prev_hash (env.to_iso time) _ _
      (append_cancel_left prev_hash _ _ (no_collision sealed.hashed)))

-- Where the verified rows are followed by one whose meta comes back from the database in another form
-- than it was hashed in, as where the keys are ordered anew, verification stops at that row, even if it
-- is kept with the time that was hashed, unless the two texts have one hash.
pub verify_reordered :
    (env : Env) (logs rest : List AuditLog) (entry : AuditEntry) (id : String) (time : ℕ)
    (jsonb : Json → Json)
    → (let text = text_with entry (last_hash genesis logs) (env.to_iso time) in
        env.sha256 (text (jsonb (meta_of entry))) ≡ env.sha256 (text (meta_of entry))
        → text (jsonb (meta_of entry)) ≡ text (meta_of entry))
    → verify_from env genesis logs ≡ intact
    → stringify (jsonb (meta_of entry)) ≢ stringify (meta_of entry)
    → verify_from env genesis
        (logs ++ stored jsonb id time (audit_input env entry (last_hash genesis logs) time) ∷ rest)
      ≡ broken_at id
verify_reordered env logs rest entry id time jsonb no_collision verified printed =
    verify_behind env genesis logs _ rest ((verify_from_iff env genesis logs).0 verified)
      (not-IsSealed env jsonb entry id (last_hash genesis logs) time no_collision printed)
