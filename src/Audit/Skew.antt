-- ===== src/Audit/Skew.antt =====
-- What a row's own time does to its verification: `audit` hashes the time that it reads, and leaves
-- the time of the row to the database.
use text.Mathlib.TextLemmas.{append_cancel_left}
use db_backup_tool.Base.{
  ℕ, String, ◌<>◌, ◌≡◌, ◌≢◌, sym, List, [], ◌∷◌, ◌++◌, Bool-cases, inl, inr, ◌otherwise◌,
}
use db_backup_tool.Base.Json.{Json, str, obj, object, Fields, field, fields}
use db_backup_tool.Base.Json.Print.{quote, stringify, stringify_fields}
use db_backup_tool.Base.Json.Injective.{quote_injective}
use db_backup_tool.Model.{AuditLog}
use db_backup_tool.Effects.Io.{Env}
use db_backup_tool.Audit.{
  AuditEntry, nullable, canonical, genesis, entry_hash, entry_of, audit_input, broken_at, breaks,
  verify_from, intact,
}
use db_backup_tool.Audit.Chain.{
  IsSealed, Linked, last_hash, verify_from_iff, breaks_sealed, IsSealed-of_passes,
}
use db_backup_tool.Audit.Append.{stored, meta_of}

abbrev pub before : List (String × Json) → Fields → Fields
before [] x = x
before ((k, v) ∷ m) x = field k v (before m x)

peel : (a b c d x y : String) → a <> b <> c <> d <> x ≡ a <> b <> c <> d <> y → x ≡ y
peel a b c d x y e =
    append_cancel_left d x y
      (append_cancel_left c _ _ (append_cancel_left b _ _ (append_cancel_left a _ _ e)))

fields_cancel :
    (m : List (String × Json)) (x y : Fields)
    → stringify_fields (before m x) ≡ stringify_fields (before m y)
    → stringify_fields x ≡ stringify_fields y
unfolding stringify
fields_cancel [] x y e = e
fields_cancel ((k, v) ∷ m) x y e = fields_cancel m x y (
    peel "," (quote k) ":" (stringify v) (stringify_fields (before m x))
      (stringify_fields (before m y)) e)

pub object_cancel :
    (k : String) (v : Json) (m : List (String × Json)) (x y : Fields)
    → stringify (obj (field k v (before m x))) ≡ stringify (obj (field k v (before m y)))
    → stringify_fields x ≡ stringify_fields y
unfolding stringify
object_cancel k v m x y e = fields_cancel m x y (
    peel "{" (quote k) ":" (stringify v) (stringify_fields (before m x))
      (stringify_fields (before m y)) e)

value_injective :
    (k a b : String) (x : Fields)
    → stringify_fields (field k (str a) x) ≡ stringify_fields (field k (str b) x)
    → a ≡ b
unfolding stringify
value_injective k a b x e =
    quote_injective a b (stringify_fields x)
      (append_cancel_left ":" _ _ (append_cancel_left (quote k) _ _ (append_cancel_left "," _ _ e)))

-- The canonical texts of one entry at two times differ.
canonical_at_injective :
    (entry : AuditEntry) (prev_hash a b : String)
    → canonical entry prev_hash a ≡ canonical entry prev_hash b
    → a ≡ b
unfolding canonical
canonical_at_injective entry prev_hash a b e =
    value_injective "createdAt" a b (fields (("prevHash", str prev_hash) ∷ [])) (
      object_cancel "tenantId" (str entry.tenant_id)
        (("actorId", nullable entry.actor_id)
          ∷ ("action", str entry.action)
          ∷ ("target", nullable entry.target)
          ∷ ("meta", entry.meta otherwise object [])
          ∷ [])
        _ _ e)

not-IsSealed :
    (env : Env) (jsonb : Json → Json) (entry : AuditEntry) (id prev_hash : String)
    (hashed_at at : ℕ)
    → jsonb (meta_of entry) ≡ meta_of entry
    → (env.sha256 (prev_hash <> canonical entry prev_hash (env.to_iso at))
          ≡ env.sha256 (prev_hash <> canonical entry prev_hash (env.to_iso hashed_at))
        → prev_hash <> canonical entry prev_hash (env.to_iso at)
          ≡ prev_hash <> canonical entry prev_hash (env.to_iso hashed_at))
    → env.to_iso hashed_at ≢ env.to_iso at
    → ¬ IsSealed env prev_hash (stored jsonb id at (audit_input env entry prev_hash hashed_at))
unfolding entry_hash audit_input entry_of canonical
not-IsSealed env jsonb entry id prev_hash hashed_at at kept no_collision skew sealed = skew (
    sym (
      canonical_at_injective entry prev_hash _ _
        (append_cancel_left prev_hash _ _ (no_collision (rw kept at (sealed.hashed))))))

-- Verification passes over sealed rows and stops at the first that is not.
pub verify_behind :
    (env : Env) (prev_hash : String) (logs : List AuditLog) (log : AuditLog) (rest : List AuditLog)
    → Linked env prev_hash logs
    → ¬ IsSealed env (last_hash prev_hash logs) log
    → verify_from env prev_hash (logs ++ log ∷ rest) ≡ broken_at log.id
unfolding verify_from
verify_behind env prev_hash [] log rest l bad = elim (Bool-cases (breaks env prev_hash log)) [
  | inl breaking ↦ rw breaking
  | inr passing ↦ absurd (bad (IsSealed-of_passes env prev_hash log passing))
]
verify_behind env prev_hash (first ∷ logs) log rest l bad =
    rw (breaks_sealed env prev_hash first l.0) (verify_behind env first.hash logs log rest l.1 bad)

-- Where the verified rows are followed by one that was hashed at one time and is stored with another
-- that is printed otherwise, its meta unchanged, verification stops at that row, unless the two texts
-- of the row at the two times have one hash.
pub verify_skewed :
    (env : Env) (logs rest : List AuditLog) (entry : AuditEntry) (id : String) (hashed_at at : ℕ)
    (jsonb : Json → Json)
    → jsonb (meta_of entry) ≡ meta_of entry
    → (let prev_hash = last_hash genesis logs in
        env.sha256 (prev_hash <> canonical entry prev_hash (env.to_iso at))
          ≡ env.sha256 (prev_hash <> canonical entry prev_hash (env.to_iso hashed_at))
        → prev_hash <> canonical entry prev_hash (env.to_iso at)
          ≡ prev_hash <> canonical entry prev_hash (env.to_iso hashed_at))
    → verify_from env genesis logs ≡ intact
    → env.to_iso hashed_at ≢ env.to_iso at
    → verify_from env genesis (
        logs
        ++ stored jsonb id at (audit_input env entry (last_hash genesis logs) hashed_at) ∷ rest)
      ≡ broken_at id
verify_skewed env logs rest entry id hashed_at at jsonb kept no_collision verified skew =
    verify_behind env genesis logs _ rest ((verify_from_iff env genesis logs).0 verified)
      (not-IsSealed env jsonb entry id (last_hash genesis logs) hashed_at at kept no_collision skew)
