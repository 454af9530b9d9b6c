-- ===== src/Tenancy/Registered.antt =====
-- Registration, from its test of the e-mail to its audit.
use db_backup_tool.Base.{String, ◌==◌, Option, none, some, ◌≡◌, refl, inl, inr, Bool-cases}
use mathlib.Core.Path.{subst}
use db_backup_tool.Errors.{ok}
use db_backup_tool.Model.{Tenant, User}
use db_backup_tool.Effects.{user_find_by_email, hash_password, now}
use db_backup_tool.Effects.Io.{Env, History, Event, gave, call, pure, asks}
use db_backup_tool.Effects.Invert.{bind-ok, pure-ok, asks-ok}
use db_backup_tool.Effects.Logic.{
  Keeps, Keeps-asked, keeps_rules, Keeps-bind, Keeps-call, Keeps-pure,
}
use db_backup_tool.Effects.Happened.{Happened, kept, answered, later}
use db_backup_tool.Audit.{audit}
use db_backup_tool.Audit.Kept.{audit-Keeps, audit-Happened}
use db_backup_tool.Tenancy.{
  RegisterInput, create_tenant, register_tenant, slug_of, slug_or, none_or_conflict,
  ensure_permissions,
}
use db_backup_tool.Tenancy.Owned.{
  IsOwned, IsOwned-later, create_tenant-IsOwned, role-Happened, others-Happened,
}

module _ (env : Env) (x : Event) where
  ensured-Happened : Keeps env (Happened x) ensure_permissions
  unfolding ensure_permissions
  ensured-Happened = search (keeps_rules, inr)

  slug_or-Happened : (slug : String) → Keeps env (Happened x) (slug_or slug)
  unfolding slug_or
  slug_or-Happened slug = elim (Bool-cases (slug == "")) [
    | inl empty ↦ rw empty (
        Keeps-bind (call now) (λ time. pure _) (Keeps-call now (λ r h p. inr p))
          (λ time. Keeps-pure _))
    | inr present ↦ rw present (Keeps-pure slug)
  ]

  create_tenant-Happened :
      (input : RegisterInput) (slug password_hash : String)
      → Keeps env (Happened x) (create_tenant input slug password_hash)
  unfolding create_tenant
  create_tenant-Happened input slug password_hash =
      search (role-Happened, others-Happened, Keeps-asked, keeps_rules, inr) depth 20

none_or_conflict-ok :
    (found : Option User) (env : Env) (h : History) {u : Unit {0}} {h' : History}
    → none_or_conflict found env h ≡ (ok u, h')
    → (found ≡ none) × (h ≡ h')
none_or_conflict-ok none env h e = (refl, cc)
none_or_conflict-ok (some user) env h e = cc

-- A registration that returns has found no user with the e-mail, and has created the tenant, its
-- owner's role with all the permissions of that role, each other role of the system, and the user with
-- the owner's role of that tenant and the hash of the password.
pub register_tenant-IsOwned :
    (input : RegisterInput) (env : Env) (h : History) (tenant : Tenant) (user : User) (h' : History)
    → register_tenant input env h ≡ (ok (tenant, user), h')
    → (password_hash : String) × Happened (gave (user_find_by_email input.email) (ok none)) h'
      × Happened (gave (hash_password input.password) (ok password_hash)) h'
      × IsOwned input password_hash tenant user h'
unfolding register_tenant
register_tenant-IsOwned input env h tenant user h' e =
    let (u, h₁, ensured, r₁) = bind-ok ensure_permissions _ env h e in
    let (found, h₂, asked, r₂) = bind-ok (call (user_find_by_email input.email)) _ env h₁ r₁ in
    let (v, h₃, passed, r₃) = bind-ok (none_or_conflict found) _ env h₂ r₂ in
    let (is_new, same) = none_or_conflict-ok found env h₂ passed in
    let (lowered, h₄, read, r₄) =
      bind-ok (asks (λ env. env.to_lower input.tenant_name)) _ env h₃ r₃ in
    let (slug, h₅, slugged, r₅) = bind-ok (slug_or (slug_of lowered)) _ env h₄ r₄ in
    let (hash, h₆, hashed, r₆) = bind-ok (call (hash_password input.password)) _ env h₅ r₅ in
    let (made, h₇, created, r₇) = bind-ok (create_tenant input slug hash) _ env h₆ r₆ in
    let (w, h₈, told, r₈) = bind-ok (audit _) _ env h₇ r₇ in
    let (pair, over) = pure-ok r₈ in
    let lookup = gave (user_find_by_email input.email) (ok none) in
    let behind : (x : Event) → Happened x h₆ → Happened x h' = λ x p. subst (Happened x) over (
      kept env (Happened x) (audit _) h₇ (audit-Happened env x _) told (
        kept env (Happened x) (create_tenant input slug hash) h₆
          (create_tenant-Happened env x input slug hash) created p)) in
    (
      hash,
      behind lookup (
          later lookup (hash_password input.password) env h₅ hashed (
            kept env (Happened lookup) (slug_or (slug_of lowered)) h₄
              (slug_or-Happened env lookup (slug_of lowered)) slugged
              (subst (Happened lookup)
                (asks-ok (λ env. env.to_lower input.tenant_name) env h₃ read).1
                (subst (Happened lookup) same (
                  subst (λ o. Happened (gave (user_find_by_email input.email) (ok o)) h₂) is_new
                    (answered (user_find_by_email input.email) env h₁ asked)))))),
      behind _ (answered (hash_password input.password) env h₅ hashed),
      subst (λ x. IsOwned input hash x.0 x.1 h') pair
          (subst (IsOwned input hash made.0 made.1) over (
            kept env (IsOwned input hash made.0 made.1) (audit _) h₇
              (audit-Keeps env (IsOwned input hash made.0 made.1)
                (IsOwned-later env input hash made.0 made.1) _)
              told (create_tenant-IsOwned env input hash slug h₆ created))),
    )
