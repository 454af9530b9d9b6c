-- ===== src/Tenancy/Named.antt =====
-- The slugs under which registration creates tenants.
use db_backup_tool.Base.{
  String, ◌<>◌, ◌==◌, show_nat, ℕ, refl, Option, none, some, List, [], ◌∷◌, All, Bool-cases, inl,
  inr, arith,
}
use db_backup_tool.Base.Text.Digits.{AllChars-append, AllChars-map, IsDigit, show_nat-IsDigit}
use db_backup_tool.Errors.{Result, ok, err}
use db_backup_tool.Model.{User}
use db_backup_tool.Effects.{Call, tenant_create, now, user_find_by_email}
use db_backup_tool.Effects.Io.{Env, History, Io, call, pure}
use db_backup_tool.Effects.Logic.{
  Keeps, Keeps-asked, keeps_rules, Keeps-bind, Keeps-call, Keeps-pure, Keeps-throw, Ensures,
  Ensures-bind,
}
use db_backup_tool.Audit.{AuditEntry, audit, append_entry}
use db_backup_tool.Tenancy.{
  RegisterInput, create_role, create_others, create_tenant, register_tenant, slug_of, slug_or,
  none_or_conflict, ensure_permissions,
}
use db_backup_tool.Tenancy.Slugs.{IsSlugChar, IsSlug, slug_of-IsSlug}

-- A call that creates a tenant does so under a slug of small letters, digits and dashes.
abbrev pub HasSlug : Call → Type 0
HasSlug (tenant_create name slug) = IsSlug slug
HasSlug c = Unit

abbrev pub AllSlugs : History → Type 0
AllSlugs = All (λ e. HasSlug e.request)

-- What `slug_or` leaves.
abbrev WithSlug : Result String → History → Type 0
WithSlug (ok slug) h = AllSlugs h × IsSlug slug
WithSlug (err e) h = AllSlugs h

pub digits-IsSlug : (n : ℕ) → IsSlug (show_nat n)
digits-IsSlug n =
    AllChars-map IsDigit IsSlugChar (λ c d. inl (ground arith)) (show_nat n) (show_nat-IsDigit n)

module _ (env : Env) where
  slug_or-WithSlug : (slug : String) → IsSlug slug → Ensures env AllSlugs (slug_or slug) WithSlug
  unfolding slug_or
  slug_or-WithSlug slug is = elim (Bool-cases (slug == "")) [
    | inl empty ↦ rw empty (
        Ensures-bind (λ r h. AllSlugs h) (call now) (λ time. pure ("t-" <> show_nat time))
          (Keeps-call now (λ r h p. (tt, p)))
          (λ time. record {
            at = λ h p. (
              p,
              AllChars-append IsSlugChar "t-" (show_nat time) (inl refl, (inr refl, tt))
                  (digits-IsSlug time),
            );
          })
          (λ e h p. p))
    | inr present ↦ rw present (record { at = λ h p. (p, is) })
  ]

  with_slug :
      {A : Type 0} (slug : String) (m : Io A)
      → (IsSlug slug → Keeps env AllSlugs m)
      → Ensures env (WithSlug (ok slug)) m (λ r h. AllSlugs h)
  with_slug slug m k = record { at = λ h (p, is). (k is).at h p }

  role-AllSlugs :
      (tenant_id name : String) (keys : List String)
      → Keeps env AllSlugs (create_role tenant_id name keys)
  unfolding create_role
  role-AllSlugs tenant_id name keys = search keeps_rules

  others-AllSlugs :
      (tenant_id : String) (roles : List (String × List String))
      → Keeps env AllSlugs (create_others tenant_id roles)
  unfolding create_others
  others-AllSlugs tenant_id [] = search keeps_rules
  others-AllSlugs tenant_id ((name, keys) ∷ roles) =
      let rest = others-AllSlugs tenant_id roles in
      elim (Bool-cases (name == "Owner")) [
        | inl owner ↦ rw owner rest
        | inr other ↦ rw other (
            Keeps-bind (create_role tenant_id name keys) (λ _. create_others tenant_id roles)
              (role-AllSlugs tenant_id name keys) (λ _. rest))
      ]

  ensured-AllSlugs : Keeps env AllSlugs ensure_permissions
  unfolding ensure_permissions
  ensured-AllSlugs = search keeps_rules

  conflict-AllSlugs : (found : Option User) → Keeps env AllSlugs (none_or_conflict found)
  conflict-AllSlugs none = Keeps-pure tt
  conflict-AllSlugs (some user) = Keeps-throw _

  audit-AllSlugs : (entry : AuditEntry) → Keeps env AllSlugs (audit entry)
  unfolding audit append_entry
  audit-AllSlugs entry = search (Keeps-asked, keeps_rules) depth 12

  module _ (base36 : (n : ℕ) → IsSlug (env.to_base36 n)) where
    suffixed-IsSlug :
        (slug : String) (time : ℕ) → IsSlug slug → IsSlug (slug <> "-" <> env.to_base36 time)
    suffixed-IsSlug slug time is =
        AllChars-append IsSlugChar slug ("-" <> env.to_base36 time) is
          (AllChars-append IsSlugChar "-" (env.to_base36 time) (inr refl, tt) (base36 time))

    create_tenant-AllSlugs :
        (input : RegisterInput) (slug password_hash : String)
        → IsSlug slug
        → Keeps env AllSlugs (create_tenant input slug password_hash)
    unfolding create_tenant
    create_tenant-AllSlugs input slug password_hash is =
        search (role-AllSlugs, others-AllSlugs, suffixed-IsSlug, Keeps-asked, keeps_rules) depth 20

-- Whichever way a registration ends, each tenant that it creates has a slug of small letters, digits
-- and dashes, whatever its name, if base 36 is printed in small letters and digits.
pub register_tenant-AllSlugs :
    (env : Env) (input : RegisterInput) (h : History)
    → ((n : ℕ) → IsSlug (env.to_base36 n))
    → AllSlugs h
    → AllSlugs (register_tenant input env h).1
unfolding register_tenant
register_tenant-AllSlugs env input h base36 before = kept.at h before
  where
    kept : Keeps env AllSlugs (register_tenant input)
    kept = Keeps-bind ensure_permissions _ (ensured-AllSlugs env) (λ u.
        Keeps-bind (call (user_find_by_email input.email)) _ (search keeps_rules) (λ found.
          Keeps-bind (none_or_conflict found) _ (conflict-AllSlugs env found) (λ v.
            Keeps-asked (λ e. e.to_lower input.tenant_name) _
              (Ensures-bind WithSlug (slug_or (slug_of (env.to_lower input.tenant_name))) _
                (slug_or-WithSlug env _ (slug_of-IsSlug (env.to_lower input.tenant_name)))
                (λ slug. with_slug env slug _ (λ is.
                  search (create_tenant-AllSlugs env base36, audit-AllSlugs env, keeps_rules) depth
                    12))
                (λ e h p. p)))))
