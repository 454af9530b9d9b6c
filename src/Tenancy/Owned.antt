-- ===== src/Tenancy/Owned.antt =====
-- Who owns a new tenant, and which roles it has.
use db_backup_tool.Base.{
  String, ◌==◌, true, some, List, [], ◌∷◌, ◌≡◌, sym, ◌⊎◌, inl, inr, Bool-cases, All,
}
use mathlib.Core.Path.{subst}
use db_backup_tool.Errors.{ok}
use db_backup_tool.Model.{Tenant, User, Role}
use db_backup_tool.Effects.{tenant_create, role_create, user_create, now}
use db_backup_tool.Effects.Inputs.{UserInput}
use db_backup_tool.Effects.Io.{Env, History, Event, gave, call, asks}
use db_backup_tool.Effects.Invert.{bind-ok, call-ok, pure-ok}
use db_backup_tool.Effects.Logic.{Keeps, keeps_rules, Keeps-bind}
use db_backup_tool.Effects.Happened.{Happened, kept, answered, later}
use db_backup_tool.Auth.Permissions.{system_roles}
use db_backup_tool.Tenancy.{RegisterInput, create_role, create_others, keys_of, create_tenant}

-- A role of the system was created for a tenant, with all its permissions.
abbrev pub IsCreated : (tenant_id : String) → History → String × List String → Type 0
IsCreated tenant_id h (name, keys) =
    (role : Role) × Happened
      (gave
        (role_create
          (record { tenant_id = tenant_id; name = name; is_system = true; permissions = keys }))
        (ok role))
      h

-- Each of the roles that is not the owner's was created.
abbrev pub OthersCreated : (tenant_id : String) → List (String × List String) → History → Type 0
OthersCreated tenant_id roles h =
    All (λ r. ((r.0 == "Owner") ≡ true) ⊎ IsCreated tenant_id h r) roles

OthersCreated-later :
    (tenant_id : String) (roles : List (String × List String)) (x : Event) (h : History)
    → OthersCreated tenant_id roles h
    → OthersCreated tenant_id roles (x ∷ h)
OthersCreated-later tenant_id [] x h made = tt
OthersCreated-later tenant_id (r ∷ roles) x h (inl owner, made) =
    (inl owner, OthersCreated-later tenant_id roles x h made)
OthersCreated-later tenant_id (r ∷ roles) x h (inr (role, before), made) =
    (inr (role, inr before), OthersCreated-later tenant_id roles x h made)

module _ (env : Env) (tenant_id : String) where
  create_role-ok :
      (name : String) (keys : List String) (h : History) {role : Role} {h' : History}
      → create_role tenant_id name keys env h ≡ (ok role, h')
      → Happened
          (gave
            (role_create
              (record { tenant_id = tenant_id; name = name; is_system = true; permissions = keys }))
            (ok role))
          h'
  unfolding create_role
  create_role-ok name keys h e = answered _ env h e

  pub role-Happened :
      (x : Event) (name : String) (keys : List String)
      → Keeps env (Happened x) (create_role tenant_id name keys)
  unfolding create_role
  role-Happened x name keys = search (keeps_rules, inr)

  pub others-Happened :
      (x : Event) (roles : List (String × List String))
      → Keeps env (Happened x) (create_others tenant_id roles)
  unfolding create_others
  others-Happened x [] = search keeps_rules
  others-Happened x ((name, keys) ∷ roles) =
      let rest = others-Happened x roles in
      elim (Bool-cases (name == "Owner")) [
        | inl owner ↦ rw owner rest
        | inr other ↦ rw other (
            Keeps-bind (create_role tenant_id name keys) (λ _. create_others tenant_id roles)
              (role-Happened x name keys) (λ _. rest))
      ]

  -- The loop over the other roles creates each of them.
  create_others-ok :
      (roles : List (String × List String)) (h : History) {h' : History}
      → create_others tenant_id roles env h ≡ (ok tt, h')
      → OthersCreated tenant_id roles h'
  unfolding create_others
  create_others-ok [] h e = tt
  create_others-ok ((name, keys) ∷ roles) h e = elim (Bool-cases (name == "Owner")) [
    | inl owner ↦ (inl owner, create_others-ok roles h (rw owner at e))
    | inr other ↦
        let (role, h₁, made, rest) =
          bind-ok (create_role tenant_id name keys) (λ _. create_others tenant_id roles) env h
            (rw other at e) in
        (
          inr (
            role,
            kept env (Happened _) (create_others tenant_id roles) h₁ (others-Happened _ roles) rest
                (create_role-ok name keys h made),
          ),
          create_others-ok roles h₁ rest,
        )
  ]

-- A tenant of a new owner: the owner has the owner's role, with all its permissions, and the other
-- roles of the system were created.
pub record IsOwned (input : RegisterInput) (password_hash : String) (tenant : Tenant) (user : User)
    (h' : History) : Type 0 where
  pub slug : String
  pub owner : Role
  pub tenant_created : Happened (gave (tenant_create input.tenant_name slug) (ok tenant)) h'
  pub role_created :
      Happened
        (gave
          (role_create (record {
            tenant_id = tenant.id;
            name = "Owner";
            is_system = true;
            permissions = keys_of "Owner" system_roles;
          }))
          (ok owner))
        h'
  pub others_created : OthersCreated tenant.id system_roles h'
  pub user_created :
      Happened
        (gave
          (user_create (record {
            tenant_id = tenant.id;
            email = input.email;
            name = input.name;
            password_hash = password_hash;
            role_id = some owner.id;
          }))
          (ok user))
        h'

module _ (env : Env) (input : RegisterInput) (password_hash : String) where
  pub IsOwned-later :
      (tenant : Tenant) (user : User) (x : Event) (h : History)
      → IsOwned input password_hash tenant user h
      → IsOwned input password_hash tenant user (x ∷ h)
  IsOwned-later tenant user x h o = record {
    slug = o.slug;
    owner = o.owner;
    tenant_created = inr o.tenant_created;
    role_created = inr o.role_created;
    others_created = OthersCreated-later tenant.id system_roles x h o.others_created;
    user_created = inr o.user_created;
  }

  pub create_tenant-IsOwned :
      (slug : String) (h : History) {tenant : Tenant} {user : User} {h' : History}
      → create_tenant input slug password_hash env h ≡ (ok (tenant, user), h')
      → IsOwned input password_hash tenant user h'
  unfolding create_tenant
  create_tenant-IsOwned slug h {h'} e =
      let (time, h₁, told, r₁) = bind-ok (call now) _ env h e in
      let (suffix, h₂, read, r₂) = bind-ok (asks (λ env. env.to_base36 time)) _ env h₁ r₁ in
      let (tenant, h₃, made, r₃) = bind-ok (call (tenant_create input.tenant_name _)) _ env h₂ r₂ in
      let (owner, h₄, given, r₄) =
        bind-ok (create_role tenant.id "Owner" (keys_of "Owner" system_roles)) _ env h₃ r₃ in
      let (u, h₅, others, r₅) = bind-ok (create_others tenant.id system_roles) _ env h₄ r₄ in
      let new : UserInput = record {
        tenant_id = tenant.id;
        email = input.email;
        name = input.name;
        password_hash = password_hash;
        role_id = some owner.id;
      } in
      let (user, h₆, joined, r₆) = bind-ok (call (user_create new)) _ env h₅ r₅ in
      let (pair, over) = pure-ok r₆ in
      let behind : (x : Event) → Happened x h₄ → Happened x h₆ = λ x p.
        later x (user_create new) env h₅ joined (
          kept env (Happened x) (create_others tenant.id system_roles) h₄
            (others-Happened env tenant.id x system_roles) others p) in
      let owned : IsOwned input password_hash tenant user h₆ = record {
        slug = _;
        owner = owner;
        tenant_created = behind _ (
            kept env (Happened _) (create_role tenant.id "Owner" (keys_of "Owner" system_roles)) h₃
              (role-Happened env tenant.id _ "Owner" _) given
              (answered (tenant_create input.tenant_name _) env h₂ made));
        role_created = behind _ (create_role-ok env tenant.id "Owner" _ h₃ given);
        others_created =
            subst (OthersCreated tenant.id system_roles)
              (sym (call-ok (user_create new) env h₅ joined).1)
              (OthersCreated-later tenant.id system_roles _ h₅
                (create_others-ok env tenant.id system_roles h₄ others));
        user_created = answered (user_create new) env h₅ joined;
      } in
      subst (λ x. IsOwned input password_hash x.0 x.1 h') pair
        (subst (IsOwned input password_hash tenant user) over owned)
