-- ===== src/Tenancy.antt =====
-- src/modules/tenancy/bootstrap.ts: a new tenant with its roles and its owner. What happens inside
-- one transaction is a sequence of calls; that a failed transaction leaves nothing is the database's
-- part.
pub mod Slugs
pub mod Owned
pub mod Registered
pub mod Named
use db_backup_tool.Base.{
  leb, eqb, String, ◌<>◌, ◌==◌, show_nat, Char, code, Bool, true, false, ◌&&◌, ◌||◌, if◌then◌else◌,
  Option, none, some, List, [], ◌∷◌,
}
use db_backup_tool.Base.Json.{object, str}
use db_backup_tool.Errors.{conflict}
use db_backup_tool.Model.{Tenant, User, Role}
use db_backup_tool.Effects.{
  permission_upsert, role_create, user_find_by_email, hash_password, tenant_create, user_create,
  now,
}
use db_backup_tool.Effects.Io.{Io, call, pure, throw, asks, for_each, ◌>>=◌, ◌>>◌}
use db_backup_tool.Auth.Permissions.{permissions, system_roles}
use db_backup_tool.Audit.{audit}

-- `ensurePermissions`
unfoldable pub ensure_permissions : Io (Unit {0})
ensure_permissions =
    for_each permissions (λ (key, description). call (permission_upsert key description))

unfoldable pub create_role : (tenant_id name : String) → (keys : List String) → Io Role
create_role tenant_id name keys = call (
    role_create
      (record { tenant_id = tenant_id; name = name; is_system = true; permissions = keys }))

-- `createSystemRoles`: the identifier of each role, by its name.
unfoldable pub create_roles :
    (tenant_id : String) → List (String × List String) → Io (List (String × String))
create_roles tenant_id [] = pure []
create_roles tenant_id ((name, keys) ∷ roles) =
    let later = create_roles tenant_id roles in
    create_role tenant_id name keys >>= λ role. later >>= λ ids. pure ((name, role.id) ∷ ids)

unfoldable pub create_system_roles : (tenant_id : String) → Io (List (String × String))
create_system_roles tenant_id = create_roles tenant_id system_roles

-- `RegisterInput`
pub record RegisterInput : Type 0 where
  pub tenant_name : String
  pub email : String
  pub password : String
  pub name : Option String

-- `[a-z0-9]`
abbrev pub is_slug_char : Char → Bool
is_slug_char c = (leb 97 (code c) && leb (code c) 122) || (leb 48 (code c) && leb (code c) 57)

-- `.replace(/[^a-z0-9]+/g, '-')`: `inside` says that the character before was replaced.
unfoldable pub dashed : (inside : Bool) → String → String
dashed inside String.[] = ""
dashed inside (String.◌∷◌ c s) =
    let plain = dashed false s in
    let replaced = dashed true s in
    if is_slug_char c
    then String.◌∷◌ c plain
    else if inside
    then replaced
    else String.◌∷◌ "-" replaced

-- `.replace(/(^-|-$)/g, '')`
abbrev pub trim_start : String → String
trim_start String.[] = ""
trim_start (String.◌∷◌ c s) = if eqb (code c) 45 then s else String.◌∷◌ c s

abbrev pub trim_end : String → String
trim_end String.[] = ""
trim_end (String.◌∷◌ c String.[]) = if eqb (code c) 45 then "" else String.◌∷◌ c ""
trim_end (String.◌∷◌ c (String.◌∷◌ d s)) = String.◌∷◌ c (trim_end (String.◌∷◌ d s))

unfoldable pub slug_of : (lowered : String) → String
slug_of lowered = trim_end (trim_start (dashed false lowered))

-- `|| t-${Date.now()}`
unfoldable pub slug_or : String → Io String
slug_or slug = if slug == "" then (call now >>= λ time. pure ("t-" <> show_nat time)) else pure slug

-- The roles of the loop that skips the owner's.
unfoldable pub create_others : (tenant_id : String) → List (String × List String) → Io (Unit {0})
create_others tenant_id [] = pure tt
create_others tenant_id ((name, keys) ∷ roles) =
    let later = create_others tenant_id roles in
    if name == "Owner" then later else create_role tenant_id name keys >>= λ role. later

-- `SYSTEM_ROLES.Owner`
abbrev keys_of : (name : String) → List (String × List String) → List String
keys_of name [] = []
keys_of name ((other, keys) ∷ roles) = if name == other then keys else keys_of name roles

-- The transaction of `registerTenant`.
unfoldable pub create_tenant : RegisterInput → (slug password_hash : String) → Io (Tenant × User)
create_tenant input slug password_hash = do
  time ← call now
  suffix ← asks (λ env. env.to_base36 time)
  tenant ← call (tenant_create input.tenant_name (slug <> "-" <> suffix))
  owner ← create_role tenant.id "Owner" (keys_of "Owner" system_roles)
  create_others tenant.id system_roles
  user ← call (
      user_create (record {
        tenant_id = tenant.id;
        email = input.email;
        name = input.name;
        password_hash = password_hash;
        role_id = some owner.id;
      }))
  pure (tenant, user)

-- `if (existing) throw`
abbrev none_or_conflict : Option User → Io (Unit {0})
none_or_conflict none = pure tt
none_or_conflict (some user) = throw (conflict "A user with this email already exists")

-- `registerTenant`
unfoldable pub register_tenant : RegisterInput → Io (Tenant × User)
register_tenant input = do
  ensure_permissions
  existing ← call (user_find_by_email input.email)
  none_or_conflict existing
  lowered ← asks (λ env. env.to_lower input.tenant_name)
  slug ← slug_or (slug_of lowered)
  password_hash ← call (hash_password input.password)
  made ← create_tenant input slug password_hash
  audit (record {
    tenant_id = made.0.id;
    actor_id = some made.1.id;
    actor_email = some made.1.email;
    action = "tenant.registered";
    target = some ("tenant:" <> made.0.id);
    meta = some (object (("tenantName", str input.tenant_name) ∷ []));
    ip = none;
  })
  pure made
