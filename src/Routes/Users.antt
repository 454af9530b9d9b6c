-- ===== src/Routes/Users.antt =====
-- src/api/routes/users.routes.ts. The bodies are what the schemas let through.
use db_backup_tool.Base.{String, ◌<>◌, ◌==◌, if◌then◌else◌, Option, none, some, [], ◌∷◌}
use db_backup_tool.Base.Json.{object, str}
use db_backup_tool.Errors.{not_found, bad_request}
use db_backup_tool.Model.{User, UserStatus, Role}
use db_backup_tool.Effects.{
  user_find_first, user_create, user_update, user_delete, role_find_first, role_assign,
  hash_password,
}
use db_backup_tool.Effects.Io.{Io, call, pure, throw, found_or, ◌>>=◌, ◌>>◌}
use db_backup_tool.Auth.{AuthContext}
use db_backup_tool.Audit.{audit}
use db_backup_tool.Routes.{Response, Parsed, parse_body, by}

-- `publicUser`, without the roles.
pub record PublicUser : Type 0 where
  pub id : String
  pub email : String
  pub name : Option String
  pub status : UserStatus

abbrev pub public_user : User → PublicUser
public_user u = record { id = u.id; email = u.email; name = u.name; status = u.status }

-- `createSchema`
pub record CreateBody : Type 0 where
  pub email : String
  pub name : Option String
  pub password : String
  pub role_id : Option String

unfoldable pub find_role : (tenant_id role_id : String) → Io Role
find_role tenant_id role_id = do
  role ← call (role_find_first role_id tenant_id)
  found_or (bad_request "Invalid role" none) role

unfoldable pub check_role : (tenant_id : String) → Option String → Io (Unit {0})
check_role tenant_id none = pure tt
check_role tenant_id (some role_id) = do role ← find_role tenant_id role_id; pure tt

-- POST /users
unfoldable pub create : AuthContext → Parsed CreateBody → Io (Response PublicUser)
create auth body = do
  input ← parse_body body
  check_role auth.tenant_id input.role_id
  password_hash ← call (hash_password input.password)
  user ← call (
      user_create (record {
        tenant_id = auth.tenant_id;
        email = input.email;
        name = input.name;
        password_hash = password_hash;
        role_id = input.role_id;
      }))
  audit (
      by auth "user.created" (some ("user:" <> user.id))
        (some (object (("email", str input.email) ∷ []))))
  pure (record { status = 201; body = public_user user })

-- `updateSchema`
pub record UpdateBody : Type 0 where
  pub name : Option String
  pub status : Option UserStatus
  pub password : Option String

unfoldable pub hash_new : Option String → Io (Option String)
hash_new none = pure none
hash_new (some password) = do hashed ← call (hash_password password); pure (some hashed)

unfoldable pub find_user : (tenant_id id : String) → Io User
find_user tenant_id id = do
  user ← call (user_find_first id tenant_id)
  found_or (not_found "User not found") user

-- PATCH /users/:id
unfoldable pub update : AuthContext → (id : String) → Parsed UpdateBody → Io (Response PublicUser)
update auth id body = do
  input ← parse_body body
  existing ← find_user auth.tenant_id id
  password_hash ← hash_new input.password
  user ← call (
      user_update existing.id
        (record { name = input.name; status = input.status; password_hash = password_hash }))
  audit (by auth "user.updated" (some ("user:" <> user.id)) none)
  pure (record { status = 200; body = public_user user })

unfoldable pub delete_other : AuthContext → (id : String) → Io (Response (Unit {0}))
delete_other auth id = do
  existing ← find_user auth.tenant_id id
  call (user_delete existing.id)
  audit (by auth "user.deleted" (some ("user:" <> existing.id)) none)
  pure (record { status = 204; body = tt })

-- DELETE /users/:id
unfoldable pub delete : AuthContext → (id : String) → Io (Response (Unit {0}))
delete auth id =
    if id == auth.user_id
    then throw (bad_request "You cannot delete yourself" none)
    else delete_other auth id

-- POST /users/:id/roles
unfoldable pub assign : AuthContext → (id : String) → Parsed String → Io (Response (Unit {0}))
assign auth id body = do
  role_id ← parse_body body
  user ← find_user auth.tenant_id id
  role ← find_role auth.tenant_id role_id
  call (role_assign user.id role_id)
  audit (
      by auth "user.role_assigned" (some ("user:" <> user.id))
        (some (object (("roleId", str role_id) ∷ []))))
  pure (record { status = 200; body = tt })
