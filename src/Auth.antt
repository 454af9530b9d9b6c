-- ===== src/Auth.antt =====
-- src/auth/: who a request comes from and what it may do (context.ts, jwt.ts, middleware.ts,
-- password.ts, rbac.ts).
pub mod Permissions
pub mod Guards
use db_backup_tool.Base.{
  String, ◌<>◌, ◌==◌, Bool, true, false, ◌||◌, Option, none, some, List, [], ◌∷◌, ◌++◌,
  if◌then◌else◌, starts_with, drop_chars,
}
use db_backup_tool.Errors.{Err, Result, ok, err, unauthorized, forbidden, name_of}
use db_backup_tool.Effects.{verify_access, role_assignments}
use db_backup_tool.Effects.Inputs.{AccessTokenPayload}
use db_backup_tool.Effects.Io.{Io, call, pure, lift, ◌>>◌, throw, try_catch, ◌>>=◌}

-- `AuthContext`
pub record AuthContext : Type 0 where
  pub user_id : String
  pub tenant_id : String
  pub email : String
  pub permissions : List String

-- `Set.prototype.has` and `add`, over a list with no repetitions.
unfoldable pub has : List String → String → Bool
has [] p = false
has (q ∷ qs) p = p == q || has qs p

unfoldable pub add : List String → String → List String
unfolding has
add perms p = if has perms p then perms else perms ++ p ∷ []

add_all : List String → List String → List String
unfolding add
add_all perms [] = perms
add_all perms (p ∷ ps) = add_all (add perms p) ps

-- The loops of `getUserPermissions`: each assignment has the permission keys of its role.
unfoldable pub union : List String → List (List String) → List String
unfolding add_all
union perms [] = perms
union perms (role ∷ roles) = union (add_all perms role) roles

-- `getUserPermissions`
unfoldable pub get_user_permissions : (user_id : String) → Io (List String)
get_user_permissions user_id = do
  assignments ← call (role_assignments user_id)
  pure (union [] assignments)

-- The context that a bearer token gives.
unfoldable pub context_of : (token : String) → Io AuthContext
context_of token = do
  payload ← call (verify_access token)
  permissions ← get_user_permissions payload.sub
  pure (record {
    user_id = payload.sub;
    tenant_id = payload.tid;
    email = payload.email;
    permissions = permissions;
  })

-- The `try` block of `authenticate`, with the value of the Authorization header.
unfoldable pub resolve_auth : Option String → Io AuthContext
resolve_auth none = throw (unauthorized "Missing bearer token")
resolve_auth (some header) =
    if starts_with header "Bearer "
    then context_of (drop_chars 7 header)
    else throw (unauthorized "Missing bearer token")

-- The errors that `authenticate` hands on.
unfoldable pub auth_error : Err → Err
auth_error e =
    if name_of e == "TokenExpiredError"
    then unauthorized "Token expired"
    else if name_of e == "JsonWebTokenError"
    then unauthorized "Invalid token"
    else e

-- `authenticate`: the context of the request, or the error for `next`.
unfoldable pub authenticate : Option String → Io AuthContext
authenticate header = try_catch (resolve_auth header) (λ e. throw (auth_error e))

first_missing : List String → List String → Option String
unfolding has
first_missing perms [] = none
first_missing perms (p ∷ ps) =
    let rest = first_missing perms ps in if has perms p then rest else some p

abbrev refuse : Option String → Result (Unit {0})
refuse none = ok tt
refuse (some p) = err (forbidden ("Missing permission: " <> p))

-- `requirePermission`, for the context that `authenticate` left, if any.
unfoldable pub require_permission : List String → Option AuthContext → Result (Unit {0})
unfolding first_missing
require_permission required none = err (unauthorized "Unauthorized")
require_permission required (some auth) = refuse (first_missing auth.permissions required)

-- The chain in front of a route's handler: `authenticate`, then `requirePermission(...required)`.
unfoldable pub guarded : (required : List String) → (header : Option String) → Io AuthContext
guarded required header = do
  auth ← authenticate header
  lift (require_permission required (some auth))
  pure auth
