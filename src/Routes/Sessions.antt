-- ===== src/Routes/Sessions.antt =====
-- src/api/routes/auth.routes.ts: signing in, and the renewal of a session.
pub mod Checked
use db_backup_tool.Base.{String, ◌==◌, if◌then◌else◌, Bool, true, false, Option, none, some, List}
use db_backup_tool.Errors.{unauthorized, Err}
use db_backup_tool.Model.{User, UserStatus, disabled}
use db_backup_tool.Effects.{
  user_find_by_email, user_find_unique, user_touch_login, verify_password, sign_access,
  sign_refresh, verify_refresh, now,
}
use db_backup_tool.Effects.Io.{Io, call, pure, throw, try_catch, ◌>>=◌, ◌>>◌}
use db_backup_tool.Auth.{get_user_permissions}
use db_backup_tool.Tenancy.{RegisterInput, register_tenant}
use db_backup_tool.Audit.{AuditEntry, audit}

-- The tokens of a response, with the permissions in its body.
pub record Session : Type 0 where
  pub access_token : String
  pub refresh_token : String
  pub user : User
  pub permissions : List String

-- `if (!user || user.status === 'disabled') throw`
abbrev pub usable : Err → Option User → UserStatus → Io User
usable e none status = throw e
usable e (some user) disabled = throw e
usable e (some user) _ = pure user

abbrev pub status_of : Option User → UserStatus
status_of none = disabled
status_of (some user) = user.status

unfoldable pub sign_in_entry : User → (email action : String) → Option String → AuditEntry
sign_in_entry user email action ip = record {
  tenant_id = user.tenant_id;
  actor_id = some user.id;
  actor_email = some email;
  action = action;
  target = none;
  meta = none;
  ip = ip;
}

-- The part of the handler behind the test of the password.
unfoldable pub signed_in : User → (email : String) → Option String → Bool → Io Session
signed_in user email ip false = do
  audit (sign_in_entry user email "auth.login_failed" ip)
  throw (unauthorized "Invalid credentials")
signed_in user email ip true = do
  time ← call now
  call (user_touch_login user.id time)
  access ← call (sign_access (record { sub = user.id; tid = user.tenant_id; email = user.email }))
  refresh ← call (sign_refresh (record { sub = user.id; tid = user.tenant_id; v = 1 }))
  permissions ← get_user_permissions user.id
  audit (sign_in_entry user email "auth.login" ip)
  pure (record {
    access_token = access;
    refresh_token = refresh;
    user = user;
    permissions = permissions;
  })

-- POST /auth/login
unfoldable pub login : (email password : String) → (ip : Option String) → Io Session
login email password ip = do
  found ← call (user_find_by_email email)
  user ← usable (unauthorized "Invalid credentials") found (status_of found)
  matches ← call (verify_password password user.password_hash)
  signed_in user email ip matches

-- The new access and refresh tokens.
unfoldable pub renew : (token : String) → Io (String × String)
renew token = do
  payload ←
      try_catch (call (verify_refresh token)) (λ e. throw (unauthorized "Invalid refresh token"))
  found ← call (user_find_unique payload.sub)
  user ← usable (unauthorized "Invalid refresh token") found (status_of found)
  access ← call (sign_access (record { sub = user.id; tid = user.tenant_id; email = user.email }))
  refresh ← call (sign_refresh (record { sub = user.id; tid = user.tenant_id; v = payload.v }))
  pure (access, refresh)

-- POST /auth/refresh, with the value of the cookie.
unfoldable pub refresh : Option String → Io (String × String)
refresh none = throw (unauthorized "Missing refresh token")
refresh (some token) =
    if token == "" then throw (unauthorized "Missing refresh token") else renew token

-- POST /auth/register, its body parsed.
unfoldable pub register : RegisterInput → Io Session
register input = do
  made ← register_tenant input
  let tenant = made.0
  let user = made.1
  access ← call (sign_access (record { sub = user.id; tid = tenant.id; email = user.email }))
  refresh ← call (sign_refresh (record { sub = user.id; tid = tenant.id; v = 1 }))
  permissions ← get_user_permissions user.id
  pure (record {
    access_token = access;
    refresh_token = refresh;
    user = user;
    permissions = permissions;
  })
