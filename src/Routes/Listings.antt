-- ===== src/Routes/Listings.antt =====
-- The listings of src/api/routes/servers.routes.ts, backups.routes.ts, schedules.routes.ts and
-- users.routes.ts, and GET /auth/me of auth.routes.ts.
use db_backup_tool.Base.{String, Option, none, Bool, List, map, length}
use db_backup_tool.Errors.{foreign}
use db_backup_tool.Model.{User, Role, Schedule}
use db_backup_tool.Effects.{
  server_find_many, server_count, backup_find_many, backup_count, schedule_find_many,
  user_find_many, role_find_many, user_find_unique,
}
use db_backup_tool.Effects.Io.{Io, call, pure, found_or, ◌>>=◌}
use db_backup_tool.Auth.{AuthContext}
use db_backup_tool.Routes.{Response}
use db_backup_tool.Routes.Jobs.{Listing}
use db_backup_tool.Routes.Servers.{PublicServer, public_server}
use db_backup_tool.Routes.Backups.{PublicBackup, public_backup}
use db_backup_tool.Routes.Users.{PublicUser, public_user}

-- GET /servers
unfoldable pub servers : AuthContext → Io (Response (Listing PublicServer))
servers auth = do
  rows ← call (server_find_many auth.tenant_id)
  total ← call (server_count auth.tenant_id)
  pure
      (record { status = 200; body = record { data_rows = map public_server rows; total = total } })

-- GET /backups: those that are not deleted.
unfoldable pub backups : AuthContext → Io (Response (Listing PublicBackup))
backups auth = do
  rows ← call (backup_find_many auth.tenant_id 100)
  total ← call (backup_count auth.tenant_id)
  pure
      (record { status = 200; body = record { data_rows = map public_backup rows; total = total } })

-- GET /schedules
unfoldable pub schedules : AuthContext → Io (Response (Listing Schedule))
schedules auth = do
  rows ← call (schedule_find_many auth.tenant_id)
  pure (record { status = 200; body = record { data_rows = rows; total = length rows } })

pub record RoleName : Type 0 where
  pub id : String
  pub name : String

abbrev with_roles : User × List Role → PublicUser × List RoleName
with_roles (user, roles) = (public_user user, map (λ r. record { id = r.id; name = r.name }) roles)

-- GET /users
unfoldable pub users : AuthContext → Io (Response (Listing (PublicUser × List RoleName)))
users auth = do
  rows ← call (user_find_many auth.tenant_id)
  pure (record {
    status = 200;
    body = record { data_rows = map with_roles rows; total = length rows };
  })

pub record PublicRole : Type 0 where
  pub id : String
  pub name : String
  pub is_system : Bool
  pub permissions : List String

abbrev public_role : Role → PublicRole
public_role r = record {
  id = r.id;
  name = r.name;
  is_system = r.is_system;
  permissions = r.permissions;
}

-- GET /roles
unfoldable pub roles : AuthContext → Io (Response (List PublicRole))
roles auth = do
  rows ← call (role_find_many auth.tenant_id)
  pure (record { status = 200; body = map public_role rows })

pub record Me : Type 0 where
  pub id : String
  pub email : String
  pub name : Option String
  pub tenant_id : String
  pub permissions : List String

-- GET /auth/me, which reads the fields of the row without a test that there is one.
unfoldable pub me : AuthContext → Io (Response Me)
me auth = do
  row ← call (user_find_unique auth.user_id)
  user ← found_or (foreign "TypeError" none "Cannot read properties of null (reading 'id')") row
  pure (record {
    status = 200;
    body = record {
      id = user.id;
      email = user.email;
      name = user.name;
      tenant_id = user.tenant_id;
      permissions = auth.permissions;
    };
  })
