-- ===== src/Routes/Servers.antt =====
-- src/api/routes/servers.routes.ts.
use db_backup_tool.Base.{ℕ, String, ◌<>◌, ◌==◌, if◌then◌else◌, Option, none, some, List, [], ◌∷◌}
use db_backup_tool.Base.Json.{object, str}
use db_backup_tool.Errors.{message_of}
use db_backup_tool.Model.{DbServer, Engine, mysql, mariadb, postgres, SslMode}
use db_backup_tool.Effects.{
  server_update, server_delete, adapter_test, adapter_list_databases, adapter_close,
}
use db_backup_tool.Effects.Inputs.{ServerPatch}
use db_backup_tool.Effects.Io.{Io, call, pure, attempt, lift, ◌>>=◌, ◌>>◌}
use db_backup_tool.Auth.{AuthContext}
use db_backup_tool.Audit.{audit}
use db_backup_tool.Servers.{
  ServerInput, create_server, update_server_credential_password, get_adapter,
}
use db_backup_tool.Routes.{Response, Parsed, parse_body, by, find_server}
use db_backup_tool.Errors.{Result, ok, err}

-- `publicServer`
pub record PublicServer : Type 0 where
  pub id : String
  pub name : String
  pub engine : Engine
  pub host : String
  pub port : ℕ
  pub ssl_mode : SslMode

abbrev pub public_server : DbServer → PublicServer
public_server s = record {
  id = s.id;
  name = s.name;
  engine = s.engine;
  host = s.host;
  port = s.port;
  ssl_mode = s.ssl_mode;
}

abbrev engine_text : Engine → String
engine_text mysql = "mysql"
engine_text mariadb = "mariadb"
engine_text postgres = "postgres"

-- POST /servers
unfoldable pub create : AuthContext → Parsed ServerInput → Io (Response PublicServer)
create auth body = do
  input ← parse_body body
  server ← create_server auth.tenant_id input
  audit (
      by auth "server.created" (some ("server:" <> server.id)) (
        some (object (("name", str input.name) ∷ ("engine", str (engine_text input.engine)) ∷ []))))
  pure (record { status = 201; body = public_server server })

-- GET /servers/:id
unfoldable pub get : AuthContext → (id : String) → Io (Response PublicServer)
get auth id = do
  server ← find_server auth.tenant_id id "Server not found"
  pure (record { status = 200; body = public_server server })

-- `updateSchema`
pub record UpdateBody : Type 0 where
  pub rest : ServerPatch
  pub password : Option String

-- `if (password) await updateServerCredentialPassword(...)`
unfoldable pub change_password : (server_id : String) → Option String → Io (Unit {0})
change_password server_id none = pure tt
change_password server_id (some password) =
    if password == "" then pure tt else update_server_credential_password server_id password

-- PATCH /servers/:id
unfoldable pub update : AuthContext → (id : String) → Parsed UpdateBody → Io (Response PublicServer)
update auth id body = do
  input ← parse_body body
  existing ← find_server auth.tenant_id id "Server not found"
  server ← call (server_update existing.id input.rest)
  change_password server.id input.password
  audit (by auth "server.updated" (some ("server:" <> server.id)) none)
  pure (record { status = 200; body = public_server server })

-- DELETE /servers/:id
unfoldable pub delete : AuthContext → (id : String) → Io (Response (Unit {0}))
delete auth id = do
  existing ← find_server auth.tenant_id id "Server not found"
  call (server_delete existing.id)
  audit (by auth "server.deleted" (some ("server:" <> existing.id)) none)
  pure (record { status = 204; body = tt })

-- The error of the test, if any.
abbrev tested : Result (Unit {0}) → Response (Option String)
tested (ok u) = record { status = 200; body = none }
tested (err e) = record { status = 400; body = some (message_of e) }

-- POST /servers/:id/test
unfoldable pub test_connection : AuthContext → (id : String) → Io (Response (Option String))
test_connection auth id = do
  adapter ← get_adapter id auth.tenant_id none
  outcome ← attempt (call (adapter_test adapter))
  call (adapter_close adapter)
  pure (tested outcome)

-- GET /servers/:id/databases
unfoldable pub databases : AuthContext → (id : String) → Io (Response (List String))
databases auth id = do
  adapter ← get_adapter id auth.tenant_id none
  names ← attempt (call (adapter_list_databases adapter))
  call (adapter_close adapter)
  found ← lift names
  pure (record { status = 200; body = found })
