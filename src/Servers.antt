-- ===== src/Servers.antt =====
-- src/modules/servers/serverService.ts and src/db/adapters/index.ts: servers with their encrypted
-- credential, and the adapter built from one.
pub mod Sealing
use db_backup_tool.Base.{String, ℕ, Option, none, some, ◌otherwise◌, or_else}
use db_backup_tool.Errors.{Err, not_found}
use db_backup_tool.Model.{Engine, mysql, mariadb, postgres, SslMode, disable, DbServer, Credential}
use db_backup_tool.Effects.{server_create, server_find_first, credential_update}
use db_backup_tool.Effects.Inputs.{
  EncryptedSecret, ConnectionInfo, Adapter, mysql_adapter, postgres_adapter,
}
use db_backup_tool.Effects.Inputs
use db_backup_tool.Effects.Io.{Env, Io, call, pure, throw, lift, ◌>>=◌}
use db_backup_tool.Crypto.{encrypt_secret, decrypt_secret}

-- `ServerInput`
pub record ServerInput : Type 0 where
  pub name : String
  pub engine : Engine
  pub host : String
  pub port : ℕ
  pub ssl_mode : Option SslMode
  pub username : String
  pub password : String
  pub database : Option String

-- `createServer`
unfoldable pub create_server : (tenant_id : String) → ServerInput → Io DbServer
create_server tenant_id input = do
  enc ← encrypt_secret input.password
  call (
      server_create tenant_id
        (record {
          name = input.name;
          engine = input.engine;
          host = input.host;
          port = input.port;
          ssl_mode = input.ssl_mode otherwise disable;
          username = input.username;
          database = input.database;
        })
        enc)

-- `updateServerCredentialPassword`
unfoldable pub update_server_credential_password : (server_id password : String) → Io (Unit {0})
update_server_credential_password server_id password = do
  enc ← encrypt_secret password
  call (credential_update server_id enc)

-- The secret that a credential's row holds.
abbrev pub secret_in : Credential → EncryptedSecret
secret_in c = record {
  ciphertext = c.ciphertext;
  auth_tag = c.auth_tag;
  iv = c.iv;
  dek_wrapped = c.dek_wrapped;
  key_version = c.key_version;
}

abbrev pub connection_to :
    DbServer
    → Credential
    → (override_database : Option String) → (password : String) → ConnectionInfo
connection_to server c override_database password = record {
  engine = server.engine;
  host = server.host;
  port = server.port;
  username = c.username;
  password = password;
  database = or_else override_database c.database;
  ssl_mode = server.ssl_mode;
}

-- `getConnectionInfo`, from the row that was found.
unfoldable pub connection_of :
    (override_database : Option String) → Option DbServer → Option Credential → Io ConnectionInfo
connection_of override_database (some server) (some c) = do
  password ← (λ env. lift (decrypt_secret env (secret_in c)) env)
  pure (connection_to server c override_database password)
connection_of override_database _ _ = throw (not_found "Server not found")

abbrev credential_of : Option DbServer → Option Credential
credential_of none = none
credential_of (some server) = server.credential

-- `getConnectionInfo`
unfoldable pub get_connection_info :
    (server_id tenant_id : String) (override_database : Option String) → Io ConnectionInfo
get_connection_info server_id tenant_id override_database = do
  found ← call (server_find_first server_id tenant_id)
  connection_of override_database found (credential_of found)

abbrev adapter_for : Engine → ConnectionInfo → Adapter
adapter_for mysql conn = mysql_adapter conn
adapter_for mariadb conn = mysql_adapter conn
adapter_for postgres conn = postgres_adapter conn

-- `createAdapter`
unfoldable pub create_adapter : ConnectionInfo → Adapter
create_adapter conn = adapter_for conn.engine conn

-- `getAdapter`
unfoldable pub get_adapter : (server_id tenant_id : String) (database : Option String) → Io Adapter
get_adapter server_id tenant_id database = do
  conn ← get_connection_info server_id tenant_id database
  pure (create_adapter conn)
