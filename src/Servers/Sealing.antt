-- ===== src/Servers/Sealing.antt =====
-- What a stored server gives back.
use db_backup_tool.Base.{String, Option, some, ◌≡◌, refl, ap, ◌∙◌, ◌∷◌}
use db_backup_tool.Errors.{ok}
use db_backup_tool.Model.{DbServer, Credential}
use db_backup_tool.Effects.{server_create, server_find_first}
use db_backup_tool.Effects.Inputs.{EncryptedSecret}
use db_backup_tool.Effects.Io.{Env, History, gave, ◌>>=◌}
use db_backup_tool.Effects.Invert.{bind-ok, call-ok}
use db_backup_tool.Crypto.{encrypt_secret, decrypt_secret}
use db_backup_tool.Crypto.RoundTrip.{IsReversible, decrypt-encrypt}
use db_backup_tool.Servers.{
  ServerInput, create_server, secret_in, connection_to, connection_of, get_connection_info,
}

connection-sealed :
    (env : Env) (h : History) (id tenant_id password : String) (database : Option String)
    (server : DbServer) (c : Credential)
    → server.credential ≡ some c
    → decrypt_secret env (secret_in c) ≡ ok password
    → env.answer h (server_find_first id tenant_id) ≡ ok (some server)
    → get_connection_info id tenant_id database env h ≡ (
      ok (connection_to server c database password),
      gave (server_find_first id tenant_id) (ok (some server)) ∷ h,
    )
unfolding get_connection_info connection_of ◌>>=◌
connection-sealed env h id tenant_id password database server c kept opened found =
    rw found (rw kept (rw opened refl))

-- With a cipher that can be undone, `createServer` ends by creating the server with a secret that is
-- as good as the password: for any row of the tenant that holds this secret, `getConnectionInfo`
-- gives the row's connection with the password that was given to `createServer`.
pub get_connection_info-create_server :
    (env : Env) (h : History) (tenant_id : String) (input : ServerInput) (made : DbServer)
    (h' : History)
    → IsReversible env
    → create_server tenant_id input env h ≡ (ok made, h')
    → (enc : EncryptedSecret) × (row : db_backup_tool.Effects.Inputs.ServerInput)
      × (before : History) × (h' ≡ gave (server_create tenant_id row enc) (ok made) ∷ before)
      × ((later : History) (id : String) (database : Option String) (server : DbServer)
            (c : Credential)
          → server.credential ≡ some c
          → secret_in c ≡ enc
          → env.answer later (server_find_first id tenant_id) ≡ ok (some server)
          → (get_connection_info id tenant_id database env later).0
            ≡ ok (connection_to server c database input.password))
unfolding create_server
get_connection_info-create_server env h tenant_id input made h' reversible e =
    let (enc, mid, sealed, rest) = bind-ok (encrypt_secret input.password) _ env h e in
    let (answered, trace) = call-ok (server_create tenant_id _ enc) env mid rest in
    (
      enc,
      _,
      mid,
      trace,
      λ later id database server c kept held found.
          ap (λ r. r.0)
            (connection-sealed env later id tenant_id input.password database server c kept
              (ap (decrypt_secret env) held
                ∙ decrypt-encrypt env h input.password reversible sealed)
              found),
    )
