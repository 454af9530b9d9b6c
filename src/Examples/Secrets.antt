-- ===== src/Examples/Secrets.antt =====
-- Sealed passwords at concrete inputs.
use db_backup_tool.Base.{String, [], ◌∷◌, ◌≡◌, refl, none, some, Option}
use db_backup_tool.Examples.World.{world, world-IsReversible, server_row}
use db_backup_tool.Errors.{Result, ok}
use db_backup_tool.Model.{DbServer, Credential, mysql}
use db_backup_tool.Effects.{random_bytes, server_create, server_find_first}
use db_backup_tool.Effects.Inputs.{EncryptedSecret}
use db_backup_tool.Effects.Io.{History, gave, ◌>>=◌}
use db_backup_tool.Crypto.{
  encrypt_secret, decrypt_secret, aes_encrypt, wrap_dek, get_kek, seal, pack, secret_of,
}
use db_backup_tool.Crypto.RoundTrip.{decrypt-encrypt}
use db_backup_tool.Servers.{
  ServerInput, create_server, secret_in, connection_to, get_connection_info,
}
use db_backup_tool.Servers.Sealing.{get_connection_info-create_server}

-- What encrypting "pw" gives.
abbrev sealed : EncryptedSecret
sealed =
    secret_of world (seal world (4 ∷ []) (world.utf8 "pw") (4 ∷ []))
      (pack world (seal world (world.from_base64 world.master_key) (4 ∷ []) (4 ∷ [])))

abbrev drawn : History
drawn =
    gave (random_bytes 12) (ok (4 ∷ []))
    ∷ gave (random_bytes 12) (ok (4 ∷ []))
    ∷ gave (random_bytes 32) (ok (4 ∷ []))
    ∷ []

encrypted : encrypt_secret "pw" world [] ≡ (ok sealed, drawn)
unfolding encrypt_secret aes_encrypt wrap_dek get_kek seal pack secret_of ◌>>=◌
encrypted = refl

decrypt-encrypt_example : decrypt_secret world sealed ≡ ok "pw"
decrypt-encrypt_example = decrypt-encrypt world [] "pw" world-IsReversible encrypted

abbrev input : ServerInput
input = record {
  name = "main";
  engine = mysql;
  host = "db";
  port = 3306;
  ssl_mode = none;
  username = "root";
  password = "pw";
  database = none;
}

abbrev run : Result DbServer × History
run = create_server "t1" input world []

created : run ≡ (ok server_row, run.1)
unfolding create_server encrypt_secret aes_encrypt wrap_dek get_kek seal pack secret_of ◌>>=◌
created = refl

get_connection_info-create_server_example :
    (enc : EncryptedSecret) × (row : db_backup_tool.Effects.Inputs.ServerInput) × (before : History)
    × (run.1 ≡ gave (server_create "t1" row enc) (ok server_row) ∷ before)
    × ((later : History) (id : String) (database : Option String) (server : DbServer)
          (c : Credential)
        → server.credential ≡ some c
        → secret_in c ≡ enc
        → world.answer later (server_find_first id "t1") ≡ ok (some server)
        → (get_connection_info id "t1" database world later).0
          ≡ ok (connection_to server c database "pw"))
get_connection_info-create_server_example =
    get_connection_info-create_server world [] "t1" input server_row run.1 world-IsReversible
      created
