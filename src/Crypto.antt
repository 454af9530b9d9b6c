-- ===== src/Crypto.antt =====
-- src/lib/crypto.ts: envelope encryption of credentials. The cipher, base64 and UTF-8 are functions
-- of the environment.
pub mod RoundTrip
use db_backup_tool.Base.{ℕ, String, ◌<>◌, eqb, if◌then◌else◌, List, [], ◌∷◌, length, Option, none}
use db_backup_tool.Base.Text.Split.{split}
use db_backup_tool.Errors.{Result, ok, err, Err, foreign}
use db_backup_tool.Effects.{random_bytes}
use db_backup_tool.Effects.Inputs.{EncryptedSecret}
use db_backup_tool.Effects.Io.{Env, Io, call, pure, asks, lift, ◌>>=◌}

-- `getKek`
unfoldable pub get_kek : Env → Result (List ℕ)
get_kek env =
    let key = env.from_base64 env.master_key in
    if eqb (length key) 32
    then ok key
    else err (foreign "Error" none "CREDENTIAL_MASTER_KEY must be a base64-encoded 32-byte key")

pub record Sealed : Type 0 where
  pub iv : List ℕ
  pub tag : List ℕ
  pub body : List ℕ

unfoldable pub seal : Env → (key plaintext iv : List ℕ) → Sealed
seal env key plaintext iv =
    let (tag, body) = env.aes_encrypt key iv plaintext in record { iv = iv; tag = tag; body = body }

-- `aesEncrypt`
unfoldable pub aes_encrypt : (key plaintext : List ℕ) → Io Sealed
aes_encrypt key plaintext = do iv ← call (random_bytes 12); asks (λ env. seal env key plaintext iv)

-- The segments of a wrapped key.
unfoldable pub pack : Env → Sealed → String
pack env sealed =
    env.base64 sealed.iv <> ":" <> env.base64 sealed.tag <> ":" <> env.base64 sealed.body

-- `wrapDek`
unfoldable pub wrap_dek : (dek : List ℕ) → Io String
wrap_dek dek = do
  kek ← (λ env. lift (get_kek env) env)
  sealed ← aes_encrypt kek dek
  asks (λ env. pack env sealed)

abbrev missing_segment : Err
missing_segment =
    foreign "TypeError" (Option.some "ERR_INVALID_ARG_TYPE")
      "The first argument must be of type string"

-- The three segments of a wrapped key; a segment that is not there makes `Buffer.from` throw.
unfoldable pub open_segments : Env → (kek : List ℕ) → List String → Result (List ℕ)
open_segments env kek (iv ∷ tag ∷ body ∷ rest) =
    env.aes_decrypt kek (env.from_base64 iv) (env.from_base64 tag) (env.from_base64 body)
open_segments env kek _ = err missing_segment

abbrev pub and_then : {A B : Type 0} → Result A → (A → Result B) → Result B
and_then (ok a) f = f a
and_then (err e) f = err e

-- `unwrapDek`
unfoldable pub unwrap_dek : Env → (wrapped : String) → Result (List ℕ)
unwrap_dek env wrapped = and_then (get_kek env) (λ kek. open_segments env kek (split b':' wrapped))

-- The fields of an encrypted secret.
unfoldable pub secret_of : Env → Sealed → (wrapped : String) → EncryptedSecret
secret_of env sealed wrapped = record {
  ciphertext = env.base64 sealed.body;
  auth_tag = env.base64 sealed.tag;
  iv = env.base64 sealed.iv;
  dek_wrapped = wrapped;
  key_version = env.key_version;
}

-- `encryptSecret`. The wipe of the key in memory leaves nothing to see.
unfoldable pub encrypt_secret : (plaintext : String) → Io EncryptedSecret
encrypt_secret plaintext = do
  dek ← call (random_bytes 32)
  plain ← asks (λ env. env.utf8 plaintext)
  sealed ← aes_encrypt dek plain
  wrapped ← wrap_dek dek
  asks (λ env. secret_of env sealed wrapped)

-- `decryptSecret`
unfoldable pub decrypt_secret : Env → EncryptedSecret → Result String
decrypt_secret env enc = and_then (unwrap_dek env enc.dek_wrapped) λ dek.
    and_then
      (env.aes_decrypt dek (env.from_base64 enc.iv) (env.from_base64 enc.auth_tag)
        (env.from_base64 enc.ciphertext))
      (λ plaintext. ok (env.from_utf8 plaintext))
