-- ===== src/Examples/World.antt =====
-- A small environment: a database with one server, one user and a few backups.
use db_backup_tool.Base.{
  ℕ, suc, zero, String, Option, none, some, List, [], ◌∷◌, ◌≡◌, refl, ap, ◌∙◌, eqb, ◌==◌,
  if◌then◌else◌, Char, code, length, show_nat, false, true, arith,
}
use Prim.Native.Char.{char, IsScalar, nul}
use Prim.Native.Nat.{Ordering, compare}
use db_backup_tool.Base.Text.Split.{Lacks}
use db_backup_tool.Errors.{Result, ok, err, foreign}
use db_backup_tool.Model.{DbServer, mysql, disable, Backup, sql, available, User, active, Tenant}
use db_backup_tool.Effects.{
  Call, Reply, now, random_bytes, job_update, job_event_create, publish, server_find_first,
  server_create, adapter_close, verify_access, role_assignments, audit_find_latest, audit_create,
  backup_find_available, backup_set_status, adapter_insert_rows, pool_connect, client_query,
  client_release, pool_end, user_find_by_email, permission_upsert, hash_password, tenant_create,
  role_create, user_create, user_find_unique, user_touch_login, verify_password, sign_access,
  sign_refresh, verify_refresh,
}
use db_backup_tool.Effects.Io.{Env, History}
use db_backup_tool.Crypto.RoundTrip.{IsReversible}

-- A coding of bytes by texts: as many letters as the byte says, and one more to end it.
abbrev tally : ℕ → String → String
tally zero rest = String.◌∷◌ "b" rest
tally (suc n) rest = String.◌∷◌ "a" (tally n rest)

abbrev pub encode : List ℕ → String
encode [] = ""
encode (n ∷ ns) = tally n (encode ns)

abbrev bump : List ℕ → List ℕ
bump [] = []
bump (n ∷ ns) = suc n ∷ ns

abbrev pub decode : String → List ℕ
decode String.[] = []
decode (String.◌∷◌ c s) = if eqb (code c) 97 then bump (decode s) else 0 ∷ decode s

decode-tally : (n : ℕ) (rest : String) → decode (tally n rest) ≡ n ∷ decode rest
decode-tally zero rest = refl
decode-tally (suc n) rest = ap bump (decode-tally n rest)

pub decode-encode : (bytes : List ℕ) → decode (encode bytes) ≡ bytes
decode-encode [] = refl
decode-encode (n ∷ ns) = decode-tally n (encode ns) ∙ ap (λ l. n ∷ l) (decode-encode ns)

tally-Lacks : (n : ℕ) (rest : String) → Lacks b':' rest → Lacks b':' (tally n rest)
tally-Lacks zero rest l = (omega arith, l)
tally-Lacks (suc n) rest l = (omega arith, tally-Lacks n rest l)

encode-Lacks : (bytes : List ℕ) → Lacks b':' (encode bytes)
encode-Lacks [] = tt
encode-Lacks (n ∷ ns) = tally-Lacks n (encode ns) (encode-Lacks ns)

-- Texts as lists of numbers and back.
abbrev codes : String → List ℕ
codes String.[] = []
codes (String.◌∷◌ c s) = code c ∷ codes s

abbrev Below : Ordering → Type 0
Below Ordering.lt = Unit
Below Ordering.eq = ⊥
Below Ordering.gt = ⊥

abbrev BothBelow : Ordering → Ordering → Type 0
BothBelow Ordering.lt p = Below p
BothBelow Ordering.eq p = ⊥
BothBelow Ordering.gt p = ⊥

abbrev Scalar : Ordering → Ordering → Ordering → Type 0
Scalar Ordering.lt p q = Unit
Scalar Ordering.eq p q = BothBelow p q
Scalar Ordering.gt p q = BothBelow p q

abbrev find_below : (o : Ordering) → Option (Below o)
find_below Ordering.lt = some tt
find_below Ordering.eq = none
find_below Ordering.gt = none

abbrev find_both : (o p : Ordering) → Option (BothBelow o p)
find_both Ordering.lt p = find_below p
find_both Ordering.eq p = none
find_both Ordering.gt p = none

abbrev find_scalar : (o p q : Ordering) → Option (Scalar o p q)
find_scalar Ordering.lt p q = some tt
find_scalar Ordering.eq p q = find_both p q
find_scalar Ordering.gt p q = find_both p q

found_below : (o : Ordering) (b : Below o) → find_below o ≡ some b
found_below Ordering.lt b = refl
found_below Ordering.eq b = elim b [ ]
found_below Ordering.gt b = elim b [ ]

found_both : (o p : Ordering) (b : BothBelow o p) → find_both o p ≡ some b
found_both Ordering.lt p b = found_below p b
found_both Ordering.eq p b = elim b [ ]
found_both Ordering.gt p b = elim b [ ]

found_scalar : (o p q : Ordering) (b : Scalar o p q) → find_scalar o p q ≡ some b
found_scalar Ordering.lt p q b = refl
found_scalar Ordering.eq p q b = found_both p q b
found_scalar Ordering.gt p q b = found_both p q b

-- The character of a number, if it has one.
abbrev char_of : (n : ℕ) → Option (IsScalar n) → Char
char_of n none = nul
char_of n (some b) = char n b

abbrev text_from : List ℕ → String
text_from [] = ""
text_from (n ∷ ns) =
    String.◌∷◌ (char_of n (find_scalar (compare n 55296) (compare 57343 n) (compare n 1114112)))
      (text_from ns)

char_of-code :
    (c : Char)
    → (let n = code c in
        char_of n (find_scalar (compare n 55296) (compare 57343 n) (compare n 1114112)) ≡ c)
char_of-code (char n b) =
    ap (char_of n) (found_scalar (compare n 55296) (compare 57343 n) (compare n 1114112) b)

text_from-codes : (s : String) → text_from (codes s) ≡ s
text_from-codes String.[] = refl
text_from-codes (String.◌∷◌ c s) = λ i. String.◌∷◌ (char_of-code c i) (text_from-codes s i)

abbrev pub server_row : DbServer
server_row = record {
  id = "s1";
  tenant_id = "t1";
  name = "main";
  engine = mysql;
  host = "db";
  port = 3306;
  ssl_mode = disable;
  credential = some (record {
    username = "root";
    ciphertext = "";
    auth_tag = "";
    iv = "";
    dek_wrapped = "::";
    key_version = "1";
    database = none;
  });
}

abbrev pub backup_row : (id : String) → Backup
backup_row id = record {
  id = id;
  tenant_id = "t1";
  server_id = "s1";
  job_id = none;
  database = "shop";
  format = sql;
  status = available;
  size = 1;
  storage_uri = some id;
  checksum = none;
}

abbrev pub backup_rows : List Backup
backup_rows = backup_row "b3" ∷ backup_row "b2" ∷ backup_row "b1" ∷ []

abbrev pub user_row : User
user_row = record {
  id = "u1";
  tenant_id = "t1";
  email = "ann@shop";
  name = none;
  password_hash = "hash";
  status = active;
}

abbrev pub tenant_row : Tenant
tenant_row = record { id = "t1"; name = "Shop"; slug = "shop-7" }

abbrev pub new_user : User
new_user = record {
  id = "u2";
  tenant_id = "t1";
  email = "bob@shop";
  name = none;
  password_hash = "hash";
  status = active;
}

abbrev with_email : String → Option User
with_email email = if email == "ann@shop" then some user_row else none

abbrev reply_to : History → (c : Call) → Result (Reply c)
reply_to h now = ok 7
reply_to h (random_bytes n) = ok (4 ∷ [])
reply_to h (job_update id patch) = ok tt
reply_to h (job_event_create id level message progress) = ok tt
reply_to h (publish channel e) = ok tt
reply_to h (server_find_first id t) = ok (some server_row)
reply_to h (server_create t d c) = ok server_row
reply_to h (adapter_close a) = ok tt
reply_to h (verify_access token) = ok (record { sub = "u1"; tid = "t1"; email = "ann@shop" })
reply_to h (role_assignments user) = ok (("server:read" ∷ "backup:run" ∷ []) ∷ [])
reply_to h (audit_find_latest t) = ok none
reply_to h (audit_create d) = ok tt
reply_to h (backup_find_available t s d) = ok backup_rows
reply_to h (backup_set_status id s) = ok tt
reply_to h (adapter_insert_rows a d t header rows) = ok (length rows)
reply_to h (pool_connect pool) = ok "c1"
reply_to h (client_query client s) = ok (some 2)
reply_to h (client_release client) = ok tt
reply_to h (pool_end pool) = ok tt
reply_to h (user_find_by_email email) = ok (with_email email)
reply_to h (permission_upsert key description) = ok tt
reply_to h (hash_password plain) = ok "hash"
reply_to h (tenant_create name slug) = ok tenant_row
reply_to h (role_create d) = ok (record {
  id = "r";
  tenant_id = d.tenant_id;
  name = d.name;
  is_system = d.is_system;
  permissions = d.permissions;
})
reply_to h (user_create d) = ok new_user
reply_to h (user_find_unique id) = ok (some user_row)
reply_to h (user_touch_login id time) = ok tt
reply_to h (verify_password plain hash) = ok true
reply_to h (sign_access payload) = ok "access"
reply_to h (sign_refresh payload) = ok "fresh"
reply_to h (verify_refresh token) = ok (record { sub = "u1"; tid = "t1"; v = 3 })
reply_to h c = err (foreign "Error" none "down")

abbrev pub world : Env
world = record {
  answer = reply_to;
  sha256 = λ s. s;
  digest = λ chunks. "digest";
  to_iso = λ time. encode (time ∷ []);
  uri_to_key = λ uri. uri;
  to_lower = λ s. s;
  to_base36 = show_nat;
  base64 = encode;
  from_base64 = decode;
  utf8 = codes;
  from_utf8 = text_from;
  aes_encrypt = λ key iv plaintext. ([], plaintext);
  aes_decrypt = λ key iv tag body. ok body;
  master_key = "bbbbbbbbbbbbbbbbbbbbbbbbbbbbbbbb";
  key_version = "1";
  smtp_configured = false;
}

pub world-IsReversible : IsReversible world
world-IsReversible = record {
  cipher = λ key iv plaintext. refl;
  base64_back = decode-encode;
  base64_plain = encode-Lacks;
  utf8_back = text_from-codes;
}
