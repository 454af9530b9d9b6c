-- ===== src/Routes/Schemas.antt =====
-- src/api/routes/: the schemas that the bodies of requests are parsed by. Zod itself is a parameter:
-- `IsZod` says what its documentation says of the schemas that the routes are made of.
use db_backup_tool.Base.{
  ℕ, leb, String, ◌==◌, Bool, true, false, not, ◌&&◌, if◌then◌else◌, Option, none, some, List, [],
  ◌∷◌, all, ◌≡◌,
}
use db_backup_tool.Base.Json.{Json, Fields, obj, str, num, bool, end, field}
use db_backup_tool.Auth.{has}

-- The schema of a value.
pub data Check : Type 0 where
  any_text non_empty email uuid boolean : Check
  min_length : ℕ → Check
  one_of : List String → Check
  literal : String → Check
  positive : Check
  int_between : (least most : ℕ) → Check
  optional : Check → Check

-- `z.object({ ... })`
abbrev pub Schema : Type 0
Schema = List (String × Check)

-- The last value of a key, as in an object literal that repeats it.
abbrev pub value_of : (key : String) → Fields → Option Json
value_of key end = none
value_of key (field name value rest) = elim (value_of key rest) [
  | some later ↦ some later
  | none ↦ if name == key then some value else none
]

abbrev pub is_optional : Check → Bool
is_optional (optional c) = true
is_optional _ = false

pub record Zod : Type 0 where
  pub accepts : Check → Option Json → Bool
  pub accepts_body : Schema → Json → Bool
  pub is_uuid : String → Bool
  pub is_email : String → Bool

pub record IsZod (zod : Zod) : Type 0 where
  pub body :
      (schema : Schema) (fs : Fields)
      → zod.accepts_body schema (obj fs) ≡ all (λ (key, c). zod.accepts c (value_of key fs)) schema
  pub missing : (c : Check) → zod.accepts c none ≡ is_optional c
  pub present : (c : Check) (j : Json) → zod.accepts (optional c) (some j) ≡ zod.accepts c (some j)
  pub texts : (s : String) → zod.accepts any_text (some (str s)) ≡ true
  pub non_empty_texts : (s : String) → zod.accepts non_empty (some (str s)) ≡ not (s == "")
  pub uuids : (s : String) → zod.accepts uuid (some (str s)) ≡ zod.is_uuid s
  pub emails : (s : String) → zod.accepts email (some (str s)) ≡ zod.is_email s
  pub booleans : (b : Bool) → zod.accepts boolean (some (bool b)) ≡ true
  pub enums : (xs : List String) (s : String) → zod.accepts (one_of xs) (some (str s)) ≡ has xs s
  pub literals : (x s : String) → zod.accepts (literal x) (some (str s)) ≡ s == x
  pub positives : (n : ℕ) → zod.accepts positive (some (num n)) ≡ leb 1 n
  pub ints :
      (least most n : ℕ)
      → zod.accepts (int_between least most) (some (num n)) ≡ (leb least n && leb n most)

-- `runSchema` of backups.routes.ts
abbrev pub run_schema : Schema
run_schema = ("database", non_empty) ∷ ("format", optional (literal "sql")) ∷ []

-- `restoreSchema`
abbrev pub restore_schema : Schema
restore_schema =
    ("targetServerId", uuid)
    ∷ ("targetDatabase", non_empty)
    ∷ ("createDatabase", optional boolean)
    ∷ []

-- `exportSchema` of transfer.routes.ts
abbrev pub export_schema : Schema
export_schema =
    ("database", non_empty)
    ∷ ("table", non_empty)
    ∷ ("format", one_of ("csv" ∷ "xlsx" ∷ "sql" ∷ []))
    ∷ []

-- `cloneSchema`
abbrev pub clone_schema : Schema
clone_schema =
    ("sourceServerId", uuid)
    ∷ ("targetServerId", uuid)
    ∷ ("database", non_empty)
    ∷ ("targetDatabase", non_empty)
    ∷ ("mode", optional (one_of ("schema" ∷ "full" ∷ [])))
    ∷ []

abbrev ssl_mode : Check
ssl_mode = optional (one_of ("disable" ∷ "require" ∷ "verify_full" ∷ []))

-- `createSchema` of servers.routes.ts
abbrev pub create_server_schema : Schema
create_server_schema =
    ("name", non_empty)
    ∷ ("engine", one_of ("mysql" ∷ "mariadb" ∷ "postgres" ∷ []))
    ∷ ("host", non_empty)
    ∷ ("port", positive)
    ∷ ("sslMode", ssl_mode)
    ∷ ("username", non_empty)
    ∷ ("password", non_empty)
    ∷ ("database", optional any_text)
    ∷ []

-- `updateSchema` of servers.routes.ts
abbrev pub update_server_schema : Schema
update_server_schema =
    ("name", optional non_empty)
    ∷ ("host", optional non_empty)
    ∷ ("port", optional positive)
    ∷ ("sslMode", ssl_mode)
    ∷ ("password", optional non_empty)
    ∷ []

-- `createSchema` of schedules.routes.ts
abbrev pub create_schedule_schema : Schema
create_schedule_schema =
    ("serverId", uuid)
    ∷ ("database", non_empty)
    ∷ ("cron", non_empty)
    ∷ ("enabled", optional boolean)
    ∷ ("retention", optional (int_between 1 365))
    ∷ []

-- `createSchema` of users.routes.ts
abbrev pub create_user_schema : Schema
create_user_schema =
    ("email", email)
    ∷ ("name", optional any_text)
    ∷ ("password", min_length 8)
    ∷ ("roleId", optional uuid)
    ∷ []
