-- ===== src/Examples/Clients.antt =====
-- The web client at concrete inputs.
use db_backup_tool.Base.{
  ◌+◌, ◌≤◌, String, true, false, none, some, List, [], ◌∷◌, ◌++◌, ◌≡◌, refl, ◌↔◌, Bool, not, ◌&&◌,
  ◌==◌, leb, Option, all,
}
use db_backup_tool.Base.Json.{Json, str, num, bool, obj}
use db_backup_tool.Routes.Schemas.{
  Zod, IsZod, Schema, Check, any_text, non_empty, email, uuid, boolean, min_length, one_of, literal,
  positive, int_between, optional, is_optional, value_of, run_schema,
}
use db_backup_tool.Routes.Table.{api_routes, permission_of}
use db_backup_tool.Routes.Requests.{needs}
use db_backup_tool.Routes.Requests
use db_backup_tool.Frontend.Forms.{open_backup, backup_body, is_filled}
use db_backup_tool.Frontend.Forms.Bodies.{backup_body_lem}
use db_backup_tool.Frontend.Requests.{
  server_hook, hook_of, verb_of, path_of, server_use, use_delete_server,
}
use db_backup_tool.Frontend.Requests.Served.{hook_of-served}
use db_backup_tool.Frontend.Requests.Served
use db_backup_tool.Errors.{ok}
use db_backup_tool.Auth.{AuthContext, has, require_permission}
use db_backup_tool.Frontend.Session.{Client, Server, Config, Outcome, api}
use db_backup_tool.Frontend.Session.Retries.{requests, renewals, api_total}
use db_backup_tool.Frontend.Access.{many, permission_gate}
use db_backup_tool.Frontend.Access.Agreement.{permission_gate_iff}
use db_backup_tool.Frontend.JobStream.{
  JobView, Happening, frame, stream_error, interval, fetched, unmounted, is_terminal, start, run,
  on, on_error, start_polling, on_fetched,
}
use db_backup_tool.Frontend.JobStream.Stops.{Final, answered, rounds, run-final, rounds_cancelled}

abbrev ann : AuthContext
ann = record {
  user_id = "u1";
  tenant_id = "t1";
  email = "ann@shop";
  permissions = "server:read" ∷ "backup:run" ∷ [];
}

abbrev client : Client
client = record {
  access_token = some "old";
  user = some (record { email = "ann@shop"; permissions = "server:read" ∷ "backup:run" ∷ [] });
  log = [];
  bounced = 0;
}

-- A server whose first answer is 401.
abbrev server : Server
server [] sent = record { status = some 401; access_token = none }
server (before ∷ log) sent = record { status = some 200; access_token = some "new" }

abbrev listing : Config
listing = record { url = "/servers"; authorization = none; retry = false }

api_total_example :
    (o : Outcome) × (d : Client) × (api server false 2 listing client ≡ some (o, d))
    × (requests d.log ≤ 2)
    × (renewals d.log ≤ 1)
api_total_example = api_total server false 0 listing client

plain : has ann.permissions "*" ≡ false
unfolding has
plain = refl

permission_gate_iff_example :
    (permission_gate client (many ("backup:run" ∷ [])) false ≡ true)
    ↔ (require_permission ("backup:run" ∷ []) (some ann) ≡ ok tt)
permission_gate_iff_example =
    permission_gate_iff client ann ("backup:run" ∷ []) (_, refl, refl) plain

abbrev view : (status : String) → JobView
view status = record {
  id = some "j1";
  job_id = none;
  type = some "backup";
  status = some status;
  progress = some 50;
  message = none;
  result = none;
  error = none;
}

abbrev before : List Happening
before = stream_error ∷ interval ∷ fetched (view "running") ∷ []

final : Final (run (start true) before) (fetched (view "done")) 0
unfolding run start on on_error start_polling on_fetched is_terminal
final = answered (view "done") refl refl

run-final_example :
    ((run (start true) (before ++ fetched (view "done") ∷ unmounted ∷ [])).polling ≡ false)
    × ((run (start true) (before ++ fetched (view "done") ∷ unmounted ∷ [])).source_open ≡ false)
    × ((run (start true) (before ++ fetched (view "done") ∷ unmounted ∷ [])).requests
        ≡ (run (start true) before).requests + 0)
run-final_example = run-final true before (unmounted ∷ []) (fetched (view "done")) 0 final

rounds_cancelled_example :
    ((run
        (start true)
        (frame (view "cancelled") ∷ stream_error ∷ rounds 3 (view "cancelled"))).polling
      ≡ true)
    × ((run
          (start true)
          (frame (view "cancelled") ∷ stream_error ∷ rounds 3 (view "cancelled"))).requests
        ≡ 5)
rounds_cancelled_example = rounds_cancelled (view "cancelled") 3 refl

-- A validator that follows the schemas.
abbrev value_fits : Check → Json → Bool
value_fits (optional c) j = value_fits c j
value_fits any_text (str s) = true
value_fits non_empty (str s) = not (s == "")
value_fits email (str s) = true
value_fits uuid (str s) = true
value_fits boolean (bool b) = true
value_fits (min_length n) (str s) = not (s == "")
value_fits (one_of xs) (str s) = has xs s
value_fits (literal x) (str s) = s == x
value_fits positive (num n) = leb 1 n
value_fits (int_between least most) (num n) = leb least n && leb n most
value_fits _ _ = false

abbrev fits : Check → Option Json → Bool
fits c none = is_optional c
fits c (some j) = value_fits c j

abbrev body_fits : Schema → Json → Bool
body_fits schema (obj fs) = all (λ (name, c). fits c (value_of name fs)) schema
body_fits schema _ = false

abbrev validator : Zod
validator = record {
  accepts = fits;
  accepts_body = body_fits;
  is_uuid = λ s. true;
  is_email = λ s. true;
}

validator-IsZod : IsZod validator
validator-IsZod = record {
  body = λ schema fs. refl;
  missing = λ c. refl;
  present = λ c j. refl;
  texts = λ s. refl;
  non_empty_texts = λ s. refl;
  uuids = λ s. refl;
  emails = λ s. refl;
  booleans = λ b. refl;
  enums = λ xs s. refl;
  literals = λ x s. refl;
  positives = λ n. refl;
  ints = λ least most n. refl;
}

backup_body_lem_example :
    validator.accepts_body run_schema (backup_body (record open_backup { database = "shop" }))
    ≡ (is_filled "shop" && open_backup.format == "sql")
backup_body_lem_example =
    backup_body_lem validator validator-IsZod (record open_backup { database = "shop" })

hook_of-served_example :
    permission_of api_routes
      (verb_of (hook_of (server_use (use_delete_server "s1"))))
      (path_of (hook_of (server_use (use_delete_server "s1"))))
    ≡ some (some (needs (Requests.delete_server "s1")))
unfolding server_hook
hook_of-served_example =
    hook_of-served (server_use (use_delete_server "s1")) (Requests.delete_server "s1")
      (Served.delete_server "s1") (refl, (refl, tt))
