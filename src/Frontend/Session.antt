-- ===== src/Frontend/Session.antt =====
-- src/frontend/src/lib/api.ts and src/frontend/src/store/auth.ts: the session of the web client, and
-- the requests that it sends.
pub mod Retries
use db_backup_tool.Base.{
  ℕ, zero, suc, eqb, leb, ltb, String, ◌<>◌, ◌==◌, Bool, true, false, not, ◌&&◌, ◌||◌,
  if◌then◌else◌, Option, none, some, List, [], ◌∷◌, starts_with,
}

-- `User`, as far as the client reads it.
pub record Profile : Type 0 where
  pub email : String
  pub permissions : List String

-- What leaves the client: a request with its Authorization header, or the renewal of the session.
pub data Sent : Type 0 where
  to_api : (url : String) → (authorization : Option String) → Sent
  to_refresh : Sent

-- The state of the store, with what was sent, the latest first, and how often the page was left for
-- the login.
pub record Client : Type 0 where
  pub access_token : Option String
  pub user : Option Profile
  pub log : List Sent
  pub bounced : ℕ

-- `setAuth`, `setAccessToken`, `setUser` and `clear`
unfoldable pub set_auth : (token : String) → Profile → Client → Client
set_auth token user c = record c { access_token = some token; user = some user }

unfoldable pub set_access_token : Option String → Client → Client
set_access_token token c = record c { access_token = token }

unfoldable pub set_user : Profile → Client → Client
set_user user c = record c { user = some user }

unfoldable pub clear : Client → Client
clear c = record c { access_token = none; user = none }

-- An answer: its status, if any came, and the access token in its body.
pub record Answer : Type 0 where
  pub status : Option ℕ
  pub access_token : Option String

-- The server answers by what was sent before.
abbrev pub Server : Type 0
Server = List Sent → Sent → Answer

abbrev exchange : Server → Sent → Client → Answer × Client
exchange server sent c = (server c.log sent, record c { log = sent ∷ c.log })

-- Axios resolves an answer with a status from 200 to 299, and rejects every other.
abbrev pub is_fine : Option ℕ → Bool
is_fine none = false
is_fine (some status) = leb 200 status && ltb status 300

abbrev is_unauthorized : Option ℕ → Bool
is_unauthorized none = false
is_unauthorized (some status) = eqb status 401

-- `refreshAccessToken`: the token, or none.
unfoldable pub refresh_access_token : Server → Client → Option String × Client
refresh_access_token server c =
    let (answer, sent) = exchange server to_refresh c in
    if is_fine answer.status
    then (answer.access_token, set_access_token answer.access_token sent)
    else (none, clear sent)

-- `RetriableConfig`
pub record Config : Type 0 where
  pub url : String
  pub authorization : Option String
  pub retry : Bool

-- `if (token)` of a token that may be missing.
abbrev pub filled : Option String → Option String
filled none = none
filled (some token) = if token == "" then none else some token

abbrev bearer : Option String → Config → Config
bearer none config = config
bearer (some token) config = record config { authorization = some ("Bearer " <> token) }

-- The request interceptor.
unfoldable pub authorized : Client → Config → Config
authorized c config = bearer (filled c.access_token) config

-- `url.includes(part)`
abbrev includes : (url part : String) → Bool
includes String.[] part = starts_with String.[] part
includes (String.◌∷◌ c s) part = starts_with (String.◌∷◌ c s) part || includes s part

-- The test of the response interceptor.
unfoldable pub needs_refresh : Option ℕ → Config → Bool
needs_refresh status config =
    is_unauthorized status && not config.retry && not (includes config.url "/auth/")

pub data Outcome : Type 0 where
  resolved : Answer → Outcome
  rejected : Answer → Outcome

-- `window.location.assign('/login')`, unless the page is the login already.
unfoldable pub to_login : (on_login : Bool) → Client → Client
to_login true c = c
to_login false c = record c { bounced = suc c.bounced }

-- What follows a renewal: the request again with the new token, or the login.
abbrev after_refresh :
    (again : String → Client → Option (Outcome × Client))
    → (on_login : Bool) → Answer
    → Option String
    → Client
    → Option (Outcome × Client)
after_refresh again on_login answer none c = some (rejected answer, to_login on_login c)
after_refresh again on_login answer (some token) c = again token c

-- A request through `api` with its two interceptors; the fuel bounds how often it is sent.
unfoldable pub api :
    Server → (on_login : Bool) → (fuel : ℕ) → Config → Client → Option (Outcome × Client)
api server on_login zero config c = none
api server on_login (suc fuel) config c =
    let original = authorized c config in
    let (answer, sent) = exchange server (to_api original.url original.authorization) c in
    let (token, renewed) = refresh_access_token server sent in
    let again : String → Client → Option (Outcome × Client) = λ new d.
      api server on_login fuel
        (record original { retry = true; authorization = some ("Bearer " <> new) }) d in
    if is_fine answer.status
    then some (resolved answer, sent)
    else if needs_refresh answer.status original
    then after_refresh again on_login answer (filled token) renewed
    else some (rejected answer, sent)
