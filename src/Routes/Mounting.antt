-- ===== src/Routes/Mounting.antt =====
-- src/api/routes/index.ts: the routers of the API, in the order in which they are mounted. Express
-- hands a request to every router whose path is in front of the request's, in this order; a router
-- runs what it `use`s, and passes on a request that none of its routes serves.
use db_backup_tool.Base.{
  String, ◌==◌, Bool, true, false, ◌&&◌, if◌then◌else◌, Option, none, some, List, [], ◌∷◌,
  starts_with, Bool-cases, ◌≡◌, refl, inl, inr,
}
use db_backup_tool.Errors.{err, unauthorized, not_found}
use db_backup_tool.Effects.Io.{Io, Env, History, pure, throw, when, ◌>>=◌, ◌>>◌, try_catch}
use db_backup_tool.Auth.{authenticate, resolve_auth, auth_error}
use db_backup_tool.Routes.Jobs.{header_token, stream}
use db_backup_tool.Routes.Stream.{Connection}

-- A router with the segments of its path, and whether it runs `authenticate` for every request.
pub record Mount : Type 0 where
  pub segments : List String
  pub router : String
  pub authenticates : Bool

abbrev mount : List String → String → Bool → Mount
mount segments router authenticates = record {
  segments = segments;
  router = router;
  authenticates = authenticates;
}

abbrev pub api_router : List Mount
api_router =
    mount ("auth" ∷ []) "auth" false
    ∷ mount ("servers" ∷ []) "servers" true
    ∷ mount [] "backups" true
    ∷ mount [] "transfer" true
    ∷ mount ("jobs" ∷ []) "jobs" false
    ∷ mount ("schedules" ∷ []) "schedules" true
    ∷ mount ("audit" ∷ []) "audit" true
    ∷ mount ("users" ∷ []) "users" true
    ∷ mount ("roles" ∷ []) "roles" true
    ∷ mount ("notifications" ∷ []) "notifications" true
    ∷ []

abbrev pub in_front : List String → (path : List String) → Bool
in_front [] path = true
in_front (s ∷ ss) [] = false
in_front (s ∷ ss) (p ∷ path) = s == p && in_front ss path

-- What a request goes through before the routes of the router that serves it.
unfoldable pub reach :
    List Mount → (router : String) → (path : List String) → (header : Option String) → Io (Unit {0})
reach [] router path header = throw (not_found "Route not found")
reach (m ∷ ms) router path header =
    let rest = reach ms router path header in
    if in_front m.segments path
    then when m.authenticates (authenticate header >>= λ auth. pure tt)
      >> (if m.router == router then pure tt else rest)
    else rest

-- GET /jobs/:id/stream, from the API's router on.
unfoldable pub serve_stream :
    (id : String) → (header access_token token : Option String) → Io Connection
serve_stream id header access_token token =
    reach api_router "jobs" ("jobs" ∷ id ∷ "stream" ∷ []) header
    >> stream id header access_token token

authenticate-bare :
    (header : Option String) (env : Env) (h : History)
    → header_token header ≡ none
    → authenticate header env h ≡ (err (unauthorized "Missing bearer token"), h)
unfolding authenticate resolve_auth auth_error try_catch
authenticate-bare none env h e = refl
authenticate-bare (some text) env h e = elim (Bool-cases (starts_with text "Bearer ")) [
  | inl bearer ↦ cc (rw bearer at e)
  | inr bare ↦ rw bare refl
]

-- A request that is not for /auth and bears no token in its Authorization header gets no further than
-- the guards of the routers in front of its own: it is refused with status 401, without a single call.
pub reach_bare :
    (router : String) (segment : String) (path : List String) (header : Option String) (env : Env)
    (h : History)
    → ("auth" == segment) ≡ false
    → header_token header ≡ none
    → reach api_router router (segment ∷ path) header env h
      ≡ (err (unauthorized "Missing bearer token"), h)
unfolding reach ◌>>=◌
reach_bare router segment path header env h other bare =
    rw other (elim (Bool-cases ("servers" == segment)) [
      | inl servers ↦ rw (servers, authenticate-bare header env h bare) refl
      | inr elsewhere ↦ rw (elsewhere, authenticate-bare header env h bare) refl
    ])

-- The stream of a job is refused to every request without a bearer token in its Authorization header,
-- whatever tokens its query carries: an EventSource, which sends no such header, never gets one.
pub serve_stream_bare :
    (id : String) (header access_token token : Option String) (env : Env) (h : History)
    → header_token header ≡ none
    → serve_stream id header access_token token env h
      ≡ (err (unauthorized "Missing bearer token"), h)
unfolding serve_stream ◌>>=◌
serve_stream_bare id header access_token token env h bare =
    rw (reach_bare "jobs" "jobs" (id ∷ "stream" ∷ []) header env h refl bare) refl
