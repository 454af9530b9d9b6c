-- ===== src/Routes/Table.antt =====
-- src/api/routes/: the routes of the routers behind `authenticate`, in the order in which they are
-- mounted and declared, with the permission that each requires.
use db_backup_tool.Base.{
  String, ◌==◌, Bool, true, false, not, ◌&&◌, if◌then◌else◌, Option, none, some, List, [], ◌∷◌,
  ◌++◌,
}

pub data Verb : Type 0 where
  get post patch delete : Verb

-- A segment of a route's path: fixed, or a parameter.
pub data Segment : Type 0 where
  fixed : String → Segment
  param : Segment

pub record Route : Type 0 where
  pub verb : Verb
  pub segments : List Segment
  pub permission : Option String

abbrev route : Verb → List Segment → String → Route
route verb segments permission = record {
  verb = verb;
  segments = segments;
  permission = some permission;
}

abbrev at : String → List Segment
at name = fixed name ∷ []

abbrev below : String → List Segment
below name = fixed name ∷ param ∷ []

abbrev below_at : String → String → List Segment
below_at name action = fixed name ∷ param ∷ fixed action ∷ []

abbrev free : Verb → List Segment → Route
free verb segments = record { verb = verb; segments = segments; permission = none }

-- servers.routes.ts
abbrev servers_router : List Route
servers_router =
    route get (at "servers") "server:read"
    ∷ route post (at "servers") "server:create"
    ∷ route get (below "servers") "server:read"
    ∷ route patch (below "servers") "server:update"
    ∷ route delete (below "servers") "server:delete"
    ∷ route post (below_at "servers" "test") "server:read"
    ∷ route get (below_at "servers" "databases") "server:read"
    ∷ []

-- backups.routes.ts
abbrev backups_router : List Route
backups_router =
    route post (below_at "servers" "backups") "backup:run"
    ∷ route get (at "backups") "backup:read"
    ∷ route get (below "backups") "backup:read"
    ∷ route get (below_at "backups" "download") "backup:read"
    ∷ route post (below_at "backups" "restore") "restore:run"
    ∷ []

-- transfer.routes.ts
abbrev transfer_router : List Route
transfer_router =
    route post (below_at "servers" "export") "export:run"
    ∷ route post (at "imports") "import:run"
    ∷ route post (at "clone") "clone:run"
    ∷ []

-- jobs.routes.ts without the stream
abbrev jobs_router : List Route
jobs_router = route get (at "jobs") "job:read" ∷ route get (below "jobs") "job:read" ∷ []

-- schedules.routes.ts
abbrev schedules_router : List Route
schedules_router =
    route get (at "schedules") "schedule:manage"
    ∷ route post (at "schedules") "schedule:manage"
    ∷ route patch (below "schedules") "schedule:manage"
    ∷ route delete (below "schedules") "schedule:manage"
    ∷ []

-- audit.routes.ts
abbrev audit_router : List Route
audit_router =
    route get (at "audit") "audit:read"
    ∷ route get (fixed "audit" ∷ fixed "verify" ∷ []) "audit:read"
    ∷ []

-- users.routes.ts
abbrev users_router : List Route
users_router =
    route get (at "users") "user:manage"
    ∷ route post (at "users") "user:manage"
    ∷ route patch (below "users") "user:manage"
    ∷ route delete (below "users") "user:manage"
    ∷ route post (below_at "users" "roles") "user:manage"
    ∷ []

abbrev roles_router : List Route
roles_router = route get (at "roles") "user:manage" ∷ []

-- notifications.routes.ts, whose routes require no permission.
abbrev notifications_router : List Route
notifications_router =
    free get (at "notifications") ∷ free post (below_at "notifications" "read") ∷ []

abbrev pub api_routes : List Route
api_routes =
    free get (at "me")
    ∷ (servers_router ++ backups_router ++ transfer_router ++ jobs_router ++ schedules_router
        ++ audit_router ++ users_router ++ roles_router ++ notifications_router)

abbrev same_verb : Verb → Verb → Bool
same_verb get get = true
same_verb post post = true
same_verb patch patch = true
same_verb delete delete = true
same_verb _ _ = false

-- A parameter takes a segment that is not empty.
abbrev matches : List Segment → (path : List String) → Bool
matches [] [] = true
matches (fixed s ∷ ss) (p ∷ path) = s == p && matches ss path
matches (param ∷ ss) (p ∷ path) = not (p == "") && matches ss path
matches _ _ = false

-- The permission of the first route that a request matches: none where there is no such route.
unfoldable pub permission_of : List Route → Verb → (path : List String) → Option (Option String)
permission_of [] verb path = none
permission_of (r ∷ rs) verb path =
    let rest = permission_of rs verb path in
    if same_verb r.verb verb && matches r.segments path then some r.permission else rest
