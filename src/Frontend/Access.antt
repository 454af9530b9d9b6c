-- ===== src/Frontend/Access.antt =====
-- src/frontend/src/store/auth.ts, components/PermissionGate.tsx, components/ProtectedRoute.tsx,
-- components/Sidebar.tsx and App.tsx: what the client shows to a user.
pub mod Agreement
use db_backup_tool.Base.{
  String, ◌==◌, Bool, true, false, not, ◌&&◌, ◌||◌, if◌then◌else◌, Option, none, some, List, [],
  ◌∷◌, all, keep,
}
use db_backup_tool.Auth.{has}
use db_backup_tool.Frontend.Session.{Client, Profile, filled}

abbrev permissions_of : Option Profile → List String
permissions_of none = []
permissions_of (some user) = user.permissions

-- `hasPermission`
unfoldable pub has_permission : Client → (perm : String) → Bool
has_permission c perm = let perms = permissions_of c.user in has perms "*" || has perms perm

-- The property `permission` of a gate.
pub data Wanted : Type 0 where
  nothing : Wanted
  one : String → Wanted
  many : List String → Wanted

abbrev pub some_of : (String → Bool) → List String → Bool
some_of p [] = false
some_of p (x ∷ xs) = p x || some_of p xs

abbrev allowed : Client → (any : Bool) → List String → Bool
allowed c true perms = some_of (has_permission c) perms
allowed c false perms = all (has_permission c) perms

-- `PermissionGate`: whether it shows its children.
unfoldable pub permission_gate : Client → Wanted → (any : Bool) → Bool
permission_gate c nothing any = true
permission_gate c (one perm) any = if perm == "" then true else allowed c any (perm ∷ [])
permission_gate c (many perms) any = allowed c any perms

pub data Shown : Type 0 where
  children : Shown
  redirect : (to : String) → Shown

abbrev shown_with : Client → Option String → Shown
shown_with c none = children
shown_with c (some perm) = if has_permission c perm then children else redirect "/"

abbrev for_token : Client → (token permission : Option String) → Shown
for_token c none permission = redirect "/login"
for_token c (some token) permission = shown_with c permission

-- `ProtectedRoute`
unfoldable pub protected_route : Client → (permission : Option String) → Shown
protected_route c permission = for_token c (filled c.access_token) (filled permission)

pub record NavItem : Type 0 where
  pub to : String
  pub label : String
  pub permission : Option String

abbrev item : String → String → Option String → NavItem
item to label permission = record { to = to; label = label; permission = permission }

-- `NAV`
abbrev pub nav : List NavItem
nav =
    item "/" "Dashboard" none
    ∷ item "/servers" "Servers" none
    ∷ item "/backups" "Backups" none
    ∷ item "/jobs" "Jobs" none
    ∷ item "/schedules" "Schedules" none
    ∷ item "/import-export" "Import / Export" none
    ∷ item "/audit" "Audit Log" (some "audit:read")
    ∷ item "/users" "Users & Roles" (some "user:manage")
    ∷ []

abbrev pub visible : Client → Option String → Bool
visible c none = true
visible c (some perm) = has_permission c perm

-- The items that `Sidebar` shows.
unfoldable pub sidebar : Client → List NavItem
sidebar c = keep (λ i. visible c (filled i.permission)) nav

-- The routes of `App` behind the layout, with the permission of an inner `ProtectedRoute`.
abbrev routes : List (String × Option String)
routes =
    ("/", none)
    ∷ ("/servers", none)
    ∷ ("/backups", none)
    ∷ ("/jobs", none)
    ∷ ("/schedules", none)
    ∷ ("/import-export", none)
    ∷ ("/audit", some "audit:read")
    ∷ ("/users", some "user:manage")
    ∷ ("/404", none)
    ∷ []

abbrev inner : Client → Shown → Option String → Shown
inner c (redirect to) permission = redirect to
inner c children none = children
inner c children (some permission) = protected_route c (some permission)

abbrev lookup : List (String × Option String) → (path : String) → Option (Option String)
lookup [] path = none
lookup ((route, permission) ∷ rest) path =
    let later = lookup rest path in if route == path then some permission else later

abbrev page_at : Client → Option (Option String) → Shown
page_at c none = redirect "/404"
page_at c (some permission) = inner c (protected_route c none) permission

-- What `App` shows at a path behind the layout, which is protected itself.
unfoldable pub page : Client → (path : String) → Shown
page c path = page_at c (lookup routes path)
