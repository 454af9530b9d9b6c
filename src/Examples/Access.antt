-- ===== src/Examples/Access.antt =====
-- Guards, retention and sealed credentials at concrete inputs.
use db_backup_tool.Base.{
  String, ℕ, List, [], ◌∷◌, ◌≡◌, refl, some, All, length, ◌-◌, ◌≤◌, ◌+◌, ◌↔◌, Option, true,
}
use db_backup_tool.Examples.World.{world, backup_row, backup_rows}
use db_backup_tool.Errors.{ok}
use db_backup_tool.Effects.{verify_access, role_assignments}
use db_backup_tool.Effects.Io.{History, gave, ◌>>=◌, try_catch}
use db_backup_tool.Auth.{
  AuthContext, has, add, union, guarded, authenticate, resolve_auth, context_of,
  get_user_permissions, require_permission,
}
use db_backup_tool.Auth.Guards.{require_permission_iff, guarded-IsVouched, IsVouched, Bears}
use db_backup_tool.Routes.Requests.{Request, get_server, serve, needs}
use db_backup_tool.Routes.Scope.{Scoped, serve-Scoped}
use db_backup_tool.Scheduler.Retention.{enforce_retention}
use db_backup_tool.Scheduler.Kept.{
  marks, enforce_retention_total, AboutOld, enforce_retention-OnlyOld,
}

abbrev roles : List (List String)
roles = ("server:read" ∷ "backup:run" ∷ []) ∷ []

abbrev ann : AuthContext
ann = record {
  user_id = "u1";
  tenant_id = "t1";
  email = "ann@shop";
  permissions = "server:read" ∷ "backup:run" ∷ [];
}

abbrev needed : List String
needed = "server:read" ∷ []

require_permission_iff_example : (require_permission needed (some ann) ≡ ok tt) ↔ (
    (a : AuthContext) × (◌≡◌ {A = Option AuthContext} (some ann) (some a))
    × All (λ p. has a.permissions p ≡ true) needed)
require_permission_iff_example = require_permission_iff needed (some ann)

abbrev header : Option String
header = some "Bearer token"

abbrev authorized : History
authorized =
    gave (role_assignments "u1") (ok roles)
    ∷ gave (verify_access "token") (ok (record { sub = "u1"; tid = "t1"; email = "ann@shop" }))
    ∷ []

passed : guarded needed header world [] ≡ (ok ann, authorized)
unfolding guarded authenticate resolve_auth context_of get_user_permissions require_permission union
    add has try_catch ◌>>=◌
passed = refl

guarded-IsVouched_example :
    (token : String) × Bears header token
    × IsVouched world [] token ann authorized
    × All (λ p. has ann.permissions p ≡ true) needed
guarded-IsVouched_example = guarded-IsVouched world [] needed header ann authorized passed

abbrev look : Request
look = get_server "s1"

serve-Scoped_example :
    (token : String) × IsVouched world [] token ann authorized
    × (has ann.permissions (needs look) ≡ true)
    × All (λ e. Scoped ann.tenant_id e.request) (serve look header world []).1
serve-Scoped_example = serve-Scoped world look header ann authorized passed

enforce_retention_total_example :
    (n : ℕ) × (h' : History) × (enforce_retention "t1" "s1" "shop" 2 world [] ≡ (ok n, h'))
    × (marks h' ≡ n + marks [])
    × (n ≤ length backup_rows - 2)
enforce_retention_total_example =
    enforce_retention_total world [] "t1" "s1" "shop" 2 backup_rows refl

enforce_retention-OnlyOld_example :
    All
      (λ e. AboutOld world (backup_row "b1" ∷ []) e.request)
      (enforce_retention "t1" "s1" "shop" 2 world []).1
enforce_retention-OnlyOld_example =
    enforce_retention-OnlyOld world "t1" "s1" "shop" 2 backup_rows refl
