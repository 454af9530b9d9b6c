-- ===== src/Auth/Permissions.antt =====
-- src/auth/permissions.ts: the catalog of permissions and the system roles.
use db_backup_tool.Base.{String, List, [], ◌∷◌, map}

-- `PERMISSIONS`: each key with its description.
abbrev pub permissions : List (String × String)
permissions =
    ("server:read", "View database servers")
    ∷ ("server:create", "Create database servers")
    ∷ ("server:update", "Update database servers")
    ∷ ("server:delete", "Delete database servers")
    ∷ ("server:manage", "Manage database servers (UI aggregate)")
    ∷ ("backup:read", "View backups")
    ∷ ("backup:run", "Run backups")
    ∷ ("backup:create", "Create backups (UI alias of backup:run)")
    ∷ ("backup:delete", "Delete backups")
    ∷ ("restore:run", "Restore backups")
    ∷ ("export:run", "Export tables")
    ∷ ("import:run", "Import data")
    ∷ ("clone:run", "Clone / migrate databases")
    ∷ ("schedule:manage", "Manage backup schedules")
    ∷ ("job:read", "View jobs")
    ∷ ("job:cancel", "Cancel jobs")
    ∷ ("audit:read", "Read audit log")
    ∷ ("user:manage", "Manage users and roles")
    ∷ []

-- `ALL_PERMISSIONS`
abbrev pub all_permissions : List String
all_permissions = map (λ p. p.0) permissions

abbrev operator_permissions : List String
operator_permissions =
    "server:read" ∷ "backup:read" ∷ "backup:run" ∷ "backup:create" ∷ "restore:run" ∷ "export:run"
    ∷ "import:run" ∷ "clone:run" ∷ "schedule:manage" ∷ "job:read" ∷ "job:cancel" ∷ []

-- `SYSTEM_ROLES`
abbrev pub system_roles : List (String × List String)
system_roles =
    ("Owner", all_permissions)
    ∷ ("Admin", all_permissions)
    ∷ ("Operator", operator_permissions)
    ∷ ("Viewer", "server:read" ∷ "backup:read" ∷ "job:read" ∷ "audit:read" ∷ [])
    ∷ []
