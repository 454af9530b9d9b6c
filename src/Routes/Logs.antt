-- ===== src/Routes/Logs.antt =====
-- src/api/routes/audit.routes.ts and src/api/routes/notifications.routes.ts.
use db_backup_tool.Base.{ℕ, String, ◌==◌, if◌then◌else◌, Option, none, some, ◌otherwise◌, length}
use db_backup_tool.Errors.{not_found, bad_request}
use db_backup_tool.Model.{AuditLog, Notification}
use db_backup_tool.Effects.{
  audit_find_many, audit_count, notification_find_many, notification_find_first,
  notification_mark_read, now,
}
use db_backup_tool.Effects.Inputs.{AuditWhere}
use db_backup_tool.Effects.Io.{Io, call, pure, throw, found_or, ◌>>=◌}
use db_backup_tool.Auth.{AuthContext}
use db_backup_tool.Audit.{Verdict, verify_audit_chain}
use db_backup_tool.Routes.{Response, Parsed, valid, invalid}
use db_backup_tool.Routes.Jobs.{Listing}

-- `parseQuery`
abbrev pub parse_query : {A : Type 0} → Parsed A → Io A
parse_query (valid a) = pure a
parse_query (invalid flattened) = throw (bad_request "Invalid query parameters" (some flattened))

-- `querySchema`
pub record AuditQuery : Type 0 where
  pub q : Option String
  pub action : Option String
  pub limit : Option ℕ

abbrev filled : Option String → Option String
filled none = none
filled (some text) = if text == "" then none else some text

unfoldable pub where_of : (tenant_id : String) → AuditQuery → AuditWhere
where_of tenant_id query = record {
  tenant_id = tenant_id;
  action = filled query.action;
  containing = filled query.q;
}

-- GET /audit
unfoldable pub list : AuthContext → Parsed AuditQuery → Io (Response (Listing AuditLog))
list auth query = do
  parsed ← parse_query query
  logs ← call (audit_find_many (where_of auth.tenant_id parsed) (parsed.limit otherwise 100))
  total ← call (audit_count (where_of auth.tenant_id parsed))
  pure (record { status = 200; body = record { data_rows = logs; total = total } })

-- GET /audit/verify
unfoldable pub verify : AuthContext → Io (Response Verdict)
verify auth = do
  verdict ← verify_audit_chain auth.tenant_id
  pure (record { status = 200; body = verdict })

-- GET /notifications
unfoldable pub notifications : AuthContext → Io (Response (Listing Notification))
notifications auth = do
  rows ← call (notification_find_many auth.user_id 100)
  pure (record { status = 200; body = record { data_rows = rows; total = length rows } })

-- POST /notifications/:id/read
unfoldable pub mark_read : AuthContext → (id : String) → Io (Response Notification)
mark_read auth id = do
  existing ← call (notification_find_first id auth.user_id)
  found ← found_or (not_found "Notification not found") existing
  time ← call now
  updated ← call (notification_mark_read found.id time)
  pure (record { status = 200; body = updated })
