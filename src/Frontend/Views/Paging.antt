-- ===== src/Frontend/Views/Paging.antt =====
-- The page of the audit log that is shown, and the messages.
use db_backup_tool.Base.{ℕ, ◌-◌, ◌*◌, ◌≤◌, String, List, [], ◌∷◌, ◌≡◌, arith}
use db_backup_tool.Frontend.Views.{
  AuditPage, AuditAction, typed, searched, cleared, previous, next, on_audit, total_pages,
  page_size, Toast, Level, notify, remove_toast,
}

-- Whatever a user does, the page is at least the first, and going on never passes the last page.
pub on_audit-bounds :
    (trim : String → String) (total : ℕ) (s : AuditPage) (a : AuditAction)
    → 1 ≤ s.page
    → s.page ≤ total_pages total
    → (1 ≤ (on_audit trim total s a).page) × ((on_audit trim total s a).page ≤ total_pages total)
unfolding on_audit total_pages
on_audit-bounds trim total s (typed text) l u = (l, u)
on_audit-bounds trim total s searched l u = ground arith
on_audit-bounds trim total s cleared l u = ground arith
on_audit-bounds trim total s previous l u = ground arith
on_audit-bounds trim total s next l u = ground arith

-- The pages are enough for the entries, and one fewer is not.
pub total_pages_lem :
    (total : ℕ)
    → (total ≤ total_pages total * page_size) × ((total_pages total - 1) * page_size ≤ total)
unfolding total_pages
total_pages_lem total = ground arith

-- A message that was shown and removed leaves those that were there, if its identifier is new.
pub remove_toast-notify :
    (id : ℕ) (message : String) (level : Level) (toasts : List Toast)
    → remove_toast id (notify id message level toasts) ≡ remove_toast id toasts
unfolding remove_toast notify
remove_toast-notify id message level [] = ground arith
remove_toast-notify id message level (t ∷ ts) =
    ground (arith, remove_toast-notify id message level ts)
