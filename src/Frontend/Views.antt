-- ===== src/Frontend/Views.antt =====
-- src/frontend/src/pages/ and src/frontend/src/components/: what the views compute from their data.
pub mod Paging
use db_backup_tool.Base.{
  ℕ, suc, ◌+◌, ◌-◌, ◌/◌, leb, ltb, eqb, String, ◌==◌, Bool, true, false, not, ◌||◌, if◌then◌else◌,
  Option, none, some, ◌otherwise◌, List, [], ◌∷◌, ◌++◌, keep, length,
}
use db_backup_tool.Frontend.JobStream.{JobView}
use db_backup_tool.Frontend.Forms.{ServerView, is_filled}

-- AuditPage.tsx: the text in the field, the query and the page.
pub record AuditPage : Type 0 where
  pub search : String
  pub query : String
  pub page : ℕ

abbrev pub page_size : ℕ
page_size = 20

-- `Math.max(1, Math.ceil(total / PAGE_SIZE))`
unfoldable pub total_pages : (total : ℕ) → ℕ
total_pages total = let pages = (total + 19) / page_size in if leb 1 pages then pages else 1

pub data AuditAction : Type 0 where
  typed : (text : String) → AuditAction
  searched cleared previous next : AuditAction

-- The handlers of the page, for the number of entries that it shows; a button that is disabled does
-- nothing. `trim` is that of texts.
unfoldable pub on_audit :
    (trim : String → String) → (total : ℕ) → AuditPage → AuditAction → AuditPage
on_audit trim total s (typed text) = record s { search = text }
on_audit trim total s searched = record s { page = 1; query = trim s.search }
on_audit trim total s cleared =
    if is_filled s.query then record { search = ""; query = ""; page = 1 } else s
on_audit trim total s previous =
    if leb s.page 1 then s else record s { page = if leb 1 (s.page - 1) then s.page - 1 else 1 }
on_audit trim total s next =
    if leb (total_pages total) s.page then s else record s { page = s.page + 1 }

abbrev status_is : String → JobView → Bool
status_is status job = (job.status otherwise "") == status

-- The rows of JobsPage.tsx.
unfoldable pub job_rows : (filter : String) → List JobView → List JobView
job_rows filter jobs = if filter == "all" then jobs else keep (status_is filter) jobs

-- `running` and `failures` of DashboardPage.tsx
unfoldable pub running_jobs : List JobView → ℕ
running_jobs jobs = length (keep (λ j. status_is "running" j || status_is "queued" j) jobs)

unfoldable pub failed_jobs : List JobView → List JobView
failed_jobs jobs = keep (status_is "failed") jobs

abbrev name_in : List ServerView → (id : String) → Option String
name_in [] id = none
name_in (s ∷ ss) id = elim (name_in ss id) [
  | some later ↦ some later
  | none ↦ if s.id == id then some s.name else none
]

-- `serverName` of BackupsPage.tsx and SchedulesPage.tsx: a map keeps the last entry of a key.
unfoldable pub server_name : List ServerView → (id : String) → String
server_name servers id = name_in servers id otherwise id

-- StatusBadge.tsx: the tone and the label of a status.
unfoldable pub status_badge : (status : String) → String × String
status_badge status =
    if status == "queued"
    then ("amber", "Queued")
    else if status == "running"
    then ("blue", "Running")
    else if status == "done"
    then ("green", "Done")
    else if status == "available"
    then ("green", "Available")
    else if status == "failed"
    then ("red", "Failed")
    else ("slate", status)

-- Toast.tsx: the messages that are shown, each with its identifier, in the order in which they came.
pub data Level : Type 0 where
  success error info : Level

pub record Toast : Type 0 where
  pub id : ℕ
  pub level : Level
  pub message : String

-- `remove`, from the button of a message and from its timer.
unfoldable pub remove_toast : (id : ℕ) → List Toast → List Toast
remove_toast id toasts = keep (λ t. not (eqb t.id id)) toasts

-- `notify`, with the identifier that it draws.
unfoldable pub notify : (id : ℕ) → (message : String) → Level → List Toast → List Toast
notify id message level toasts = toasts ++ record { id = id; level = level; message = message } ∷ []

-- `onFile` of ImportExportPage.tsx: the format for the extension of a file, in lower case, where it is
-- one that the page knows.
unfoldable pub format_for : (extension format : String) → String
format_for extension format =
    if extension == "csv"
    then "csv"
    else if extension == "xlsx" || extension == "xls"
    then "xlsx"
    else format
