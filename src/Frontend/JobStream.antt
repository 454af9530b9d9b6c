-- ===== src/Frontend/JobStream.antt =====
-- src/frontend/src/hooks/useJobs.ts: the hook `useJobStream`, which follows one job by server-sent
-- events and falls back to polling.
pub mod Stops
use db_backup_tool.Base.{
  ℕ, suc, String, ◌==◌, Bool, true, false, not, ◌||◌, if◌then◌else◌, Option, none, some, or_else,
  List, [], ◌∷◌,
}
use db_backup_tool.Base.Json.{Json}

-- A job, or what a message has of one: a field is present or left out.
pub record JobView : Type 0 where
  pub id : Option String
  pub job_id : Option String
  pub type : Option String
  pub status : Option String
  pub progress : Option ℕ
  pub message : Option String
  pub result : Option Json
  pub error : Option String

pub data Transport : Type 0 where
  sse poll idle : Transport

-- The state of the hook and of its effect; `requests` counts the calls of GET /jobs/:id.
pub record Hook : Type 0 where
  pub job : Option JobView
  pub transport : Transport
  pub polling : Bool
  pub source_open : Bool
  pub cancelled : Bool
  pub requests : ℕ

-- `TERMINAL.includes(status)`
abbrev pub terminal_text : (status : String) → Bool
terminal_text status = status == "done" || status == "failed"

unfoldable pub is_terminal : Option String → Bool
is_terminal none = false
is_terminal (some status) = terminal_text status

-- `stopPolling`
abbrev stop_polling : Hook → Hook
stop_polling s = record s { polling = false }

-- `fetchOnce`, up to its answer.
abbrev fetch_once : Hook → Hook
fetch_once s = record s { requests = suc s.requests }

-- `startPolling`
unfoldable pub start_polling : Hook → Hook
start_polling s =
    if s.polling then s else record (fetch_once s) { transport = poll; polling = true }

-- The effect for a job, where `source` says whether `new EventSource` succeeds.
unfoldable pub start : (source : Bool) → Hook
start source =
    let seeded : Hook = record {
      job = none;
      transport = idle;
      polling = false;
      source_open = source;
      cancelled = false;
      requests = 1;
    } in
    if source then seeded else start_polling seeded

-- `{ ...prev, ...data }`
abbrev pub merge : JobView → (update : JobView) → JobView
merge prev update = record {
  id = or_else update.id prev.id;
  job_id = or_else update.job_id prev.job_id;
  type = or_else update.type prev.type;
  status = or_else update.status prev.status;
  progress = or_else update.progress prev.progress;
  message = or_else update.message prev.message;
  result = or_else update.result prev.result;
  error = or_else update.error prev.error;
}

abbrev merged : Option JobView → JobView → JobView
merged none update = update
merged (some prev) update = merge prev update

-- What reaches the hook: an answer to a call of `fetchOnce` or its failure, a turn of the interval, a
-- frame of the stream, well formed or not, an error of the stream, and the clean-up of the effect.
pub data Happening : Type 0 where
  fetched : JobView → Happening
  fetch_failed : Happening
  interval : Happening
  frame : JobView → Happening
  malformed : Happening
  stream_error : Happening
  unmounted : Happening

-- The answer to a call of `fetchOnce`.
unfoldable pub on_fetched : Hook → JobView → Hook
on_fetched s view =
    let shown = record s { job = some view } in
    if s.cancelled then s else if is_terminal view.status then stop_polling shown else shown

-- `es.onmessage`
unfoldable pub on_frame : Hook → JobView → Hook
on_frame s view =
    let shown = record s { job = some (merged s.job view); transport = sse } in
    if s.cancelled
    then s
    else if is_terminal view.status
    then fetch_once (record shown { source_open = false })
    else shown

-- `es.onerror`
unfoldable pub on_error : Hook → Hook
on_error s =
    let closed = record s { source_open = false } in
    if s.cancelled then closed else start_polling closed

-- A closed source gives neither frames nor errors, and a cleared interval no turns.
unfoldable pub on : Hook → Happening → Hook
on s (fetched view) = on_fetched s view
on s fetch_failed = s
on s interval = if s.polling then fetch_once s else s
on s (frame view) = if s.source_open then on_frame s view else s
on s malformed = s
on s stream_error = if s.source_open then on_error s else s
on s unmounted = record s { cancelled = true; source_open = false; polling = false }

unfoldable pub run : Hook → List Happening → Hook
run s [] = s
run s (h ∷ hs) = run (on s h) hs
