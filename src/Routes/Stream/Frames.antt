-- ===== src/Routes/Stream/Frames.antt =====
-- What a connection writes, and when it lets its resources go.
use db_backup_tool.Base.{
  Bool, true, false, ◌||◌, if◌then◌else◌, List, [], ◌∷◌, ◌++◌, append_assoc, append-nil, Bool-cases,
  ◌≡◌, refl, sym, ap, ◌∙◌, inl, inr,
}
use db_backup_tool.Model.{Job}
use db_backup_tool.Effects.Inputs.{JobProgressEvent}
use db_backup_tool.Jobs.{status_text}
use db_backup_tool.Routes.Stream.{
  Frame, snapshot, progress_event, ping, Connection, is_last, snapshot_of, open_connection,
  Happening, message, malformed, interval, request_closed, cleanup, on_event, on, run,
}

-- The frames of a response without its pings.
abbrev pub told : List Frame → List Frame
told [] = []
told (ping ∷ fs) = told fs
told (snapshot s ∷ fs) = snapshot s ∷ told fs
told (progress_event ev ∷ fs) = progress_event ev ∷ told fs

-- The messages that come before the end of the request.
abbrev pub messages : List Happening → List JobProgressEvent
messages [] = []
messages (message ev ∷ hs) = ev ∷ messages hs
messages (malformed ∷ hs) = messages hs
messages (interval ∷ hs) = messages hs
messages (request_closed ∷ hs) = []

-- Events up to the first with a last status, and whether there is one.
unfoldable pub through_last : List JobProgressEvent → List Frame
through_last [] = []
through_last (ev ∷ evs) =
    let rest = through_last evs in progress_event ev ∷ (if is_last ev.status then [] else rest)

unfoldable pub any_last : List JobProgressEvent → Bool
any_last [] = false
any_last (ev ∷ evs) = is_last ev.status || any_last evs

told-append : (fs gs : List Frame) → told (fs ++ gs) ≡ told fs ++ told gs
told-append [] gs = refl
told-append (ping ∷ fs) gs = told-append fs gs
told-append (snapshot s ∷ fs) gs = ap (λ l. snapshot s ∷ l) (told-append fs gs)
told-append (progress_event ev ∷ fs) gs = ap (λ l. progress_event ev ∷ l) (told-append fs gs)

abbrev released : List Frame → Bool → Connection
released w over = record { written = w; ended = over; subscribed = false; heartbeat = false }

abbrev opened : List Frame → Connection
opened w = record { written = w; ended = false; subscribed = true; heartbeat = true }

-- A connection that has let its resources go changes no more.
run-released :
    (w : List Frame) (over : Bool) (hs : List Happening)
    → run (released w over) hs ≡ released w over
unfolding run on cleanup
run-released w over [] = refl
run-released w over (message ev ∷ hs) = run-released w over hs
run-released w over (malformed ∷ hs) = run-released w over hs
run-released w over (interval ∷ hs) = run-released w over hs
run-released w over (request_closed ∷ hs) = run-released w over hs

on_event-last :
    (c : Connection) (ev : JobProgressEvent)
    → is_last ev.status ≡ true
    → on_event c ev ≡ released (c.written ++ progress_event ev ∷ []) true
unfolding on_event cleanup
on_event-last c ev final = rw final refl

on_event-going :
    (c : Connection) (ev : JobProgressEvent)
    → is_last ev.status ≡ false
    → on_event c ev ≡ record c { written = c.written ++ progress_event ev ∷ [] }
unfolding on_event
on_event-going c ev going = rw going refl

-- What a connection has told and whether it has ended, after what happened to it.
abbrev Tells : Connection → List Frame → Bool → Type 0
Tells c frames over = (told c.written ≡ frames) × (c.ended ≡ over)

run-opened :
    (w : List Frame) (hs : List Happening)
    → Tells (run (opened w) hs) (told w ++ through_last (messages hs)) (any_last (messages hs))
unfolding run on cleanup through_last any_last
run-opened w [] = (sym (append-nil (told w)), refl)
run-opened w (message ev ∷ hs) =
    let said = w ++ progress_event ev ∷ [] in
    elim (Bool-cases (is_last ev.status)) [
      | inl final ↦
          let stop =
            ap (λ c. run c hs) (on_event-last (opened w) ev final) ∙ run-released said true hs in
          rw final (
            ap (λ c. told c.written) stop ∙ told-append w (progress_event ev ∷ []),
            ap (λ c. c.ended) stop,
          )
      | inr going ↦
          let (frames, over) = run-opened said hs in
          let on_it = ap (λ c. run c hs) (on_event-going (opened w) ev going) in
          rw going (
            ap (λ c. told c.written) on_it
                ∙ frames
                ∙ ap (λ l. l ++ through_last (messages hs)) (told-append w (progress_event ev ∷ []))
                ∙ append_assoc (told w) (progress_event ev ∷ []) (through_last (messages hs)),
            ap (λ c. c.ended) on_it ∙ over,
          )
    ]
run-opened w (malformed ∷ hs) = run-opened w hs
run-opened w (interval ∷ hs) =
    let (frames, over) = run-opened (w ++ ping ∷ []) hs in
    (
      frames
          ∙ ap (λ l. l ++ through_last (messages hs))
              (told-append w (ping ∷ []) ∙ append-nil (told w)),
      over,
    )
run-opened w (request_closed ∷ hs) = rw (run-released w false hs) (sym (append-nil (told w)), refl)

-- Whatever reaches the connection of a job that is still going, its response holds, pings apart, the
-- snapshot of the job and then the events published before the request is closed, in order, up to
-- and with the first that has a last status; the response is ended exactly when there is one such.
pub run_lem :
    (job : Job) (hs : List Happening)
    → is_last (status_text job.status) ≡ false
    → let c = run (open_connection job) hs in
      (told c.written ≡ snapshot_of job ∷ through_last (messages hs))
      × (c.ended ≡ any_last (messages hs))
unfolding open_connection
run_lem job hs going = rw going (run-opened (snapshot_of job ∷ []) hs)

-- The resources of a connection are held and let go together, and an ended response holds none.
pub record IsTidy (c : Connection) : Type 0 where
  pub together : c.heartbeat ≡ c.subscribed
  pub let_go : c.ended ≡ true → c.subscribed ≡ false

if-IsTidy : (b : Bool) (c d : Connection) → IsTidy c → IsTidy d → IsTidy (if b then c else d)
if-IsTidy true c d s t = s
if-IsTidy false c d s t = t

on_event-IsTidy : (c : Connection) (ev : JobProgressEvent) → IsTidy c → IsTidy (on_event c ev)
unfolding on_event cleanup
on_event-IsTidy c ev t =
    if-IsTidy (is_last ev.status) _ _ (record { together = refl; let_go = λ e. refl })
      (record { together = t.together; let_go = t.let_go })

on-IsTidy : (c : Connection) (h : Happening) → IsTidy c → IsTidy (on c h)
unfolding on cleanup
on-IsTidy c (message ev) t = if-IsTidy c.subscribed _ _ (on_event-IsTidy c ev t) t
on-IsTidy c malformed t = t
on-IsTidy c interval t =
    if-IsTidy c.heartbeat _ _ (record { together = t.together; let_go = t.let_go }) t
on-IsTidy c request_closed t = record { together = refl; let_go = λ e. refl }

run-IsTidy : (c : Connection) (hs : List Happening) → IsTidy c → IsTidy (run c hs)
unfolding run
run-IsTidy c [] t = t
run-IsTidy c (h ∷ hs) t = run-IsTidy (on c h) hs (on-IsTidy c h t)

open_connection-IsTidy : (job : Job) → IsTidy (open_connection job)
unfolding open_connection
open_connection-IsTidy job = elim (Bool-cases (is_last (status_text job.status))) [
  | inl over ↦ rw over (record { together = refl; let_go = λ e. refl })
  | inr going ↦ rw going (record { together = refl; let_go = λ e. cc })
]

unchanged :
    (c : Connection) (ks : List Happening)
    → c.subscribed ≡ false
    → c.heartbeat ≡ false
    → run c ks ≡ c
unchanged c ks quiet still =
    let same : c ≡ released c.written c.ended = λ i. record {
      written = c.written;
      ended = c.ended;
      subscribed = quiet i;
      heartbeat = still i;
    } in
    ap (λ d. run d ks) same ∙ run-released c.written c.ended ks ∙ sym same

run-append : (c : Connection) (hs ks : List Happening) → run c (hs ++ ks) ≡ run (run c hs) ks
unfolding run
run-append c [] ks = refl
run-append c (h ∷ hs) ks = run-append (on c h) hs ks

-- Once a response has ended, the connection of its job holds neither its subscription nor its interval,
-- and nothing that happens afterwards changes it.
pub run-ended :
    (job : Job) (hs ks : List Happening)
    → (run (open_connection job) hs).ended ≡ true
    → let c = run (open_connection job) hs in
      (c.subscribed ≡ false) × (c.heartbeat ≡ false) × (run (open_connection job) (hs ++ ks) ≡ c)
run-ended job hs ks over =
    let c = run (open_connection job) hs in
    let tidy = run-IsTidy (open_connection job) hs (open_connection-IsTidy job) in
    let quiet = tidy.let_go over in
    (
      quiet,
      tidy.together ∙ quiet,
      run-append (open_connection job) hs ks ∙ unchanged c ks quiet (tidy.together ∙ quiet),
    )

-- The same holds behind the end of a request, whatever came before it.
run-closed :
    (job : Job) (hs ks : List Happening)
    → run (open_connection job) (hs ++ request_closed ∷ ks) ≡ cleanup (run (open_connection job) hs)
unfolding run on cleanup
run-closed job hs ks =
    let c = run (open_connection job) hs in
    run-append (open_connection job) hs (request_closed ∷ ks) ∙ run-released c.written c.ended ks
