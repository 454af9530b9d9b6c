-- ===== src/Frontend/JobStream/Stops.antt =====
-- When the hook stops asking the server.
use db_backup_tool.Base.{
  ℕ, zero, suc, ◌+◌, Bool, true, false, if◌then◌else◌, some, List, [], ◌∷◌, ◌++◌, Bool-cases, ◌≡◌,
  refl, sym, ap, ◌∙◌, ◌⊎◌, inl, inr, arith,
}
use mathlib.Core.Path.{subst}
use db_backup_tool.Frontend.JobStream.{
  JobView, Hook, is_terminal, start_polling, start, Happening, fetched, fetch_failed, interval, sse,
  frame, malformed, stream_error, unmounted, on_fetched, on_frame, on_error, on, run,
}

-- A hook never polls while its source is open, and neither does one whose effect was cleaned up.
pub record IsSound (s : Hook) : Type 0 where
  pub one_way : s.polling ≡ true → s.source_open ≡ false
  pub cleaned : s.cancelled ≡ true → (s.polling ≡ false) × (s.source_open ≡ false)

if-IsSound : (b : Bool) (s t : Hook) → IsSound s → IsSound t → IsSound (if b then s else t)
if-IsSound true s t k l = k
if-IsSound false s t k l = l

on_fetched-IsSound : (s : Hook) (view : JobView) → IsSound s → IsSound (on_fetched s view)
unfolding on_fetched
on_fetched-IsSound s view k = if-IsSound s.cancelled _ _ k (
    if-IsSound (is_terminal view.status) _ _
      (record { one_way = λ e. cc; cleaned = λ e. (refl, (k.cleaned e).1) })
      (record { one_way = k.one_way; cleaned = k.cleaned }))

on_frame-IsSound : (s : Hook) (view : JobView) → IsSound s → IsSound (on_frame s view)
unfolding on_frame
on_frame-IsSound s view k = if-IsSound s.cancelled _ _ k (
    if-IsSound (is_terminal view.status) _ _
      (record { one_way = λ e. refl; cleaned = λ e. ((k.cleaned e).0, refl) })
      (record { one_way = k.one_way; cleaned = k.cleaned }))

on_error-IsSound : (s : Hook) → IsSound s → IsSound (on_error s)
unfolding on_error start_polling
on_error-IsSound s k = elim (Bool-cases s.cancelled) [
  | inl over ↦ rw over (record { one_way = λ e. refl; cleaned = λ e. ((k.cleaned over).0, refl) })
  | inr going ↦ rw going (
      if-IsSound s.polling _ _ (record { one_way = λ e. refl; cleaned = λ e. cc })
        (record { one_way = λ e. refl; cleaned = λ e. cc }))
]

on-IsSound : (s : Hook) (h : Happening) → IsSound s → IsSound (on s h)
unfolding on
on-IsSound s (fetched view) k = on_fetched-IsSound s view k
on-IsSound s fetch_failed k = k
on-IsSound s interval k =
    if-IsSound s.polling _ _ (record { one_way = k.one_way; cleaned = k.cleaned }) k
on-IsSound s (frame view) k = if-IsSound s.source_open _ _ (on_frame-IsSound s view k) k
on-IsSound s malformed k = k
on-IsSound s stream_error k = if-IsSound s.source_open _ _ (on_error-IsSound s k) k
on-IsSound s unmounted k = record { one_way = λ e. refl; cleaned = λ e. (refl, refl) }

run-IsSound : (s : Hook) (hs : List Happening) → IsSound s → IsSound (run s hs)
unfolding run
run-IsSound s [] k = k
run-IsSound s (h ∷ hs) k = run-IsSound (on s h) hs (on-IsSound s h k)

start-IsSound : (source : Bool) → IsSound (start source)
unfolding start start_polling
start-IsSound true = record { one_way = λ e. cc; cleaned = λ e. cc }
start-IsSound false = record { one_way = λ e. refl; cleaned = λ e. cc }

-- What is left of a hook that asks no more.
abbrev Quiet : Hook → ℕ → Type 0
Quiet s n = (s.polling ≡ false) × (s.source_open ≡ false) × (s.requests ≡ n)

if-Quiet : (b : Bool) (s t : Hook) (n : ℕ) → Quiet s n → Quiet t n → Quiet (if b then s else t) n
if-Quiet true s t n q r = q
if-Quiet false s t n q r = r

if-true : {A : Type 0} (b : Bool) (x y : A) → b ≡ true → (if b then x else y) ≡ x
if-true b x y e = rw e refl

if-false : {A : Type 0} (b : Bool) (x y : A) → b ≡ false → (if b then x else y) ≡ y
if-false b x y e = rw e refl

if_not-Quiet :
    (b : Bool) (s t : Hook) (n : ℕ) → b ≡ false → Quiet t n → Quiet (if b then s else t) n
if_not-Quiet b s t n e q = subst (λ u. Quiet u n) (sym (if-false b s t e)) q

on-Quiet : (s : Hook) (h : Happening) (n : ℕ) → Quiet s n → Quiet (on s h) n
unfolding on on_fetched
on-Quiet s (fetched view) n (still, closed, same) =
    if-Quiet s.cancelled _ _ n (still, closed, same)
      (if-Quiet (is_terminal view.status) _ _ n (refl, closed, same) (still, closed, same))
on-Quiet s fetch_failed n q = q
on-Quiet s interval n (still, closed, same) =
    if_not-Quiet s.polling _ s n still (still, closed, same)
on-Quiet s (frame view) n (still, closed, same) =
    if_not-Quiet s.source_open _ s n closed (still, closed, same)
on-Quiet s malformed n q = q
on-Quiet s stream_error n (still, closed, same) =
    if_not-Quiet s.source_open _ s n closed (still, closed, same)
on-Quiet s unmounted n (still, closed, same) = (refl, refl, same)

run-Quiet : (s : Hook) (hs : List Happening) (n : ℕ) → Quiet s n → Quiet (run s hs) n
unfolding run
run-Quiet s [] n q = q
run-Quiet s (h ∷ hs) n q = run-Quiet (on s h) hs n (on-Quiet s h n q)

-- The last thing that matters to a hook, with the calls that it still makes: the answer done or
-- failed to a poll, a frame with one of these statuses, and the clean-up.
pub data Final (s : Hook) : Happening → ℕ → Type 0 where
  answered :
      (view : JobView)
      → s.polling ≡ true
      → is_terminal view.status ≡ true
      → Final s (fetched view) 0
  told :
      (view : JobView)
      → s.source_open ≡ true
      → is_terminal view.status ≡ true
      → Final s (frame view) 1
  left : Final s unmounted 0

IsSound-going :
    (s : Hook) → IsSound s → (s.polling ≡ true) ⊎ (s.source_open ≡ true) → s.cancelled ≡ false
IsSound-going s k busy = elim (Bool-cases s.cancelled) [
  | inl over ↦ elim busy [ inl p ↦ cc ((k.cleaned over).0) | inr o ↦ cc ((k.cleaned over).1) ]
  | inr going ↦ going
]

not_polling : (s : Hook) → IsSound s → s.source_open ≡ true → s.polling ≡ false
not_polling s k o = elim (Bool-cases s.polling) [ inl p ↦ cc (k.one_way p) | inr still ↦ still ]

on-final :
    (s : Hook) (h : Happening) (extra : ℕ)
    → IsSound s
    → Final s h extra
    → Quiet (on s h) (s.requests + extra)
unfolding on on_fetched on_frame
on-final s _ _ k (answered view p e) =
    let on_it : on_fetched s view ≡ record s { job = some view; polling = false } =
      if-false s.cancelled _ _ (IsSound-going s k (inl p))
      ∙ if-true (is_terminal view.status) _ _ e in
    subst (λ t. Quiet t (s.requests + 0)) (sym on_it) (refl, k.one_way p, omega arith)
on-final s _ _ k (told view o e) =
    let going = IsSound-going s k (inr o) in
    let on_it =
      if-true s.source_open (on_frame s view) s o
      ∙ if-false s.cancelled _ _ going
      ∙ if-true (is_terminal view.status) _ _ e in
    subst (λ t. Quiet t (s.requests + 1)) (sym on_it) (not_polling s k o, refl, omega arith)
on-final s _ _ k left = (refl, refl, omega arith)

run-append : (s : Hook) (hs ks : List Happening) → run s (hs ++ ks) ≡ run (run s hs) ks
unfolding run
run-append s [] ks = refl
run-append s (h ∷ hs) ks = run-append (on s h) hs ks

-- Wherever the hook has got to, the answer done or failed to a poll, a frame of the stream with one of
-- these statuses and the clean-up of the effect end its traffic: the interval is cleared, the stream is
-- closed, and whatever happens afterwards it makes no further call, a last one behind a frame apart.
pub run-final :
    (source : Bool) (hs ks : List Happening) (h : Happening) (extra : ℕ)
    → Final (run (start source) hs) h extra
    → let t = run (start source) (hs ++ h ∷ ks) in
      (t.polling ≡ false)
      × (t.source_open ≡ false)
      × (t.requests ≡ (run (start source) hs).requests + extra)
unfolding run
run-final source hs ks h extra f =
    let s = run (start source) hs in
    rw (run-append (start source) hs (h ∷ ks)) (
      run-Quiet (on s h) ks (s.requests + extra)
        (on-final s h extra (run-IsSound (start source) hs (start-IsSound source)) f))

-- Turns of the interval, each with the same answer.
abbrev pub rounds : ℕ → JobView → List Happening
rounds zero view = []
rounds (suc n) view = interval ∷ fetched view ∷ rounds n view

polled :
    (view : JobView) (s : Hook)
    → s.polling ≡ true
    → s.cancelled ≡ false
    → is_terminal view.status ≡ false
    → on (on s interval) (fetched view) ≡ record s { requests = suc s.requests; job = some view }
unfolding on on_fetched
polled view s p going e =
    let asked : Hook = record s { requests = suc s.requests } in
    ap (λ t. on_fetched t view) (if-true s.polling asked s p)
    ∙ if-false s.cancelled _ _ going
    ∙ if-false (is_terminal view.status) _ _ e

-- `s` after some more polls.
abbrev Polls : Hook → ℕ → Type 0
Polls s n = (s.polling ≡ true) × (s.requests ≡ n)

rounds-polling :
    (n : ℕ) (view : JobView) (s : Hook)
    → s.polling ≡ true
    → s.cancelled ≡ false
    → is_terminal view.status ≡ false
    → Polls (run s (rounds n view)) (s.requests + n)
unfolding run
rounds-polling zero view s p going e = (p, omega arith)
rounds-polling (suc n) view s p going e =
    let next : Hook = record s { requests = suc s.requests; job = some view } in
    let (on_it, more) = rounds-polling n view next p going e in
    subst (λ t. Polls (run t (rounds n view)) (s.requests + suc n)) (sym (polled view s p going e))
      (on_it, omega arith)

cancelled_open : (view : JobView) → view.status ≡ some "cancelled" → is_terminal view.status ≡ false
unfolding is_terminal
cancelled_open view e = rw e refl

-- A job that was cancelled is polled for ever: after the frame that says so and the end of the stream,
-- the hook asks again at each turn of its interval, however often the answer is that it is cancelled.
pub rounds_cancelled :
    (view : JobView) (n : ℕ)
    → view.status ≡ some "cancelled"
    → let s = run (start true) (frame view ∷ stream_error ∷ rounds n view) in
      (s.polling ≡ true) × (s.requests ≡ n + 2)
unfolding run on on_frame on_error start_polling start
rounds_cancelled view n e =
    let shown : Hook = record (start true) { job = some view; transport = sse } in
    let going = cancelled_open view e in
    let seen : on (start true) (frame view) ≡ shown =
      if-false (is_terminal view.status) _ _ going in
    let (on_it, more) = rounds-polling n view (on shown stream_error) refl refl going in
    subst (λ t. Polls (run (on t stream_error) (rounds n view)) (n + 2)) (sym seen)
      (on_it, omega arith)
