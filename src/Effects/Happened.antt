-- ===== src/Effects/Happened.antt =====
-- What has happened stays in the history.
use db_backup_tool.Base.{[], ◌∷◌, ◌≡◌, refl, sym, ap, ◌⊎◌, inl, inr}
use mathlib.Core.Path.{subst}
use db_backup_tool.Errors.{Result, ok}
use db_backup_tool.Effects.{Call, Reply}
use db_backup_tool.Effects.Io.{Io, Env, History, Event, gave, call}
use db_backup_tool.Effects.Invert.{call-ok}
use db_backup_tool.Effects.Logic.{Keeps}

-- An event of a history.
abbrev pub Happened : Event → History → Type 0
Happened e [] = ⊥
Happened e (x ∷ h) = (e ≡ x) ⊎ Happened e h

-- What a run of a piece of code that keeps `P` leaves.
pub kept :
    {A : Type 0} (env : Env) (P : History → Type 0) (m : Io A) (h : History) {r : Result A}
    {h' : History}
    → Keeps env P m
    → m env h ≡ (r, h')
    → P h
    → P h'
kept env P m h k e p = subst P (ap (λ r. r.1) e) (k.at h p)

-- The answer to a call stands in the history that it leaves.
pub answered :
    (c : Call) (env : Env) (h : History) {a : Reply c} {h' : History}
    → call c env h ≡ (ok a, h')
    → Happened (gave c (ok a)) h'
answered c env h e = subst (Happened (gave c (ok _))) (sym (call-ok c env h e).1) (inl refl)

-- What happened before a call stands there behind it too.
pub later :
    (e : Event) (c : Call) (env : Env) (h : History) {a : Reply c} {h' : History}
    → call c env h ≡ (ok a, h')
    → Happened e h
    → Happened e h'
later e c env h p before = subst (Happened e) (sym (call-ok c env h p).1) (inr before)
