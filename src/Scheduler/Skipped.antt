-- ===== src/Scheduler/Skipped.antt =====
-- What a trigger of a schedule does when there is nothing to do.
use db_backup_tool.Base.{String, Option, none, some, ◌≡◌, refl, false, ◌∷◌}
use db_backup_tool.Errors.{ok}
use db_backup_tool.Model.{Schedule}
use db_backup_tool.Effects.{schedule_find_unique}
use db_backup_tool.Effects.Io.{Env, History, gave, ◌>>=◌}
use db_backup_tool.Scheduler.Triggers.{schedule_processor}

-- Nothing is to be done for a schedule that is gone or disabled.
abbrev pub IsIdle : Option Schedule → Type 0
IsIdle none = Unit
IsIdle (some schedule) = schedule.enabled ≡ false

-- The trigger of a schedule that is gone or disabled returns after its lookup: it creates no job, adds
-- nothing to a queue and deletes no backup.
schedule_processor-IsIdle :
    (env : Env) (h : History) (id : String) (found : Option Schedule)
    → env.answer h (schedule_find_unique id) ≡ ok found
    → IsIdle found
    → schedule_processor id env h ≡ (ok tt, gave (schedule_find_unique id) (ok found) ∷ h)
unfolding schedule_processor ◌>>=◌
schedule_processor-IsIdle env h id none e idle = rw e refl
schedule_processor-IsIdle env h id (some schedule) e idle = rw e (rw idle refl)
