-- ===== src/Scheduler/Kept.antt =====
-- Which backups retention deletes, how many it says it did, and that nothing stops it half way.
use db_backup_tool.Base.{
  ℕ, suc, ◌+◌, ◌-◌, ◌≤◌, String, ◌==◌, ◌≡◌, refl, ap, ◌∙◌, Bool, true, false, Option, none, some,
  List, [], ◌∷◌, drop, length, length-drop, All, arith,
}
use mathlib.Core.List.{Memᴰ}
use db_backup_tool.Errors.{Result, ok, err}
use db_backup_tool.Model.{Backup, deleted}
use db_backup_tool.Effects.{Call, Reply, backup_find_available, backup_set_status, storage_delete}
use db_backup_tool.Effects.Io.{Env, History, call, gave, attempt, ◌>>=◌, continue}
use db_backup_tool.Effects.Logic.{Keeps, Keeps-pure, Keeps-bind, Keeps-call, Keeps-attempt}
use db_backup_tool.Scheduler.Retention.{
  delete_uri, delete_object, delete_backup, counted, delete_each, enforce_retention,
}

abbrev mark : (c : Call) → Result (Reply c) → ℕ → ℕ
mark (backup_set_status id deleted) (ok u) n = suc n
mark _ r n = n

-- How many times a backup was marked as deleted.
abbrev pub marks : History → ℕ
marks [] = 0
marks (e ∷ h) = mark e.request e.reply (marks h)

set_status-marks :
    (id : String) (r : Result (Unit {0})) (n : ℕ)
    → mark (backup_set_status id deleted) r n ≡ counted r n
set_status-marks id (ok u) n = refl
set_status-marks id (err e) n = refl

delete_uri-marks :
    (empty : Bool) (uri : String) (env : Env) (h : History)
    → marks (delete_uri empty uri env h).1 ≡ marks h
unfolding delete_uri ◌>>=◌
delete_uri-marks true uri env h = refl
delete_uri-marks false uri env h = refl

delete_object-marks :
    (uri : Option String) (env : Env) (h : History) → marks (delete_object uri env h).1 ≡ marks h
delete_object-marks none env h = refl
delete_object-marks (some uri) env h = delete_uri-marks (uri == "") uri env h

-- A deletion that fails in storage marks nothing.
mark-continue :
    (id : String) (r : Result (Unit {0})) (env : Env) (h : History)
    → (let run = continue r (λ u. call (backup_set_status id deleted)) env h in
        marks run.1 ≡ counted run.0 (marks h))
mark-continue id (ok u) env h =
    set_status-marks id (env.answer h (backup_set_status id deleted)) (marks h)
mark-continue id (err e) env h = refl

delete_backup-marks :
    (b : Backup) (env : Env) (h : History)
    → marks (delete_backup b env h).1 ≡ counted (delete_backup b env h).0 (marks h)
unfolding delete_backup ◌>>=◌
delete_backup-marks b env h =
    let object = delete_object b.storage_uri env h in
    mark-continue b.id object.0 env object.1
    ∙ ap (counted _) (delete_object-marks b.storage_uri env h)

counted_bounds : (r : Result (Unit {0})) (n : ℕ) → (n ≤ counted r n) × (counted r n ≤ suc n)
counted_bounds (ok u) n = omega arith
counted_bounds (err e) n = omega arith

counted-add : (r : Result (Unit {0})) (m n : ℕ) → counted r m + n ≡ m + counted r n
counted-add (ok u) m n = omega arith
counted-add (err e) m n = refl

delete_each_total :
    (env : Env) (h : History) (removed : ℕ) (bs : List Backup)
    → (n : ℕ) × (h' : History) × (delete_each removed bs env h ≡ (ok n, h'))
      × (marks h' + removed ≡ n + marks h)
      × (n ≤ removed + length bs)
unfolding delete_each ◌>>=◌ attempt
delete_each_total env h removed [] = (removed, h, refl, omega arith, omega arith)
delete_each_total env h removed (b ∷ bs) =
    let r = (delete_backup b env h).0 in
    let (n, h', run, count, bound) =
      delete_each_total env (delete_backup b env h).1 (counted r removed) bs in
    (
      n,
      h',
      run,
      omega (
        arith,
        delete_backup-marks b env h,
        counted-add r removed (marks h),
        counted-add r (marks h) removed,
        count,
      ),
      omega (arith, counted_bounds r removed, bound),
    )

-- Where the backups of the database can be read, `enforceRetention` returns: what it returns is the
-- number of backups that it marked as deleted, and no more than those beyond the number to keep. An
-- error on one backup does not keep it from the others.
pub enforce_retention_total :
    (env : Env) (h : History) (tenant_id server_id database : String) (retention : ℕ)
    (backups : List Backup)
    → env.answer h (backup_find_available tenant_id server_id database) ≡ ok backups
    → (n : ℕ) × (h' : History) × (enforce_retention tenant_id server_id database retention env h
        ≡ (ok n, h'))
      × (marks h' ≡ n + marks h)
      × (n ≤ length backups - retention)
unfolding enforce_retention ◌>>=◌
enforce_retention_total env h tenant_id server_id database retention backups found =
    let find = backup_find_available tenant_id server_id database in
    let (n, h', run, count, bound) =
      delete_each_total env (gave find (ok backups) ∷ h) 0 (drop retention backups) in
    (n, h', rw found run, omega (arith, count), omega (arith, bound, length-drop retention backups))

-- A call that retention may make when `old` are the backups beyond the number to keep: the listing,
-- the deletion of the object of one of these, or the marking of one of these.
pub data AboutOld (env : Env) (old : List Backup) (c : Call) : Type 0 where
  listing :
      (tenant_id server_id database : String)
      → c ≡ backup_find_available tenant_id server_id database
      → AboutOld env old c
  object :
      (b : Backup) (uri : String)
      → Memᴰ b old
      → b.storage_uri ≡ some uri
      → c ≡ storage_delete (env.uri_to_key uri)
      → AboutOld env old c
  row : (b : Backup) → Memᴰ b old → c ≡ backup_set_status b.id deleted → AboutOld env old c

abbrev OnlyOld : Env → List Backup → History → Type 0
OnlyOld env old = All (λ e. AboutOld env old e.request)

module _ (env : Env) (old : List Backup) where
  delete_uri-OnlyOld :
      (b : Backup) (empty : Bool) (uri : String)
      → Memᴰ b old
      → b.storage_uri ≡ some uri
      → Keeps env (OnlyOld env old) (delete_uri empty uri)
  unfolding delete_uri ◌>>=◌
  delete_uri-OnlyOld b true uri m e = Keeps-pure tt
  delete_uri-OnlyOld b false uri m e = record { at = λ h p. (object b uri m e refl, p) }

  delete_object-OnlyOld :
      (b : Backup) (uri : Option String)
      → Memᴰ b old
      → b.storage_uri ≡ uri
      → Keeps env (OnlyOld env old) (delete_object uri)
  delete_object-OnlyOld b none m e = Keeps-pure tt
  delete_object-OnlyOld b (some uri) m e = delete_uri-OnlyOld b (uri == "") uri m e

  delete_backup-OnlyOld : (b : Backup) → Memᴰ b old → Keeps env (OnlyOld env old) (delete_backup b)
  unfolding delete_backup
  delete_backup-OnlyOld b m =
      Keeps-bind (delete_object b.storage_uri) (λ u. call (backup_set_status b.id deleted))
        (delete_object-OnlyOld b b.storage_uri m refl)
        (λ u. Keeps-call (backup_set_status b.id deleted) (λ r h p. (row b m refl, p)))

  delete_each-OnlyOld :
      (removed : ℕ) (bs : List Backup)
      → ((b : Backup) → Memᴰ b bs → Memᴰ b old)
      → Keeps env (OnlyOld env old) (delete_each removed bs)
  unfolding delete_each
  delete_each-OnlyOld removed [] within = Keeps-pure removed
  delete_each-OnlyOld removed (b ∷ bs) within =
      Keeps-bind (attempt (delete_backup b)) (λ r. delete_each (counted r removed) bs)
        (Keeps-attempt (delete_backup b) (delete_backup-OnlyOld b (within b (Memᴰ.head refl))))
        (λ r. delete_each-OnlyOld (counted r removed) bs (λ x m. within x (Memᴰ.tail m)))

-- Retention calls nothing but the listing and what deletes a backup beyond the number to keep: the
-- most recent ones, which the listing gives first, are left as they are.
pub enforce_retention-OnlyOld :
    (env : Env) (tenant_id server_id database : String) (retention : ℕ) (backups : List Backup)
    → env.answer [] (backup_find_available tenant_id server_id database) ≡ ok backups
    → All
        (λ e. AboutOld env (drop retention backups) e.request)
        (enforce_retention tenant_id server_id database retention env []).1
unfolding enforce_retention ◌>>=◌
enforce_retention-OnlyOld env tenant_id server_id database retention backups found =
    let old = drop retention backups in
    rw found (
      (delete_each-OnlyOld env old 0 old (λ b m. m)).at
        (gave (backup_find_available tenant_id server_id database) (ok backups) ∷ [])
        (listing tenant_id server_id database refl, tt))
