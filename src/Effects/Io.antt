-- ===== src/Effects/Io.antt =====
-- Asynchronous code as a function of its environment and of what has happened so far.
-- The environment answers every call that leaves the code, and may answer each by an error; the
-- history holds the calls made with their answers, the latest first.
use db_backup_tool.Base.{ℕ, String, Bool, List, [], ◌∷◌, Option}
use db_backup_tool.Errors.{Err, Result, ok, err}
use db_backup_tool.Effects.{Call, Reply}

pub record Event : Type 0 where
  pub request : Call
  pub reply : Result (Reply request)

abbrev pub History : Type 0
History = List Event

-- A call with what it gave.
abbrev pub gave : (c : Call) → Result (Reply c) → Event
gave c r = record { request = c; reply = r }

-- Pure functions of other libraries, and the configuration that the code reads.
-- `digest` is the SHA-256 of the parts fed to one hash object, in order.
pub record Env : Type 0 where
  pub answer : History → (c : Call) → Result (Reply c)
  pub sha256 : String → String
  pub digest : List (List ℕ) → String
  pub to_iso : ℕ → String
  pub uri_to_key : String → String
  pub to_lower : String → String
  pub to_base36 : ℕ → String
  pub base64 : List ℕ → String
  pub from_base64 : String → List ℕ
  pub utf8 : String → List ℕ
  pub from_utf8 : List ℕ → String
  pub aes_encrypt : (key iv plaintext : List ℕ) → List ℕ × List ℕ
  pub aes_decrypt : (key iv tag ciphertext : List ℕ) → Result (List ℕ)
  pub master_key : String
  pub key_version : String
  pub smtp_configured : Bool

abbrev pub Io : Type 0 → Type 0
Io A = Env → History → Result A × History

abbrev pub pure : {A : Type 0} → A → Io A
pure a env h = (ok a, h)

abbrev pub throw : {A : Type 0} → Err → Io A
throw e env h = (err e, h)

abbrev pub lift : {A : Type 0} → Result A → Io A
lift r env h = (r, h)

abbrev pub asks : {A : Type 0} → (Env → A) → Io A
asks f env h = (ok (f env), h)

abbrev pub recorded : (c : Call) → Result (Reply c) → History → Result (Reply c) × History
recorded c r h = (r, gave c r ∷ h)

abbrev pub call : (c : Call) → Io (Reply c)
call c env h = recorded c (env.answer h c) h

abbrev pub continue : {A B : Type 0} → Result A → (A → Io B) → Io B
continue (ok a) f env h = f a env h
continue (err e) f env h = (err e, h)

infixl 5 ◌>>=◌ ◌>>◌
unfoldable pub ◌>>=◌ : {A B : Type 0} → Io A → (A → Io B) → Io B
◌>>=◌ m f env h = continue (m env h).0 f env (m env h).1

abbrev pub ◌>>◌ : {B : Type 0} → Io (Unit {0}) → Io B → Io B
m >> n = m >>= λ _. n

-- `try { m } catch (err) { handle(err) }`
abbrev pub recover : {A : Type 0} → Result A → (Err → Io A) → Io A
recover (ok a) handle env h = (ok a, h)
recover (err e) handle env h = handle e env h

unfoldable pub try_catch : {A : Type 0} → Io A → (Err → Io A) → Io A
try_catch m handle env h = recover (m env h).0 handle env (m env h).1

-- The result or the error of `m` as a value.
unfoldable pub attempt : {A : Type 0} → Io A → Io (Result A)
attempt m env h = (ok (m env h).0, (m env h).1)

-- `try { m } finally { last }`: an error of `last` takes the place of what `m` gives.
unfoldable pub try_finally : {A : Type 0} → Io A → Io (Unit {0}) → Io A
try_finally m last = attempt m >>= λ r. last >>= λ _. lift r

-- `for (const x of xs) body(x)`
unfoldable pub for_each : {A : Type 0} → List A → (A → Io (Unit {0})) → Io (Unit {0})
for_each [] body = pure tt
for_each (x ∷ xs) body = let rest = for_each xs body in body x >> rest

abbrev pub when : Bool → Io (Unit {0}) → Io (Unit {0})
when Bool.true m = m
when Bool.false m = pure tt

-- `if (!row) throw e`
abbrev pub found_or : {A : Type 0} → Err → Option A → Io A
found_or e Option.none = throw e
found_or e (Option.some a) = pure a
