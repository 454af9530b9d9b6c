-- ===== src/Effects/Logic.antt =====
-- What a piece of code ensures, whichever way it ends, with one rule for each way to build it.
use db_backup_tool.Base.{
  ◌≡◌, refl, Bool, true, false, Option, none, some, List, [], ◌∷◌, ◌⊎◌, inl, inr,
}
use db_backup_tool.Errors.{Err, Result, ok, err}
use db_backup_tool.Effects.{Call, Reply}
use db_backup_tool.Effects.Io.{
  History, Env, Io, pure, throw, lift, asks, call, continue, ◌>>=◌, recover, try_catch, attempt,
  try_finally, for_each, when, found_or,
}

pub Result-cases : {A : Type 0} (r : Result A) → ((a : A) × (r ≡ ok a)) ⊎ ((e : Err) × (r ≡ err e))
Result-cases (ok a) = inl (a, refl)
Result-cases (err e) = inr (e, refl)

-- From a history with `P`, the result and the new history are as `Q` says.
pub record Ensures (env : Env) {A : Type 0} (P : History → Type 0) (m : Io A)
    (Q : Result A → History → Type 0) : Type 0 where
  pub at : (h : History) → P h → Q (m env h).0 (m env h).1

-- `m` keeps `P`, whether it returns or throws.
abbrev pub Keeps : (env : Env) → {A : Type 0} → (History → Type 0) → Io A → Type 0
Keeps env P m = Ensures env P m (λ r h. P h)

module _ {env : Env} {A : Type 0} {P : History → Type 0} where
  pub Keeps-pure : (a : A) → Keeps env P (pure a)
  Keeps-pure a = record { at = λ h p. p }

  pub Keeps-throw : (e : Err) → Keeps env P (throw {A = A} e)
  Keeps-throw e = record { at = λ h p. p }

  pub Keeps-lift : (r : Result A) → Keeps env P (lift r)
  Keeps-lift r = record { at = λ h p. p }

  pub Keeps-asks : (f : Env → A) → Keeps env P (asks f)
  Keeps-asks f = record { at = λ h p. p }

  pub Keeps-found_or : (e : Err) (o : Option A) → Keeps env P (found_or e o)
  Keeps-found_or e none = record { at = λ h p. p }
  Keeps-found_or e (some a) = record { at = λ h p. p }

  pub Keeps-attempt : (m : Io A) → Keeps env P m → Keeps env P (attempt m)
  unfolding attempt
  Keeps-attempt m k = record { at = λ h p. k.at h p }

  Keeps-recover :
      (r : Result A) (handle : Err → Io A)
      → ((e : Err) → Keeps env P (handle e))
      → Keeps env P (recover r handle)
  Keeps-recover (ok a) handle k = record { at = λ h p. p }
  Keeps-recover (err e) handle k = k e

  pub Keeps-try_catch :
      (m : Io A) (handle : Err → Io A)
      → Keeps env P m
      → ((e : Err) → Keeps env P (handle e))
      → Keeps env P (try_catch m handle)
  unfolding try_catch
  Keeps-try_catch m handle k kh = record {
    at = λ h p. (Keeps-recover (m env h).0 handle kh).at (m env h).1 (k.at h p);
  }

module _ {env : Env} {P : History → Type 0} where
  pub Keeps-call :
      (c : Call)
      → ((r : Result (Reply c)) (h : History) → P h → P (record { request = c; reply = r } ∷ h))
      → Keeps env P (call c)
  Keeps-call c k = record { at = λ h p. k (env.answer h c) h p }

  pub Keeps-when : (b : Bool) (m : Io (Unit {0})) → Keeps env P m → Keeps env P (when b m)
  Keeps-when true m k = k
  Keeps-when false m k = record { at = λ h p. p }

module _ {env : Env} {A B : Type 0} {Q : Result B → History → Type 0} where
  Ensures-continue :
      (R : Result A → History → Type 0) (r : Result A) (f : A → Io B)
      → ((a : A) → Ensures env (R (ok a)) (f a) Q)
      → ((e : Err) (h : History) → R (err e) h → Q (err e) h)
      → Ensures env (R r) (continue r f) Q
  Ensures-continue R (ok a) f kf ke = kf a
  Ensures-continue R (err e) f kf ke = record { at = λ h p. ke e h p }

  -- The middle assertion is `R`.
  pub Ensures-bind :
      {P : History → Type 0} (R : Result A → History → Type 0) (m : Io A) (f : A → Io B)
      → Ensures env P m R
      → ((a : A) → Ensures env (R (ok a)) (f a) Q)
      → ((e : Err) (h : History) → R (err e) h → Q (err e) h)
      → Ensures env P (m >>= f) Q
  unfolding ◌>>=◌
  Ensures-bind R m f k kf ke = record {
    at = λ h p. (Ensures-continue R (m env h).0 f kf ke).at (m env h).1 (k.at h p);
  }

module _ {env : Env} {A B : Type 0} {P : History → Type 0} where
  pub Keeps-bind :
      (m : Io A) (f : A → Io B)
      → Keeps env P m
      → ((a : A) → Keeps env P (f a))
      → Keeps env P (m >>= f)
  Keeps-bind m f k kf = Ensures-bind (λ r. P) m f k kf (λ e h p. p)

module _ {env : Env} {A : Type 0} {P : History → Type 0} where
  pub Keeps-try_finally :
      (m : Io A) (last : Io (Unit {0}))
      → Keeps env P m
      → Keeps env P last
      → Keeps env P (try_finally m last)
  unfolding try_finally
  Keeps-try_finally m last k kl =
      Keeps-bind (attempt m) (λ r. last >>= λ _. lift r) (Keeps-attempt m k)
        (λ r. Keeps-bind last (λ _. lift r) kl (λ _. Keeps-lift r))

  pub Keeps-for_each :
      (xs : List A) (body : A → Io (Unit {0}))
      → ((a : A) → Keeps env P (body a))
      → Keeps env P (for_each xs body)
  unfolding for_each
  Keeps-for_each [] body k = Keeps-pure tt
  Keeps-for_each (x ∷ xs) body k =
      Keeps-bind (body x) (λ _. for_each xs body) (k x) (λ _. Keeps-for_each xs body k)

-- A step that only reads the environment gives what it reads.
pub Keeps-asked :
    {env : Env} {A B : Type 0} {P : History → Type 0} (f : Env → A) (g : A → Io B)
    → Keeps env P (g (f env))
    → Keeps env P (asks f >>= g)
unfolding ◌>>=◌
Keeps-asked f g k = record { at = λ h p. k.at h p }

pub ruleset keeps_rules = (
  Keeps-pure, Keeps-throw, Keeps-lift, Keeps-asks, Keeps-found_or, Keeps-attempt, Keeps-when,
  Keeps-bind, Keeps-try_catch, Keeps-try_finally, Keeps-for_each, Keeps-call,
)
