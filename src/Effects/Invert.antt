-- ===== src/Effects/Invert.antt =====
-- From a run that returned, how each of its steps ran.
use db_backup_tool.Base.{◌≡◌, refl, sym, ap, ◌∙◌, Option, none, some, ◌∷◌, ◌⊎◌, inl, inr}
use db_backup_tool.Errors.{Err, Result, ok, err}
use db_backup_tool.Effects.{Call, Reply}
use db_backup_tool.Effects.Io.{
  History, Env, Io, throw, lift, asks, call, gave, continue, ◌>>=◌, recover, try_catch, found_or,
}

pub ok_injective : {A : Type 0} {a b : A} → ok a ≡ ok b → a ≡ b
ok_injective e = cc

module _ {A B : Type 0} where
  continue-ok :
      (r : Result A) (f : A → Io B) (env : Env) (h : History) {b : B} {h' : History}
      → continue r f env h ≡ (ok b, h')
      → (a : A) × (r ≡ ok a) × (f a env h ≡ (ok b, h'))
  continue-ok (ok a) f env h e = (a, refl, e)
  continue-ok (err x) f env h e = cc

  pub bind-ok :
      (m : Io A) (f : A → Io B) (env : Env) (h : History) {b : B} {h' : History}
      → (m >>= f) env h ≡ (ok b, h')
      → (a : A) × (mid : History) × (m env h ≡ (ok a, mid)) × (f a env mid ≡ (ok b, h'))
  unfolding ◌>>=◌
  bind-ok m f env h e =
      let (a, first, second) = continue-ok (m env h).0 f env (m env h).1 e in
      (a, (m env h).1, ap (λ r. (r, (m env h).1)) first, second)

module _ {A : Type 0} where
  pub pure-ok :
      {a b : A} {h h' : History}
      → ◌≡◌ {A = Result A × History} (ok a, h) (ok b, h')
      → (a ≡ b) × (h ≡ h')
  pure-ok e = (cc, cc)

  pub found_or-ok :
      (e : Err) (o : Option A) (env : Env) (h : History) {a : A} {h' : History}
      → found_or e o env h ≡ (ok a, h')
      → (o ≡ some a) × (h ≡ h')
  found_or-ok e none env h p = cc
  found_or-ok e (some a) env h p = (cc, cc)

  pub asks-ok :
      (f : Env → A) (env : Env) (h : History) {a : A} {h' : History}
      → asks f env h ≡ (ok a, h')
      → (f env ≡ a) × (h ≡ h')
  asks-ok f env h e = pure-ok e

  pub lift-ok :
      (r : Result A) (env : Env) (h : History) {a : A} {h' : History}
      → lift r env h ≡ (ok a, h')
      → (r ≡ ok a) × (h ≡ h')
  lift-ok r env h e = (ap (λ p. p.0) e, ap (λ p. p.1) e)

  recover-ok :
      (r : Result A) (handle : Err → Io A) (env : Env) (h : History) {a : A} {h' : History}
      → recover r handle env h ≡ (ok a, h')
      → ((r ≡ ok a) × (h ≡ h')) ⊎ ((e : Err) × (r ≡ err e) × (handle e env h ≡ (ok a, h')))
  recover-ok (ok a) handle env h p = inl (cc, cc)
  recover-ok (err e) handle env h p = inr (e, refl, p)

  -- A handler that always throws leaves only the runs that did not need it.
  pub rethrow-ok :
      (m : Io A) (change : Err → Err) (env : Env) (h : History) {a : A} {h' : History}
      → try_catch m (λ e. throw (change e)) env h ≡ (ok a, h')
      → m env h ≡ (ok a, h')
  unfolding try_catch
  rethrow-ok m change env h p =
      elim (recover-ok (m env h).0 (λ e. throw (change e)) env (m env h).1 p) [
        | inl (q, s) ↦ cc
        | inr (e, q, s) ↦ cc
      ]

pub call-ok :
    (c : Call) (env : Env) (h : History) {a : Reply c} {h' : History}
    → call c env h ≡ (ok a, h')
    → (env.answer h c ≡ ok a) × (h' ≡ gave c (ok a) ∷ h)
call-ok c env h {a} {h'} p =
    let answered = ap (λ r. r.0) p in
    (answered, sym (ap (λ r. r.1) p) ∙ ap (λ r. gave c r ∷ h) answered)
