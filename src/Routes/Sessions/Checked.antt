-- ===== src/Routes/Sessions/Checked.antt =====
-- What stands behind the tokens that a session is given.
use db_backup_tool.Base.{
  String, ◌==◌, Bool, true, false, Option, none, some, ◌≡◌, refl, sym, ap, ◌∙◌, ◌≢◌, inl, inr,
  Bool-cases,
}
use mathlib.Core.Path.{subst}
use db_backup_tool.Errors.{Err, ok, unauthorized}
use db_backup_tool.Model.{User, UserStatus, active, invited, disabled}
use db_backup_tool.Effects.{
  user_find_by_email, user_find_unique, user_touch_login, verify_password, sign_access,
  sign_refresh, verify_refresh, now,
}
use db_backup_tool.Effects.Inputs.{AccessTokenPayload, RefreshTokenPayload}
use db_backup_tool.Effects.Io.{Env, History, Event, gave, call, try_catch}
use db_backup_tool.Effects.Invert.{bind-ok, pure-ok, rethrow-ok}
use db_backup_tool.Effects.Logic.{Keeps, keeps_rules}
use db_backup_tool.Effects.Happened.{Happened, kept, answered, later}
use db_backup_tool.Audit.Kept.{audit-Happened}
use db_backup_tool.Auth.{get_user_permissions}
use db_backup_tool.Audit.{audit}
use db_backup_tool.Routes.Sessions.{
  Session, usable, status_of, sign_in_entry, signed_in, login, renew, refresh,
}

-- `usable` lets a row through that is there and not disabled.
usable-ok :
    (e : Err) (found : Option User) (status : UserStatus) (env : Env) (h : History) {user : User}
    {h' : History}
    → usable e found status env h ≡ (ok user, h')
    → (found ≡ some user) × (status ≢ disabled) × (h ≡ h')
usable-ok e none status env h p = cc
usable-ok e (some u) disabled env h p = cc
usable-ok e (some u) active env h p = (cc, λ q. cc, cc)
usable-ok e (some u) invited env h p = (cc, λ q. cc, cc)

permissions-Happened :
    (env : Env) (e : Event) (id : String) → Keeps env (Happened e) (get_user_permissions id)
unfolding get_user_permissions
permissions-Happened env e id = search (keeps_rules, inr)

-- A session that was given behind the test of a password.
pub record IsGranted (user : User) (email : String) (s : Session) (h' : History) : Type 0 where
  pub of_user : s.user ≡ user
  pub access :
      Happened
        (gave
          (sign_access (record { sub = user.id; tid = user.tenant_id; email = email }))
          (ok s.access_token))
        h'
  pub refreshing :
      Happened
        (gave
          (sign_refresh (record { sub = user.id; tid = user.tenant_id; v = 1 }))
          (ok s.refresh_token))
        h'

module _ (env : Env) (user : User) (email : String) (ip : Option String) where
  signed_in-Happened :
      (e : Event) (matches : Bool) → Keeps env (Happened e) (signed_in user email ip matches)
  unfolding signed_in
  signed_in-Happened e true =
      search (audit-Happened, permissions-Happened, keeps_rules, inr) depth 20
  signed_in-Happened e false = search (audit-Happened, keeps_rules) depth 12

  signed_in-ok :
      (matches : Bool) (h : History) {s : Session} {h' : History}
      → signed_in user email ip matches env h ≡ (ok s, h')
      → (matches ≡ true) × IsGranted user user.email s h'
  unfolding signed_in
  signed_in-ok false h e =
      let (u, h₁, told, rest) =
        bind-ok (audit (sign_in_entry user email "auth.login_failed" ip)) _ env h e in
      cc
  signed_in-ok true h {s} {h'} e =
      let claims : AccessTokenPayload = record {
        sub = user.id;
        tid = user.tenant_id;
        email = user.email;
      } in
      let renewal : RefreshTokenPayload = record { sub = user.id; tid = user.tenant_id; v = 1 } in
      let (time, h₁, t, r₁) = bind-ok (call now) _ env h e in
      let (u, h₂, touched, r₂) = bind-ok (call (user_touch_login user.id time)) _ env h₁ r₁ in
      let (access, h₃, signed, r₃) = bind-ok (call (sign_access claims)) _ env h₂ r₂ in
      let (fresh, h₄, signed', r₄) = bind-ok (call (sign_refresh renewal)) _ env h₃ r₃ in
      let (perms, h₅, read, r₅) = bind-ok (get_user_permissions user.id) _ env h₄ r₄ in
      let (v, h₆, told, r₆) =
        bind-ok (audit (sign_in_entry user email "auth.login" ip)) _ env h₅ r₅ in
      let (same, over) = pure-ok r₆ in
      let on_to_end : (x : Event) → Happened x h₄ → Happened x h' = λ x p. subst (Happened x) over (
        kept env (Happened x) (audit (sign_in_entry user email "auth.login" ip)) h₅
          (audit-Happened env x _) told
          (kept env (Happened x) (get_user_permissions user.id) h₄
            (permissions-Happened env x user.id) read p)) in
      let granted = on_to_end _ (
        later (gave (sign_access claims) (ok access)) (sign_refresh renewal) env h₃ signed'
          (answered (sign_access claims) env h₂ signed)) in
      let renewed = on_to_end _ (answered (sign_refresh renewal) env h₃ signed') in
      (
        refl,
        record {
          of_user = ap (λ x. x.user) (sym same);
          access =
              subst (λ x. Happened (gave (sign_access claims) (ok x.access_token)) h') same granted;
          refreshing =
              subst (λ x. Happened (gave (sign_refresh renewal) (ok x.refresh_token)) h') same
                renewed;
        },
      )

-- A login that returns has found the user by the e-mail, the user is not disabled, and the password was
-- verified against the hash of that user; the tokens of its session were signed for that user and the
-- tenant of that user.
pub login-IsGranted :
    (email password : String) (ip : Option String) (env : Env) (h : History) (s : Session)
    (h' : History)
    → login email password ip env h ≡ (ok s, h')
    → (user : User) × (user.status ≢ disabled)
      × Happened (gave (user_find_by_email email) (ok (some user))) h'
      × Happened (gave (verify_password password user.password_hash) (ok true)) h'
      × IsGranted user user.email s h'
unfolding login
login-IsGranted email password ip env h s h' e =
    let (found, h₁, asked, r₁) = bind-ok (call (user_find_by_email email)) _ env h e in
    let (user, h₂, passed, r₂) =
      bind-ok (usable (unauthorized "Invalid credentials") found (status_of found)) _ env h₁ r₁ in
    let (is, enabled, same) = usable-ok _ found (status_of found) env h₁ passed in
    let (matches, h₃, checked, r₃) =
      bind-ok (call (verify_password password user.password_hash)) _ env h₂ r₂ in
    let (right, granted) = signed_in-ok env user email ip matches h₃ r₃ in
    let lookup = gave (user_find_by_email email) (ok (some user)) in
    let test = gave (verify_password password user.password_hash) (ok true) in
    (
      user,
      λ off. enabled (ap status_of is ∙ off),
      kept env (Happened lookup) (signed_in user email ip matches) h₃
          (signed_in-Happened env user email ip lookup matches) r₃
          (later lookup (verify_password password user.password_hash) env h₂ checked (
            subst (Happened lookup) same (
              subst (λ o. Happened (gave (user_find_by_email email) (ok o)) h₁) is
                (answered (user_find_by_email email) env h asked)))),
      kept env (Happened test) (signed_in user email ip matches) h₃
          (signed_in-Happened env user email ip test matches) r₃
          (subst (λ b. Happened (gave (verify_password password user.password_hash) (ok b)) h₃)
            right (answered (verify_password password user.password_hash) env h₂ checked)),
      granted,
    )

-- What stands behind the tokens of a renewal.
pub record IsRenewed (token access fresh : String) (h' : History) : Type 0 where
  pub payload : RefreshTokenPayload
  pub user : User
  pub enabled : user.status ≢ disabled
  pub verified : Happened (gave (verify_refresh token) (ok payload)) h'
  pub known : Happened (gave (user_find_unique payload.sub) (ok (some user))) h'
  pub signed :
      Happened
        (gave
          (sign_access (record { sub = user.id; tid = user.tenant_id; email = user.email }))
          (ok access))
        h'
  pub renewed :
      Happened
        (gave
          (sign_refresh (record { sub = user.id; tid = user.tenant_id; v = payload.v }))
          (ok fresh))
        h'

renew-ok :
    (token : String) (env : Env) (h : History) (access fresh : String) (h' : History)
    → renew token env h ≡ (ok (access, fresh), h')
    → IsRenewed token access fresh h'
unfolding renew
renew-ok token env h access fresh h' e =
    let (payload, h₁, tried, r₁) = bind-ok (try_catch (call (verify_refresh token)) _) _ env h e in
    let (found, h₂, asked, r₂) = bind-ok (call (user_find_unique payload.sub)) _ env h₁ r₁ in
    let (user, h₃, passed, r₃) =
      bind-ok (usable (unauthorized "Invalid refresh token") found (status_of found)) _ env h₂ r₂ in
    let (is, enabled, same) = usable-ok _ found (status_of found) env h₂ passed in
    let claims : AccessTokenPayload = record {
      sub = user.id;
      tid = user.tenant_id;
      email = user.email;
    } in
    let renewal : RefreshTokenPayload = record {
      sub = user.id;
      tid = user.tenant_id;
      v = payload.v;
    } in
    let (a, h₄, signed, r₄) = bind-ok (call (sign_access claims)) _ env h₃ r₃ in
    let (f, h₅, signed', r₅) = bind-ok (call (sign_refresh renewal)) _ env h₄ r₄ in
    let (pair, over) = pure-ok r₅ in
    let token_ok = gave (verify_refresh token) (ok payload) in
    let row = gave (user_find_unique payload.sub) (ok (some user)) in
    let on_to_end : (x : Event) → Happened x h₂ → Happened x h' = λ x p. subst (Happened x) over (
      later x (sign_refresh renewal) env h₄ signed'
        (later x (sign_access claims) env h₃ signed (subst (Happened x) same p))) in
    record {
      payload = payload;
      user = user;
      enabled = λ off. enabled (ap status_of is ∙ off);
      verified = on_to_end token_ok (
          later token_ok (user_find_unique payload.sub) env h₁ asked (
            answered (verify_refresh token) env h
              (rethrow-ok (call (verify_refresh token)) _ env h tried)));
      known = on_to_end row (
          subst (λ o. Happened (gave (user_find_unique payload.sub) (ok o)) h₂) is
            (answered (user_find_unique payload.sub) env h₁ asked));
      signed =
          subst (λ x. Happened (gave (sign_access claims) (ok x.0)) h') pair
            (subst (Happened (gave (sign_access claims) (ok a))) over (
              later _ (sign_refresh renewal) env h₄ signed'
                (answered (sign_access claims) env h₃ signed)));
      renewed =
          subst (λ x. Happened (gave (sign_refresh renewal) (ok x.1)) h') pair
            (subst (Happened (gave (sign_refresh renewal) (ok f))) over
              (answered (sign_refresh renewal) env h₄ signed'));
    }

-- A renewal that returns has verified the refresh token, and its tokens are for the user that this
-- token names, who is not disabled; the new refresh token carries the version of the old one.
pub refresh-IsRenewed :
    (token : String) (env : Env) (h : History) (access fresh : String) (h' : History)
    → refresh (some token) env h ≡ (ok (access, fresh), h')
    → IsRenewed token access fresh h'
unfolding refresh
refresh-IsRenewed token env h access fresh h' e = elim (Bool-cases (token == "")) [
  | inl empty ↦ cc (rw empty at e)
  | inr present ↦ renew-ok token env h access fresh h' (rw present at e)
]
