-- ===== src/Auth/Guards.antt =====
-- What the guards of a route let through.
use db_backup_tool.Base.{
  String, ◌==◌, ◌≡◌, refl, sym, ap, subst, ◌∙◌, ◌↔◌, inl, inr, Bool, true, false, ◌||◌, Option,
  none, some, List, [], ◌∷◌, ◌++◌, starts_with, drop_chars, All, Bool-cases, Option-cases, arith,
  eq_iff,
}
use mathlib.Core.Path.{subst₂}
use mathlib.Core.Option.{none-ne-some, some-injective}
use db_backup_tool.Errors.{ok}
use db_backup_tool.Effects.{verify_access, role_assignments}
use db_backup_tool.Effects.Inputs.{AccessTokenPayload}
use db_backup_tool.Effects.Io.{Env, History, gave, call, pure, lift}
use db_backup_tool.Effects.Invert.{bind-ok, call-ok, pure-ok, lift-ok, rethrow-ok}
use db_backup_tool.Auth.{
  AuthContext, guarded, context_of, has, add, add_all, union, get_user_permissions, resolve_auth,
  auth_error, authenticate, first_missing, refuse, require_permission,
}

has-append : (xs ys : List String) (p : String) → has (xs ++ ys) p ≡ (has xs p || has ys p)
unfolding has
has-append [] ys p = refl
has-append (x ∷ xs) ys p = ground (arith, has-append xs ys p)

has-add : (xs : List String) (q p : String) → has (add xs q) p ≡ (has xs p || p == q)
unfolding add
has-add xs q p = ground (arith, has-append xs (q ∷ []) p, eq_iff p q)

has-add_all : (xs ys : List String) (p : String) → has (add_all xs ys) p ≡ (has xs p || has ys p)
unfolding add_all has
has-add_all xs [] p = ground arith
has-add_all xs (y ∷ ys) p = ground (arith, has-add_all (add xs y) ys p, has-add xs y p)

-- Some of the roles has the permission.
abbrev pub any_has : List (List String) → String → Bool
any_has [] p = false
any_has (role ∷ roles) p = has role p || any_has roles p

has-union :
    (xs : List String) (roles : List (List String)) (p : String)
    → has (union xs roles) p ≡ (has xs p || any_has roles p)
unfolding union has
has-union xs [] p = ground arith
has-union xs (role ∷ roles) p =
    ground (arith, has-union (add_all xs role) roles p, has-add_all xs role p)

-- A user has a permission exactly when one of the roles assigned to the user has it.
union_lem : (roles : List (List String)) (p : String) → has (union [] roles) p ≡ any_has roles p
unfolding has
union_lem roles p = has-union [] roles p

-- No key stands twice.
abbrev pub Distinct : List String → Type 0
Distinct [] = Unit
Distinct (p ∷ ps) = (has ps p ≡ false) × Distinct ps

Distinct-concat :
    (xs : List String) (p : String) → Distinct xs → has xs p ≡ false → Distinct (xs ++ p ∷ [])
unfolding has
Distinct-concat [] p d n = (refl, tt)
Distinct-concat (x ∷ xs) p d n = (
  has-append xs (p ∷ []) x ∙ ground (arith, eq_iff x p, eq_iff p x, d.0),
  Distinct-concat xs p d.1 (ground arith),
)

pub Distinct-add : (xs : List String) (p : String) → Distinct xs → Distinct (add xs p)
unfolding add
Distinct-add xs p d = elim (Bool-cases (has xs p)) [
  | inl old ↦ rw old d
  | inr new ↦ rw new (Distinct-concat xs p d new)
]

Distinct-add_all : (xs ys : List String) → Distinct xs → Distinct (add_all xs ys)
unfolding add_all
Distinct-add_all xs [] d = d
Distinct-add_all xs (y ∷ ys) d = Distinct-add_all (add xs y) ys (Distinct-add xs y d)

pub Distinct-union :
    (xs : List String) (roles : List (List String)) → Distinct xs → Distinct (union xs roles)
unfolding union
Distinct-union xs [] d = d
Distinct-union xs (role ∷ roles) d =
    Distinct-union (add_all xs role) roles (Distinct-add_all xs role d)

first_missing-none :
    (perms required : List String)
    → first_missing perms required ≡ none
    → All (λ p. has perms p ≡ true) required
unfolding first_missing
first_missing-none perms [] e = tt
first_missing-none perms (p ∷ ps) e = elim (Bool-cases (has perms p)) [
  | inl held ↦ (held, first_missing-none perms ps (rw held at e))
  | inr missing ↦ absurd (none-ne-some p (sym (rw missing at e)))
]

first_missing-All :
    (perms required : List String)
    → All (λ p. has perms p ≡ true) required
    → first_missing perms required ≡ none
unfolding first_missing
first_missing-All perms [] h = refl
first_missing-All perms (p ∷ ps) h = rw h.0 (first_missing-All perms ps h.1)

-- A guard lets a request through exactly when `authenticate` left a context and that context has
-- every permission that the route requires.
pub require_permission_iff :
    (required : List String) (auth : Option AuthContext)
    → (require_permission required auth ≡ ok tt)
      ↔ ((a : AuthContext) × (auth ≡ some a) × All (λ p. has a.permissions p ≡ true) required)
unfolding require_permission
require_permission_iff required none = (λ e. cc, λ (a, e, h). absurd (none-ne-some a e))
require_permission_iff required (some a) = (
  λ e. (
    a,
    refl,
    elim (Option-cases (first_missing a.permissions required)) [
      | inl complete ↦ first_missing-none a.permissions required complete
      | inr (p, missing) ↦ cc (rw missing at e)
    ],
  ),
  λ (b, e, h). ap refuse (
      first_missing-All a.permissions required (
        subst (λ c. All (λ p. has c.permissions p ≡ true) required) (sym (some-injective a b e))
          h)),
)

-- What stands behind a context made from a token: the token was verified, and the roles of its user
-- were read.
pub record IsVouched (env : Env) (h : History) (token : String) (auth : AuthContext) (h' : History)
    : Type 0 where
  pub payload : AccessTokenPayload
  pub roles : List (List String)
  pub from_token : auth.user_id ≡ payload.sub
  pub in_tenant : auth.tenant_id ≡ payload.tid
  pub with_email : auth.email ≡ payload.email
  pub granted : (p : String) → has auth.permissions p ≡ any_has roles p
  pub trace :
      h'
      ≡ gave (role_assignments payload.sub) (ok roles) ∷ gave (verify_access token) (ok payload) ∷ h

get_user_permissions-ok :
    (env : Env) (h : History) (user_id : String) {perms : List String} {h' : History}
    → get_user_permissions user_id env h ≡ (ok perms, h')
    → (roles : List (List String)) × (perms ≡ union [] roles)
      × (h' ≡ gave (role_assignments user_id) (ok roles) ∷ h)
unfolding get_user_permissions
get_user_permissions-ok env h user_id e =
    let (roles, h₁, read, last) =
      bind-ok (call (role_assignments user_id)) (λ a. pure (union [] a)) env h e in
    let (answered, first) = call-ok (role_assignments user_id) env h read in
    let (same, end) = pure-ok last in (roles, sym same, sym end ∙ first)

context_of-IsVouched :
    (env : Env) (h : History) (token : String) (auth : AuthContext) (h' : History)
    → context_of token env h ≡ (ok auth, h')
    → IsVouched env h token auth h'
unfolding context_of
context_of-IsVouched env h token auth h' e =
    let (payload, h₁, verified, rest) = bind-ok (call (verify_access token)) _ env h e in
    let (perms, h₂, resolved, last) = bind-ok (get_user_permissions payload.sub) _ env h₁ rest in
    let (answered, first) = call-ok (verify_access token) env h verified in
    let (roles, union_of, second) = get_user_permissions-ok env h₁ payload.sub resolved in
    let (same, end) = pure-ok last in
    record {
      payload = payload;
      roles = roles;
      from_token = ap (λ a. a.user_id) (sym same);
      in_tenant = ap (λ a. a.tenant_id) (sym same);
      with_email = ap (λ a. a.email) (sym same);
      granted = λ p.
          ap (λ a. has a.permissions p) (sym same)
          ∙ ap (λ ps. has ps p) union_of
          ∙ union_lem roles p;
      trace = sym end ∙ second ∙ ap (λ t. gave (role_assignments payload.sub) (ok roles) ∷ t) first;
    }

-- The text behind "Bearer " in the Authorization header.
abbrev pub Bears : Option String → (token : String) → Type 0
Bears header token =
    (text : String) × (header ≡ some text)
    × (starts_with text "Bearer " ≡ true)
    × (token ≡ drop_chars 7 text)

resolve_auth-IsVouched :
    (env : Env) (h : History) (header : Option String) (auth : AuthContext) (h' : History)
    → resolve_auth header env h ≡ (ok auth, h')
    → (token : String) × Bears header token × IsVouched env h token auth h'
unfolding resolve_auth
resolve_auth-IsVouched env h none auth h' e = cc
resolve_auth-IsVouched env h (some text) auth h' e =
    elim (Bool-cases (starts_with text "Bearer ")) [
      | inl bearer ↦ (
        drop_chars 7 text,
        (text, refl, bearer, refl),
        context_of-IsVouched env h (drop_chars 7 text) auth h' (rw bearer at e),
      )
      | inr bare ↦ cc (rw bare at e)
    ]

allowed-All :
    (required : List String) (auth : AuthContext)
    → require_permission required (some auth) ≡ ok tt
    → All (λ p. has auth.permissions p ≡ true) required
allowed-All required auth e =
    let (a, same, h) = (require_permission_iff required (some auth)).0 e in
    subst (λ c. All (λ p. has c.permissions p ≡ true) required) (sym (some-injective auth a same)) h

-- A request that passes the guards of a route carries a bearer token that was verified; it acts in
-- the tenant of that token, with the permissions of the roles read for the token's user, and those
-- hold every permission that the route requires. Nothing else was called.
pub guarded-IsVouched :
    (env : Env) (h : History) (required : List String) (header : Option String) (auth : AuthContext)
    (h' : History)
    → guarded required header env h ≡ (ok auth, h')
    → (token : String) × Bears header token
      × IsVouched env h token auth h'
      × All (λ p. has auth.permissions p ≡ true) required
unfolding guarded authenticate
guarded-IsVouched env h required header auth h' e =
    let (found, h₁, authenticated, rest) = bind-ok (authenticate header) _ env h e in
    let (u, h₂, allowed, last) =
      bind-ok (lift (require_permission required (some found))) _ env h₁ rest in
    let (verdict, mid) = lift-ok (require_permission required (some found)) env h₁ allowed in
    let (same, end) = pure-ok last in
    let (token, bears, vouched) =
      resolve_auth-IsVouched env h header found h₁
        (rethrow-ok (resolve_auth header) auth_error env h authenticated) in
    let P = λ (a : AuthContext) (k : History).
      IsVouched env h token a k × All (λ p. has a.permissions p ≡ true) required in
    let both = subst₂ P same (mid ∙ end) (vouched, allowed-All required found verdict) in
    (token, bears, both.0, both.1)
