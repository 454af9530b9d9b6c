-- ===== src/Frontend/Access/Agreement.antt =====
-- What the client shows against what the server lets through.
use db_backup_tool.Base.{
  String, Bool, true, false, none, some, List, [], ◌∷◌, all, All, keep, Bool-cases, ◌≡◌, refl, sym,
  ◌↔◌, inl, inr, arith,
}
use mathlib.Core.Path.{subst}
use mathlib.Core.Option.{some-injective}
use db_backup_tool.Errors.{ok}
use db_backup_tool.Auth.{AuthContext, has, require_permission}
use db_backup_tool.Auth.Guards.{require_permission_iff}
use db_backup_tool.Frontend.Session.{Client, Profile, filled}
use db_backup_tool.Frontend.Access.{
  has_permission, many, permission_gate, nav, sidebar, visible, page, children, protected_route,
}

-- A client that shows the user of a context, with the permissions that the server gave it.
abbrev pub ShowsUser : Client → AuthContext → Type 0
ShowsUser c auth = (user : Profile) × (c.user ≡ some user) × (user.permissions ≡ auth.permissions)

all_held :
    (c : Client) (auth : AuthContext) (required : List String)
    → ShowsUser c auth
    → has auth.permissions "*" ≡ false
    → (all (has_permission c) required ≡ true) ↔ All (λ p. has auth.permissions p ≡ true) required
unfolding has_permission
all_held c auth [] shows plain = (λ e. tt, λ h. refl)
all_held c auth (p ∷ ps) (user, shown, same) plain =
    let (there, back) = all_held c auth ps (user, shown, same) plain in
    rw (shown, same, plain) (λ e. (ground arith, there (ground arith)), λ h. rw h.0 (back h.1))

-- Where no permission of a user is the wildcard, a gate for some permissions shows its children
-- exactly when the server's guard for them lets the user through.
pub permission_gate_iff :
    (c : Client) (auth : AuthContext) (required : List String)
    → ShowsUser c auth
    → has auth.permissions "*" ≡ false
    → (permission_gate c (many required) false ≡ true)
      ↔ (require_permission required (some auth) ≡ ok tt)
unfolding permission_gate
permission_gate_iff c auth required shows plain =
    let (there, back) = all_held c auth required shows plain in
    let (guard, held) = require_permission_iff required (some auth) in
    (
      λ e. held (auth, refl, there e),
      λ e.
          let (a, same, h) = guard e in
          back (
            subst (λ x. All (λ p. has x.permissions p ≡ true) required)
              (sym (some-injective auth a same)) h),
    )

keep-All :
    {A : Type 0} (P : A → Type 0) (p : A → Bool) (xs : List A)
    → All (λ x. p x ≡ true → P x) xs
    → All P (keep p xs)
keep-All P p [] h = tt
keep-All P p (x ∷ xs) (q, h) = elim (Bool-cases (p x)) [
  | inl kept ↦ rw kept (q kept, keep-All P p xs h)
  | inr left ↦ rw left (keep-All P p xs h)
]

module _ (c : Client) (token : String) (signed : filled c.access_token ≡ some token) where
  open_page : protected_route c none ≡ children
  unfolding protected_route
  open_page = rw signed refl

  guarded_page :
      (perm : String)
      → filled (some perm) ≡ some perm
      → has_permission c perm ≡ true
      → protected_route c (some perm) ≡ children
  unfolding protected_route
  guarded_page perm e held = rw (signed, e, held) refl

-- A signed-in user is shown the page of every item in the sidebar: none of them redirects.
pub sidebar-page :
    (c : Client) (token : String)
    → filled c.access_token ≡ some token
    → All (λ i. page c i.to ≡ children) (sidebar c)
unfolding sidebar page
sidebar-page c token signed =
    let free = open_page c token signed in
    let shown : All (λ i. visible c (filled i.permission) ≡ true → page c i.to ≡ children) nav = (
      λ e. rw free refl,
      (
        λ e. rw free refl,
        (
          λ e. rw free refl,
          (
            λ e. rw free refl,
            (
              λ e. rw free refl,
              (
                λ e. rw free refl,
                (
                  λ e. rw free (guarded_page c token signed "audit:read" refl e),
                  (λ e. rw free (guarded_page c token signed "user:manage" refl e), tt),
                ),
              ),
            ),
          ),
        ),
      ),
    ) in
    keep-All (λ i. page c i.to ≡ children) (λ i. visible c (filled i.permission)) nav shown
