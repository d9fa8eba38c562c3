-- ===== src/Api/Access.antt =====
-- Who may change the data of events: RequireOnboarding and RequirePermission around the routes of
-- main.go.
use scouting_app.Base.{
  String, ◌≡◌, refl, sym, ap, ◌∙◌, Bool, false, ◌&&◌, ◌||◌, List, [], ◌∷◌, Option, none, some, ◌==◌,
  inl, inr, Bool-cases, any, find, where_, arith, if◌then◌else◌,
}
use scouting_app.Calendar.{Time}
use scouting_app.Profile.{User, Role, Permission}
use scouting_app.Db.{World, Tables, Result, ok, err, user_not_found, pure, first, ◌>>=◌}
use scouting_app.Db.Keeps.{Keeps, Keeps-bind, Keeps-pure, Keeps-query, Keeps-if, Keeps-attempt}
use scouting_app.Db.Runs.{first-ok}
use scouting_app.Db.Ensures.{
  Ensures, Ensures-bind, Ensures-pure, Ensures-if, Ensures-attempt_query, Keeps-bind_knowing,
}
use scouting_app.Db.Errors.{Keeps-Reads}
use scouting_app.Storage.Profiles.{get_user_by_id}
use scouting_app.Storage.Rbac.{holds, grants, get_user_permissions}
use scouting_app.AppConfig.{get_config}
use scouting_app.Auth.{Session, some_user, session_user, get_authenticated_user}
use scouting_app.Api.{
  Write, Handler, answer, internal_error, resolve, on_error, resolve_user, permitted,
  require_permission,
}
use scouting_app.Api.Rules.{get_authenticated_user-Reads}
use scouting_app.Api.EventForms.{Cost}
use scouting_app.Api.Routes.{Route, permission, resolve_onboarding, require_onboarding, serve}

-- The user whose id the cookie holds.
abbrev pub user_of : Result Session → Tables → Option User
user_of (err e) t = none
user_of (ok s) t = elim s.user_id [ none ↦ none | some id ↦ find (λ u. u.id == id) t.users ]

-- A role that the user has is linked with a permission of this name.
abbrev pub has_permission : String → String → Tables → Bool
has_permission user_id name t =
    any
      (λ p.
        p.name == name
        && any (λ r. holds user_id r.id t.user_roles && holds r.id p.id t.role_permissions) t.roles)
      t.permissions

abbrev pub allows : String → Tables → Option User → Bool
allows name t none = false
allows name t (some u) = has_permission u.id name t

abbrev pub may : Result Session → String → Tables → Bool
may cookie name t = allows name t (user_of cookie t)

-- What is known of the user that GetAuthenticatedUser has returned.
abbrev pub Known : Result Session → Tables → Option User → Type 0
Known cookie t none = Unit {0}
Known cookie t (some u) = user_of cookie t ≡ some u

pub find_user-Known :
    (s : Session) (id : String) (T : Tables) (r : Result User)
    → s.user_id ≡ some id
    → r ≡ first (find (λ u. u.id == id) T.users) user_not_found
    → Known (ok s) T (some_user r)
unfolding some_user
find_user-Known s id T (err e) q h = tt
find_user-Known s id T (ok u) q h =
    rw q (first-ok (find (λ v. v.id == id) T.users) user_not_found u (sym h))

module _ (cookie : Result Session) (T : Tables) where
  abbrev Same : Tables → Type 0
  Same t = t ≡ T

  session_user-Known :
      (s : Session) (o : Option String)
      → s.user_id ≡ o
      → Ensures Same (session_user o) (λ u t. Known (ok s) T u)
  unfolding session_user get_user_by_id some_user
  session_user-Known s none q = Ensures-pure none (λ t h. tt)
  session_user-Known s (some id) q =
      Ensures-if (id == "") _ _ (λ e. Ensures-pure none (λ t h. tt))
        (λ e.
          Ensures-bind (λ r t. Known (ok s) T (some_user r)) _ _
            (Ensures-attempt_query _
              (λ w h.
                find_user-Known s id T _ q
                  (ap (λ t. first (find (λ u. u.id == id) t.users) user_not_found) h))
              (λ w h. tt))
            (λ r. Ensures-pure _ (λ t h. h)))

  pub user-Known :
      (c : Result Session) → Ensures Same (get_authenticated_user c) (λ u t. Known c T u)
  unfolding get_authenticated_user
  user-Known (err e) = Ensures-pure none (λ t h. tt)
  user-Known (ok s) = session_user-Known s s.user_id refl

-- Whoever is signed in is the user that the cookie names.
pub Keeps-signed_in :
    (cookie : Result Session) (T : Tables) (refused : List Write) (next : User → Handler)
    → ((u : User) → user_of cookie T ≡ some u → Keeps (λ t. t ≡ T) (next u))
    → Keeps (λ t. t ≡ T) (get_authenticated_user cookie >>= resolve_user refused next)
unfolding resolve_user
Keeps-signed_in cookie T refused next k =
    Keeps-bind_knowing (Known cookie T) _ _ (Keeps-Reads _ (get_authenticated_user-Reads cookie))
      (user-Known cookie T cookie) resolved
  where
    resolved :
        (o : Option User) → Known cookie T o → Keeps (λ t. t ≡ T) (resolve_user refused next o)
    resolved none h = Keeps-pure _
    resolved (some u) h = k u h

-- The permissions that GetUserPermissions returns.
abbrev granted : String → World → List Permission
granted user_id w = where_ (λ p. grants user_id p.id w.roles w) w.permissions

grants-any :
    (u p : String) (roles : List Role) (w : World)
    → grants u p roles w
      ≡ any (λ r. holds u r.id w.user_roles && holds r.id p w.role_permissions) roles
unfolding grants
grants-any u p [] w = refl
grants-any u p (r ∷ roles) w =
    ap (λ b. (holds u r.id w.user_roles && holds r.id p w.role_permissions) || b)
      (grants-any u p roles w)

pub any-where_and :
    {A : Type 0} (p q : A → Bool) (xs : List A) → any p (where_ q xs) ≡ any (λ x. p x && q x) xs
any-where_and p q [] = refl
any-where_and p q (x ∷ xs) = elim (Bool-cases (q x)) [
  | inl e ↦ rw e (ground (arith, any-where_and p q xs))
  | inr e ↦ rw e (ground (arith, any-where_and p q xs))
]

any-ext :
    {A : Type 0} (p q : A → Bool) → ((x : A) → p x ≡ q x) → (xs : List A) → any p xs ≡ any q xs
any-ext p q h [] = refl
any-ext p q h (x ∷ xs) = ground (arith, h x, any-ext p q h xs)

pub permitted-granted :
    (u name : String) (w : World) → permitted name (granted u w) ≡ has_permission u name w.tables
unfolding permitted
permitted-granted u name w =
    any-where_and (λ p. p.name == name) (λ p. grants u p.id w.roles w) w.permissions
    ∙ any-ext _ _ (λ p. ap (λ b. p.name == name && b) (grants-any u p.id w.roles w)) w.permissions

-- What is known of the result of GetUserPermissions.
abbrev Shown : String → Tables → String → Result (List Permission) → Type 0
Shown u T name (err e) = Unit {0}
Shown u T name (ok perms) = permitted name perms ≡ has_permission u name T

module _ (query_escape : String → String) (cookie : Result Session) (name path : String)
    (next : Handler) (T : Tables) (refused : may cookie name T ≡ false) where
  checked-Keeps :
      (u : User) (r : Result (List Permission))
      → user_of cookie T ≡ some u
      → Shown u.id T name r
      → Keeps
          (λ t. t ≡ T)
          (resolve internal_error
            (λ perms. if permitted name perms then next else pure (answer 403 "Forbidden"))
            r)
  unfolding resolve
  checked-Keeps u (err e) k s = Keeps-pure _
  checked-Keeps u (ok perms) k s =
      Keeps-if (permitted name perms) _ _
        (λ q. absurd (ground (arith, sym (ap (allows name T) k) ∙ refused))) (λ q. Keeps-pure _)

  pub require_permission-Keeps :
      Keeps (λ t. t ≡ T) (require_permission query_escape cookie name path next)
  unfolding require_permission on_error get_user_permissions
  require_permission-Keeps = Keeps-signed_in cookie T _ _ (λ u k.
      Keeps-bind_knowing (Shown u.id T name) _ _ (Keeps-attempt _ (Keeps-query _))
        (Ensures-attempt_query _
          (λ w h. permitted-granted u.id name w ∙ ap (has_permission u.id name) h) (λ w h. tt))
        (λ r s. checked-Keeps u r k s))

resolve_onboarding-Keeps :
    {P : Tables → Type 0} (next : Handler) (r : Result String)
    → Keeps P next
    → Keeps P (resolve_onboarding next r)
unfolding resolve_onboarding
resolve_onboarding-Keeps next (err e) h = Keeps-pure _
resolve_onboarding-Keeps next (ok c) h = Keeps-if (c == "true") _ _ (λ q. h) (λ q. Keeps-pure _)

module _ (query_escape : String → String) (env : String → Option String)
    (parse_cost : String → Cost) (parse_time : String → Option Time) where
  -- A request to one of these routes whose cookie does not name a user with a role that the
  -- route's permission is granted to changes no table.
  pub serve-refused :
      (cookie : Result Session) (path : String) (route : Route) (w : World)
      → may cookie (permission route) w.tables ≡ false
      → (serve query_escape env parse_cost parse_time cookie path route w).1.tables ≡ w.tables
  unfolding serve require_onboarding get_config
  serve-refused cookie path route w h =
      (Keeps-bind _ _ (Keeps-attempt _ (Keeps-query _)) (λ r.
          resolve_onboarding-Keeps _ r
            (require_permission-Keeps query_escape cookie (permission route) path _ w.tables h))).at
        w refl
