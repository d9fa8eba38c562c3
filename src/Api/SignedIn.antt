-- ===== src/Api/SignedIn.antt =====
-- GetAuthenticatedUser before a handler: the user that goes on is the one that the cookie names.
use scouting_app.Base.{String, ◌≡◌, refl, ap, List, Option, none, some, ◌==◌, find}
use scouting_app.Profile.{User}
use scouting_app.Db.{World, Tables, Result, ok, err, first, user_not_found, ◌>>=◌}
use scouting_app.Db.Triples.{
  Triple, Returns, Triple-pure, Triple-bind, Triple-query, Triple-if, Triple-attempt, Triple-given,
}
use scouting_app.Storage.Profiles.{get_user_by_id}
use scouting_app.Auth.{Session, some_user, session_user, get_authenticated_user}
use scouting_app.Api.{Write, Handler, resolve_user}
use scouting_app.Api.Access.{user_of, Known, find_user-Known}

module _ (T : Tables) where
  abbrev Start : World → Type 0
  Start w = w.tables ≡ T

  session_user-Known :
      (s : Session) (o : Option String)
      → s.user_id ≡ o
      → Triple Start (session_user o) (Returns (λ u w. Start w × Known (ok s) T u))
  unfolding session_user get_user_by_id some_user
  session_user-Known s none q = Triple-pure _ (λ w h. (h, tt))
  session_user-Known s (some id) q =
      Triple-if (id == "") _ _ (λ e. Triple-pure _ (λ w h. (h, tt)))
        (λ e.
          Triple-bind (λ r w. Start w × Known (ok s) T (some_user r)) _ _
            (Triple-attempt _ (
              Triple-query _
                (λ w h. (
                  h,
                  find_user-Known s id T _ q
                      (ap (λ t. first (find (λ u. u.id == id) t.users) user_not_found) h),
                ))
                (λ w h. (h, tt))))
            (λ r. Triple-pure _ (λ w h. h)))

  user-Known :
      (cookie : Result Session)
      → Triple Start (get_authenticated_user cookie) (Returns (λ u w. Start w × Known cookie T u))
  unfolding get_authenticated_user
  user-Known (err e) = Triple-pure _ (λ w h. (h, tt))
  user-Known (ok s) = session_user-Known s s.user_id refl

  pub Triple-signed_in :
      {Q : Result (List Write) → World → Type 0} (cookie : Result Session) (refused : List Write)
      (next : User → Handler)
      → ((w : World) → Start w → Q (ok refused) w)
      → ((u : User) → user_of cookie T ≡ some u → Triple Start (next u) Q)
      → Triple Start (get_authenticated_user cookie >>= resolve_user refused next) Q
  unfolding resolve_user
  Triple-signed_in {Q} cookie refused next h k =
      Triple-bind (λ u w. Start w × Known cookie T u) _ _ (user-Known cookie) resolved
    where
      resolved :
          (o : Option User)
          → Triple (λ w. Start w × Known cookie T o) (resolve_user refused next o) Q
      resolved none = Triple-pure _ (λ w g. h w g.0)
      resolved (some u) = Triple-given _ (k u)
