-- ===== src/Api/Rules.antt =====
-- One rule for each way in which the handlers of internal/api are built, and the helpers that only
-- read.
use scouting_app.Base.{String, List, Option, none, some, ◌==◌}
use scouting_app.Profile.{User, Profile}
use scouting_app.Event.{Event}
use scouting_app.Db.{World, Tables, Result, ok, err, Db}
use scouting_app.Db.Triples.{
  Triple, Either, Triple-bind, Triple-pure, Triple-attempt, Triple-before,
}
use scouting_app.Db.Keeps.{Keeps, Keeps-bind, Keeps-pure, Keeps-attempt}
use scouting_app.Db.Errors.{
  Reads, Reads-bind, Reads-pure, Reads-attempt, Reads-query, Reads-if, Reads-time_now, reads_rules,
}
use scouting_app.Storage.Profiles.{get_profile_by_user_id, get_user_by_id}
use scouting_app.Storage.Links.{list_links_by_parent}
use scouting_app.Storage.Rbac.{get_user_permissions}
use scouting_app.Auth.{Session, session_user, get_authenticated_user}
use scouting_app.Api.{
  Write, Handler, resolve, on_error, ignore, resolve_user, user_admin, is_admin, user_profile_id,
  current_profile_id, manages, can_manage_profile, is_past,
}

module _ {A : Type 0} (m : Db A) (refused : List Write) (next : A → Handler) where
  resolve-Reads : (r : Result A) → ((a : A) → Reads (next a)) → Reads (resolve refused next r)
  unfolding resolve
  resolve-Reads (ok a) k = k a
  resolve-Reads (err e) k = Reads-pure _

  pub Reads-on_error : Reads m → ((a : A) → Reads (next a)) → Reads (on_error m refused next)
  unfolding on_error
  Reads-on_error k l = Reads-bind _ _ (Reads-attempt _ k) (λ r. resolve-Reads r l)

  module _ {P : Tables → Type 0} where
    resolve-Keeps : (r : Result A) → ((a : A) → Keeps P (next a)) → Keeps P (resolve refused next r)
    unfolding resolve
    resolve-Keeps (ok a) k = k a
    resolve-Keeps (err e) k = Keeps-pure _

    pub Keeps-on_error :
        Keeps P m → ((a : A) → Keeps P (next a)) → Keeps P (on_error m refused next)
    unfolding on_error
    Keeps-on_error k l = Keeps-bind _ _ (Keeps-attempt _ k) (λ r. resolve-Keeps r l)

module _ {A : Type 0} {P : World → Type 0} {Q : Result (List Write) → World → Type 0} where
  pub Triple-resolve :
      (refused : List Write) (next : A → Handler) (r : Result A) (R : A → World → Type 0)
      → ((w : World) → P w → Either R (Q (ok refused)) r w)
      → ((a : A) → Triple (R a) (next a) Q)
      → Triple P (resolve refused next r) Q
  unfolding resolve
  Triple-resolve refused next (ok a) R h k = Triple-before (R a) _ h (k a)
  Triple-resolve refused next (err e) R h k = Triple-pure _ h

  -- A result that tells nothing of the world.
  pub Triple-either_way :
      (refused : List Write) (next : A → Handler) (r : Result A)
      → ((w : World) → P w → Q (ok refused) w)
      → ((a : A) → Triple P (next a) Q)
      → Triple P (resolve refused next r) Q
  unfolding resolve
  Triple-either_way refused next (ok a) h k = k a
  Triple-either_way refused next (err e) h k = Triple-pure _ h

module _ {A : Type 0} {P : World → Type 0} {Q : Result (List Write) → World → Type 0} where
  pub Triple-on_error :
      (refused : List Write) (R : A → World → Type 0) (m : Db A) (next : A → Handler)
      → Triple P m (Either R (Q (ok refused)))
      → ((a : A) → Triple (R a) (next a) Q)
      → Triple P (on_error m refused next) Q
  unfolding on_error
  Triple-on_error refused R m next k l =
      Triple-bind (Either R (Q (ok refused))) _ _ (Triple-attempt m k)
        (λ r. Triple-resolve refused next r R (λ w h. h) l)

module _ {P : World → Type 0} {Q : Result (List Write) → World → Type 0} where
  pub Triple-ignore :
      (R : World → Type 0) (m : Db (Unit {0})) (next : Handler)
      → Triple P m (λ r. R)
      → Triple R next Q
      → Triple P (ignore m next) Q
  unfolding ignore
  Triple-ignore R m next k l = Triple-bind (λ r. R) _ _ (Triple-attempt m k) (λ r. l)

pub Keeps-ignore :
    {P : Tables → Type 0} (m : Db (Unit {0})) (next : Handler)
    → Keeps P m
    → Keeps P next
    → Keeps P (ignore m next)
unfolding ignore
Keeps-ignore m next k l = Keeps-bind _ _ (Keeps-attempt _ k) (λ r. l)

pub Keeps-resolve_user :
    {P : Tables → Type 0} (refused : List Write) (next : User → Handler) (o : Option User)
    → ((u : User) → Keeps P (next u))
    → Keeps P (resolve_user refused next o)
unfolding resolve_user
Keeps-resolve_user refused next none k = Keeps-pure _
Keeps-resolve_user refused next (some u) k = k u

session_user-Reads : (o : Option String) → Reads (session_user o)
unfolding session_user get_user_by_id
session_user-Reads none = search reads_rules
session_user-Reads (some id) = search reads_rules

pub get_authenticated_user-Reads : (cookie : Result Session) → Reads (get_authenticated_user cookie)
unfolding get_authenticated_user
get_authenticated_user-Reads (err e) = Reads-pure _
get_authenticated_user-Reads (ok s) = session_user-Reads s.user_id

user_admin-Reads : (o : Option User) → Reads (user_admin o)
unfolding user_admin get_user_permissions
user_admin-Reads none = search reads_rules
user_admin-Reads (some u) = search reads_rules

pub is_admin-Reads : (cookie : Result Session) → Reads (is_admin cookie)
unfolding is_admin
is_admin-Reads cookie = Reads-bind _ _ (get_authenticated_user-Reads cookie) user_admin-Reads

user_profile_id-Reads : (o : Option User) → Reads (user_profile_id o)
unfolding user_profile_id get_profile_by_user_id
user_profile_id-Reads none = search reads_rules
user_profile_id-Reads (some u) = search reads_rules

pub current_profile_id-Reads : (cookie : Result Session) → Reads (current_profile_id cookie)
unfolding current_profile_id
current_profile_id-Reads cookie =
    Reads-bind _ _ (get_authenticated_user-Reads cookie) user_profile_id-Reads

manages-Reads : (profile_id : String) (r : Result Profile) → Reads (manages profile_id r)
unfolding manages list_links_by_parent
manages-Reads profile_id (err e) = search reads_rules
manages-Reads profile_id (ok p) =
    Reads-if (p.id == profile_id) _ _ (λ q. Reads-pure _)
      (λ q. Reads-bind _ _ (Reads-attempt _ (Reads-query _)) (λ r. Reads-pure _))

pub can_manage_profile-Reads :
    (user_id profile_id : String) → Reads (can_manage_profile user_id profile_id)
unfolding can_manage_profile get_profile_by_user_id
can_manage_profile-Reads user_id profile_id =
    Reads-bind _ _ (Reads-attempt _ (Reads-query _)) (manages-Reads profile_id)

pub is_past-Reads : (evt : Event) → Reads (is_past evt)
unfolding is_past
is_past-Reads evt = Reads-bind _ _ Reads-time_now (λ now. Reads-pure _)
