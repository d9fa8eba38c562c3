-- ===== src/Api/Managing.antt =====
-- Whom a user may sign up, withdraw and give responsibilities: canManageProfile and isAdmin before
-- the changes of SignUp, Withdraw and ToggleResponsibility in internal/api/events.go.
pub mod Refusals
use mathlib.Core.Path.{subst}
use scouting_app.Base.{
  String, ◌≡◌, refl, sym, ap, ◌∙◌, Bool, true, false, not, ◌&&◌, ◌||◌, List, [], ◌∷◌, Option, none,
  some, ◌==◌, Bool-cases, inl, inr, any, find, where_, arith, if◌then◌else◌,
}
use scouting_app.Profile.{
  Profile, User, Permission, ParentYouthConnection, approved, link_status_eq, inactive, status_eq,
}
use scouting_app.Event.{Responsibility, driver}
use scouting_app.Db.{
  World, Tables, Result, ok, err, profile_not_found, Db, pure, attempt, first, ◌>>=◌,
}
use scouting_app.Db.Keeps.{Keeps, Keeps-bind, Keeps-pure, Keeps-query, Keeps-if}
use scouting_app.Db.Runs.{Found, first-Found}
use scouting_app.Db.Ensures.{
  Ensures, Ensures-bind, Ensures-pure, Ensures-if, Ensures-attempt_query, Ensures-query,
  Ensures-after, Ensures-both, Ensures-given, Keeps-bind_knowing,
}
use scouting_app.Db.Errors.{Keeps-Reads, Reads-Ensures}
use scouting_app.Storage.Profiles.{has_user, get_profile_by_id, get_profile_by_user_id}
use scouting_app.Storage.Links.{list_links_by_parent}
use scouting_app.Storage.Events.{get_event_by_id}
use scouting_app.Storage.Rbac.{get_user_permissions}
use scouting_app.Auth.{Session, get_authenticated_user}
use scouting_app.Api.{
  Handler, answer, permission_of, user_admin, is_admin, linked, manages, can_manage_profile,
}
use scouting_app.Api.Rules.{
  Keeps-on_error, Keeps-resolve_user, get_authenticated_user-Reads, is_admin-Reads,
  can_manage_profile-Reads, is_past-Reads,
}
use scouting_app.Api.SignUp.{sign_up, withdraw, may_withdraw, inactive_allowed}
use scouting_app.Api.Drivers.{toggle_responsibility, may_toggle}
use scouting_app.Api.Access.{
  user_of, allows, may, Known, user-Known, permitted-granted, any-where_and,
}

-- An approved link of the parent with the profile.
abbrev linking : String → String → List ParentYouthConnection → Bool
linking profile_id parent_id links =
    any
      (λ l.
        (l.youth_profile_id == profile_id && link_status_eq l.status approved)
        && l.parent_profile_id == parent_id)
      links

-- The profile itself, or one with an approved link.
abbrev pub guards : String → List ParentYouthConnection → Option Profile → Bool
guards profile_id links none = false
guards profile_id links (some q) = q.id == profile_id || linking profile_id q.id links

abbrev pub manages_profile : String → String → Tables → Bool
manages_profile user_id profile_id t =
    guards profile_id t.links (find (has_user user_id) t.profiles)

abbrev pub user_manages : String → Tables → Option User → Bool
user_manages profile_id t none = false
user_manages profile_id t (some u) = manages_profile u.id profile_id t

-- The user of the cookie manages the profile.
abbrev pub in_charge : Result Session → String → Tables → Bool
in_charge cookie profile_id t = user_manages profile_id t (user_of cookie t)

module _ (T : Tables) where
  abbrev pub Same : Tables → Type 0
  Same t = t ≡ T

  -- A yes is right of these tables.
  abbrev pub Right : Bool → Bool → Type 0
  Right truth b = b ≡ true → truth ≡ true

  manages-Right :
      (u p : String) (r : Result Profile)
      → Found (find (has_user u) T.profiles) r
      → Ensures Same (manages p r) (λ b t. Right (manages_profile u p T) b)
  unfolding manages list_links_by_parent linked
  manages-Right u p (err e) f = Ensures-pure false (λ t h k. absurd (ground arith))
  manages-Right u p (ok q) f =
      Ensures-if (q.id == p) _ _
        (λ e. Ensures-pure true (λ t h k. ap (guards p T.links) f ∙ ground arith))
        (λ e.
          Ensures-bind (λ r t. Right (linking p q.id T.links) (linked p r)) _ _
            (Ensures-attempt_query _
              (λ w h k.
                ap (λ t. linking p q.id t.links) (sym h)
                ∙ (sym (
                      any-where_and
                        (λ l. l.youth_profile_id == p && link_status_eq l.status approved)
                        (λ l. l.parent_profile_id == q.id) w.links)
                    ∙ k))
              (λ w h k. absurd (ground arith)))
            (λ r.
              Ensures-pure (linked p r) (λ t k h. ap (guards p T.links) f ∙ ground (arith, k h))))

  pub can_manage-Right :
      (u p : String)
      → Ensures Same (can_manage_profile u p) (λ b t. Right (manages_profile u p T) b)
  unfolding can_manage_profile get_profile_by_user_id
  can_manage-Right u p =
      Ensures-bind (λ r t. Same t × Found (find (has_user u) T.profiles) r) _ _
        (Ensures-attempt_query _
          (λ w h. (
            h,
            subst
                (λ t.
                  Found (find (has_user u) t.profiles)
                    (first (find (has_user u) w.profiles) profile_not_found))
                h (first-Found _ _),
          ))
          (λ w h. (h, tt)))
        (λ r. Ensures-given (λ f. manages-Right u p r f))

  user_admin-Right :
      (o : Option User) → Ensures Same (user_admin o) (λ b t. Right (allows "event:create" T o) b)
  unfolding user_admin permission_of get_user_permissions
  user_admin-Right none = Ensures-pure false (λ t h k. absurd (ground arith))
  user_admin-Right (some u) =
      Ensures-bind
        (λ r t. Right (allows "event:create" T (some u)) (permission_of "event:create" r)) _ _
        (Ensures-attempt_query _
          (λ w h k.
            ap (λ t. allows "event:create" t (some u)) (sym h)
            ∙ (sym (permitted-granted u.id "event:create" w) ∙ k))
          (λ w h k. absurd (ground arith)))
        (λ r. Ensures-pure _ (λ t k. k))

  pub admin-Right :
      (cookie : Result Session)
      → Ensures Same (is_admin cookie) (λ b t. Right (may cookie "event:create" T) b)
  unfolding is_admin
  admin-Right cookie =
      Ensures-bind (λ o t. Same t × Known cookie T o) _ _
        (Ensures-both _ (Reads-Ensures _ (get_authenticated_user-Reads cookie))
          (user-Known cookie T cookie))
        (λ o. Ensures-given (λ f. of_known o f))
    where
      of_known :
          (o : Option User)
          → Known cookie T o
          → Ensures Same (user_admin o) (λ b t. Right (may cookie "event:create" T) b)
      of_known none f =
          Ensures-after _ (user_admin-Right none) (λ b t k h. absurd (ground (arith, k h)))
      of_known (some u) f =
          Ensures-after _ (user_admin-Right (some u))
            (λ b t k h. ap (allows "event:create" T) f ∙ k h)
