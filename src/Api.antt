-- ===== src/Api.antt =====
-- What the handlers of internal/api share: the response, the answer to a failed call, the middleware
-- of internal/api/middleware.go, and the helpers of events.go on the user who asks. A handler's
-- response is the sequence of its writes; a template's write is the data that it is given, so the
-- templates themselves (views/*.html) are outside. A handler answers in every case: no error of a
-- call is its result.
pub mod Sections
pub mod SignUp
pub mod Drivers
pub mod Cooking
pub mod Tents
pub mod EventForms
pub mod Routes
pub mod Rules
pub mod Reading
pub mod Registration
pub mod Family
pub mod Onboarding
pub mod Admin
pub mod Settings
pub mod Keeping
pub mod Access
pub mod SignedIn
pub mod Managing
pub mod Consistency
pub mod Tests
use scouting_app.Base.{
  ℕ, String, Bool, true, false, not, ◌&&◌, ◌||◌, List, [], ◌∷◌, Option, none, some, ◌==◌, any, ltb,
  if◌then◌else◌,
}
use Prim.Native.String.{◌++◌}
use scouting_app.Text.{has_prefix, contains}
use scouting_app.Profile.{
  Profile, User, Permission, ParentYouthConnection, approved, link_status_eq,
}
use scouting_app.Event.{Event}
use scouting_app.Db.{Result, ok, err, Db, pure, attempt, time_now, ◌>>=◌}
use scouting_app.Storage.Profiles.{get_profile_by_user_id}
use scouting_app.Storage.Links.{list_links_by_parent}
use scouting_app.Storage.Rbac.{get_user_permissions}
use scouting_app.Auth.{Session, get_authenticated_user}
use scouting_app.Pages.{ConnectionsPage, OnboardingForm, Answers, SettingsPage}
use scouting_app.Views.{SignupSection, AttendeeList, CookingSection, TentingSection, DriversSection}

-- The templates that the handlers execute, with their data; of the event form its errors, and of a
-- page of a code its id and the masked e-mail, of a page that shows texts only its name and the message on it.
pub data View : Type 0 where
  signup_button : SignupSection → View
  attendee_list : AttendeeList → View
  cooking_section : CookingSection → View
  tent_section : TentingSection → View
  drivers_section driver_modal : DriversSection → View
  modal_cleanup : View
  verify_page : String → String → String → View
  connections_page : ConnectionsPage → View
  onboarding_page : String → OnboardingForm → View
  settings_view : Bool → SettingsPage → View
  event_form : List (String × String) → View
  page : String → String → View

pub data Write : Type 0 where
  http_error : ℕ → String → Write
  redirect : String → Write
  header : String → String → Write
  status : ℕ → Write
  view : View → Write
  save_session : Session → Write
  send_otp : String → String → String → Write
  send_notification : List String → String → String → Write
  save_onboarding : Answers → Write
  clear_onboarding : Write

abbrev pub Handler : Type 0
Handler = Db (List Write)

-- http.Error(w, message, code); return
abbrev pub answer : ℕ → String → List Write
answer code message = http_error code message ∷ []

abbrev pub internal_error : List Write
internal_error = answer 500 "Internal server error"

abbrev pub redirect_to : String → List Write
redirect_to target = redirect target ∷ []

unfoldable pub resolve : {A : Type 0} → List Write → (A → Handler) → Result A → Handler
resolve refused next (ok a) = next a
resolve refused next (err e) = pure refused

-- a, err := m(); if err != nil { refused; return }
unfoldable pub on_error : {A : Type 0} → Db A → List Write → (A → Handler) → Handler
on_error m refused next = attempt m >>= resolve refused next

-- A call whose error is only logged, or not looked at.
unfoldable pub ignore : Db (Unit {0}) → Handler → Handler
ignore m next = attempt m >>= λ r. next

unfoldable pub resolve_user : List Write → (User → Handler) → Option User → Handler
resolve_user refused next none = pure refused
resolve_user refused next (some u) = next u

unfoldable pub permitted : String → List Permission → Bool
permitted permission perms = any (λ p. p.name == permission) perms

-- `query_escape` is url.QueryEscape.
module _ (query_escape : String → String) (cookie : Result Session) where
  abbrev pub login_redirect : String → List Write
  login_redirect path = redirect_to ("/login?redirect=" ++ query_escape path)

  unfoldable pub require_auth : String → Handler → Handler
  unfolding resolve_user
  require_auth path next =
      get_authenticated_user cookie >>= resolve_user (login_redirect path) (λ u. next)

  unfoldable pub require_permission : String → String → Handler → Handler
  unfolding resolve_user on_error resolve permitted
  require_permission permission path next =
      get_authenticated_user cookie
      >>= resolve_user (login_redirect path) (λ u.
        on_error (get_user_permissions u.id) internal_error
          (λ perms. if permitted permission perms then next else pure (answer 403 "Forbidden")))

unfoldable pub permission_of : String → Result (List Permission) → Bool
unfolding permitted
permission_of permission (err e) = false
permission_of permission (ok perms) = permitted permission perms

unfoldable pub user_admin : Option User → Db Bool
unfolding permission_of
user_admin none = pure false
user_admin (some u) =
    attempt (get_user_permissions u.id) >>= λ r. pure (permission_of "event:create" r)

unfoldable pub is_admin : Result Session → Db Bool
unfolding user_admin
is_admin cookie = get_authenticated_user cookie >>= user_admin

unfoldable pub profile_id_of : Result Profile → String
profile_id_of (err e) = ""
profile_id_of (ok p) = p.id

unfoldable pub user_profile_id : Option User → Db String
unfolding profile_id_of
user_profile_id none = pure ""
user_profile_id (some u) = attempt (get_profile_by_user_id u.id) >>= λ r. pure (profile_id_of r)

unfoldable pub current_profile_id : Result Session → Db String
unfolding user_profile_id
current_profile_id cookie = get_authenticated_user cookie >>= user_profile_id

unfoldable pub linked : String → Result (List ParentYouthConnection) → Bool
linked profile_id (err e) = false
linked profile_id (ok links) =
    any (λ l. l.youth_profile_id == profile_id && link_status_eq l.status approved) links

unfoldable pub manages : String → Result Profile → Db Bool
unfolding linked
manages profile_id (err e) = pure false
manages profile_id (ok p) =
    if p.id == profile_id
    then pure true
    else (attempt (list_links_by_parent p.id) >>= λ r. pure (linked profile_id r))

unfoldable pub can_manage_profile : String → String → Db Bool
unfolding manages
can_manage_profile user_id profile_id =
    attempt (get_profile_by_user_id user_id) >>= manages profile_id

-- evt.EndTime.Before(time.Now())
unfoldable pub is_past : Event → Db Bool
is_past evt = time_now >>= λ now. pure (ltb evt.end_time.instant now)

-- safeRedirectPath of internal/api/auth.go
unfoldable pub safe_redirect_path : String → String
unfolding has_prefix contains
safe_redirect_path target =
    if target == ""
      || (not (has_prefix target "/") || (has_prefix target "//" || contains target "\\"))
    then "/events"
    else target
