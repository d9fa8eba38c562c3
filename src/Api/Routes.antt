-- ===== src/Api/Routes.antt =====
-- The routes of main.go whose handlers change the data of events, with the permission that each
-- asks for, behind RequireOnboarding and RequirePermission.
use scouting_app.Base.{String, Bool, Option, ◌==◌, if◌then◌else◌}
use scouting_app.Calendar.{Time}
use scouting_app.Event.{Responsibility}
use scouting_app.Db.{Result, ok, err, pure, attempt, ◌>>=◌}
use scouting_app.AppConfig.{get_config, onboarding_complete}
use scouting_app.Auth.{Session}
use scouting_app.Api.{Handler, redirect_to, require_permission}
use scouting_app.Api.SignUp.{sign_up, withdraw}
use scouting_app.Api.Drivers.{
  add_driver, remove_driver, update_driver_seatbelt, toggle_responsibility,
}
use scouting_app.Api.Cooking.{
  cooking_create_patrol, cooking_delete_patrol, cooking_assign_member, cooking_remove_member,
  cooking_set_cook, cooking_clear_cook,
}
use scouting_app.Api.Tents.{tent_create, tent_delete, tent_assign_member, tent_remove_member}
use scouting_app.Api.EventForms.{Cost, Form, event_create, event_edit, event_delete}

-- A route with the values that its handler reads from the path, the query and the form, in the
-- order: event, patrol or tent, profile.
pub data Route : Type 0 where
  post_create : Bool → Form → Route
  post_edit : Bool → String → Form → Route
  delete_event : String → Route
  post_signup post_withdraw : String → String → Route
  post_drivers patch_drivers : String → String → Route
  delete_drivers : String → Route
  post_responsibility : String → String → Responsibility → Route
  post_patrols : String → Route
  delete_patrol : String → String → Route
  post_patrol_member delete_patrol_member : String → String → String → Route
  post_cook : String → String → String → Route
  delete_cook : String → String → Route
  post_tents : String → Route
  delete_tent : String → String → Route
  post_tent_member : String → String → String → Route
  delete_tent_member : String → String → Route

unfoldable pub permission : Route → String
permission (post_signup e p) = "event:signup"
permission (post_withdraw e p) = "event:withdraw"
permission (post_drivers e n) = "event:signup"
permission (patch_drivers e n) = "event:signup"
permission (delete_drivers e) = "event:signup"
permission (post_responsibility e p r) = "event:signup"
permission route = "event:create"

unfoldable pub resolve_onboarding : Handler → Result String → Handler
resolve_onboarding next (err e) = pure (redirect_to "/onboard")
resolve_onboarding next (ok complete) =
    if complete == "true" then next else pure (redirect_to "/onboard")

unfoldable pub require_onboarding : Handler → Handler
unfolding resolve_onboarding
require_onboarding next = attempt (get_config onboarding_complete) >>= resolve_onboarding next

module _ (query_escape : String → String) (env : String → Option String)
    (parse_cost : String → Cost) (parse_time : String → Option Time) where
  unfoldable pub dispatch : Result Session → Route → Handler
  dispatch cookie (post_create hx f) = event_create parse_cost parse_time cookie hx f
  dispatch cookie (post_edit hx e f) = event_edit parse_cost parse_time hx e f
  dispatch cookie (delete_event e) = event_delete e
  dispatch cookie (post_signup e p) = sign_up env cookie e p
  dispatch cookie (post_withdraw e p) = withdraw env cookie e p
  dispatch cookie (post_drivers e n) = add_driver cookie e n
  dispatch cookie (patch_drivers e n) = update_driver_seatbelt cookie e n
  dispatch cookie (delete_drivers e) = remove_driver cookie e
  dispatch cookie (post_responsibility e p r) = toggle_responsibility cookie e p r
  dispatch cookie (post_patrols e) = cooking_create_patrol cookie e
  dispatch cookie (delete_patrol e i) = cooking_delete_patrol cookie e i
  dispatch cookie (post_patrol_member e i p) = cooking_assign_member cookie e i p
  dispatch cookie (delete_patrol_member e i p) = cooking_remove_member cookie e i p
  dispatch cookie (post_cook e i p) = cooking_set_cook cookie e i p
  dispatch cookie (delete_cook e i) = cooking_clear_cook cookie e i
  dispatch cookie (post_tents e) = tent_create env cookie e
  dispatch cookie (delete_tent e i) = tent_delete env cookie e i
  dispatch cookie (post_tent_member e i p) = tent_assign_member env cookie e i p
  dispatch cookie (delete_tent_member e p) = tent_remove_member env cookie e p

  unfoldable pub serve : Result Session → String → Route → Handler
  unfolding require_onboarding dispatch permission
  serve cookie path route =
      require_onboarding
        (require_permission query_escape cookie (permission route) path (dispatch cookie route))
