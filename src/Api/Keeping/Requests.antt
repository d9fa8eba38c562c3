-- ===== src/Api/Keeping/Requests.antt =====
-- What the writers keep, every request keeps: the handlers of the event form in
-- internal/api/events.go, the middleware, and the routes of main.go.
use scouting_app.Base.{String, Bool, [], ◌∷◌, Option, ◌==◌}
use scouting_app.Calendar.{Time}
use scouting_app.Event.{coordinator}
use scouting_app.Db.{Tables, Result, ok, err}
use scouting_app.Db.Keeps.{
  Keeps, Keeps-bind, Keeps-pure, Keeps-query, Keeps-if, Keeps-attempt, Keeps-time_now,
}
use scouting_app.Db.Errors.{Keeps-Reads}
use scouting_app.Storage.Events.{get_event_by_id}
use scouting_app.Storage.Rbac.{get_user_permissions}
use scouting_app.AppConfig.{get_config}
use scouting_app.Auth.{Session}
use scouting_app.Api.{Handler, require_permission, permitted}
use scouting_app.Api.Rules.{
  Keeps-on_error, Keeps-ignore, Keeps-resolve_user, get_authenticated_user-Reads,
  current_profile_id-Reads,
}
use scouting_app.Api.EventForms.{
  Cost, Form, Errors, coordinator_after, join_creator, store_event, check_form, event_create,
  event_edit, event_delete, form_errors,
}
use scouting_app.Api.Routes.{
  Route, post_create, post_edit, delete_event, post_signup, post_withdraw, post_drivers,
  patch_drivers, delete_drivers, post_responsibility, post_patrols, delete_patrol,
  post_patrol_member, delete_patrol_member, post_cook, delete_cook, post_tents, delete_tent,
  post_tent_member, delete_tent_member, permission, dispatch, resolve_onboarding,
  require_onboarding, serve,
}
use scouting_app.Api.Keeping.{WritersKeep}
use scouting_app.Api.Keeping.Services.{after_sign_up-Keeps}
use scouting_app.Api.Keeping.Attendance.{sign_up-Keeps, withdraw-Keeps}
use scouting_app.Api.Keeping.Drivers.{
  add_driver-Keeps, remove_driver-Keeps, update_driver_seatbelt-Keeps, toggle_responsibility-Keeps,
}
use scouting_app.Api.Keeping.Sections.{
  create_patrol-Keeps, delete_patrol-Keeps, assign_patrol_member-Keeps, remove_patrol_member-Keeps,
  set_cook-Keeps, clear_cook-Keeps, tent_create-Keeps, tent_delete-Keeps, tent_assign_member-Keeps,
  tent_remove_member-Keeps,
}

module _ {P : Tables → Type 0} where
  resolve_onboarding-Keeps :
      (next : Handler) (r : Result String) → Keeps P next → Keeps P (resolve_onboarding next r)
  unfolding resolve_onboarding
  resolve_onboarding-Keeps next (err x) h = Keeps-pure _
  resolve_onboarding-Keeps next (ok c) h = Keeps-if (c == "true") _ _ (λ q. h) (λ q. Keeps-pure _)

  require_onboarding-Keeps : (next : Handler) → Keeps P next → Keeps P (require_onboarding next)
  unfolding require_onboarding get_config
  require_onboarding-Keeps next h =
      Keeps-bind _ _ (Keeps-attempt _ (Keeps-query _)) (λ r. resolve_onboarding-Keeps next r h)

  require_permission-Keeps :
      (query_escape : String → String) (cookie : Result Session) (needed path : String)
      (next : Handler)
      → Keeps P next
      → Keeps P (require_permission query_escape cookie needed path next)
  unfolding require_permission get_user_permissions
  require_permission-Keeps query_escape cookie needed path next h =
      Keeps-bind _ _ (Keeps-Reads _ (get_authenticated_user-Reads cookie)) (λ o.
        Keeps-resolve_user _ _ o (λ u.
          Keeps-on_error _ _ _ (Keeps-query _)
            (λ perms. Keeps-if (permitted needed perms) _ _ (λ q. h) (λ q. Keeps-pure _))))

module _ (query_escape : String → String) (env : String → Option String)
    (parse_cost : String → Cost) (parse_time : String → Option Time) where
  module _ {P : Tables → Type 0} (k : WritersKeep P) where
    check_form-Keeps :
        (errors : Errors) (next : Handler)
        → Keeps P next
        → Keeps P (check_form parse_cost parse_time errors next)
    unfolding check_form
    check_form-Keeps [] next h = h
    check_form-Keeps (e ∷ errors) next h = Keeps-pure _

    coordinator_after-Keeps :
        (e p : String) (r : Result (Unit {0}))
        → Keeps P (coordinator_after parse_cost parse_time e p r)
    unfolding coordinator_after
    coordinator_after-Keeps e p (err x) = Keeps-pure tt
    coordinator_after-Keeps e p (ok done) = k.assign_responsibility e p coordinator

    join_creator-Keeps :
        (e p : String) (next : Handler)
        → Keeps P next
        → Keeps P (join_creator parse_cost parse_time e p next)
    unfolding join_creator
    join_creator-Keeps e p next h =
        Keeps-if (p == "") _ _ (λ q. h)
          (λ q.
            Keeps-ignore _ _
              (Keeps-bind _ _ (Keeps-attempt _ (k.sign_up e p))
                (λ r. coordinator_after-Keeps e p r))
              (Keeps-ignore _ _ (after_sign_up-Keeps k e p) h))

    event_create-Keeps :
        (cookie : Result Session) (hx : Bool) (f : Form)
        → Keeps P (event_create parse_cost parse_time cookie hx f)
    unfolding event_create store_event
    event_create-Keeps cookie hx f = check_form-Keeps (form_errors parse_cost parse_time f) _ (
        Keeps-bind _ _ Keeps-time_now (λ now. Keeps-on_error _ _ _ (k.create_event _) (λ evt.
          Keeps-bind _ _ (Keeps-Reads _ (current_profile_id-Reads cookie))
            (λ creator. join_creator-Keeps evt.id creator _ (Keeps-pure _)))))

    event_edit-Keeps :
        (hx : Bool) (e : String) (f : Form) → Keeps P (event_edit parse_cost parse_time hx e f)
    unfolding event_edit get_event_by_id
    event_edit-Keeps hx e f =
        Keeps-if (e == "") _ _ (λ q. Keeps-pure _)
          (λ q. Keeps-on_error _ _ _ (Keeps-query _) (λ existing.
            check_form-Keeps (form_errors parse_cost parse_time f) _
              (Keeps-on_error _ _ _ (k.update_with_cooking _ _) (λ done. Keeps-pure _))))

    event_delete-Keeps : (e : String) → Keeps P (event_delete e)
    unfolding event_delete
    event_delete-Keeps e =
        Keeps-if (e == "") _ _ (λ q. Keeps-pure _)
          (λ q. Keeps-on_error _ _ _ (k.delete_event e) (λ done. Keeps-pure _))

    dispatch-Keeps :
        (cookie : Result Session) (route : Route)
        → Keeps P (dispatch query_escape env parse_cost parse_time cookie route)
    unfolding dispatch
    dispatch-Keeps cookie (post_create hx f) = event_create-Keeps cookie hx f
    dispatch-Keeps cookie (post_edit hx e f) = event_edit-Keeps hx e f
    dispatch-Keeps cookie (delete_event e) = event_delete-Keeps e
    dispatch-Keeps cookie (post_signup e p) = sign_up-Keeps env cookie k e p
    dispatch-Keeps cookie (post_withdraw e p) = withdraw-Keeps env cookie k e p
    dispatch-Keeps cookie (post_drivers e n) = add_driver-Keeps cookie k e n
    dispatch-Keeps cookie (patch_drivers e n) = update_driver_seatbelt-Keeps cookie k e n
    dispatch-Keeps cookie (delete_drivers e) = remove_driver-Keeps cookie k e
    dispatch-Keeps cookie (post_responsibility e p r) = toggle_responsibility-Keeps cookie k e p r
    dispatch-Keeps cookie (post_patrols e) = create_patrol-Keeps cookie k e
    dispatch-Keeps cookie (delete_patrol e i) = delete_patrol-Keeps cookie k e i
    dispatch-Keeps cookie (post_patrol_member e i p) = assign_patrol_member-Keeps cookie k e i p
    dispatch-Keeps cookie (delete_patrol_member e i p) = remove_patrol_member-Keeps cookie k e i p
    dispatch-Keeps cookie (post_cook e i p) = set_cook-Keeps cookie k e i p
    dispatch-Keeps cookie (delete_cook e i) = clear_cook-Keeps cookie k e i
    dispatch-Keeps cookie (post_tents e) = tent_create-Keeps env cookie k e
    dispatch-Keeps cookie (delete_tent e i) = tent_delete-Keeps env cookie k e i
    dispatch-Keeps cookie (post_tent_member e i p) = tent_assign_member-Keeps env cookie k e i p
    dispatch-Keeps cookie (delete_tent_member e p) = tent_remove_member-Keeps env cookie k e p

    pub serve-Keeps :
        (cookie : Result Session) (path : String) (route : Route)
        → Keeps P (serve query_escape env parse_cost parse_time cookie path route)
    unfolding serve
    serve-Keeps cookie path route = require_onboarding-Keeps _ (
        require_permission-Keeps query_escape cookie (permission route) path _
          (dispatch-Keeps cookie route))
