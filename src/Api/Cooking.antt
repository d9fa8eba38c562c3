-- ===== src/Api/Cooking.antt =====
-- The handlers of the cooking tab of internal/api/events.go: cookingPatrolPrereqs to
-- CookingClearCook.
use scouting_app.Base.{String, false, not, ◌||◌, List, ◌==◌, any, if◌then◌else◌}
use scouting_app.Db.{Db, Error, Result, ok, err, adult_in_youth_patrol, pure, attempt, ◌>>=◌}
use scouting_app.Storage.Events.{get_event_by_id}
use scouting_app.Storage.Patrols.{
  create_cooking_patrol, delete_cooking_patrol, list_cooking_patrols, set_cooking_patrol_cook,
  clear_cooking_patrol_cook,
}
use scouting_app.CookingService.{assign_member, remove_member}
use scouting_app.Auth.{Session, get_authenticated_user}
use scouting_app.Api.{
  Write, Handler, answer, internal_error, on_error, resolve_user, is_admin, is_past,
}
use scouting_app.Api.Sections.{render_cooking_section}

-- An adult in a youth patrol is the request's fault.
unfoldable pub assign_refusal : Error → List Write
assign_refusal adult_in_youth_patrol =
    answer 400 "Adults cannot be placed into a youth cooking patrol"
assign_refusal e = internal_error

module _ (cookie : Result Session) where
  -- The checks on the event that the request names.
  unfoldable pub event_prereqs : String → Handler → Handler
  unfolding on_error
  event_prereqs event_id next =
      if event_id == ""
      then pure (answer 400 "Bad request")
      else on_error (get_event_by_id event_id) (answer 404 "Event not found") (λ evt.
        if not evt.cooking_enabled then pure (answer 400 "Cooking not enabled") else (do
          past ← is_past evt
          if past
              then pure (answer 400 "Cannot modify cooking patrols for a past event")
              else next))

  unfoldable pub cooking_prereqs : String → Handler → Handler
  unfolding event_prereqs resolve_user
  cooking_prereqs event_id next =
      get_authenticated_user cookie
      >>= resolve_user (answer 401 "Unauthorized") (λ user. do
        admin ← is_admin cookie
        if not admin then pure (answer 403 "Forbidden") else event_prereqs event_id next)

  -- A change, and the tab after it.
  unfoldable pub then_render : {A : Type 0} → String → Db A → Handler
  unfolding on_error
  then_render event_id change =
      on_error change internal_error (λ done. render_cooking_section cookie event_id)

  unfoldable pub cooking_create_patrol : String → Handler
  unfolding cooking_prereqs then_render
  cooking_create_patrol event_id =
      cooking_prereqs event_id (then_render event_id (create_cooking_patrol event_id false))

  unfoldable pub cooking_delete_patrol : String → String → Handler
  unfolding cooking_prereqs then_render
  cooking_delete_patrol event_id patrol_id = cooking_prereqs event_id (
      if patrol_id == ""
      then pure (answer 400 "Bad request")
      else then_render event_id (delete_cooking_patrol patrol_id))

  unfoldable pub resolve_assign : String → Result (Unit {0}) → Handler
  unfolding assign_refusal
  resolve_assign event_id (ok done) = render_cooking_section cookie event_id
  resolve_assign event_id (err e) = pure (assign_refusal e)

  unfoldable pub cooking_assign_member : String → String → String → Handler
  unfolding cooking_prereqs resolve_assign
  cooking_assign_member event_id patrol_id profile_id = cooking_prereqs event_id (
      if profile_id == "" || patrol_id == ""
      then pure (answer 400 "Bad request")
      else (attempt (assign_member event_id patrol_id profile_id) >>= resolve_assign event_id))

  unfoldable pub cooking_remove_member : String → String → String → Handler
  unfolding cooking_prereqs then_render
  cooking_remove_member event_id patrol_id profile_id = cooking_prereqs event_id (
      if patrol_id == "" || profile_id == ""
      then pure (answer 400 "Bad request")
      else then_render event_id (remove_member event_id profile_id))

  unfoldable pub cooking_set_cook : String → String → String → Handler
  unfolding cooking_prereqs then_render on_error
  cooking_set_cook event_id patrol_id profile_id = cooking_prereqs event_id (
      if patrol_id == "" || profile_id == ""
      then pure (answer 400 "Bad request")
      else on_error (list_cooking_patrols event_id) internal_error (λ patrols.
        if not (any (λ p. p.id == patrol_id) patrols)
        then pure (answer 404 "Patrol not found")
        else then_render event_id (set_cooking_patrol_cook event_id patrol_id profile_id)))

  unfoldable pub cooking_clear_cook : String → String → Handler
  unfolding cooking_prereqs then_render
  cooking_clear_cook event_id patrol_id = cooking_prereqs event_id (
      if patrol_id == ""
      then pure (answer 400 "Bad request")
      else then_render event_id (clear_cooking_patrol_cook patrol_id))
