-- ===== src/Api/Tents.antt =====
-- The handlers of the tenting tab of internal/api/events.go: tentPrereqs and TentCreate to
-- TentRemoveMember.
use scouting_app.Base.{String, not, ◌||◌, List, [], ◌∷◌, Option, ◌==◌, if◌then◌else◌}
use scouting_app.Text.{join}
use scouting_app.Event.{Event}
use scouting_app.Tenting.{Violation}
use scouting_app.Db.{Db, Error, Result, ok, err, adult_in_tent, pure, attempt, ◌>>=◌}
use scouting_app.Storage.Events.{get_event_by_id}
use scouting_app.Storage.Tents.{create_tent, delete_tent}
use scouting_app.TentService.{assign_member, remove_member}
use scouting_app.Auth.{Session, get_authenticated_user}
use scouting_app.Api.{
  Write, Handler, answer, internal_error, on_error, resolve_user, is_admin, is_past,
}
use scouting_app.Api.Sections.{tent_max_age_gap, render_tenting_section}

unfoldable pub messages : List Violation → List String
messages [] = []
messages (v ∷ violations) = v.message ∷ messages violations

unfoldable pub assign_refusal : Error → List Write
assign_refusal adult_in_tent = answer 400 "Adults cannot be placed into a tent"
assign_refusal e = internal_error

module _ (env : String → Option String) (cookie : Result Session) where
  unfoldable pub event_prereqs : String → (Event → Handler) → Handler
  unfolding on_error
  event_prereqs event_id next =
      if event_id == ""
      then pure (answer 400 "Bad request")
      else on_error (get_event_by_id event_id) (answer 404 "Event not found") (λ evt.
        if not evt.tenting_enabled then pure (answer 400 "Tenting not enabled") else (do
          past ← is_past evt
          if past then pure (answer 400 "Cannot modify tents for a past event") else next evt))

  unfoldable pub tent_prereqs : String → (Event → Handler) → Handler
  unfolding event_prereqs resolve_user
  tent_prereqs event_id next =
      get_authenticated_user cookie
      >>= resolve_user (answer 401 "Unauthorized") (λ user. do
        admin ← is_admin cookie
        if not admin then pure (answer 403 "Forbidden") else event_prereqs event_id next)

  unfoldable pub then_render : {A : Type 0} → Event → Db A → Handler
  unfolding on_error
  then_render evt change =
      on_error change internal_error (λ done. render_tenting_section env cookie evt)

  unfoldable pub tent_create : String → Handler
  unfolding tent_prereqs then_render
  tent_create event_id = tent_prereqs event_id (λ evt. then_render evt (create_tent evt.id))

  unfoldable pub tent_delete : String → String → Handler
  unfolding tent_prereqs then_render
  tent_delete event_id tent_id = tent_prereqs event_id (λ evt.
      if tent_id == ""
      then pure (answer 400 "Bad request")
      else then_render evt (delete_tent tent_id))

  unfoldable pub resolve_assign : Event → Result (List Violation) → Handler
  unfolding assign_refusal messages join
  resolve_assign evt (err e) = pure (assign_refusal e)
  resolve_assign evt (ok []) = render_tenting_section env cookie evt
  resolve_assign evt (ok (v ∷ violations)) =
      pure (answer 400 (join "; " (messages (v ∷ violations))))

  unfoldable pub tent_assign_member : String → String → String → Handler
  unfolding tent_prereqs resolve_assign tent_max_age_gap
  tent_assign_member event_id tent_id profile_id = tent_prereqs event_id (λ evt.
      if profile_id == "" || tent_id == "" then pure (answer 400 "Bad request") else (do
        gap ← tent_max_age_gap env
        r ← attempt (assign_member evt.id tent_id profile_id gap)
        resolve_assign evt r))

  unfoldable pub tent_remove_member : String → String → Handler
  unfolding tent_prereqs then_render
  tent_remove_member event_id profile_id = tent_prereqs event_id (λ evt.
      if profile_id == ""
      then pure (answer 400 "Bad request")
      else then_render evt (remove_member evt.id profile_id))
