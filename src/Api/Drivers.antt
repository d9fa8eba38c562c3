-- ===== src/Api/Drivers.antt =====
-- The handlers AddDriver, RemoveDriver, UpdateDriverSeatbelt and ToggleResponsibility of
-- internal/api/events.go.
use scouting_app.Base.{
  String, Bool, true, not, ◌&&◌, ◌||◌, List, [], ◌∷◌, ◌++◌, Option, none, some, ◌==◌, any,
  if◌then◌else◌,
}
use scouting_app.Base.Int.{ℤ, pos, ltb_ℤ}
use scouting_app.Text.Decimal.{atoi}
use scouting_app.Profile.{Profile}
use scouting_app.Event.{Responsibility, driver, DriverResponsibility, ResponsibilityAssignment}
use scouting_app.Db.{Db, Error, Result, ok, err, singleton_conflict, pure, attempt, ◌>>=◌}
use scouting_app.Storage.Profiles.{get_profile_by_user_id}
use scouting_app.Storage.Events.{get_event_by_id}
use scouting_app.Storage.Attendance.{get_attendees}
use scouting_app.Storage.Responsibilities as Responsibilities
use scouting_app.Storage.Responsibilities.{
  assign_responsibility, remove_responsibility, get_drivers, get_seatbelt_summary,
  get_responsibilities,
}
use scouting_app.Auth.{Session, get_authenticated_user}
use scouting_app.Views.{is_attending}
use scouting_app.Api.{
  Write, Handler, view, drivers_section, modal_cleanup, answer, internal_error, on_error,
  resolve_user, is_admin, is_past, can_manage_profile,
}
use scouting_app.Api.SignUp.{attendee_list_write, drivers_data, or_none}

-- strconv.Atoi, and at least one.
unfoldable pub seatbelts_of : String → Option ℤ
unfolding atoi
seatbelts_of text = elim (atoi text) [
  | none ↦ none
  | some n ↦ if ltb_ℤ n (pos 1) then none else some n
]

unfoldable pub with_seatbelts : String → String → (ℤ → Handler) → Handler
unfolding seatbelts_of
with_seatbelts event_id text next =
    if event_id == ""
    then pure (answer 400 "Bad request")
    else if text == ""
    then pure (answer 400 "Missing seatbelt_count")
    else elim (seatbelts_of text) [
      | none ↦ pure (answer 400 "Invalid seatbelt_count")
      | some n ↦ next n
    ]

-- GetDrivers' error is only logged, and its result is nil then.
unfoldable pub drivers_or_none : Result (List DriverResponsibility) → List DriverResponsibility
drivers_or_none (err e) = []
drivers_or_none (ok drivers) = drivers

-- The loop over the responsibilities of the event.
unfoldable pub holds : String → Responsibility → List ResponsibilityAssignment → Bool
holds profile_id r rs = any (λ a. a.profile_id == profile_id && a.responsibility == r) rs

-- What follows a failed AssignResponsibility: on a conflict the holder gives way.
unfoldable pub replace_holder : String → String → Responsibility → Error → Handler → Handler
unfolding on_error
replace_holder event_id profile_id r (singleton_conflict kind holder name requester) next =
    on_error (remove_responsibility event_id holder r) internal_error
      (λ done. on_error (assign_responsibility event_id profile_id r) internal_error (λ done. next))
replace_holder event_id profile_id r e next = pure internal_error

unfoldable pub after_assign :
    String → String → Responsibility → Handler → Result (Unit {0}) → Handler
unfolding replace_holder
after_assign event_id profile_id r next (ok done) = next
after_assign event_id profile_id r next (err e) = replace_holder event_id profile_id r e next

unfoldable pub toggle_change :
    String → String → Responsibility → List ResponsibilityAssignment → Handler → Handler
unfolding holds after_assign on_error
toggle_change event_id profile_id r current next =
    if holds profile_id r current
    then on_error (remove_responsibility event_id profile_id r) internal_error (λ done. next)
    else (attempt (assign_responsibility event_id profile_id r)
        >>= after_assign event_id profile_id r next)

module _ (cookie : Result Session) where
  -- The list of the attendees is left out where they cannot be read.
  unfoldable pub attendees_part :
      String → List DriverResponsibility → Result (List Profile) → Handler
  unfolding or_none
  attendees_part event_id drivers (err e) = pure []
  attendees_part event_id drivers (ok attendees) = do
    rs ← attempt (get_responsibilities event_id)
    admin ← is_admin cookie
    pure (attendee_list_write event_id admin attendees drivers (or_none rs) ∷ [])

  -- From the reads after the change on.
  unfoldable pub drivers_response : String → String → List Write → Handler
  unfolding attendees_part on_error
  drivers_response event_id profile_id cleanup =
      on_error (get_drivers event_id) internal_error (λ drivers.
        on_error (get_seatbelt_summary event_id) internal_error (λ summary. do
          attendees ← attempt (get_attendees event_id)
          part ← attendees_part event_id drivers attendees
          admin ← is_admin cookie
          pure (
              part
              ++ (view
                    (drivers_section (drivers_data event_id profile_id admin true drivers summary))
                  ∷ cleanup))))

  -- What the three handlers do around their change, which is on the user's own profile.
  unfoldable pub change_drivers : String → (String → Db (Unit {0})) → List Write → Handler
  unfolding drivers_response on_error resolve_user
  change_drivers event_id change cleanup =
      get_authenticated_user cookie
      >>= resolve_user (answer 401 "Unauthorized") (λ user.
        on_error (get_event_by_id event_id) (answer 404 "Event not found") (λ evt.
          if not evt.drivers_enabled then pure (answer 400 "Drivers not enabled") else (do
            past ← is_past evt
            if past
                then pure (answer 400 "Cannot modify drivers for a past event")
                else on_error (get_profile_by_user_id user.id) internal_error (λ p.
                  on_error (change p.id) internal_error
                    (λ done. drivers_response event_id p.id cleanup)))))

  unfoldable pub add_driver : String → String → Handler
  unfolding change_drivers with_seatbelts
  add_driver event_id seatbelt_count = with_seatbelts event_id seatbelt_count (λ n.
      change_drivers event_id (λ id. Responsibilities.add_driver event_id id n)
        (view modal_cleanup ∷ []))

  unfoldable pub remove_driver : String → Handler
  unfolding change_drivers
  remove_driver event_id =
      if event_id == ""
      then pure (answer 400 "Bad request")
      else change_drivers event_id (λ id. Responsibilities.remove_driver event_id id) []

  unfoldable pub update_driver_seatbelt : String → String → Handler
  unfolding change_drivers with_seatbelts
  update_driver_seatbelt event_id seatbelt_count = with_seatbelts event_id seatbelt_count (λ n.
      change_drivers event_id (λ id. Responsibilities.update_driver_seatbelt_count event_id id n)
        [])

  unfoldable pub may_toggle : String → String → Db Bool
  may_toggle user_id profile_id = do
    manages ← can_manage_profile user_id profile_id
    if manages then pure true else is_admin cookie

  unfoldable pub toggle_response :
      String → List Profile → Result (List DriverResponsibility) → Handler
  unfolding or_none drivers_or_none
  toggle_response event_id attendees drivers = do
    rs ← attempt (get_responsibilities event_id)
    admin ← is_admin cookie
    pure (attendee_list_write event_id admin attendees (drivers_or_none drivers) (or_none rs) ∷ [])

  -- From the reads of the event's attendees on.
  unfoldable pub toggle_attendee : String → String → Responsibility → Handler
  unfolding toggle_change toggle_response is_attending on_error
  toggle_attendee event_id profile_id r =
      on_error (get_attendees event_id) internal_error (λ attendees.
        if not (is_attending profile_id attendees)
        then pure (answer 400 "Profile is not signed up")
        else (do
          drivers ← attempt (get_drivers event_id)
          on_error (get_responsibilities event_id) internal_error (λ current.
              toggle_change event_id profile_id r current
                (toggle_response event_id attendees drivers))))

  unfoldable pub toggle_responsibility : String → String → Responsibility → Handler
  unfolding may_toggle toggle_attendee on_error resolve_user
  toggle_responsibility event_id profile_id r =
      if event_id == "" || (profile_id == "" || r == "")
      then pure (answer 400 "Bad request")
      else if r == driver
      then pure (answer 400 "Driver responsibility is managed separately")
      else (get_authenticated_user cookie
          >>= resolve_user (answer 401 "Unauthorized") (λ user.
            on_error (get_event_by_id event_id) (answer 404 "Event not found") (λ evt. do
              past ← is_past evt
              if past
                  then pure (answer 400 "Cannot modify responsibilities for a past event")
                  else (do
                    allowed ← may_toggle user.id profile_id
                    if not allowed
                        then pure (answer 403 "Forbidden")
                        else toggle_attendee event_id profile_id r))))
