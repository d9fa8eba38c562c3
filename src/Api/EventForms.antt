-- ===== src/Api/EventForms.antt =====
-- The handlers EventCreate, EventEdit and EventDelete of internal/api/events.go. What
-- strconv.ParseFloat and time.Parse make of a text are arguments, since there are no floats here: a
-- cost is invalid, negative, or the cents that int(costFloat * 100) is.
use scouting_app.Base.{
  ℕ, String, Bool, List, [], ◌∷◌, ◌++◌, Option, none, some, ◌==◌, ltb, if◌then◌else◌,
}
use scouting_app.Text.{concat}
use scouting_app.Base.Int.{ℤ, pos}
use scouting_app.Calendar.{Time}
use scouting_app.Event.{Event, coordinator}
use scouting_app.Db.{Db, Result, ok, err, pure, attempt, time_now, ◌>>=◌}
use scouting_app.Storage.Events.{create_event, get_event_by_id, delete_event}
use scouting_app.Storage.Attendance as Attendance
use scouting_app.Storage.Responsibilities.{assign_responsibility}
use scouting_app.Storage.Patrols.{update_with_cooking}
use scouting_app.CookingService.{after_sign_up}
use scouting_app.Auth.{Session}
use scouting_app.Api.{
  Write, Handler, status, view, header, redirect, page, event_form, answer, on_error, ignore,
  current_profile_id,
}

pub data Cost : Type 0 where
  invalid negative : Cost
  cents : ℤ → Cost

-- The form's values; a checkbox is a text that is not empty where it is checked.
pub record Form : Type 0 where
  pub title : String
  pub description : String
  pub location : String
  pub start_time : String
  pub end_time : String
  pub cost : String
  pub type : String
  pub cooking_enabled : Bool
  pub tenting_enabled : Bool
  pub drivers_enabled : Bool

abbrev pub Errors : Type 0
Errors = List (String × String)

abbrev pub required : String → String → String → Errors
required value field message = if value == "" then (field, message) ∷ [] else []

abbrev pub zero_time : Time
zero_time = record { instant = 0; year = 1; month = 1; day = 1 }

unfoldable pub time_or_zero : Option Time → Time
time_or_zero none = zero_time
time_or_zero (some t) = t

unfoldable pub cost_errors : String → Cost → Errors
cost_errors text c = if text == "" then ("cost", "Cost is required") ∷ [] else elim c [
  | invalid ↦ ("cost", "Invalid cost value") ∷ []
  | negative ↦ ("cost", "Cost must not be negative") ∷ []
  | cents n ↦ []
]

unfoldable pub cost_or_zero : String → Cost → ℤ
cost_or_zero text c =
    if text == "" then pos 0 else elim c [ cents n ↦ n | invalid ↦ pos 0 | negative ↦ pos 0 ]

unfoldable pub time_errors : String → Option Time → String → String → Errors
time_errors text parsed field message =
    if text == "" then [] else elim parsed [ none ↦ (field, message) ∷ [] | some t ↦ [] ]

module _ (parse_cost : String → Cost) (parse_time : String → Option Time) where
  unfoldable pub start_of : Form → Time
  unfolding time_or_zero
  start_of f = if f.start_time == "" then zero_time else time_or_zero (parse_time f.start_time)

  unfoldable pub end_of : Form → Time
  unfolding time_or_zero
  end_of f = if f.end_time == "" then zero_time else time_or_zero (parse_time f.end_time)

  unfoldable pub field_errors : Form → Errors
  unfolding cost_errors time_errors
  field_errors f =
      required f.title "title" "Title is required"
      ++ (required f.location "location" "Location is required"
          ++ (required f.start_time "start_time" "Start time is required"
              ++ (required f.end_time "end_time" "End time is required"
                  ++ (cost_errors f.cost (parse_cost f.cost)
                      ++ (time_errors f.start_time (parse_time f.start_time) "start_time"
                            "Invalid start time format"
                          ++ time_errors f.end_time (parse_time f.end_time) "end_time"
                              "Invalid end time format")))))

  unfoldable pub order_errors : Form → Errors → Errors
  unfolding start_of end_of
  order_errors f [] =
      if ltb (start_of f).instant (end_of f).instant
      then []
      else ("end_time", "End time must be after start time") ∷ []
  order_errors f (e ∷ errors) = e ∷ errors

  -- The map of the errors, as the list of its entries.
  unfoldable pub form_errors : Form → Errors
  unfolding field_errors order_errors
  form_errors f = order_errors f (field_errors f)

  unfoldable pub event_of_form : String → ℕ → Form → Event
  unfolding start_of end_of cost_or_zero
  event_of_form id created_at f = record {
    id = id;
    title = f.title;
    description = f.description;
    location = f.location;
    start_time = start_of f;
    end_time = end_of f;
    cost_cents = cost_or_zero f.cost (parse_cost f.cost);
    type = f.type;
    cooking_enabled = f.cooking_enabled;
    tenting_enabled = f.tenting_enabled;
    drivers_enabled = f.drivers_enabled;
    created_at = created_at;
    updated_at = 0;
  }

  unfoldable pub invalid_form : Errors → List Write
  invalid_form errors =
      status 422
      ∷ view (
          event_form (
            ("cooking", "Some fields were invalid. Please fix the indicated errors above.")
            ∷ errors))
      ∷ []

  unfoldable pub failed_form : String → List Write
  failed_form message = status 500 ∷ view (event_form (("cooking", message) ∷ [])) ∷ []

  -- `hx` is whether the request has the header HX-Request.
  unfoldable pub redirect_to_event : Bool → String → String → List Write
  redirect_to_event hx event_id query =
      let target = concat ("/events/" ∷ event_id ∷ query ∷ []) in
      if hx then header "HX-Redirect" target ∷ [] else redirect target ∷ []

  unfoldable pub coordinator_after : String → String → Result (Unit {0}) → Db (Unit {0})
  coordinator_after event_id profile_id (err e) = pure tt
  coordinator_after event_id profile_id (ok done) =
      assign_responsibility event_id profile_id coordinator

  -- The creator is signed up as the coordinator; errors are only logged.
  unfoldable pub join_creator : String → String → Handler → Handler
  unfolding coordinator_after ignore
  join_creator event_id profile_id next =
      if profile_id == ""
      then next
      else ignore
          (attempt (Attendance.sign_up event_id profile_id)
            >>= coordinator_after event_id profile_id)
          (ignore (after_sign_up event_id profile_id) next)

  unfoldable pub store_event : Result Session → Bool → Form → Handler
  unfolding event_of_form failed_form join_creator redirect_to_event on_error
  store_event cookie hx f = do
    now ← time_now
    on_error (create_event (event_of_form "" now f)) (failed_form "Failed to create event.") (λ evt.
        do
          creator ← current_profile_id cookie
          join_creator evt.id creator (pure (redirect_to_event hx evt.id "?created=1")))

  unfoldable pub check_form : Errors → Handler → Handler
  unfolding invalid_form
  check_form [] next = next
  check_form (e ∷ errors) next = pure (invalid_form (e ∷ errors))

  unfoldable pub event_create : Result Session → Bool → Form → Handler
  unfolding form_errors check_form store_event
  event_create cookie hx f = check_form (form_errors f) (store_event cookie hx f)

  -- created_at is the event's; UpdateWithCooking does not write it.
  unfoldable pub event_edit : Bool → String → Form → Handler
  unfolding form_errors check_form event_of_form failed_form redirect_to_event on_error
  event_edit hx event_id f =
      if event_id == ""
      then pure (answer 400 "Bad request")
      else on_error (get_event_by_id event_id) (answer 404 "Event not found") (λ existing.
        check_form (form_errors f) (
          on_error
            (update_with_cooking (event_of_form event_id existing.created_at f)
              existing.cooking_enabled)
            (failed_form "Failed to update event.")
            (λ done. pure (redirect_to_event hx event_id "?updated=1"))))

unfoldable pub event_delete : String → Handler
unfolding on_error
event_delete event_id =
    if event_id == ""
    then pure (answer 400 "Bad request")
    else on_error (delete_event event_id)
        (status 404 ∷ view (page "event_delete_confirm.html" "Failed to delete event") ∷ [])
        (λ done. pure (header "HX-Redirect" "/events?deleted=1" ∷ status 200 ∷ []))
