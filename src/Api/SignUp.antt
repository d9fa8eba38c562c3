-- ===== src/Api/SignUp.antt =====
-- The handlers SignUp and Withdraw of internal/api/events.go.
use scouting_app.Base.{
  String, Bool, true, false, not, ◌&&◌, List, [], ◌∷◌, ◌++◌, Option, ◌==◌, length, if◌then◌else◌,
}
use scouting_app.Text.{contains}
use scouting_app.Text.Casing.{to_lower}
use scouting_app.Profile.{Profile, adult, youth, inactive, member_type_eq, status_eq}
use scouting_app.Event.{
  Event, DriverResponsibility, ResponsibilityAssignment, SeatbeltSummary, spl, coordinator,
  medical_officer, driver,
}
use scouting_app.Db.{Db, Result, ok, err, pure, attempt, ◌>>=◌}
use scouting_app.Storage.Profiles.{get_profile_by_id, get_profile_by_user_id}
use scouting_app.Storage.Events.{get_event_by_id}
use scouting_app.Storage.Attendance as Attendance
use scouting_app.Storage.Attendance.{get_attendees}
use scouting_app.Storage.Responsibilities.{
  assign_responsibility, remove_responsibility, remove_driver, get_drivers, get_seatbelt_summary,
  get_responsibilities,
}
use scouting_app.CookingService
use scouting_app.TentService
use scouting_app.Auth.{Session, get_authenticated_user}
use scouting_app.Views.{DriversSection, split_attendees, compute_driver_info, is_attending}
use scouting_app.Api.{
  Write, Handler, view, signup_button, attendee_list, drivers_section, driver_modal, answer,
  internal_error, on_error, ignore, resolve_user, is_admin, is_past, can_manage_profile,
}
use scouting_app.Api.Sections.{
  build_profile_sign_ups, render_cooking_section, render_tenting_section,
}

-- The error of GetResponsibilities is dropped, and its result is nil then.
unfoldable pub or_none : Result (List ResponsibilityAssignment) → List ResponsibilityAssignment
or_none (err e) = []
or_none (ok rs) = rs

unfoldable pub attendee_list_write :
    String → Bool → List Profile → List DriverResponsibility → List ResponsibilityAssignment → Write
unfolding split_attendees
attendee_list_write event_id admin attendees drivers rs =
    let (youths, adults) = split_attendees attendees drivers rs in
    view (
      attendee_list (record {
        event_id = event_id;
        is_past = false;
        is_admin = admin;
        youth_attendees = youths;
        youth_count = length youths;
        adult_attendees = adults;
        adult_count = length adults;
        attendee_count = length attendees;
      }))

abbrev pub drivers_data :
    String → String → Bool → Bool → List DriverResponsibility → SeatbeltSummary → DriversSection
drivers_data event_id profile_id admin signed_up drivers summary =
    let (is_driver, count) = compute_driver_info profile_id drivers in
    record {
      event_id = event_id;
      is_past = false;
      profile_id = profile_id;
      is_admin = admin;
      is_signed_up = signed_up;
      is_driver = is_driver;
      seatbelt_count = count;
      drivers = drivers;
      summary = summary;
    }

module _ (env : String → Option String) (cookie : Result Session) where
  -- The sections for the sign-up buttons and the attendees, of both handlers.
  unfoldable pub shared_writes :
      String → String → List Profile → List DriverResponsibility → Handler
  unfolding attendee_list_write or_none build_profile_sign_ups
  shared_writes user_id event_id attendees drivers = do
    rs ← attempt (get_responsibilities event_id)
    profiles ← build_profile_sign_ups user_id attendees
    admin ← is_admin cookie
    pure (
        view (signup_button (record { event_id = event_id; is_past = false; profiles = profiles }))
        ∷ attendee_list_write event_id admin attendees drivers (or_none rs)
        ∷ [])

  unfoldable pub tab_writes : Event → Handler
  unfolding render_cooking_section render_tenting_section
  tab_writes evt = do
    cooking ← if evt.cooking_enabled then render_cooking_section cookie evt.id else pure []
    tenting ← if evt.tenting_enabled then render_tenting_section env cookie evt else pure []
    pure (cooking ++ tenting)

  -- The section and, for one who is no driver yet, the question. isAdmin is asked for each.
  unfoldable pub offer_writes :
      Event → Profile → List DriverResponsibility → SeatbeltSummary → Handler
  unfolding compute_driver_info
  offer_writes evt p drivers summary =
      if not (evt.drivers_enabled && member_type_eq p.member_type adult) then pure [] else (do
        admin ← is_admin cookie
        let section = view (drivers_section (drivers_data evt.id p.id admin true drivers summary))
        if (compute_driver_info p.id drivers).0 then pure (section ∷ []) else (do
          again ← is_admin cookie
          pure (
              section
              ∷ view (driver_modal (drivers_data evt.id p.id again true drivers summary))
              ∷ [])))

  -- From the reads after the changes on.
  unfoldable pub sign_up_response : String → Event → Profile → Handler
  unfolding shared_writes tab_writes offer_writes on_error
  sign_up_response user_id evt p = on_error (get_attendees evt.id) internal_error (λ attendees.
      on_error (get_drivers evt.id) internal_error (λ drivers.
        on_error (get_seatbelt_summary evt.id) internal_error (λ summary. do
          shared ← shared_writes user_id evt.id attendees drivers
          tabs ← tab_writes evt
          offer ← offer_writes evt p drivers summary
          pure (shared ++ (tabs ++ offer)))))

  unfoldable pub leads_patrols : Profile → Bool
  unfolding contains to_lower
  leads_patrols p =
      member_type_eq p.member_type youth
      && contains (to_lower p.positions) (to_lower "Senior Patrol Leader")

  -- The changes, and what follows them.
  unfoldable pub sign_up_changes : String → Event → Profile → Handler
  unfolding sign_up_response leads_patrols on_error ignore
  sign_up_changes user_id evt p = on_error (Attendance.sign_up evt.id p.id) internal_error (λ done.
      ignore (if leads_patrols p then assign_responsibility evt.id p.id spl else pure tt)
        (ignore (CookingService.after_sign_up evt.id p.id) (sign_up_response user_id evt p)))

  unfoldable pub sign_up : String → String → Handler
  unfolding sign_up_changes on_error resolve_user
  sign_up event_id profile_id =
      if event_id == ""
      then pure (answer 400 "Bad request")
      else if profile_id == ""
      then pure (answer 400 "Missing profile_id")
      else (get_authenticated_user cookie
          >>= resolve_user (answer 401 "Unauthorized") (λ user.
            on_error (get_event_by_id event_id) (answer 404 "Event not found") (λ evt. do
              past ← is_past evt
              if past then pure (answer 400 "Cannot sign up for a past event") else (do
                allowed ← can_manage_profile user.id profile_id
                if not allowed
                    then pure (answer 403 "Forbidden")
                    else on_error (get_profile_by_id profile_id) internal_error (λ p.
                      if status_eq p.status inactive
                      then pure (answer 400 "Cannot sign up an inactive profile")
                      else sign_up_changes user.id evt p)))))

  -- An error here ends the response after what was written before.
  unfoldable pub withdrawn_drivers :
      String → Event → List Profile → List DriverResponsibility → Handler
  unfolding on_error compute_driver_info is_attending
  withdrawn_drivers user_id evt attendees drivers =
      if not evt.drivers_enabled
      then pure []
      else on_error (get_seatbelt_summary evt.id) [] (λ summary.
        on_error (get_profile_by_user_id user_id) [] (λ p. do
          admin ← is_admin cookie
          pure (
              view (
                drivers_section
                  (drivers_data evt.id p.id admin (is_attending p.id attendees) drivers summary))
              ∷ [])))

  unfoldable pub withdraw_response : String → Event → Handler
  unfolding shared_writes tab_writes withdrawn_drivers on_error
  withdraw_response user_id evt = on_error (get_attendees evt.id) internal_error (λ attendees.
      on_error (get_drivers evt.id) internal_error (λ drivers. do
        shared ← shared_writes user_id evt.id attendees drivers
        tabs ← tab_writes evt
        rest ← withdrawn_drivers user_id evt attendees drivers
        pure (shared ++ (tabs ++ rest))))

  -- The cascade; each error is dropped.
  unfoldable pub cascade : Event → String → Handler → Handler
  unfolding ignore
  cascade evt profile_id next = ignore (remove_driver evt.id profile_id) (
      ignore (remove_responsibility evt.id profile_id spl) (
        ignore (remove_responsibility evt.id profile_id coordinator) (
          ignore (remove_responsibility evt.id profile_id medical_officer) (
            ignore (remove_responsibility evt.id profile_id driver) (
              ignore (CookingService.after_withdraw evt.id profile_id)
                (ignore (TentService.after_withdraw evt.id profile_id) next))))))

  unfoldable pub withdraw_changes : String → Event → String → Handler
  unfolding cascade withdraw_response on_error
  withdraw_changes user_id evt profile_id =
      on_error (Attendance.withdraw evt.id profile_id) internal_error
        (λ done. cascade evt profile_id (withdraw_response user_id evt))

  -- canManageProfile || isAdmin: the second is asked only where the first fails.
  unfoldable pub may_withdraw : String → String → Db Bool
  may_withdraw user_id profile_id = do
    manages ← can_manage_profile user_id profile_id
    if manages then pure true else is_admin cookie

  -- An inactive profile is withdrawn by an admin only.
  unfoldable pub inactive_allowed : Profile → Db Bool
  inactive_allowed p = if not (status_eq p.status inactive) then pure true else is_admin cookie

  unfoldable pub withdraw : String → String → Handler
  unfolding withdraw_changes may_withdraw inactive_allowed on_error resolve_user
  withdraw event_id profile_id =
      if event_id == ""
      then pure (answer 400 "Bad request")
      else if profile_id == ""
      then pure (answer 400 "Missing profile_id")
      else (get_authenticated_user cookie
          >>= resolve_user (answer 401 "Unauthorized") (λ user.
            on_error (get_event_by_id event_id) (answer 404 "Event not found") (λ evt. do
              past ← is_past evt
              if past
                  then pure (answer 400 "Cannot withdraw from a past event")
                  else on_error (get_profile_by_id profile_id) internal_error (λ p. do
                    open_to ← inactive_allowed p
                    if not open_to then pure (answer 403 "Forbidden") else (do
                      allowed ← may_withdraw user.id profile_id
                      if not allowed
                          then pure (answer 403 "Forbidden")
                          else withdraw_changes user.id evt profile_id)))))
