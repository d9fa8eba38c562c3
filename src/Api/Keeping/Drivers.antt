-- ===== src/Api/Keeping/Drivers.antt =====
-- What the writers keep, the handlers of drivers and responsibilities of internal/api/events.go
-- keep.
use scouting_app.Base.{String, not, List, [], Option, some, none, ◌==◌, ◌||◌}
use scouting_app.Base.Int.{ℤ}
use scouting_app.Profile.{Profile}
use scouting_app.Event.{Responsibility, DriverResponsibility, ResponsibilityAssignment, driver}
use scouting_app.Db.{Tables, Error, Result, ok, err, singleton_conflict, Db, pure}
use scouting_app.Db.Keeps.{Keeps, Keeps-bind, Keeps-pure, Keeps-query, Keeps-if, Keeps-attempt}
use scouting_app.Db.Errors.{
  Reads, Reads-bind, Reads-pure, Reads-attempt, Reads-query, Reads-if, Keeps-Reads,
}
use scouting_app.Storage.Profiles.{get_profile_by_user_id}
use scouting_app.Storage.Events.{get_event_by_id}
use scouting_app.Storage.Attendance.{get_attendees}
use scouting_app.Storage.Responsibilities.{get_drivers, get_seatbelt_summary, get_responsibilities}
use scouting_app.Auth.{Session}
use scouting_app.Views.{is_attending}
use scouting_app.Api.{Write, Handler}
use scouting_app.Api.Rules.{
  Reads-on_error, Keeps-on_error, Keeps-resolve_user, get_authenticated_user-Reads, is_admin-Reads,
  can_manage_profile-Reads, is_past-Reads,
}
use scouting_app.Api.Drivers.{
  attendees_part, drivers_response, change_drivers, with_seatbelts, add_driver, remove_driver,
  update_driver_seatbelt, holds, replace_holder, after_assign, toggle_change, may_toggle,
  toggle_response, toggle_attendee, toggle_responsibility,
}
use scouting_app.Api.Keeping.{WritersKeep}

module _ (cookie : Result Session) where
  attendees_part-Reads :
      (e : String) (drivers : List DriverResponsibility) (r : Result (List Profile))
      → Reads (attendees_part cookie e drivers r)
  unfolding attendees_part get_responsibilities
  attendees_part-Reads e drivers (err x) = Reads-pure _
  attendees_part-Reads e drivers (ok attendees) =
      Reads-bind _ _ (Reads-attempt _ (Reads-query _))
        (λ rs. Reads-bind _ _ (is_admin-Reads cookie) (λ admin. Reads-pure _))

  drivers_response-Reads :
      (e p : String) (cleanup : List Write) → Reads (drivers_response cookie e p cleanup)
  unfolding drivers_response get_drivers get_seatbelt_summary get_attendees
  drivers_response-Reads e p cleanup = Reads-on_error _ _ _ (Reads-query _) (λ drivers.
      Reads-on_error _ _ _ (Reads-query _) (λ summary.
        Reads-bind _ _ (Reads-attempt _ (Reads-query _)) (λ attendees.
          Reads-bind _ _ (attendees_part-Reads e drivers attendees)
            (λ part. Reads-bind _ _ (is_admin-Reads cookie) (λ admin. Reads-pure _)))))

  may_toggle-Reads : (u p : String) → Reads (may_toggle cookie u p)
  unfolding may_toggle
  may_toggle-Reads u p =
      Reads-bind _ _ (can_manage_profile-Reads u p)
        (λ manages. Reads-if manages _ _ (λ q. Reads-pure _) (λ q. is_admin-Reads cookie))

  toggle_response-Reads :
      (e : String) (attendees : List Profile) (drivers : Result (List DriverResponsibility))
      → Reads (toggle_response cookie e attendees drivers)
  unfolding toggle_response get_responsibilities
  toggle_response-Reads e attendees drivers =
      Reads-bind _ _ (Reads-attempt _ (Reads-query _))
        (λ rs. Reads-bind _ _ (is_admin-Reads cookie) (λ admin. Reads-pure _))

  module _ {P : Tables → Type 0} (k : WritersKeep P) where
    change_drivers-Keeps :
        (e : String) (change : String → Db (Unit {0})) (cleanup : List Write)
        → ((p : String) → Keeps P (change p))
        → Keeps P (change_drivers cookie e change cleanup)
    unfolding change_drivers get_event_by_id get_profile_by_user_id
    change_drivers-Keeps e change cleanup h =
        Keeps-bind _ _ (Keeps-Reads _ (get_authenticated_user-Reads cookie)) (λ o.
          Keeps-resolve_user _ _ o (λ u. Keeps-on_error _ _ _ (Keeps-query _) (λ evt.
            Keeps-if (not evt.drivers_enabled) _ _ (λ a. Keeps-pure _)
              (λ a. Keeps-bind _ _ (Keeps-Reads _ (is_past-Reads evt)) (λ past.
                Keeps-if past _ _ (λ b. Keeps-pure _)
                  (λ b. Keeps-on_error _ _ _ (Keeps-query _) (λ p.
                    Keeps-on_error _ _ _ (h p.id)
                      (λ done. Keeps-Reads _ (drivers_response-Reads e p.id cleanup)))))))))

    pub remove_driver-Keeps : (e : String) → Keeps P (remove_driver cookie e)
    unfolding remove_driver
    remove_driver-Keeps e =
        Keeps-if (e == "") _ _ (λ q. Keeps-pure _)
          (λ q. change_drivers-Keeps e _ [] (λ p. k.remove_driver e p))

module _ {P : Tables → Type 0} where
  counted-Keeps :
      (o : Option ℤ) (refused : List Write) (next : ℤ → Handler)
      → ((n : ℤ) → Keeps P (next n))
      → Keeps P (elim o [ none ↦ pure refused | some n ↦ next n ])
  counted-Keeps none refused next h = Keeps-pure _
  counted-Keeps (some n) refused next h = h n

  with_seatbelts-Keeps :
      (e text : String) (next : ℤ → Handler)
      → ((n : ℤ) → Keeps P (next n))
      → Keeps P (with_seatbelts e text next)
  unfolding with_seatbelts
  with_seatbelts-Keeps e text next h =
      Keeps-if (e == "") _ _ (λ q. Keeps-pure _)
        (λ q. Keeps-if (text == "") _ _ (λ r. Keeps-pure _) (λ r. counted-Keeps _ _ next h))

module _ (cookie : Result Session) {P : Tables → Type 0} (k : WritersKeep P) where
  pub add_driver-Keeps : (e text : String) → Keeps P (add_driver cookie e text)
  unfolding add_driver
  add_driver-Keeps e text =
      with_seatbelts-Keeps e text _
        (λ n. change_drivers-Keeps cookie k e _ _ (λ p. k.add_driver e p n))

  pub update_driver_seatbelt-Keeps :
      (e text : String) → Keeps P (update_driver_seatbelt cookie e text)
  unfolding update_driver_seatbelt
  update_driver_seatbelt-Keeps e text =
      with_seatbelts-Keeps e text _
        (λ n. change_drivers-Keeps cookie k e _ _ (λ p. k.update_seatbelts e p n))

  replace_holder-Keeps :
      (e p : String) (r : Responsibility) (x : Error) (next : Handler)
      → Keeps P next
      → Keeps P (replace_holder e p r x next)
  unfolding replace_holder
  replace_holder-Keeps e p r (singleton_conflict kind holder name requester) next h =
      Keeps-on_error _ _ _ (k.remove_responsibility e holder r)
        (λ done. Keeps-on_error _ _ _ (k.assign_responsibility e p r) (λ done. h))
  replace_holder-Keeps e p r x next h = Keeps-pure _

  after_assign-Keeps :
      (e p : String) (r : Responsibility) (next : Handler) (x : Result (Unit {0}))
      → Keeps P next
      → Keeps P (after_assign e p r next x)
  unfolding after_assign
  after_assign-Keeps e p r next (ok done) h = h
  after_assign-Keeps e p r next (err x) h = replace_holder-Keeps e p r x next h

  toggle_change-Keeps :
      (e p : String) (r : Responsibility) (current : List ResponsibilityAssignment) (next : Handler)
      → Keeps P next
      → Keeps P (toggle_change e p r current next)
  unfolding toggle_change
  toggle_change-Keeps e p r current next h =
      Keeps-if (holds p r current) _ _
        (λ q. Keeps-on_error _ _ _ (k.remove_responsibility e p r) (λ done. h))
        (λ q.
          Keeps-bind _ _ (Keeps-attempt _ (k.assign_responsibility e p r))
            (λ x. after_assign-Keeps e p r next x h))

  toggle_attendee-Keeps :
      (e p : String) (r : Responsibility) → Keeps P (toggle_attendee cookie e p r)
  unfolding toggle_attendee get_attendees get_drivers get_responsibilities
  toggle_attendee-Keeps e p r = Keeps-on_error _ _ _ (Keeps-query _) (λ attendees.
      Keeps-if (not (is_attending p attendees)) _ _ (λ q. Keeps-pure _)
        (λ q. Keeps-bind _ _ (Keeps-attempt _ (Keeps-query _)) (λ drivers.
          Keeps-on_error _ _ _ (Keeps-query _) (λ current.
            toggle_change-Keeps e p r current _
              (Keeps-Reads _ (toggle_response-Reads cookie e attendees drivers))))))

  pub toggle_responsibility-Keeps :
      (e p : String) (r : Responsibility) → Keeps P (toggle_responsibility cookie e p r)
  unfolding toggle_responsibility get_event_by_id
  toggle_responsibility-Keeps e p r =
      Keeps-if (e == "" || (p == "" || r == "")) _ _ (λ q. Keeps-pure _)
        (λ q.
          Keeps-if (r == driver) _ _ (λ a. Keeps-pure _)
            (λ a. Keeps-bind _ _ (Keeps-Reads _ (get_authenticated_user-Reads cookie)) (λ o.
              Keeps-resolve_user _ _ o (λ u. Keeps-on_error _ _ _ (Keeps-query _) (λ evt.
                Keeps-bind _ _ (Keeps-Reads _ (is_past-Reads evt)) (λ past.
                  Keeps-if past _ _ (λ b. Keeps-pure _)
                    (λ b.
                      Keeps-bind _ _ (Keeps-Reads _ (may_toggle-Reads cookie u.id p)) (λ allowed.
                        Keeps-if (not allowed) _ _ (λ c. Keeps-pure _)
                          (λ c. toggle_attendee-Keeps e p r)))))))))
