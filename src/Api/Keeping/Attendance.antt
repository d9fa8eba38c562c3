-- ===== src/Api/Keeping/Attendance.antt =====
-- What the writers keep, SignUp and Withdraw of internal/api/events.go keep.
use scouting_app.Base.{String, not, ◌&&◌, List, Option, ◌==◌}
use scouting_app.Profile.{Profile, adult, inactive, member_type_eq, status_eq}
use scouting_app.Event.{
  Event, DriverResponsibility, SeatbeltSummary, spl, coordinator, medical_officer, driver,
}
use scouting_app.Db.{Tables, Result}
use scouting_app.Db.Keeps.{Keeps, Keeps-bind, Keeps-pure, Keeps-query, Keeps-if}
use scouting_app.Db.Errors.{
  Reads, Reads-bind, Reads-pure, Reads-attempt, Reads-query, Reads-if, Keeps-Reads,
}
use scouting_app.Storage.Profiles.{get_profile_by_id, get_profile_by_user_id}
use scouting_app.Storage.Events.{get_event_by_id}
use scouting_app.Storage.Attendance.{get_attendees}
use scouting_app.Storage.Responsibilities.{get_drivers, get_seatbelt_summary, get_responsibilities}
use scouting_app.TentService
use scouting_app.CookingService
use scouting_app.Auth.{Session}
use scouting_app.Views.{compute_driver_info}
use scouting_app.Api.{Handler}
use scouting_app.Api.Rules.{
  Reads-on_error, Keeps-on_error, Keeps-ignore, Keeps-resolve_user, get_authenticated_user-Reads,
  is_admin-Reads, can_manage_profile-Reads, is_past-Reads,
}
use scouting_app.Api.Reading.{
  build_profile_sign_ups-Reads, render_cooking_section-Reads, render_tenting_section-Reads,
}
use scouting_app.Api.SignUp.{
  shared_writes, tab_writes, offer_writes, sign_up_response, leads_patrols, sign_up_changes,
  sign_up, withdrawn_drivers, withdraw_response, cascade, withdraw_changes, may_withdraw,
  inactive_allowed, withdraw,
}
use scouting_app.Api.Keeping.{WritersKeep}
use scouting_app.Api.Keeping.Services.{after_sign_up-Keeps, leave_patrol-Keeps}

module _ (env : String → Option String) (cookie : Result Session) where
  shared_writes-Reads :
      (u e : String) (attendees : List Profile) (drivers : List DriverResponsibility)
      → Reads (shared_writes env cookie u e attendees drivers)
  unfolding shared_writes get_responsibilities
  shared_writes-Reads u e attendees drivers =
      Reads-bind _ _ (Reads-attempt _ (Reads-query _)) (λ rs.
        Reads-bind _ _ (build_profile_sign_ups-Reads u attendees)
          (λ profiles. Reads-bind _ _ (is_admin-Reads cookie) (λ admin. Reads-pure _)))

  tab_writes-Reads : (evt : Event) → Reads (tab_writes env cookie evt)
  unfolding tab_writes
  tab_writes-Reads evt =
      Reads-bind _ _
        (Reads-if evt.cooking_enabled _ _ (λ q. render_cooking_section-Reads cookie evt.id)
          (λ q. Reads-pure _))
        (λ cooking.
          Reads-bind _ _
            (Reads-if evt.tenting_enabled _ _ (λ q. render_tenting_section-Reads env cookie evt)
              (λ q. Reads-pure _))
            (λ tenting. Reads-pure _))

  offer_writes-Reads :
      (evt : Event) (p : Profile) (drivers : List DriverResponsibility) (summary : SeatbeltSummary)
      → Reads (offer_writes env cookie evt p drivers summary)
  unfolding offer_writes
  offer_writes-Reads evt p drivers summary =
      Reads-if (not (evt.drivers_enabled && member_type_eq p.member_type adult)) _ _
        (λ q. Reads-pure _)
        (λ q. Reads-bind _ _ (is_admin-Reads cookie) (λ admin.
          Reads-if (compute_driver_info p.id drivers).0 _ _ (λ u. Reads-pure _)
            (λ u. Reads-bind _ _ (is_admin-Reads cookie) (λ again. Reads-pure _))))

  sign_up_response-Reads :
      (u : String) (evt : Event) (p : Profile) → Reads (sign_up_response env cookie u evt p)
  unfolding sign_up_response get_attendees get_drivers get_seatbelt_summary
  sign_up_response-Reads u evt p = Reads-on_error _ _ _ (Reads-query _) (λ attendees.
      Reads-on_error _ _ _ (Reads-query _) (λ drivers.
        Reads-on_error _ _ _ (Reads-query _) (λ summary.
          Reads-bind _ _ (shared_writes-Reads u evt.id attendees drivers) (λ shared.
            Reads-bind _ _ (tab_writes-Reads evt) (λ tabs.
              Reads-bind _ _ (offer_writes-Reads evt p drivers summary) (λ offer. Reads-pure _))))))

  withdrawn_drivers-Reads :
      (u : String) (evt : Event) (attendees : List Profile) (drivers : List DriverResponsibility)
      → Reads (withdrawn_drivers env cookie u evt attendees drivers)
  unfolding withdrawn_drivers get_seatbelt_summary get_profile_by_user_id
  withdrawn_drivers-Reads u evt attendees drivers =
      Reads-if (not evt.drivers_enabled) _ _ (λ q. Reads-pure _)
        (λ q. Reads-on_error _ _ _ (Reads-query _) (λ summary.
          Reads-on_error _ _ _ (Reads-query _)
            (λ p. Reads-bind _ _ (is_admin-Reads cookie) (λ admin. Reads-pure _))))

  pub withdraw_response-Reads :
      (u : String) (evt : Event) → Reads (withdraw_response env cookie u evt)
  unfolding withdraw_response get_attendees get_drivers
  withdraw_response-Reads u evt = Reads-on_error _ _ _ (Reads-query _) (λ attendees.
      Reads-on_error _ _ _ (Reads-query _) (λ drivers.
        Reads-bind _ _ (shared_writes-Reads u evt.id attendees drivers) (λ shared.
          Reads-bind _ _ (tab_writes-Reads evt) (λ tabs.
            Reads-bind _ _ (withdrawn_drivers-Reads u evt attendees drivers)
              (λ rest. Reads-pure _)))))

  may_withdraw-Reads : (u p : String) → Reads (may_withdraw env cookie u p)
  unfolding may_withdraw
  may_withdraw-Reads u p =
      Reads-bind _ _ (can_manage_profile-Reads u p)
        (λ manages. Reads-if manages _ _ (λ q. Reads-pure _) (λ q. is_admin-Reads cookie))

  inactive_allowed-Reads : (p : Profile) → Reads (inactive_allowed env cookie p)
  unfolding inactive_allowed
  inactive_allowed-Reads p =
      Reads-if (not (status_eq p.status inactive)) _ _ (λ q. Reads-pure _)
        (λ q. is_admin-Reads cookie)

  module _ {P : Tables → Type 0} (k : WritersKeep P) where
    sign_up_changes-Keeps :
        (u : String) (evt : Event) (p : Profile) → Keeps P (sign_up_changes env cookie u evt p)
    unfolding sign_up_changes
    sign_up_changes-Keeps u evt p = Keeps-on_error _ _ _ (k.sign_up evt.id p.id) (λ done.
        Keeps-ignore _ _
          (Keeps-if (leads_patrols env cookie p) _ _ (λ q. k.assign_responsibility evt.id p.id spl)
            (λ q. Keeps-pure tt))
          (Keeps-ignore _ _ (after_sign_up-Keeps k evt.id p.id)
            (Keeps-Reads _ (sign_up_response-Reads u evt p))))

    pub sign_up-Keeps : (e p : String) → Keeps P (sign_up env cookie e p)
    unfolding sign_up get_event_by_id get_profile_by_id
    sign_up-Keeps e p =
        Keeps-if (e == "") _ _ (λ q. Keeps-pure _)
          (λ q.
            Keeps-if (p == "") _ _ (λ r. Keeps-pure _)
              (λ r. Keeps-bind _ _ (Keeps-Reads _ (get_authenticated_user-Reads cookie)) (λ o.
                Keeps-resolve_user _ _ o (λ u. Keeps-on_error _ _ _ (Keeps-query _) (λ evt.
                  Keeps-bind _ _ (Keeps-Reads _ (is_past-Reads evt)) (λ past.
                    Keeps-if past _ _ (λ a. Keeps-pure _)
                      (λ a.
                        Keeps-bind _ _ (Keeps-Reads _ (can_manage_profile-Reads u.id p)) (λ allowed.
                          Keeps-if (not allowed) _ _ (λ b. Keeps-pure _)
                            (λ b. Keeps-on_error _ _ _ (Keeps-query _) (λ prof.
                              Keeps-if (status_eq prof.status inactive) _ _ (λ c. Keeps-pure _)
                                (λ c. sign_up_changes-Keeps u.id evt prof)))))))))))

    cascade-Keeps :
        (evt : Event) (p : String) (next : Handler)
        → Keeps P next
        → Keeps P (cascade env cookie evt p next)
    unfolding cascade TentService.after_withdraw CookingService.after_withdraw
    cascade-Keeps evt p next h = Keeps-ignore _ _ (k.remove_driver evt.id p) (
        Keeps-ignore _ _ (k.remove_responsibility evt.id p spl) (
          Keeps-ignore _ _ (k.remove_responsibility evt.id p coordinator) (
            Keeps-ignore _ _ (k.remove_responsibility evt.id p medical_officer) (
              Keeps-ignore _ _ (k.remove_responsibility evt.id p driver) (
                Keeps-ignore _ _ (leave_patrol-Keeps k evt.id p)
                  (Keeps-ignore _ _ (k.remove_tent_member evt.id p) h))))))

    withdraw_changes-Keeps :
        (u : String) (evt : Event) (p : String) → Keeps P (withdraw_changes env cookie u evt p)
    unfolding withdraw_changes
    withdraw_changes-Keeps u evt p =
        Keeps-on_error _ _ _ (k.withdraw evt.id p)
          (λ done. cascade-Keeps evt p _ (Keeps-Reads _ (withdraw_response-Reads u evt)))

    pub withdraw-Keeps : (e p : String) → Keeps P (withdraw env cookie e p)
    unfolding withdraw get_event_by_id get_profile_by_id
    withdraw-Keeps e p =
        Keeps-if (e == "") _ _ (λ q. Keeps-pure _)
          (λ q.
            Keeps-if (p == "") _ _ (λ r. Keeps-pure _)
              (λ r. Keeps-bind _ _ (Keeps-Reads _ (get_authenticated_user-Reads cookie)) (λ o.
                Keeps-resolve_user _ _ o (λ u. Keeps-on_error _ _ _ (Keeps-query _) (λ evt.
                  Keeps-bind _ _ (Keeps-Reads _ (is_past-Reads evt)) (λ past.
                    Keeps-if past _ _ (λ a. Keeps-pure _)
                      (λ a. Keeps-on_error _ _ _ (Keeps-query _) (λ prof.
                        Keeps-bind _ _ (Keeps-Reads _ (inactive_allowed-Reads prof)) (λ open_to.
                          Keeps-if (not open_to) _ _ (λ b. Keeps-pure _)
                            (λ b.
                              Keeps-bind _ _ (Keeps-Reads _ (may_withdraw-Reads u.id p)) (λ allowed.
                                Keeps-if (not allowed) _ _ (λ c. Keeps-pure _)
                                  (λ c. withdraw_changes-Keeps u.id evt p))))))))))))
