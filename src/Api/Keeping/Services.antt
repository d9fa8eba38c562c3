-- ===== src/Api/Keeping/Services.antt =====
-- What the writers keep, the services of internal/domain/event keep: cooking_service.go and
-- tent_service.go.
use scouting_app.Base.{String, true, not, ◌&&◌, List, [], ◌∷◌, Option, none, some, ◌==◌}
use scouting_app.Base.Int.{ℤ}
use scouting_app.Profile.{Profile, adult, youth, member_type_eq}
use scouting_app.Event.{CookingPatrol, CookingPatrolMember}
use scouting_app.Tenting.{Violation}
use scouting_app.Db.{Tables}
use scouting_app.Db.Keeps.{Keeps, Keeps-bind, Keeps-pure, Keeps-fail, Keeps-query, Keeps-if}
use scouting_app.Db.Errors.{Keeps-Reads}
use scouting_app.Storage.Profiles.{get_profile_by_id}
use scouting_app.Storage.Events.{get_event_by_id}
use scouting_app.CookingService as Cooking
use scouting_app.CookingService.{
  first_adult, found_or_new, adult_patrol, clear_for_members, clear_for_patrols, is_adult_patrol,
}
use scouting_app.TentService as Tents
use scouting_app.TentService.{Target, missing, already, tent, find_target, settle, place}
use scouting_app.TentService.Refusals.{
  prospective_scouts-Reads, approved_sibling_pairs-Reads, list_tents-Reads,
}
use scouting_app.Api.Reading.{list_cooking_patrols-Reads}
use scouting_app.Api.Keeping.{WritersKeep}

module _ {P : Tables → Type 0} (k : WritersKeep P) where
  found_or_new-Keeps : (e : String) (o : Option CookingPatrol) → Keeps P (found_or_new e o)
  unfolding found_or_new
  found_or_new-Keeps e none = k.create_cooking_patrol e true
  found_or_new-Keeps e (some p) = Keeps-pure p

  pub after_sign_up-Keeps : (e p : String) → Keeps P (Cooking.after_sign_up e p)
  unfolding Cooking.after_sign_up adult_patrol get_event_by_id get_profile_by_id
  after_sign_up-Keeps e p = Keeps-bind _ _ (Keeps-query _) (λ evt.
      Keeps-if (not evt.cooking_enabled) _ _ (λ q. Keeps-pure tt)
        (λ q. Keeps-bind _ _ (Keeps-query _) (λ prof.
          Keeps-if (not (member_type_eq prof.member_type adult)) _ _ (λ u. Keeps-pure tt)
            (λ u.
              Keeps-bind _ _
                (Keeps-bind _ _ (Keeps-Reads _ (list_cooking_patrols-Reads evt.id))
                  (λ ps. found_or_new-Keeps evt.id (first_adult ps)))
                (λ patrol. k.assign_cooking_patrol_member evt.id patrol.id p)))))

  clear_for_members-Keeps :
      (i p : String) (members : List CookingPatrolMember) → Keeps P (clear_for_members i p members)
  unfolding clear_for_members
  clear_for_members-Keeps i p [] = Keeps-pure tt
  clear_for_members-Keeps i p (m ∷ members) =
      Keeps-if (m.profile_id == p && m.is_cook) _ _
        (λ q.
          Keeps-bind _ _ (k.clear_cooking_patrol_cook i)
            (λ done. clear_for_members-Keeps i p members))
        (λ q. clear_for_members-Keeps i p members)

  clear_for_patrols-Keeps :
      (p : String) (patrols : List CookingPatrol) → Keeps P (clear_for_patrols p patrols)
  unfolding clear_for_patrols
  clear_for_patrols-Keeps p [] = Keeps-pure tt
  clear_for_patrols-Keeps p (c ∷ patrols) =
      Keeps-bind _ _ (clear_for_members-Keeps c.id p c.members)
        (λ done. clear_for_patrols-Keeps p patrols)

  pub leave_patrol-Keeps : (e p : String) → Keeps P (Cooking.remove_member e p)
  unfolding Cooking.remove_member
  leave_patrol-Keeps e p = Keeps-bind _ _ (Keeps-Reads _ (list_cooking_patrols-Reads e)) (λ ps.
      Keeps-bind _ _ (clear_for_patrols-Keeps p ps) (λ done. k.remove_cooking_patrol_member e p))

  pub join_patrol-Keeps : (e i p : String) → Keeps P (Cooking.assign_member e i p)
  unfolding Cooking.assign_member get_profile_by_id
  join_patrol-Keeps e i p = Keeps-bind _ _ (Keeps-query _) (λ prof.
      Keeps-if (member_type_eq prof.member_type adult) _ _
        (λ q. Keeps-bind _ _ (Keeps-Reads _ (list_cooking_patrols-Reads e)) (λ ps.
          Keeps-if (not (is_adult_patrol i ps)) _ _ (λ u. Keeps-fail _)
            (λ u. k.assign_cooking_patrol_member e i p)))
        (λ q. k.assign_cooking_patrol_member e i p))

  settle-Keeps : (e i p : String) (vs : List Violation) → Keeps P (settle e i p vs)
  unfolding settle
  settle-Keeps e i p [] = Keeps-bind _ _ (k.assign_tent_member e i p) (λ done. Keeps-pure _)
  settle-Keeps e i p (v ∷ vs) = Keeps-pure _

  place-Keeps :
      (e i p : String) (q : Profile) (gap : ℤ) (t : Target) → Keeps P (place e i p q gap t)
  unfolding place get_event_by_id
  place-Keeps e i p q gap missing = Keeps-fail _
  place-Keeps e i p q gap already = Keeps-pure _
  place-Keeps e i p q gap (tent t) = Keeps-bind _ _ (Keeps-query _) (λ evt.
      Keeps-bind _ _ (Keeps-Reads _ (prospective_scouts-Reads t.members q)) (λ scouts.
        Keeps-bind _ _ (Keeps-Reads _ approved_sibling_pairs-Reads)
          (λ siblings. settle-Keeps e i p _)))

  pub join_tent-Keeps : (e i p : String) (gap : ℤ) → Keeps P (Tents.assign_member e i p gap)
  unfolding Tents.assign_member get_profile_by_id
  join_tent-Keeps e i p gap = Keeps-bind _ _ (Keeps-query _) (λ q.
      Keeps-if (not (member_type_eq q.member_type youth)) _ _ (λ u. Keeps-fail _)
        (λ u.
          Keeps-bind _ _ (Keeps-Reads _ (list_tents-Reads e))
            (λ tents. place-Keeps e i p q gap (find_target i p missing tents))))
