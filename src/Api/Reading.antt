-- ===== src/Api/Reading.antt =====
-- Rendering only reads: the sections of the event page in internal/api/events.go.
use scouting_app.Base.{String, not, ◌||◌, List, [], ◌∷◌, Option, none, some, ◌==◌}
use scouting_app.Base.Int.{ℤ}
use scouting_app.Calendar.{Time}
use scouting_app.Profile.{
  Profile, ParentYouthConnection, youth, active, approved, member_type_eq, status_eq,
  link_status_eq,
}
use scouting_app.Event.{Event, Tent, TentMember}
use scouting_app.Tenting.{ScoutPair, Violation}
use scouting_app.Db.{Result, ok, err, Db}
use scouting_app.Db.Errors.{
  Reads, Reads-bind, Reads-pure, Reads-attempt, Reads-query, Reads-if, reads_rules,
}
use scouting_app.Storage.Profiles.{get_profile_by_id, get_profile_by_user_id}
use scouting_app.Storage.Links.{list_links_by_parent}
use scouting_app.Storage.Events.{get_event_by_id}
use scouting_app.Storage.Attendance.{get_attendees}
use scouting_app.Storage.Patrols.{list_cooking_patrols}
use scouting_app.AppConfig.{get_config, in_hierarchy, get_with_hierarchy}
use scouting_app.TentService.{if_valid, valid_tents, valid_target_tents}
use scouting_app.TentService.Refusals.{
  prospective_scouts-Reads, approved_sibling_pairs-Reads, list_tents-Reads,
}
use scouting_app.Auth.{Session}
use scouting_app.Api.Rules.{Reads-on_error, is_admin-Reads}
use scouting_app.Api.Sections.{
  youth_sign_ups, linked_sign_ups, sign_ups_for, build_profile_sign_ups, build_cooking_section,
  render_cooking_section, tent_max_age_gap, tent_member_views, tent_views, tentless,
  build_tenting_section, render_tenting_section, in_a_tent,
}

youth_sign_ups-Reads :
    (attendees : List Profile) (links : List ParentYouthConnection)
    → Reads (youth_sign_ups attendees links)
unfolding youth_sign_ups get_profile_by_id
youth_sign_ups-Reads attendees [] = Reads-pure _
youth_sign_ups-Reads attendees (l ∷ links) =
    Reads-if (not (link_status_eq l.status approved)) _ _
      (λ q. youth_sign_ups-Reads attendees links)
      (λ q.
        Reads-bind _ _ (Reads-attempt _ (Reads-query _))
          (λ found. Reads-bind _ _ (youth_sign_ups-Reads attendees links) (λ others. Reads-pure _)))

linked_sign_ups-Reads :
    (attendees : List Profile) (r : Result (List ParentYouthConnection))
    → Reads (linked_sign_ups attendees r)
unfolding linked_sign_ups
linked_sign_ups-Reads attendees (err e) = Reads-pure _
linked_sign_ups-Reads attendees (ok links) = youth_sign_ups-Reads attendees links

sign_ups_for-Reads :
    (attendees : List Profile) (r : Result Profile) → Reads (sign_ups_for attendees r)
unfolding sign_ups_for list_links_by_parent
sign_ups_for-Reads attendees (err e) = Reads-pure _
sign_ups_for-Reads attendees (ok p) =
    Reads-if (not (status_eq p.status active)) _ _ (λ q. Reads-pure _)
      (λ q.
        Reads-bind _ _ (Reads-attempt _ (Reads-query _)) (λ links.
          Reads-bind _ _ (linked_sign_ups-Reads attendees links) (λ youths. Reads-pure _)))

pub build_profile_sign_ups-Reads :
    (user_id : String) (attendees : List Profile) → Reads (build_profile_sign_ups user_id attendees)
unfolding build_profile_sign_ups get_profile_by_user_id
build_profile_sign_ups-Reads user_id attendees =
    Reads-bind _ _ (Reads-attempt _ (Reads-query _)) (sign_ups_for-Reads attendees)

pub list_cooking_patrols-Reads : (event_id : String) → Reads (list_cooking_patrols event_id)
unfolding list_cooking_patrols
list_cooking_patrols-Reads event_id = search reads_rules

pub render_cooking_section-Reads :
    (cookie : Result Session) (event_id : String) → Reads (render_cooking_section cookie event_id)
unfolding render_cooking_section build_cooking_section get_attendees
render_cooking_section-Reads cookie event_id = Reads-bind _ _ (is_admin-Reads cookie) (λ admin.
    Reads-on_error _ _ _
      (Reads-bind _ _ (Reads-query _)
        (λ attendees. Reads-bind _ _ (list_cooking_patrols-Reads event_id) (λ ps. Reads-pure _)))
      (λ section. Reads-pure _))

in_hierarchy-Reads : (o : Option String) (key default : String) → Reads (in_hierarchy o key default)
unfolding in_hierarchy get_config
in_hierarchy-Reads none key default = search reads_rules
in_hierarchy-Reads (some v) key default = Reads-pure _

pub tent_max_age_gap-Reads : (env : String → Option String) → Reads (tent_max_age_gap env)
unfolding tent_max_age_gap get_with_hierarchy
tent_max_age_gap-Reads env = Reads-bind _ _ (in_hierarchy-Reads _ _ _) (λ v. Reads-pure _)

if_valid-Reads :
    (t : Tent) (rest : Db (List Tent)) (vs : List Violation)
    → Reads rest
    → Reads (if_valid t rest vs)
unfolding if_valid
if_valid-Reads t rest [] k = Reads-bind _ _ k (λ valid. Reads-pure _)
if_valid-Reads t rest (v ∷ vs) k = k

valid_tents-Reads :
    (p : Profile) (i : String) (start : Time) (gap : ℤ) (siblings : List ScoutPair)
    (tents : List Tent)
    → Reads (valid_tents p i start gap siblings tents)
unfolding valid_tents
valid_tents-Reads p i start gap siblings [] = Reads-pure _
valid_tents-Reads p i start gap siblings (t ∷ tents) =
    Reads-if (t.id == i) _ _ (λ q. valid_tents-Reads p i start gap siblings tents)
      (λ q.
        Reads-bind _ _ (prospective_scouts-Reads t.members p)
          (λ scouts. if_valid-Reads t _ _ (valid_tents-Reads p i start gap siblings tents)))

valid_target_tents-Reads :
    (event_id profile_id tent_id : String) (gap : ℤ)
    → Reads (valid_target_tents event_id profile_id tent_id gap)
unfolding valid_target_tents get_profile_by_id get_event_by_id
valid_target_tents-Reads event_id profile_id tent_id gap = Reads-bind _ _ (Reads-query _) (λ p.
    Reads-bind _ _ (Reads-query _) (λ evt. Reads-bind _ _ approved_sibling_pairs-Reads (λ siblings.
      Reads-bind _ _ (list_tents-Reads event_id)
        (λ tents. valid_tents-Reads p tent_id evt.start_time gap siblings tents))))

tent_member_views-Reads :
    (e : String) (start : Time) (gap : ℤ) (attendees : List Profile) (i : String)
    (members : List TentMember)
    → Reads (tent_member_views e start gap attendees i members)
unfolding tent_member_views
tent_member_views-Reads e start gap attendees i [] = Reads-pure _
tent_member_views-Reads e start gap attendees i (m ∷ members) =
    Reads-bind _ _ (valid_target_tents-Reads e m.profile_id i gap) (λ valid.
      Reads-bind _ _ (tent_member_views-Reads e start gap attendees i members)
        (λ rest. Reads-pure _))

tent_views-Reads :
    (e : String) (start : Time) (gap : ℤ) (attendees : List Profile) (tents : List Tent)
    → Reads (tent_views e start gap attendees tents)
unfolding tent_views
tent_views-Reads e start gap attendees [] = Reads-pure _
tent_views-Reads e start gap attendees (t ∷ tents) =
    Reads-bind _ _ (tent_member_views-Reads e start gap attendees t.id t.members) (λ members.
      Reads-bind _ _ (tent_views-Reads e start gap attendees tents) (λ rest. Reads-pure _))

tentless-Reads :
    (e : String) (start : Time) (gap : ℤ) (tents : List Tent) (attendees : List Profile)
    → Reads (tentless e start gap tents attendees)
unfolding tentless
tentless-Reads e start gap tents [] = Reads-pure _
tentless-Reads e start gap tents (a ∷ attendees) =
    Reads-if (not (member_type_eq a.member_type youth) || in_a_tent a.id tents) _ _
      (λ q. tentless-Reads e start gap tents attendees)
      (λ q. Reads-bind _ _ (valid_target_tents-Reads e a.id "" gap) (λ valid.
        Reads-bind _ _ (tentless-Reads e start gap tents attendees) (λ others. Reads-pure _)))

pub render_tenting_section-Reads :
    (env : String → Option String) (cookie : Result Session) (evt : Event)
    → Reads (render_tenting_section env cookie evt)
unfolding render_tenting_section build_tenting_section get_attendees
render_tenting_section-Reads env cookie evt = Reads-bind _ _ (is_admin-Reads cookie) (λ admin.
    Reads-on_error _ _ _
      (Reads-bind _ _ (list_tents-Reads evt.id) (λ tents.
        Reads-bind _ _ (Reads-query _) (λ attendees.
          Reads-bind _ _ (tent_max_age_gap-Reads env) (λ gap.
            Reads-bind _ _ (tent_views-Reads evt.id evt.start_time gap attendees tents) (λ views.
              Reads-bind _ _ (tentless-Reads evt.id evt.start_time gap tents attendees)
                (λ unassigned. Reads-pure _))))))
      (λ section. Reads-pure _))
