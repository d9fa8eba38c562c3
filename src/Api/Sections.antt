-- ===== src/Api/Sections.antt =====
-- The parts of the event page: buildProfileSignUps, buildCookingSectionData,
-- buildTentingSectionData and the handlers' calls of them in internal/api/events.go.
use scouting_app.Base.{
  String, Bool, true, false, not, ◌&&◌, ◌||◌, List, [], ◌∷◌, ◌++◌, Option, none, some, ◌==◌, map,
  any, order_by, length, ltb, nat_eq, if◌then◌else◌,
}
use scouting_app.Base.Int.{ℤ, pos, negsuc}
use scouting_app.Text.{str_le}
use scouting_app.Text.Decimal.{atoi}
use scouting_app.Calendar.{Time}
use scouting_app.Profile.{
  Profile, ParentYouthConnection, adult, youth, active, approved, member_type_eq, status_eq,
  link_status_eq, display_name,
}
use scouting_app.Event.{Event, CookingPatrol, CookingPatrolMember, Tent, TentMember}
use scouting_app.Db.{Result, ok, err, Db, pure, attempt, ◌>>=◌}
use scouting_app.Storage.Profiles.{get_profile_by_id, get_profile_by_user_id}
use scouting_app.Storage.Links.{list_links_by_parent}
use scouting_app.Storage.Attendance.{get_attendees}
use scouting_app.Storage.Patrols.{list_cooking_patrols}
use scouting_app.Storage.Tents.{list_tents}
use scouting_app.TentService.{valid_target_tents}
use scouting_app.AppConfig.{get_with_hierarchy, max_tent_age_gap}
use scouting_app.Auth.{Session}
use scouting_app.Views.{
  ProfileSignUp, CookingMemberView, CookingPatrolView, CookingUnassignedView, CookingSection,
  TentMemberView, TentView, TentUnassignedView, TentingSection, is_attending, cooking_targets,
  tent_targets, tent_age_label, tent_birthdate_label,
}
use scouting_app.Api.{
  Handler, view, cooking_section, tent_section, internal_error, on_error, is_admin,
}

unfoldable pub sign_up_of : List Profile → Profile → ProfileSignUp
unfolding is_attending display_name
sign_up_of attendees p = record {
  profile_id = p.id;
  profile_name = display_name p;
  is_attending = is_attending p.id attendees;
}

-- An active youth that is found.
unfoldable pub active_sign_up : List Profile → Result Profile → List ProfileSignUp
unfolding sign_up_of
active_sign_up attendees (err e) = []
active_sign_up attendees (ok p) =
    if status_eq p.status active then sign_up_of attendees p ∷ [] else []

-- The loop over the links.
unfoldable pub youth_sign_ups : List Profile → List ParentYouthConnection → Db (List ProfileSignUp)
unfolding active_sign_up
youth_sign_ups attendees [] = pure []
youth_sign_ups attendees (l ∷ links) =
    let rest = youth_sign_ups attendees links in
    if not (link_status_eq l.status approved) then rest else (do
      found ← attempt (get_profile_by_id l.youth_profile_id)
      others ← rest
      pure (active_sign_up attendees found ++ others))

unfoldable pub linked_sign_ups :
    List Profile → Result (List ParentYouthConnection) → Db (List ProfileSignUp)
unfolding youth_sign_ups
linked_sign_ups attendees (err e) = pure []
linked_sign_ups attendees (ok links) = youth_sign_ups attendees links

abbrev sign_up_le : ProfileSignUp → ProfileSignUp → Bool
sign_up_le a b = str_le a.profile_name b.profile_name

unfoldable pub sign_ups_for : List Profile → Result Profile → Db (List ProfileSignUp)
unfolding linked_sign_ups sign_up_of
sign_ups_for attendees (err e) = pure []
sign_ups_for attendees (ok p) = if not (status_eq p.status active) then pure [] else (do
  links ← attempt (list_links_by_parent p.id)
  youths ← linked_sign_ups attendees links
  pure (sign_up_of attendees p ∷ order_by sign_up_le youths))

unfoldable pub build_profile_sign_ups : String → List Profile → Db (List ProfileSignUp)
unfolding sign_ups_for
build_profile_sign_ups user_id attendees = do
  found ← attempt (get_profile_by_user_id user_id)
  sign_ups_for attendees found

member_view : CookingPatrolMember → CookingMemberView
member_view m = record {
  profile_id = m.profile_id;
  profile_name = m.profile_name;
  is_cook = m.is_cook;
}

abbrev member_le : CookingMemberView → CookingMemberView → Bool
member_le a b = str_le a.profile_name b.profile_name

patrol_view : List CookingPatrol → CookingPatrol → CookingPatrolView
unfolding member_view cooking_targets
patrol_view patrols p = record {
  id = p.id;
  name = p.name;
  is_adult = p.is_adult;
  members = order_by member_le (map member_view p.members);
  move_targets = cooking_targets patrols p.id p.is_adult;
}

-- The views of the patrols with this kind of members.
patrol_views : List CookingPatrol → Bool → List CookingPatrol → List CookingPatrolView
unfolding patrol_view
patrol_views patrols is_adult [] = []
patrol_views patrols is_adult (p ∷ rest) =
    let views = patrol_views patrols is_adult rest in
    if (p.is_adult && is_adult) || (not p.is_adult && not is_adult)
    then patrol_view patrols p ∷ views
    else views

-- memberID[id]
unfoldable pub in_a_patrol : String → List CookingPatrol → Bool
in_a_patrol id [] = false
in_a_patrol id (p ∷ patrols) = any (λ m. m.profile_id == id) p.members || in_a_patrol id patrols

-- The attendees of one kind without a patrol.
unassigned_views : List CookingPatrol → Bool → List Profile → List CookingUnassignedView
unfolding in_a_patrol cooking_targets display_name
unassigned_views patrols is_adult [] = []
unassigned_views patrols is_adult (a ∷ attendees) =
    let views = unassigned_views patrols is_adult attendees in
    let grown = member_type_eq a.member_type adult in
    if not (in_a_patrol a.id patrols) && ((grown && is_adult) || (not grown && not is_adult))
    then record {
      profile_id = a.id;
      profile_name = display_name a;
      is_adult = is_adult;
      targets = cooking_targets patrols "" is_adult;
    }
      ∷ views
    else views

abbrev unassigned_le : CookingUnassignedView → CookingUnassignedView → Bool
unassigned_le a b = str_le a.profile_name b.profile_name

unfoldable pub cooking_data :
    String → Bool → Bool → List Profile → List CookingPatrol → CookingSection
unfolding patrol_views unassigned_views
cooking_data event_id past admin attendees patrols = record {
  event_id = event_id;
  is_past = past;
  is_admin = admin;
  enabled = true;
  youth_patrols = patrol_views patrols false patrols;
  adult_patrols = patrol_views patrols true patrols;
  unassigned_youth = order_by unassigned_le (unassigned_views patrols false attendees);
  unassigned_adults = order_by unassigned_le (unassigned_views patrols true attendees);
}

-- Both callers set Enabled in the end.
unfoldable pub build_cooking_section : String → Bool → Bool → Db CookingSection
unfolding cooking_data
build_cooking_section event_id past admin = do
  attendees ← get_attendees event_id
  patrols ← list_cooking_patrols event_id
  pure (cooking_data event_id past admin attendees patrols)

unfoldable pub render_cooking_section : Result Session → String → Handler
unfolding build_cooking_section on_error
render_cooking_section cookie event_id = do
  admin ← is_admin cookie
  on_error (build_cooking_section event_id false admin) internal_error
      (λ section. pure (view (cooking_section section) ∷ []))

age_gap_of : Option ℤ → ℤ
age_gap_of none = pos 2
age_gap_of (some (pos n)) = pos n
age_gap_of (some (negsuc n)) = pos 2

unfoldable pub tent_max_age_gap : (String → Option String) → Db ℤ
unfolding age_gap_of atoi
tent_max_age_gap env = do
  v ← get_with_hierarchy env "MAX_TENT_AGE_GAP" max_tent_age_gap "2"
  pure (age_gap_of (atoi v))

-- byID[id]
attendee_by_id : String → List Profile → Option Profile
attendee_by_id id [] = none
attendee_by_id id (a ∷ attendees) = elim (attendee_by_id id attendees) [
  | some q ↦ some q
  | none ↦ if a.id == id then some a else none
]

birthdate_label : Option Profile → String
unfolding tent_birthdate_label
birthdate_label none = "—"
birthdate_label (some p) = tent_birthdate_label p.birthdate

age_label : Time → Option Profile → String
unfolding tent_age_label
age_label at none = "—"
age_label at (some p) = tent_age_label p.birthdate at

unfoldable pub tent_member_views :
    String → Time → ℤ → List Profile → String → List TentMember → Db (List TentMemberView)
unfolding attendee_by_id birthdate_label age_label tent_targets
tent_member_views event_id start gap attendees tent_id [] = pure []
tent_member_views event_id start gap attendees tent_id (m ∷ members) = do
  valid ← valid_target_tents event_id m.profile_id tent_id gap
  rest ← tent_member_views event_id start gap attendees tent_id members
  pure (
      record {
        profile_id = m.profile_id;
        profile_name = m.profile_name;
        birthdate = birthdate_label (attendee_by_id m.profile_id attendees);
        age = age_label start (attendee_by_id m.profile_id attendees);
        move_targets = tent_targets valid;
      }
      ∷ rest)

abbrev tent_member_le : TentMemberView → TentMemberView → Bool
tent_member_le a b = str_le a.profile_name b.profile_name

unfoldable pub tent_views : String → Time → ℤ → List Profile → List Tent → Db (List TentView)
unfolding tent_member_views
tent_views event_id start gap attendees [] = pure []
tent_views event_id start gap attendees (t ∷ tents) = do
  members ← tent_member_views event_id start gap attendees t.id t.members
  rest ← tent_views event_id start gap attendees tents
  pure (
      record {
        id = t.id;
        name = t.name;
        needs_scout = ltb (length t.members) 2;
        alone = nat_eq (length t.members) 1;
        members = order_by tent_member_le members;
      }
      ∷ rest)

unfoldable pub in_a_tent : String → List Tent → Bool
in_a_tent id [] = false
in_a_tent id (t ∷ tents) = any (λ m. m.profile_id == id) t.members || in_a_tent id tents

-- The youths without a tent.
unfoldable pub tentless :
    String → Time → ℤ → List Tent → List Profile → Db (List TentUnassignedView)
unfolding in_a_tent tent_age_label tent_birthdate_label tent_targets display_name
tentless event_id start gap tents [] = pure []
tentless event_id start gap tents (a ∷ attendees) =
    let rest = tentless event_id start gap tents attendees in
    if not (member_type_eq a.member_type youth) || in_a_tent a.id tents then rest else (do
      valid ← valid_target_tents event_id a.id "" gap
      others ← rest
      pure (
          record {
            profile_id = a.id;
            profile_name = display_name a;
            birthdate = tent_birthdate_label a.birthdate;
            age = tent_age_label a.birthdate start;
            targets = tent_targets valid;
          }
          ∷ others))

abbrev tentless_le : TentUnassignedView → TentUnassignedView → Bool
tentless_le a b = str_le a.profile_name b.profile_name

unfoldable pub build_tenting_section :
    (String → Option String) → String → Time → Bool → Bool → Db TentingSection
unfolding tent_max_age_gap tent_views tentless
build_tenting_section env event_id start past admin = do
  tents ← list_tents event_id
  attendees ← get_attendees event_id
  gap ← tent_max_age_gap env
  views ← tent_views event_id start gap attendees tents
  unassigned ← tentless event_id start gap tents attendees
  pure (record {
    event_id = event_id;
    is_past = past;
    is_admin = admin;
    tents = views;
    unassigned_youth = order_by tentless_le unassigned;
  })

unfoldable pub render_tenting_section : (String → Option String) → Result Session → Event → Handler
unfolding build_tenting_section on_error
render_tenting_section env cookie evt = do
  admin ← is_admin cookie
  on_error (build_tenting_section env evt.id evt.start_time false admin) internal_error
      (λ section. pure (view (tent_section section) ∷ []))
