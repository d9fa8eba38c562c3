-- ===== src/TentService.antt =====
-- internal/domain/event/tent_service.go
pub mod Refusals
pub mod Placement
pub mod Tests
use scouting_app.Base.{
  String, Bool, true, false, not, ◌||◌, List, [], ◌∷◌, ◌++◌, Option, none, some, ◌==◌, where_,
  if◌then◌else◌,
}
use scouting_app.Base.Int.{ℤ}
use scouting_app.Calendar.{Time}
use scouting_app.Profile.{
  Profile, ParentYouthConnection, adult, youth, approved, member_type_eq, link_status_eq,
  display_name,
}
use scouting_app.Event.{Tent, TentMember}
use scouting_app.Tenting.{
  ApprovedParentLink, ScoutPair, TentScout, Violation, sibling_pairs, blocking_violations,
}
use scouting_app.Db.{Db, pure, fail, adult_in_tent, tent_not_found, ◌>>=◌, ◌>>◌}
use scouting_app.Storage.Profiles.{get_profile_by_id}
use scouting_app.Storage.Links.{list_links_by_status}
use scouting_app.Storage.Events.{get_event_by_id}
use scouting_app.Storage.Tents.{
  create_tent, delete_tent, list_tents, assign_tent_member, remove_tent_member,
}

unfoldable pub after_withdraw : String → String → Db (Unit {0})
after_withdraw event_id profile_id = remove_tent_member event_id profile_id

unfoldable pub remove_member : String → String → Db (Unit {0})
remove_member event_id profile_id = remove_tent_member event_id profile_id

unfoldable pub scout_of_profile : Profile → TentScout
unfolding display_name
scout_of_profile p = record {
  id = p.id;
  name = display_name p;
  gender = p.gender;
  birthdate = p.birthdate;
}

unfoldable pub has_scout : String → List TentScout → Bool
has_scout id [] = false
has_scout id (s ∷ scouts) = s.id == id || has_scout id scouts

-- The loop over the members.
unfoldable pub member_scouts : List TentMember → Db (List TentScout)
unfolding scout_of_profile
member_scouts [] = pure []
member_scouts (m ∷ members) = do
  p ← get_profile_by_id m.profile_id
  rest ← member_scouts members
  pure (scout_of_profile p ∷ rest)

-- seen holds the ids of the scouts so far.
unfoldable pub with_added : Profile → List TentScout → List TentScout
unfolding has_scout scout_of_profile
with_added added scouts =
    if has_scout added.id scouts then scouts else scouts ++ scout_of_profile added ∷ []

unfoldable pub prospective_scouts : List TentMember → Profile → Db (List TentScout)
unfolding member_scouts with_added
prospective_scouts members added = do scouts ← member_scouts members; pure (with_added added scouts)

approved_links : List ParentYouthConnection → List ApprovedParentLink
approved_links [] = []
approved_links (l ∷ links) =
    let rest = approved_links links in
    if link_status_eq l.status approved
    then record { parent_profile_id = l.parent_profile_id; youth_profile_id = l.youth_profile_id }
      ∷ rest
    else rest

unfoldable pub approved_sibling_pairs : Db (List ScoutPair)
unfolding approved_links
approved_sibling_pairs = do
  links ← list_links_by_status approved
  pure (sibling_pairs (approved_links links))

-- What the loop over the tents finds: no target, a target that holds the scout already, or a
-- target to move to.
pub data Target : Type 0 where
  missing already : Target
  tent : Tent → Target

unfoldable pub is_member : String → List TentMember → Bool
is_member profile_id [] = false
is_member profile_id (m ∷ members) = m.profile_id == profile_id || is_member profile_id members

unfoldable pub find_target : String → String → Target → List Tent → Target
unfolding is_member
find_target tent_id profile_id target [] = target
find_target tent_id profile_id target (t ∷ tents) =
    let skip = find_target tent_id profile_id target tents in
    let take = find_target tent_id profile_id (tent t) tents in
    if t.id == tent_id then (if is_member profile_id t.members then already else take) else skip

-- An arrangement that breaks no rule is written; the violations are returned.
unfoldable pub settle : String → String → String → List Violation → Db (List Violation)
settle event_id tent_id profile_id [] = assign_tent_member event_id tent_id profile_id >> pure []
settle event_id tent_id profile_id (v ∷ violations) = pure (v ∷ violations)

-- From the target on.
unfoldable pub place : String → String → String → Profile → ℤ → Target → Db (List Violation)
unfolding prospective_scouts approved_sibling_pairs settle
place event_id tent_id profile_id p max_age_gap missing = fail tent_not_found
place event_id tent_id profile_id p max_age_gap already = pure []
place event_id tent_id profile_id p max_age_gap (tent t) = do
  evt ← get_event_by_id event_id
  scouts ← prospective_scouts t.members p
  siblings ← approved_sibling_pairs
  settle event_id tent_id profile_id
      (blocking_violations scouts evt.start_time max_age_gap siblings)

unfoldable pub assign_member : String → String → String → ℤ → Db (List Violation)
unfolding find_target place
assign_member event_id tent_id profile_id max_age_gap = do
  p ← get_profile_by_id profile_id
  if not (member_type_eq p.member_type youth) then fail adult_in_tent else (do
    tents ← list_tents event_id
    place event_id tent_id profile_id p max_age_gap (find_target tent_id profile_id missing tents))

unfoldable pub if_valid : Tent → Db (List Tent) → List Violation → Db (List Tent)
if_valid t rest [] = do valid ← rest; pure (t ∷ valid)
if_valid t rest (v ∷ violations) = rest

-- The loop of ValidTargetTents.
unfoldable pub valid_tents :
    Profile → String → Time → ℤ → List ScoutPair → List Tent → Db (List Tent)
unfolding prospective_scouts if_valid
valid_tents p exclude_tent_id start max_age_gap siblings [] = pure []
valid_tents p exclude_tent_id start max_age_gap siblings (t ∷ tents) =
    let rest = valid_tents p exclude_tent_id start max_age_gap siblings tents in
    if t.id == exclude_tent_id then rest else (do
      scouts ← prospective_scouts t.members p
      if_valid t rest (blocking_violations scouts start max_age_gap siblings))

unfoldable pub valid_target_tents : String → String → String → ℤ → Db (List Tent)
unfolding valid_tents approved_sibling_pairs
valid_target_tents event_id profile_id exclude_tent_id max_age_gap = do
  p ← get_profile_by_id profile_id
  evt ← get_event_by_id event_id
  siblings ← approved_sibling_pairs
  tents ← list_tents event_id
  valid_tents p exclude_tent_id evt.start_time max_age_gap siblings tents
