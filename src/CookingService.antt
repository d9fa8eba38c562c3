-- ===== src/CookingService.antt =====
-- internal/domain/event/cooking_service.go
pub mod Adults
pub mod Tests
use scouting_app.Base.{
  String, Bool, true, false, not, ◌&&◌, List, [], ◌∷◌, Option, none, some, ◌==◌, if◌then◌else◌,
}
use scouting_app.Profile.{adult, member_type_eq}
use scouting_app.Event.{CookingPatrol, CookingPatrolMember}
use scouting_app.Db.{Db, pure, fail, adult_in_youth_patrol, ◌>>=◌, ◌>>◌}
use scouting_app.Storage.Profiles.{get_profile_by_id}
use scouting_app.Storage.Events.{get_event_by_id}
use scouting_app.Storage.Patrols.{
  create_cooking_patrol, list_cooking_patrols, assign_cooking_patrol_member,
  remove_cooking_patrol_member, clear_cooking_patrol_cook,
}

unfoldable pub first_adult : List CookingPatrol → Option CookingPatrol
first_adult [] = none
first_adult (p ∷ patrols) = let rest = first_adult patrols in if p.is_adult then some p else rest

unfoldable pub found_or_new : String → Option CookingPatrol → Db CookingPatrol
found_or_new event_id (some p) = pure p
found_or_new event_id none = create_cooking_patrol event_id true

unfoldable pub adult_patrol : String → Db CookingPatrol
unfolding first_adult found_or_new
adult_patrol event_id = do
  patrols ← list_cooking_patrols event_id
  found_or_new event_id (first_adult patrols)

unfoldable pub after_sign_up : String → String → Db (Unit {0})
unfolding adult_patrol
after_sign_up event_id profile_id = do
  evt ← get_event_by_id event_id
  if not evt.cooking_enabled then pure tt else (do
    p ← get_profile_by_id profile_id
    if not (member_type_eq p.member_type adult) then pure tt else (do
      patrol ← adult_patrol evt.id
      assign_cooking_patrol_member evt.id patrol.id profile_id))

-- The inner loop: clear the cook for each row that is the profile's and a cook's.
unfoldable pub clear_for_members : String → String → List CookingPatrolMember → Db (Unit {0})
clear_for_members patrol_id profile_id [] = pure tt
clear_for_members patrol_id profile_id (m ∷ members) =
    let rest = clear_for_members patrol_id profile_id members in
    if m.profile_id == profile_id && m.is_cook
    then clear_cooking_patrol_cook patrol_id >> rest
    else rest

unfoldable pub clear_for_patrols : String → List CookingPatrol → Db (Unit {0})
unfolding clear_for_members
clear_for_patrols profile_id [] = pure tt
clear_for_patrols profile_id (p ∷ patrols) =
    clear_for_members p.id profile_id p.members >> clear_for_patrols profile_id patrols

-- RemoveMember and AfterWithdraw have this body.
unfoldable pub remove_member : String → String → Db (Unit {0})
unfolding clear_for_patrols
remove_member event_id profile_id = do
  patrols ← list_cooking_patrols event_id
  clear_for_patrols profile_id patrols
  remove_cooking_patrol_member event_id profile_id

unfoldable pub after_withdraw : String → String → Db (Unit {0})
unfolding remove_member
after_withdraw event_id profile_id = remove_member event_id profile_id

-- The loop breaks at the first patrol with the id.
unfoldable pub is_adult_patrol : String → List CookingPatrol → Bool
is_adult_patrol patrol_id [] = false
is_adult_patrol patrol_id (p ∷ patrols) =
    let rest = is_adult_patrol patrol_id patrols in if p.id == patrol_id then p.is_adult else rest

unfoldable pub assign_member : String → String → String → Db (Unit {0})
unfolding is_adult_patrol
assign_member event_id patrol_id profile_id = do
  p ← get_profile_by_id profile_id
  if member_type_eq p.member_type adult
      then (do
        patrols ← list_cooking_patrols event_id
        if not (is_adult_patrol patrol_id patrols)
            then fail adult_in_youth_patrol
            else assign_cooking_patrol_member event_id patrol_id profile_id)
      else assign_cooking_patrol_member event_id patrol_id profile_id
