-- ===== src/TentService/Tests.antt =====
-- The tent service's theorems at work on sample tables.
use scouting_app.Base.{◌≡◌, ◌≢◌, refl, true, [], arith}
use scouting_app.Base.Int.{pos}
use scouting_app.Examples.{camp, world}
use scouting_app.Db.{ok, err, adult_in_tent, ◌>>=◌}
use scouting_app.Tenting.{blocking_violations, sibling_pairs}
use scouting_app.Storage.Profiles.{get_profile_by_id}
use scouting_app.Storage.Tents.{list_tents, assign_tent_member}
use scouting_app.Storage.Attendance.{has_row}
use scouting_app.Storage.Events.{get_event_by_id}
use scouting_app.Storage.Links.{list_links_by_status}
use scouting_app.TentService.{assign_member}
use scouting_app.TentService.Refusals.{assign_member-refusal}
use scouting_app.TentService.Placement.{housed, assign_member-housed}

adult_refused : (assign_member "e" "t" "a" (pos 2) (world camp)).0 ≡ err adult_in_tent
unfolding assign_member ◌>>=◌ get_profile_by_id
adult_refused = refl

not_assigned : (assign_member "e" "t" "a" (pos 2) (world camp)).0 ≢ ok []
not_assigned h = ground (arith, adult_refused)

assign_member-refusal_example : (assign_member "e" "t" "a" (pos 2) (world camp)).1.tables ≡ camp
assign_member-refusal_example = assign_member-refusal "e" "t" "a" (pos 2) (world camp) not_assigned

scout_assigned : (assign_member "e" "t" "z" (pos 2) (world camp)).0 ≡ ok []
unfolding assign_member ◌>>=◌ get_profile_by_id list_tents get_event_by_id list_links_by_status
    blocking_violations sibling_pairs assign_tent_member has_row
scout_assigned = refl

assign_member-housed_example :
    housed "e" "t" "z" (assign_member "e" "t" "z" (pos 2) (world camp)).1.tent_members ≡ true
assign_member-housed_example = assign_member-housed "e" "t" "z" (pos 2) (world camp) scout_assigned
