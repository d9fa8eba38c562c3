-- ===== src/CookingService/Tests.antt =====
-- The cooking service's theorem at work on sample tables.
use scouting_app.Base.{◌≡◌, refl, true, false, [], ◌∷◌, find, some, ◌==◌}
use scouting_app.Examples.{camp, world, patrol}
use scouting_app.Profile.{Profile}
use scouting_app.Db.{Tables, ok, err, adult_in_youth_patrol, ◌>>=◌}
use scouting_app.Storage.Attendance.{has_row}
use scouting_app.Storage.Profiles.{get_profile_by_id}
use scouting_app.Storage.Patrols.{list_cooking_patrols, assign_cooking_patrol_member}
use scouting_app.CookingService.{assign_member}
use scouting_app.CookingService.Adults.{Allowed, assign_member-adults}

abbrev with_adults : Tables
with_adults = record camp {
  patrols = patrol "k" "e" "Cooking 1" false ∷ patrol "g" "e" "Adults" true ∷ [];
}

adult_assigned : (assign_member "e" "g" "a" (world with_adults)).0 ≡ ok tt
unfolding assign_member ◌>>=◌ get_profile_by_id list_cooking_patrols assign_cooking_patrol_member
    has_row
adult_assigned = refl

adult_refused : (assign_member "e" "k" "a" (world with_adults)).0 ≡ err adult_in_youth_patrol
unfolding assign_member ◌>>=◌ get_profile_by_id list_cooking_patrols
adult_refused = refl

assign_member-adults_example :
    (q : Profile) × (find (λ o. o.id == "a") camp.profiles ≡ some q)
    × Allowed "e" "g" "a" with_adults.patrols q
assign_member-adults_example = assign_member-adults "e" "g" "a" (world with_adults) adult_assigned
