-- ===== src/Storage/Patrols/Tests.antt =====
-- The patrols' theorems at work on sample tables.
use scouting_app.Base.{◌≡◌, refl, true, false, [], ◌∷◌, All}
use scouting_app.Examples.{camp, world, campout}
use scouting_app.Db.{ok, ◌>>=◌}
use scouting_app.Storage.Attendance.{has_row}
use scouting_app.Storage.Patrols.{set_cooking_patrol_cook, update_with_cooking}
use scouting_app.Storage.Patrols.Invariants.{Fed}
use scouting_app.Storage.Patrols.History.{after, after-Fed, assign_call, set_cook_call, update_call}
use scouting_app.Storage.Patrols.Cook.{is_right, set_cooking_patrol_cook-cook}
use scouting_app.Storage.Patrols.Toggle.{Seated, update_with_cooking-Seated}

camp-Fed : Fed camp
camp-Fed = ((((refl, refl), tt), (tt, tt)), (refl, (refl, tt)))

after-Fed_example :
    Fed
      (after
        (set_cook_call "e" "k" "z"
          ∷ assign_call "e" "k" "a"
          ∷ update_call (campout "e" true) false
          ∷ [])
        (world camp)).tables
after-Fed_example =
    after-Fed
      (set_cook_call "e" "k" "z"
        ∷ assign_call "e" "k" "a"
        ∷ update_call (campout "e" true) false
        ∷ [])
      (world camp) camp-Fed

cook_set : (set_cooking_patrol_cook "e" "k" "z" (world camp)).0 ≡ ok tt
unfolding set_cooking_patrol_cook ◌>>=◌
cook_set = refl

set_cooking_patrol_cook-cook_example :
    All
      (λ m. is_right "e" "z" "k" m ≡ true)
      (set_cooking_patrol_cook "e" "k" "z" (world camp)).1.patrol_members
set_cooking_patrol_cook-cook_example =
    set_cooking_patrol_cook-cook "e" "z" "k" (world camp) cook_set

switched_on : (update_with_cooking (campout "e" true) false (world camp)).0 ≡ ok tt
unfolding update_with_cooking ◌>>=◌ has_row
switched_on = refl

update_with_cooking-Seated_example :
    Seated "e" (update_with_cooking (campout "e" true) false (world camp)).1.tables
update_with_cooking-Seated_example =
    update_with_cooking-Seated (campout "e" true) (world camp) refl camp-Fed switched_on
