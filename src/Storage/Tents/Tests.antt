-- ===== src/Storage/Tents/Tests.antt =====
-- The tents' theorems at work on sample tables.
use scouting_app.Base.{◌≡◌, refl, false, [], ◌∷◌, ◌<◌, ◌^◌, ◌+◌, arith}
use scouting_app.Examples.{camp, world}
use scouting_app.Event.{Tent}
use scouting_app.Db.{ok, ◌>>=◌}
use scouting_app.Naming.{highest_number, tent_number}
use scouting_app.Text.{has_key, after_prefix}
use scouting_app.Text.Decimal.{itoa, atoi}
use scouting_app.Storage.Tents.{create_tent, tent_names}
use scouting_app.Storage.Tents.Invariants.{Housed}
use scouting_app.Storage.Tents.History.{after, after-Housed, create_call, assign_call, delete_call}
use scouting_app.Storage.Tents.Creation.{
  Created, DistinctNames, create_tent-adds, create_tent-DistinctNames,
}

camp-Housed : Housed camp
camp-Housed = ((tt, tt), (refl, tt))

after-Housed_example :
    Housed
      (after
        (create_call "e"
          ∷ assign_call "e" "new" "y"
          ∷ assign_call "e" "t" "z"
          ∷ delete_call "t"
          ∷ [])
        (world camp)).tables
after-Housed_example =
    after-Housed
      (create_call "e" ∷ assign_call "e" "new" "y" ∷ assign_call "e" "t" "z" ∷ delete_call "t" ∷ [])
      (world camp) camp-Housed

small_numbers : highest_number tent_number 0 (tent_names "e" camp.tents) + 1 < 2 ^ 63
unfolding highest_number tent_number tent_names after_prefix atoi
small_numbers = omega arith

abbrev second_tent : Tent
second_tent = record {
  id = "new";
  event_id = "e";
  name = "Tent 2";
  created_at = 5000;
  members = [];
}

tent_created : (create_tent "e" (world camp)).0 ≡ ok second_tent
unfolding create_tent ◌>>=◌ itoa after_prefix atoi
tent_created = refl

create_tent-adds_example :
    Created "e" camp.tents second_tent (create_tent "e" (world camp)).1.tables
    × (has_key "Tent 2" (tent_names "e" camp.tents) ≡ false)
create_tent-adds_example = create_tent-adds "e" (world camp) second_tent small_numbers tent_created

create_tent-DistinctNames_example : DistinctNames (create_tent "e" (world camp)).1.tables
create_tent-DistinctNames_example =
    create_tent-DistinctNames "e" (world camp) small_numbers (tt, tt)
