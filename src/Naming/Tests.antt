-- ===== src/Naming/Tests.antt =====
-- The names' theorems at work.
use scouting_app.Base.{String, ◌≡◌, false, List, [], ◌∷◌, some, ◌+◌, ◌<◌, ◌^◌, arith}
use scouting_app.Base.Int.{pos}
use scouting_app.Text.{has_key, after_prefix}
use scouting_app.Text.Decimal.{atoi}
use scouting_app.Naming.{
  tent_next_name, tent_number, cooking_patrol_next_name, cooking_patrol_number, highest_number,
  next_number,
}
use scouting_app.Naming.Fresh.{
  tent_number-tent_next_name, cooking_patrol_number-cooking_patrol_next_name, tent_next_name-fresh,
  cooking_patrol_next_name-fresh,
}

tent_number-tent_next_name_example : tent_number (tent_next_name (pos 12)) ≡ some (pos 12)
tent_number-tent_next_name_example = tent_number-tent_next_name 12 (omega arith)

cooking_patrol_number-cooking_patrol_next_name_example :
    cooking_patrol_number (cooking_patrol_next_name (pos 3)) ≡ some (pos 3)
cooking_patrol_number-cooking_patrol_next_name_example =
    cooking_patrol_number-cooking_patrol_next_name 3 (omega arith)

abbrev tents : List String
tents = "Tent 1" ∷ "Tent 7" ∷ "Rainfly" ∷ []

tents_small : highest_number tent_number 0 tents + 1 < 2 ^ 63
unfolding highest_number tent_number after_prefix atoi
tents_small = omega arith

tent_next_name-fresh_example :
    has_key (tent_next_name (next_number tent_number tents)) tents ≡ false
tent_next_name-fresh_example = tent_next_name-fresh tents tents_small

abbrev patrols : List String
patrols = "Cooking 2" ∷ "Adults" ∷ []

patrols_small : highest_number cooking_patrol_number 0 patrols + 1 < 2 ^ 63
unfolding highest_number cooking_patrol_number after_prefix atoi
patrols_small = omega arith

cooking_patrol_next_name-fresh_example :
    has_key (cooking_patrol_next_name (next_number cooking_patrol_number patrols)) patrols ≡ false
cooking_patrol_next_name-fresh_example = cooking_patrol_next_name-fresh patrols patrols_small
