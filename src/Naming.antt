-- ===== src/Naming.antt =====
-- The automatic names of tents and cooking patrols: TentNextName and TentNumber of
-- internal/domain/event/tent.go, CookingPatrolNextName and CookingPatrolNumber of
-- cooking_patrol.go, and the search for the highest number in internal/storage/postgres/
-- event_repository.go.
pub mod Fresh
pub mod Tests
use Prim.Native.String.{◌++◌}
use scouting_app.Base.{ℕ, suc, ◌+◌, String, List, [], ◌∷◌, Option, none, some, ltb, if◌then◌else◌}
use scouting_app.Base.Int.{ℤ, pos, negsuc}
use scouting_app.Text.{after_prefix}
use scouting_app.Text.Decimal.{itoa, atoi, wrap_int}

abbrev pub tent_name_prefix : String
tent_name_prefix = "Tent "

abbrev pub cooking_patrol_adults_name : String
cooking_patrol_adults_name = "Adults"

abbrev pub cooking_patrol_youth_name_prefix : String
cooking_patrol_youth_name_prefix = "Cooking "

abbrev number_after : Option String → Option ℤ
number_after none = none
number_after (some digits) = atoi digits

unfoldable pub tent_next_name : ℤ → String
tent_next_name n = tent_name_prefix ++ itoa n

unfoldable pub tent_number : String → Option ℤ
tent_number name = number_after (after_prefix tent_name_prefix name)

unfoldable pub cooking_patrol_next_name : ℤ → String
cooking_patrol_next_name n = cooking_patrol_youth_name_prefix ++ itoa n

unfoldable pub cooking_patrol_number : String → Option ℤ
cooking_patrol_number name = number_after (after_prefix cooking_patrol_youth_name_prefix name)

-- if n, ok := …; ok && n > highest { highest = n }
abbrev higher : ℕ → Option ℤ → ℕ
higher highest none = highest
higher highest (some (pos n)) = if ltb highest n then n else highest
higher highest (some (negsuc n)) = highest

-- The loop over the names, from the highest number so far.
unfoldable pub highest_number : (String → Option ℤ) → ℕ → List String → ℕ
highest_number number highest [] = highest
highest_number number highest (name ∷ names) =
    highest_number number (higher highest (number name)) names

-- highest + 1, as an int
abbrev pub next_number : (String → Option ℤ) → List String → ℤ
next_number number names = wrap_int (highest_number number 0 names + 1)
