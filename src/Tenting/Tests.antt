-- ===== src/Tenting/Tests.antt =====
-- The tenting rules' theorems at work on two scouts.
use scouting_app.Base.{
  ℕ, suc, ◌≤◌, String, ◌≡◌, ◌≢◌, refl, ◌↔◌, inl, true, false, List, [], ◌∷◌, ◌==◌, eq_iff, length,
  where_, AllPairs, arith,
}
use scouting_app.Base.Int.{pos}
use scouting_app.Calendar.{Time, before}
use scouting_app.Examples.{date}
use scouting_app.Tenting.{
  ApprovedParentLink, TentScout, age_whole_years, blocking_violations, is_sibling, normalize_pair,
  sibling_pairs, validate_tent,
}
use scouting_app.Tenting.Soundness.{
  MayShare, blocking_violations-nil, validate_tent-nil, blocking_violations-where,
}
use scouting_app.Tenting.Age.{age_whole_years-birthdays, birthday, days_in_month, DateLe, DateLt}
use scouting_app.Tenting.Siblings.{linked, sibling_pairs-lem}

abbrev start : Time
start = date 9000 2026 5 1

abbrev scout : String → Time → TentScout
scout id birthdate = record { id = id; name = id; gender = "male"; birthdate = birthdate }

abbrev two : List TentScout
two = scout "y" (date 3000 2012 3 4) ∷ scout "z" (date 3100 2013 7 4) ∷ []

blocking_violations-nil_example :
    (blocking_violations two start (pos 2) [] ≡ []) ↔ AllPairs (MayShare start (pos 2) []) two
blocking_violations-nil_example = blocking_violations-nil start (pos 2) [] two

validate_tent-nil_example :
    (validate_tent two start (pos 2) [] ≡ [])
    ↔ ((length two ≢ 1) × AllPairs (MayShare start (pos 2) []) two)
validate_tent-nil_example = validate_tent-nil start (pos 2) [] two

no_violation : blocking_violations two start (pos 2) [] ≡ []
unfolding blocking_violations
no_violation = refl

blocking_violations-where_example :
    blocking_violations (where_ (λ s. s.id == "y") two) start (pos 2) [] ≡ []
blocking_violations-where_example =
    blocking_violations-where start (pos 2) [] (λ s. s.id == "y") two no_violation

abbrev leap_born : Time
leap_born = date 1000 2012 2 29

abbrev last_of_february : Time
last_of_february = date 9000 2026 2 28

leap_born-DateLe : DateLe leap_born last_of_february
leap_born-DateLe = inl (omega arith)

leap_born-before : before last_of_february leap_born ≡ false
leap_born-before = refl

leap_born-days_in_month : leap_born.day ≤ days_in_month leap_born.year leap_born.month
leap_born-days_in_month = omega arith

age_whole_years-birthdays_example :
    (n : ℕ) × (age_whole_years leap_born last_of_february ≡ pos n)
    × DateLe (birthday leap_born n) last_of_february
    × DateLt last_of_february (birthday leap_born (suc n))
age_whole_years-birthdays_example =
    age_whole_years-birthdays leap_born last_of_february leap_born-days_in_month leap_born-before
      leap_born-DateLe

abbrev links : List ApprovedParentLink
links =
    record { parent_profile_id = "p"; youth_profile_id = "y" }
    ∷ record { parent_profile_id = "p"; youth_profile_id = "z" }
    ∷ []

abbrev z : String
z = "z"

abbrev y : String
y = "y"

different : z ≢ y
different h = ground (arith, (eq_iff z y).1 h)

sibling_pairs-lem_example :
    (is_sibling (sibling_pairs links) (normalize_pair "z" "y") ≡ true)
    ↔ ((parent : String) × (linked links parent "z" ≡ true) × (linked links parent "y" ≡ true))
sibling_pairs-lem_example = sibling_pairs-lem links z y different
