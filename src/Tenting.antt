-- ===== src/Tenting.antt =====
-- The tenting rules: internal/domain/event/tent_rules.go. A Go map used as a set is the list of
-- its keys; the order in which the code ranges over such a map does not show in any result.
pub mod Age
pub mod Siblings
pub mod Soundness
pub mod Tests
use scouting_app.Base.{
  ℕ, suc, ◌-◌, String, Bool, true, false, not, ◌&&◌, List, [], ◌∷◌, ◌++◌, map, Option, none, some,
  ◌==◌, ltb, leb, nat_eq, length, any, if◌then◌else◌,
}
use scouting_app.Base.Int.{ℤ, pos, sub_ℕ, ◌-ℤ◌, ltb_ℤ, leb_ℤ}
use scouting_app.Text.{concat, has_key, join, str_le}
use scouting_app.Text.Decimal.{itoa}
use scouting_app.Calendar.{Time, before, february, is_leap_year}

pub record ApprovedParentLink : Type 0 where
  pub parent_profile_id : String
  pub youth_profile_id : String

pub record ScoutPair : Type 0 where
  pub a : String
  pub b : String

unfoldable pub normalize_pair : String → String → ScoutPair
normalize_pair a b = if str_le a b then record { a = a; b = b } else record { a = b; b = a }

abbrev pub pair_eq : ScoutPair → ScoutPair → Bool
pair_eq p q = p.a == q.a && p.b == q.b

-- siblings[p]
unfoldable pub is_sibling : List ScoutPair → ScoutPair → Bool
is_sibling siblings p = any (pair_eq p) siblings

-- parentToYouth[parent] = append(parentToYouth[parent], youth)
append_youth : String → String → List (String × List String) → List (String × List String)
append_youth parent youth [] = (parent, youth ∷ []) ∷ []
append_youth parent youth ((p, youths) ∷ groups) =
    let rest = append_youth parent youth groups in
    if p == parent then (p, youths ++ youth ∷ []) ∷ groups else (p, youths) ∷ rest

parent_to_youth :
    List (String × List String) → List ApprovedParentLink → List (String × List String)
parent_to_youth groups [] = groups
parent_to_youth groups (l ∷ links) =
    parent_to_youth (append_youth l.parent_profile_id l.youth_profile_id groups) links

pairs_with : String → List String → List ScoutPair
pairs_with y [] = []
pairs_with y (z ∷ zs) = normalize_pair y z ∷ pairs_with y zs

youth_pairs : List String → List ScoutPair
youth_pairs [] = []
youth_pairs (y ∷ ys) = pairs_with y ys ++ youth_pairs ys

group_pairs : List (String × List String) → List ScoutPair
group_pairs [] = []
group_pairs ((p, youths) ∷ groups) = youth_pairs youths ++ group_pairs groups

unfoldable pub sibling_pairs : List ApprovedParentLink → List ScoutPair
unfolding group_pairs parent_to_youth append_youth youth_pairs pairs_with
sibling_pairs links = group_pairs (parent_to_youth [] links)

-- The day on which a birthday falls in a year.
unfoldable pub birthday_day : Time → ℕ → ℕ
birthday_day birthdate year =
    if nat_eq birthdate.month february && nat_eq birthdate.day 29 && not (is_leap_year year)
    then 28
    else birthdate.day

birthday_passed : Time → Time → Bool
unfolding birthday_day
birthday_passed birthdate at =
    not (ltb at.month birthdate.month)
    && not (nat_eq at.month birthdate.month && ltb at.day (birthday_day birthdate at.year))

unfoldable pub age_whole_years : Time → Time → ℤ
unfolding birthday_passed
age_whole_years birthdate at =
    if before at birthdate
    then pos 0
    else (let years = sub_ℕ at.year birthdate.year in
        if birthday_passed birthdate at then years else years -ℤ pos 1)

pub record TentScout : Type 0 where
  pub id : String
  pub name : String
  pub gender : String
  pub birthdate : Time

pub data ViolationCode : Type 0 where
  never_alone mixed_gender age_gap : ViolationCode

pub record Violation : Type 0 where
  pub code : ViolationCode
  pub message : String

-- genders[s.Gender] = true, for each scout: the keys of the map.
genders : List TentScout → List String
unfolding has_key
genders [] = []
genders (s ∷ scouts) =
    let rest = genders scouts in if has_key s.gender rest then rest else s.gender ∷ rest

abbrev names : List TentScout → List String
names = map (λ s. s.name)

gender_violations : List TentScout → List Violation
unfolding genders
gender_violations scouts =
    if ltb 1 (length (genders scouts))
    then record {
      code = mixed_gender;
      message =
          concat
            ("Mixed-gender tent: " ∷ join ", " (names scouts) ∷ " must share the same gender" ∷ []);
    }
      ∷ []
    else []

age_gap_violation : TentScout → TentScout → ℤ → ℤ → Violation
age_gap_violation older younger diff max_age_gap = record {
  code = age_gap;
  message = concat (
      older.name
      ∷ " is "
      ∷ itoa diff
      ∷ " years older than "
      ∷ younger.name
      ∷ " (max "
      ∷ itoa max_age_gap
      ∷ ")"
      ∷ []);
}

module _ (event_start : Time) (max_age_gap : ℤ) (siblings : List ScoutPair) where
  -- The body of the inner loop.
  pair_violations : TentScout → TentScout → List Violation
  unfolding ◌-ℤ◌
  pair_violations a b =
      let age_a = age_whole_years a.birthdate event_start in
      let age_b = age_whole_years b.birthdate event_start in
      let diff = age_a -ℤ age_b in
      let diff = if ltb_ℤ diff (pos 0) then pos 0 -ℤ diff else diff in
      if is_sibling siblings (normalize_pair a.id b.id)
      then []
      else if leb_ℤ diff max_age_gap
      then []
      else if ltb_ℤ age_a age_b
      then age_gap_violation b a diff max_age_gap ∷ []
      else age_gap_violation a b diff max_age_gap ∷ []

  violations_with : TentScout → List TentScout → List Violation
  violations_with a [] = []
  violations_with a (b ∷ scouts) = pair_violations a b ++ violations_with a scouts

  age_violations : List TentScout → List Violation
  age_violations [] = []
  age_violations (a ∷ scouts) = violations_with a scouts ++ age_violations scouts

  validate_arrangement : List TentScout → Bool → List Violation
  validate_arrangement [] include_alone = []
  validate_arrangement (s ∷ []) include_alone =
      if include_alone
      then record {
        code = never_alone;
        message = concat (s.name ∷ " would sleep alone; every tent needs at least 2 scouts" ∷ []);
      }
        ∷ []
      else []
  validate_arrangement (s ∷ t ∷ scouts) include_alone =
      gender_violations (s ∷ t ∷ scouts) ++ age_violations (s ∷ t ∷ scouts)

unfoldable pub validate_tent : List TentScout → Time → ℤ → List ScoutPair → List Violation
unfolding validate_arrangement gender_violations genders age_violations violations_with
    pair_violations age_gap_violation age_whole_years birthday_passed birthday_day is_sibling
    normalize_pair
validate_tent scouts event_start max_age_gap siblings =
    validate_arrangement event_start max_age_gap siblings scouts true

unfoldable pub blocking_violations : List TentScout → Time → ℤ → List ScoutPair → List Violation
unfolding validate_arrangement gender_violations genders age_violations violations_with
    pair_violations age_gap_violation age_whole_years birthday_passed birthday_day is_sibling
    normalize_pair
blocking_violations scouts event_start max_age_gap siblings =
    validate_arrangement event_start max_age_gap siblings scouts false
