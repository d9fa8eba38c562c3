-- ===== src/Views.antt =====
-- The data that the event pages of internal/api/events.go show, and the functions that make it from
-- the rows: splitAttendeeVMs and what it calls, computeDriverInfo, isAttending, cookingTargets,
-- formatCost and the labels of the tenting tab. `sort.Slice` is a stable sort here: it leaves the
-- order of entries with one name open.
use scouting_app.Base.{
  ℕ, zero, suc, ◌+◌, ◌-◌, ◌/◌, ◌%◌, String, Bool, true, false, not, ◌&&◌, ◌||◌, List, [], ◌∷◌, ◌==◌,
  map, order_by, leb, ltb, nat_eq, if◌then◌else◌,
}
use Prim.Native.String.{◌++◌}
use scouting_app.Base.Int.{ℤ, pos, negsuc}
use scouting_app.Text.{str_le}
use scouting_app.Text.Decimal.{format_nat, itoa}
use scouting_app.Calendar.{Time}
use scouting_app.Profile.{Profile, youth, member_type_eq, display_name}
use scouting_app.Event.{
  Responsibility, spl, coordinator, medical_officer, DriverResponsibility, ResponsibilityAssignment,
  SeatbeltSummary, CookingPatrol, Tent,
}
use scouting_app.Tenting.{age_whole_years}

pub record ProfileSignUp : Type 0 where
  pub profile_id : String
  pub profile_name : String
  pub is_attending : Bool

pub record AttendeeView : Type 0 where
  pub profile_id : String
  pub profile_name : String
  pub is_driver : Bool
  pub seatbelt_count : ℤ
  pub is_spl : Bool
  pub is_coordinator : Bool
  pub is_medical_officer : Bool
  pub is_signed_up : Bool

pub record SignupSection : Type 0 where
  pub event_id : String
  pub is_past : Bool
  pub profiles : List ProfileSignUp

pub record AttendeeList : Type 0 where
  pub event_id : String
  pub is_past : Bool
  pub is_admin : Bool
  pub youth_attendees : List AttendeeView
  pub youth_count : ℕ
  pub adult_attendees : List AttendeeView
  pub adult_count : ℕ
  pub attendee_count : ℕ

-- cookingPatrolTargetVM and tentTargetVM
pub record TargetView : Type 0 where
  pub id : String
  pub name : String

pub record CookingMemberView : Type 0 where
  pub profile_id : String
  pub profile_name : String
  pub is_cook : Bool

pub record CookingPatrolView : Type 0 where
  pub id : String
  pub name : String
  pub is_adult : Bool
  pub members : List CookingMemberView
  pub move_targets : List TargetView

pub record CookingUnassignedView : Type 0 where
  pub profile_id : String
  pub profile_name : String
  pub is_adult : Bool
  pub targets : List TargetView

pub record CookingSection : Type 0 where
  pub event_id : String
  pub is_past : Bool
  pub is_admin : Bool
  pub enabled : Bool
  pub youth_patrols : List CookingPatrolView
  pub adult_patrols : List CookingPatrolView
  pub unassigned_youth : List CookingUnassignedView
  pub unassigned_adults : List CookingUnassignedView

pub record TentMemberView : Type 0 where
  pub profile_id : String
  pub profile_name : String
  pub birthdate : String
  pub age : String
  pub move_targets : List TargetView

pub record TentView : Type 0 where
  pub id : String
  pub name : String
  pub needs_scout : Bool
  pub alone : Bool
  pub members : List TentMemberView

pub record TentUnassignedView : Type 0 where
  pub profile_id : String
  pub profile_name : String
  pub birthdate : String
  pub age : String
  pub targets : List TargetView

pub record TentingSection : Type 0 where
  pub event_id : String
  pub is_past : Bool
  pub is_admin : Bool
  pub tents : List TentView
  pub unassigned_youth : List TentUnassignedView

pub record DriversSection : Type 0 where
  pub event_id : String
  pub is_past : Bool
  pub profile_id : String
  pub is_admin : Bool
  pub is_signed_up : Bool
  pub is_driver : Bool
  pub seatbelt_count : ℤ
  pub drivers : List DriverResponsibility
  pub summary : SeatbeltSummary

unfoldable pub compute_driver_info : String → List DriverResponsibility → Bool × ℤ
compute_driver_info profile_id [] = (false, pos 0)
compute_driver_info profile_id (d ∷ drivers) =
    let rest = compute_driver_info profile_id drivers in
    if d.profile_id == profile_id then (true, d.seatbelt_count) else rest

unfoldable pub is_attending : String → List Profile → Bool
is_attending profile_id [] = false
is_attending profile_id (a ∷ attendees) = a.id == profile_id || is_attending profile_id attendees

-- switch r.Responsibility
mark_responsibility : Responsibility → AttendeeView → AttendeeView
mark_responsibility r v =
    if r == spl
    then record v { is_spl = true }
    else if r == coordinator
    then record v { is_coordinator = true }
    else if r == medical_officer
    then record v { is_medical_officer = true }
    else v

unfoldable pub with_responsibilities : List ResponsibilityAssignment → AttendeeView → AttendeeView
unfolding mark_responsibility
with_responsibilities [] v = v
with_responsibilities (r ∷ rs) v =
    with_responsibilities rs
      (if v.profile_id == r.profile_id then mark_responsibility r.responsibility v else v)

unfoldable pub enrich_with_responsibilities :
    List ResponsibilityAssignment → List AttendeeView → List AttendeeView
unfolding with_responsibilities
enrich_with_responsibilities rs vs = map (with_responsibilities rs) vs

-- The loop breaks at the first driver row of the profile.
unfoldable pub with_driver : List DriverResponsibility → AttendeeView → AttendeeView
with_driver [] v = v
with_driver (d ∷ drivers) v =
    let rest = with_driver drivers v in
    if v.profile_id == d.profile_id
    then record v { is_driver = true; seatbelt_count = d.seatbelt_count }
    else rest

unfoldable pub enrich_with_drivers :
    List DriverResponsibility → List AttendeeView → List AttendeeView
unfolding with_driver
enrich_with_drivers drivers vs = map (with_driver drivers) vs

unfoldable pub view_of_profile : Profile → AttendeeView
unfolding display_name
view_of_profile p = record {
  profile_id = p.id;
  profile_name = display_name p;
  is_driver = false;
  seatbelt_count = pos 0;
  is_spl = false;
  is_coordinator = false;
  is_medical_officer = false;
  is_signed_up = true;
}

-- The loop over the attendees: the youths' views and the others'.
unfoldable pub divide : List Profile → List AttendeeView × List AttendeeView
unfolding view_of_profile
divide [] = ([], [])
divide (p ∷ attendees) =
    let (youths, adults) = divide attendees in
    if member_type_eq p.member_type youth
    then (view_of_profile p ∷ youths, adults)
    else (youths, view_of_profile p ∷ adults)

abbrev pub name_le : AttendeeView → AttendeeView → Bool
name_le a b = str_le a.profile_name b.profile_name

unfoldable pub split_attendees :
    List Profile
    → List DriverResponsibility
    → List ResponsibilityAssignment
    → List AttendeeView × List AttendeeView
unfolding divide enrich_with_drivers enrich_with_responsibilities
split_attendees attendees drivers rs =
    let (youths, adults) = divide attendees in
    (
      order_by name_le (enrich_with_responsibilities rs (enrich_with_drivers drivers youths)),
      order_by name_le (enrich_with_responsibilities rs (enrich_with_drivers drivers adults)),
    )

unfoldable pub cooking_targets : List CookingPatrol → String → Bool → List TargetView
cooking_targets [] exclude_id is_adult = []
cooking_targets (p ∷ patrols) exclude_id is_adult =
    let rest = cooking_targets patrols exclude_id is_adult in
    if p.id == exclude_id || (is_adult && not p.is_adult)
    then rest
    else record { id = p.id; name = p.name } ∷ rest

unfoldable pub tent_targets : List Tent → List TargetView
tent_targets [] = []
tent_targets (t ∷ tents) = record { id = t.id; name = t.name } ∷ tent_targets tents

-- %02d, of a number below 100.
abbrev two_digits : ℕ → String
two_digits n = if ltb n 10 then "0" ++ format_nat n else format_nat n

-- / and % of Go round towards zero, so a negative cost has the sign in both parts, and %02d counts
-- the sign as one of the two places.
unfoldable pub format_cost : ℤ → String
unfolding format_nat
format_cost (pos n) =
    if nat_eq n 0 then "0.00" else format_nat (n / 100) ++ ("." ++ two_digits (n % 100))
format_cost (negsuc n) =
    let dollars = (n + 1) / 100 in
    let cents = (n + 1) % 100 in
    (if nat_eq dollars 0 then "0" else "-" ++ format_nat dollars)
    ++ ("." ++ (if nat_eq cents 0 then "00" else "-" ++ format_nat cents))

-- The zero time has the year 1.
unfoldable pub missing_birthdate : Time → Bool
missing_birthdate t = leb t.year 1970

abbrev month_names : List String
month_names =
    "Jan" ∷ "Feb" ∷ "Mar" ∷ "Apr" ∷ "May" ∷ "Jun" ∷ "Jul" ∷ "Aug" ∷ "Sep" ∷ "Oct" ∷ "Nov" ∷ "Dec"
    ∷ []

abbrev nth_name : List String → ℕ → String
nth_name [] n = ""
nth_name (s ∷ names) zero = s
nth_name (s ∷ names) (suc n) = nth_name names n

-- Time.Format of "Jan 2, 2006".
unfoldable pub format_date : Time → String
unfolding format_nat
format_date t =
    nth_name month_names (t.month - 1) ++ (" " ++ (format_nat t.day ++ (", " ++ format_nat t.year)))

unfoldable pub tent_birthdate_label : Time → String
unfolding missing_birthdate format_date
tent_birthdate_label t = if missing_birthdate t then "—" else format_date t

unfoldable pub tent_age_label : Time → Time → String
unfolding missing_birthdate age_whole_years itoa
tent_age_label birthdate at =
    if missing_birthdate birthdate then "—" else itoa (age_whole_years birthdate at)
