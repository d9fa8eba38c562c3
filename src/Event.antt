-- ===== src/Event.antt =====
-- The types of internal/domain/event: event.go, tent.go and cooking_patrol.go, and the rows that
-- the tables of the events keep (migrations/).
use scouting_app.Base.{ℕ, String, Bool, ◌||◌, List, Option, ◌==◌}
use scouting_app.Base.Int.{ℤ}
use scouting_app.Calendar.{Time}

pub record Event : Type 0 where
  pub id : String
  pub title : String
  pub description : String
  pub location : String
  pub start_time : Time
  pub end_time : Time
  pub cost_cents : ℤ
  pub type : String
  pub cooking_enabled : Bool
  pub tenting_enabled : Bool
  pub drivers_enabled : Bool
  pub created_at : ℕ
  pub updated_at : ℕ

-- A responsibility is any text, since its CHECK constraint is dropped; four are named.
abbrev pub Responsibility : Type 0
Responsibility = String

abbrev pub driver : Responsibility
driver = "driver"

abbrev pub spl : Responsibility
spl = "spl"

abbrev pub coordinator : Responsibility
coordinator = "coordinator"

abbrev pub medical_officer : Responsibility
medical_officer = "medical_officer"

unfoldable pub is_singleton : Responsibility → Bool
is_singleton r = r == spl || (r == coordinator || r == medical_officer)

pub data AttendeeStatus : Type 0 where
  signed_up canceled : AttendeeStatus

-- event_attendees
pub record Attendee : Type 0 where
  pub event_id : String
  pub profile_id : String
  pub status : AttendeeStatus

-- event_attendee_responsibilities
pub record Assignment : Type 0 where
  pub event_id : String
  pub profile_id : String
  pub responsibility : Responsibility
  pub seatbelt_count : Option ℤ
  pub created_at : ℕ
  pub updated_at : ℕ

-- event_cooking_patrols
pub record PatrolRow : Type 0 where
  pub id : String
  pub event_id : String
  pub name : String
  pub is_adult : Bool
  pub created_at : ℕ

-- event_cooking_patrol_members
pub record PatrolMemberRow : Type 0 where
  pub event_id : String
  pub profile_id : String
  pub patrol_id : String
  pub is_cook : Bool
  pub created_at : ℕ

-- event_tents
pub record TentRow : Type 0 where
  pub id : String
  pub event_id : String
  pub name : String
  pub created_at : ℕ

-- event_tent_members
pub record TentMemberRow : Type 0 where
  pub event_id : String
  pub profile_id : String
  pub tent_id : String
  pub created_at : ℕ

pub record TentMember : Type 0 where
  pub event_id : String
  pub tent_id : String
  pub profile_id : String
  pub profile_name : String
  pub created_at : ℕ

pub record Tent : Type 0 where
  pub id : String
  pub event_id : String
  pub name : String
  pub created_at : ℕ
  pub members : List TentMember

pub record CookingPatrolMember : Type 0 where
  pub event_id : String
  pub patrol_id : String
  pub profile_id : String
  pub profile_name : String
  pub is_cook : Bool
  pub created_at : ℕ

pub record CookingPatrol : Type 0 where
  pub id : String
  pub event_id : String
  pub name : String
  pub is_adult : Bool
  pub created_at : ℕ
  pub members : List CookingPatrolMember

pub record DriverResponsibility : Type 0 where
  pub event_id : String
  pub profile_id : String
  pub profile_name : String
  pub seatbelt_count : ℤ
  pub created_at : ℕ
  pub updated_at : ℕ

pub record ResponsibilityAssignment : Type 0 where
  pub event_id : String
  pub profile_id : String
  pub profile_name : String
  pub responsibility : Responsibility
  pub created_at : ℕ
  pub updated_at : ℕ

pub record ResponsibilityHolder : Type 0 where
  pub profile_id : String
  pub profile_name : String

pub record SeatbeltSummary : Type 0 where
  pub total_seatbelts : ℤ
  pub required_seatbelts : ℕ
  pub available : ℤ
  pub sufficient : Bool
