-- ===== src/Examples.antt =====
-- Sample rows and worlds for the tests.
use scouting_app.Base.{ℕ, String, Bool, true, false, [], ◌∷◌, none}
use scouting_app.Base.Int.{pos}
use scouting_app.Calendar.{Time}
use scouting_app.Profile.{Profile, MemberType, adult, youth, active}
use scouting_app.Event.{
  Event, Attendee, Assignment, signed_up, PatrolRow, PatrolMemberRow, TentRow, TentMemberRow,
}
use scouting_app.Db.{World, Tables}

abbrev pub date : ℕ → ℕ → ℕ → ℕ → Time
date instant year month day = record { instant = instant; year = year; month = month; day = day }

abbrev pub profile : String → MemberType → Time → Profile
profile id member_type birthdate = record {
  id = id;
  bsa_id = "";
  first_name = "A";
  last_name = "B";
  nickname = "";
  gender = "male";
  email = "";
  phone = "";
  birthdate = birthdate;
  member_type = member_type;
  status = active;
  user_id = none;
  positions = "";
  created_at = 0;
  updated_at = 0;
}

abbrev pub campout : String → Bool → Event
campout id cooking_enabled = record {
  id = id;
  title = "";
  description = "";
  location = "";
  start_time = date 5000 2026 5 1;
  end_time = date 6000 2026 5 2;
  cost_cents = pos 0;
  type = "campout";
  cooking_enabled = cooking_enabled;
  tenting_enabled = true;
  drivers_enabled = true;
  created_at = 0;
  updated_at = 0;
}

abbrev pub attendee : String → String → Attendee
attendee event_id profile_id = record {
  event_id = event_id;
  profile_id = profile_id;
  status = signed_up;
}

abbrev pub assignment : String → String → String → Assignment
assignment event_id profile_id responsibility = record {
  event_id = event_id;
  profile_id = profile_id;
  responsibility = responsibility;
  seatbelt_count = none;
  created_at = 0;
  updated_at = 0;
}

abbrev pub patrol : String → String → String → Bool → PatrolRow
patrol id event_id name is_adult = record {
  id = id;
  event_id = event_id;
  name = name;
  is_adult = is_adult;
  created_at = 0;
}

abbrev pub patrol_member : String → String → String → Bool → PatrolMemberRow
patrol_member event_id profile_id patrol_id is_cook = record {
  event_id = event_id;
  profile_id = profile_id;
  patrol_id = patrol_id;
  is_cook = is_cook;
  created_at = 0;
}

abbrev pub tent_row : String → String → String → TentRow
tent_row id event_id name = record { id = id; event_id = event_id; name = name; created_at = 0 }

abbrev pub tent_member : String → String → String → TentMemberRow
tent_member event_id profile_id tent_id = record {
  event_id = event_id;
  profile_id = profile_id;
  tent_id = tent_id;
  created_at = 0;
}

-- One campout "e" with the adult "a" and the youths "y" and "z", a tent "t" and a patrol "k".
abbrev pub camp : Tables
camp = record {
  profiles =
      profile "a" adult (date 100 1980 1 1)
      ∷ profile "y" youth (date 3000 2012 3 4)
      ∷ profile "z" youth (date 3100 2013 3 4)
      ∷ [];
  users = [];
  roles = [];
  permissions = [];
  user_roles = [];
  role_permissions = [];
  otp_codes = [];
  links = [];
  events = campout "e" false ∷ [];
  attendees = attendee "e" "a" ∷ attendee "e" "y" ∷ attendee "e" "z" ∷ [];
  assignments = assignment "e" "y" "spl" ∷ [];
  patrols = patrol "k" "e" "Cooking 1" false ∷ [];
  patrol_members = patrol_member "e" "y" "k" true ∷ patrol_member "e" "z" "k" false ∷ [];
  tents = tent_row "t" "e" "Tent 1" ∷ [];
  tent_members = tent_member "e" "y" "t" ∷ [];
  app_config = [];
}

-- No statement fails.
abbrev pub world : Tables → World
world tables = record {
  tables = tables;
  fault = λ n. false;
  count = 0;
  uuid = λ n. "new";
  uuids = 0;
  now = 5000;
}
