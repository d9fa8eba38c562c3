-- ===== src/Pages.antt =====
-- The data of the pages of internal/api/family_connections.go, onboarding.go and admin_settings.go.
use scouting_app.Base.{ℕ, String, Bool, List}
use scouting_app.Profile.{LinkStatus}

pub record ConnectionView : Type 0 where
  pub other_profile_id : String
  pub other_name : String
  pub other_inactive : Bool
  pub status : LinkStatus
  pub requested_at : String

pub record ConnectionsPage : Type 0 where
  pub title : String
  pub is_admin : Bool
  pub profile_id : String
  pub connections : List ConnectionView
  pub is_adult : Bool
  pub error : String
  pub success : String

pub record TimezoneOption : Type 0 where
  pub value : String
  pub label : String
  pub selected : Bool

-- The values of the onboarding cookie; a missing one is "".
pub record Answers : Type 0 where
  pub first_name : String
  pub last_name : String
  pub email : String
  pub bsa_id : String
  pub unit_type : String
  pub unit_number : String
  pub org_guid : String
  pub timezone : String

pub record OnboardingForm : Type 0 where
  pub step : ℕ
  pub total_steps : ℕ
  pub answers : Answers
  pub timezones : List TimezoneOption
  pub error : String

pub record AdminPerms : Type 0 where
  pub can_access_roster : Bool
  pub can_access_connections : Bool
  pub can_access_sync : Bool
  pub can_access_rbac : Bool
  pub can_access_settings : Bool

pub record SettingsPage : Type 0 where
  pub title : String
  pub unit_type : String
  pub unit_number : String
  pub org_guid : String
  pub timezone : String
  pub timezones : List TimezoneOption
  pub smtp_host : String
  pub smtp_port : String
  pub smtp_user : String
  pub smtp_from : String
  pub max_tent_age_gap : String
  pub flash_success : String
  pub error : String
  pub perms : AdminPerms
