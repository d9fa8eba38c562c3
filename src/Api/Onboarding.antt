-- ===== src/Api/Onboarding.antt =====
-- The handlers of internal/api/onboarding.go. The cookie named "onboarding" holds the answers until
-- the last step; what the cookie store gives and saves, and the hasher, are arguments.
pub mod Steps
pub mod Storing
pub mod SetUp
pub mod Tests
use scouting_app.Base.{
  ℕ, String, Bool, true, false, ◌||◌, not, List, [], ◌∷◌, ◌++◌, map, Option, none, some, ◌==◌, ltb,
  if◌then◌else◌,
}
use scouting_app.Text.Casing.{to_lower, trim_space, byte_length}
use scouting_app.Profile.{Profile, User, adult, active}
use scouting_app.Db.{Result, ok, err, Db, pure, attempt, ◌>>=◌}
use scouting_app.Storage.Profiles.{create_user, create_profile}
use scouting_app.Storage.Rbac.{get_role_by_name, assign_role_to_user}
use scouting_app.AppConfig.{
  onboarding_complete, scoutbook_org_guid, unit_type, unit_number, default_timezone, get_config,
  set_config,
}
use scouting_app.Pages.{Answers, OnboardingForm, TimezoneOption}
use scouting_app.Api.{
  Write, Handler, view, page, onboarding_page, save_onboarding, clear_onboarding, internal_error,
  redirect_to, on_error,
}
use scouting_app.Api.EventForms.{zero_time}

abbrev pub no_answers : Answers
no_answers = record {
  first_name = "";
  last_name = "";
  email = "";
  bsa_id = "";
  unit_type = "";
  unit_number = "";
  org_guid = "";
  timezone = "";
}

abbrev pub common_timezones : List (String × String)
common_timezones =
    ("America/New_York", "Eastern Time (US & Canada)")
    ∷ ("America/Chicago", "Central Time (US & Canada)")
    ∷ ("America/Denver", "Mountain Time (US & Canada)")
    ∷ ("America/Phoenix", "Arizona (no DST)")
    ∷ ("America/Los_Angeles", "Pacific Time (US & Canada)")
    ∷ ("America/Anchorage", "Alaska")
    ∷ ("Pacific/Honolulu", "Hawaii (no DST)")
    ∷ ("America/St_Johns", "Newfoundland")
    ∷ ("America/Halifax", "Atlantic Time (Canada)")
    ∷ ("Europe/London", "London (GMT/BST)")
    ∷ ("Europe/Berlin", "Berlin (CET/CEST)")
    ∷ ("UTC", "UTC (no DST)")
    ∷ []

unfoldable pub timezones_with_selected : String → List TimezoneOption
timezones_with_selected selected =
    map (λ t. record { value = t.0; label = t.1; selected = t.0 == selected }) common_timezones

-- The page of a step out of four.
abbrev pub form_page : String → ℕ → Answers → List TimezoneOption → String → List Write
form_page name step answers timezones error =
    view (
      onboarding_page name (record {
        step = step;
        total_steps = 4;
        answers = answers;
        timezones = timezones;
        error = error;
      }))
    ∷ []

abbrev pub start_over : List Write
start_over = redirect_to "/onboard"

unfoldable pub load_form : Result Answers → Answers
load_form (err e) = no_answers
load_form (ok a) = a

-- What the pages of later steps ask for.
abbrev pub lacks_unit : Answers → Bool
lacks_unit a = a.first_name == "" || a.unit_type == ""

abbrev pub lacks_timezone : Answers → Bool
lacks_timezone a = lacks_unit a || a.timezone == ""

-- Why a password is not taken.
unfoldable pub password_refusal : String → String → Option String
unfolding byte_length
password_refusal password confirmation =
    if password == ""
    then some "Please enter a password."
    else if ltb (byte_length password) 8
    then some "Password must be at least 8 characters."
    else if not (password == confirmation)
    then some "Passwords do not match."
    else none

-- The profile of whoever sets the app up.
unfoldable pub first_profile : Answers → String → Profile
first_profile a user_id = record {
  id = "";
  bsa_id = a.bsa_id;
  first_name = a.first_name;
  last_name = a.last_name;
  nickname = "";
  gender = "";
  email = a.email;
  phone = "";
  birthdate = zero_time;
  member_type = adult;
  status = active;
  user_id = some user_id;
  positions = "";
  created_at = 0;
  updated_at = 0;
}

-- The calls of Set one after the other.
unfoldable pub set_settings : List (String × String) → List Write → Handler → Handler
unfolding on_error
set_settings [] refused next = next
set_settings ((key, value) ∷ rest) refused next =
    on_error (set_config key value) refused (λ done. set_settings rest refused next)

module _ (cookie : Result Answers) (save : Answers → Bool) where
  unfoldable pub save_form : Answers → List Write
  save_form a = elim cookie [ err e ↦ [] | ok old ↦ if save a then save_onboarding a ∷ [] else [] ]

  -- The cookie is sent with a negative age.
  unfoldable pub clear_form : List Write
  clear_form = elim cookie [ err e ↦ [] | ok old ↦ if save old then clear_onboarding ∷ [] else [] ]

  unfoldable pub welcome_page : Handler
  unfolding clear_form
  welcome_page = pure (
      clear_form
      ++ view (
          onboarding_page "welcome" (record {
            step = 0;
            total_steps = 0;
            answers = no_answers;
            timezones = [];
            error = "";
          }))
        ∷ [])

  unfoldable pub personal_page : Handler
  personal_page = pure (form_page "personal" 1 no_answers [] "")

  unfoldable pub personal : String → String → String → String → Handler
  unfolding save_form to_lower trim_space
  personal first_name last_name email bsa_id =
      let a = record no_answers {
        first_name = trim_space first_name;
        last_name = trim_space last_name;
        email = trim_space (to_lower email);
        bsa_id = trim_space bsa_id;
      } in
      if a.first_name == "" || (a.last_name == "" || (a.email == "" || a.bsa_id == ""))
      then pure (form_page "personal" 1 a [] "All fields are required.")
      else pure (save_form a ++ redirect_to "/onboard/unit")

  unfoldable pub unit_page : Handler
  unfolding load_form
  unit_page =
      let a = load_form cookie in
      if a.first_name == "" then pure start_over else pure (form_page "unit" 2 a [] "")

  -- The timezone that was there is dropped.
  unfoldable pub unit : String → String → String → Handler
  unfolding save_form load_form trim_space
  unit type number guid =
      let prev = load_form cookie in
      let a = record prev {
        unit_type = trim_space type;
        unit_number = trim_space number;
        org_guid = trim_space guid;
        timezone = "";
      } in
      if prev.first_name == ""
      then pure start_over
      else if a.unit_type == "" || (a.unit_number == "" || a.org_guid == "")
      then pure (form_page "unit" 2 a [] "All fields are required.")
      else pure (save_form a ++ redirect_to "/onboard/timezone")

  unfoldable pub timezone_page : Handler
  unfolding load_form timezones_with_selected
  timezone_page =
      let a = load_form cookie in
      if lacks_unit a
      then pure start_over
      else pure (form_page "timezone" 3 a (timezones_with_selected a.timezone) "")

  unfoldable pub timezone : String → Handler
  unfolding save_form load_form trim_space timezones_with_selected
  timezone field =
      let prev = load_form cookie in
      let a = record prev { timezone = trim_space field } in
      if lacks_unit prev
      then pure start_over
      else if a.timezone == ""
      then pure (
          form_page "timezone" 3 a (timezones_with_selected a.timezone) "Please select a timezone.")
      else pure (save_form a ++ redirect_to "/onboard/password")

  unfoldable pub password_page : Handler
  unfolding load_form
  password_page =
      let a = load_form cookie in
      if lacks_timezone a then pure start_over else pure (form_page "password" 4 a [] "")

  -- http.Error after clearForm
  unfoldable pub cleared_error : List Write
  unfolding clear_form
  cleared_error = clear_form ++ internal_error

  unfoldable pub settings_of : Answers → List (String × String)
  settings_of a =
      (scoutbook_org_guid, a.org_guid)
      ∷ (unit_type, a.unit_type)
      ∷ (unit_number, a.unit_number)
      ∷ (default_timezone, a.timezone)
      ∷ (onboarding_complete, "true")
      ∷ []

  unfoldable pub set_up : Answers → String → Handler
  unfolding on_error cleared_error set_settings settings_of first_profile
  set_up a hash =
      on_error (create_user (record { id = ""; email = ""; password_hash = hash; created_at = 0 }))
        cleared_error
        (λ u. on_error (get_role_by_name "admin") cleared_error (λ role.
          on_error (assign_role_to_user u.id role.id) cleared_error (λ linked.
            on_error (create_profile (first_profile a u.id)) cleared_error (λ p.
              set_settings (settings_of a) cleared_error
                (pure (clear_form ++ redirect_to "/onboard/complete"))))))

  unfoldable pub hash_then_set_up : Answers → Option String → Handler
  unfolding set_up cleared_error
  hash_then_set_up a none = pure cleared_error
  hash_then_set_up a (some hash) = set_up a hash

  unfoldable pub password : (String → Option String) → String → String → Handler
  unfolding load_form hash_then_set_up password_refusal
  password hash_password field confirmation =
      let a = load_form cookie in
      if lacks_timezone a then pure start_over else elim (password_refusal field confirmation) [
        | some message ↦ pure (form_page "password" 4 a [] message)
        | none ↦ hash_then_set_up a (hash_password field)
      ]

unfoldable pub complete_page_handler : Handler
complete_page_handler = pure (view (page "onboarding_complete" "") ∷ [])

unfoldable pub is_complete : Result String → Bool
is_complete (err e) = false
is_complete (ok complete) = complete == "true"

unfoldable pub is_onboarded : Db Bool
unfolding is_complete
is_onboarded = do complete ← attempt (get_config onboarding_complete); pure (is_complete complete)

unfoldable pub redirect_if_onboarded : Handler → Handler
unfolding is_onboarded
redirect_if_onboarded next = do
  onboarded ← is_onboarded
  if onboarded then pure (redirect_to "/login") else next
