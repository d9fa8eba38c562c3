-- ===== src/Api/Settings.antt =====
-- The handlers of internal/api/admin_settings.go.
pub mod Gap
pub mod Tests
use scouting_app.Base.{
  ℕ, String, Bool, true, false, not, List, [], ◌∷◌, ◌++◌, Option, none, some, ◌==◌, if◌then◌else◌,
}
use scouting_app.Base.Int.{ℤ, pos, negsuc}
use scouting_app.Text.{concat}
use scouting_app.Text.Decimal.{atoi}
use scouting_app.Profile.{User, Profile}
use scouting_app.Db.{Result, ok, err, Db, pure, attempt, ◌>>=◌}
use scouting_app.Storage.Profiles.{get_profile_by_user_id}
use scouting_app.AppConfig.{
  scoutbook_org_guid, unit_type, unit_number, default_timezone, max_tent_age_gap, smtp_host,
  smtp_port, smtp_user, smtp_pass, smtp_from, get_config, get_with_hierarchy,
}
use scouting_app.Auth.{Session, get_authenticated_user}
use scouting_app.Pages.{SettingsPage, AdminPerms}
use scouting_app.Api.{
  Write, Handler, view, status, page, settings_view, send_notification, answer, internal_error,
  on_error, resolve_user,
}
use scouting_app.Api.Onboarding.{timezones_with_selected, set_settings}
use scouting_app.Api.Admin.{no_perms, perms_of}

-- The values of the form; smtp_pass is not shown.
pub record Form : Type 0 where
  pub unit_type : String
  pub unit_number : String
  pub org_guid : String
  pub timezone : String
  pub smtp_host : String
  pub smtp_port : String
  pub smtp_user : String
  pub smtp_pass : String
  pub smtp_from : String
  pub max_tent_age_gap : String

abbrev or_default : String → String → String
or_default default s = if s == "" then default else s

unfoldable pub with_defaults : Form → Form
with_defaults f = record f {
  unit_type = or_default "Troop" f.unit_type;
  timezone = or_default "America/New_York" f.timezone;
  max_tent_age_gap = or_default "2" f.max_tent_age_gap;
}

-- A whole number of years, zero or more.
unfoldable pub is_gap : Option ℤ → Bool
is_gap none = false
is_gap (some (pos n)) = true
is_gap (some (negsuc n)) = false

unfoldable pub settings_page_of : Form → String → String → AdminPerms → SettingsPage
unfolding timezones_with_selected
settings_page_of f flash error perms = record {
  title = "Admin: Settings";
  unit_type = f.unit_type;
  unit_number = f.unit_number;
  org_guid = f.org_guid;
  timezone = f.timezone;
  timezones = timezones_with_selected f.timezone;
  smtp_host = f.smtp_host;
  smtp_port = f.smtp_port;
  smtp_user = f.smtp_user;
  smtp_from = f.smtp_from;
  max_tent_age_gap = f.max_tent_age_gap;
  flash_success = flash;
  error = error;
  perms = perms;
}

-- The calls of Set in their order; an empty password stays as it was.
unfoldable pub settings_of : Form → List (String × String)
settings_of f =
    (unit_type, f.unit_type)
      ∷ (unit_number, f.unit_number)
      ∷ (scoutbook_org_guid, f.org_guid)
      ∷ (default_timezone, f.timezone)
      ∷ (smtp_host, f.smtp_host)
      ∷ (smtp_port, f.smtp_port)
      ∷ (smtp_user, f.smtp_user)
      ∷ (if f.smtp_pass == "" then [] else (smtp_pass, f.smtp_pass) ∷ [])
    ++ (smtp_from, f.smtp_from) ∷ (max_tent_age_gap, f.max_tent_age_gap) ∷ []

-- An error of Get is not looked at: the value is "" then.
unfoldable pub value_or_empty : Result String → String
value_or_empty (err e) = ""
value_or_empty (ok v) = v

unfoldable pub setting_or_empty : String → Db String
unfolding value_or_empty
setting_or_empty key = do found ← attempt (get_config key); pure (value_or_empty found)

module _ (env : String → Option String) (cookie : Result Session) where
  -- The settings as they are.
  unfoldable pub load_settings : Db Form
  unfolding setting_or_empty
  load_settings = do
    type ← get_with_hierarchy env "UNIT_TYPE" unit_type "Troop"
    number ← get_with_hierarchy env "UNIT_NUMBER" unit_number ""
    guid ← setting_or_empty scoutbook_org_guid
    zone ← get_with_hierarchy env "DEFAULT_TIMEZONE" default_timezone "America/New_York"
    host ← setting_or_empty smtp_host
    port ← setting_or_empty smtp_port
    user ← setting_or_empty smtp_user
    sender ← setting_or_empty smtp_from
    gap ← get_with_hierarchy env "MAX_TENT_AGE_GAP" max_tent_age_gap "2"
    pure (record {
      unit_type = type;
      unit_number = number;
      org_guid = guid;
      timezone = zone;
      smtp_host = host;
      smtp_port = port;
      smtp_user = user;
      smtp_pass = "";
      smtp_from = sender;
      max_tent_age_gap = gap;
    })

  -- `partial` is whether the header HX-Request is there.
  unfoldable pub settings_page : Bool → Handler
  unfolding load_settings settings_page_of
  settings_page partial = do
    f ← load_settings
    perms ← perms_of cookie
    pure (view (settings_view (not partial) (settings_page_of f "" "" perms)) ∷ [])

  unfoldable pub show_settings : Form → String → String → Handler
  unfolding settings_page_of
  show_settings f flash error = do
    perms ← perms_of cookie
    pure (view (settings_view false (settings_page_of f flash error perms)) ∷ [])

  unfoldable pub store_settings : Form → Handler
  unfolding show_settings set_settings settings_of
  store_settings f =
      set_settings (settings_of f) internal_error
        (show_settings f "Settings saved successfully!" "")

  unfoldable pub settings_save : Form → Handler
  unfolding store_settings with_defaults is_gap atoi
  settings_save form =
      let f = with_defaults form in
      if is_gap (atoi f.max_tent_age_gap)
      then store_settings f
      else show_settings f "" "Max Tent Age Gap must be a whole number of years (0 or more)."

-- `failure` is the error of SendAdminNotification, if it returns one.
unfoldable pub tested : Option String → String → List Write
tested none email =
    view
      (page "admin_settings_test_email_result" (concat ("Test email sent to " ∷ email ∷ "!" ∷ [])))
    ∷ []
tested (some e) email =
    status 500
    ∷ view
        (page "admin_settings_test_email_result" (concat ("Failed to send test email: " ∷ e ∷ [])))
    ∷ []

unfoldable pub test_email : Result Session → Option String → Handler
unfolding tested on_error resolve_user
test_email cookie failure =
    get_authenticated_user cookie
    >>= resolve_user (answer 401 "Unauthorized") (λ user.
      on_error (get_profile_by_user_id user.id) (answer 404 "Profile not found") (λ p. pure (
        send_notification (p.email ∷ []) "Test Email from Scout Events"
          "This is a test email to verify your SMTP configuration."
        ∷ tested failure p.email)))
