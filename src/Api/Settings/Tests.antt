-- ===== src/Api/Settings/Tests.antt =====
-- Runs of the handlers of the settings.
use scouting_app.Base.{ℕ, String, ◌≡◌, refl, false, List, [], ◌∷◌, Option, none, some}
use scouting_app.Base.Int.{pos}
use scouting_app.Text.Decimal.{atoi}
use scouting_app.Db.{World, Result, ok, pure, attempt, statement, query, ◌>>=◌}
use scouting_app.AppConfig.{set_config, put_setting}
use scouting_app.Auth.{Session, get_authenticated_user}
use scouting_app.Api.{Write, view, settings_view, resolve, on_error}
use scouting_app.Api.Sections.{tent_max_age_gap}
use scouting_app.Api.Onboarding.{set_settings, timezones_with_selected}
use scouting_app.Api.Admin.{no_perms, perms_of, perms_of_user}
use scouting_app.Api.Settings.{
  Form, with_defaults, is_gap, settings_of, settings_page_of, show_settings, store_settings,
  settings_save,
}
use scouting_app.Api.Settings.Gap.{has_saved, settings_save-tent_max_age_gap}
use scouting_app.Examples.{camp, world}

abbrev no_variable : String → Option String
no_variable key = none

abbrev no_cookie : Result Session
no_cookie = ok (record {
  user_id = none;
  register_email = none;
  verified_email = none;
  verified_at = none;
  max_age = pos 0;
})

abbrev filled_form : Form
filled_form = record {
  unit_type = "";
  unit_number = "7";
  org_guid = "g";
  timezone = "UTC";
  smtp_host = "h";
  smtp_port = "25";
  smtp_user = "u";
  smtp_pass = "";
  smtp_from = "a@b.c";
  max_tent_age_gap = "3";
}

abbrev saving : World → Result (List Write) × World
saving = settings_save no_variable no_cookie filled_form

settings_save-tent_max_age_gap_example :
    (n : ℕ) × (atoi (with_defaults filled_form).max_tent_age_gap ≡ some (pos n))
    × ((tent_max_age_gap no_variable (saving (world camp)).1).0 ≡ ok (pos n))
unfolding settings_save store_settings show_settings settings_page_of set_settings settings_of
    set_config put_setting with_defaults is_gap atoi perms_of perms_of_user get_authenticated_user
    on_error resolve attempt statement query pure ◌>>=◌ has_saved timezones_with_selected
settings_save-tent_max_age_gap_example =
    settings_save-tent_max_age_gap no_variable no_cookie filled_form (world camp)
      (saving (world camp)).1
      (view (
          settings_view false (
            settings_page_of (with_defaults filled_form) "Settings saved successfully!" ""
              no_perms))
        ∷ [])
      refl refl refl refl refl
