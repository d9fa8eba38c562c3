-- ===== src/Api/Onboarding/Tests.antt =====
-- Runs of the onboarding handlers.
use scouting_app.Base.{String, refl, Bool, true, List, [], ◌∷◌, Option, some}
use scouting_app.Text.Casing.{byte_length, to_lower, trim_space}
use scouting_app.Db.{World, Tables, Result, ok, pure, attempt, statement, query, new_uuid, ◌>>=◌}
use scouting_app.Storage.Profiles.{create_user, insert_user, create_profile, insert_profile}
use scouting_app.Storage.Rbac.{
  find_role, get_role_by_name, assign_role_to_user, link_user_role, insert_pair, holds,
}
use scouting_app.AppConfig.{set_config, put_setting}
use scouting_app.Pages.{Answers}
use scouting_app.Api.{Write, redirect, clear_onboarding, resolve, on_error}
use scouting_app.Api.Onboarding.{
  no_answers, load_form, save_form, clear_form, personal, unit, timezone, welcome_page, password,
  password_refusal, hash_then_set_up, set_up, set_settings, settings_of, first_profile,
  cleared_error,
}
use scouting_app.Api.Onboarding.Steps.{
  Step, post_personal, post_unit, post_timezone, after, cookie_from, cookie_after, AreFilled,
  after-AreFilled,
}
use scouting_app.Api.Onboarding.SetUp.{IsDone, finished, password-IsDone}
use scouting_app.Examples.{camp, world}

abbrev saves : Answers → Bool
saves a = true

abbrev steps : List Step
steps =
    post_personal " A " "B" "A@B.C" "12"
    ∷ post_unit "Troop" "" "g"
    ∷ post_unit "Troop" "7" "g"
    ∷ post_timezone "UTC"
    ∷ []

after-AreFilled_example : AreFilled (after saves steps no_answers (world camp))
unfolding after cookie_from cookie_after personal unit timezone welcome_page load_form save_form
    to_lower trim_space pure
after-AreFilled_example = after-AreFilled saves steps (world camp) refl

abbrev given : Answers
given = record {
  first_name = "A";
  last_name = "B";
  email = "a@b.c";
  bsa_id = "12";
  unit_type = "Troop";
  unit_number = "7";
  org_guid = "g";
  timezone = "UTC";
}

abbrev with_admin : Tables
with_admin = record camp { roles = record { id = "r"; name = "admin" } ∷ [] }

abbrev hashed : String → Option String
hashed text = some text

abbrev last_step : World → Result (List Write) × World
last_step = password (ok given) saves hashed "long enough" "long enough"

password-IsDone_example :
    IsDone
      (ok given)
      saves
      hashed
      "long enough"
      "long enough"
      (last_step (world with_admin)).1.tables
unfolding password password_refusal hash_then_set_up set_up set_settings settings_of first_profile
    cleared_error clear_form load_form byte_length on_error resolve attempt statement query new_uuid
    pure ◌>>=◌ create_user insert_user create_profile insert_profile get_role_by_name find_role
    assign_role_to_user link_user_role insert_pair holds set_config put_setting finished
password-IsDone_example =
    password-IsDone (ok given) saves hashed "long enough" "long enough" (world with_admin)
      (clear_onboarding ∷ redirect "/onboard/complete" ∷ []) refl refl
