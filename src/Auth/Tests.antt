-- ===== src/Auth/Tests.antt =====
-- Logins on sample tables.
use scouting_app.Base.{◌≡◌, refl, true, [], ◌∷◌, some, none, ◌==◌, String, Bool}
use scouting_app.Base.Int.{pos}
use scouting_app.Examples.{camp, world, profile, date}
use scouting_app.Profile.{User, adult, inactive, disabled, Status}
use scouting_app.Db.{Tables, ok, err, account_inactive, account_disabled, ◌>>=◌}
use scouting_app.Storage.Profiles.{get_user_by_email, get_profile_by_user_id}
use scouting_app.Storage.Rbac.{get_user_roles, user_roles_of, holds}
use scouting_app.Auth.{
  Session, login, enter, open_session, check_profile_active, checked_profile, checked_roles,
}
use scouting_app.Auth.Admission.{login-admits}
use scouting_app.Auth.Login.{Admitted, login-Admitted}

abbrev fits : String → String → Bool
fits password hash = password == hash

abbrev empty_session : Session
empty_session = record {
  user_id = none;
  register_email = none;
  verified_email = none;
  verified_at = none;
  max_age = pos 0;
}

abbrev leader : User
leader = record { id = "u"; email = ""; password_hash = "secret"; created_at = 0 }

abbrev with_status : Status → Tables
with_status status = record camp {
  profiles =
      record (profile "a" adult (date 100 1980 1 1)) {
        email = "a@b.c";
        status = status;
        user_id = some "u";
      }
      ∷ [];
  users = leader ∷ [];
}

abbrev with_admin : Tables
with_admin = record (with_status inactive) {
  roles = record { id = "r"; name = "admin" } ∷ [];
  user_roles = ("u", "r") ∷ [];
}

abbrev opened : Session
opened = record {
  user_id = some "u";
  register_email = none;
  verified_email = none;
  verified_at = none;
  max_age = pos 86400;
}

admin_enters :
    (login fits (ok empty_session) (λ s. true) "a@b.c" "secret" (world with_admin)).0
    ≡ ok (leader, opened)
unfolding login enter open_session check_profile_active checked_profile checked_roles ◌>>=◌
    get_user_by_email get_profile_by_user_id get_user_roles user_roles_of holds
admin_enters = refl

inactive_refused :
    (login fits (ok empty_session) (λ s. true) "a@b.c" "secret" (world (with_status inactive))).0
    ≡ err account_inactive
unfolding login enter open_session check_profile_active checked_profile checked_roles ◌>>=◌
    get_user_by_email get_profile_by_user_id get_user_roles user_roles_of holds
inactive_refused = refl

disabled_refused :
    (login fits (ok empty_session) (λ s. true) "a@b.c" "secret" (world (with_status disabled))).0
    ≡ err account_disabled
unfolding login enter open_session check_profile_active checked_profile checked_roles ◌>>=◌
    get_user_by_email get_profile_by_user_id get_user_roles user_roles_of holds
disabled_refused = refl

login-Admitted_example :
    Admitted fits
      (ok empty_session)
      (λ s. true)
      "a@b.c"
      "secret"
      (leader, opened)
      (login fits (ok empty_session) (λ s. true) "a@b.c" "secret" (world with_admin)).1.tables
login-Admitted_example =
    login-Admitted fits (ok empty_session) (λ s. true) "a@b.c" "secret" (world with_admin)
      (leader, opened) admin_enters

login-admits_example :
    (login fits (ok empty_session) (λ s. true) "a@b.c" "secret" (world with_admin)).0
    ≡ ok (leader, opened)
unfolding user_roles_of holds
login-admits_example =
    login-admits fits empty_session (λ s. true) "a@b.c" "secret" (world with_admin) leader
      (λ n. refl) refl refl refl refl
