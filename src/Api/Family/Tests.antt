-- ===== src/Api/Family/Tests.antt =====
-- Runs of the handlers of family connections.
use scouting_app.Base.{ℕ, [], ◌∷◌, none, some}
use scouting_app.Base.Int.{pos}
use scouting_app.Text.Casing.{trim_space}
use scouting_app.Calendar.{Time}
use scouting_app.Profile.{adult, youth}
use scouting_app.Db.{Tables, Result, ok}
use scouting_app.Auth.{Session}
use scouting_app.Api.Family.{add_connection}
use scouting_app.Api.Family.Requests.{Outcome, add_connection-Outcome}
use scouting_app.Examples.{camp, world, profile, date}

abbrev some_day : ℕ → Time
some_day t = date t 2026 5 1

abbrev cookie : Result Session
cookie = ok (record {
  user_id = some "u";
  register_email = none;
  verified_email = none;
  verified_at = none;
  max_age = pos 86400;
})

abbrev family : Tables
family = record camp {
  profiles =
      record (profile "a" adult (date 100 1980 1 1)) { user_id = some "u" }
      ∷ record (profile "y" youth (date 3000 2012 3 4)) { bsa_id = "12" }
      ∷ [];
  users = record { id = "u"; email = ""; password_hash = ""; created_at = 0 } ∷ [];
}

add_connection-Outcome_example :
    Outcome some_day cookie family
      (trim_space " 12 ")
      (add_connection some_day cookie " 12 " (world family)).1.tables
add_connection-Outcome_example = add_connection-Outcome some_day cookie " 12 " (world family)
