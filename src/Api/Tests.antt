-- ===== src/Api/Tests.antt =====
-- Requests on sample tables.
use scouting_app.Base.{◌≡◌, refl, String, List, [], ◌∷◌, Option, some, none}
use scouting_app.Base.Int.{pos}
use scouting_app.Calendar.{Time}
use scouting_app.Profile.{User, adult, youth}
use scouting_app.Event.{spl}
use scouting_app.Examples.{camp, world, profile, date}
use scouting_app.Db.{Tables, Result, ok}
use scouting_app.Storage.Rbac.{holds}
use scouting_app.Auth.{Session}
use scouting_app.Api.SignUp.{sign_up, withdraw}
use scouting_app.Api.Drivers.{toggle_responsibility}
use scouting_app.Api.EventForms.{Cost, cents}
use scouting_app.Api.Routes.{post_signup, post_tents, delete_event, permission, serve}
use scouting_app.Api.Consistency.{Consistent, Request, after, after-Consistent}
use scouting_app.Api.Access.{serve-refused}
use scouting_app.Api.Managing.Refusals.{sign_up-stranger, withdraw-stranger}

abbrev same_text : String → String
same_text s = s

abbrev no_variable : String → Option String
no_variable key = none

abbrev free_of_cost : String → Cost
free_of_cost text = cents (pos 0)

abbrev no_time : String → Option Time
no_time text = none

abbrev cookie_of : String → Result Session
cookie_of id = ok (record {
  user_id = some id;
  register_email = none;
  verified_email = none;
  verified_at = none;
  max_age = pos 86400;
})

abbrev user : String → User
user id = record { id = id; email = ""; password_hash = ""; created_at = 0 }

-- The user "u" is the adult "a"; "v" is the organiser and has no profile.
abbrev staffed : Tables
staffed = record camp {
  profiles =
      record (profile "a" adult (date 100 1980 1 1)) { user_id = some "u" }
      ∷ profile "y" youth (date 3000 2012 3 4)
      ∷ profile "z" youth (date 3100 2013 3 4)
      ∷ [];
  users = user "u" ∷ user "v" ∷ [];
  roles = record { id = "r"; name = "parent" } ∷ record { id = "s"; name = "admin" } ∷ [];
  permissions =
      record { id = "p"; name = "event:signup" } ∷ record { id = "q"; name = "event:create" } ∷ [];
  user_roles = ("u", "r") ∷ ("v", "s") ∷ [];
  role_permissions = ("r", "p") ∷ ("s", "q") ∷ [];
  app_config = ("ONBOARDING_COMPLETE", "true") ∷ [];
}

staffed-Consistent : Consistent staffed
staffed-Consistent =
    ((tt, tt), ((((refl, refl), tt), (tt, tt)), (refl, (refl, tt))), ((tt, tt), (refl, tt)))

abbrev requests : List Request
requests =
    record { cookie = cookie_of "u"; path = "/events/e/signup"; route = post_signup "e" "a" }
    ∷ record { cookie = cookie_of "v"; path = "/events/e/tents"; route = post_tents "e" }
    ∷ record { cookie = cookie_of "v"; path = "/events/e/delete"; route = delete_event "e" }
    ∷ []

after-Consistent_example :
    Consistent (after same_text no_variable free_of_cost no_time requests (world staffed)).tables
after-Consistent_example =
    after-Consistent same_text no_variable free_of_cost no_time requests (world staffed)
      staffed-Consistent

serve-refused_example :
    (serve same_text no_variable free_of_cost no_time
      (cookie_of "u")
      "/events/e/tents"
      (post_tents "e")
      (world staffed)).1.tables
    ≡ staffed
unfolding permission holds
serve-refused_example =
    serve-refused same_text no_variable free_of_cost no_time (cookie_of "u") "/events/e/tents"
      (post_tents "e") (world staffed) refl

sign_up-stranger_example :
    (sign_up no_variable (cookie_of "u") "e" "y" (world staffed)).1.tables ≡ staffed
sign_up-stranger_example = sign_up-stranger no_variable (cookie_of "u") "e" "y" (world staffed) refl

withdraw-stranger_example :
    ((withdraw no_variable (cookie_of "u") "e" "y" (world staffed)).1.tables ≡ staffed)
    × ((toggle_responsibility (cookie_of "u") "e" "y" spl (world staffed)).1.tables ≡ staffed)
unfolding holds
withdraw-stranger_example =
    withdraw-stranger no_variable (cookie_of "u") "e" "y" spl (world staffed) refl refl
