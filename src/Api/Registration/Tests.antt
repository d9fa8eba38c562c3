-- ===== src/Api/Registration/Tests.antt =====
-- Runs of the registration handlers.
use scouting_app.Base.{
  ℕ, ◌+◌, ◌<◌, String, ◌≡◌, refl, Bool, true, false, List, [], ◌∷◌, Option, none, some, All, arith,
}
use scouting_app.Base.Int.{pos}
use scouting_app.Profile.{adult}
use scouting_app.Db.{World, Tables, OtpCode, Result, ok, ◌>>=◌}
use scouting_app.Storage.Profiles.{get_profile_by_email}
use scouting_app.Text.Casing.{to_lower, trim_space}
use scouting_app.Storage.Otps.{count_since, count_by_email_since, create_otp, invalidate_by_email}
use scouting_app.OneTimeCode.{generate_code, code_expiry, new_otp_code}
use scouting_app.Auth.{Session}
use scouting_app.Api.{Write, save_session, send_otp, redirect}
use scouting_app.Api.Registration.{register, verify}
use scouting_app.Api.Registration.Pages.{mask_email}
use scouting_app.Api.Registration.History.{
  Request, ask_for_code, enter_code, after, after-Limited, Limited,
}
use scouting_app.Api.Registration.Opening.{opened}
use scouting_app.Api.Registration.Mailing.{register-verify}
use mathlib.Core.List.Memᴰ.{head, tail}
use scouting_app.Api.Registration.Verified.{Opened, sessions, verify-Opened}
use scouting_app.Examples.{camp, world, profile, date}

abbrev same_text : String → String
same_text s = s

abbrev sevens : ℕ → Option ℕ
sevens n = some 7

abbrev saves : Session → Bool
saves s = true

abbrev cookie_values : Session
cookie_values = record {
  user_id = none;
  register_email = none;
  verified_email = none;
  verified_at = none;
  max_age = pos 0;
}

abbrev empty_cookie : Result Session
empty_cookie = ok cookie_values

abbrev code : String → OtpCode
code id = record {
  id = id;
  email = "a@b.c";
  code_hash = "777777";
  expires_at = 1000000;
  used = false;
  attempts = 4;
  created_at = 0;
}

abbrev coded : Tables
coded = record camp {
  profiles = record (profile "a" adult (date 100 1980 1 1)) { email = "a@b.c" } ∷ [];
  otp_codes = code "o" ∷ [];
}

seven_digits : generate_code sevens ≡ some "777777"
unfolding generate_code
seven_digits = refl

masked : mask_email "alice@mail.example.org" ≡ "a****@****.example.org"
unfolding mask_email
masked = refl

not_masked : mask_email "a@b.c" ≡ "a@b.c"
unfolding mask_email
not_masked = refl

abbrev requests : List Request
requests =
    record { pause = 10; cookie = empty_cookie; draw = sevens; form = ask_for_code " A@B.C " }
    ∷ record { pause = 20; cookie = empty_cookie; draw = sevens; form = enter_code "o" "123456" }
    ∷ []

coded-Limited : Limited (world coded)
unfolding count_since
coded-Limited = ((tt, tt), (omega arith, tt), λ email. ground arith)

after-Limited_example : Limited (after same_text same_text saves requests (world coded))
after-Limited_example = after-Limited same_text same_text saves requests (world coded) coded-Limited

verify-Opened_example :
    (writes : List Write) × ((verify same_text empty_cookie saves "o" "777777" (world coded)).0
      ≡ ok writes)
    × All
        (Opened same_text empty_cookie saves "o" "777777" coded
          (world coded).now
          (verify same_text empty_cookie saves "o" "777777" (world coded)).1)
        (sessions writes)
verify-Opened_example = verify-Opened same_text empty_cookie saves "o" "777777" (world coded)

sevens_are_digits : (n d : ℕ) → sevens n ≡ some d → d < 10
sevens_are_digits n d h = ground arith

abbrev mailed : List Write
mailed =
    save_session (record cookie_values { register_email = some "a@b.c" })
    ∷ send_otp "a@b.c" "777777" "new"
    ∷ redirect "/register/verify?otp_id=new"
    ∷ []

-- Ten minutes after Register.
abbrev in_time : World
in_time =
    record (world
      (register same_text same_text sevens empty_cookie saves " A@B.C " (world coded)).1.tables) {
        now = (world coded).now + code_expiry;
      }

registered :
    (register same_text same_text sevens empty_cookie saves " A@B.C " (world coded)).0 ≡ ok mailed
unfolding register to_lower trim_space ◌>>=◌ get_profile_by_email count_by_email_since new_otp_code
    create_otp invalidate_by_email
registered = refl

register-verify_example :
    (verify same_text (ok cookie_values) saves "new" "777777" in_time).0
    ≡ ok (
        save_session (opened cookie_values "a@b.c" in_time.now)
        ∷ redirect "/register/complete"
        ∷ [])
register-verify_example =
    register-verify same_text same_text sevens sevens_are_digits saves " A@B.C " (world coded)
      in_time mailed "a@b.c" "777777" "new" cookie_values empty_cookie refl registered
      (tail (head refl)) refl (omega arith) (λ n. refl) refl
