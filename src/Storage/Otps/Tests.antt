-- ===== src/Storage/Otps/Tests.antt =====
-- A code that is redeemed twice.
use scouting_app.Base.{◌≡◌, ◌≢◌, refl, true, false, [], ◌∷◌}
use scouting_app.Examples.{camp, world}
use scouting_app.Db.{Tables, ok, ◌>>=◌}
use scouting_app.Storage.Otps.{mark_used_if_unused}
use scouting_app.Storage.Otps.Once.{mark_used_if_unused-once}

abbrev with_code : Tables
with_code = record camp {
  otp_codes =
      record {
        id = "c";
        email = "a@b";
        code_hash = "h";
        expires_at = 9000;
        used = false;
        attempts = 0;
        created_at = 4000;
      }
      ∷ [];
}

redeemed : (mark_used_if_unused "c" (world with_code)).0 ≡ ok true
unfolding mark_used_if_unused ◌>>=◌
redeemed = refl

mark_used_if_unused-once_example :
    (mark_used_if_unused "c" (mark_used_if_unused "c" (world with_code)).1).0 ≢ ok true
mark_used_if_unused-once_example =
    mark_used_if_unused-once "c" (world with_code) (mark_used_if_unused "c" (world with_code)).1
      true redeemed refl
