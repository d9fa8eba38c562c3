-- ===== src/Api/Registration/History.antt =====
-- Sequences of requests to Register and Verify of internal/api/registration.go, with the time that
-- passes in between.
use mathlib.Core.Path.{subst}
use scouting_app.Base.{ℕ, ◌+◌, ◌-◌, String, refl, sym, Bool, List, [], ◌∷◌, Option, arith}
use scouting_app.Db.{World, Result}
use scouting_app.Db.Triples.{Triple}
use scouting_app.Storage.Otps.Limits.{Within, Within-later}
use scouting_app.OneTimeCode.{nanoseconds}
use scouting_app.Auth.{Session}
use scouting_app.Api.{Handler}
use scouting_app.Api.Registration.{register, verify}
use scouting_app.Api.Registration.Limits.{Limits, register-Kept, verify-Kept}

pub data Form : Type 0 where
  ask_for_code : String → Form
  enter_code : String → String → Form

-- A request, after a pause, with its cookie and the draws that a new code takes.
pub record Request : Type 0 where
  pub pause : ℕ
  pub cookie : Result Session
  pub draw : ℕ → Option ℕ
  pub form : Form

-- The clock goes on.
abbrev pub wait : ℕ → World → World
wait pause w = record w { now = w.now + pause }

-- No two codes have one id, no code was tried more than five times, and no address has got more
-- than five codes within the last hour.
abbrev pub Limited : World → Type 0
Limited w = Within (w.now - nanoseconds 3600) w.otp_codes

wait-Limited : (pause : ℕ) (w : World) → Limited w → Limited (wait pause w)
wait-Limited pause w h =
    Within-later (w.now - nanoseconds 3600) (w.now + pause - nanoseconds 3600) w.otp_codes
      (omega arith) h

-- The clock's time is the same after a request.
Limits-Limited :
    (m : Handler) (w : World)
    → Triple (Limits w.now) m (λ r. Limits w.now)
    → Limited w
    → Limited (m w).1
Limits-Limited m w k h =
    let (e, kept) = k.at w (refl, h) in
    subst (λ t. Within (t - nanoseconds 3600) (m w).1.otp_codes) (sym e) kept

module _ (query_escape sum256 : String → String) (save : Session → Bool) where
  abbrev pub handle : Request → Form → Handler
  handle r (ask_for_code field) = register query_escape sum256 r.draw r.cookie save field
  handle r (enter_code id code) = verify sum256 r.cookie save id code

  unfoldable pub after : List Request → World → World
  after [] w = w
  after (r ∷ requests) w = after requests (handle r r.form (wait r.pause w)).1

  handle-Limited : (r : Request) (f : Form) (w : World) → Limited w → Limited (handle r f w).1
  handle-Limited r (ask_for_code field) w h =
      Limits-Limited _ w (register-Kept w.now query_escape sum256 r.draw r.cookie save field) h
  handle-Limited r (enter_code id code) w h =
      Limits-Limited _ w (verify-Kept w.now sum256 r.cookie save id code) h

  -- If no two codes have one id, no code was tried more than five times and no address has got
  -- more than five codes within the hour before, this still holds after any sequence of requests
  -- to Register and Verify, whatever time passes in between, whatever is entered, and whichever
  -- statements fail.
  pub after-Limited : (requests : List Request) (w : World) → Limited w → Limited (after requests w)
  unfolding after
  after-Limited [] w h = h
  after-Limited (r ∷ requests) w h =
      after-Limited requests _ (handle-Limited r r.form (wait r.pause w) (wait-Limited r.pause w h))
