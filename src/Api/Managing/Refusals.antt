-- ===== src/Api/Managing/Refusals.antt =====
-- Where canManageProfile and isAdmin say no, SignUp, Withdraw and ToggleResponsibility of
-- internal/api/events.go change nothing.
use scouting_app.Base.{
  String, ◌≡◌, refl, sym, ap, ◌∙◌, Bool, true, false, not, ◌||◌, Option, some, ◌==◌, arith,
  if◌then◌else◌,
}
use scouting_app.Profile.{Profile, User, inactive, status_eq}
use scouting_app.Event.{Responsibility, driver}
use scouting_app.Db.{World, Tables, Result, Db, pure, ◌>>=◌}
use scouting_app.Db.Keeps.{Keeps, Keeps-bind, Keeps-pure, Keeps-query, Keeps-if}
use scouting_app.Db.Ensures.{
  Ensures, Ensures-bind, Ensures-pure, Ensures-if, Ensures-after, Ensures-both, Ensures-given,
  Keeps-bind_knowing,
}
use scouting_app.Db.Errors.{Reads, Reads-bind, Reads-pure, Reads-if, Keeps-Reads, Reads-Ensures}
use scouting_app.Storage.Profiles.{get_profile_by_id}
use scouting_app.Storage.Events.{get_event_by_id}
use scouting_app.Auth.{Session}
use scouting_app.Api.{Handler, is_admin, can_manage_profile}
use scouting_app.Api.Rules.{Keeps-on_error, is_admin-Reads, can_manage_profile-Reads, is_past-Reads}
use scouting_app.Api.SignUp.{sign_up, withdraw, may_withdraw, inactive_allowed}
use scouting_app.Api.Drivers.{toggle_responsibility, may_toggle}
use scouting_app.Api.Access.{user_of, may, Keeps-signed_in}
use scouting_app.Api.Managing.{
  manages_profile, user_manages, in_charge, Same, Right, can_manage-Right, admin-Right,
}

module _ (T : Tables) where
  -- Where a check can only say no, nothing after it runs.
  Keeps-denied :
      (truth : Bool) (m : Db Bool) (denied next : Handler)
      → truth ≡ false
      → Reads m
      → Ensures (Same T) m (λ b t. Right T truth b)
      → Keeps (Same T) denied
      → Keeps (Same T) (m >>= λ allowed. if not allowed then denied else next)
  Keeps-denied truth m denied next f k r d =
      Keeps-bind_knowing (Right T truth) _ _ (Keeps-Reads _ k) r
        (λ b h. Keeps-if (not b) _ _ (λ q. d) (λ q. absurd (ground (arith, h (ground arith)))))

  module _ (cookie : Result Session) where
    -- canManageProfile, or else isAdmin.
    either-Right :
        (u p : String)
        → Ensures
            (Same T)
            (can_manage_profile u p >>= λ manages. if manages then pure true else is_admin cookie)
            (λ b t. Right T (manages_profile u p T || may cookie "event:create" T) b)
    either-Right u p =
        Ensures-bind (λ b t. Same T t × Right T (manages_profile u p T) b) _ _
          (Ensures-both _ (Reads-Ensures _ (can_manage_profile-Reads u p)) (can_manage-Right T u p))
          (λ b. Ensures-given (λ r.
            Ensures-if b _ _ (λ q. Ensures-pure true (λ t h k. ground (arith, r q)))
              (λ q. Ensures-after _ (admin-Right T cookie) (λ a t h k. ground (arith, h k)))))

    either-Reads :
        (u p : String)
        → Reads
            (can_manage_profile u p >>= λ manages. if manages then pure true else is_admin cookie)
    either-Reads u p =
        Reads-bind _ _ (can_manage_profile-Reads u p)
          (λ manages. Reads-if manages _ _ (λ q. Reads-pure _) (λ q. is_admin-Reads cookie))

    module _ (e p : String) (stranger : in_charge cookie p T ≡ false) where
      not_managed : (u : User) → user_of cookie T ≡ some u → manages_profile u.id p T ≡ false
      not_managed u k = sym (ap (user_manages p T) k) ∙ stranger

      sign_up-Same : (env : String → Option String) → Keeps (Same T) (sign_up env cookie e p)
      unfolding sign_up get_event_by_id
      sign_up-Same env =
          Keeps-if (e == "") _ _ (λ q. Keeps-pure _)
            (λ q.
              Keeps-if (p == "") _ _ (λ r. Keeps-pure _)
                (λ r. Keeps-signed_in cookie T _ _ (λ u k.
                  Keeps-on_error _ _ _ (Keeps-query _) (λ evt.
                    Keeps-bind _ _ (Keeps-Reads _ (is_past-Reads evt)) (λ past.
                      Keeps-if past _ _ (λ a. Keeps-pure _)
                        (λ a.
                          Keeps-denied (manages_profile u.id p T) _ _ _ (not_managed u k)
                            (can_manage_profile-Reads u.id p) (can_manage-Right T u.id p)
                            (Keeps-pure _)))))))

      module _ (common : may cookie "event:create" T ≡ false) where
        neither :
            (u : User)
            → user_of cookie T ≡ some u
            → (manages_profile u.id p T || may cookie "event:create" T) ≡ false
        neither u k = ground (arith, not_managed u k)

        inactive_allowed-Reads :
            (env : String → Option String) (q : Profile) → Reads (inactive_allowed env cookie q)
        unfolding inactive_allowed
        inactive_allowed-Reads env q =
            Reads-if (not (status_eq q.status inactive)) _ _ (λ a. Reads-pure _)
              (λ a. is_admin-Reads cookie)

        withdraw-Same : (env : String → Option String) → Keeps (Same T) (withdraw env cookie e p)
        unfolding withdraw may_withdraw get_event_by_id get_profile_by_id
        withdraw-Same env =
            Keeps-if (e == "") _ _ (λ q. Keeps-pure _)
              (λ q.
                Keeps-if (p == "") _ _ (λ r. Keeps-pure _)
                  (λ r. Keeps-signed_in cookie T _ _ (λ u k.
                    Keeps-on_error _ _ _ (Keeps-query _) (λ evt.
                      Keeps-bind _ _ (Keeps-Reads _ (is_past-Reads evt)) (λ past.
                        Keeps-if past _ _ (λ a. Keeps-pure _)
                          (λ a. Keeps-on_error _ _ _ (Keeps-query _) (λ prof.
                            Keeps-bind _ _ (Keeps-Reads _ (inactive_allowed-Reads env prof))
                              (λ open_to.
                                Keeps-if (not open_to) _ _ (λ b. Keeps-pure _)
                                  (λ b.
                                    Keeps-denied _ _ _ _ (neither u k) (either-Reads u.id p)
                                      (either-Right u.id p) (Keeps-pure _))))))))))

        toggle-Same : (r : Responsibility) → Keeps (Same T) (toggle_responsibility cookie e p r)
        unfolding toggle_responsibility may_toggle get_event_by_id
        toggle-Same r =
            Keeps-if (e == "" || (p == "" || r == "")) _ _ (λ q. Keeps-pure _)
              (λ q.
                Keeps-if (r == driver) _ _ (λ a. Keeps-pure _)
                  (λ a. Keeps-signed_in cookie T _ _ (λ u k.
                    Keeps-on_error _ _ _ (Keeps-query _) (λ evt.
                      Keeps-bind _ _ (Keeps-Reads _ (is_past-Reads evt)) (λ past.
                        Keeps-if past _ _ (λ b. Keeps-pure _)
                          (λ b.
                            Keeps-denied _ _ _ _ (neither u k) (either-Reads u.id p)
                              (either-Right u.id p) (Keeps-pure _)))))))

-- The sign-up handler changes no table when the cookie does not name a user that the profile
-- belongs to, or whose profile has an approved link to the profile as a youth.
pub sign_up-stranger :
    (env : String → Option String) (cookie : Result Session) (e p : String) (w : World)
    → in_charge cookie p w.tables ≡ false
    → (sign_up env cookie e p w).1.tables ≡ w.tables
sign_up-stranger env cookie e p w h = (sign_up-Same w.tables cookie e p h env).at w refl

-- The handlers that withdraw a profile and toggle its responsibilities change no table when the
-- cookie's user neither manages the profile nor has the permission event:create.
pub withdraw-stranger :
    (env : String → Option String) (cookie : Result Session) (e p : String) (r : Responsibility)
    (w : World)
    → in_charge cookie p w.tables ≡ false
    → may cookie "event:create" w.tables ≡ false
    → ((withdraw env cookie e p w).1.tables ≡ w.tables)
      × ((toggle_responsibility cookie e p r w).1.tables ≡ w.tables)
withdraw-stranger env cookie e p r w h k = (
  (withdraw-Same w.tables cookie e p h k env).at w refl,
  (toggle-Same w.tables cookie e p h k r).at w refl,
)
