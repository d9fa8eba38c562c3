-- ===== src/Api/Registration.antt =====
-- The handlers of internal/api/registration.go. url.QueryEscape, sha256.Sum256, the random draws, the
-- hasher of passwords and what the cookie store gives and saves are arguments.
pub mod Pages
pub mod Limits
pub mod History
pub mod Verified
pub mod Opening
pub mod Mailing
pub mod Tests
use scouting_app.Base.{
  ℕ, ◌-◌, ◌%◌, String, Bool, true, false, not, ◌||◌, List, [], ◌∷◌, ◌++◌, Option, none, some, ◌==◌,
  ltb, leb, if◌then◌else◌,
}
use scouting_app.Text.{concat}
use scouting_app.Text.Casing.{to_lower, trim_space}
use scouting_app.Profile.{Profile, MemberType, adult, youth, User, disabled, inactive, status_eq}
use scouting_app.Db.{OtpCode, Result, Db, pure, time_now, ◌>>=◌}
use scouting_app.Storage.Profiles.{get_profile_by_email, create_user, update_profile}
use scouting_app.Storage.Rbac.{get_role_by_name, assign_role_to_user}
use scouting_app.Storage.Otps.{
  create_otp, get_otp_by_id, count_by_email_since, mark_used_if_unused, increment_attempts,
  invalidate_by_email,
}
use scouting_app.Reconcile.{MapRange, reconcile_roles}
use scouting_app.OneTimeCode.{nanoseconds, max_attempts, new_otp_code, is_expired}
use scouting_app.Auth.{Session}
use scouting_app.Api.{
  View, Write, Handler, verify_page, page, view, save_session, send_otp, answer, internal_error,
  redirect_to, resolve, on_error, ignore,
}
use scouting_app.Api.Registration.Pages.{mask_email}

abbrev pub back : List Write
back = redirect_to "/register"

abbrev pub register_page : String → List Write
register_page message = view (page "register" message) ∷ []

abbrev pub complete_page : String → List Write
complete_page message = view (page "register_complete" message) ∷ []

-- Why a profile may not be registered.
unfoldable pub registration_refusal : Profile → Option String
registration_refusal p =
    if status_eq p.status disabled
    then some "This account has been disabled. Please contact your Troop Webmaster for assistance."
    else if status_eq p.status inactive
    then some
        "Your profile is currently inactive. Please contact your Troop Webmaster for assistance."
    else elim p.user_id [
      | none ↦ none
      | some id ↦
          some "This account has already been registered. <a href=\"/login\">Sign in</a> instead."
    ]

-- The role of whoever registers.
unfoldable pub first_role : MemberType → String
first_role adult = "parent"
first_role youth = "Scouts BSA"

-- A moment that is missing, or does not parse, never expires.
unfoldable pub is_verified_expired : Session → ℕ → Bool
is_verified_expired s now = elim s.verified_at [
  | none ↦ false
  | some at ↦ ltb (nanoseconds 1800) (now - at)
]

module _ (save : Session → Bool) where
  -- sess.Save, whose error ends the request.
  unfoldable pub save_or : List Write → Session → (List Write → Handler) → Handler
  save_or refused s next = if save s then next (save_session s ∷ []) else pure refused

  unfoldable pub forget_verified : Session → List Write
  forget_verified s =
      let s' = record s { verified_email = none; verified_at = none } in
      if save s' then save_session s' ∷ [] else []

module _ (query_escape sum256 : String → String) (draw : ℕ → Option ℕ) (cookie : Result Session)
    (save : Session → Bool) where
  unfoldable pub store_code : String → String → OtpCode → List Write → Handler
  unfolding on_error
  store_code email code otp saved = on_error (create_otp otp) (saved ++ internal_error) (λ o. pure (
      saved
      ++ send_otp email code o.id
        ∷ redirect_to (concat ("/register/verify?otp_id=" ∷ query_escape o.id ∷ []))))

  unfoldable pub send_code : String → Option (String × OtpCode) → Handler
  unfolding save_or store_code resolve
  send_code email none = pure internal_error
  send_code email (some (code, otp)) =
      resolve internal_error
        (λ s.
          save_or save internal_error (record s { register_email = some email })
            (store_code email code otp))
        cookie

  unfoldable pub offer_code : String → Profile → Handler
  unfolding send_code on_error ignore registration_refusal
  offer_code email p = elim (registration_refusal p) [
    | some message ↦ pure (register_page message)
    | none ↦ do
      now ← time_now
      on_error (count_by_email_since email (now - nanoseconds 3600)) internal_error (λ count.
          if leb 5 count
          then pure (register_page "Too many verification code requests. Please try again later.")
          else ignore (invalidate_by_email email)
              (time_now >>= λ now. send_code email (new_otp_code sum256 draw email now)))
  ]

  unfoldable pub register : String → Handler
  unfolding offer_code on_error
  register field =
      let email = to_lower (trim_space field) in
      if email == ""
      then pure (register_page "Please enter your email address.")
      else on_error (get_profile_by_email email)
          (register_page (
            concat (
              "No account found for this email address. Double-check that the email you entered "
              ∷ "matches the email registered with your Scoutbook account. If you continue having "
              ∷ "trouble, contact your Troop Webmaster for help." ∷ [])))
          (offer_code email)

unfoldable pub verify_page_handler : String → Handler
unfolding on_error is_expired
verify_page_handler id =
    if id == ""
    then pure back
    else on_error (get_otp_by_id id) back (λ o. do
      expired ← is_expired o
      pure (if expired || o.used then back else view (verify_page id (mask_email o.email) "") ∷ []))

module _ (sum256 : String → String) (cookie : Result Session) (save : Session → Bool) where
  unfoldable pub wrong_code : String → OtpCode → Handler
  unfolding on_error
  wrong_code id o = on_error (increment_attempts id) internal_error (λ attempts.
      if leb max_attempts attempts
      then pure back
      else pure (
          view (verify_page id (mask_email o.email) "Invalid verification code. Please try again.")
          ∷ []))

  unfoldable pub open_verified : OtpCode → Session → Handler
  unfolding save_or
  open_verified o s = do
    now ← time_now
    save_or save (answer 500 "session save error")
        (record s {
          verified_email = some o.email;
          verified_at = some (now - now % nanoseconds 1);
          register_email = none;
        })
        (λ saved. pure (saved ++ redirect_to "/register/complete"))

  unfoldable pub redeem : String → OtpCode → Handler
  unfolding open_verified on_error resolve
  redeem id o =
      on_error (mark_used_if_unused id) internal_error
        (λ fresh. if not fresh then pure back else resolve internal_error (open_verified o) cookie)

  unfoldable pub check_code : String → String → OtpCode → Bool → Handler
  unfolding redeem wrong_code
  check_code id code o expired =
      if expired || o.used
      then pure back
      else if leb max_attempts o.attempts
      then pure back
      else if not (sum256 code == o.code_hash)
      then wrong_code id o
      else redeem id o

  unfoldable pub verify : String → String → Handler
  unfolding check_code on_error is_expired
  verify id code =
      if id == "" || code == ""
      then pure back
      else on_error (get_otp_by_id id) back (λ o. is_expired o >>= check_code id code o)

module _ (cookie : Result Session) (save : Session → Bool) where
  unfoldable pub checked_verified : Session → (String → Handler) → Option String → Handler
  unfolding forget_verified is_verified_expired
  checked_verified s next none = pure back
  checked_verified s next (some email) = if email == "" then pure back else (do
    now ← time_now
    if is_verified_expired s now then pure (forget_verified save s ++ back) else next email)

  -- What CompletePage and Complete begin with.
  unfoldable pub with_verified : (Session → String → Handler) → Handler
  unfolding checked_verified resolve
  with_verified next = resolve back (λ s. checked_verified s (next s) s.verified_email) cookie

  unfoldable pub complete_page_handler : Handler
  unfolding with_verified
  complete_page_handler = with_verified (λ s email. pure (complete_page ""))

  module _ (order : MapRange) (hash_password : String → Option String) where
    unfoldable pub assign_positions : User → Profile → Handler → Handler
    unfolding on_error
    assign_positions u p next =
        if p.positions == ""
        then next
        else on_error (reconcile_roles order u.id p.positions) internal_error (λ changes. next)

    unfoldable pub register_user : Session → Profile → String → Handler
    unfolding assign_positions on_error forget_verified first_role
    register_user s p hash =
        on_error
          (create_user (record { id = ""; email = ""; password_hash = hash; created_at = 0 }))
          internal_error
          (λ u. on_error (get_role_by_name (first_role p.member_type)) internal_error (λ role.
            on_error (assign_role_to_user u.id role.id) internal_error (λ linked.
              assign_positions u p (
                on_error (update_profile (record p { user_id = some u.id })) internal_error
                  (λ done. pure (forget_verified save s ++ redirect_to "/login?registered=1"))))))

    unfoldable pub hash_then_register : Session → Profile → Option String → Handler
    unfolding register_user
    hash_then_register s p none = pure internal_error
    hash_then_register s p (some hash) = register_user s p hash

    unfoldable pub complete : String → Handler
    unfolding with_verified hash_then_register on_error
    complete password = with_verified (λ s email.
        if password == ""
        then pure (complete_page "Please enter a password.")
        else on_error (get_profile_by_email email) back
            (λ p. hash_then_register s p (hash_password password)))
