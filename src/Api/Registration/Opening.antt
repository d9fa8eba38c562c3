-- ===== src/Api/Registration/Opening.antt =====
-- What Verify of internal/api/registration.go does with a code that fits.
use scouting_app.Base.{
  ℕ, suc, ◌-◌, ◌%◌, String, ◌≡◌, refl, ap, ◌∙◌, Bool, true, false, ◌||◌, List, [], ◌∷◌, none, some,
  ◌==◌, eq_iff, inl, inr, Bool-cases, ltb, leb, arith,
}
use scouting_app.Db.{World, OtpCode, ok, pure, attempt, query, statement, ◌>>=◌}
use scouting_app.Storage.Otps.{find_otp, get_otp_by_id, mark_used_if_unused, unused}
use scouting_app.OneTimeCode.{nanoseconds, max_attempts, is_expired}
use scouting_app.Auth.{Session}
use scouting_app.Api.{save_session, redirect, resolve, on_error}
use scouting_app.Api.Registration.{save_or, open_verified, redeem, check_code, verify}

-- A code that was found and is not used can be marked.
find_otp-unused :
    (id : String) (o : OtpCode) (otps : List OtpCode)
    → find_otp id otps ≡ some o
    → o.used ≡ false
    → unused id otps ≡ true
unfolding find_otp unused
find_otp-unused id o [] f h = ground arith
find_otp-unused id o (q ∷ otps) f h = elim (Bool-cases (q.id == id)) [
  | inl e ↦
      let fresh : q.used ≡ false =
        ap (λ x. elim x [ none ↦ q.used | some y ↦ y.used ]) (rw e at f) ∙ h in
      rw (e, fresh) refl
  | inr e ↦ rw e (find_otp-unused id o otps (rw e at f) h)
]

-- What Verify puts into the session.
abbrev pub opened : Session → String → ℕ → Session
opened s email now = record s {
  verified_email = some email;
  verified_at = some (now - now % nanoseconds 1);
  register_email = none;
}

module _ (sum256 : String → String) (s : Session) (save : Session → Bool) where
  pub verify-opens :
      (id code : String) (o : OtpCode) (w : World)
      → ((n : ℕ) → w.fault n ≡ false)
      → save (opened s o.email w.now) ≡ true
      → (id == "" || code == "") ≡ false
      → find_otp id w.otp_codes ≡ some o
      → o.used ≡ false
      → ltb o.expires_at w.now ≡ false
      → leb max_attempts o.attempts ≡ false
      → sum256 code ≡ o.code_hash
      → (verify sum256 (ok s) save id code w).0
        ≡ ok (save_session (opened s o.email w.now) ∷ redirect "/register/complete" ∷ [])
  unfolding verify check_code redeem open_verified save_or on_error resolve attempt query statement
      pure ◌>>=◌ is_expired get_otp_by_id mark_used_if_unused
  verify-opens id code o w answers saved given found fresh early few fits =
      rw
        (
          given,
          answers w.count,
          found,
          fresh,
          early,
          few,
          (eq_iff (sum256 code) o.code_hash).1 fits,
          answers (suc w.count),
          find_otp-unused id o w.otp_codes found fresh,
          saved,
        )
        refl
