-- ===== src/Api/Registration/Verified.antt =====
-- Who gets an address marked as verified by Verify of internal/api/registration.go.
use scouting_app.Base.{
  ℕ, String, ◌≡◌, refl, sym, ap, Bool, true, false, not, ◌||◌, List, [], ◌∷◌, Option, none, some,
  ◌==◌, eq_iff, ltb, leb, All, arith,
}
use scouting_app.Db.{World, Tables, OtpCode, Result, ok, tick, first, otp_not_found}
use scouting_app.Db.Triples.{
  Triple, Returns, Either, Triple-pure, Triple-bind, Triple-query, Triple-statement, Triple-if,
  Triple-time_now, Triple-given, Triple-Either, result-Triple,
}
use scouting_app.Storage.Otps.{
  find_otp, get_otp_by_id, mark_used_if_unused, unused, increment_attempts,
}
use scouting_app.Storage.Otps.Once.{unused-mark_used}
use scouting_app.OneTimeCode.{max_attempts, is_expired}
use scouting_app.Auth.{Session}
use scouting_app.Api.{Write, save_session}
use scouting_app.Api.Rules.{Triple-on_error, Triple-either_way}
use scouting_app.Api.Registration.{wrong_code, open_verified, redeem, check_code, verify}

-- The sessions that go out with a response.
unfoldable pub sessions : List Write → List Session
sessions [] = []
sessions (save_session s ∷ writes) = s ∷ sessions writes
sessions (_ ∷ writes) = sessions writes

module _ (sum256 : String → String) (cookie : Result Session) (save : Session → Bool)
    (id code : String) (T : Tables) (now : ℕ) where
  -- The code that was stored with this id before, which was neither used nor expired nor tried too
  -- often, and which the input fits.
  abbrev pub Fits : OtpCode → Type 0
  Fits o =
      (find_otp id T.otp_codes ≡ some o)
      × (o.used ≡ false)
      × (ltb o.expires_at now ≡ false)
      × (ltb o.attempts max_attempts ≡ true)
      × (sum256 code ≡ o.code_hash)

  -- The session has the address of such a code, which is used now.
  abbrev pub Opened : World → Session → Type 0
  Opened w s =
      (o : OtpCode) × Fits o × (s.verified_email ≡ some o.email) × (unused id w.otp_codes ≡ false)

  abbrev Good : List Write → World → Type 0
  Good writes w = All (Opened w) (sessions writes)

  abbrev Start : World → Type 0
  Start w = (w.tables ≡ T) × (w.now ≡ now)

  abbrev Spent : World → Type 0
  Spent w = unused id w.otp_codes ≡ false

  wrong_code-Good :
      {P : World → Type 0} (o : OtpCode)
      → Triple P (wrong_code sum256 cookie save id o) (Returns Good)
  unfolding wrong_code sessions increment_attempts
  wrong_code-Good o =
      Triple-on_error _ (λ n w. Unit {0}) _ _
        (Triple-Either _ (Triple-statement _ (λ w h. tt) (λ w h. tt)))
        (λ n.
          Triple-if (leb max_attempts n) _ _ (λ q. Triple-pure _ (λ w h. tt))
            (λ q. Triple-pure _ (λ w h. tt)))

  open_verified-Good :
      (o : OtpCode) (s : Session)
      → Fits o
      → Triple Spent (open_verified sum256 cookie save o s) (Returns Good)
  unfolding open_verified sessions
  open_verified-Good o s f =
      Triple-bind (λ t. Spent) _ _ (Triple-time_now (λ w h. h))
        (λ t.
          Triple-if (save _) _ _ (λ q. Triple-pure _ (λ w h. ((o, f, refl, h), tt)))
            (λ q. Triple-pure _ (λ w h. tt)))

  redeem-Good :
      {P : World → Type 0} (o : OtpCode)
      → Fits o
      → Triple P (redeem sum256 cookie save id o) (Returns Good)
  unfolding redeem mark_used_if_unused sessions
  redeem-Good o f =
      Triple-on_error _ (λ b. Spent) _ _
        (Triple-statement _ (λ w h. unused-mark_used id w.otp_codes) (λ w h. tt))
        (λ b.
          Triple-if (not b) _ _ (λ q. Triple-pure _ (λ w h. tt))
            (λ q. Triple-either_way _ _ cookie (λ w h. tt) (λ s. open_verified-Good o s f)))

  check_code-Good :
      {P : World → Type 0} (o : OtpCode) (expired : Bool)
      → find_otp id T.otp_codes ≡ some o
      → ltb o.expires_at now ≡ expired
      → Triple P (check_code sum256 cookie save id code o expired) (Returns Good)
  unfolding check_code sessions
  check_code-Good o expired found e =
      Triple-if (expired || o.used) _ _ (λ q. Triple-pure _ (λ w h. tt))
        (λ q.
          Triple-if (leb max_attempts o.attempts) _ _ (λ k. Triple-pure _ (λ w h. tt))
            (λ k.
              Triple-if (not (sum256 code == o.code_hash)) _ _ (λ l. wrong_code-Good o)
                (λ l. redeem-Good o (
                  found,
                  ground arith,
                  ground arith,
                  ground arith,
                  (eq_iff (sum256 code) o.code_hash).0 (ground arith),
                ))))

  verify-Good : Triple Start (verify sum256 cookie save id code) (Returns Good)
  unfolding verify get_otp_by_id is_expired sessions
  verify-Good =
      Triple-if (id == "" || code == "") _ _ (λ q. Triple-pure _ (λ w h. tt))
        (λ q.
          Triple-on_error _ (λ o w. (w.now ≡ now) × (find_otp id T.otp_codes ≡ some o)) _ _
            (Triple-query _ (λ w h. found w h.1 _ (sym (ap (λ t. find_otp id t.otp_codes) h.0)))
              (λ w h. tt))
            (λ o. Triple-given _ (λ k.
              Triple-bind (λ b w. Unit {0} × (ltb o.expires_at now ≡ b)) _ _
                (Triple-bind (λ t w. t ≡ now) _ _ (Triple-time_now (λ w h. h))
                  (λ t. Triple-pure _ (λ w h. (tt, ap (λ n. ltb o.expires_at n) (sym h)))))
                (λ b. Triple-given _ (λ e. check_code-Good o b k e)))))
    where
      found :
          (w : World)
          → w.now ≡ now
          → (f : Option OtpCode) → find_otp id T.otp_codes ≡ f
          → Either
              (λ o v. (v.now ≡ now) × (find_otp id T.otp_codes ≡ some o))
              (λ v. Unit {0})
              (first f otp_not_found)
              (tick w)
      found w h none q = tt
      found w h (some o) q = (h, q)

module _ (sum256 : String → String) (cookie : Result Session) (save : Session → Bool) where
  -- Verify always answers, and if it saves a session, then the session's verified e-mail is that
  -- of the code with the entered id, which was not used, not expired and tried less than five
  -- times before, and whose hash is that of the input; the code is used afterwards.
  pub verify-Opened :
      (id code : String) (w : World)
      → (writes : List Write) × ((verify sum256 cookie save id code w).0 ≡ ok writes)
        × All
            (Opened sum256 cookie save id code w.tables w.now
              (verify sum256 cookie save id code w).1)
            (sessions writes)
  verify-Opened id code w =
      result-Triple _ _ w (verify-Good sum256 cookie save id code w.tables w.now) (refl, refl)
