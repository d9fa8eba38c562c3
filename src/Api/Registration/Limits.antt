-- ===== src/Api/Registration/Limits.antt =====
-- Register and Verify of internal/api/registration.go keep the limits on how many codes an address
-- gets within an hour, and how often a code is tried.
use scouting_app.Base.{
  ℕ, ◌-◌, String, ◌≡◌, refl, ap, ◌∙◌, Bool, not, ◌||◌, List, ◌++◌, Option, none, some, ◌==◌, inl,
  inr, Option-cases, if◌then◌else◌, leb, arith,
}
use scouting_app.Text.Casing.{to_lower, trim_space}
use scouting_app.Profile.{Profile}
use scouting_app.Db.{World, OtpCode, Result, tick, first, otp_not_found, pure, time_now, ◌>>=◌}
use scouting_app.Db.Triples.{
  Triple, Either, Triple-pure, Triple-bind, Triple-query, Triple-if, Triple-time_now, Triple-before,
  Triple-given, Triple-Either,
}
use scouting_app.Storage.Profiles.{get_profile_by_email}
use scouting_app.Storage.Otps.{
  find_otp, get_otp_by_id, count_since, count_by_email_since, invalidate_by_email,
}
use scouting_app.Storage.Otps.Keeping.{
  At, HasRoom, MayBeTried, create_otp-Kept, mark_used_if_unused-Kept, increment_attempts-Kept,
  invalidate_by_email-Kept,
}
use scouting_app.OneTimeCode.{nanoseconds, max_attempts, generate_code, new_otp_code, is_expired}
use scouting_app.Auth.{Session}
use scouting_app.Api.{Write, Handler, answer, internal_error, redirect_to, ignore}
use scouting_app.Api.Rules.{Triple-on_error, Triple-ignore, Triple-either_way}
use scouting_app.Api.Registration.{
  register_page, registration_refusal, save_or, store_code, send_code, offer_code, register,
  wrong_code, open_verified, redeem, check_code, verify,
}

module _ (now : ℕ) where
  abbrev pub Limits : World → Type 0
  Limits = At now (now - nanoseconds 3600)

  abbrev Room : String → World → Type 0
  Room = HasRoom now (now - nanoseconds 3600)

  -- Whatever is returned, the limits are kept.
  abbrev pub Kept : {A : Type 0} → Result A → World → Type 0
  Kept r = Limits

  Triple-save_or :
      {P : World → Type 0} (save : Session → Bool) (refused : List Write) (s : Session)
      (next : List Write → Handler)
      → ((w : World) → P w → Limits w)
      → ((saved : List Write) → Triple P (next saved) Kept)
      → Triple P (save_or save refused s next) Kept
  unfolding save_or
  Triple-save_or save refused s next h k = Triple-if (save s) _ _ (λ q. k _) (λ q. Triple-pure _ h)

  module _ (query_escape sum256 : String → String) (draw : ℕ → Option ℕ) (cookie : Result Session)
      (save : Session → Bool) where
    -- What is known of a code that was made for the address.
    abbrev MadeFor : String → Option (String × OtpCode) → Type 0
    MadeFor email none = Unit {0}
    MadeFor email (some (code, o)) = (o.email ≡ email) × (o.attempts ≡ 0)

    new_otp_code-MadeFor :
        (email : String) (t : ℕ) → MadeFor email (new_otp_code sum256 draw email t)
    unfolding new_otp_code
    new_otp_code-MadeFor email t = elim (Option-cases (generate_code draw)) [
      | inl q ↦ rw q tt
      | inr (code, q) ↦ rw q (refl, refl)
    ]

    store_code-Kept :
        (email code : String) (o : OtpCode) (saved : List Write)
        → (o.email ≡ email) × (o.attempts ≡ 0)
        → Triple
            (Room email)
            (store_code query_escape sum256 draw cookie save email code o saved)
            Kept
    unfolding store_code
    store_code-Kept email code o saved h =
        Triple-on_error _ (λ o. Limits) _ _
          (Triple-before (Room o.email) _ (λ w k. rw h.0 k)
            (Triple-Either _ (create_otp-Kept now _ o h.1)))
          (λ o. Triple-pure _ (λ w h. h))

    send_code-Kept :
        (email : String) (made : Option (String × OtpCode))
        → MadeFor email made
        → Triple (Room email) (send_code query_escape sum256 draw cookie save email made) Kept
    unfolding send_code
    send_code-Kept email none m = Triple-pure _ (λ w h. h.0)
    send_code-Kept email (some (code, o)) m =
        Triple-either_way internal_error _ cookie (λ w h. h.0)
          (λ s.
            Triple-save_or save internal_error _ _ (λ w h. h.0)
              (λ saved. store_code-Kept email code o saved m))

    room-Kept :
        (email : String) (count : ℕ)
        → Triple
            (λ w. Limits w × (count_since email (now - nanoseconds 3600) w.otp_codes ≡ count))
            (if leb 5 count
              then pure
                  (register_page "Too many verification code requests. Please try again later.")
              else ignore (invalidate_by_email email) (
                  time_now >>= λ t.
                  send_code query_escape sum256 draw cookie save email
                    (new_otp_code sum256 draw email t)))
            Kept
    room-Kept email count =
        Triple-if (leb 5 count) _ _ (λ q. Triple-pure _ (λ w h. h.0))
          (λ q.
            Triple-before (Room email) _ (λ w h. (h.0, ap (λ n. leb 5 n) h.1 ∙ q))
              (Triple-ignore (Room email) _ _ (invalidate_by_email-Kept now _ email) (
                Triple-bind (λ t. Room email) _ _ (Triple-time_now (λ w h. h))
                  (λ t. send_code-Kept email _ (new_otp_code-MadeFor email t)))))

    offered-Kept :
        (email : String) (p : Profile) (refusal : Option String)
        → registration_refusal p ≡ refusal
        → Triple Limits (offer_code query_escape sum256 draw cookie save email p) Kept
    unfolding offer_code count_by_email_since
    offered-Kept email p (some message) q = rw (q, offer_code) (Triple-pure _ (λ w h. h))
    offered-Kept email p none q =
        rw (q, offer_code)
          (Triple-bind (λ t w. Limits w × (t ≡ now)) _ _ (Triple-time_now (λ w h. (h, h.0)))
            (λ t. Triple-given _ (λ e.
              Triple-on_error _
                (λ count w.
                  Limits w × (count_since email (now - nanoseconds 3600) w.otp_codes ≡ count))
                _ _ (Triple-query _ (λ w h. (h, rw e refl)) (λ w h. h)) (room-Kept email))))

    pub register-Kept :
        (field : String) → Triple Limits (register query_escape sum256 draw cookie save field) Kept
    unfolding register get_profile_by_email
    register-Kept field =
        Triple-if (to_lower (trim_space field) == "") _ _ (λ q. Triple-pure _ (λ w h. h))
          (λ q.
            Triple-on_error _ (λ p. Limits) _ _
              (Triple-Either _ (Triple-query _ (λ w h. h) (λ w h. h)))
              (λ p. offered-Kept _ p _ refl))

  module _ (sum256 : String → String) (cookie : Result Session) (save : Session → Bool) where
    wrong_code-Kept :
        (id : String) (o : OtpCode)
        → Triple
            (MayBeTried now (now - nanoseconds 3600) id o)
            (wrong_code sum256 cookie save id o)
            Kept
    unfolding wrong_code
    wrong_code-Kept id o =
        Triple-on_error _ (λ n. Limits) _ _ (Triple-Either _ (increment_attempts-Kept now _ id o))
          (λ n.
            Triple-if (leb max_attempts n) _ _ (λ q. Triple-pure _ (λ w h. h))
              (λ q. Triple-pure _ (λ w h. h)))

    open_verified-Kept :
        (o : OtpCode) (s : Session) → Triple Limits (open_verified sum256 cookie save o s) Kept
    unfolding open_verified
    open_verified-Kept o s =
        Triple-bind (λ t. Limits) _ _ (Triple-time_now (λ w h. h))
          (λ t.
            Triple-save_or save (answer 500 "session save error") _ _ (λ w h. h)
              (λ saved. Triple-pure (saved ++ redirect_to "/register/complete") (λ w h. h)))

    redeem-Kept : (id : String) (o : OtpCode) → Triple Limits (redeem sum256 cookie save id o) Kept
    unfolding redeem
    redeem-Kept id o =
        Triple-on_error _ (λ b. Limits) _ _ (Triple-Either _ (mark_used_if_unused-Kept now _ id))
          (λ b.
            Triple-if (not b) _ _ (λ q. Triple-pure _ (λ w h. h))
              (λ q. Triple-either_way _ _ cookie (λ w h. h) (open_verified-Kept o)))

    check_code-Kept :
        (id code : String) (o : OtpCode) (expired : Bool)
        → Triple
            (λ w. Limits w × (find_otp id w.otp_codes ≡ some o))
            (check_code sum256 cookie save id code o expired)
            Kept
    unfolding check_code
    check_code-Kept id code o expired =
        Triple-if (expired || o.used) _ _ (λ q. Triple-pure _ (λ w h. h.0))
          (λ q.
            Triple-if (leb max_attempts o.attempts) _ _ (λ k. Triple-pure _ (λ w h. h.0))
              (λ k.
                Triple-if (not (sum256 code == o.code_hash)) _ _
                  (λ l.
                    Triple-before (MayBeTried now (now - nanoseconds 3600) id o) _
                      (λ w h. (h.0, h.1, ground arith)) (wrong_code-Kept id o))
                  (λ l. Triple-before Limits _ (λ w h. h.0) (redeem-Kept id o))))

    pub verify-Kept : (id code : String) → Triple Limits (verify sum256 cookie save id code) Kept
    unfolding verify get_otp_by_id is_expired
    verify-Kept id code =
        Triple-if (id == "" || code == "") _ _ (λ q. Triple-pure _ (λ w h. h))
          (λ q.
            Triple-on_error _ (λ o w. Limits w × (find_otp id w.otp_codes ≡ some o)) _ _
              (Triple-query _ (λ w h. found w h _ refl) (λ w h. h))
              (λ o.
                Triple-bind (λ b w. Limits w × (find_otp id w.otp_codes ≡ some o)) _ _
                  (Triple-bind (λ t w. Limits w × (find_otp id w.otp_codes ≡ some o)) _ _
                    (Triple-time_now (λ w h. h)) (λ t. Triple-pure _ (λ w h. h)))
                  (check_code-Kept id code o)))
      where
        found :
            (w : World)
            → Limits w
            → (f : Option OtpCode) → find_otp id w.otp_codes ≡ f
            → Either
                (λ o v. Limits v × (find_otp id v.otp_codes ≡ some o))
                Limits
                (first f otp_not_found)
                (tick w)
        found w h none q = h
        found w h (some o) q = (h, q)
