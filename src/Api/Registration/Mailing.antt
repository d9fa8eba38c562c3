-- ===== src/Api/Registration/Mailing.antt =====
-- The codes that Register of internal/api/registration.go mails, and Verify's answer to them.
use mathlib.Core.Path.{subst}
use scouting_app.Base.{
  ℕ, ◌+◌, ◌≤◌, ◌<◌, String, ◌≡◌, refl, sym, ap, ◌∙◌, Bool, true, false, List, [], ◌∷◌, Option, none,
  some, ◌==◌, inl, inr, Option-cases, leb, arith, All,
}
use scouting_app.Text.Casing.{to_lower, trim_space}
use scouting_app.Profile.{Profile}
use scouting_app.Db.{World, OtpCode, Result, ok}
use scouting_app.Db.Runs.{ok-injective}
use scouting_app.Db.Triples.{
  Triple, Returns, Triple-pure, Triple-bind, Triple-query, Triple-statement, Triple-if,
  Triple-time_now, Triple-given, Triple-Either, result-Triple, Triple-ended, Triple-forget,
}
use scouting_app.Storage.Profiles.{get_profile_by_email}
use scouting_app.Storage.Otps.{find_otp, count_by_email_since, invalidate_by_email}
use scouting_app.Storage.Otps.Storing.{HasNewId, Stored, create_otp-Stored}
use mathlib.Core.List.{Memᴰ}
use mathlib.Core.List.Memᴰ.{head, tail, not-nil}
use scouting_app.OneTimeCode.{code_expiry, generate_code, new_otp_code}
use scouting_app.OneTimeCode.Drawing.{generate_code-filled}
use scouting_app.Auth.{Session}
use scouting_app.Api.{Write, send_otp, save_session, redirect, internal_error}
use scouting_app.Api.Rules.{Triple-on_error, Triple-ignore, Triple-either_way}
use scouting_app.Api.Registration.{
  registration_refusal, save_or, store_code, send_code, offer_code, register, verify,
}
use scouting_app.Api.Registration.Opening.{opened, verify-opens}

-- The code is stored under the id with the address, was never used nor tried, lives as long as a code
-- that is made now, and has the hash of the text.
abbrev Fresh : (String → String) → ℕ → String → String → String → World → Type 0
Fresh sum256 now email code id w =
    ((id == "") ≡ false)
    × ((code == "") ≡ false)
    × (o : OtpCode) × (find_otp id w.otp_codes ≡ some o)
    × (o.email ≡ email)
    × (o.used ≡ false)
    × (o.attempts ≡ 0)
    × (o.expires_at ≡ now + code_expiry)
    × (sum256 code ≡ o.code_hash)

abbrev FreshIfSent : (String → String) → ℕ → World → Write → Type 0
FreshIfSent sum256 now w (send_otp email code id) = Fresh sum256 now email code id w
FreshIfSent sum256 now w _ = Unit {0}

abbrev Mailed : (String → String) → ℕ → List Write → World → Type 0
Mailed sum256 now writes w = All (FreshIfSent sum256 now w) writes

All-Memᴰ :
    (P : Write → Type 0) (x : Write) (writes : List Write) → All P writes → Memᴰ x writes → P x
All-Memᴰ P x [] h m = absurd (not-nil m)
All-Memᴰ P x (y ∷ writes) h (head e) = subst P (sym e) h.0
All-Memᴰ P x (y ∷ writes) h (tail m) = All-Memᴰ P x writes h.1 m

module _ (query_escape sum256 : String → String) (draw : ℕ → Option ℕ)
    (digits : (n d : ℕ) → draw n ≡ some d → d < 10) (save : Session → Bool) where
  module _ (cookie : Result Session) (now : ℕ) where
    -- A code that was made for the address at this time.
    abbrev Made : String → Option (String × OtpCode) → Type 0
    Made email none = Unit {0}
    Made email (some (code, o)) =
        ((code == "") ≡ false)
        × (o.email ≡ email)
        × (o.used ≡ false)
        × (o.attempts ≡ 0)
        × (o.expires_at ≡ now + code_expiry)
        × (sum256 code ≡ o.code_hash)

    new_otp_code-Made :
        (email : String) (t : ℕ) → t ≡ now → Made email (new_otp_code sum256 draw email t)
    unfolding new_otp_code
    new_otp_code-Made email t e = elim (Option-cases (generate_code draw)) [
      | inl q ↦ rw q tt
      | inr (code, q) ↦ rw q (
        generate_code-filled draw digits code q,
        refl,
        refl,
        refl,
        ap (λ n. n + code_expiry) e,
        refl,
      )
    ]

    store_code-Mailed :
        (email code : String) (made : OtpCode) (s : Session)
        → Made email (some (code, made))
        → Triple
            (HasNewId now)
            (store_code query_escape sum256 draw cookie save email code made (save_session s ∷ []))
            (Returns (Mailed sum256 now))
    unfolding store_code
    store_code-Mailed email code made s (filled, address, unused, tries, life, hash) =
        Triple-on_error _ (Stored now made) _ _
          (Triple-ended (λ w. (tt, (tt, tt))) (create_otp-Stored now made))
          (λ o. Triple-pure _ (λ w (new, t, found).
            (tt, ((new, filled, _, found, address, unused, tries, life, hash), (tt, tt)))))

    send_code-Mailed :
        (email : String) (made : Option (String × OtpCode))
        → Made email made
        → Triple
            (HasNewId now)
            (send_code query_escape sum256 draw cookie save email made)
            (Returns (Mailed sum256 now))
    unfolding send_code save_or
    send_code-Mailed email none m = Triple-pure _ (λ w h. (tt, tt))
    send_code-Mailed email (some (code, o)) m =
        Triple-either_way internal_error _ cookie (λ w h. (tt, tt))
          (λ s.
            Triple-if (save _) _ _ (λ q. store_code-Mailed email code o _ m)
              (λ q. Triple-pure _ (λ w h. (tt, tt))))

    offered-Mailed :
        (email : String) (p : Profile) (refusal : Option String)
        → registration_refusal p ≡ refusal
        → Triple
            (HasNewId now)
            (offer_code query_escape sum256 draw cookie save email p)
            (Returns (Mailed sum256 now))
    unfolding offer_code count_by_email_since invalidate_by_email
    offered-Mailed email p (some message) q = rw (q, offer_code) (Triple-pure _ (λ w h. (tt, tt)))
    offered-Mailed email p none q =
        rw (q, offer_code)
          (Triple-bind (λ t. HasNewId now) _ _ (Triple-time_now (λ w h. h))
            (λ t.
              Triple-on_error _ (λ count. HasNewId now) _ _
                (Triple-query _ (λ w h. h) (λ w h. (tt, tt)))
                (λ count.
                  Triple-if (leb 5 count) _ _ (λ q. Triple-pure _ (λ w h. (tt, tt)))
                    (λ q.
                      Triple-ignore (HasNewId now) _ _ (Triple-statement _ (λ w h. h) (λ w h. h)) (
                        Triple-bind (λ t w. HasNewId now w × (t ≡ now)) _ _
                          (Triple-time_now (λ w h. (h, h.0)))
                          (λ t.
                            Triple-given _
                              (λ e. send_code-Mailed email _ (new_otp_code-Made email t e))))))))

    register-Mailed :
        (field : String)
        → Triple
            (HasNewId now)
            (register query_escape sum256 draw cookie save field)
            (Returns (Mailed sum256 now))
    unfolding register get_profile_by_email
    register-Mailed field =
        Triple-if (to_lower (trim_space field) == "") _ _ (λ q. Triple-pure _ (λ w h. (tt, tt)))
          (λ q.
            Triple-on_error _ (λ p. HasNewId now) _ _
              (Triple-ended (λ w. (tt, tt))
                (Triple-forget (Triple-Either _ (Triple-query _ (λ w h. h) (λ w h. h)))))
              (λ p. offered-Mailed _ p _ refl))

  module _ (field : String) (w later : World) (writes : List Write) (email code id : String)
      (s : Session) (cookie : Result Session) where
    register-Fresh :
        (w.uuid w.uuids == "") ≡ false
        → (register query_escape sum256 draw cookie save field w).0 ≡ ok writes
        → Memᴰ (send_otp email code id) writes
        → Fresh sum256 w.now email code id (register query_escape sum256 draw cookie save field w).1
    register-Fresh new run sent =
        let (others, returned, h) =
          result-Triple _ _ w (register-Mailed cookie w.now field) (refl, new) in
        All-Memᴰ
          (FreshIfSent sum256 w.now (register query_escape sum256 draw cookie save field w).1) _
          others h
          (subst (Memᴰ (send_otp email code id)) (ok-injective writes others (sym run ∙ returned))
            sent)

    Fresh-verify :
        (v : World)
        → Fresh sum256 w.now email code id v
        → later.otp_codes ≡ v.otp_codes
        → later.now ≤ w.now + code_expiry
        → ((n : ℕ) → later.fault n ≡ false)
        → save (opened s email later.now) ≡ true
        → (verify sum256 (ok s) save id code later).0
          ≡ ok (save_session (opened s email later.now) ∷ redirect "/register/complete" ∷ [])
    Fresh-verify v (some_id, some_code, o, found, address, unused, tries, life, hash) same early
          answers saved =
        verify-opens sum256 s save id code o later answers
          (ap (λ e. save (opened s e later.now)) address ∙ saved) (ground arith)
          (ap (find_otp id) same ∙ found) unused (ground arith) (ground arith) hash
        ∙ ap (λ e. ok (save_session (opened s e later.now) ∷ redirect "/register/complete" ∷ []))
            address

    -- A code that Register has mailed is accepted: if the draws are digits and the new id is not
    -- empty, then Verify with the mailed id and text, while the codes are those that Register
    -- left, at most ten minutes later, when no statement fails and the cookie store gives a
    -- session and saves it, saves the session with the mail's address as verified, at this second,
    -- and redirects to the last step.
    pub register-verify :
        (w.uuid w.uuids == "") ≡ false
        → (register query_escape sum256 draw cookie save field w).0 ≡ ok writes
        → Memᴰ (send_otp email code id) writes
        → later.otp_codes ≡ (register query_escape sum256 draw cookie save field w).1.otp_codes
        → later.now ≤ w.now + code_expiry
        → ((n : ℕ) → later.fault n ≡ false)
        → save (opened s email later.now) ≡ true
        → (verify sum256 (ok s) save id code later).0
          ≡ ok (save_session (opened s email later.now) ∷ redirect "/register/complete" ∷ [])
    register-verify new run sent =
        Fresh-verify (register query_escape sum256 draw cookie save field w).1
          (register-Fresh new run sent)
