-- ===== src/Auth/Admission.antt =====
-- Whom Login of internal/domain/auth/auth.go has to let in.
use scouting_app.Base.{
  ℕ, String, ◌≡◌, refl, ap, ◌∙◌, Bool, true, false, Option, none, some, ◌⊎◌, inl, inr, Bool-cases,
  find, arith,
}
use scouting_app.Base.Int.{pos}
use scouting_app.Profile.{Profile, User, disabled, inactive, status_eq}
use scouting_app.Db.{World, Result, ok, Db, pure, query, attempt, tick, ◌>>=◌}
use scouting_app.Storage.Profiles.{get_profile_by_user_id, get_user_by_email, has_user}
use scouting_app.Storage.Rbac.{get_user_roles}
use scouting_app.Auth.{
  Session, checked_roles, checked_profile, check_profile_active, open_session, enter, login,
}
use scouting_app.Auth.Login.{owner, is_admin, admits, may_enter}

module _ {A B : Type 0} where
  -- A lookup that the database answers, and what goes on with it.
  attempt-query :
      (f : World → Result A) (g : Result A → Db B) (w : World) (r : Result A)
      → w.fault w.count ≡ false
      → f w ≡ r
      → (attempt (query f) >>= g) w ≡ g r (tick w)
  unfolding attempt query ◌>>=◌
  attempt-query f g w r q h = rw (q, h) refl

  bind-Result :
      (m : Db A) (g : A → Db B) (w : World) (a : A) (r : Result B)
      → (m w).0 ≡ ok a
      → ((v : World) → (g a v).0 ≡ r)
      → ((m >>= g) w).0 ≡ r
  unfolding ◌>>=◌
  bind-Result m g w a r h k = rw h (k (m w).1)

admits-found :
    (admin : Bool) (o : Option Profile)
    → admits admin o ≡ true
    → (p : Profile) × (o ≡ some p)
      × (status_eq p.status disabled ≡ false)
      × ((status_eq p.status inactive ≡ false) ⊎ (admin ≡ true))
admits-found admin none h = ground arith
admits-found admin (some p) h = elim (Bool-cases (status_eq p.status inactive)) [
  | inl q ↦ (p, refl, ground arith, inr (ground arith))
  | inr q ↦ (p, refl, ground arith, inl q)
]

module _ (id : String) (w : World) (answers : (n : ℕ) → w.fault n ≡ false) where
  profile_passes :
      (p : Profile)
      → status_eq p.status disabled ≡ false
      → (status_eq p.status inactive ≡ false) ⊎ (is_admin id w.tables ≡ true)
      → (checked_profile id (ok p) (tick w)).0 ≡ ok tt
  unfolding checked_profile checked_roles get_user_roles pure
  profile_passes p q (inl k) = rw (q, k) refl
  profile_passes p q (inr k) = elim (Bool-cases (status_eq p.status inactive)) [
    | inr u ↦ rw (q, u) refl
    | inl u ↦
        rw (q, u)
          (ap (λ x. x.0) (attempt-query _ checked_roles (tick w) _ (answers _) refl) ∙ rw k refl)
  ]

  check_passes : may_enter id w.tables ≡ true → (check_profile_active id w).0 ≡ ok tt
  unfolding check_profile_active get_profile_by_user_id
  check_passes h =
      let (p, e, q, k) = admits-found _ (find (has_user id) w.profiles) h in
      ap (λ x. x.0) (attempt-query _ (checked_profile id) w (ok p) (answers _) (rw e refl))
      ∙ profile_passes p q k

module _ (verify : String → String → Bool) (s : Session) (save : Session → Bool) where
  -- When no statement fails, the cookie store gives a session and saves it, some user has a
  -- profile with the e-mail, the password fits the hash of the first such user, and the first
  -- profile of the user is active, or is inactive and the user has the role admin, a login returns
  -- that user and the session with that user's id and an age of 86400 seconds.
  pub login-admits :
      (email password : String) (w : World) (u : User)
      → ((n : ℕ) → w.fault n ≡ false)
      → save (record s { user_id = some u.id; max_age = pos 86400 }) ≡ true
      → owner email w.tables ≡ some u
      → verify password u.password_hash ≡ true
      → may_enter u.id w.tables ≡ true
      → (login verify (ok s) save email password w).0
        ≡ ok (u, record s { user_id = some u.id; max_age = pos 86400 })
  unfolding login enter open_session get_user_by_email pure
  login-admits email password w u answers saved o v h =
      ap (λ x. x.0)
        (attempt-query _ (enter verify (ok s) save password) w (ok u) (answers _) (rw o refl))
      ∙ rw v (
          bind-Result (check_profile_active u.id) _ (tick w) tt _
            (check_passes u.id (tick w) answers h) (λ x. rw saved refl))
