-- ===== src/Auth/Login.antt =====
-- Who gets through Login of internal/domain/auth/auth.go.
use scouting_app.Base.{
  String, ◌≡◌, refl, ap, ◌∙◌, Bool, true, false, not, ◌&&◌, ◌||◌, List, Option, none, some, ◌==◌,
  ◌⊎◌, inl, inr, any, find, arith,
}
use scouting_app.Profile.{Profile, User, Role, disabled, inactive, status_eq}
use scouting_app.Db.{World, Tables, Result, ok, err}
use scouting_app.Db.Runs.{Found, first-Found}
use scouting_app.Db.Ensures.{
  Ensures, Ensures-bind, Ensures-pure, Ensures-fail, Ensures-if, Ensures-after,
  Ensures-attempt_query, result-Ensures,
}
use scouting_app.Storage.Profiles.{get_profile_by_user_id, get_user_by_email, has_user}
use scouting_app.Storage.Rbac.{get_user_roles, user_roles_of}
use scouting_app.Auth.{
  Session, checked_roles, checked_profile, check_profile_active, open_session, enter, login,
}

-- The first user whose profile has the e-mail.
abbrev pub owner : String → Tables → Option User
owner email t = find (λ u. any (λ p. p.email == email && has_user u.id p) t.profiles) t.users

abbrev pub is_admin : String → Tables → Bool
is_admin id t = any (λ r. r.name == "admin") (user_roles_of id t.user_roles t.roles)

-- An active profile, or an inactive one of an admin.
abbrev pub admits : Bool → Option Profile → Bool
admits admin none = false
admits admin (some p) =
    not (status_eq p.status disabled) && (not (status_eq p.status inactive) || admin)

abbrev pub may_enter : String → Tables → Bool
may_enter id t = admits (is_admin id t) (find (has_user id) t.profiles)

module _ (P : Tables → Type 0) (id : String) where
  roles-Ensures :
      (found : Result (List Role))
      → Ensures
          (λ t. P t × Found (some (user_roles_of id t.user_roles t.roles)) found)
          (checked_roles found)
          (λ _ t. P t × (is_admin id t ≡ true))
  unfolding checked_roles
  roles-Ensures (err e) = Ensures-fail _
  roles-Ensures (ok roles) =
      Ensures-if (any (λ r. r.name == "admin") roles) _ _
        (λ q.
          Ensures-pure _ (λ t h. (h.0, ap (any (λ r. r.name == "admin")) (some-injective h.1) ∙ q)))
        (λ q. Ensures-fail _)
    where
      some-injective : {a b : List Role} → some a ≡ some b → a ≡ b
      some-injective {a} h = ap (λ o. elim o [ none ↦ a | some x ↦ x ]) h

module _ (P : Tables → Type 0) (id : String) where
  admin-enters :
      (t : Tables) (p : Profile)
      → find (has_user id) t.profiles ≡ some p
      → status_eq p.status disabled ≡ false
      → ((not (status_eq p.status inactive)) ≡ true) ⊎ (is_admin id t ≡ true)
      → may_enter id t ≡ true
  admin-enters t p h q (inl k) = rw (h, may_enter) (ground arith)
  admin-enters t p h q (inr k) = rw (h, may_enter) (ground arith)

  profile-Ensures :
      (found : Result Profile)
      → Ensures
          (λ t. P t × Found (find (has_user id) t.profiles) found)
          (checked_profile id found)
          (λ _ t. P t × (may_enter id t ≡ true))
  unfolding checked_profile get_user_roles
  profile-Ensures (err e) = Ensures-fail _
  profile-Ensures (ok p) =
      Ensures-if (status_eq p.status disabled) _ _ (λ q. Ensures-fail _)
        (λ q.
          Ensures-if (not (status_eq p.status inactive)) _ _
            (λ k. Ensures-pure _ (λ t h. (h.0, admin-enters t p h.1 q (inl k))))
            (λ k.
              Ensures-bind
                (λ found t.
                  (P t × (find (has_user id) t.profiles ≡ some p))
                  × Found (some (user_roles_of id t.user_roles t.roles)) found)
                _ _ (Ensures-attempt_query _ (λ w h. (h, refl)) (λ w h. (h, tt)))
                (λ found.
                  Ensures-after _
                    (roles-Ensures (λ t. P t × (find (has_user id) t.profiles ≡ some p)) id found)
                    (λ a t h. (h.0.0, admin-enters t p h.0.1 q (inr h.1))))))

  check-Ensures : Ensures P (check_profile_active id) (λ _ t. P t × (may_enter id t ≡ true))
  unfolding check_profile_active get_profile_by_user_id
  check-Ensures =
      Ensures-bind (λ found t. P t × Found (find (has_user id) t.profiles) found) _ _
        (Ensures-attempt_query _ (λ w h. (h, first-Found _ _)) (λ w h. (h, tt))) profile-Ensures

module _ (verify : String → String → Bool) (cookie : Result Session) (save : Session → Bool) where
  -- What the user and the session of a login are.
  unfoldable pub Admitted : String → String → User × Session → Tables → Type 0
  Admitted email password (u, s) t =
      (owner email t ≡ some u)
      × (verify password u.password_hash ≡ true)
      × (may_enter u.id t ≡ true)
      × (s.user_id ≡ some u.id)

  session-Ensures :
      (email password : String) (u : User) (found : Result Session)
      → verify password u.password_hash ≡ true
      → Ensures
          (λ t. (owner email t ≡ some u) × (may_enter u.id t ≡ true))
          (open_session verify cookie save u found)
          (Admitted email password)
  unfolding open_session Admitted
  session-Ensures email password u (err e) q = Ensures-fail _
  session-Ensures email password u (ok s) q =
      Ensures-if (save _) _ _ (λ k. Ensures-pure _ (λ t h. (h.0, q, h.1, refl)))
        (λ k. Ensures-fail _)

  enter-Ensures :
      (email password : String) (found : Result User)
      → Ensures
          (λ t. Found (owner email t) found)
          (enter verify cookie save password found)
          (Admitted email password)
  unfolding enter
  enter-Ensures email password (err e) = Ensures-fail _
  enter-Ensures email password (ok u) =
      Ensures-if (not (verify password u.password_hash)) _ _ (λ k. Ensures-fail _)
        (λ k.
          Ensures-bind (λ _ t. (owner email t ≡ some u) × (may_enter u.id t ≡ true)) _ _
            (check-Ensures (λ t. owner email t ≡ some u) u.id)
            (λ _. session-Ensures email password u cookie (ground arith)))

  -- A login that succeeds has let in the first user that a profile with the e-mail belongs to, the
  -- password fits the user's hash, the first profile of the user is active, or is inactive and the
  -- user has the role admin, and the session holds the user's id.
  pub login-Admitted :
      (email password : String) (w : World) (entered : User × Session)
      → (login verify cookie save email password w).0 ≡ ok entered
      → Admitted email password entered (login verify cookie save email password w).1.tables
  unfolding login get_user_by_email
  login-Admitted email password w entered h =
      result-Ensures {P = λ t. Unit {0}} _ w entered
        (Ensures-bind (λ found t. Found (owner email t) found) _ _
          (Ensures-attempt_query _ (λ w h. first-Found _ _) (λ w h. tt))
          (enter-Ensures email password))
        tt h
