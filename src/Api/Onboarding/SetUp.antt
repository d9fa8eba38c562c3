-- ===== src/Api/Onboarding/SetUp.antt =====
-- What the last step of the onboarding form leaves: Password of internal/api/onboarding.go.
use scouting_app.Api.Onboarding.Storing.{Stored, AreFresh, all_of, set_settings-Stored}
use mathlib.Core.Path.{subst}
use scouting_app.Base.{
  String, ◌≡◌, refl, sym, ap, ◌∙◌, Bool, true, false, not, ◌&&◌, ◌||◌, List, [], ◌∷◌, Option, none,
  some, ◌==◌, eq_iff, eq_refl, inl, inr, Bool-cases, any, any-last, arith,
}
use scouting_app.Profile.{Profile, User, Role}
use scouting_app.Db.{World, Tables, Result, ok, err, tick, first, role_not_found, pure}
use scouting_app.Db.Runs.{ok-injective}
use scouting_app.Db.Triples.{
  Triple, Returns, Either, Triple-pure, Triple-bind, Triple-query, Triple-statement, Triple-if,
  Triple-new_uuid, Triple-before, Triple-ended, result-Triple,
}
use scouting_app.Pages.{Answers}
use scouting_app.Api.{Write, redirect}
use scouting_app.Api.Rules.{Triple-on_error}
use scouting_app.Storage.Profiles.{
  has_user, insert_user, create_user, insert_profile, create_profile, bsa_id_taken, user_exists,
}
use scouting_app.Storage.Rbac.{find_role, get_role_by_name, assign_role_to_user, link_user_role}
use scouting_app.Reconcile.Held.{has_role, is_role, find_role-is_role, has_role-insert_pair}
use scouting_app.Api.Onboarding.{
  settings_of, clear_form, cleared_error, first_profile, set_up, hash_then_set_up, password,
  password_refusal, load_form, lacks_timezone, no_answers, form_page,
}

-- The response sends the browser to the end of the form.
unfoldable pub finished : List Write → Bool
finished [] = false
finished (redirect t ∷ writes) = t == "/onboard/complete" || finished writes
finished (_ ∷ writes) = finished writes

module _ (cookie : Result Answers) (save : Answers → Bool) (a : Answers) (hash : String) where
  -- The user has the password, the role admin and a profile with the e-mail that was given.
  abbrev pub IsAdmin : String → Tables → Type 0
  IsAdmin u t =
      (any (λ v. v.id == u && v.password_hash == hash) t.users ≡ true)
      × (has_role u "admin" t.roles t.user_roles ≡ true)
      × (any (λ p. p.email == a.email && has_user u p) t.profiles ≡ true)

  abbrev pub IsSetUp : Tables → Type 0
  IsSetUp t = ((u : String) × IsAdmin u t) × Stored (settings_of cookie save a) t.app_config

  abbrev Good : List Write → World → Type 0
  Good writes w = finished writes ≡ true → IsSetUp w.tables

  cleared-unfinished : finished (cleared_error cookie save) ≡ false
  unfolding cleared_error clear_form finished
  cleared-unfinished = elim cookie as (λ c. finished (cleared_error c save) ≡ false) [
    | err e ↦ refl
    | ok old ↦ elim (Bool-cases (save old)) [
      | inl q ↦ rw (q, cleared_error, clear_form) refl
      | inr q ↦ rw (q, cleared_error, clear_form) refl
    ]
  ]

  refused-Good : (w : World) → Good (cleared_error cookie save) w
  refused-Good w h = absurd (ground (arith, cleared-unfinished))

  -- What the steps before have left.
  abbrev HasUser : String → Tables → Type 0
  HasUser u t = any (λ v. v.id == u && v.password_hash == hash) t.users ≡ true

  -- An error ends with the page of an error, for which there is nothing to show.
  abbrev NoClaim : World → Type 0
  NoClaim w = Unit {0}

  insert_user-HasUser :
      (u : User) (w : World)
      → u.password_hash ≡ hash
      → Either
          (λ v w. HasUser v.id w.tables)
          NoClaim
          (insert_user u w).0
          (record (tick w) { tables = (insert_user u w).1 })
  unfolding insert_user
  insert_user-HasUser u w e = elim (Bool-cases (any (λ v. v.id == u.id) w.users)) [
    | inl q ↦ rw q tt
    | inr q ↦ rw q (
        any-last (λ v. v.id == u.id && v.password_hash == hash) w.users _
          (rw (eq_refl u.id) ((eq_iff u.password_hash hash).1 e)))
  ]

  create_user-HasUser :
      Triple NoClaim
        (create_user (record { id = ""; email = ""; password_hash = hash; created_at = 0 }))
        (Either (λ u w. HasUser u.id w.tables) NoClaim)
  unfolding create_user
  create_user-HasUser =
      Triple-bind (λ id. NoClaim) _ _ (Triple-new_uuid (λ w h. tt))
        (λ id.
          Triple-statement _
            (λ w h.
              insert_user-HasUser
                (record { id = id; email = ""; password_hash = hash; created_at = 0 }) w refl)
            (λ w h. tt))

  abbrev HasAdmin : String → Tables → Type 0
  HasAdmin u t = HasUser u t × (has_role u "admin" t.roles t.user_roles ≡ true)

  link-HasAdmin :
      (u i : String) (w : World)
      → HasUser u w.tables × (is_role "admin" i w.roles ≡ true)
      → Either
          (λ d w. HasAdmin u w.tables)
          NoClaim
          (link_user_role u i w).0
          (record (tick w) { tables = (link_user_role u i w).1 })
  unfolding link_user_role
  link-HasAdmin u i w (h, k) =
      elim (Bool-cases (any (λ v. v.id == u) w.users && any (λ r. r.id == i) w.roles)) [
        | inl q ↦ rw q (h, has_role-insert_pair u "admin" i w.roles w.user_roles k)
        | inr q ↦ rw q tt
      ]

  insert_profile-IsAdmin :
      (u : String) (p : Profile) (w : World)
      → (p.email ≡ a.email) × (has_user u p ≡ true)
      → HasAdmin u w.tables
      → Either
          (λ q w. IsAdmin u w.tables)
          NoClaim
          (insert_profile p w).0
          (record (tick w) { tables = (insert_profile p w).1 })
  unfolding insert_profile
  insert_profile-IsAdmin u p w (e, f) (h, k) =
      elim (Bool-cases (
        any (λ q. q.id == p.id) w.profiles
        || (bsa_id_taken p w.profiles || not (user_exists w.users p.user_id)))) [
          | inl q ↦ rw q tt
          | inr q ↦ rw q (
            h,
            k,
            any-last (λ q. q.email == a.email && has_user u q) w.profiles _
                (rw ((eq_iff p.email a.email).1 e) f),
          )
        ]

  create_profile-IsAdmin :
      (u : String)
      → Triple
          (λ w. HasAdmin u w.tables)
          (create_profile (first_profile a u))
          (Either (λ q w. IsAdmin u w.tables) NoClaim)
  unfolding create_profile first_profile
  create_profile-IsAdmin u =
      Triple-bind (λ id w. HasAdmin u w.tables) _ _ (Triple-new_uuid (λ w h. h))
        (λ id.
          Triple-statement _
            (λ w h.
              insert_profile-IsAdmin u (record (first_profile a u) { id = id }) w (refl, eq_refl u)
                h)
            (λ w h. tt))

  set_up-Good : Triple NoClaim (set_up cookie save a hash) (Returns Good)
  unfolding set_up get_role_by_name assign_role_to_user settings_of
  set_up-Good =
      Triple-on_error _ (λ u w. HasUser u.id w.tables) _ _
        (Triple-ended refused-Good create_user-HasUser)
        (λ u.
          Triple-on_error _
            (λ role w. HasUser u.id w.tables × (is_role "admin" role.id w.roles ≡ true)) _ _
            (Triple-query _ (λ w h. found u.id w h _ refl) (λ w h. refused-Good w))
            (λ role.
              Triple-on_error _ (λ d w. HasAdmin u.id w.tables) _ _
                (Triple-ended refused-Good
                  (Triple-statement _ (link-HasAdmin u.id role.id) (λ w h. tt)))
                (λ d.
                  Triple-on_error _ (λ p w. IsAdmin u.id w.tables) _ _
                    (Triple-ended refused-Good (create_profile-IsAdmin u.id))
                    (λ p.
                      Triple-before (λ w. IsAdmin u.id w.tables × Unit {0}) _ (λ w h. (h, tt))
                        (set_settings-Stored (IsAdmin u.id) (Returns Good) (λ t rows h. h) []
                          (settings_of cookie save a) _ _ fresh refused-Good
                          (Triple-pure _ (λ w h k. ((u.id, h.0), turned w h.1))))))))
    where
      found :
          (u : String) (w : World)
          → HasUser u w.tables
          → (f : Option Role) → find_role "admin" w.roles ≡ f
          → Either
              (λ role v. HasUser u v.tables × (is_role "admin" role.id v.roles ≡ true))
              (λ v. Good (cleared_error cookie save) v)
              (first f role_not_found)
              (tick w)
      found u w h none q = refused-Good (tick w)
      found u w h (some r) q = (h, find_role-is_role "admin" w.roles r q)

      fresh : AreFresh [] (settings_of cookie save a)
      fresh = (
        tt,
        (
          (refl, tt),
          (
            (refl, (refl, tt)),
            ((refl, (refl, (refl, tt))), ((refl, (refl, (refl, (refl, tt)))), tt)),
          ),
        ),
      )

      turned :
          (w : World)
          → Stored (all_of [] (settings_of cookie save a)) w.app_config
          → Stored (settings_of cookie save a) w.app_config
      turned w h =
          let (complete, (zone, (number, (type, (guid, done))))) = h in
          (guid, (type, (number, (zone, (complete, tt)))))

module _ (cookie : Result Answers) (save : Answers → Bool) (hash_password : String → Option String)
    (field confirmation : String) where
  -- The app is set up with the hash of the password.
  abbrev pub IsDone : Tables → Type 0
  IsDone t =
      (hash : String) × (hash_password field ≡ some hash)
      × IsSetUp cookie save (load_form cookie) hash t

  abbrev Shows : List Write → World → Type 0
  Shows writes w = finished writes ≡ true → IsDone w.tables

  hashed-Shows :
      (o : Option String)
      → hash_password field ≡ o
      → Triple (λ w. Unit {0}) (hash_then_set_up cookie save (load_form cookie) o) (Returns Shows)
  unfolding hash_then_set_up
  hashed-Shows none q =
      Triple-pure _ (λ w h k. absurd (ground (arith, cleared-unfinished cookie save no_answers "")))
  hashed-Shows (some hash) q = record {
    at = λ w h.
        let (writes, r, good) =
          result-Triple _ _ w (set_up-Good cookie save (load_form cookie) hash) tt in
        subst (λ x. Returns Shows x (set_up cookie save (load_form cookie) hash w).1) (sym r)
          (λ k. (hash, q, good k));
  }

  password-Shows :
      Triple (λ w. Unit {0}) (password cookie save hash_password field confirmation) (Returns Shows)
  unfolding password finished
  password-Shows =
      Triple-if (lacks_timezone (load_form cookie)) _ _ (λ q. Triple-pure _ (λ w h k. ground arith))
        (λ q. refusal (password_refusal field confirmation) refl)
    where
      refusal :
          (o : Option String)
          → password_refusal field confirmation ≡ o
          → Triple
              (λ w. Unit {0})
              (elim o [
                | some message ↦ pure (form_page "password" 4 (load_form cookie) [] message)
                | none ↦ hash_then_set_up cookie save (load_form cookie) (hash_password field)
              ])
              (Returns Shows)
      refusal none q = hashed-Shows _ refl
      refusal (some m) q = Triple-pure _ (λ w h k. ground arith)

  -- If the password step answers with the redirect to the end, then the password has a hash, the
  -- five settings have the values of the form, and some user has this hash, the role admin and a
  -- profile with the e-mail of the form.
  pub password-IsDone :
      (w : World) (writes : List Write)
      → (password cookie save hash_password field confirmation w).0 ≡ ok writes
      → finished writes ≡ true
      → IsDone (password cookie save hash_password field confirmation w).1.tables
  password-IsDone w writes r k =
      let (others, s, shown) = result-Triple _ _ w password-Shows tt in
      shown (ap finished (ok-injective others writes (sym s ∙ r)) ∙ k)
