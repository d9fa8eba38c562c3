-- ===== src/Auth.antt =====
-- AuthService of internal/domain/auth/auth.go. The cookie store and bcrypt are arguments: what
-- session.Get and Save give, and whether a password fits a hash.
pub mod Admission
pub mod Login
pub mod Tests
use scouting_app.Base.{ℕ, String, Bool, not, List, Option, none, some, ◌==◌, any, if◌then◌else◌}
use scouting_app.Base.Int.{ℤ, pos, negsuc}
use scouting_app.Profile.{Profile, User, Role, disabled, inactive, status_eq}
use scouting_app.Db.{
  Result, ok, err, invalid_credentials, account_disabled, account_inactive, admin_role_not_found,
  session_error, hash_error, Db, pure, fail, attempt, time_now, ◌>>=◌,
}
use scouting_app.Storage.Profiles.{
  get_profile_by_user_id, get_user_by_email, get_user_by_id, create_user,
}
use scouting_app.Storage.Rbac.{get_user_roles, get_role_by_name, assign_role_to_user}

-- The cookie's values and its age in seconds. "verified_at" is a text in RFC 3339, here the moment
-- that it stands for, which has whole seconds; one that does not parse counts as missing.
pub record Session : Type 0 where
  pub user_id : Option String
  pub register_email : Option String
  pub verified_email : Option String
  pub verified_at : Option ℕ
  pub max_age : ℤ

unfoldable pub checked_roles : Result (List Role) → Db (Unit {0})
checked_roles (err e) = fail invalid_credentials
checked_roles (ok roles) =
    if any (λ r. r.name == "admin") roles then pure tt else fail account_inactive

unfoldable pub checked_profile : String → Result Profile → Db (Unit {0})
unfolding checked_roles
checked_profile user_id (err e) = fail invalid_credentials
checked_profile user_id (ok p) =
    if status_eq p.status disabled
    then fail account_disabled
    else (if not (status_eq p.status inactive)
        then pure tt
        else (do roles ← attempt (get_user_roles user_id); checked_roles roles))

-- The repository never returns a nil profile without an error.
unfoldable pub check_profile_active : String → Db (Unit {0})
unfolding checked_profile
check_profile_active user_id = do
  found ← attempt (get_profile_by_user_id user_id)
  checked_profile user_id found

module _ (verify : String → String → Bool) (cookie : Result Session) (save : Session → Bool) where
  unfoldable pub open_session : User → Result Session → Db (User × Session)
  open_session u (err e) = fail e
  open_session u (ok s) =
      let opened = record s { user_id = some u.id; max_age = pos 86400 } in
      if save opened then pure (u, opened) else fail session_error

  unfoldable pub enter : String → Result User → Db (User × Session)
  unfolding open_session check_profile_active
  enter password (err e) = fail invalid_credentials
  enter password (ok u) =
      if not (verify password u.password_hash)
      then fail invalid_credentials
      else (do _ ← check_profile_active u.id; open_session u cookie)

  -- The user, and the session that goes out with the response.
  unfoldable pub login : String → String → Db (User × Session)
  unfolding enter
  login email password = do found ← attempt (get_user_by_email email); enter password found

unfoldable pub some_user : Result User → Option User
some_user (err e) = none
some_user (ok u) = some u

unfoldable pub session_user : Option String → Db (Option User)
unfolding some_user
session_user none = pure none
session_user (some id) =
    if id == "" then pure none else (do found ← attempt (get_user_by_id id); pure (some_user found))

unfoldable pub get_authenticated_user : Result Session → Db (Option User)
unfolding session_user
get_authenticated_user (err e) = pure none
get_authenticated_user (ok s) = session_user s.user_id

unfoldable pub logout : (Session → Bool) → Result Session → Result Session
logout save (err e) = err e
logout save (ok s) =
    let closed = record s { user_id = none; max_age = negsuc 0 } in
    if save closed then ok closed else err session_error

give_admin_role : String → Result Role → Db (Unit {0})
give_admin_role user_id (err e) = fail admin_role_not_found
give_admin_role user_id (ok role) = assign_role_to_user user_id role.id

-- `hash` is the hasher's result on the password "password".
unfoldable pub seed_admin_user : Option String → Db (Unit {0})
unfolding give_admin_role
seed_admin_user none = fail hash_error
seed_admin_user (some hash) = do
  now ← time_now
  u ←
      create_user
        (record { id = ""; email = "admin@scout.local"; password_hash = hash; created_at = now })
  role ← attempt (get_role_by_name "admin")
  give_admin_role u.id role
