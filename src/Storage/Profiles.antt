-- ===== src/Storage/Profiles.antt =====
-- internal/storage/postgres/profile_repository.go, user_repository.go and coalesceTime of
-- postgres.go, with the unique index and the foreign key of the profiles table.
pub mod Counting
use scouting_app.Base.{
  ℕ, ◌-◌, ◌%◌, String, Bool, true, false, not, ◌&&◌, ◌||◌, List, [], ◌∷◌, ◌++◌, Option, none, some,
  ◌==◌, nat_eq, any, find, where_, update_where, if◌then◌else◌,
}
use scouting_app.Profile.{Profile, Status, User, status_eq}
use scouting_app.Db.{
  World, Tables, Result, ok, err, constraint, profile_not_found, user_not_found, Db, pure, fail,
  statement, query, new_uuid, ◌>>=◌, first,
}

-- Moments are kept in microseconds; the zero time is 0.
abbrev pub truncate_micro : ℕ → ℕ
truncate_micro t = t - t % 1000

abbrev pub coalesce_time : ℕ → World → ℕ
coalesce_time t w = if nat_eq t 0 then truncate_micro w.now else truncate_micro t

-- p.user_id is NULL, or the id of a user.
abbrev pub user_exists : List User → Option String → Bool
user_exists users none = true
user_exists users (some id) = any (λ u. u.id == id) users

-- Another profile has the BSA id, which is not empty.
abbrev pub bsa_id_taken : Profile → List Profile → Bool
bsa_id_taken p profiles =
    not (p.bsa_id == "") && any (λ q. q.bsa_id == p.bsa_id && not (q.id == p.id)) profiles

unfoldable pub insert_profile : Profile → World → Result Profile × Tables
insert_profile p w =
    let now = coalesce_time p.created_at w in
    if any (λ q. q.id == p.id) w.profiles
      || (bsa_id_taken p w.profiles || not (user_exists w.users p.user_id))
    then (err constraint, w.tables)
    else (
      ok p,
      record w.tables {
        profiles = w.profiles ++ record p { created_at = now; updated_at = now } ∷ [];
      },
    )

-- The caller's profile gets its id.
unfoldable pub create_profile : Profile → Db Profile
unfolding insert_profile
create_profile p = do
  id ← if p.id == "" then new_uuid else pure p.id
  statement (insert_profile (record p { id = id }))

unfoldable pub get_profile_by_id : String → Db Profile
get_profile_by_id id = query (λ w. first (find (λ p. p.id == id) w.profiles) profile_not_found)

unfoldable pub get_profile_by_email : String → Db Profile
get_profile_by_email email =
    query (λ w. first (find (λ p. p.email == email) w.profiles) profile_not_found)

unfoldable pub get_profile_by_bsa_id : String → Db Profile
get_profile_by_bsa_id bsa_id =
    if bsa_id == ""
    then fail profile_not_found
    else query (λ w. first (find (λ p. p.bsa_id == bsa_id) w.profiles) profile_not_found)

abbrev pub has_user : String → Profile → Bool
has_user user_id p = elim p.user_id [ none ↦ false | some id ↦ id == user_id ]

unfoldable pub get_profile_by_user_id : String → Db Profile
get_profile_by_user_id user_id =
    query (λ w. first (find (has_user user_id) w.profiles) profile_not_found)

unfoldable pub list_profiles_by_status : Status → Db (List Profile)
list_profiles_by_status status =
    query (λ w. ok (where_ (λ p. status_eq p.status status) w.profiles))

write_profile : Profile → World → Result (Unit {0}) × Tables
write_profile p w =
    if any (λ q. q.id == p.id) w.profiles
      && (bsa_id_taken p w.profiles || not (user_exists w.users p.user_id))
    then (err constraint, w.tables)
    else (
      ok tt,
      record w.tables {
        profiles =
            update_where (λ q. q.id == p.id)
              (λ q. record p { created_at = q.created_at; updated_at = truncate_micro w.now })
              w.profiles;
      },
    )

unfoldable pub update_profile : Profile → Db (Unit {0})
unfolding write_profile
update_profile p = statement (write_profile p)

-- The users table has no e-mail.
unfoldable pub insert_user : User → World → Result User × Tables
insert_user u w = if any (λ v. v.id == u.id) w.users then (err constraint, w.tables) else (
  ok u,
  record w.tables {
    users = w.users ++ record u { email = ""; created_at = coalesce_time u.created_at w } ∷ [];
  },
)

unfoldable pub create_user : User → Db User
unfolding insert_user
create_user u = do
  id ← if u.id == "" then new_uuid else pure u.id
  statement (insert_user (record u { id = id }))

unfoldable pub get_user_by_id : String → Db User
get_user_by_id id = query (λ w. first (find (λ u. u.id == id) w.users) user_not_found)

-- The user that a profile with the e-mail belongs to.
unfoldable pub get_user_by_email : String → Db User
get_user_by_email email = query (λ w.
    first (find (λ u. any (λ p. p.email == email && has_user u.id p) w.profiles) w.users)
      user_not_found)
