-- ===== src/Storage/Rbac.antt =====
-- internal/storage/postgres/rbac_repository.go: roles by their unique names, the permissions, and
-- the two relations between users, roles and permissions.
use scouting_app.Base.{
  String, Bool, false, ◌&&◌, ◌||◌, List, [], ◌∷◌, ◌++◌, Option, none, some, ◌==◌, any, map, where_,
  if◌then◌else◌,
}
use scouting_app.Profile.{Role, Permission}
use scouting_app.Db.{
  World, Tables, Result, ok, err, constraint, no_rows, role_not_found, Db, pure, fail, attempt,
  statement, query, transaction, new_uuid, ◌>>=◌, ◌>>◌, first,
}

unfoldable pub find_role : String → List Role → Option Role
find_role name [] = none
find_role name (r ∷ roles) =
    let rest = find_role name roles in if r.name == name then some r else rest

-- A row of user_roles or role_permissions.
unfoldable pub holds : String → String → List (String × String) → Bool
holds a b [] = false
holds a b ((c, d) ∷ rows) = (c == a && d == b) || holds a b rows

-- INSERT … ON CONFLICT DO NOTHING
unfoldable pub insert_pair : String → String → List (String × String) → List (String × String)
unfolding holds
insert_pair a b rows = if holds a b rows then rows else rows ++ (a, b) ∷ []

unfoldable pub delete_pair : String → String → List (String × String) → List (String × String)
delete_pair a b [] = []
delete_pair a b ((c, d) ∷ rows) =
    let rest = delete_pair a b rows in if c == a && d == b then rest else (c, d) ∷ rest

delete_first : String → List (String × String) → List (String × String)
delete_first a [] = []
delete_first a ((c, d) ∷ rows) =
    let rest = delete_first a rows in if c == a then rest else (c, d) ∷ rest

unfoldable pub insert_role : Role → World → Result Role × Tables
insert_role r w =
    if any (λ q. q.id == r.id || q.name == r.name) w.roles
    then (err constraint, w.tables)
    else (ok r, record w.tables { roles = w.roles ++ r ∷ [] })

-- What follows the SELECT: only sql.ErrNoRows leads to the INSERT.
unfoldable pub create_missing : Role → Result Role → Db Role
unfolding insert_role
create_missing role (ok r) = pure (record role { id = r.id })
create_missing role (err no_rows) = do
  id ← new_uuid
  statement (insert_role (record role { id = id }))
create_missing role (err e) = fail e

unfoldable pub create_role : Role → Db Role
unfolding create_missing find_role
create_role role = do
  found ← attempt (query (λ w. first (find_role role.name w.roles) no_rows))
  create_missing role found

unfoldable pub link_user_role : String → String → World → Result (Unit {0}) × Tables
unfolding insert_pair
link_user_role user_id role_id w =
    if any (λ u. u.id == user_id) w.users && any (λ r. r.id == role_id) w.roles
    then (ok tt, record w.tables { user_roles = insert_pair user_id role_id w.user_roles })
    else (err constraint, w.tables)

unfoldable pub assign_role_to_user : String → String → Db (Unit {0})
unfolding link_user_role
assign_role_to_user user_id role_id = statement (link_user_role user_id role_id)

unfoldable pub unlink_user_role : String → String → World → Result (Unit {0}) × Tables
unfolding delete_pair
unlink_user_role user_id role_id w =
    (ok tt, record w.tables { user_roles = delete_pair user_id role_id w.user_roles })

unfoldable pub remove_role_from_user : String → String → Db (Unit {0})
unfolding unlink_user_role
remove_role_from_user user_id role_id = statement (unlink_user_role user_id role_id)

unfoldable pub user_roles_of : String → List (String × String) → List Role → List Role
user_roles_of user_id rows [] = []
user_roles_of user_id rows (r ∷ roles) =
    let rest = user_roles_of user_id rows roles in
    if holds user_id r.id rows then r ∷ rest else rest

unfoldable pub get_user_roles : String → Db (List Role)
unfolding user_roles_of holds
get_user_roles user_id = query (λ w. ok (user_roles_of user_id w.user_roles w.roles))

unfoldable pub get_role_by_name : String → Db Role
unfolding find_role
get_role_by_name name = query (λ w. first (find_role name w.roles) role_not_found)

-- A role of the user has the permission.
unfoldable pub grants : String → String → List Role → World → Bool
unfolding holds
grants user_id permission_id [] w = false
grants user_id permission_id (r ∷ roles) w =
    (holds user_id r.id w.user_roles && holds r.id permission_id w.role_permissions)
    || grants user_id permission_id roles w

unfoldable pub get_user_permissions : String → Db (List Permission)
unfolding grants
get_user_permissions user_id =
    query (λ w. ok (where_ (λ p. grants user_id p.id w.roles w) w.permissions))

-- The permission has the name and is linked with the role.
permission_granted : String → String → World → Bool
unfolding holds
permission_granted name role_id w =
    any (λ p. p.name == name && holds role_id p.id w.role_permissions) w.permissions

-- SELECT DISTINCT
distinct_users : List String → List String
distinct_users [] = []
distinct_users (id ∷ ids) =
    let rest = distinct_users ids in if any (λ i. i == id) rest then rest else id ∷ rest

unfoldable pub get_users_by_permission : String → Db (List String)
unfolding permission_granted distinct_users
get_users_by_permission name = query (λ w.
    ok (distinct_users (map (λ r. r.0) (where_ (λ r. permission_granted name r.1 w) w.user_roles))))

insert_role_permission : String → String → World → Result (Unit {0}) × Tables
unfolding insert_pair
insert_role_permission role_id permission_id w =
    if any (λ r. r.id == role_id) w.roles && any (λ p. p.id == permission_id) w.permissions
    then (
      ok tt,
      record w.tables { role_permissions = insert_pair role_id permission_id w.role_permissions },
    )
    else (err constraint, w.tables)

insert_all : String → List String → Db (Unit {0})
unfolding insert_role_permission
insert_all role_id [] = pure tt
insert_all role_id (id ∷ ids) = do
  statement (insert_role_permission role_id id)
  insert_all role_id ids

clear_role : String → World → Result (Unit {0}) × Tables
unfolding delete_first
clear_role role_id w =
    (ok tt, record w.tables { role_permissions = delete_first role_id w.role_permissions })

unfoldable pub set_role_permissions : String → List String → Db (Unit {0})
unfolding insert_all clear_role
set_role_permissions role_id permission_ids =
    transaction (statement (clear_role role_id) >> insert_all role_id permission_ids)
