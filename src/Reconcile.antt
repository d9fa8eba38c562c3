-- ===== src/Reconcile.antt =====
-- ReconcileRoles of internal/domain/rbac/reconcile.go. Go ranges over a map in an order that it does
-- not fix: `MapRange` is any order that visits the keys of the map.
pub mod Frame
pub mod Held
pub mod Roles
pub mod Positions
pub mod Tests
use scouting_app.Base.{
  String, Bool, true, false, not, ◌||◌, List, [], ◌∷◌, ◌++◌, ◌≡◌, ◌==◌, if◌then◌else◌,
}
use scouting_app.Text.{has_key}
use scouting_app.Text.Splitting.{split_comma_space}
use scouting_app.Profile.{Role}
use scouting_app.Db.{Result, ok, err, Db, pure, attempt, ◌>>=◌, ◌>>◌}
use scouting_app.Storage.Rbac.{
  create_role, assign_role_to_user, remove_role_from_user, get_user_roles, get_role_by_name,
}

pub record MapRange : Type 0 where
  pub range : List String → List String
  pub has_key-range : (k : String) (keys : List String) → has_key k (range keys) ≡ has_key k keys

abbrev pub protected : String → Bool
protected name = name == "parent" || (name == "admin" || name == "Scouts BSA")

-- m[k] = true
unfoldable pub add_key : String → List String → List String
unfolding has_key
add_key k keys = if has_key k keys then keys else keys ++ k ∷ []

unfoldable pub current_role_names : List Role → List String
unfolding add_key
current_role_names [] = []
current_role_names (r ∷ roles) =
    let rest = current_role_names roles in if protected r.name then rest else add_key r.name rest

unfoldable pub keys_of : List String → List String
unfolding add_key
keys_of [] = []
keys_of (p ∷ positions) = add_key p (keys_of positions)

unfoldable pub target_positions : String → List String
unfolding keys_of split_comma_space
target_positions positions =
    if not (positions == "") then keys_of (split_comma_space positions) else []

-- Any error of GetRoleByName leads to CreateRole.
unfoldable pub role_or_new : String → Result Role → Db Role
role_or_new name (ok r) = pure r
role_or_new name (err e) = create_role (record { id = ""; name = name })

unfoldable pub give_role : String → String → Db (Unit {0})
unfolding role_or_new
give_role user_id name = do
  found ← attempt (get_role_by_name name)
  role ← role_or_new name found
  assign_role_to_user user_id role.id

-- The first loop: the names that were added.
unfoldable pub add_roles : String → List String → List String → Db (List String)
unfolding give_role has_key
add_roles user_id current [] = pure []
add_roles user_id current (name ∷ names) =
    let rest = add_roles user_id current names in
    if has_key name current
    then rest
    else (do give_role user_id name; added ← rest; pure (name ∷ added))

unfoldable pub drop_found : String → Result Role → Db Bool
drop_found user_id (err e) = pure false
drop_found user_id (ok role) = remove_role_from_user user_id role.id >> pure true

-- Whether the role was found; the loop goes on where it was not.
unfoldable pub drop_role : String → String → Db Bool
unfolding drop_found
drop_role user_id name = do found ← attempt (get_role_by_name name); drop_found user_id found

-- The second loop: the names that were removed.
unfoldable pub remove_roles : String → List String → List String → Db (List String)
unfolding drop_role has_key
remove_roles user_id target [] = pure []
remove_roles user_id target (name ∷ names) =
    let rest = remove_roles user_id target names in
    if has_key name target then rest else (do
      dropped ← drop_role user_id name
      removed ← rest
      pure (if dropped then name ∷ removed else removed))

unfoldable pub reconcile_roles : MapRange → String → String → Db (List String × List String)
unfolding current_role_names target_positions add_roles remove_roles
reconcile_roles order user_id positions = do
  roles ← get_user_roles user_id
  let current = current_role_names roles
  let target = target_positions positions
  added ← add_roles user_id current (order.range target)
  removed ← remove_roles user_id target (order.range current)
  pure (added, removed)
