-- ===== src/Reconcile/Tests.antt =====
-- ReconcileRoles at work on a user with one role.
use scouting_app.Base.{◌≡◌, refl, true, [], ◌∷◌}
use scouting_app.Examples.{camp, world}
use scouting_app.Text.{has_key}
use scouting_app.Text.Splitting.{split_comma_space}
use scouting_app.Db.{Tables, ok, ◌>>=◌}
use scouting_app.Storage.Rbac.{
  get_user_roles, get_role_by_name, create_role, assign_role_to_user, remove_role_from_user,
}
use scouting_app.Reconcile.{MapRange, reconcile_roles, target_positions}
use scouting_app.Reconcile.Held.{has_role}
use scouting_app.Reconcile.Positions.{reconcile_roles-positions}

-- The keys in the order in which they were put in.
abbrev in_order : MapRange
in_order = record { range = λ keys. keys; has_key-range = λ k keys. refl }

abbrev with_user : Tables
with_user = record camp {
  users = record { id = "u"; email = ""; password_hash = ""; created_at = 0 } ∷ [];
  roles = record { id = "1"; name = "Scribe" } ∷ [];
  user_roles = ("u", "1") ∷ [];
}

reconciled :
    (reconcile_roles in_order "u" "Patrol Leader" (world with_user)).0
    ≡ ok ("Patrol Leader" ∷ [], "Scribe" ∷ [])
unfolding reconcile_roles ◌>>=◌ get_user_roles get_role_by_name create_role assign_role_to_user
    remove_role_from_user split_comma_space has_key
reconciled = refl

leader_wanted : has_key "Patrol Leader" (target_positions "Patrol Leader") ≡ true
unfolding has_key target_positions split_comma_space
leader_wanted = refl

reconcile_roles-positions_example :
    has_role "u" "Patrol Leader"
      (reconcile_roles in_order "u" "Patrol Leader" (world with_user)).1.roles
      (reconcile_roles in_order "u" "Patrol Leader" (world with_user)).1.user_roles
    ≡ true
reconcile_roles-positions_example =
    reconcile_roles-positions in_order "u" "Patrol Leader" (world with_user)
      ("Patrol Leader" ∷ [], "Scribe" ∷ []) "Patrol Leader" (tt, tt) reconciled leader_wanted
