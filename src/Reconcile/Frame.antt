-- ===== src/Reconcile/Frame.antt =====
-- ReconcileRoles of internal/domain/rbac/reconcile.go does not touch the profiles.
use scouting_app.Base.{String, ◌&&◌, ◌||◌, List, [], ◌∷◌, ◌==◌, inl, inr, Bool-cases, any}
use scouting_app.Text.{has_key}
use scouting_app.Profile.{Profile, Role}
use scouting_app.Db.{World, Tables, Result, ok, err, no_rows}
use scouting_app.Db.Keeps.{
  Keeps, Keeps-bind, Keeps-attempt, Keeps-query, Keeps-statement, Keeps-pure, Keeps-fail, Keeps-if,
  Keeps-new_uuid,
}
use scouting_app.Storage.Rbac.{
  insert_role, create_role, create_missing, assign_role_to_user, link_user_role,
  remove_role_from_user, unlink_user_role, get_user_roles, get_role_by_name,
}
use scouting_app.Reconcile.{
  MapRange, role_or_new, give_role, add_roles, drop_found, drop_role, remove_roles, reconcile_roles,
  current_role_names, target_positions,
}

module _ (P : List Profile → Type 0) where
  abbrev pub Kept : Tables → Type 0
  Kept t = P t.profiles

  insert_role-Kept : (r : Role) (w : World) → Kept w.tables → Kept (insert_role r w).1
  unfolding insert_role
  insert_role-Kept r w h = elim (Bool-cases (any (λ q. q.id == r.id || q.name == r.name) w.roles)) [
    | inl q ↦ rw q h
    | inr q ↦ rw q h
  ]

  link-Kept : (user role : String) (w : World) → Kept w.tables → Kept (link_user_role user role w).1
  unfolding link_user_role
  link-Kept user role w h =
      elim (Bool-cases (any (λ u. u.id == user) w.users && any (λ r. r.id == role) w.roles)) [
        | inl q ↦ rw q h
        | inr q ↦ rw q h
      ]

  create_missing-Kept : (r : Role) (found : Result Role) → Keeps Kept (create_missing r found)
  unfolding create_missing
  create_missing-Kept r (ok q) = Keeps-pure _
  create_missing-Kept r (err no_rows) =
      Keeps-bind _ _ Keeps-new_uuid (λ id. Keeps-statement _ (insert_role-Kept _))
  create_missing-Kept r (err e) = Keeps-fail e

  role_or_new-Kept : (name : String) (found : Result Role) → Keeps Kept (role_or_new name found)
  unfolding role_or_new create_role
  role_or_new-Kept name (ok r) = Keeps-pure _
  role_or_new-Kept name (err e) =
      Keeps-bind _ _ (Keeps-attempt _ (Keeps-query _))
        (create_missing-Kept (record { id = ""; name = name }))

  give_role-Kept : (user name : String) → Keeps Kept (give_role user name)
  unfolding give_role get_role_by_name assign_role_to_user
  give_role-Kept user name = Keeps-bind _ _ (Keeps-attempt _ (Keeps-query _)) (λ found.
      Keeps-bind _ _ (role_or_new-Kept name found)
        (λ role. Keeps-statement _ (link-Kept user role.id)))

  add_roles-Kept :
      (user : String) (current names : List String) → Keeps Kept (add_roles user current names)
  unfolding add_roles
  add_roles-Kept user current [] = Keeps-pure _
  add_roles-Kept user current (name ∷ names) =
      Keeps-if (has_key name current) _ _ (λ q. add_roles-Kept user current names)
        (λ q.
          Keeps-bind _ _ (give_role-Kept user name)
            (λ u. Keeps-bind _ _ (add_roles-Kept user current names) (λ added. Keeps-pure _)))

  drop_found-Kept : (user : String) (found : Result Role) → Keeps Kept (drop_found user found)
  unfolding drop_found remove_role_from_user unlink_user_role
  drop_found-Kept user (err e) = Keeps-pure _
  drop_found-Kept user (ok role) = Keeps-bind _ _ (Keeps-statement _ (λ w h. h)) (λ u. Keeps-pure _)

  drop_role-Kept : (user name : String) → Keeps Kept (drop_role user name)
  unfolding drop_role get_role_by_name
  drop_role-Kept user name = Keeps-bind _ _ (Keeps-attempt _ (Keeps-query _)) (drop_found-Kept user)

  remove_roles-Kept :
      (user : String) (target names : List String) → Keeps Kept (remove_roles user target names)
  unfolding remove_roles
  remove_roles-Kept user target [] = Keeps-pure _
  remove_roles-Kept user target (name ∷ names) =
      Keeps-if (has_key name target) _ _ (λ q. remove_roles-Kept user target names)
        (λ q.
          Keeps-bind _ _ (drop_role-Kept user name)
            (λ b. Keeps-bind _ _ (remove_roles-Kept user target names) (λ removed. Keeps-pure _)))

  -- Whatever it returns, what held of the profiles holds still.
  pub reconcile_roles-Kept :
      (order : MapRange) (user positions : String)
      → Keeps Kept (reconcile_roles order user positions)
  unfolding reconcile_roles get_user_roles
  reconcile_roles-Kept order user positions = Keeps-bind _ _ (Keeps-query _) (λ roles.
      Keeps-bind _ _
        (add_roles-Kept user (current_role_names roles) (order.range (target_positions positions)))
        (λ added.
          Keeps-bind _ _
            (remove_roles-Kept user (target_positions positions)
              (order.range (current_role_names roles)))
            (λ removed. Keeps-pure _)))
