-- ===== src/Reconcile/Positions.antt =====
-- The outcome of ReconcileRoles of internal/domain/rbac/reconcile.go: the positions are roles.
use mathlib.Core.Path.{subst}
use scouting_app.Base.{String, ◌≡◌, refl, ◌∙◌, true, List, [], ◌∷◌, eq_refl, All, arith}
use scouting_app.Text.{has_key}
use scouting_app.Db.{World, Tables, ok}
use scouting_app.Db.Runs.{ok-injective}
use scouting_app.Db.Ensures.{
  Ensures, Ensures-bind, Ensures-pure, Ensures-query, Ensures-after, result-Ensures,
}
use scouting_app.Storage.Rbac.{get_user_roles, user_roles_of}
use scouting_app.Reconcile.{MapRange, current_role_names, target_positions, reconcile_roles}
use scouting_app.Reconcile.Held.{RolesApart, has_role, has_role-current}
use scouting_app.Reconcile.Roles.{Holding, held_in, add_roles-Ensures, remove_roles-Ensures}

keys_held :
    (P : String → Type 0) (keys : List String)
    → ((n : String) → has_key n keys ≡ true → P n)
    → All P keys
unfolding has_key
keys_held P [] f = tt
keys_held P (k ∷ keys) f = (f k (rw (eq_refl k) refl), keys_held P keys (λ n h. f n (ground arith)))

module _ (order : MapRange) (u positions : String) where
  abbrev goals : List String
  goals = order.range (target_positions positions)

  query-Holding :
      (t : Tables)
      → RolesApart t.roles
      → Holding u (current_role_names (user_roles_of u t.user_roles t.roles)) t
  query-Holding t apart = (
    apart,
    keys_held (λ n. has_role u n t.roles t.user_roles ≡ true)
        (current_role_names (user_roles_of u t.user_roles t.roles))
        (λ n h. has_role-current u n t.roles t.user_roles h),
  )

  reconcile-Ensures :
      Ensures
        (λ t. RolesApart t.roles)
        (reconcile_roles order u positions)
        (λ names. Holding u goals)
  unfolding reconcile_roles get_user_roles
  reconcile-Ensures =
      Ensures-bind (λ roles t. Holding u (current_role_names roles) t) _ _
        (Ensures-query _ (λ w roles h q.
          subst (λ rs. Holding u (current_role_names rs) w.tables) (ok-injective _ _ q)
            (query-Holding w.tables h)))
        (λ roles.
          Ensures-bind (λ added. Holding u goals) _ _
            (Ensures-after _
              (add_roles-Ensures u (current_role_names roles) (current_role_names roles) goals
                (λ n h. h))
              (λ added t h. (h.0.0, h.1)))
            (λ added.
              Ensures-bind (λ removed. Holding u goals) _ _
                (remove_roles-Ensures u (target_positions positions) goals
                  (order.range (current_role_names roles))
                  (λ n h. order.has_key-range n (target_positions positions) ∙ h))
                (λ removed. Ensures-pure _ (λ t h. h))))

  -- After ReconcileRoles that returns no error, each of the positions is the name of a role that
  -- the user has, whatever the order of the ranges, provided that no two roles had one id or one
  -- name before.
  pub reconcile_roles-positions :
      (w : World) (names : List String × List String) (n : String)
      → RolesApart w.roles
      → (reconcile_roles order u positions w).0 ≡ ok names
      → has_key n (target_positions positions) ≡ true
      → has_role u n
          (reconcile_roles order u positions w).1.roles
          (reconcile_roles order u positions w).1.user_roles
        ≡ true
  reconcile_roles-positions w names n apart h k =
      held_in u goals (reconcile_roles order u positions w).1.tables n
        (result-Ensures _ w names reconcile-Ensures apart h)
        (order.has_key-range n (target_positions positions) ∙ k)
