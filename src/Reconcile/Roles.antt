-- ===== src/Reconcile/Roles.antt =====
-- What ReconcileRoles of internal/domain/rbac/reconcile.go leaves: every position is a role of the user.
use mathlib.Core.Path.{subst}
use scouting_app.Base.{
  String, ◌≡◌, refl, sym, ◌∙◌, true, false, ◌&&◌, ◌||◌, List, [], ◌∷◌, ◌++◌, some, ◌==◌, eq_iff,
  eq_refl, inl, inr, Bool-cases, Option-cases, any, any-append, any-last, All, All-map, All-zip,
  arith,
}
use scouting_app.Text.{has_key}
use scouting_app.Profile.{Role}
use scouting_app.Db.{World, Tables, Result, ok, err, Error, no_rows, role_not_found, first}
use scouting_app.Db.Runs.{ok-injective}
use scouting_app.Db.Ensures.{
  Ensures, Ensures-bind, Ensures-pure, Ensures-fail, Ensures-attempt_query, Ensures-statement,
  Ensures-new_uuid, Ensures-if, Ensures-weaken, Ensures-after,
}
use scouting_app.Storage.Rbac.{
  find_role, insert_role, create_role, create_missing, assign_role_to_user, link_user_role,
  remove_role_from_user, unlink_user_role, get_role_by_name, insert_pair, delete_pair, holds,
}
use scouting_app.Reconcile.{role_or_new, give_role, add_roles, drop_role, drop_found, remove_roles}
use scouting_app.Reconcile.Held.{
  RolesApart, has_role, is_role, find_role-is_role, has_role-insert_pair, has_role_mono,
  has_role-delete_pair, insert_role-RolesApart,
}

module _ (u : String) where
  -- The roles are apart, and the user has those of the list.
  abbrev pub Holding : List String → Tables → Type 0
  Holding names t = RolesApart t.roles × All (λ n. has_role u n t.roles t.user_roles ≡ true) names

  -- A role that was looked up is there.
  abbrev Found : String → Result Role → Tables → Type 0
  Found name (ok r) t = find_role name t.roles ≡ some r
  Found name (err e) t = Unit {0}

  first-Found :
      (name : String) (e : Error) (t : Tables) → Found name (first (find_role name t.roles) e) t
  first-Found name e t = elim (Option-cases (find_role name t.roles)) [
    | inl q ↦ rw q tt
    | inr (r, q) ↦ rw q (q ∙ refl)
  ]

  insert_role-Holding :
      (names : List String) (r : Role) (w : World) (a : Role)
      → Holding names w.tables
      → (insert_role r w).0 ≡ ok a
      → Holding names (insert_role r w).1 × (is_role r.name a.id (insert_role r w).1.roles ≡ true)
  unfolding insert_role
  insert_role-Holding names r w a h k =
      elim (Bool-cases (any (λ q. q.id == r.id || q.name == r.name) w.roles)) [
        | inl q ↦ ground arith
        | inr q ↦ (
          (
            insert_role-RolesApart r w h.0,
            rw q (
                All-map (λ n. has_role u n w.roles w.user_roles ≡ true)
                  (λ n. has_role u n (w.roles ++ r ∷ []) w.user_roles ≡ true)
                  (λ n g.
                    any-append (λ s. s.name == n && holds u s.id w.user_roles) w.roles (r ∷ []) g)
                  names h.1),
          ),
          rw q (
              subst (λ x. is_role r.name x.id (w.roles ++ r ∷ []) ≡ true)
                (ok-injective r a (rw q at k))
                (any-last (λ s. s.name == r.name && s.id == r.id) w.roles r
                  (rw (eq_refl r.name) (rw (eq_refl r.id) refl)))),
        )
      ]

  create_missing-Ensures :
      (names : List String) (name : String) (found : Result Role)
      → Ensures
          (λ t. Holding names t × Found name found t)
          (create_missing (record { id = ""; name = name }) found)
          (λ role t. Holding names t × (is_role name role.id t.roles ≡ true))
  unfolding create_missing
  create_missing-Ensures names name (ok r) =
      Ensures-pure _ (λ t h. (h.0, find_role-is_role name t.roles r h.1))
  create_missing-Ensures names name (err no_rows) =
      Ensures-bind (λ id. Holding names) _ _ (Ensures-weaken _ (λ t h. h.0) Ensures-new_uuid)
        (λ id. Ensures-statement _ (λ w a h k. insert_role-Holding names _ w a h k))
  create_missing-Ensures names name (err _) = Ensures-fail _

  role_or_new-Ensures :
      (names : List String) (name : String) (found : Result Role)
      → Ensures
          (λ t. Holding names t × Found name found t)
          (role_or_new name found)
          (λ role t. Holding names t × (is_role name role.id t.roles ≡ true))
  unfolding role_or_new create_role
  role_or_new-Ensures names name (ok r) =
      Ensures-pure _ (λ t h. (h.0, find_role-is_role name t.roles r h.1))
  role_or_new-Ensures names name (err _) =
      Ensures-bind (λ found t. Holding names t × Found name found t) _ _
        (Ensures-attempt_query _ (λ w h. (h.0, first-Found name no_rows w.tables))
          (λ w h. (h.0, tt)))
        (λ found. create_missing-Ensures names name found)

  link-Holding :
      (names : List String) (name i : String) (w : World)
      → Holding names w.tables × (is_role name i w.roles ≡ true)
      → (link_user_role u i w).0 ≡ ok tt
      → Holding (name ∷ names) (link_user_role u i w).1
  unfolding link_user_role
  link-Holding names name i w (h, k) r =
      elim (Bool-cases (any (λ v. v.id == u) w.users && any (λ q. q.id == i) w.roles)) [
        | inr q ↦ ground arith
        | inl q ↦
            let linked : (link_user_role u i w).1
                ≡ record w.tables { user_roles = insert_pair u i w.user_roles } =
              rw q refl in
            subst (Holding (name ∷ names)) (sym linked) (
              h.0,
              (
                has_role-insert_pair u name i w.roles w.user_roles k,
                All-map (λ n. has_role u n w.roles w.user_roles ≡ true)
                    (λ n. has_role u n w.roles (insert_pair u i w.user_roles) ≡ true)
                    (λ n. has_role_mono u n u i w.roles w.user_roles) names h.1,
              ),
            )
      ]

  give_role-Ensures :
      (names : List String) (name : String)
      → Ensures (Holding names) (give_role u name) (λ x. Holding (name ∷ names))
  unfolding give_role get_role_by_name assign_role_to_user
  give_role-Ensures names name =
      Ensures-bind (λ found t. Holding names t × Found name found t) _ _
        (Ensures-attempt_query _ (λ w h. (h, first-Found name role_not_found w.tables))
          (λ w h. (h, tt)))
        (λ found.
          Ensures-bind (λ role t. Holding names t × (is_role name role.id t.roles ≡ true)) _ _
            (role_or_new-Ensures names name found)
            (λ role. Ensures-statement _ (λ w x h r. link-Holding names name role.id w h r)))

  pub held_in :
      (names : List String) (t : Tables) (n : String)
      → Holding names t
      → has_key n names ≡ true
      → has_role u n t.roles t.user_roles ≡ true
  unfolding has_key
  held_in [] t n h k = ground arith
  held_in (m ∷ names) t n (apart, (here, rest)) k = elim (Bool-cases (m == n)) [
    | inl q ↦ subst (λ x. has_role u x t.roles t.user_roles ≡ true) ((eq_iff m n).0 q) here
    | inr q ↦ held_in names t n (apart, rest) (rw q at k)
  ]

  -- The first loop: each name is held in the end, since it was or since it is given.
  pub add_roles-Ensures :
      (current : List String) (held names : List String)
      → ((n : String) → has_key n current ≡ true → has_key n held ≡ true)
      → Ensures
          (Holding held)
          (add_roles u current names)
          (λ added t. Holding held t × All (λ n. has_role u n t.roles t.user_roles ≡ true) names)
  unfolding add_roles
  add_roles-Ensures current held [] k = Ensures-pure _ (λ t h. (h, tt))
  add_roles-Ensures current held (name ∷ names) k =
      Ensures-if (has_key name current) _ _
        (λ q.
          Ensures-after _ (add_roles-Ensures current held names k)
            (λ added t h. (h.0, (held_in held t name h.0 (k name q), h.1))))
        (λ q.
          Ensures-bind (λ x. Holding (name ∷ held)) _ _ (give_role-Ensures held name)
            (λ x.
              Ensures-bind
                (λ added t.
                  Holding (name ∷ held) t
                  × All (λ n. has_role u n t.roles t.user_roles ≡ true) names)
                _ _ (add_roles-Ensures current (name ∷ held) names (λ n h. ground (arith, k n h)))
                (λ added. Ensures-pure _ (λ t h. ((h.0.0, h.0.1.1), (h.0.1.0, h.1))))))

  absent :
      (name : String) (kept : List String)
      → has_key name kept ≡ false
      → All (λ n. (n == name) ≡ false) kept
  unfolding has_key
  absent name [] h = tt
  absent name (n ∷ kept) h = elim (Bool-cases (n == name)) [
    | inl q ↦ ground arith
    | inr q ↦ (q, absent name kept (rw q at h))
  ]

  drop_found-Ensures :
      (kept : List String) (name : String) (found : Result Role)
      → has_key name kept ≡ false
      → Ensures (λ t. Holding kept t × Found name found t) (drop_found u found) (λ b. Holding kept)
  unfolding drop_found remove_role_from_user unlink_user_role
  drop_found-Ensures kept name (err e) k = Ensures-pure _ (λ t h. h.0)
  drop_found-Ensures kept name (ok role) k =
      Ensures-bind (λ x. Holding kept) _ _
        (Ensures-statement _ (λ w x h r. (
          h.0.0,
          All-map (λ n. ((n == name) ≡ false) × (has_role u n w.roles w.user_roles ≡ true))
              (λ n. has_role u n w.roles (delete_pair u role.id w.user_roles) ≡ true)
              (λ n g. has_role-delete_pair u n name role w.roles w.user_roles h.0.0 h.1 g.0 g.1)
              kept
              (All-zip (λ n. (n == name) ≡ false) (λ n. has_role u n w.roles w.user_roles ≡ true)
                kept (absent name kept k) h.0.1),
        )))
        (λ x. Ensures-pure _ (λ t h. h))

  drop_role-Ensures :
      (kept : List String) (name : String)
      → has_key name kept ≡ false
      → Ensures (Holding kept) (drop_role u name) (λ b. Holding kept)
  unfolding drop_role get_role_by_name
  drop_role-Ensures kept name k =
      Ensures-bind (λ found t. Holding kept t × Found name found t) _ _
        (Ensures-attempt_query _ (λ w h. (h, first-Found name role_not_found w.tables))
          (λ w h. (h, tt)))
        (λ found. drop_found-Ensures kept name found k)

  -- The second loop drops only names that are no positions.
  pub remove_roles-Ensures :
      (target kept names : List String)
      → ((n : String) → has_key n target ≡ false → has_key n kept ≡ false)
      → Ensures (Holding kept) (remove_roles u target names) (λ removed. Holding kept)
  unfolding remove_roles
  remove_roles-Ensures target kept [] k = Ensures-pure _ (λ t h. h)
  remove_roles-Ensures target kept (name ∷ names) k =
      Ensures-if (has_key name target) _ _ (λ q. remove_roles-Ensures target kept names k)
        (λ q.
          Ensures-bind (λ b. Holding kept) _ _ (drop_role-Ensures kept name (k name q))
            (λ b.
              Ensures-bind (λ removed. Holding kept) _ _ (remove_roles-Ensures target kept names k)
                (λ removed. Ensures-pure _ (λ t h. h))))
