-- ===== src/Reconcile/Held.antt =====
-- Which roles a user has, by name, and how the writers of internal/storage/postgres/rbac_repository.go
-- change that.
use scouting_app.Base.{
  String, ◌≡◌, refl, sym, ap, ◌∙◌, Bool, true, false, ◌&&◌, ◌||◌, List, [], ◌∷◌, ◌++◌, Option, none,
  some, ◌==◌, eq_iff, eq_refl, ◌⊎◌, inl, inr, Bool-cases, any, any_mono, any_mono_each, none_passes,
  any-false, All, AllPairs, AllPairs-append, All-map, arith,
}
use scouting_app.Text.{has_key, eq_comm}
use scouting_app.Profile.{Role}
use scouting_app.Db.{World}
use scouting_app.Storage.Rbac.{
  find_role, holds, insert_pair, delete_pair, insert_role, user_roles_of,
}
use scouting_app.Reconcile.{current_role_names, add_key, protected}

-- No two roles have one id or one name.
abbrev pub RolesApart : List Role → Type 0
RolesApart = AllPairs (λ r s. (r.id == s.id || r.name == s.name) ≡ false)

abbrev pub has_role : String → String → List Role → List (String × String) → Bool
has_role u n roles rows = any (λ r. r.name == n && holds u r.id rows) roles

-- The table has this role.
abbrev pub is_role : String → String → List Role → Bool
is_role n i roles = any (λ r. r.name == n && r.id == i) roles

pub find_role-is_role :
    (n : String) (roles : List Role) (r : Role)
    → find_role n roles ≡ some r
    → is_role n r.id roles ≡ true
unfolding find_role
find_role-is_role n [] r h = ground arith
find_role-is_role n (s ∷ roles) r h = elim (Bool-cases (s.name == n)) [
  | inl q ↦ rw q (ground (arith, (eq_iff s.id r.id).1 (ap (λ o. id_of o s) (rw q at h))))
  | inr q ↦ rw q (find_role-is_role n roles r (rw q at h))
]
  where
    id_of : Option Role → Role → String
    id_of none d = d.id
    id_of (some x) d = x.id

pub holds-insert_pair :
    (a b : String) (rows : List (String × String)) → holds a b (insert_pair a b rows) ≡ true
unfolding insert_pair holds
holds-insert_pair a b rows = elim (Bool-cases (holds a b rows)) [
  | inl q ↦ rw q q
  | inr q ↦ rw q (last rows)
]
  where
    last : (xs : List (String × String)) → holds a b (xs ++ (a, b) ∷ []) ≡ true
    last [] = rw (eq_refl a) (rw (eq_refl b) refl)
    last (x ∷ xs) = ground (arith, last xs)

pub insert_pair_mono :
    (a b c d : String) (rows : List (String × String))
    → holds c d rows ≡ true
    → holds c d (insert_pair a b rows) ≡ true
unfolding insert_pair holds
insert_pair_mono a b c d rows h = elim (Bool-cases (holds a b rows)) [
  | inl q ↦ rw q h
  | inr q ↦ rw q (longer rows h)
]
  where
    longer :
        (xs : List (String × String)) → holds c d xs ≡ true → holds c d (xs ++ (a, b) ∷ []) ≡ true
    longer [] k = ground arith
    longer (x ∷ xs) k = ground (arith, longer xs)

pub holds-delete_pair :
    (a b d : String) (rows : List (String × String))
    → (d == b) ≡ false
    → holds a d rows ≡ true
    → holds a d (delete_pair a b rows) ≡ true
unfolding delete_pair holds
holds-delete_pair a b d [] k h = h
holds-delete_pair a b d ((x, y) ∷ rows) k h = elim (Bool-cases (x == a && y == b)) [
  | inl q ↦ rw q (holds-delete_pair a b d rows k (ground (arith, eq_iff y b, eq_comm y d)))
  | inr q ↦ rw q (ground (arith, holds-delete_pair a b d rows k))
]

-- A role that is given is held.
pub has_role-insert_pair :
    (u n i : String) (roles : List Role) (rows : List (String × String))
    → is_role n i roles ≡ true
    → has_role u n roles (insert_pair u i rows) ≡ true
has_role-insert_pair u n i roles rows =
    any_mono (λ r. r.name == n && r.id == i)
      (λ r. r.name == n && holds u r.id (insert_pair u i rows))
      (λ r h. rw ((eq_iff r.id i).0 (ground arith), holds-insert_pair u i rows) (ground arith))
      roles

pub has_role_mono :
    (u n a b : String) (roles : List Role) (rows : List (String × String))
    → has_role u n roles rows ≡ true
    → has_role u n roles (insert_pair a b rows) ≡ true
has_role_mono u n a b roles rows =
    any_mono (λ r. r.name == n && holds u r.id rows)
      (λ r. r.name == n && holds u r.id (insert_pair a b rows))
      (λ r h. ground (arith, insert_pair_mono a b u r.id rows)) roles

-- Roles with another name have another id.
others_apart :
    (m : String) (s : Role) (roles : List Role)
    → RolesApart roles
    → find_role m roles ≡ some s
    → All (λ r. ((r.id == s.id) ≡ false) ⊎ ((r.name == m) ≡ true)) roles
unfolding find_role
others_apart m s [] apart h = tt
others_apart m s (r ∷ roles) apart h = elim (Bool-cases (r.name == m)) [
  | inl q ↦
      let same = some_id r s (rw q at h) in
      (
        inr q,
        All-map (λ t. (r.id == t.id || r.name == t.name) ≡ false)
            (λ t. ((t.id == s.id) ≡ false) ⊎ ((t.name == m) ≡ true))
            (λ t k. inl (rw (sym same, eq_comm t.id r.id) (ground arith))) roles apart.0,
      )
  | inr q ↦
      let found = rw q at h in
      (
        elim (Bool-cases (r.id == s.id)) [
          | inr v ↦ inl v
          | inl v ↦
              let hit : any (λ t. r.id == t.id || r.name == t.name) roles ≡ true =
                any_mono (λ t. t.name == m && t.id == s.id) (λ t. r.id == t.id || r.name == t.name)
                  (λ t k. rw ((eq_iff r.id s.id).0 v, eq_comm s.id t.id) (ground arith)) roles
                  (find_role-is_role m roles s found) in
              absurd
                (ground (arith, none_passes (λ t. r.id == t.id || r.name == t.name) roles apart.0))
        ],
        others_apart m s roles apart.1 found,
      )
]
  where
    some_id : (r s : Role) → some r ≡ some s → r.id ≡ s.id
    some_id r s e = ap id_of e
      where
        id_of : Option Role → String
        id_of none = ""
        id_of (some x) = x.id

-- A role that is dropped takes no role of another name with it.
pub has_role-delete_pair :
    (u n m : String) (s : Role) (roles : List Role) (rows : List (String × String))
    → RolesApart roles
    → find_role m roles ≡ some s
    → (n == m) ≡ false
    → has_role u n roles rows ≡ true
    → has_role u n roles (delete_pair u s.id rows) ≡ true
has_role-delete_pair u n m s roles rows apart found other =
    any_mono_each (λ r. r.name == n && holds u r.id rows)
      (λ r. r.name == n && holds u r.id (delete_pair u s.id rows)) roles
      (All-map (λ r. ((r.id == s.id) ≡ false) ⊎ ((r.name == m) ≡ true))
        (λ r.
          (r.name == n && holds u r.id rows) ≡ true
          → (r.name == n && holds u r.id (delete_pair u s.id rows)) ≡ true)
        (λ r k h. elim k [
          | inl v ↦ ground (arith, holds-delete_pair u s.id r.id rows v)
          | inr v ↦ absurd (
              ground (
                arith,
                (eq_iff n m).1 (sym ((eq_iff r.name n).0 (ground arith)) ∙ (eq_iff r.name m).0 v),
              ))
        ])
        roles (others_apart m s roles apart found))

pub has_key-add_key :
    (k n : String) (keys : List String)
    → (k == n) ≡ false
    → has_key n (add_key k keys) ≡ has_key n keys
unfolding add_key has_key
has_key-add_key k n keys h = elim (Bool-cases (has_key k keys)) [
  | inl q ↦ rw q refl
  | inr q ↦ rw q (last keys)
]
  where
    last : (xs : List String) → has_key n (xs ++ k ∷ []) ≡ has_key n xs
    last [] = rw h refl
    last (x ∷ xs) = rw (last xs) refl

current-skips :
    (n : String) (r : Role) (roles : List Role)
    → (r.name == n) ≡ false
    → has_key n (current_role_names (r ∷ roles)) ≡ true
    → has_key n (current_role_names roles) ≡ true
unfolding current_role_names
current-skips n r roles q h = elim (Bool-cases (protected r.name)) [
  | inl p ↦ rw p at h
  | inr p ↦ sym (has_key-add_key r.name n (current_role_names roles) q) ∙ (rw p at h)
]

-- The names that ReconcileRoles starts from are held.
pub has_role-current :
    (u n : String) (roles : List Role) (rows : List (String × String))
    → has_key n (current_role_names (user_roles_of u rows roles)) ≡ true
    → has_role u n roles rows ≡ true
unfolding user_roles_of current_role_names has_key
has_role-current u n [] rows h = ground arith
has_role-current u n (r ∷ roles) rows h = elim (Bool-cases (holds u r.id rows)) [
  | inr q ↦ ground (arith, has_role-current u n roles rows (rw q at h))
  | inl q ↦ elim (Bool-cases (r.name == n)) [
    | inl v ↦ rw v (rw q refl)
    | inr v ↦ rw v (
        has_role-current u n roles rows
          (current-skips n r (user_roles_of u rows roles) v (rw q at h)))
  ]
]

-- A new role clashes with none.
pub insert_role-RolesApart :
    (r : Role) (w : World) → RolesApart w.roles → RolesApart (insert_role r w).1.roles
unfolding insert_role
insert_role-RolesApart r w h =
    elim (Bool-cases (any (λ q. q.id == r.id || q.name == r.name) w.roles)) [
      | inl q ↦ rw q h
      | inr q ↦ rw q (
          AllPairs-append (λ a b. (a.id == b.id || a.name == b.name) ≡ false) w.roles r
            (any-false (λ a. a.id == r.id || a.name == r.name) w.roles q) h)
    ]
