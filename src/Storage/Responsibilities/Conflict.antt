-- ===== src/Storage/Responsibilities/Conflict.antt =====
-- What the outcome of AssignResponsibility of internal/storage/postgres/event_repository.go says.
use scouting_app.Base.{
  ℕ, String, ◌≡◌, ◌≢◌, refl, ◌∙◌, true, false, not, ◌&&◌, List, [], ◌∷◌, ◌++◌, none, some, ◌==◌,
  eq_iff, eq_refl, ◌⊎◌, inl, inr, Bool-cases, Option-cases, arith,
}
use scouting_app.Event.{Responsibility, Assignment, is_singleton}
use scouting_app.Db.{
  World, Tables, ok, err, singleton_conflict, driver_error, statement, query, ◌>>=◌, tick, first,
  no_rows,
}
use scouting_app.Db.Keeps.{query_tables}
use scouting_app.Storage.Attendance.{has_row}
use scouting_app.Storage.Responsibilities.Singleton.{new_row}
use scouting_app.Storage.Responsibilities.{
  is_assignment, is_assigned, change_row, other_holder, upsert_row, insert_assignment, refuse_or,
  assign_responsibility, name_of, name_or_empty,
}

module _ (e p : String) (r : Responsibility) where
  is_assigned-append :
      (rows : List Assignment) (n : Assignment)
      → is_assignment e p r n ≡ true
      → is_assigned e p r (rows ++ n ∷ []) ≡ true
  unfolding is_assigned
  is_assigned-append [] n h = rw h refl
  is_assigned-append (a ∷ rows) n h = ground (arith, is_assigned-append rows n h)

  is_assigned-change_row :
      (now : ℕ) (rows : List Assignment)
      → is_assigned e p r (change_row e p r (λ a. record a { updated_at = now }) rows)
        ≡ is_assigned e p r rows
  unfolding is_assigned change_row
  is_assigned-change_row now [] = refl
  is_assigned-change_row now (a ∷ rows) = elim (Bool-cases (is_assignment e p r a)) [
    | inl q ↦ rw q (rw q refl)
    | inr q ↦ rw q (rw q (is_assigned-change_row now rows))
  ]

  other_holder-append :
      (rows : List Assignment) (n : Assignment)
      → n.profile_id ≡ p
      → other_holder e p r rows ≡ none
      → other_holder e p r (rows ++ n ∷ []) ≡ none
  unfolding other_holder
  other_holder-append [] n q h = ground (arith, (eq_iff n.profile_id p).1 q)
  other_holder-append (a ∷ rows) n q h =
      elim (Bool-cases (a.event_id == e && (a.responsibility == r && not (a.profile_id == p)))) [
        | inl u ↦ ground arith
        | inr u ↦ rw u (other_holder-append rows n q (rw u at h))
      ]

  other_holder-change_row :
      (now : ℕ) (rows : List Assignment)
      → other_holder e p r (change_row e p r (λ a. record a { updated_at = now }) rows)
        ≡ other_holder e p r rows
  unfolding other_holder change_row
  other_holder-change_row now [] = refl
  other_holder-change_row now (a ∷ rows) = elim (Bool-cases (is_assignment e p r a)) [
    | inl q ↦ rw q (rw (other_holder-change_row now rows) refl)
    | inr q ↦ rw q (rw (other_holder-change_row now rows) refl)
  ]

  abbrev either {ℓ} : {A : Type ℓ} {B C : Type ℓ} → A ⊎ B → (B → C) → A ⊎ C
  either (inl a) f = inl a
  either (inr b) f = inr (f b)

  -- What the INSERT leaves, where it is not refused.
  abbrev pub Placed : Tables → Type 0
  Placed t =
      (is_assigned e p r t.assignments ≡ true)
      × ((is_singleton r ≡ false) ⊎ (other_holder e p r t.assignments ≡ none))

  upsert-Placed :
      (w : World)
      → (is_singleton r ≡ false) ⊎ (other_holder e p r w.assignments ≡ none)
      → (upsert_row e p r none (λ a. record a { updated_at = w.now }) w).0 ≡ ok tt
      → Placed (upsert_row e p r none (λ a. record a { updated_at = w.now }) w).1
  unfolding upsert_row
  upsert-Placed w free h = elim (Bool-cases (has_row e p w.attendees)) [
    | inr q ↦ ground arith
    | inl q ↦ elim (Bool-cases (is_assigned e p r w.assignments)) [
      | inl u ↦ rw q (
          rw u (
            is_assigned-change_row w.now w.assignments ∙ u,
            either free (λ o. other_holder-change_row w.now w.assignments ∙ o),
          ))
      | inr u ↦ rw q (
          rw u (
            is_assigned-append w.assignments (new_row e p r none w.now)
                (rw (eq_refl e) (rw (eq_refl p) (rw (eq_refl r) refl))),
            either free (other_holder-append w.assignments (new_row e p r none w.now) refl),
          ))
    ]
  ]

  insert-Placed :
      (w : World)
      → (is_singleton r ≡ false) ⊎ (other_holder e p r w.assignments ≡ none)
      → (insert_assignment e p r w).0 ≡ ok tt
      → Placed (insert_assignment e p r w).1.tables
  unfolding insert_assignment statement
  insert-Placed w free h = elim (Bool-cases (w.fault w.count)) [
    | inl q ↦ ground arith
    | inr q ↦ rw q (upsert-Placed w free (rw q at h))
  ]

  insert-no_conflict :
      (v : World) (holder name : String)
      → (insert_assignment e p r v).0 ≢ err (singleton_conflict r holder name p)
  unfolding insert_assignment statement upsert_row
  insert-no_conflict v holder name h = ground arith

  abbrev Inserts : World → Type 0
  Inserts w =
      (v : World) × ((is_singleton r ≡ false) ⊎ (other_holder e p r v.assignments ≡ none))
      × (assign_responsibility e p r w ≡ insert_assignment e p r v)

  abbrev Breaks : World → Type 0
  Breaks w =
      ((assign_responsibility e p r w).0 ≡ err driver_error)
      × ((assign_responsibility e p r w).1.tables ≡ w.tables)

  abbrev Refuses : World → Type 0
  Refuses w =
      (holder : String) × (name : String) × (is_singleton r ≡ true)
      × (other_holder e p r w.assignments ≡ some holder)
      × ((assign_responsibility e p r w).0 ≡ err (singleton_conflict r holder name p))
      × ((assign_responsibility e p r w).1.tables ≡ w.tables)

  assign_responsibility-cases : (w : World) → Inserts w ⊎ (Breaks w ⊎ Refuses w)
  unfolding assign_responsibility refuse_or ◌>>=◌
  assign_responsibility-cases w = elim (Bool-cases (is_singleton r)) [
    | inr s ↦ inl (w, inl s, rw s refl)
    | inl s ↦ elim (Bool-cases (w.fault w.count)) [
      | inl q ↦ inr (inl (rw s (rw q (refl, refl))))
      | inr q ↦ elim (Option-cases (other_holder e p r w.assignments)) [
        | inl o ↦ inl (tick w, inr o, rw s (rw q (rw o refl)))
        | inr (i, o) ↦ inr (
            inr (
              i,
              name_or_empty (query (λ v. first (name_of i v.profiles) no_rows) (tick w)).0,
              s,
              o,
              rw s (rw q (rw o refl)),
              rw s
                  (rw q (rw o (query_tables (λ v. first (name_of i v.profiles) no_rows) (tick w)))),
            ))
      ]
    ]
  ]

  -- After AssignResponsibility that succeeds, the profile has the responsibility, and nobody else
  -- has it if it is a singleton.
  pub assign_responsibility-ok :
      (w : World)
      → (assign_responsibility e p r w).0 ≡ ok tt
      → Placed (assign_responsibility e p r w).1.tables
  assign_responsibility-ok w h = elim (assign_responsibility-cases w) [
    | inl (v, free, q) ↦ rw q (insert-Placed v free (rw q at h))
    | inr (inl (b, t)) ↦ ground arith
    | inr (inr (i, name, s, o, q, t)) ↦ ground arith
  ]

  -- AssignResponsibility that returns a conflict has changed no table, the responsibility is a
  -- singleton, and the holder that the conflict names is another profile that has it.
  pub assign_responsibility-refusal :
      (w : World) (holder name : String)
      → (assign_responsibility e p r w).0 ≡ err (singleton_conflict r holder name p)
      → (is_singleton r ≡ true)
        × (other_holder e p r w.assignments ≡ some holder)
        × ((assign_responsibility e p r w).1.tables ≡ w.tables)
  assign_responsibility-refusal w holder name h = elim (assign_responsibility-cases w) [
    | inl (v, free, q) ↦ ground (arith, insert-no_conflict v holder name (rw q at h))
    | inr (inl (b, t)) ↦ ground arith
    | inr (inr (i, n, s, o, q, t)) ↦ ground arith
  ]
