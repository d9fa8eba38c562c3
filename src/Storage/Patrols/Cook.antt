-- ===== src/Storage/Patrols/Cook.antt =====
-- The cook of a cooking patrol: SetCookingPatrolCook and ClearCookingPatrolCook of internal/storage/
-- postgres/event_repository.go.
use scouting_app.Base.{
  String, ◌≡◌, Bool, true, false, not, ◌&&◌, ◌||◌, List, ◌==◌, eq_iff, inl, inr, Bool-cases, All,
  All-every, AllPairs-both, bool_eq, arith,
}
use scouting_app.Text.{eq_comm}
use scouting_app.Event.{PatrolMemberRow}
use scouting_app.Db.{World, Tables, ok}
use scouting_app.Db.Keeps.{
  Keeps, Keeps-transaction, Keeps-bind, Keeps-query, Keeps-if, Keeps-fail, Keeps-statement,
}
use scouting_app.Db.Ensures.{
  Ensures, Ensures-transaction, Ensures-bind, Ensures-query, Ensures-if, Ensures-fail,
  Ensures-statement, result-Ensures,
}
use scouting_app.Storage.Patrols.{
  is_member_row, change_members, write_cook, clear_patrol_cook, cook_taken, set_cook, in_patrol,
  set_cooking_patrol_cook,
}
use scouting_app.Storage.Patrols.Invariants.{
  same_place, Apart, Fed, patrol_exists, changed, change_members-All, change_members-AllPairs,
  cook_free, one_member,
}

-- Without their cooks, rows are as far apart as before.
uncooked-Apart :
    (test : PatrolMemberRow → Bool) (m n : PatrolMemberRow)
    → Apart m n
    → Apart (changed test (set_cook false) m) (changed test (set_cook false) n)
uncooked-Apart test m n (s, c) = elim (Bool-cases (test m)) [
  | inl q ↦ elim (Bool-cases (test n)) [
    | inl u ↦ rw q (rw u (s, ground arith))
    | inr u ↦ rw q (rw u (s, ground arith))
  ]
  | inr q ↦ elim (Bool-cases (test n)) [
    | inl u ↦ rw q (rw u (s, ground arith))
    | inr u ↦ rw q (rw u (s, c))
  ]
]

pub uncooked-Fed :
    (test : PatrolMemberRow → Bool) (t : Tables)
    → Fed t
    → Fed (record t { patrol_members = change_members test (set_cook false) t.patrol_members })
uncooked-Fed test t (apart, homes) = (
  change_members-AllPairs test (set_cook false) Apart Apart (uncooked-Apart test) t.patrol_members
      apart,
  change_members-All test (set_cook false) (λ m. patrol_exists t.patrols m ≡ true)
      (λ m. patrol_exists t.patrols m ≡ true) (λ m q h. h) (λ m q h. h) t.patrol_members homes,
)

module _ (e p i : String) where
  abbrev named : PatrolMemberRow → Bool
  named m = in_patrol e i m && m.profile_id == p

  abbrev Vacant : PatrolMemberRow → Type 0
  Vacant m = (m.patrol_id == i && (m.is_cook && not (is_member_row e p m))) ≡ false

  named-is_member_row : (m : PatrolMemberRow) → named m ≡ true → is_member_row e p m ≡ true
  named-is_member_row m h = ground arith

  -- A row that is not the attendee's is no cook of the patrol.
  other_no_cook :
      (m n : PatrolMemberRow)
      → named m ≡ true
      → same_place m n ≡ false
      → Vacant n
      → (n.patrol_id == i && n.is_cook) ≡ false
  other_no_cook m n q s v = let u = one_member e p m n s (named-is_member_row m q) in ground arith

  patrol_of : (m : PatrolMemberRow) → named m ≡ true → m.patrol_id ≡ i
  patrol_of m q = (eq_iff m.patrol_id i).0 (ground arith)

  cooked-Apart :
      (m n : PatrolMemberRow)
      → Vacant m × Vacant n × Apart m n
      → Apart (changed named (set_cook true) m) (changed named (set_cook true) n)
  cooked-Apart m n (v, u, apart) = elim (Bool-cases (named m)) [
    | inl q ↦ elim (Bool-cases (named n)) [
      | inl k ↦ absurd (
          ground
            (arith, one_member e p m n apart.0 (named-is_member_row m q), named-is_member_row n k))
      | inr k ↦ rw q (
          rw k (apart.0, rw (patrol_of m q, eq_comm i n.patrol_id) (other_no_cook m n q apart.0 u)))
    ]
    | inr q ↦ elim (Bool-cases (named n)) [
      | inl k ↦ rw q (
          rw k (
            apart.0,
            rw (patrol_of n k) (
                ground (
                  arith,
                  other_no_cook n m k
                      (rw (eq_comm n.event_id m.event_id, eq_comm n.profile_id m.profile_id)
                        apart.0)
                      v,
                )),
          ))
      | inr k ↦ rw q (rw k apart)
    ]
  ]

  pub write_cook-Fed : (w : World) → Fed w.tables → Fed (write_cook e i p w).1
  unfolding write_cook
  write_cook-Fed w (apart, homes) = elim (Bool-cases (cook_taken e p i w.patrol_members)) [
    | inl q ↦ rw q (apart, homes)
    | inr q ↦ rw q (
      change_members-AllPairs named (set_cook true) (λ m n. Vacant m × Vacant n × Apart m n) Apart
          cooked-Apart w.patrol_members
          (AllPairs-both Vacant Apart w.patrol_members (cook_free e p i w.patrol_members q) apart),
      change_members-All named (set_cook true) (λ m. patrol_exists w.patrols m ≡ true)
          (λ m. patrol_exists w.patrols m ≡ true) (λ m k h. h) (λ m k h. h) w.patrol_members homes,
    )
  ]

  -- Whether the patrol's cooks are exactly the rows of the attendee.
  abbrev pub is_right : PatrolMemberRow → Bool
  is_right m = not (in_patrol e i m) || bool_eq m.is_cook (m.profile_id == p)

  cleared :
      (rows : List PatrolMemberRow)
      → All
          (λ m. (in_patrol e i m && m.is_cook) ≡ false)
          (change_members (λ m. in_patrol e i m && m.is_cook) (set_cook false) rows)
  cleared rows =
      change_members-All (λ m. in_patrol e i m && m.is_cook) (set_cook false) (λ m. Unit {0})
        (λ m. (in_patrol e i m && m.is_cook) ≡ false) (λ m q h. ground arith) (λ m q h. q) rows
        (All-every (λ m. Unit {0}) (λ m. tt) rows)

  right_cooks :
      (rows : List PatrolMemberRow)
      → All (λ m. (in_patrol e i m && m.is_cook) ≡ false) rows
      → All (λ m. is_right m ≡ true) (change_members named (set_cook true) rows)
  right_cooks =
      change_members-All named (set_cook true) (λ m. (in_patrol e i m && m.is_cook) ≡ false)
        (λ m. is_right m ≡ true) (λ m q h. ground arith) (λ m q h. ground arith)

  write_cook-right :
      (w : World)
      → All (λ m. (in_patrol e i m && m.is_cook) ≡ false) w.patrol_members
      → (write_cook e i p w).0 ≡ ok tt
      → All (λ m. is_right m ≡ true) (write_cook e i p w).1.patrol_members
  unfolding write_cook
  write_cook-right w none_left h = elim (Bool-cases (cook_taken e p i w.patrol_members)) [
    | inl q ↦ ground arith
    | inr q ↦ rw q (right_cooks w.patrol_members none_left)
  ]

  set_cook-Ensures :
      Ensures
        (λ t. Unit {0})
        (set_cooking_patrol_cook e i p)
        (λ x t. All (λ m. is_right m ≡ true) t.patrol_members)
  unfolding set_cooking_patrol_cook clear_patrol_cook
  set_cook-Ensures = Ensures-transaction _ (
      Ensures-bind (λ member t. Unit {0}) _ _ (Ensures-query _ (λ w member h q. tt))
        (λ member.
          Ensures-if (not member) _ _ (λ q. Ensures-fail _)
            (λ q.
              Ensures-bind
                (λ x t. All (λ m. (in_patrol e i m && m.is_cook) ≡ false) t.patrol_members) _ _
                (Ensures-statement _ (λ w x h r. cleared w.patrol_members))
                (λ x. Ensures-statement _ (λ w y h r. write_cook-right w h r)))))

  -- After SetCookingPatrolCook that succeeds, the patrol's cooks are exactly the rows of the
  -- profile that was named.
  pub set_cooking_patrol_cook-cook :
      (w : World)
      → (set_cooking_patrol_cook e i p w).0 ≡ ok tt
      → All (λ m. is_right m ≡ true) (set_cooking_patrol_cook e i p w).1.patrol_members
  set_cooking_patrol_cook-cook w h = result-Ensures _ w tt set_cook-Ensures tt h

  pub set_cooking_patrol_cook-Fed : Keeps Fed (set_cooking_patrol_cook e i p)
  unfolding set_cooking_patrol_cook clear_patrol_cook
  set_cooking_patrol_cook-Fed = Keeps-transaction _ (
      Keeps-bind _ _ (Keeps-query _) (λ member.
        Keeps-if (not member) _ _ (λ q. Keeps-fail _)
          (λ q.
            Keeps-bind _ _
              (Keeps-statement _
                (λ w h. uncooked-Fed (λ m. in_patrol e i m && m.is_cook) w.tables h))
              (λ x. Keeps-statement _ (λ w h. write_cook-Fed w h)))))
