-- ===== src/Storage/Responsibilities/Tests.antt =====
-- The responsibilities' theorems at work on sample tables.
use scouting_app.Base.{◌≡◌, refl, true, [], ◌∷◌, some}
use scouting_app.Base.Int.{pos}
use scouting_app.Examples.{camp, world}
use scouting_app.Event.{is_singleton}
use scouting_app.Db.{ok, err, singleton_conflict, ◌>>=◌}
use scouting_app.Storage.Attendance.{has_row}
use scouting_app.Profile.{display_name}
use scouting_app.Storage.Responsibilities.{assign_responsibility, other_holder}
use scouting_app.Storage.Responsibilities.Singleton.{SingleHolders}
use scouting_app.Storage.Responsibilities.History.{
  after, after-SingleHolders, assign_call, remove_call, add_driver_call,
}
use scouting_app.Storage.Responsibilities.Conflict.{
  Placed, assign_responsibility-ok, assign_responsibility-refusal,
}

after-SingleHolders_example :
    SingleHolders
      (after
        (assign_call "e" "z" "spl"
          ∷ remove_call "e" "y" "spl"
          ∷ assign_call "e" "z" "spl"
          ∷ add_driver_call "e" "a" (pos 4)
          ∷ [])
        (world camp)).tables
after-SingleHolders_example =
    after-SingleHolders
      (assign_call "e" "z" "spl"
        ∷ remove_call "e" "y" "spl"
        ∷ assign_call "e" "z" "spl"
        ∷ add_driver_call "e" "a" (pos 4)
        ∷ [])
      (world camp) (tt, tt)

medic_assigned : (assign_responsibility "e" "a" "medical_officer" (world camp)).0 ≡ ok tt
unfolding assign_responsibility ◌>>=◌ has_row
medic_assigned = refl

assign_responsibility-ok_example :
    Placed "e" "a" "medical_officer"
      (assign_responsibility "e" "a" "medical_officer" (world camp)).1.tables
assign_responsibility-ok_example =
    assign_responsibility-ok "e" "a" "medical_officer" (world camp) medic_assigned

leader_refused :
    (assign_responsibility "e" "z" "spl" (world camp)).0
    ≡ err (singleton_conflict "spl" "y" "A B" "z")
unfolding assign_responsibility ◌>>=◌ display_name
leader_refused = refl

assign_responsibility-refusal_example :
    (is_singleton "spl" ≡ true)
    × (other_holder "e" "z" "spl" camp.assignments ≡ some "y")
    × ((assign_responsibility "e" "z" "spl" (world camp)).1.tables ≡ camp)
assign_responsibility-refusal_example =
    assign_responsibility-refusal "e" "z" "spl" (world camp) "y" "A B" leader_refused
