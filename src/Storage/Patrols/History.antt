-- ===== src/Storage/Patrols/History.antt =====
-- Any sequence of the calls that write cooking patrols and their members, in internal/storage/
-- postgres/event_repository.go.
use scouting_app.Base.{String, Bool, List, [], ◌∷◌}
use scouting_app.Event.{Event}
use scouting_app.Db.{World}
use scouting_app.Db.Keeps.{
  Keeps, Keeps-transaction, Keeps-bind, Keeps-query, Keeps-if, Keeps-statement, Keeps-pure,
  Keeps-new_uuid,
}
use scouting_app.Storage.Patrols.{
  create_cooking_patrol, insert_adult_patrol, insert_youth_patrol, delete_cooking_patrol,
  assign_cooking_patrol_member, remove_cooking_patrol_member, set_cooking_patrol_cook,
  clear_cooking_patrol_cook, update_with_cooking,
}
use scouting_app.Storage.Patrols.Invariants.{Fed}
use scouting_app.Storage.Patrols.Cook.{set_cooking_patrol_cook-Fed}
use scouting_app.Storage.Patrols.Writers.{insert_patrol-Fed, writers-Fed}
use scouting_app.Storage.Patrols.Toggle.{update_with_cooking-Fed}

pub create_cooking_patrol-Fed :
    (e : String) (is_adult : Bool) → Keeps Fed (create_cooking_patrol e is_adult)
unfolding create_cooking_patrol insert_adult_patrol insert_youth_patrol
create_cooking_patrol-Fed e is_adult = Keeps-bind _ _ Keeps-new_uuid (λ id.
    Keeps-bind _ _
      (Keeps-if is_adult _ _ (λ q. Keeps-statement _ (λ w h. insert_patrol-Fed _ w h))
        (λ q. Keeps-transaction _ (
          Keeps-bind _ _ (Keeps-query _)
            (λ names. Keeps-statement _ (λ w h. insert_patrol-Fed _ w h)))))
      (λ row. Keeps-pure _))

pub data Call : Type 0 where
  create_call : String → Bool → Call
  delete_call clear_cook_call : String → Call
  assign_call set_cook_call : String → String → String → Call
  remove_call : String → String → Call
  update_call : Event → Bool → Call

pub run : Call → World → World
run (create_call e is_adult) w = (create_cooking_patrol e is_adult w).1
run (delete_call i) w = (delete_cooking_patrol i w).1
run (clear_cook_call i) w = (clear_cooking_patrol_cook i w).1
run (assign_call e i p) w = (assign_cooking_patrol_member e i p w).1
run (set_cook_call e i p) w = (set_cooking_patrol_cook e i p w).1
run (remove_call e p) w = (remove_cooking_patrol_member e p w).1
run (update_call evt prev) w = (update_with_cooking evt prev w).1

-- The world after the calls, those that return an error included.
pub after : List Call → World → World
unfolding run
after [] w = w
after (c ∷ calls) w = after calls (run c w)

run-Fed : (c : Call) (w : World) → Fed w.tables → Fed (run c w).tables
unfolding run
run-Fed (create_call e is_adult) w h = (create_cooking_patrol-Fed e is_adult).at w h
run-Fed (delete_call i) w h = (writers-Fed "" i "" w h).2
run-Fed (clear_cook_call i) w h = (writers-Fed "" i "" w h).3
run-Fed (assign_call e i p) w h = (writers-Fed e i p w h).0
run-Fed (set_cook_call e i p) w h = (set_cooking_patrol_cook-Fed e p i).at w h
run-Fed (remove_call e p) w h = (writers-Fed e "" p w h).1
run-Fed (update_call evt prev) w h = (update_with_cooking-Fed evt prev).at w h

-- Where each attendee of an event is in one patrol at most, every member's patrol is one of the
-- event, and no patrol has two cooks, this holds after any calls that create, delete, fill and
-- empty patrols, name and clear cooks, or update the event, whichever statements fail.
pub after-Fed : (calls : List Call) (w : World) → Fed w.tables → Fed (after calls w).tables
unfolding after
after-Fed [] w h = h
after-Fed (c ∷ calls) w h = after-Fed calls (run c w) (run-Fed c w h)
