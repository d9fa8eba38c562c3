-- ===== src/Storage/Tents/History.antt =====
-- Any sequence of the calls that write tents: CreateTent, DeleteTent, AssignTentMember and
-- RemoveTentMember of internal/storage/postgres/event_repository.go.
use scouting_app.Base.{String, List, [], ◌∷◌}
use scouting_app.Db.{World}
use scouting_app.Storage.Tents.{create_tent, delete_tent, assign_tent_member, remove_tent_member}
use scouting_app.Storage.Tents.Invariants.{Housed, writers-Housed}
use scouting_app.Storage.Tents.Creation.{create_tent-Housed}

pub data Call : Type 0 where
  create_call delete_call : String → Call
  assign_call : String → String → String → Call
  remove_call : String → String → Call

pub run : Call → World → World
run (create_call e) w = (create_tent e w).1
run (delete_call i) w = (delete_tent i w).1
run (assign_call e i p) w = (assign_tent_member e i p w).1
run (remove_call e p) w = (remove_tent_member e p w).1

-- The world after the calls, those that return an error included.
pub after : List Call → World → World
unfolding run
after [] w = w
after (c ∷ calls) w = after calls (run c w)

run-Housed : (c : Call) (w : World) → Housed w.tables → Housed (run c w).tables
unfolding run
run-Housed (create_call e) w h = (create_tent-Housed e).at w h
run-Housed (delete_call i) w h = (writers-Housed "" i "" w h).2
run-Housed (assign_call e i p) w h = (writers-Housed e i p w h).0
run-Housed (remove_call e p) w h = (writers-Housed e "" p w h).1

-- Where each attendee of an event has one tent at most and it is a tent of the event, this holds
-- after any calls that create and delete tents and move their members, whichever statements fail.
pub after-Housed : (calls : List Call) (w : World) → Housed w.tables → Housed (after calls w).tables
unfolding after
after-Housed [] w h = h
after-Housed (c ∷ calls) w h = after-Housed calls (run c w) (run-Housed c w h)
