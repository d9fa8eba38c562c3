-- ===== src/Storage/Responsibilities/History.antt =====
-- Any sequence of the calls that write responsibilities: AddDriver, RemoveDriver,
-- UpdateDriverSeatbeltCount, AssignResponsibility and RemoveResponsibility of internal/storage/
-- postgres/event_repository.go, each finished before the next one begins.
use scouting_app.Base.{String, List, [], ◌∷◌}
use scouting_app.Base.Int.{ℤ}
use scouting_app.Event.{Responsibility}
use scouting_app.Db.{World, Db}
use scouting_app.Storage.Responsibilities.{
  add_driver, remove_driver, update_driver_seatbelt_count, assign_responsibility,
  remove_responsibility,
}
use scouting_app.Storage.Responsibilities.Singleton.{
  SingleHolders, assign_responsibility-SingleHolders, seatbelts-SingleHolders,
  removals-SingleHolders,
}

pub data Call : Type 0 where
  add_driver_call update_seatbelts_call : String → String → ℤ → Call
  remove_driver_call : String → String → Call
  assign_call remove_call : String → String → Responsibility → Call

pub run : Call → Db (Unit {0})
run (add_driver_call e p count) = add_driver e p count
run (update_seatbelts_call e p count) = update_driver_seatbelt_count e p count
run (remove_driver_call e p) = remove_driver e p
run (assign_call e p r) = assign_responsibility e p r
run (remove_call e p r) = remove_responsibility e p r

-- The world after the calls, those that return an error included.
pub after : List Call → World → World
unfolding run
after [] w = w
after (c ∷ calls) w = after calls (run c w).1

run-SingleHolders :
    (c : Call) (w : World) → SingleHolders w.tables → SingleHolders (run c w).1.tables
unfolding run
run-SingleHolders (add_driver_call e p count) w h = (seatbelts-SingleHolders e p count w h).0
run-SingleHolders (update_seatbelts_call e p count) w h = (seatbelts-SingleHolders e p count w h).1
run-SingleHolders (remove_driver_call e p) w h = (removals-SingleHolders e p "" w h).1
run-SingleHolders (assign_call e p r) w h = assign_responsibility-SingleHolders e p r w h
run-SingleHolders (remove_call e p r) w h = (removals-SingleHolders e p r w h).0

-- Where no two rows of the tables give a singleton responsibility of one event, none do after any
-- calls that add, change or remove responsibilities one after the other, whichever statements
-- fail.
pub after-SingleHolders :
    (calls : List Call) (w : World) → SingleHolders w.tables → SingleHolders (after calls w).tables
unfolding after run
after-SingleHolders [] w h = h
after-SingleHolders (c ∷ calls) w h =
    after-SingleHolders calls (run c w).1 (run-SingleHolders c w h)
