-- ===== src/Api/Consistency.antt =====
-- Any sequence of requests to the routes of main.go that change the data of events, each finished
-- before the next one begins.
use scouting_app.Base.{
  String, ◌≡◌, true, false, not, ◌&&◌, ◌||◌, List, [], ◌∷◌, Option, ◌==◌, ◌⊎◌, inl, inr, Bool-cases,
  All-map, AllPairs-where, All-passing, any, any-false, any-where_passing, where_, arith,
}
use scouting_app.Calendar.{Time}
use scouting_app.Event.{TentRow, TentMemberRow}
use scouting_app.Db.{World, Tables, Result}
use scouting_app.Db.Keeps.{Keeps, Keeps-statement}
use scouting_app.Storage.Events.{remove_event, delete_event, tent_of_event, patrol_of_event}
use scouting_app.Storage.Frames as Frames
use scouting_app.Storage.Responsibilities.Singleton.{
  SingleHolders, assign_responsibility-SingleHolders, seatbelts-SingleHolders,
  removals-SingleHolders,
}
use scouting_app.Storage.Patrols.Invariants.{Fed}
use scouting_app.Storage.Patrols.Writers.{writers-Fed, without-Fed, disabled-Stays}
use scouting_app.Storage.Patrols.Cook.{set_cooking_patrol_cook-Fed}
use scouting_app.Storage.Patrols.Toggle.{update_with_cooking-Fed}
use scouting_app.Storage.Patrols.History.{create_cooking_patrol-Fed}
use scouting_app.Storage.Tents.Invariants.{Housed, tent_exists, same_place, writers-Housed}
use scouting_app.Storage.Tents.Creation.{create_tent-Housed}
use scouting_app.Auth.{Session}
use scouting_app.Api.EventForms.{Cost}
use scouting_app.Api.Routes.{Route, serve}
use scouting_app.Api.Keeping.{WritersKeep}
use scouting_app.Api.Keeping.Requests.{serve-Keeps}

delete_event-SingleHolders : (e : String) → Keeps SingleHolders (delete_event e)
unfolding delete_event remove_event
delete_event-SingleHolders e = Keeps-statement _ (λ w h. Frames.chosen SingleHolders _ _ _ h (
    Frames.chosen SingleHolders
      (any (λ m. m.event_id == e)
        (where_ (λ m. not (tent_of_event e w.tents m.tent_id)) w.tent_members))
      _ _ h (AllPairs-where _ (λ a. not (a.event_id == e)) w.assignments h)))

event_gone-Fed :
    (e : String) (t : Tables)
    → Fed t
    → Fed (record t {
      patrols = where_ (λ p. not (p.event_id == e)) t.patrols;
      patrol_members =
          where_
            (λ m. not (m.event_id == e || patrol_of_event e t.patrols m.patrol_id))
            t.patrol_members;
    })
event_gone-Fed e t h =
    without-Fed (λ p. p.event_id == e)
      (λ m. m.event_id == e || patrol_of_event e t.patrols m.patrol_id) t
      (λ m k. disabled-Stays e m t.patrols (ground arith)) h

delete_event-Fed : (e : String) → Keeps Fed (delete_event e)
unfolding delete_event remove_event
delete_event-Fed e = Keeps-statement _ (λ w h. Frames.chosen Fed _ _ _ h (
    Frames.chosen Fed
      (any (λ m. m.event_id == e)
        (where_ (λ m. not (tent_of_event e w.tents m.tent_id)) w.tent_members))
      _ _ h (event_gone-Fed e w.tables h)))

-- A member whose tent is not the event's keeps it.
tent_stays :
    (e : String) (m : TentMemberRow) (tents : List TentRow)
    → not (tent_of_event e tents m.tent_id) ≡ true
    → tent_exists tents m ≡ true
    → tent_exists (where_ (λ t. not (t.event_id == e)) tents) m ≡ true
tent_stays e m tents k h =
    any-where_passing (λ t. t.id == m.tent_id && t.event_id == m.event_id)
      (λ t. not (t.event_id == e)) tents
      (All-map (λ t. (t.id == m.tent_id && t.event_id == e) ≡ false)
        (λ t.
          ((t.id == m.tent_id && t.event_id == m.event_id) ≡ false)
          ⊎ (not (t.event_id == e) ≡ true))
        (λ t u. elim (Bool-cases (t.event_id == e)) [
          | inl q ↦ inl (ground arith)
          | inr q ↦ inr (ground arith)
        ])
        tents (any-false (λ t. t.id == m.tent_id && t.event_id == e) tents (ground arith)))
      h

event_gone-Housed :
    (e : String) (t : Tables)
    → Housed t
    → Housed (record t {
      tents = where_ (λ u. not (u.event_id == e)) t.tents;
      tent_members = where_ (λ m. not (tent_of_event e t.tents m.tent_id)) t.tent_members;
    })
event_gone-Housed e t (single, homes) = (
  AllPairs-where (λ m n. same_place m n ≡ false) (λ m. not (tent_of_event e t.tents m.tent_id))
      t.tent_members single,
  All-passing (λ m. tent_exists t.tents m ≡ true)
      (λ m. tent_exists (where_ (λ u. not (u.event_id == e)) t.tents) m ≡ true)
      (λ m. not (tent_of_event e t.tents m.tent_id)) (λ m k h. tent_stays e m t.tents k h)
      t.tent_members homes,
)

delete_event-Housed : (e : String) → Keeps Housed (delete_event e)
unfolding delete_event remove_event
delete_event-Housed e = Keeps-statement _ (λ w h. Frames.chosen Housed _ _ _ h (
    Frames.chosen Housed
      (any (λ m. m.event_id == e)
        (where_ (λ m. not (tent_of_event e w.tents m.tent_id)) w.tent_members))
      _ _ h (event_gone-Housed e w.tables h)))

abbrev writers_single : WritersKeep SingleHolders
writers_single = record {
  create_event = Frames.create_event-Keeps (λ t x h. h);
  delete_event = delete_event-SingleHolders;
  update_with_cooking = Frames.update_with_cooking-Keeps (λ t x y h. h) (λ t x h. h);
  sign_up = Frames.sign_up-Keeps (λ t x h. h);
  withdraw = Frames.withdraw-Keeps (λ t x h. h);
  add_driver = λ e p n. record { at = λ w h. (seatbelts-SingleHolders e p n w h).0 };
  remove_driver = λ e p. record { at = λ w h. (removals-SingleHolders e p "" w h).1 };
  update_seatbelts = λ e p n. record { at = λ w h. (seatbelts-SingleHolders e p n w h).1 };
  assign_responsibility =
      λ e p r. record { at = λ w h. assign_responsibility-SingleHolders e p r w h };
  remove_responsibility = λ e p r. record { at = λ w h. (removals-SingleHolders e p r w h).0 };
  create_cooking_patrol = Frames.create_cooking_patrol-Keeps (λ t x y h. h);
  delete_cooking_patrol = Frames.delete_cooking_patrol-Keeps (λ t x y h. h);
  assign_cooking_patrol_member = Frames.assign_cooking_patrol_member-Keeps (λ t x y h. h);
  remove_cooking_patrol_member = Frames.remove_cooking_patrol_member-Keeps (λ t x y h. h);
  set_cooking_patrol_cook = Frames.set_cooking_patrol_cook-Keeps (λ t x y h. h);
  clear_cooking_patrol_cook = Frames.clear_cooking_patrol_cook-Keeps (λ t x y h. h);
  create_tent = Frames.create_tent-Keeps (λ t x y h. h);
  delete_tent = Frames.delete_tent-Keeps (λ t x y h. h);
  assign_tent_member = Frames.assign_tent_member-Keeps (λ t x y h. h);
  remove_tent_member = Frames.remove_tent_member-Keeps (λ t x y h. h);
}

abbrev writers_fed : WritersKeep Fed
writers_fed = record {
  create_event = Frames.create_event-Keeps (λ t x h. h);
  delete_event = delete_event-Fed;
  update_with_cooking = update_with_cooking-Fed;
  sign_up = Frames.sign_up-Keeps (λ t x h. h);
  withdraw = Frames.withdraw-Keeps (λ t x h. h);
  add_driver = Frames.add_driver-Keeps (λ t x h. h);
  remove_driver = Frames.remove_driver-Keeps (λ t x h. h);
  update_seatbelts = Frames.update_seatbelts-Keeps (λ t x h. h);
  assign_responsibility = Frames.assign_responsibility-Keeps (λ t x h. h);
  remove_responsibility = Frames.remove_responsibility-Keeps (λ t x h. h);
  create_cooking_patrol = create_cooking_patrol-Fed;
  delete_cooking_patrol = λ i. record { at = λ w h. (writers-Fed "" i "" w h).2 };
  assign_cooking_patrol_member = λ e i p. record { at = λ w h. (writers-Fed e i p w h).0 };
  remove_cooking_patrol_member = λ e p. record { at = λ w h. (writers-Fed e "" p w h).1 };
  set_cooking_patrol_cook = λ e i p. set_cooking_patrol_cook-Fed e p i;
  clear_cooking_patrol_cook = λ i. record { at = λ w h. (writers-Fed "" i "" w h).3 };
  create_tent = Frames.create_tent-Keeps (λ t x y h. h);
  delete_tent = Frames.delete_tent-Keeps (λ t x y h. h);
  assign_tent_member = Frames.assign_tent_member-Keeps (λ t x y h. h);
  remove_tent_member = Frames.remove_tent_member-Keeps (λ t x y h. h);
}

abbrev writers_housed : WritersKeep Housed
writers_housed = record {
  create_event = Frames.create_event-Keeps (λ t x h. h);
  delete_event = delete_event-Housed;
  update_with_cooking = Frames.update_with_cooking-Keeps (λ t x y h. h) (λ t x h. h);
  sign_up = Frames.sign_up-Keeps (λ t x h. h);
  withdraw = Frames.withdraw-Keeps (λ t x h. h);
  add_driver = Frames.add_driver-Keeps (λ t x h. h);
  remove_driver = Frames.remove_driver-Keeps (λ t x h. h);
  update_seatbelts = Frames.update_seatbelts-Keeps (λ t x h. h);
  assign_responsibility = Frames.assign_responsibility-Keeps (λ t x h. h);
  remove_responsibility = Frames.remove_responsibility-Keeps (λ t x h. h);
  create_cooking_patrol = Frames.create_cooking_patrol-Keeps (λ t x y h. h);
  delete_cooking_patrol = Frames.delete_cooking_patrol-Keeps (λ t x y h. h);
  assign_cooking_patrol_member = Frames.assign_cooking_patrol_member-Keeps (λ t x y h. h);
  remove_cooking_patrol_member = Frames.remove_cooking_patrol_member-Keeps (λ t x y h. h);
  set_cooking_patrol_cook = Frames.set_cooking_patrol_cook-Keeps (λ t x y h. h);
  clear_cooking_patrol_cook = Frames.clear_cooking_patrol_cook-Keeps (λ t x y h. h);
  create_tent = create_tent-Housed;
  delete_tent = λ i. record { at = λ w h. (writers-Housed "" i "" w h).2 };
  assign_tent_member = λ e i p. record { at = λ w h. (writers-Housed e i p w h).0 };
  remove_tent_member = λ e p. record { at = λ w h. (writers-Housed e "" p w h).1 };
}

-- One holder for a singleton responsibility, one patrol and one tent for an attendee, of the event,
-- and one cook for a patrol.
abbrev pub Consistent : Tables → Type 0
Consistent t = SingleHolders t × Fed t × Housed t

pub record Request : Type 0 where
  pub cookie : Result Session
  pub path : String
  pub route : Route

module _ (query_escape : String → String) (env : String → Option String)
    (parse_cost : String → Cost) (parse_time : String → Option Time) where
  -- The world after the requests, whatever they are answered.
  unfoldable pub after : List Request → World → World
  after [] w = w
  after (r ∷ requests) w =
      after requests (serve query_escape env parse_cost parse_time r.cookie r.path r.route w).1

  -- If no event has two holders of one singleton responsibility, the patrols and their members fit
  -- together, and so do the tents and theirs, then this holds after any sequence of requests to
  -- the routes that change events, whatever the cookies, the paths, the forms and the outcome of
  -- each statement; each request ends before the next begins.
  pub after-Consistent :
      (requests : List Request) (w : World)
      → Consistent w.tables
      → Consistent (after requests w).tables
  unfolding after
  after-Consistent [] w h = h
  after-Consistent (r ∷ requests) w (single, fed, housed) =
      after-Consistent requests
        (serve query_escape env parse_cost parse_time r.cookie r.path r.route w).1
        (
          (serve-Keeps query_escape env parse_cost parse_time writers_single r.cookie r.path
                r.route).at
              w single,
          (serve-Keeps query_escape env parse_cost parse_time writers_fed r.cookie r.path
                r.route).at
              w fed,
          (serve-Keeps query_escape env parse_cost parse_time writers_housed r.cookie r.path
                r.route).at
              w housed,
        )
