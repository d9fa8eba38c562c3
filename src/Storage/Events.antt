-- ===== src/Storage/Events.antt =====
-- The events themselves: Create, GetByID, Update and Delete of internal/storage/postgres/
-- event_repository.go, with the CHECK constraints of the events table and its ON DELETE CASCADE.
use scouting_app.Base.{
  String, Bool, not, ◌&&◌, ◌||◌, List, [], ◌∷◌, ◌++◌, ◌==◌, any, find, where_, update_where,
  if◌then◌else◌,
}
use scouting_app.Calendar.{before}
use scouting_app.Event.{Event, TentRow, PatrolRow}
use scouting_app.Db.{
  World, Tables, Result, ok, err, constraint, event_not_found, Db, pure, statement, query, new_uuid,
  ◌>>=◌, first,
}
use scouting_app.Storage.Profiles.{coalesce_time}

-- chk_event_type and chk_event_times
abbrev pub row_allowed : Event → Bool
row_allowed e = e.type == "campout" && before e.start_time e.end_time

unfoldable pub insert_event : Event → World → Result Event × Tables
insert_event e w =
    if any (λ f. f.id == e.id) w.events || not (row_allowed e)
    then (err constraint, w.tables)
    else (ok e, record w.tables { events = w.events ++ e ∷ [] })

unfoldable pub create_event : Event → Db Event
unfolding insert_event
create_event e = do
  id ← if e.id == "" then new_uuid else pure e.id
  statement (λ w.
      let now = coalesce_time e.created_at w in
      insert_event (record e { id = id; created_at = now; updated_at = now }) w)

unfoldable pub get_event_by_id : String → Db Event
get_event_by_id id = query (λ w. first (find (λ e. e.id == id) w.events) event_not_found)

-- The UPDATE of Update and UpdateWithCooking; created_at stays.
unfoldable pub write_event : Event → World → Result (Unit {0}) × Tables
write_event e w =
    if not (any (λ f. f.id == e.id) w.events)
    then (err event_not_found, w.tables)
    else if not (row_allowed e)
    then (err constraint, w.tables)
    else (
      ok tt,
      record w.tables {
        events =
            update_where (λ f. f.id == e.id)
              (λ f. record e { created_at = f.created_at; updated_at = w.now }) w.events;
      },
    )

unfoldable pub update_event : Event → Db (Unit {0})
unfolding write_event
update_event e = statement (write_event e)

abbrev pub tent_of_event : String → List TentRow → String → Bool
tent_of_event event_id tents tent_id = any (λ t. t.id == tent_id && t.event_id == event_id) tents

abbrev pub patrol_of_event : String → List PatrolRow → String → Bool
patrol_of_event event_id patrols patrol_id =
    any (λ p. p.id == patrol_id && p.event_id == event_id) patrols

-- The rows that refer to the event, directly or through a row that goes, go with it. A tent member
-- does not go with its attendee, and refers to it still if its tent is another event's.
unfoldable pub remove_event : String → World → Result (Unit {0}) × Tables
remove_event id w =
    let tent_members = where_ (λ m. not (tent_of_event id w.tents m.tent_id)) w.tent_members in
    if not (any (λ e. e.id == id) w.events)
    then (err event_not_found, w.tables)
    else if any (λ m. m.event_id == id) tent_members
    then (err constraint, w.tables)
    else (
      ok tt,
      record w.tables {
        events = where_ (λ e. not (e.id == id)) w.events;
        attendees = where_ (λ a. not (a.event_id == id)) w.attendees;
        assignments = where_ (λ a. not (a.event_id == id)) w.assignments;
        patrols = where_ (λ p. not (p.event_id == id)) w.patrols;
        patrol_members =
            where_ (λ m. not (m.event_id == id || patrol_of_event id w.patrols m.patrol_id))
              w.patrol_members;
        tents = where_ (λ t. not (t.event_id == id)) w.tents;
        tent_members = tent_members;
      },
    )

unfoldable pub delete_event : String → Db (Unit {0})
unfolding remove_event
delete_event id = statement (remove_event id)
