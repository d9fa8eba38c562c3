-- ===== src/Storage/Responsibilities.antt =====
-- The responsibilities of attendees: AddDriver to GetResponsibilityHolder of internal/storage/
-- postgres/event_repository.go.
pub mod Singleton
pub mod History
pub mod Conflict
pub mod Tests
use scouting_app.Base.{
  ℕ, ◌+◌, String, Bool, true, false, not, ◌&&◌, ◌||◌, List, [], ◌∷◌, ◌++◌, map, Option, none, some,
  ◌==◌, any, find, where_, update_where, order_by, if◌then◌else◌,
}
use scouting_app.Base.Int.{ℤ, pos, ◌+ℤ◌, leb_ℤ}
use scouting_app.Text.{str_le}
use scouting_app.Profile.{Profile, display_name}
use scouting_app.Event.{
  Responsibility, Assignment, DriverResponsibility, ResponsibilityAssignment, ResponsibilityHolder,
  SeatbeltSummary, is_singleton, driver,
}
use scouting_app.Db.{
  World, Tables, Error, Result, ok, err, constraint, no_rows, null_scan, singleton_conflict, Db,
  pure, fail, attempt, statement, query, ◌>>=◌, ◌>>◌, first,
}
use scouting_app.Storage.Attendance.{has_row, count_attendees}

-- The primary key of event_attendee_responsibilities.
abbrev pub is_assignment : String → String → Responsibility → Assignment → Bool
is_assignment event_id profile_id responsibility a =
    a.event_id == event_id && (a.profile_id == profile_id && a.responsibility == responsibility)

unfoldable pub is_assigned : String → String → Responsibility → List Assignment → Bool
is_assigned event_id profile_id responsibility [] = false
is_assigned event_id profile_id responsibility (a ∷ rows) =
    is_assignment event_id profile_id responsibility a
    || is_assigned event_id profile_id responsibility rows

-- DO UPDATE, or UPDATE: a change of the row with the key.
unfoldable pub change_row :
    String → String → Responsibility → (Assignment → Assignment) → List Assignment → List Assignment
change_row event_id profile_id responsibility f [] = []
change_row event_id profile_id responsibility f (a ∷ rows) =
    (if is_assignment event_id profile_id responsibility a then f a else a)
    ∷ change_row event_id profile_id responsibility f rows

unfoldable pub delete_row : String → String → Responsibility → List Assignment → List Assignment
delete_row event_id profile_id responsibility [] = []
delete_row event_id profile_id responsibility (a ∷ rows) =
    let rest = delete_row event_id profile_id responsibility rows in
    if is_assignment event_id profile_id responsibility a then rest else a ∷ rest

-- INSERT … ON CONFLICT (event_id, profile_id, responsibility) DO UPDATE
unfoldable pub upsert_row :
    String
    → String
    → Responsibility
    → Option ℤ
    → (Assignment → Assignment)
    → World
    → Result (Unit {0}) × Tables
unfolding is_assigned change_row
upsert_row event_id profile_id responsibility seatbelts f w =
    if not (has_row event_id profile_id w.attendees) then (err constraint, w.tables) else (
      ok tt,
      record w.tables {
        assignments =
            if is_assigned event_id profile_id responsibility w.assignments
            then change_row event_id profile_id responsibility f w.assignments
            else w.assignments
              ++ record {
                event_id = event_id;
                profile_id = profile_id;
                responsibility = responsibility;
                seatbelt_count = seatbelts;
                created_at = w.now;
                updated_at = w.now;
              }
                ∷ [];
      },
    )

unfoldable pub add_driver : String → String → ℤ → Db (Unit {0})
unfolding upsert_row
add_driver event_id profile_id seatbelts = statement (λ w.
    upsert_row event_id profile_id driver (some seatbelts)
      (λ a. record a { seatbelt_count = some seatbelts; updated_at = w.now }) w)

unfoldable pub remove_responsibility : String → String → Responsibility → Db (Unit {0})
unfolding delete_row
remove_responsibility event_id profile_id responsibility = statement (λ w. (
  ok tt,
  record w.tables { assignments = delete_row event_id profile_id responsibility w.assignments },
))

unfoldable pub remove_driver : String → String → Db (Unit {0})
unfolding delete_row
remove_driver event_id profile_id = statement (λ w.
    (ok tt, record w.tables { assignments = delete_row event_id profile_id driver w.assignments }))

unfoldable pub update_driver_seatbelt_count : String → String → ℤ → Db (Unit {0})
unfolding change_row
update_driver_seatbelt_count event_id profile_id seatbelts = statement (λ w. (
  ok tt,
  record w.tables {
    assignments =
        change_row event_id profile_id driver
          (λ a. record a { seatbelt_count = some seatbelts; updated_at = w.now }) w.assignments;
  },
))

-- The name of the profile, where the query finds it.
abbrev pub name_of : String → List Profile → Option String
name_of id profiles = elim (find (λ p. p.id == id) profiles) [
  | none ↦ none
  | some p ↦ some (display_name p)
]

-- A count that is NULL does not scan.
joined :
    Option String
    → Option ℤ
    → Assignment
    → Result (List DriverResponsibility)
    → Result (List DriverResponsibility)
joined none count a rest = rest
joined (some name) none a rest = err null_scan
joined (some name) (some count) a (err e) = err e
joined (some name) (some count) a (ok ds) = ok (
    record {
      event_id = a.event_id;
      profile_id = a.profile_id;
      profile_name = name;
      seatbelt_count = count;
      created_at = a.created_at;
      updated_at = a.updated_at;
    }
    ∷ ds)

-- JOIN profiles: a row without a profile is left out.
scan_drivers : String → List Profile → List Assignment → Result (List DriverResponsibility)
unfolding joined
scan_drivers event_id profiles [] = ok []
scan_drivers event_id profiles (a ∷ rows) =
    let rest = scan_drivers event_id profiles rows in
    if a.event_id == event_id && a.responsibility == driver
    then joined (name_of a.profile_id profiles) a.seatbelt_count a rest
    else rest

unfoldable pub get_drivers : String → Db (List DriverResponsibility)
unfolding scan_drivers
get_drivers event_id = query (λ w. scan_drivers event_id w.profiles w.assignments)

abbrev seatbelts_or_zero : Option ℤ → ℤ
seatbelts_or_zero none = pos 0
seatbelts_or_zero (some n) = n

-- COALESCE(SUM(seatbelt_count), 0) over the drivers of the event
unfoldable pub total_seatbelts : String → List Assignment → ℤ
total_seatbelts event_id [] = pos 0
total_seatbelts event_id (a ∷ rows) =
    (if a.event_id == event_id && a.responsibility == driver
      then seatbelts_or_zero a.seatbelt_count
      else pos 0)
    +ℤ total_seatbelts event_id rows

unfoldable pub get_seatbelt_summary : String → Db SeatbeltSummary
unfolding total_seatbelts count_attendees ◌+ℤ◌
get_seatbelt_summary event_id = query (λ w.
    let total = total_seatbelts event_id w.assignments in
    let required = count_attendees event_id w.attendees in
    ok (record {
      total_seatbelts = total;
      required_seatbelts = required;
      available = total;
      sufficient = leb_ℤ (pos required) total;
    }))

-- The first row of the responsibility that is another profile's.
unfoldable pub other_holder : String → String → Responsibility → List Assignment → Option String
other_holder event_id profile_id responsibility [] = none
other_holder event_id profile_id responsibility (a ∷ rows) =
    let rest = other_holder event_id profile_id responsibility rows in
    if a.event_id == event_id
      && (a.responsibility == responsibility && not (a.profile_id == profile_id))
    then some a.profile_id
    else rest

abbrev pub name_or_empty : Result String → String
name_or_empty (ok name) = name
name_or_empty (err e) = ""

-- What follows the query for another holder of a singleton.
unfoldable pub refuse_or : Responsibility → String → Db (Unit {0}) → Result String → Db (Unit {0})
refuse_or responsibility profile_id insert (ok holder) = do
  name ← attempt (query (λ w. first (name_of holder w.profiles) no_rows))
  fail (singleton_conflict responsibility holder (name_or_empty name) profile_id)
refuse_or responsibility profile_id insert (err no_rows) = insert
refuse_or responsibility profile_id insert (err e) = fail e

unfoldable pub insert_assignment : String → String → Responsibility → Db (Unit {0})
unfolding upsert_row
insert_assignment event_id profile_id responsibility = statement (λ w.
    upsert_row event_id profile_id responsibility none (λ a. record a { updated_at = w.now }) w)

unfoldable pub assign_responsibility : String → String → Responsibility → Db (Unit {0})
unfolding is_singleton other_holder refuse_or insert_assignment
assign_responsibility event_id profile_id responsibility =
    if is_singleton responsibility
    then (do
      holder ← attempt (
          query
            (λ w. first (other_holder event_id profile_id responsibility w.assignments) no_rows))
      refuse_or responsibility profile_id (insert_assignment event_id profile_id responsibility)
          holder)
    else insert_assignment event_id profile_id responsibility

join_names : String → List Profile → List Assignment → List ResponsibilityAssignment
join_names event_id profiles [] = []
join_names event_id profiles (a ∷ rows) =
    let rest = join_names event_id profiles rows in
    elim (name_of a.profile_id profiles) [
      | none ↦ rest
      | some name ↦
          if a.event_id == event_id
          then record {
            event_id = a.event_id;
            profile_id = a.profile_id;
            profile_name = name;
            responsibility = a.responsibility;
            created_at = a.created_at;
            updated_at = a.updated_at;
          }
            ∷ rest
          else rest
    ]

unfoldable pub get_responsibilities : String → Db (List ResponsibilityAssignment)
unfolding join_names
get_responsibilities event_id = query (λ w. ok (
    order_by (λ a b. str_le a.responsibility b.responsibility)
      (join_names event_id w.profiles w.assignments)))

first_holder :
    String → Responsibility → List Profile → List Assignment → Option ResponsibilityHolder
first_holder event_id responsibility profiles [] = none
first_holder event_id responsibility profiles (a ∷ rows) =
    let rest = first_holder event_id responsibility profiles rows in
    elim (name_of a.profile_id profiles) [
      | none ↦ rest
      | some name ↦
          if a.event_id == event_id && a.responsibility == responsibility
          then some (record { profile_id = a.profile_id; profile_name = name })
          else rest
    ]

-- No row is nil, not an error.
unfoldable pub get_responsibility_holder :
    String → Responsibility → Db (Option ResponsibilityHolder)
unfolding first_holder
get_responsibility_holder event_id responsibility =
    query (λ w. ok (first_holder event_id responsibility w.profiles w.assignments))
