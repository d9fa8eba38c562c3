-- ===== src/Storage/Patrols.antt =====
-- The cooking patrols: CreateCookingPatrol to ClearCookingPatrolCook, UpdateWithCooking and its
-- helpers of internal/storage/postgres/event_repository.go, with the unique indexes and foreign
-- keys of migrations/00018_cooking_patrols.sql.
pub mod Invariants
pub mod Cook
pub mod Writers
pub mod Cooking
pub mod Toggle
pub mod History
pub mod Tests
use scouting_app.Base.{
  ℕ, ◌+◌, String, Bool, true, false, not, ◌&&◌, ◌||◌, List, [], ◌∷◌, ◌++◌, map, Option, none, some,
  ◌==◌, nat_eq, bool_eq, ltb, any, find, where_, update_where, order_by, if◌then◌else◌,
}
use scouting_app.Text.{str_le}
use scouting_app.Profile.{Profile, display_name, member_type_eq, adult}
use scouting_app.Event.{
  Event, Attendee, PatrolRow, PatrolMemberRow, CookingPatrol, CookingPatrolMember,
}
use scouting_app.Naming.{
  cooking_patrol_adults_name, cooking_patrol_next_name, cooking_patrol_number, highest_number,
  next_number,
}
use scouting_app.Db.{
  World, Tables, Error, Result, ok, err, constraint, no_rows, cooking_patrol_not_found,
  not_a_member, Db, pure, fail, attempt, statement, query, transaction, new_uuid, ◌>>=◌, ◌>>◌,
  first,
}
use scouting_app.Storage.Attendance.{has_row, attends}
use scouting_app.Storage.Events.{write_event}

-- The unique indexes: the id, the name within the event, one adult patrol for an event.
abbrev pub patrols_clash : PatrolRow → PatrolRow → Bool
patrols_clash p q =
    p.id == q.id || (p.event_id == q.event_id && (p.name == q.name || (p.is_adult && q.is_adult)))

unfoldable pub clashes : PatrolRow → List PatrolRow → Bool
clashes p [] = false
clashes p (q ∷ rows) = patrols_clash q p || clashes p rows

unfoldable pub insert_patrol : PatrolRow → World → Result PatrolRow × Tables
unfolding clashes
insert_patrol p w =
    if clashes p w.patrols || not (any (λ e. e.id == p.event_id) w.events)
    then (err constraint, w.tables)
    else (ok p, record w.tables { patrols = w.patrols ++ p ∷ [] })

abbrev patrol_row : String → String → String → Bool → ℕ → PatrolRow
patrol_row id event_id name is_adult now = record {
  id = id;
  event_id = event_id;
  name = name;
  is_adult = is_adult;
  created_at = now;
}

abbrev without_members : PatrolRow → CookingPatrol
without_members p = record {
  id = p.id;
  event_id = p.event_id;
  name = p.name;
  is_adult = p.is_adult;
  created_at = p.created_at;
  members = [];
}

abbrev youth_patrol_names : String → List PatrolRow → List String
youth_patrol_names event_id rows =
    map (λ p. p.name) (where_ (λ p. p.event_id == event_id && not p.is_adult) rows)

unfoldable pub insert_adult_patrol : String → String → Db PatrolRow
unfolding insert_patrol
insert_adult_patrol id event_id =
    statement (λ w. insert_patrol (patrol_row id event_id cooking_patrol_adults_name true w.now) w)

unfoldable pub insert_youth_patrol : String → String → Db PatrolRow
unfolding insert_patrol cooking_patrol_next_name highest_number cooking_patrol_number
insert_youth_patrol id event_id = transaction (do
  names ← query (λ w. ok (youth_patrol_names event_id w.patrols))
  let name = cooking_patrol_next_name (next_number cooking_patrol_number names)
  statement (λ w. insert_patrol (patrol_row id event_id name false w.now) w))

unfoldable pub create_cooking_patrol : String → Bool → Db CookingPatrol
unfolding insert_adult_patrol insert_youth_patrol
create_cooking_patrol event_id is_adult = do
  id ← new_uuid
  row ← if is_adult then insert_adult_patrol id event_id else insert_youth_patrol id event_id
  pure (without_members row)

abbrev pub patrol_le : PatrolRow → PatrolRow → Bool
patrol_le p q =
    ltb p.created_at q.created_at || (nat_eq p.created_at q.created_at && str_le p.id q.id)

abbrev member_le : PatrolMemberRow → PatrolMemberRow → Bool
member_le m n =
    ltb m.created_at n.created_at
    || (nat_eq m.created_at n.created_at && str_le m.profile_id n.profile_id)

-- JOIN profiles, and membersByPatrol[p.ID] for the members in their order.
patrol_members_of : String → List Profile → List PatrolMemberRow → List CookingPatrolMember
patrol_members_of patrol_id profiles [] = []
patrol_members_of patrol_id profiles (m ∷ rows) =
    let rest = patrol_members_of patrol_id profiles rows in
    elim (find (λ p. p.id == m.profile_id) profiles) [
      | none ↦ rest
      | some p ↦
          if m.patrol_id == patrol_id
          then record {
            event_id = m.event_id;
            patrol_id = m.patrol_id;
            profile_id = m.profile_id;
            profile_name = display_name p;
            is_cook = m.is_cook;
            created_at = m.created_at;
          }
            ∷ rest
          else rest
    ]

unfoldable pub with_members :
    String → List Profile → List PatrolMemberRow → PatrolRow → CookingPatrol
unfolding patrol_members_of
with_members event_id profiles members p = record {
  id = p.id;
  event_id = event_id;
  name = p.name;
  is_adult = p.is_adult;
  created_at = p.created_at;
  members = patrol_members_of p.id profiles members;
}

unfoldable pub list_cooking_patrols : String → Db (List CookingPatrol)
unfolding with_members order_by
list_cooking_patrols event_id = do
  patrols ← query (λ w. ok (order_by patrol_le (where_ (λ p. p.event_id == event_id) w.patrols)))
  query (λ w.
      let members = order_by member_le (where_ (λ m. m.event_id == event_id) w.patrol_members) in
      ok (map (with_members event_id w.profiles members) patrols))

unfoldable pub remove_patrol : String → World → Result (Unit {0}) × Tables
remove_patrol id w =
    if any (λ p. p.id == id) w.patrols
    then (
      ok tt,
      record w.tables {
        patrols = where_ (λ p. not (p.id == id)) w.patrols;
        patrol_members = where_ (λ m. not (m.patrol_id == id)) w.patrol_members;
      },
    )
    else (err cooking_patrol_not_found, w.tables)

unfoldable pub delete_cooking_patrol : String → Db (Unit {0})
unfolding remove_patrol
delete_cooking_patrol id = statement (remove_patrol id)

-- The primary key of event_cooking_patrol_members.
abbrev pub is_member_row : String → String → PatrolMemberRow → Bool
is_member_row event_id profile_id m = m.event_id == event_id && m.profile_id == profile_id

unfoldable pub has_member : String → String → List PatrolMemberRow → Bool
has_member event_id profile_id [] = false
has_member event_id profile_id (m ∷ rows) =
    is_member_row event_id profile_id m || has_member event_id profile_id rows

unfoldable pub change_members :
    (PatrolMemberRow → Bool)
    → (PatrolMemberRow → PatrolMemberRow)
    → List PatrolMemberRow
    → List PatrolMemberRow
change_members test f [] = []
change_members test f (m ∷ rows) = (if test m then f m else m) ∷ change_members test f rows

-- Another attendee is the patrol's cook: the unique index admits one.
unfoldable pub cook_taken : String → String → String → List PatrolMemberRow → Bool
cook_taken event_id profile_id patrol_id [] = false
cook_taken event_id profile_id patrol_id (m ∷ rows) =
    (m.patrol_id == patrol_id && (m.is_cook && not (is_member_row event_id profile_id m)))
    || cook_taken event_id profile_id patrol_id rows

-- INSERT … ON CONFLICT (event_id, profile_id) DO UPDATE
unfoldable pub upsert_member :
    String
    → String
    → String
    → (PatrolMemberRow → PatrolMemberRow)
    → World
    → Result (Unit {0}) × Tables
unfolding has_member change_members cook_taken
upsert_member event_id profile_id patrol_id f w =
    if not (has_row event_id profile_id w.attendees)
    then (err constraint, w.tables)
    else if any (λ m. is_member_row event_id profile_id m && (f m).is_cook) w.patrol_members
        && cook_taken event_id profile_id patrol_id w.patrol_members
    then (err constraint, w.tables)
    else (
      ok tt,
      record w.tables {
        patrol_members =
            if has_member event_id profile_id w.patrol_members
            then change_members (is_member_row event_id profile_id) f w.patrol_members
            else w.patrol_members
              ++ record {
                event_id = event_id;
                profile_id = profile_id;
                patrol_id = patrol_id;
                is_cook = false;
                created_at = w.now;
              }
                ∷ [];
      },
    )

unfoldable pub write_member : String → String → String → World → Result (Unit {0}) × Tables
unfolding upsert_member
write_member event_id patrol_id profile_id w =
    if any (λ p. p.id == patrol_id && p.event_id == event_id) w.patrols
    then upsert_member event_id profile_id patrol_id
        (λ m. record m { patrol_id = patrol_id; is_cook = false }) w
    else (err cooking_patrol_not_found, w.tables)

unfoldable pub assign_cooking_patrol_member : String → String → String → Db (Unit {0})
unfolding write_member
assign_cooking_patrol_member event_id patrol_id profile_id =
    statement (write_member event_id patrol_id profile_id)

unfoldable pub remove_cooking_patrol_member : String → String → Db (Unit {0})
remove_cooking_patrol_member event_id profile_id = statement (λ w. (
  ok tt,
  record w.tables {
    patrol_members = where_ (λ m. not (is_member_row event_id profile_id m)) w.patrol_members;
  },
))

abbrev pub set_cook : Bool → PatrolMemberRow → PatrolMemberRow
set_cook b m = record m { is_cook = b }

abbrev pub in_patrol : String → String → PatrolMemberRow → Bool
in_patrol event_id patrol_id m = m.event_id == event_id && m.patrol_id == patrol_id

-- The UPDATE that makes the member the cook.
unfoldable pub write_cook : String → String → String → World → Result (Unit {0}) × Tables
unfolding change_members cook_taken
write_cook event_id patrol_id profile_id w =
    if cook_taken event_id profile_id patrol_id w.patrol_members
    then (err constraint, w.tables)
    else (
      ok tt,
      record w.tables {
        patrol_members =
            change_members (λ m. in_patrol event_id patrol_id m && m.profile_id == profile_id)
              (set_cook true) w.patrol_members;
      },
    )

unfoldable pub clear_patrol_cook : String → String → World → Result (Unit {0}) × Tables
unfolding change_members
clear_patrol_cook event_id patrol_id w = (
  ok tt,
  record w.tables {
    patrol_members =
        change_members (λ m. in_patrol event_id patrol_id m && m.is_cook) (set_cook false)
          w.patrol_members;
  },
)

unfoldable pub set_cooking_patrol_cook : String → String → String → Db (Unit {0})
unfolding write_cook clear_patrol_cook
set_cooking_patrol_cook event_id patrol_id profile_id = transaction (do
  member ← query (λ w.
      ok (any (λ m. in_patrol event_id patrol_id m && m.profile_id == profile_id) w.patrol_members))
  if not member
      then fail not_a_member
      else (statement (clear_patrol_cook event_id patrol_id)
          >> statement (write_cook event_id patrol_id profile_id)))

unfoldable pub clear_cooking_patrol_cook : String → Db (Unit {0})
unfolding change_members
clear_cooking_patrol_cook patrol_id = statement (λ w. (
  ok tt,
  record w.tables {
    patrol_members =
        change_members (λ m. m.patrol_id == patrol_id) (set_cook false) w.patrol_members;
  },
))

-- adultPatrolID, after its query.
unfoldable pub adult_patrol_or_new : String → Result String → Db String
unfolding insert_patrol
adult_patrol_or_new event_id (ok id) = pure id
adult_patrol_or_new event_id (err no_rows) = do
  id ← new_uuid
  statement (λ w. insert_patrol (patrol_row id event_id cooking_patrol_adults_name true w.now) w)
  pure id
adult_patrol_or_new event_id (err e) = fail e

abbrev pub row_id : Option PatrolRow → Result String
row_id none = err no_rows
row_id (some p) = ok p.id

unfoldable pub adult_patrol_id : String → Db String
unfolding adult_patrol_or_new
adult_patrol_id event_id = do
  found ← attempt (query (λ w. row_id (find (λ p. p.event_id == event_id && p.is_adult) w.patrols)))
  adult_patrol_or_new event_id found

-- The loop over the adults that are signed up; is_cook stays where a row is there already.
unfoldable pub join_adult_patrol : String → String → List String → Db (Unit {0})
unfolding upsert_member
join_adult_patrol event_id patrol_id [] = pure tt
join_adult_patrol event_id patrol_id (profile_id ∷ ids) = do
  statement (upsert_member event_id profile_id patrol_id (λ m. record m { patrol_id = patrol_id }))
  join_adult_patrol event_id patrol_id ids

unfoldable pub adult_attendee_ids : String → List Attendee → List Profile → List String
unfolding attends
adult_attendee_ids event_id attendees [] = []
adult_attendee_ids event_id attendees (p ∷ profiles) =
    let rest = adult_attendee_ids event_id attendees profiles in
    if attends event_id p.id attendees && member_type_eq p.member_type adult
    then p.id ∷ rest
    else rest

unfoldable pub enable_cooking : String → Db (Unit {0})
unfolding adult_patrol_id join_adult_patrol adult_attendee_ids
enable_cooking event_id = do
  patrol_id ← adult_patrol_id event_id
  ids ← query (λ w. ok (adult_attendee_ids event_id w.attendees w.profiles))
  join_adult_patrol event_id patrol_id ids

-- DELETE FROM event_cooking_patrols WHERE event_id = $1; the members go with the patrols.
unfoldable pub disable_cooking : String → Db (Unit {0})
disable_cooking event_id = statement (λ w. (
  ok tt,
  record w.tables {
    patrols = where_ (λ p. not (p.event_id == event_id)) w.patrols;
    patrol_members =
        where_ (λ m. not (any (λ p. p.id == m.patrol_id && p.event_id == event_id) w.patrols))
          w.patrol_members;
  },
))

unfoldable pub update_with_cooking : Event → Bool → Db (Unit {0})
unfolding enable_cooking disable_cooking write_event
update_with_cooking e prev_cooking_enabled = transaction (do
  statement (write_event e)
  if bool_eq prev_cooking_enabled e.cooking_enabled
      then pure tt
      else if e.cooking_enabled
      then enable_cooking e.id
      else disable_cooking e.id)
