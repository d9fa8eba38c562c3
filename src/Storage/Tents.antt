-- ===== src/Storage/Tents.antt =====
-- The tents: CreateTent to RemoveTentMember of internal/storage/postgres/event_repository.go, with
-- the keys of migrations/00019_event_tents.sql.
pub mod Invariants
pub mod Creation
pub mod History
pub mod Tests
use scouting_app.Base.{
  ℕ, ◌+◌, String, Bool, true, false, not, ◌&&◌, ◌||◌, List, [], ◌∷◌, ◌++◌, map, Option, none, some,
  ◌==◌, nat_eq, ltb, any, find, where_, order_by, if◌then◌else◌,
}
use scouting_app.Text.{str_le}
use scouting_app.Profile.{Profile, display_name}
use scouting_app.Event.{TentRow, TentMemberRow, Tent, TentMember}
use scouting_app.Naming.{tent_next_name, tent_number, highest_number, next_number}
use scouting_app.Db.{
  World, Tables, Result, ok, err, constraint, tent_not_found, Db, pure, statement, query,
  transaction, new_uuid, ◌>>=◌, ◌>>◌,
}
use scouting_app.Storage.Attendance.{has_row}

unfoldable pub insert_tent : TentRow → World → Result TentRow × Tables
insert_tent t w =
    if any (λ u. u.id == t.id) w.tents || not (any (λ e. e.id == t.event_id) w.events)
    then (err constraint, w.tables)
    else (ok t, record w.tables { tents = w.tents ++ t ∷ [] })

unfoldable pub tent_names : String → List TentRow → List String
tent_names event_id [] = []
tent_names event_id (t ∷ rows) =
    let rest = tent_names event_id rows in if t.event_id == event_id then t.name ∷ rest else rest

-- The id is made between the two statements.
unfoldable pub create_tent : String → Db Tent
unfolding insert_tent tent_names highest_number tent_number tent_next_name
create_tent event_id = transaction (do
  names ← query (λ w. ok (tent_names event_id w.tents))
  id ← new_uuid
  let name = tent_next_name (next_number tent_number names)
  row ← statement (λ w.
      insert_tent (record { id = id; event_id = event_id; name = name; created_at = w.now }) w)
  pure (record {
    id = row.id;
    event_id = row.event_id;
    name = row.name;
    created_at = row.created_at;
    members = [];
  }))

abbrev pub tent_le : TentRow → TentRow → Bool
tent_le t u =
    ltb t.created_at u.created_at || (nat_eq t.created_at u.created_at && str_le t.id u.id)

abbrev pub tent_member_le : TentMemberRow → TentMemberRow → Bool
tent_member_le m n =
    ltb m.created_at n.created_at
    || (nat_eq m.created_at n.created_at && str_le m.profile_id n.profile_id)

-- JOIN profiles, and membersByTent[t.ID] for the members in their order.
unfoldable pub tent_members_of : String → List Profile → List TentMemberRow → List TentMember
tent_members_of tent_id profiles [] = []
tent_members_of tent_id profiles (m ∷ rows) =
    let rest = tent_members_of tent_id profiles rows in
    elim (find (λ p. p.id == m.profile_id) profiles) [
      | none ↦ rest
      | some p ↦
          if m.tent_id == tent_id
          then record {
            event_id = m.event_id;
            tent_id = m.tent_id;
            profile_id = m.profile_id;
            profile_name = display_name p;
            created_at = m.created_at;
          }
            ∷ rest
          else rest
    ]

unfoldable pub with_members : String → List Profile → List TentMemberRow → TentRow → Tent
unfolding tent_members_of
with_members event_id profiles members t = record {
  id = t.id;
  event_id = event_id;
  name = t.name;
  created_at = t.created_at;
  members = tent_members_of t.id profiles members;
}

unfoldable pub list_tents : String → Db (List Tent)
unfolding with_members order_by
list_tents event_id = do
  tents ← query (λ w. ok (order_by tent_le (where_ (λ t. t.event_id == event_id) w.tents)))
  query (λ w.
      let members = order_by tent_member_le (where_ (λ m. m.event_id == event_id) w.tent_members) in
      ok (map (with_members event_id w.profiles members) tents))

unfoldable pub remove_tent : String → World → Result (Unit {0}) × Tables
remove_tent id w =
    if any (λ t. t.id == id) w.tents
    then (
      ok tt,
      record w.tables {
        tents = where_ (λ t. not (t.id == id)) w.tents;
        tent_members = where_ (λ m. not (m.tent_id == id)) w.tent_members;
      },
    )
    else (err tent_not_found, w.tables)

unfoldable pub delete_tent : String → Db (Unit {0})
unfolding remove_tent
delete_tent id = statement (remove_tent id)

-- The primary key of event_tent_members.
abbrev pub is_tent_member : String → String → TentMemberRow → Bool
is_tent_member event_id profile_id m = m.event_id == event_id && m.profile_id == profile_id

unfoldable pub has_tent : String → String → List TentMemberRow → Bool
has_tent event_id profile_id [] = false
has_tent event_id profile_id (m ∷ rows) =
    is_tent_member event_id profile_id m || has_tent event_id profile_id rows

unfoldable pub move_member : String → String → String → List TentMemberRow → List TentMemberRow
move_member event_id profile_id tent_id [] = []
move_member event_id profile_id tent_id (m ∷ rows) =
    (if is_tent_member event_id profile_id m then record m { tent_id = tent_id } else m)
    ∷ move_member event_id profile_id tent_id rows

unfoldable pub write_tent_member : String → String → String → World → Result (Unit {0}) × Tables
unfolding has_tent move_member
write_tent_member event_id tent_id profile_id w =
    if not (any (λ t. t.id == tent_id && t.event_id == event_id) w.tents)
    then (err tent_not_found, w.tables)
    else if not (has_row event_id profile_id w.attendees)
    then (err constraint, w.tables)
    else (
      ok tt,
      record w.tables {
        tent_members =
            if has_tent event_id profile_id w.tent_members
            then move_member event_id profile_id tent_id w.tent_members
            else w.tent_members
              ++ record {
                event_id = event_id;
                profile_id = profile_id;
                tent_id = tent_id;
                created_at = w.now;
              }
                ∷ [];
      },
    )

unfoldable pub assign_tent_member : String → String → String → Db (Unit {0})
unfolding write_tent_member
assign_tent_member event_id tent_id profile_id =
    statement (write_tent_member event_id tent_id profile_id)

unfoldable pub drop_member : String → String → List TentMemberRow → List TentMemberRow
drop_member event_id profile_id [] = []
drop_member event_id profile_id (m ∷ rows) =
    let rest = drop_member event_id profile_id rows in
    if is_tent_member event_id profile_id m then rest else m ∷ rest

unfoldable pub remove_tent_member : String → String → Db (Unit {0})
unfolding drop_member
remove_tent_member event_id profile_id = statement (λ w.
    (ok tt, record w.tables { tent_members = drop_member event_id profile_id w.tent_members }))
