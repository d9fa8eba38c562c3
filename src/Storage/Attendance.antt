-- ===== src/Storage/Attendance.antt =====
-- Sign-up, withdrawal and the attendees of an event: SignUp, Withdraw and GetAttendees of
-- internal/storage/postgres/event_repository.go.
use scouting_app.Base.{
  ℕ, ◌+◌, String, Bool, true, false, ◌&&◌, ◌||◌, List, [], ◌∷◌, ◌++◌, map, ◌==◌, any, where_,
  if◌then◌else◌,
}
use scouting_app.Profile.{Profile}
use scouting_app.Event.{Attendee, AttendeeStatus, signed_up, canceled}
use scouting_app.Db.{World, Tables, Result, ok, err, constraint, Db, statement, query}

abbrev pub is_signed_up : AttendeeStatus → Bool
is_signed_up signed_up = true
is_signed_up canceled = false

-- The key of event_attendees.
abbrev pub is_row_of : String → String → Attendee → Bool
is_row_of event_id profile_id a = a.event_id == event_id && a.profile_id == profile_id

-- A row of the attendee, with any status: what foreign keys refer to.
unfoldable pub has_row : String → String → List Attendee → Bool
has_row event_id profile_id [] = false
has_row event_id profile_id (a ∷ rows) =
    is_row_of event_id profile_id a || has_row event_id profile_id rows

-- The attendee is signed up.
unfoldable pub attends : String → String → List Attendee → Bool
attends event_id profile_id [] = false
attends event_id profile_id (a ∷ rows) =
    (is_row_of event_id profile_id a && is_signed_up a.status) || attends event_id profile_id rows

unfoldable pub set_status : AttendeeStatus → String → String → List Attendee → List Attendee
set_status status event_id profile_id [] = []
set_status status event_id profile_id (a ∷ rows) =
    (if is_row_of event_id profile_id a then record a { status = status } else a)
    ∷ set_status status event_id profile_id rows

-- INSERT … ON CONFLICT (event_id, profile_id) DO UPDATE SET status = 'signed_up'
unfoldable pub upsert_attendee : String → String → List Attendee → List Attendee
unfolding has_row set_status
upsert_attendee event_id profile_id rows =
    if has_row event_id profile_id rows
    then set_status signed_up event_id profile_id rows
    else rows ++ record { event_id = event_id; profile_id = profile_id; status = signed_up } ∷ []

unfoldable pub write_sign_up : String → String → World → Result (Unit {0}) × Tables
unfolding upsert_attendee
write_sign_up event_id profile_id w =
    if any (λ e. e.id == event_id) w.events && any (λ p. p.id == profile_id) w.profiles
    then (ok tt, record w.tables { attendees = upsert_attendee event_id profile_id w.attendees })
    else (err constraint, w.tables)

unfoldable pub sign_up : String → String → Db (Unit {0})
unfolding write_sign_up
sign_up event_id profile_id = statement (write_sign_up event_id profile_id)

-- The rows that are signed up become canceled; those that are not are canceled already.
unfoldable pub withdraw : String → String → Db (Unit {0})
unfolding set_status
withdraw event_id profile_id = statement (λ w.
    (ok tt, record w.tables { attendees = set_status canceled event_id profile_id w.attendees }))

-- The columns that the query does not select are empty.
abbrev pub attendee_columns : Profile → Profile
attendee_columns p = record p { nickname = ""; gender = ""; positions = "" }

unfoldable pub get_attendees : String → Db (List Profile)
unfolding attends
get_attendees event_id =
    query
      (λ w. ok (map attendee_columns (where_ (λ p. attends event_id p.id w.attendees) w.profiles)))

unfoldable pub count_attendees : String → List Attendee → ℕ
count_attendees event_id [] = 0
count_attendees event_id (a ∷ rows) =
    (if a.event_id == event_id && is_signed_up a.status then 1 else 0)
    + count_attendees event_id rows
