-- ===== src/Api/Keeping.antt =====
-- What every writer of the repositories keeps, every handler keeps: the handlers of
-- internal/api/events.go that change data and the services that they call.
pub mod Services
pub mod Attendance
pub mod Drivers
pub mod Sections
pub mod Requests
use scouting_app.Base.{String, Bool}
use scouting_app.Base.Int.{ℤ}
use scouting_app.Event.{Event, Responsibility}
use scouting_app.Db.{Tables}
use scouting_app.Db.Keeps.{Keeps}
use scouting_app.Storage.Events as Events
use scouting_app.Storage.Attendance as Attendees
use scouting_app.Storage.Responsibilities as Responsibilities
use scouting_app.Storage.Patrols as Patrols
use scouting_app.Storage.Tents as Tents

-- Each writer of internal/storage/postgres/event_repository.go keeps it.
pub record WritersKeep (P : Tables → Type 0) : Type 0 where
  pub create_event : (e : Event) → Keeps P (Events.create_event e)
  pub delete_event : (e : String) → Keeps P (Events.delete_event e)
  pub update_with_cooking : (e : Event) (prev : Bool) → Keeps P (Patrols.update_with_cooking e prev)
  pub sign_up : (e p : String) → Keeps P (Attendees.sign_up e p)
  pub withdraw : (e p : String) → Keeps P (Attendees.withdraw e p)
  pub add_driver : (e p : String) (n : ℤ) → Keeps P (Responsibilities.add_driver e p n)
  pub remove_driver : (e p : String) → Keeps P (Responsibilities.remove_driver e p)
  pub update_seatbelts :
      (e p : String) (n : ℤ) → Keeps P (Responsibilities.update_driver_seatbelt_count e p n)
  pub assign_responsibility :
      (e p : String) (r : Responsibility) → Keeps P (Responsibilities.assign_responsibility e p r)
  pub remove_responsibility :
      (e p : String) (r : Responsibility) → Keeps P (Responsibilities.remove_responsibility e p r)
  pub create_cooking_patrol :
      (e : String) (is_adult : Bool) → Keeps P (Patrols.create_cooking_patrol e is_adult)
  pub delete_cooking_patrol : (i : String) → Keeps P (Patrols.delete_cooking_patrol i)
  pub assign_cooking_patrol_member :
      (e i p : String) → Keeps P (Patrols.assign_cooking_patrol_member e i p)
  pub remove_cooking_patrol_member :
      (e p : String) → Keeps P (Patrols.remove_cooking_patrol_member e p)
  pub set_cooking_patrol_cook : (e i p : String) → Keeps P (Patrols.set_cooking_patrol_cook e i p)
  pub clear_cooking_patrol_cook : (i : String) → Keeps P (Patrols.clear_cooking_patrol_cook i)
  pub create_tent : (e : String) → Keeps P (Tents.create_tent e)
  pub delete_tent : (i : String) → Keeps P (Tents.delete_tent i)
  pub assign_tent_member : (e i p : String) → Keeps P (Tents.assign_tent_member e i p)
  pub remove_tent_member : (e p : String) → Keeps P (Tents.remove_tent_member e p)
