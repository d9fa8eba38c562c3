-- ===== src/Storage/Frames.antt =====
-- Which tables the writers of internal/storage/postgres/event_repository.go leave alone: what stays
-- true whatever becomes of the tables that a writer writes, the writer keeps.
use scouting_app.Base.{
  String, Bool, true, false, not, ◌&&◌, List, [], ◌∷◌, ◌==◌, any, bool_eq, if◌then◌else◌,
}
use scouting_app.Base.Int.{ℤ}
use scouting_app.Event.{
  Event, Attendee, Assignment, Responsibility, PatrolRow, PatrolMemberRow, TentRow, TentMemberRow,
  is_singleton,
}
use scouting_app.Db.{World, Tables, Result, ok, err, no_rows, Db}
use scouting_app.Db.Keeps.{
  Keeps, Keeps-bind, Keeps-pure, Keeps-fail, Keeps-query, Keeps-if, Keeps-attempt, Keeps-statement,
  Keeps-transaction, Keeps-new_uuid,
}
use scouting_app.Storage.Events.{row_allowed, insert_event, create_event, write_event}
use scouting_app.Storage.Attendance.{has_row, write_sign_up, sign_up, withdraw}
use scouting_app.Storage.Responsibilities.{
  upsert_row, add_driver, remove_responsibility, remove_driver, update_driver_seatbelt_count,
  refuse_or, insert_assignment, assign_responsibility,
}
use scouting_app.Storage.Patrols.{
  insert_patrol, insert_adult_patrol, insert_youth_patrol, create_cooking_patrol, remove_patrol,
  delete_cooking_patrol, upsert_member, write_member, assign_cooking_patrol_member,
  remove_cooking_patrol_member, write_cook, clear_patrol_cook, set_cooking_patrol_cook,
  clear_cooking_patrol_cook, adult_patrol_or_new, adult_patrol_id, join_adult_patrol,
  enable_cooking, disable_cooking, update_with_cooking, is_member_row, cook_taken,
}
use scouting_app.Storage.Tents.{
  insert_tent, create_tent, remove_tent, delete_tent, write_tent_member, assign_tent_member,
  remove_tent_member,
}

pub chosen :
    {R : Type 0} (P : Tables → Type 0) (b : Bool) (x y : R × Tables)
    → P x.1
    → P y.1
    → P (if b then x else y).1
chosen P true x y h k = h
chosen P false x y h k = k

module _ {P : Tables → Type 0}
    (f : (t : Tables) (x : List Event) → P t → P (record t { events = x })) where
  pub create_event-Keeps : (e : Event) → Keeps P (create_event e)
  unfolding create_event insert_event
  create_event-Keeps e =
      Keeps-bind _ _ (Keeps-if (e.id == "") _ _ (λ q. Keeps-new_uuid) (λ q. Keeps-pure _))
        (λ id. Keeps-statement _ (λ w h. chosen P _ _ _ h (f _ _ h)))

  write_event-keeps : (e : Event) (w : World) → P w.tables → P (write_event e w).1
  unfolding write_event
  write_event-keeps e w h = chosen P _ _ _ h (chosen P (not (row_allowed e)) _ _ h (f _ _ h))

module _ {P : Tables → Type 0}
    (f : (t : Tables) (x : List Attendee) → P t → P (record t { attendees = x })) where
  pub sign_up-Keeps : (e p : String) → Keeps P (sign_up e p)
  unfolding sign_up write_sign_up
  sign_up-Keeps e p = Keeps-statement _ (λ w h. chosen P _ _ _ (f _ _ h) h)

  pub withdraw-Keeps : (e p : String) → Keeps P (withdraw e p)
  unfolding withdraw
  withdraw-Keeps e p = Keeps-statement _ (λ w h. f _ _ h)

module _ {P : Tables → Type 0}
    (f : (t : Tables) (x : List Assignment) → P t → P (record t { assignments = x })) where
  pub add_driver-Keeps : (e p : String) (n : ℤ) → Keeps P (add_driver e p n)
  unfolding add_driver upsert_row
  add_driver-Keeps e p n = Keeps-statement _ (λ w h. chosen P _ _ _ h (f _ _ h))

  pub remove_driver-Keeps : (e p : String) → Keeps P (remove_driver e p)
  unfolding remove_driver
  remove_driver-Keeps e p = Keeps-statement _ (λ w h. f _ _ h)

  pub update_seatbelts-Keeps : (e p : String) (n : ℤ) → Keeps P (update_driver_seatbelt_count e p n)
  unfolding update_driver_seatbelt_count
  update_seatbelts-Keeps e p n = Keeps-statement _ (λ w h. f _ _ h)

  pub remove_responsibility-Keeps :
      (e p : String) (r : Responsibility) → Keeps P (remove_responsibility e p r)
  unfolding remove_responsibility
  remove_responsibility-Keeps e p r = Keeps-statement _ (λ w h. f _ _ h)

  insert_assignment-Keeps : (e p : String) (r : Responsibility) → Keeps P (insert_assignment e p r)
  unfolding insert_assignment upsert_row
  insert_assignment-Keeps e p r = Keeps-statement _ (λ w h. chosen P _ _ _ h (f _ _ h))

  refuse_or-Keeps :
      (r : Responsibility) (p : String) (insert : Db (Unit {0})) (x : Result String)
      → Keeps P insert
      → Keeps P (refuse_or r p insert x)
  unfolding refuse_or
  refuse_or-Keeps r p insert (ok holder) k =
      Keeps-bind _ _ (Keeps-attempt _ (Keeps-query _)) (λ name. Keeps-fail _)
  refuse_or-Keeps r p insert (err no_rows) k = k
  refuse_or-Keeps r p insert (err e) k = Keeps-fail e

  pub assign_responsibility-Keeps :
      (e p : String) (r : Responsibility) → Keeps P (assign_responsibility e p r)
  unfolding assign_responsibility
  assign_responsibility-Keeps e p r =
      Keeps-if (is_singleton r) _ _
        (λ q.
          Keeps-bind _ _ (Keeps-attempt _ (Keeps-query _))
            (λ x. refuse_or-Keeps r p _ x (insert_assignment-Keeps e p r)))
        (λ q. insert_assignment-Keeps e p r)

module _ {P : Tables → Type 0}
    (f : (t : Tables) (x : List TentRow) (y : List TentMemberRow)
      → P t
      → P (record t { tents = x; tent_members = y })) where
  pub create_tent-Keeps : (e : String) → Keeps P (create_tent e)
  unfolding create_tent insert_tent
  create_tent-Keeps e = Keeps-transaction _ (
      Keeps-bind _ _ (Keeps-query _) (λ names. Keeps-bind _ _ Keeps-new_uuid (λ id.
        Keeps-bind _ _ (Keeps-statement _ (λ w h. chosen P _ _ _ h (f _ _ _ h)))
          (λ row. Keeps-pure _))))

  pub delete_tent-Keeps : (i : String) → Keeps P (delete_tent i)
  unfolding delete_tent remove_tent
  delete_tent-Keeps i = Keeps-statement _ (λ w h. chosen P _ _ _ (f _ _ _ h) h)

  pub assign_tent_member-Keeps : (e i p : String) → Keeps P (assign_tent_member e i p)
  unfolding assign_tent_member write_tent_member
  assign_tent_member-Keeps e i p =
      Keeps-statement _
        (λ w h. chosen P _ _ _ h (chosen P (not (has_row e p w.attendees)) _ _ h (f _ _ _ h)))

  pub remove_tent_member-Keeps : (e p : String) → Keeps P (remove_tent_member e p)
  unfolding remove_tent_member
  remove_tent_member-Keeps e p = Keeps-statement _ (λ w h. f _ _ _ h)

module _ {P : Tables → Type 0}
    (f : (t : Tables) (x : List PatrolRow) (y : List PatrolMemberRow)
      → P t
      → P (record t { patrols = x; patrol_members = y })) where
  insert_patrol-keeps : (p : PatrolRow) (w : World) → P w.tables → P (insert_patrol p w).1
  unfolding insert_patrol
  insert_patrol-keeps p w h = chosen P _ _ _ h (f _ _ _ h)

  pub create_cooking_patrol-Keeps :
      (e : String) (is_adult : Bool) → Keeps P (create_cooking_patrol e is_adult)
  unfolding create_cooking_patrol insert_adult_patrol insert_youth_patrol
  create_cooking_patrol-Keeps e is_adult = Keeps-bind _ _ Keeps-new_uuid (λ id.
      Keeps-bind _ _
        (Keeps-if is_adult _ _ (λ q. Keeps-statement _ (λ w h. insert_patrol-keeps _ w h))
          (λ q. Keeps-transaction _ (
            Keeps-bind _ _ (Keeps-query _)
              (λ names. Keeps-statement _ (λ w h. insert_patrol-keeps _ w h)))))
        (λ row. Keeps-pure _))

  pub delete_cooking_patrol-Keeps : (i : String) → Keeps P (delete_cooking_patrol i)
  unfolding delete_cooking_patrol remove_patrol
  delete_cooking_patrol-Keeps i = Keeps-statement _ (λ w h. chosen P _ _ _ (f _ _ _ h) h)

  upsert_member-keeps :
      (e p i : String) (g : PatrolMemberRow → PatrolMemberRow) (w : World)
      → P w.tables
      → P (upsert_member e p i g w).1
  unfolding upsert_member
  upsert_member-keeps e p i g w h = chosen P (not (has_row e p w.attendees)) _ _ h (
      chosen P
        (any (λ m. is_member_row e p m && (g m).is_cook) w.patrol_members
          && cook_taken e p i w.patrol_members)
        _ _ h (f _ _ _ h))

  pub assign_cooking_patrol_member-Keeps :
      (e i p : String) → Keeps P (assign_cooking_patrol_member e i p)
  unfolding assign_cooking_patrol_member write_member
  assign_cooking_patrol_member-Keeps e i p =
      Keeps-statement _ (λ w h. chosen P _ _ _ (upsert_member-keeps e p i _ w h) h)

  pub remove_cooking_patrol_member-Keeps :
      (e p : String) → Keeps P (remove_cooking_patrol_member e p)
  unfolding remove_cooking_patrol_member
  remove_cooking_patrol_member-Keeps e p = Keeps-statement _ (λ w h. f _ _ _ h)

  pub set_cooking_patrol_cook-Keeps : (e i p : String) → Keeps P (set_cooking_patrol_cook e i p)
  unfolding set_cooking_patrol_cook write_cook clear_patrol_cook
  set_cooking_patrol_cook-Keeps e i p = Keeps-transaction _ (
      Keeps-bind _ _ (Keeps-query _) (λ member.
        Keeps-if (not member) _ _ (λ q. Keeps-fail _)
          (λ q.
            Keeps-bind _ _ (Keeps-statement _ (λ w h. f _ _ _ h))
              (λ done. Keeps-statement _ (λ w h. chosen P _ _ _ h (f _ _ _ h))))))

  pub clear_cooking_patrol_cook-Keeps : (i : String) → Keeps P (clear_cooking_patrol_cook i)
  unfolding clear_cooking_patrol_cook
  clear_cooking_patrol_cook-Keeps i = Keeps-statement _ (λ w h. f _ _ _ h)

  adult_patrol_or_new-Keeps : (e : String) (r : Result String) → Keeps P (adult_patrol_or_new e r)
  unfolding adult_patrol_or_new
  adult_patrol_or_new-Keeps e (ok id) = Keeps-pure _
  adult_patrol_or_new-Keeps e (err no_rows) = Keeps-bind _ _ Keeps-new_uuid (λ id.
      Keeps-bind _ _ (Keeps-statement _ (λ w h. insert_patrol-keeps _ w h)) (λ row. Keeps-pure _))
  adult_patrol_or_new-Keeps e (err x) = Keeps-fail x

  join_adult_patrol-Keeps : (e i : String) (ids : List String) → Keeps P (join_adult_patrol e i ids)
  unfolding join_adult_patrol
  join_adult_patrol-Keeps e i [] = Keeps-pure tt
  join_adult_patrol-Keeps e i (p ∷ ids) =
      Keeps-bind _ _ (Keeps-statement _ (λ w h. upsert_member-keeps e p i _ w h))
        (λ done. join_adult_patrol-Keeps e i ids)

  pub update_with_cooking-Keeps :
      (g : (t : Tables) (x : List Event) → P t → P (record t { events = x })) (e : Event)
      (prev : Bool)
      → Keeps P (update_with_cooking e prev)
  unfolding update_with_cooking enable_cooking disable_cooking adult_patrol_id
  update_with_cooking-Keeps g e prev = Keeps-transaction _ (
      Keeps-bind _ _ (Keeps-statement _ (λ w h. write_event-keeps g e w h)) (λ done.
        Keeps-if (bool_eq prev e.cooking_enabled) _ _ (λ q. Keeps-pure tt)
          (λ q.
            Keeps-if e.cooking_enabled _ _
              (λ r.
                Keeps-bind _ _
                  (Keeps-bind _ _ (Keeps-attempt _ (Keeps-query _))
                    (λ found. adult_patrol_or_new-Keeps e.id found))
                  (λ i. Keeps-bind _ _ (Keeps-query _) (λ ids. join_adult_patrol-Keeps e.id i ids)))
              (λ r. Keeps-statement _ (λ w h. f _ _ _ h)))))
