-- ===== src/Storage/Patrols/Toggle.antt =====
-- Turning an event's cooking on and off: UpdateWithCooking of internal/storage/postgres/
-- event_repository.go, and whom it leaves in the adult patrol.
use mathlib.Core.Path.{subst}
use scouting_app.Base.{
  String, ◌≡◌, refl, sym, Bool, true, false, not, List, [], ◌∷◌, ◌==◌, inl, inr, Bool-cases, All,
  All-map, any, bool_eq, arith,
}
use scouting_app.Event.{Event}
use scouting_app.Db.{World, Tables, ok}
use scouting_app.Db.Keeps.{Keeps}
use scouting_app.Db.Ensures.{
  Ensures, Keeps-Ensures, Ensures-after, Ensures-bind, Ensures-pure, Ensures-query,
  Ensures-statement, Ensures-if, Ensures-Keeps, Ensures-transaction, result-Ensures,
}
use scouting_app.Db.Runs.{ok-injective}
use scouting_app.Storage.Events.{write_event, row_allowed}
use scouting_app.Storage.Patrols.{
  update_with_cooking, enable_cooking, join_adult_patrol, upsert_member, adult_attendee_ids,
}
use scouting_app.Storage.Patrols.Invariants.{Fed, upsert_member-Fed}
use scouting_app.Storage.Patrols.Writers.{disable_cooking-Fed}
use scouting_app.Storage.Patrols.Cooking.{
  AdultPatrol, AdultPatrol-exists, adult_patrol_id-Ensures, placed, into, upsert_member-Joined,
  is_adult_patrol,
}

-- In the loop: `ids` are the adults that are signed up, and those of `done` are in the patrol.
abbrev Joining : String → String → List String → List String → Tables → Type 0
Joining e i ids done t =
    Fed t
    × AdultPatrol e i t
    × (ids ≡ adult_attendee_ids e t.attendees t.profiles)
    × All (λ o. placed e i o t.patrol_members ≡ true) done

one_more :
    (e i p : String) (ids done : List String) (w : World)
    → Joining e i ids done w.tables
    → (upsert_member e p i (into e p i) w).0 ≡ ok tt
    → Joining e i ids (p ∷ done) (upsert_member e p i (into e p i) w).1
one_more e i p ids done w (fed, adult, same, all) h =
    let (here, still, attendees, profiles, patrols) = upsert_member-Joined e p i w h in
    (
      upsert_member-Fed e p i (into e p i) (λ m. refl) (λ m. refl) (λ m. refl) w
          (AdultPatrol-exists e i w.tables adult) fed,
      subst (λ ps. any (is_adult_patrol e i) ps ≡ true) (sym patrols) adult,
      rw (attendees, profiles) same,
      (
        here,
        All-map (λ o. placed e i o w.patrol_members ≡ true)
            (λ o. placed e i o (upsert_member e p i (into e p i) w).1.patrol_members ≡ true) still
            done all,
      ),
    )

join-Ensures :
    (e i : String) (ids done rest : List String)
    → Ensures
        (Joining e i ids done)
        (join_adult_patrol e i rest)
        (λ x t. Joining e i ids done t × All (λ o. placed e i o t.patrol_members ≡ true) rest)
unfolding join_adult_patrol
join-Ensures e i ids done [] = Ensures-pure _ (λ t h. (h, tt))
join-Ensures e i ids done (p ∷ rest) =
    Ensures-bind (λ x. Joining e i ids (p ∷ done)) _ _
      (Ensures-statement _ (λ w x h r. one_more e i p ids done w h r))
      (λ x.
        Ensures-after _ (join-Ensures e i ids (p ∷ done) rest)
          (λ y t h. ((h.0.0, h.0.1, h.0.2, h.0.3.1), (h.0.3.0, h.1))))

-- An adult patrol of the event holds every adult that is signed up.
abbrev pub Seated : String → Tables → Type 0
Seated e t =
    (i : String) × AdultPatrol e i t
    × All (λ p. placed e i p t.patrol_members ≡ true) (adult_attendee_ids e t.attendees t.profiles)

enable-Ensures : (e : String) → Ensures Fed (enable_cooking e) (λ x t. Fed t × Seated e t)
unfolding enable_cooking
enable-Ensures e =
    Ensures-bind (λ i t. Fed t × AdultPatrol e i t) _ _ (adult_patrol_id-Ensures e)
      (λ i.
        Ensures-bind (λ ids. Joining e i ids []) _ _
          (Ensures-query _ (λ w ids h q. (h.0, h.1, sym (ok-injective _ _ q), tt)))
          (λ ids. Ensures-after _ (join-Ensures e i ids [] ids) (λ x t h. (
            h.0.0,
            (i, h.0.1, subst (All (λ p. placed e i p t.patrol_members ≡ true)) h.0.2 h.1),
          ))))

write_event-Fed : (evt : Event) (w : World) → Fed w.tables → Fed (write_event evt w).1
unfolding write_event
write_event-Fed evt w h = elim (Bool-cases (not (any (λ f. f.id == evt.id) w.events))) [
  | inl q ↦ rw q h
  | inr q ↦ elim (Bool-cases (not (row_allowed evt))) [
    | inl u ↦ rw q (rw u h)
    | inr u ↦ rw q (rw u h)
  ]
]

pub update_with_cooking-Fed : (evt : Event) (prev : Bool) → Keeps Fed (update_with_cooking evt prev)
unfolding update_with_cooking
update_with_cooking-Fed evt prev = Ensures-Keeps _ (
    Ensures-bind (λ x. Fed) _ _ (Ensures-statement _ (λ w x h r. write_event-Fed evt w h))
      (λ x.
        Ensures-if (bool_eq prev evt.cooking_enabled) _ _ (λ q. Ensures-pure _ (λ t h. h))
          (λ q.
            Ensures-if evt.cooking_enabled _ _
              (λ on. Ensures-after _ (enable-Ensures evt.id) (λ y t h. h.0))
              (λ off. Keeps-Ensures _ (disable_cooking-Fed evt.id)))))

switch_on-Ensures :
    (evt : Event)
    → evt.cooking_enabled ≡ true
    → Ensures Fed (update_with_cooking evt false) (λ x. Seated evt.id)
unfolding update_with_cooking
switch_on-Ensures evt on = Ensures-transaction _ (
    Ensures-bind (λ x. Fed) _ _ (Ensures-statement _ (λ w x h r. write_event-Fed evt w h))
      (λ x.
        Ensures-if (bool_eq false evt.cooking_enabled) _ _ (λ q. absurd (ground arith))
          (λ q.
            Ensures-if evt.cooking_enabled _ _
              (λ o. Ensures-after _ (enable-Ensures evt.id) (λ y t h. h.1))
              (λ off. absurd (ground arith)))))

-- UpdateWithCooking that turns an event's cooking on and succeeds leaves every adult who is signed
-- up for the event in one of its adult patrols, provided that the patrols are well formed before.
pub update_with_cooking-Seated :
    (evt : Event) (w : World)
    → evt.cooking_enabled ≡ true
    → Fed w.tables
    → (update_with_cooking evt false w).0 ≡ ok tt
    → Seated evt.id (update_with_cooking evt false w).1.tables
update_with_cooking-Seated evt w on fed h =
    result-Ensures (update_with_cooking evt false) w tt (switch_on-Ensures evt on) fed h
