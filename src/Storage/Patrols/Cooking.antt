-- ===== src/Storage/Patrols/Cooking.antt =====
-- Turning an event's cooking on and off: UpdateWithCooking with enableCookingTx and
-- disableCookingTx of internal/storage/postgres/event_repository.go.
use scouting_app.Base.{
  ℕ, String, ◌≡◌, refl, Bool, true, false, not, ◌&&◌, ◌||◌, List, [], ◌∷◌, ◌==◌, eq_refl, inl, inr,
  Bool-cases, Option-cases, any, find, find-passes, find-any, any-append, any-last, any_mono, arith,
}
use scouting_app.Event.{PatrolRow, PatrolMemberRow}
use scouting_app.Db.{World, Tables, Result, ok, err, no_rows}
use scouting_app.Db.Ensures.{
  Ensures, Ensures-weaken, Ensures-bind, Ensures-pure, Ensures-fail, Ensures-attempt_query,
  Ensures-statement, Ensures-new_uuid,
}
use scouting_app.Storage.Attendance.{has_row}
use scouting_app.Storage.Patrols.{
  adult_patrol_id, adult_patrol_or_new, row_id, upsert_member, insert_patrol, clashes,
  is_member_row, has_member, change_members, cook_taken,
}
use scouting_app.Storage.Patrols.Invariants.{Fed}
use scouting_app.Storage.Patrols.Writers.{insert_patrol-Fed}

-- The event has this adult patrol.
abbrev pub is_adult_patrol : String → String → PatrolRow → Bool
is_adult_patrol e i q = q.id == i && (q.event_id == e && q.is_adult)

abbrev pub AdultPatrol : String → String → Tables → Type 0
AdultPatrol e i t = any (is_adult_patrol e i) t.patrols ≡ true

abbrev Known : String → Result String → Tables → Type 0
Known e (ok i) t = AdultPatrol e i t
Known e (err x) t = Unit {0}

pub AdultPatrol-exists :
    (e i : String) (t : Tables)
    → AdultPatrol e i t
    → any (λ q. q.id == i && q.event_id == e) t.patrols ≡ true
AdultPatrol-exists e i t =
    any_mono (is_adult_patrol e i) (λ q. q.id == i && q.event_id == e) (λ q h. ground arith)
      t.patrols

found_adult :
    (e : String) (t : Tables)
    → Known e (row_id (find (λ p. p.event_id == e && p.is_adult) t.patrols)) t
found_adult e t = elim (Option-cases (find (λ p. p.event_id == e && p.is_adult) t.patrols)) [
  | inl o ↦ rw o tt
  | inr (p, o) ↦ rw o (
      find-any (λ q. q.event_id == e && q.is_adult) (is_adult_patrol e p.id) t.patrols p o
        (rw (eq_refl p.id) (find-passes (λ q. q.event_id == e && q.is_adult) t.patrols p o)))
]

insert_patrol-adult :
    (p : PatrolRow) (w : World) (a : PatrolRow)
    → p.is_adult ≡ true
    → (insert_patrol p w).0 ≡ ok a
    → AdultPatrol p.event_id p.id (insert_patrol p w).1
unfolding insert_patrol
insert_patrol-adult p w a h k =
    elim (Bool-cases (clashes p w.patrols || not (any (λ e. e.id == p.event_id) w.events))) [
      | inl q ↦ ground arith
      | inr q ↦ rw q (
          any-last (is_adult_patrol p.event_id p.id) w.patrols p
            (rw (eq_refl p.id) (rw (eq_refl p.event_id) h)))
    ]

adult_patrol_or_new-Ensures :
    (e : String) (found : Result String)
    → Ensures
        (λ t. Fed t × Known e found t)
        (adult_patrol_or_new e found)
        (λ i t. Fed t × AdultPatrol e i t)
unfolding adult_patrol_or_new
adult_patrol_or_new-Ensures e (ok i) = Ensures-pure _ (λ t h. h)
adult_patrol_or_new-Ensures e (err no_rows) =
    Ensures-bind (λ id t. Fed t) _ _ (Ensures-weaken _ (λ t h. h.0) Ensures-new_uuid)
      (λ id.
        Ensures-bind (λ row t. Fed t × AdultPatrol e id t) _ _
          (Ensures-statement _
            (λ w a h r. (insert_patrol-Fed _ w h, insert_patrol-adult _ w a refl r)))
          (λ row. Ensures-pure _ (λ t h. h)))
adult_patrol_or_new-Ensures e (err _) = Ensures-fail _

pub adult_patrol_id-Ensures :
    (e : String) → Ensures Fed (adult_patrol_id e) (λ i t. Fed t × AdultPatrol e i t)
unfolding adult_patrol_id
adult_patrol_id-Ensures e =
    Ensures-bind (λ found t. Fed t × Known e found t) _ _
      (Ensures-attempt_query _ (λ w h. (h, found_adult e w.tables)) (λ w h. (h, tt)))
      (λ found. adult_patrol_or_new-Ensures e found)

-- The attendee is in the patrol.
abbrev pub placed : String → String → String → List PatrolMemberRow → Bool
placed e i p rows = any (λ m. is_member_row e p m && m.patrol_id == i) rows

module _ (e p i : String) where
  abbrev pub into : PatrolMemberRow → PatrolMemberRow
  into m = record m { patrol_id = i }

  moved_placed :
      (rows : List PatrolMemberRow)
      → has_member e p rows ≡ true
      → placed e i p (change_members (is_member_row e p) into rows) ≡ true
  unfolding has_member change_members
  moved_placed [] h = h
  moved_placed (m ∷ rows) h = elim (Bool-cases (is_member_row e p m)) [
    | inl q ↦ rw q (rw q (rw (eq_refl i) refl))
    | inr q ↦ rw q (rw q (moved_placed rows (rw q at h)))
  ]

  still_placed :
      (o : String) (rows : List PatrolMemberRow)
      → placed e i o rows ≡ true
      → placed e i o (change_members (is_member_row e p) into rows) ≡ true
  unfolding change_members
  still_placed o [] h = h
  still_placed o (m ∷ rows) h = elim (Bool-cases (is_member_row e o m && m.patrol_id == i)) [
    | inl q ↦ elim (Bool-cases (is_member_row e p m)) [
      | inl u ↦ rw u (rw (eq_refl i) (ground arith))
      | inr u ↦ rw u (rw q refl)
    ]
    | inr q ↦ elim (Bool-cases (is_member_row e p m)) [
      | inl u ↦ rw u (rw (eq_refl i) (ground (arith, still_placed o rows (rw q at h))))
      | inr u ↦ rw u (rw q (still_placed o rows (rw q at h)))
    ]
  ]

  abbrev row : ℕ → PatrolMemberRow
  row now = record {
    event_id = e;
    profile_id = p;
    patrol_id = i;
    is_cook = false;
    created_at = now;
  }

  -- What a successful upsert leaves: the attendee in the patrol, those who were there too, and all
  -- but the members as it was.
  abbrev pub Joined : Tables → Tables → Type 0
  Joined t after =
      (placed e i p after.patrol_members ≡ true)
      × ((o : String)
          → placed e i o t.patrol_members ≡ true
          → placed e i o after.patrol_members ≡ true)
      × (after.attendees ≡ t.attendees)
      × (after.profiles ≡ t.profiles)
      × (after.patrols ≡ t.patrols)

  pub upsert_member-Joined :
      (w : World)
      → (upsert_member e p i into w).0 ≡ ok tt
      → Joined w.tables (upsert_member e p i into w).1
  unfolding upsert_member
  upsert_member-Joined w h = elim (Bool-cases (has_row e p w.attendees)) [
    | inr q ↦ ground arith
    | inl q ↦
        elim (Bool-cases (
          any (λ m. is_member_row e p m && m.is_cook) w.patrol_members
          && cook_taken e p i w.patrol_members)) [
            | inl u ↦ ground arith
            | inr u ↦ elim (Bool-cases (has_member e p w.patrol_members)) [
              | inl v ↦ rw q (
                  rw u (
                    rw v (
                      moved_placed w.patrol_members v,
                      λ o k. still_placed o w.patrol_members k,
                      refl,
                      refl,
                      refl,
                    )))
              | inr v ↦ rw q (
                  rw u (
                    rw v (
                      any-last (λ m. is_member_row e p m && m.patrol_id == i) w.patrol_members
                          (row w.now) (rw (eq_refl e) (rw (eq_refl p) (rw (eq_refl i) refl))),
                      λ o k.
                          any-append (λ m. is_member_row e o m && m.patrol_id == i) w.patrol_members
                            (row w.now ∷ []) k,
                      refl,
                      refl,
                      refl,
                    )))
            ]
          ]
  ]
