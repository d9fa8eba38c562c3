-- ===== src/Storage/Tents/Invariants.antt =====
-- What the writers of tents keep, CreateTent to RemoveTentMember of internal/storage/postgres/
-- event_repository.go: one tent for an attendee of an event, and a tent for every member row.
use scouting_app.Base.{
  ℕ, String, ◌≡◌, refl, Bool, true, false, not, ◌&&◌, ◌||◌, List, [], ◌∷◌, ◌++◌, ◌==◌, eq_iff, inl,
  inr, Bool-cases, All, AllPairs, All-map, All-append, All-passing, any-append, any-where,
  AllPairs-where, AllPairs-append, any, where_, arith,
}
use scouting_app.Event.{TentRow, TentMemberRow}
use scouting_app.Db.{World, Tables, statement}
use scouting_app.Storage.Attendance.{has_row}
use scouting_app.Storage.Tents.{
  has_tent, move_member, drop_member, insert_tent, write_tent_member, remove_tent, is_tent_member,
  assign_tent_member, delete_tent, remove_tent_member,
}

abbrev pub same_place : TentMemberRow → TentMemberRow → Bool
same_place m n = m.event_id == n.event_id && m.profile_id == n.profile_id

abbrev pub tent_exists : List TentRow → TentMemberRow → Bool
tent_exists tents m = any (λ t. t.id == m.tent_id && t.event_id == m.event_id) tents

-- One tent for each attendee, and it is a tent of the event.
abbrev pub Housed : Tables → Type 0
Housed t =
    AllPairs (λ m n. same_place m n ≡ false) t.tent_members
    × All (λ m. tent_exists t.tents m ≡ true) t.tent_members

module _ (e p : String) where
  unhoused :
      (n : TentMemberRow) (rows : List TentMemberRow)
      → n.event_id ≡ e
      → n.profile_id ≡ p
      → has_tent e p rows ≡ false
      → All (λ m. same_place m n ≡ false) rows
  unfolding has_tent
  unhoused n [] ne np h = tt
  unhoused n (m ∷ rows) ne np h = elim (Bool-cases (is_tent_member e p m)) [
    | inl q ↦ ground arith
    | inr q ↦ (rw (ne, np) q, unhoused n rows ne np (rw q at h))
  ]

  move_member-All :
      (i : String) (P : TentMemberRow → Type 0)
      → ((m : TentMemberRow) → is_tent_member e p m ≡ true → P m → P (record m { tent_id = i }))
      → (rows : List TentMemberRow) → All P rows
      → All P (move_member e p i rows)
  unfolding move_member
  move_member-All i P k [] h = tt
  move_member-All i P k (m ∷ rows) h = elim (Bool-cases (is_tent_member e p m)) [
    | inl q ↦ rw q (k m q h.0, move_member-All i P k rows h.1)
    | inr q ↦ rw q (h.0, move_member-All i P k rows h.1)
  ]

  move_member-AllPairs :
      (i : String) (rows : List TentMemberRow)
      → AllPairs (λ m n. same_place m n ≡ false) rows
      → AllPairs (λ m n. same_place m n ≡ false) (move_member e p i rows)
  unfolding move_member
  move_member-AllPairs i [] h = tt
  move_member-AllPairs i (m ∷ rows) h = elim (Bool-cases (is_tent_member e p m)) [
    | inl q ↦ rw q (
      move_member-All i (λ n. same_place m n ≡ false) (λ n u v. v) rows h.0,
      move_member-AllPairs i rows h.1,
    )
    | inr q ↦ rw q (
      move_member-All i (λ n. same_place m n ≡ false) (λ n u v. v) rows h.0,
      move_member-AllPairs i rows h.1,
    )
  ]

  drop_member-All :
      (P : TentMemberRow → Type 0) (rows : List TentMemberRow)
      → All P rows
      → All P (drop_member e p rows)
  unfolding drop_member
  drop_member-All P [] h = tt
  drop_member-All P (m ∷ rows) h = elim (Bool-cases (is_tent_member e p m)) [
    | inl q ↦ rw q (drop_member-All P rows h.1)
    | inr q ↦ rw q (h.0, drop_member-All P rows h.1)
  ]

  drop_member-AllPairs :
      (rows : List TentMemberRow)
      → AllPairs (λ m n. same_place m n ≡ false) rows
      → AllPairs (λ m n. same_place m n ≡ false) (drop_member e p rows)
  unfolding drop_member
  drop_member-AllPairs [] h = tt
  drop_member-AllPairs (m ∷ rows) h = elim (Bool-cases (is_tent_member e p m)) [
    | inl q ↦ rw q (drop_member-AllPairs rows h.1)
    | inr q ↦
        rw q (drop_member-All (λ n. same_place m n ≡ false) rows h.0, drop_member-AllPairs rows h.1)
  ]

  abbrev new_member : String → ℕ → TentMemberRow
  new_member i now = record { event_id = e; profile_id = p; tent_id = i; created_at = now }

  tent_exists-moved :
      (i : String) (tents : List TentRow)
      → any (λ t. t.id == i && t.event_id == e) tents ≡ true
      → (m : TentMemberRow) → is_tent_member e p m ≡ true
      → tent_exists tents (record m { tent_id = i }) ≡ true
  tent_exists-moved i tents h m q = rw ((eq_iff m.event_id e).0 (ground arith)) h

  write_tent_member-Housed :
      (i : String) (w : World) → Housed w.tables → Housed (write_tent_member e i p w).1
  unfolding write_tent_member
  write_tent_member-Housed i w (single, homes) =
      elim (Bool-cases (any (λ t. t.id == i && t.event_id == e) w.tents)) [
        | inr q ↦ rw q (single, homes)
        | inl q ↦ elim (Bool-cases (has_row e p w.attendees)) [
          | inr a ↦ rw q (rw a (single, homes))
          | inl a ↦ elim (Bool-cases (has_tent e p w.tent_members)) [
            | inl u ↦ rw q (
                rw a (
                  rw u (
                    move_member-AllPairs i w.tent_members single,
                    move_member-All i (λ m. tent_exists w.tents m ≡ true)
                        (λ m k v. tent_exists-moved i w.tents q m k) w.tent_members homes,
                  )))
            | inr u ↦ rw q (
                rw a (
                  rw u (
                    AllPairs-append (λ m n. same_place m n ≡ false) w.tent_members
                        (new_member i w.now)
                        (unhoused (new_member i w.now) w.tent_members refl refl u) single,
                    All-append (λ m. tent_exists w.tents m ≡ true) w.tent_members
                        (new_member i w.now ∷ []) homes (q, tt),
                  )))
          ]
        ]
      ]

remove_tent-Housed : (i : String) (w : World) → Housed w.tables → Housed (remove_tent i w).1
unfolding remove_tent
remove_tent-Housed i w (single, homes) = elim (Bool-cases (any (λ t. t.id == i) w.tents)) [
  | inr q ↦ rw q (single, homes)
  | inl q ↦ rw q (
    AllPairs-where (λ m n. same_place m n ≡ false) (λ m. not (m.tent_id == i)) w.tent_members
        single,
    All-passing (λ m. tent_exists w.tents m ≡ true)
        (λ m. tent_exists (where_ (λ t. not (t.id == i)) w.tents) m ≡ true)
        (λ m. not (m.tent_id == i))
        (λ m k h.
          any-where (λ t. t.id == m.tent_id && t.event_id == m.event_id) (λ t. not (t.id == i))
            (λ t v. rw ((eq_iff t.id m.tent_id).0 (ground arith)) k) w.tents h)
        w.tent_members homes,
  )
]

pub insert_tent-Housed : (t : TentRow) (w : World) → Housed w.tables → Housed (insert_tent t w).1
unfolding insert_tent
insert_tent-Housed t w (single, homes) =
    elim (Bool-cases
      (any (λ u. u.id == t.id) w.tents || not (any (λ e. e.id == t.event_id) w.events))) [
        | inl q ↦ rw q (single, homes)
        | inr q ↦ rw q (
          single,
          All-map (λ m. tent_exists w.tents m ≡ true)
              (λ m. tent_exists (w.tents ++ t ∷ []) m ≡ true)
              (λ m h.
                any-append (λ u. u.id == m.tent_id && u.event_id == m.event_id) w.tents (t ∷ []) h)
              w.tent_members homes,
        )
      ]

-- The three calls that write members or delete a tent, each in one statement.
pub writers-Housed :
    (e i p : String) (w : World)
    → Housed w.tables
    → Housed (assign_tent_member e i p w).1.tables
      × Housed (remove_tent_member e p w).1.tables
      × Housed (delete_tent i w).1.tables
unfolding assign_tent_member remove_tent_member delete_tent statement
writers-Housed e i p w h = elim (Bool-cases (w.fault w.count)) [
  | inl q ↦ rw q (h, h, h)
  | inr q ↦ rw q (
    write_tent_member-Housed e p i w h,
    (
      drop_member-AllPairs e p w.tent_members h.0,
      drop_member-All e p (λ m. tent_exists w.tents m ≡ true) w.tent_members h.1,
    ),
    remove_tent-Housed i w h,
  )
]
