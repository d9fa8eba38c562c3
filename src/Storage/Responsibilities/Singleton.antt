-- ===== src/Storage/Responsibilities/Singleton.antt =====
-- One holder at most for a singleton responsibility of an event: AssignResponsibility, AddDriver and
-- the other writers of internal/storage/postgres/event_repository.go.
use scouting_app.Base.{
  ℕ, String, ◌≡◌, refl, ap, ◌∙◌, Bool, false, not, ◌&&◌, List, [], ◌∷◌, Option, none, some, ◌==◌,
  eq_iff, ◌⊎◌, inl, inr, Bool-cases, All, AllPairs, All-map, All-zip, AllPairs-append, arith,
}
use scouting_app.Event.{Responsibility, Assignment, is_singleton, driver}
use scouting_app.Base.{Option-cases}
use scouting_app.Base.Int.{ℤ}
use scouting_app.Storage.Attendance.{has_row}
use scouting_app.Db.Keeps.{query_tables}
use scouting_app.Db.{first, no_rows, World, Tables, statement, ◌>>=◌, tick}
use scouting_app.Storage.Responsibilities.{
  is_assignment, is_assigned, change_row, delete_row, name_of, other_holder, upsert_row, add_driver,
  remove_responsibility, remove_driver, update_driver_seatbelt_count, assign_responsibility,
  insert_assignment, refuse_or,
}

-- Two rows that an event must not have together.
abbrev pub clash : Assignment → Assignment → Bool
clash a b =
    is_singleton a.responsibility
    && (a.event_id == b.event_id && a.responsibility == b.responsibility)

abbrev pub SingleHolders : Tables → Type 0
SingleHolders t = AllPairs (λ a b. clash a b ≡ false) t.assignments

clash-free :
    (a b : Assignment)
    → (a.event_id ≡ b.event_id
        → a.responsibility ≡ b.responsibility
        → is_singleton a.responsibility ≡ false)
    → clash a b ≡ false
clash-free a b k = elim (Bool-cases (a.event_id == b.event_id)) [
  | inr q ↦ ground arith
  | inl q ↦ elim (Bool-cases (a.responsibility == b.responsibility)) [
    | inr u ↦ ground arith
    | inl u ↦ ground (
      arith,
      k ((eq_iff a.event_id b.event_id).0 q) ((eq_iff a.responsibility b.responsibility).0 u),
    )
  ]
]

module _ (e p : String) (r : Responsibility) where
  -- No other profile holds it.
  others_free :
      (rows : List Assignment)
      → other_holder e p r rows ≡ none
      → All
          (λ a. (a.event_id == e && (a.responsibility == r && not (a.profile_id == p))) ≡ false)
          rows
  unfolding other_holder
  others_free [] h = tt
  others_free (a ∷ rows) h =
      elim (Bool-cases (a.event_id == e && (a.responsibility == r && not (a.profile_id == p)))) [
        | inl q ↦ ground arith
        | inr q ↦ (q, others_free rows (rw q at h))
      ]

  unassigned :
      (rows : List Assignment)
      → is_assigned e p r rows ≡ false
      → All (λ a. is_assignment e p r a ≡ false) rows
  unfolding is_assigned
  unassigned [] h = tt
  unassigned (a ∷ rows) h = elim (Bool-cases (is_assignment e p r a)) [
    | inl q ↦ ground arith
    | inr q ↦ (q, unassigned rows (rw q at h))
  ]

  change_row-All :
      (f : Assignment → Assignment) (P : Assignment → Type 0)
      → ((a : Assignment) → P a → P (f a))
      → (rows : List Assignment) → All P rows
      → All P (change_row e p r f rows)
  unfolding change_row
  change_row-All f P k [] h = tt
  change_row-All f P k (a ∷ rows) h = elim (Bool-cases (is_assignment e p r a)) [
    | inl q ↦ rw q (k a h.0, change_row-All f P k rows h.1)
    | inr q ↦ rw q (h.0, change_row-All f P k rows h.1)
  ]

  delete_row-All :
      (P : Assignment → Type 0) (rows : List Assignment)
      → All P rows
      → All P (delete_row e p r rows)
  unfolding delete_row
  delete_row-All P [] h = tt
  delete_row-All P (a ∷ rows) h = elim (Bool-cases (is_assignment e p r a)) [
    | inl q ↦ rw q (delete_row-All P rows h.1)
    | inr q ↦ rw q (h.0, delete_row-All P rows h.1)
  ]

  -- A change that keeps the event and the responsibility.
  change_row-AllPairs :
      (f : Assignment → Assignment)
      → ((a : Assignment) → (f a).event_id ≡ a.event_id)
      → ((a : Assignment) → (f a).responsibility ≡ a.responsibility)
      → (rows : List Assignment) → AllPairs (λ a b. clash a b ≡ false) rows
      → AllPairs (λ a b. clash a b ≡ false) (change_row e p r f rows)
  unfolding change_row
  change_row-AllPairs f ke kr [] h = tt
  change_row-AllPairs f ke kr (a ∷ rows) h = elim (Bool-cases (is_assignment e p r a)) [
    | inl q ↦ rw q (
      change_row-All f (λ b. clash (f a) b ≡ false) (λ b c. rw (ke b) (rw (kr b) c)) rows
          (rw (ke a) (rw (kr a) h.0)),
      change_row-AllPairs f ke kr rows h.1,
    )
    | inr q ↦ rw q (
      change_row-All f (λ b. clash a b ≡ false) (λ b c. rw (ke b) (rw (kr b) c)) rows h.0,
      change_row-AllPairs f ke kr rows h.1,
    )
  ]

  delete_row-AllPairs :
      (rows : List Assignment)
      → AllPairs (λ a b. clash a b ≡ false) rows
      → AllPairs (λ a b. clash a b ≡ false) (delete_row e p r rows)
  unfolding delete_row
  delete_row-AllPairs [] h = tt
  delete_row-AllPairs (a ∷ rows) h = elim (Bool-cases (is_assignment e p r a)) [
    | inl q ↦ rw q (delete_row-AllPairs rows h.1)
    | inr q ↦ rw q (delete_row-All (λ b. clash a b ≡ false) rows h.0, delete_row-AllPairs rows h.1)
  ]

  -- Where the responsibility is no singleton, or nobody holds it, a new row clashes with none.
  new_row_free :
      (n : Assignment) (rows : List Assignment)
      → n.event_id ≡ e
      → n.responsibility ≡ r
      → (is_singleton r ≡ false) ⊎ (other_holder e p r rows ≡ none)
      → is_assigned e p r rows ≡ false
      → All (λ a. clash a n ≡ false) rows
  new_row_free n rows ne nr (inl s) u =
      All-map (λ a. is_assignment e p r a ≡ false) (λ a. clash a n ≡ false)
        (λ a k. clash-free a n (λ i j. ap is_singleton (j ∙ nr) ∙ s)) rows (unassigned rows u)
  new_row_free n rows ne nr (inr o) u =
      All-map
        (λ a.
          ((a.event_id == e && (a.responsibility == r && not (a.profile_id == p))) ≡ false)
          × (is_assignment e p r a ≡ false))
        (λ a. clash a n ≡ false)
        (λ a k. clash-free a n (λ i j. ground (
          arith,
          k.0,
          k.1,
          (eq_iff a.event_id e).1 (i ∙ ne),
          (eq_iff a.responsibility r).1 (j ∙ nr),
        )))
        rows
        (All-zip
          (λ a. (a.event_id == e && (a.responsibility == r && not (a.profile_id == p))) ≡ false)
          (λ a. is_assignment e p r a ≡ false) rows (others_free rows o) (unassigned rows u))

  abbrev pub new_row : Option ℤ → ℕ → Assignment
  new_row count now = record {
    event_id = e;
    profile_id = p;
    responsibility = r;
    seatbelt_count = count;
    created_at = now;
    updated_at = now;
  }

  upsert_row-SingleHolders :
      (count : Option ℤ) (f : Assignment → Assignment)
      → ((a : Assignment) → (f a).event_id ≡ a.event_id)
      → ((a : Assignment) → (f a).responsibility ≡ a.responsibility)
      → (w : World) → (is_singleton r ≡ false) ⊎ (other_holder e p r w.assignments ≡ none)
      → SingleHolders w.tables
      → SingleHolders (upsert_row e p r count f w).1
  unfolding upsert_row
  upsert_row-SingleHolders count f ke kr w free h = elim (Bool-cases (has_row e p w.attendees)) [
    | inr q ↦ rw q h
    | inl q ↦ elim (Bool-cases (is_assigned e p r w.assignments)) [
      | inl u ↦ rw q (rw u (change_row-AllPairs f ke kr w.assignments h))
      | inr u ↦ rw q (
          rw u (
            AllPairs-append (λ a b. clash a b ≡ false) w.assignments (new_row count w.now)
              (new_row_free (new_row count w.now) w.assignments refl refl free u) h))
    ]
  ]

driver-is_singleton : is_singleton driver ≡ false
unfolding is_singleton
driver-is_singleton = refl

insert_assignment-SingleHolders :
    (e p : String) (r : Responsibility) (w : World)
    → (is_singleton r ≡ false) ⊎ (other_holder e p r w.assignments ≡ none)
    → SingleHolders w.tables
    → SingleHolders (insert_assignment e p r w).1.tables
unfolding insert_assignment statement
insert_assignment-SingleHolders e p r w free h = elim (Bool-cases (w.fault w.count)) [
  | inl q ↦ rw q h
  | inr q ↦ rw q (
      upsert_row-SingleHolders e p r none (λ a. record a { updated_at = w.now }) (λ a. refl)
        (λ a. refl) w free h)
]

pub assign_responsibility-SingleHolders :
    (e p : String) (r : Responsibility) (w : World)
    → SingleHolders w.tables
    → SingleHolders (assign_responsibility e p r w).1.tables
unfolding assign_responsibility refuse_or ◌>>=◌
assign_responsibility-SingleHolders e p r w h = elim (Bool-cases (is_singleton r)) [
  | inr s ↦ rw s (insert_assignment-SingleHolders e p r w (inl s) h)
  | inl s ↦ elim (Bool-cases (w.fault w.count)) [
    | inl q ↦ rw s (rw q h)
    | inr q ↦ elim (Option-cases (other_holder e p r w.assignments)) [
      | inl o ↦ rw s (rw q (rw o (insert_assignment-SingleHolders e p r (tick w) (inr o) h)))
      | inr (i, o) ↦
          rw s
            (rw q (rw o (rw (query_tables (λ v. first (name_of i v.profiles) no_rows) (tick w)) h)))
    ]
  ]
]

pub seatbelts-SingleHolders :
    (e p : String) (count : ℤ) (w : World)
    → SingleHolders w.tables
    → SingleHolders (add_driver e p count w).1.tables
      × SingleHolders (update_driver_seatbelt_count e p count w).1.tables
unfolding add_driver update_driver_seatbelt_count statement
seatbelts-SingleHolders e p count w h = elim (Bool-cases (w.fault w.count)) [
  | inl q ↦ rw q (h, h)
  | inr q ↦ rw q (
    upsert_row-SingleHolders e p driver (some count)
        (λ a. record a { seatbelt_count = some count; updated_at = w.now }) (λ a. refl) (λ a. refl)
        w (inl driver-is_singleton) h,
    change_row-AllPairs e p driver
        (λ a. record a { seatbelt_count = some count; updated_at = w.now }) (λ a. refl) (λ a. refl)
        w.assignments h,
  )
]

pub removals-SingleHolders :
    (e p : String) (r : Responsibility) (w : World)
    → SingleHolders w.tables
    → SingleHolders (remove_responsibility e p r w).1.tables
      × SingleHolders (remove_driver e p w).1.tables
unfolding remove_responsibility remove_driver statement
removals-SingleHolders e p r w h = elim (Bool-cases (w.fault w.count)) [
  | inl q ↦ rw q (h, h)
  | inr q ↦
      rw q
        (delete_row-AllPairs e p r w.assignments h, delete_row-AllPairs e p driver w.assignments h)
]
