-- ===== src/Storage/Patrols/Invariants.antt =====
-- What the writers of cooking patrols keep: one patrol for an attendee of an event, a patrol of the
-- event for every member row, and one cook for a patrol (internal/storage/postgres/
-- event_repository.go).
use scouting_app.Base.{
  ℕ, String, ◌≡◌, refl, ◌∙◌, sym, Bool, true, false, not, ◌&&◌, List, [], ◌∷◌, ◌==◌, eq_iff, ◌⊎◌,
  inl, inr, Bool-cases, All, AllPairs, All-append, any-false, AllPairs-append, AllPairs-both, any,
  arith, if◌then◌else◌,
}
use mathlib.Core.Path.{subst}
use scouting_app.Text.{eq_comm}
use scouting_app.Event.{PatrolRow, PatrolMemberRow}
use scouting_app.Db.{World, Tables}
use scouting_app.Storage.Attendance.{has_row}
use scouting_app.Storage.Patrols.{
  is_member_row, has_member, change_members, upsert_member, cook_taken,
}

abbrev pub same_place : PatrolMemberRow → PatrolMemberRow → Bool
same_place m n = m.event_id == n.event_id && m.profile_id == n.profile_id

abbrev pub both_cooks : PatrolMemberRow → PatrolMemberRow → Bool
both_cooks m n = m.patrol_id == n.patrol_id && (m.is_cook && n.is_cook)

abbrev pub patrol_exists : List PatrolRow → PatrolMemberRow → Bool
patrol_exists patrols m = any (λ p. p.id == m.patrol_id && p.event_id == m.event_id) patrols

abbrev pub Apart : PatrolMemberRow → PatrolMemberRow → Type 0
Apart m n = (same_place m n ≡ false) × (both_cooks m n ≡ false)

-- One patrol for each attendee, of the event, and one cook for each patrol.
abbrev pub Fed : Tables → Type 0
Fed t =
    AllPairs Apart t.patrol_members × All (λ m. patrol_exists t.patrols m ≡ true) t.patrol_members

module _ (test : PatrolMemberRow → Bool) (f : PatrolMemberRow → PatrolMemberRow) where
  pub change_members-All :
      (P Q : PatrolMemberRow → Type 0)
      → ((m : PatrolMemberRow) → test m ≡ true → P m → Q (f m))
      → ((m : PatrolMemberRow) → test m ≡ false → P m → Q m)
      → (rows : List PatrolMemberRow) → All P rows
      → All Q (change_members test f rows)
  unfolding change_members
  change_members-All P Q k l [] h = tt
  change_members-All P Q k l (m ∷ rows) h = elim (Bool-cases (test m)) [
    | inl q ↦ rw q (k m q h.0, change_members-All P Q k l rows h.1)
    | inr q ↦ rw q (l m q h.0, change_members-All P Q k l rows h.1)
  ]

  abbrev pub changed : PatrolMemberRow → PatrolMemberRow
  changed m = if test m then f m else m

  pub change_members-AllPairs :
      (R S : PatrolMemberRow → PatrolMemberRow → Type 0)
      → ((m n : PatrolMemberRow) → R m n → S (changed m) (changed n))
      → (rows : List PatrolMemberRow) → AllPairs R rows
      → AllPairs S (change_members test f rows)
  unfolding change_members
  change_members-AllPairs R S k [] h = tt
  change_members-AllPairs R S k (m ∷ rows) h = (
    change_members-All (R m) (S (changed m))
        (λ n q r. subst (λ b. S (changed m) (if b then f n else n)) q (k m n r))
        (λ n q r. subst (λ b. S (changed m) (if b then f n else n)) q (k m n r)) rows h.0,
    change_members-AllPairs R S k rows h.1,
  )

-- A row that is no cook, for an attendee without one.
unplaced :
    (e p : String) (n : PatrolMemberRow) (rows : List PatrolMemberRow)
    → n.event_id ≡ e
    → n.profile_id ≡ p
    → n.is_cook ≡ false
    → has_member e p rows ≡ false
    → All (λ m. Apart m n) rows
unfolding has_member
unplaced e p n [] ne np nc h = tt
unplaced e p n (m ∷ rows) ne np nc h = elim (Bool-cases (is_member_row e p m)) [
  | inl q ↦ ground arith
  | inr q ↦ ((rw (ne, np) q, rw nc (ground arith)), unplaced e p n rows ne np nc (rw q at h))
]

-- The cook of the patrol is the attendee, or nobody.
pub cook_free :
    (e p i : String) (rows : List PatrolMemberRow)
    → cook_taken e p i rows ≡ false
    → All (λ m. (m.patrol_id == i && (m.is_cook && not (is_member_row e p m))) ≡ false) rows
unfolding cook_taken
cook_free e p i [] h = tt
cook_free e p i (m ∷ rows) h =
    elim (Bool-cases (m.patrol_id == i && (m.is_cook && not (is_member_row e p m)))) [
      | inl q ↦ ground arith
      | inr q ↦ (q, cook_free e p i rows (rw q at h))
    ]

pub one_member :
    (e p : String) (m n : PatrolMemberRow)
    → same_place m n ≡ false
    → is_member_row e p m ≡ true
    → is_member_row e p n ≡ false
one_member e p m n h q = elim (Bool-cases (is_member_row e p n)) [
  | inr u ↦ u
  | inl u ↦
      let me = (eq_iff m.event_id e).0 (ground arith) in
      let mp = (eq_iff m.profile_id p).0 (ground arith) in
      let ne = (eq_iff n.event_id e).0 (ground arith) in
      let np = (eq_iff n.profile_id p).0 (ground arith) in
      ground (
        arith,
        (eq_iff m.event_id n.event_id).1 (me ∙ sym ne),
        (eq_iff m.profile_id n.profile_id).1 (mp ∙ sym np),
      )
]

module _ (e p i : String) (f : PatrolMemberRow → PatrolMemberRow)
    (fe : (m : PatrolMemberRow) → (f m).event_id ≡ m.event_id)
    (fp : (m : PatrolMemberRow) → (f m).profile_id ≡ m.profile_id)
    (fi : (m : PatrolMemberRow) → (f m).patrol_id ≡ i) where
  abbrev moved : PatrolMemberRow → PatrolMemberRow
  moved = changed (is_member_row e p) f

  moved_event : (m : PatrolMemberRow) → (moved m).event_id ≡ m.event_id
  moved_event m = elim (Bool-cases (is_member_row e p m)) [
    | inl q ↦ rw q (fe m)
    | inr q ↦ rw q refl
  ]

  moved_profile : (m : PatrolMemberRow) → (moved m).profile_id ≡ m.profile_id
  moved_profile m = elim (Bool-cases (is_member_row e p m)) [
    | inl q ↦ rw q (fp m)
    | inr q ↦ rw q refl
  ]

  moved-same_place :
      (m n : PatrolMemberRow) → same_place m n ≡ false → same_place (moved m) (moved n) ≡ false
  moved-same_place m n h = rw (moved_event m, moved_event n, moved_profile m, moved_profile n) h

  -- The row that moves is no cook.
  abbrev Plain : PatrolMemberRow → Type 0
  Plain m = (is_member_row e p m && (f m).is_cook) ≡ false

  -- The patrol has no other cook.
  abbrev Vacant : PatrolMemberRow → Type 0
  Vacant m = (m.patrol_id == i && (m.is_cook && not (is_member_row e p m))) ≡ false

  Plain-both_cooks :
      (m n : PatrolMemberRow)
      → Plain m
      → Plain n
      → both_cooks m n ≡ false
      → both_cooks (moved m) (moved n) ≡ false
  Plain-both_cooks m n a b c = elim (Bool-cases (is_member_row e p m)) [
    | inl q ↦ rw q (ground arith)
    | inr q ↦ elim (Bool-cases (is_member_row e p n)) [
      | inl u ↦ rw q (rw u (ground arith))
      | inr u ↦ rw q (rw u c)
    ]
  ]

  -- The patrol that is moved to has a vacancy, seen from a row that stays.
  Vacant-patrol :
      (n : PatrolMemberRow)
      → Vacant n
      → is_member_row e p n ≡ false
      → (n.patrol_id == i && n.is_cook) ≡ false
  Vacant-patrol n v u = ground arith

  Vacant-both_cooks :
      (m n : PatrolMemberRow)
      → Vacant m
      → Vacant n
      → same_place m n ≡ false
      → both_cooks m n ≡ false
      → both_cooks (moved m) (moved n) ≡ false
  Vacant-both_cooks m n a b s c = elim (Bool-cases (is_member_row e p m)) [
    | inl q ↦
        let u = one_member e p m n s q in
        rw q (rw u (rw (fi m, eq_comm i n.patrol_id) (ground (arith, Vacant-patrol n b u))))
    | inr q ↦ elim (Bool-cases (is_member_row e p n)) [
      | inl u ↦ rw q (rw u (rw (fi n) (ground (arith, Vacant-patrol m a q))))
      | inr u ↦ rw q (rw u c)
    ]
  ]

  moved-rows :
      (rows : List PatrolMemberRow)
      → All Plain rows ⊎ All Vacant rows
      → AllPairs Apart rows
      → AllPairs Apart (change_members (is_member_row e p) f rows)
  moved-rows rows (inl plain) h =
      change_members-AllPairs (is_member_row e p) f (λ m n. Plain m × Plain n × Apart m n) Apart
        (λ m n k. (moved-same_place m n k.2.0, Plain-both_cooks m n k.0 k.1 k.2.1)) rows
        (AllPairs-both Plain Apart rows plain h)
  moved-rows rows (inr vacant) h =
      change_members-AllPairs (is_member_row e p) f (λ m n. Vacant m × Vacant n × Apart m n) Apart
        (λ m n k. (moved-same_place m n k.2.0, Vacant-both_cooks m n k.0 k.1 k.2.0 k.2.1)) rows
        (AllPairs-both Vacant Apart rows vacant h)

  abbrev new_member : ℕ → PatrolMemberRow
  new_member now = record {
    event_id = e;
    profile_id = p;
    patrol_id = i;
    is_cook = false;
    created_at = now;
  }

  admitted :
      (rows : List PatrolMemberRow)
      → (any (λ m. is_member_row e p m && (f m).is_cook) rows && cook_taken e p i rows) ≡ false
      → All Plain rows ⊎ All Vacant rows
  admitted rows h = elim (Bool-cases (cook_taken e p i rows)) [
    | inr u ↦ inr (cook_free e p i rows u)
    | inl u ↦ inl (any-false (λ m. is_member_row e p m && (f m).is_cook) rows (ground arith))
  ]

  pub upsert_member-Fed :
      (w : World)
      → any (λ q. q.id == i && q.event_id == e) w.patrols ≡ true
      → Fed w.tables
      → Fed (upsert_member e p i f w).1
  unfolding upsert_member
  upsert_member-Fed w known (apart, homes) = elim (Bool-cases (has_row e p w.attendees)) [
    | inr q ↦ rw q (apart, homes)
    | inl q ↦
        elim (Bool-cases (
          any (λ m. is_member_row e p m && (f m).is_cook) w.patrol_members
          && cook_taken e p i w.patrol_members)) [
            | inl u ↦ rw q (rw u (apart, homes))
            | inr u ↦ elim (Bool-cases (has_member e p w.patrol_members)) [
              | inl v ↦ rw q (
                  rw u (
                    rw v (
                      moved-rows w.patrol_members (admitted w.patrol_members u) apart,
                      change_members-All (is_member_row e p) f
                          (λ m. patrol_exists w.patrols m ≡ true)
                          (λ m. patrol_exists w.patrols m ≡ true)
                          (λ m k h. rw (fi m, fe m, (eq_iff m.event_id e).0 (ground arith)) known)
                          (λ m k h. h) w.patrol_members homes,
                    )))
              | inr v ↦ rw q (
                  rw u (
                    rw v (
                      AllPairs-append Apart w.patrol_members (new_member w.now)
                          (unplaced e p (new_member w.now) w.patrol_members refl refl refl v) apart,
                      All-append (λ m. patrol_exists w.patrols m ≡ true) w.patrol_members
                          (new_member w.now ∷ []) homes (known, tt),
                    )))
            ]
          ]
  ]
