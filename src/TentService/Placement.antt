-- ===== src/TentService/Placement.antt =====
-- Where AssignMember of internal/domain/event/tent_service.go puts a scout.
use mathlib.Core.Path.{subst}
use scouting_app.Base.{
  String, ◌≡◌, ◌≢◌, refl, Bool, true, not, ◌&&◌, List, [], ◌∷◌, map, ◌==◌, eq_iff, eq_refl, ◌⊎◌,
  inl, inr, Bool-cases, Option-cases, any, find, any_self, any-last, order_by, order_by-All, where_,
  All, All-passing, arith,
}
use scouting_app.Base.Int.{ℤ}
use scouting_app.Profile.{Profile, youth, member_type_eq}
use scouting_app.Event.{Tent, TentMember, TentRow, TentMemberRow}
use scouting_app.Db.{World, Tables, ok}
use scouting_app.Db.Runs.{ok-injective}
use scouting_app.Db.Ensures.{
  Ensures, Ensures-bind, Ensures-pure, Ensures-fail, Ensures-if, Ensures-weaken, Ensures-any,
  Ensures-query, Ensures-statement, result-Ensures,
}
use scouting_app.Storage.Tents.{
  list_tents, is_tent_member, tent_members_of, with_members, tent_member_le, assign_tent_member,
  write_tent_member, has_tent, move_member,
}
use scouting_app.Tenting.{Violation, blocking_violations}
use scouting_app.Storage.Attendance.{has_row}
use scouting_app.Storage.Profiles.{get_profile_by_id}
use scouting_app.Storage.Events.{get_event_by_id}
use scouting_app.TentService.{
  assign_member, place, settle, is_member, find_target, Target, missing, already, tent,
}

-- A row puts the attendee of the event in the tent.
abbrev pub housed : String → String → String → List TentMemberRow → Bool
housed e i p rows = any (λ m. is_tent_member e p m && m.tent_id == i) rows

-- Each of the members that are listed is there by a row.
abbrev Backed : String → List TentMemberRow → Tent → Type 0
Backed e rows t = All (λ m. housed e t.id m.profile_id rows ≡ true) t.members

tent_members_of-Backed :
    (e i : String) (rows : List TentMemberRow) (profiles : List Profile) (ms : List TentMemberRow)
    → All (λ m. housed e m.tent_id m.profile_id rows ≡ true) ms
    → All (λ m. housed e i m.profile_id rows ≡ true) (tent_members_of i profiles ms)
unfolding tent_members_of
tent_members_of-Backed e i rows profiles [] h = tt
tent_members_of-Backed e i rows profiles (m ∷ ms) h =
    elim (Option-cases (find (λ p. p.id == m.profile_id) profiles)) [
      | inl o ↦ rw (o, All) (tent_members_of-Backed e i rows profiles ms h.1)
      | inr (q, o) ↦ elim (Bool-cases (m.tent_id == i)) [
        | inl u ↦
            rw (o, All)
              (rw (u, All)
                (
                  subst (λ x. housed e x m.profile_id rows ≡ true) ((eq_iff m.tent_id i).0 u) h.0,
                  tent_members_of-Backed e i rows profiles ms h.1,
                ))
        | inr u ↦ rw (o, All) (rw (u, All) (tent_members_of-Backed e i rows profiles ms h.1))
      ]
    ]

rows-Backed :
    (e : String) (rows : List TentMemberRow)
    → All
        (λ m. housed e m.tent_id m.profile_id rows ≡ true)
        (order_by tent_member_le (where_ (λ m. m.event_id == e) rows))
rows-Backed e rows =
    order_by-All (λ m. housed e m.tent_id m.profile_id rows ≡ true) tent_member_le
      (where_ (λ m. m.event_id == e) rows)
      (All-passing (λ m. housed m.event_id m.tent_id m.profile_id rows ≡ true)
        (λ m. housed e m.tent_id m.profile_id rows ≡ true) (λ m. m.event_id == e)
        (λ m q h.
          subst (λ x. housed x m.tent_id m.profile_id rows ≡ true) ((eq_iff m.event_id e).0 q) h)
        rows
        (any_self (λ m r. is_tent_member m.event_id m.profile_id r && r.tent_id == m.tent_id)
          (λ m. rw (eq_refl m.event_id) (rw (eq_refl m.profile_id) (rw (eq_refl m.tent_id) refl)))
          rows))

map-Backed :
    (e : String) (rows ms : List TentMemberRow) (profiles : List Profile) (tents : List TentRow)
    → All (λ m. housed e m.tent_id m.profile_id rows ≡ true) ms
    → All (Backed e rows) (map (with_members e profiles ms) tents)
unfolding with_members
map-Backed e rows ms profiles [] h = tt
map-Backed e rows ms profiles (t ∷ tents) h =
    (tent_members_of-Backed e t.id rows profiles ms h, map-Backed e rows ms profiles tents h)

list_tents-Backed :
    (e : String)
    → Ensures (λ t. Unit {0}) (list_tents e) (λ tents t. All (Backed e t.tent_members) tents)
unfolding list_tents
list_tents-Backed e =
    Ensures-bind (λ tents t. Unit {0}) _ _ (Ensures-any _)
      (λ tents. Ensures-query _ (λ w listed h q.
        subst (All (Backed e w.tent_members)) (ok-injective _ _ q)
          (map-Backed e w.tent_members _ w.profiles tents (rows-Backed e w.tent_members))))

member-housed :
    (e i p : String) (rows : List TentMemberRow) (members : List TentMember)
    → All (λ m. housed e i m.profile_id rows ≡ true) members
    → is_member p members ≡ true
    → housed e i p rows ≡ true
unfolding is_member
member-housed e i p rows [] h k = ground arith
member-housed e i p rows (m ∷ members) h k = elim (Bool-cases (m.profile_id == p)) [
  | inl q ↦ subst (λ x. housed e i x rows ≡ true) ((eq_iff m.profile_id p).0 q) h.0
  | inr q ↦ member-housed e i p rows members h.1 (rw q at k)
]

-- The search says that the scout is in the tent already only where a row says so.
find_target-already :
    (e i p : String) (rows : List TentMemberRow) (target : Target) (tents : List Tent)
    → All (Backed e rows) tents
    → target ≢ already
    → find_target i p target tents ≡ already
    → housed e i p rows ≡ true
unfolding find_target
find_target-already e i p rows target [] h k r = absurd (k r)
find_target-already e i p rows target (t ∷ tents) h k r = elim (Bool-cases (t.id == i)) [
  | inr q ↦ find_target-already e i p rows target tents h.1 k (rw q at r)
  | inl q ↦ elim (Bool-cases (is_member p t.members)) [
    | inl u ↦
        subst (λ x. housed e x p rows ≡ true) ((eq_iff t.id i).0 q)
          (member-housed e t.id p rows t.members h.0 u)
    | inr u ↦
        find_target-already e i p rows (tent t) tents h.1 (λ x. ground arith) (rw u at (rw q at r))
  ]
]

already_cases : (target : Target) → (target ≢ already) ⊎ (target ≡ already)
already_cases missing = inl (λ x. ground arith)
already_cases already = inr refl
already_cases (tent t) = inl (λ x. ground arith)

module _ (e i p : String) where
  move_member-housed :
      (rows : List TentMemberRow)
      → has_tent e p rows ≡ true
      → housed e i p (move_member e p i rows) ≡ true
  unfolding has_tent move_member
  move_member-housed [] h = h
  move_member-housed (m ∷ rows) h = elim (Bool-cases (is_tent_member e p m)) [
    | inl q ↦ rw q (rw q (rw (eq_refl i) refl))
    | inr q ↦ rw q (rw q (move_member-housed rows (rw q at h)))
  ]

  write_tent_member-housed :
      (w : World)
      → (write_tent_member e i p w).0 ≡ ok tt
      → housed e i p (write_tent_member e i p w).1.tent_members ≡ true
  unfolding write_tent_member
  write_tent_member-housed w h =
      elim (Bool-cases (not (any (λ t. t.id == i && t.event_id == e) w.tents))) [
        | inl q ↦ ground arith
        | inr q ↦ elim (Bool-cases (not (has_row e p w.attendees))) [
          | inl u ↦ ground arith
          | inr u ↦ elim (Bool-cases (has_tent e p w.tent_members)) [
            | inl v ↦ rw q (rw u (rw v (move_member-housed w.tent_members v)))
            | inr v ↦ rw q (
                rw u (
                  rw v (
                    any-last (λ m. is_tent_member e p m && m.tent_id == i) w.tent_members
                      (record { event_id = e; profile_id = p; tent_id = i; created_at = w.now })
                      (rw (eq_refl e) (rw (eq_refl p) (rw (eq_refl i) refl))))))
          ]
        ]
      ]

  abbrev Settled : List Violation → Tables → Type 0
  Settled violations t = (violations ≢ []) ⊎ (housed e i p t.tent_members ≡ true)

  settle-Settled :
      (violations : List Violation) → Ensures (λ t. Unit {0}) (settle e i p violations) Settled
  unfolding settle assign_tent_member
  settle-Settled [] =
      Ensures-bind (λ x t. housed e i p t.tent_members ≡ true) _ _
        (Ensures-statement _ (λ w x h r. write_tent_member-housed w r))
        (λ x. Ensures-pure _ (λ t h. inr h))
  settle-Settled (v ∷ violations) = Ensures-pure _ (λ t h. inl (λ k. ground arith))

  module _ (gap : ℤ) where
    place-Settled :
        (q : Profile) (target : Target)
        → Ensures
            (λ t. (target ≢ already) ⊎ (housed e i p t.tent_members ≡ true))
            (place e i p q gap target)
            Settled
    unfolding place get_event_by_id
    place-Settled q missing = Ensures-fail _
    place-Settled q already =
        Ensures-pure _ (λ t h. elim h [ inl k ↦ absurd (k refl) | inr k ↦ inr k ])
    place-Settled q (tent t) =
        Ensures-bind (λ evt t. Unit {0}) _ _ (Ensures-any _)
          (λ evt.
            Ensures-bind (λ scouts t. Unit {0}) _ _ (Ensures-any _)
              (λ scouts.
                Ensures-bind (λ siblings t. Unit {0}) _ _ (Ensures-any _)
                  (λ siblings.
                    settle-Settled (blocking_violations scouts evt.start_time gap siblings))))

    target_known :
        (tents : List Tent) (rows : List TentMemberRow)
        → All (Backed e rows) tents
        → (find_target i p missing tents ≢ already) ⊎ (housed e i p rows ≡ true)
    target_known tents rows h = elim (already_cases (find_target i p missing tents)) [
      | inl k ↦ inl k
      | inr k ↦ inr (find_target-already e i p rows missing tents h (λ x. ground arith) k)
    ]

    assign_member-Settled : Ensures (λ t. Unit {0}) (assign_member e i p gap) Settled
    unfolding assign_member get_profile_by_id
    assign_member-Settled =
        Ensures-bind (λ q t. Unit {0}) _ _ (Ensures-any _)
          (λ q.
            Ensures-if (not (member_type_eq q.member_type youth)) _ _ (λ u. Ensures-fail _)
              (λ u.
                Ensures-bind (λ tents t. All (Backed e t.tent_members) tents) _ _
                  (list_tents-Backed e)
                  (λ tents.
                    Ensures-weaken _ (λ t h. target_known tents t.tent_members h)
                      (place-Settled q (find_target i p missing tents)))))

    -- AssignMember of the tent service that returns no violation and no error leaves the scout in
    -- the tent: a row of the event and the scout has the tent's id.
    pub assign_member-housed :
        (w : World)
        → (assign_member e i p gap w).0 ≡ ok []
        → housed e i p (assign_member e i p gap w).1.tent_members ≡ true
    assign_member-housed w h = elim (result-Ensures _ w [] assign_member-Settled tt h) [
      | inl k ↦ absurd (k refl)
      | inr k ↦ k
    ]
