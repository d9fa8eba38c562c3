-- ===== src/TentService/Refusals.antt =====
-- What AssignMember of internal/domain/event/tent_service.go leaves behind when it refuses.
use scouting_app.Base.{
  String, ◌≡◌, ◌≢◌, refl, ap, ◌∙◌, not, ◌&&◌, List, [], ◌∷◌, ◌==◌, ◌⊎◌, inl, inr, Bool-cases, any,
  arith,
}
use scouting_app.Base.Int.{ℤ}
use scouting_app.Profile.{Profile, youth, member_type_eq}
use scouting_app.Event.{TentMember}
use scouting_app.Tenting.{Violation, blocking_violations}
use scouting_app.Db.{World, Tables, ok, err, Error}
use scouting_app.Db.Errors.{
  Reads, Reads-pure, Reads-fail, Reads-query, Reads-bind, Cautious, Cautious-Reads,
  Cautious-statement, Cautious-if, Cautious-bind, Cautious-then_pure, Reads-Ensures,
}
use scouting_app.Db.Runs.{Result-cases}
use scouting_app.Db.Ensures.{
  Ensures, Ensures-bind, Ensures-pure, Ensures-fail, Ensures-if, Ensures-any, result-Ensures,
}
use scouting_app.Storage.Profiles.{get_profile_by_id}
use scouting_app.Storage.Links.{list_links_by_status}
use scouting_app.Storage.Events.{get_event_by_id}
use scouting_app.Storage.Attendance.{has_row}
use scouting_app.Storage.Tents.{list_tents, assign_tent_member, write_tent_member}
use scouting_app.TentService.{
  assign_member, place, Target, missing, already, tent, prospective_scouts, member_scouts,
  approved_sibling_pairs, find_target, settle,
}

member_scouts-Reads : (members : List TentMember) → Reads (member_scouts members)
unfolding member_scouts get_profile_by_id
member_scouts-Reads [] = Reads-pure _
member_scouts-Reads (m ∷ members) =
    Reads-bind _ _ (Reads-query _)
      (λ p. Reads-bind _ _ (member_scouts-Reads members) (λ rest. Reads-pure _))

pub prospective_scouts-Reads :
    (members : List TentMember) (p : Profile) → Reads (prospective_scouts members p)
unfolding prospective_scouts
prospective_scouts-Reads members p =
    Reads-bind _ _ (member_scouts-Reads members) (λ scouts. Reads-pure _)

pub approved_sibling_pairs-Reads : Reads approved_sibling_pairs
unfolding approved_sibling_pairs list_links_by_status
approved_sibling_pairs-Reads = Reads-bind _ _ (Reads-query _) (λ links. Reads-pure _)

pub list_tents-Reads : (e : String) → Reads (list_tents e)
unfolding list_tents
list_tents-Reads e = Reads-bind _ _ (Reads-query _) (λ tents. Reads-query _)

write_refused :
    (e i p : String) (w : World) (x : Error)
    → (write_tent_member e i p w).0 ≡ err x
    → (write_tent_member e i p w).1 ≡ w.tables
unfolding write_tent_member
write_refused e i p w x h =
    elim (Bool-cases (not (any (λ t. t.id == i && t.event_id == e) w.tents))) [
      | inl q ↦ rw q refl
      | inr q ↦ elim (Bool-cases (not (has_row e p w.attendees))) [
        | inl u ↦ rw q (rw u refl)
        | inr u ↦ absurd (ground arith)
      ]
    ]

assign_tent_member-Cautious : (e i p : String) → Cautious (assign_tent_member e i p)
unfolding assign_tent_member
assign_tent_member-Cautious e i p = Cautious-statement _ (λ w x h. write_refused e i p w x h)

module _ (e i p : String) (gap : ℤ) where
  settle-Cautious : (violations : List Violation) → Cautious (settle e i p violations)
  unfolding settle
  settle-Cautious [] = Cautious-then_pure _ (λ x. []) (assign_tent_member-Cautious e i p)
  settle-Cautious (v ∷ violations) = Cautious-Reads _ (Reads-pure _)

  place-Cautious : (q : Profile) (target : Target) → Cautious (place e i p q gap target)
  unfolding place get_event_by_id
  place-Cautious q missing = Cautious-Reads _ (Reads-fail _)
  place-Cautious q already = Cautious-Reads _ (Reads-pure _)
  place-Cautious q (tent t) = Cautious-bind _ _ (Reads-query _) (λ evt.
      Cautious-bind _ _ (prospective_scouts-Reads t.members q) (λ scouts.
        Cautious-bind _ _ approved_sibling_pairs-Reads
          (λ siblings. settle-Cautious (blocking_violations scouts evt.start_time gap siblings))))

  assign_member-Cautious : Cautious (assign_member e i p gap)
  unfolding assign_member get_profile_by_id
  assign_member-Cautious = Cautious-bind _ _ (Reads-query _) (λ q.
      Cautious-if (not (member_type_eq q.member_type youth)) _ _
        (λ u. Cautious-Reads _ (Reads-fail _))
        (λ u.
          Cautious-bind _ _ (list_tents-Reads e)
            (λ tents. place-Cautious q (find_target i p missing tents))))

  -- Nothing is written, unless the list of violations is empty.
  abbrev Untouched : Tables → List Violation → Tables → Type 0
  Untouched before violations after = (violations ≡ []) ⊎ (after ≡ before)

  settle-Ensures :
      (before : Tables) (violations : List Violation)
      → Ensures (λ t. t ≡ before) (settle e i p violations) (Untouched before)
  unfolding settle
  settle-Ensures before [] =
      Ensures-bind (λ x t. Unit {0}) _ _ (Ensures-any _) (λ x. Ensures-pure _ (λ t h. inl refl))
  settle-Ensures before (v ∷ violations) = Ensures-pure _ (λ t h. inr h)

  place-Ensures :
      (before : Tables) (q : Profile) (target : Target)
      → Ensures (λ t. t ≡ before) (place e i p q gap target) (Untouched before)
  unfolding place get_event_by_id
  place-Ensures before q missing = Ensures-fail _
  place-Ensures before q already = Ensures-pure _ (λ t h. inl refl)
  place-Ensures before q (tent t) =
      Ensures-bind (λ evt u. u ≡ before) _ _ (Reads-Ensures _ (Reads-query _))
        (λ evt.
          Ensures-bind (λ scouts u. u ≡ before) _ _
            (Reads-Ensures _ (prospective_scouts-Reads t.members q))
            (λ scouts.
              Ensures-bind (λ siblings u. u ≡ before) _ _
                (Reads-Ensures _ approved_sibling_pairs-Reads)
                (λ siblings.
                  settle-Ensures before (blocking_violations scouts evt.start_time gap siblings))))

  assign_member-Ensures :
      (before : Tables) → Ensures (λ t. t ≡ before) (assign_member e i p gap) (Untouched before)
  unfolding assign_member get_profile_by_id
  assign_member-Ensures before =
      Ensures-bind (λ q u. u ≡ before) _ _ (Reads-Ensures _ (Reads-query _))
        (λ q.
          Ensures-if (not (member_type_eq q.member_type youth)) _ _ (λ u. Ensures-fail _)
            (λ u.
              Ensures-bind (λ tents v. v ≡ before) _ _ (Reads-Ensures _ (list_tents-Reads e))
                (λ tents. place-Ensures before q (find_target i p missing tents))))

  -- AssignMember of the tent service changes no table, unless it returns no violation and no
  -- error.
  pub assign_member-refusal :
      (w : World)
      → (assign_member e i p gap w).0 ≢ ok []
      → (assign_member e i p gap w).1.tables ≡ w.tables
  assign_member-refusal w h = elim (Result-cases (assign_member e i p gap w).0) [
    | inr (x, r) ↦ assign_member-Cautious.at w x r
    | inl (vs, r) ↦ elim (result-Ensures _ w vs (assign_member-Ensures w.tables) refl r) [
      | inl q ↦ absurd (h (r ∙ ap (λ x. ok x) q))
      | inr q ↦ q
    ]
  ]
