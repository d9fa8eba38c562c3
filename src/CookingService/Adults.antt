-- ===== src/CookingService/Adults.antt =====
-- Adults and youth patrols: AssignMember of internal/domain/event/cooking_service.go.
use mathlib.Core.Path.{subst}
use scouting_app.Base.{
  String, ◌≡◌, refl, sym, ap, ◌∙◌, Bool, true, false, not, ◌&&◌, ◌||◌, List, [], ◌∷◌, map, ◌==◌,
  eq_iff, eq_refl, ◌⊎◌, inl, inr, Bool-cases, any, any_self, find, order_by, order_by-All, where_,
  All, All-passing, some, arith,
}
use scouting_app.Profile.{Profile, adult, member_type_eq}
use scouting_app.Event.{PatrolRow, PatrolMemberRow, CookingPatrol}
use scouting_app.Db.{World, ok, profile_not_found}
use scouting_app.Db.Runs.{ok-injective, first-ok}
use scouting_app.Db.Ensures.{
  Ensures, Ensures-bind, Ensures-fail, Ensures-if, Ensures-query, Ensures-weaken, Ensures-both,
  Ensures-fact, result-Ensures,
}
use scouting_app.Storage.Profiles.{get_profile_by_id}
use scouting_app.Storage.Patrols.{list_cooking_patrols, with_members, patrol_le}
use scouting_app.CookingService.{assign_member, is_adult_patrol}

-- The event has this patrol, and it is for adults.
abbrev pub adult_row : String → String → List PatrolRow → Bool
adult_row e i rows = any (λ r. r.id == i && (r.event_id == e && r.is_adult)) rows

abbrev Genuine : String → List PatrolRow → String → Bool → Type 0
Genuine e rows i is_adult = (is_adult ≡ false) ⊎ (adult_row e i rows ≡ true)

row-Genuine :
    (e : String) (rows : List PatrolRow) (r : PatrolRow)
    → (r.event_id == e) ≡ true
    → any (λ q. q.id == r.id && (q.event_id == r.event_id && (not r.is_adult || q.is_adult))) rows
      ≡ true
    → Genuine e rows r.id r.is_adult
row-Genuine e rows r q h = elim (Bool-cases r.is_adult) [
  | inr u ↦ inl u
  | inl u ↦ inr (rw ((eq_iff r.event_id e).0 q, u) at h)
]

rows-Genuine :
    (e : String) (rows : List PatrolRow)
    → All
        (λ r. Genuine e rows r.id r.is_adult)
        (order_by patrol_le (where_ (λ r. r.event_id == e) rows))
rows-Genuine e rows =
    order_by-All (λ r. Genuine e rows r.id r.is_adult) patrol_le
      (where_ (λ r. r.event_id == e) rows)
      (All-passing
        (λ r.
          any (λ q. q.id == r.id && (q.event_id == r.event_id && (not r.is_adult || q.is_adult)))
            rows
          ≡ true)
        (λ r. Genuine e rows r.id r.is_adult) (λ r. r.event_id == e)
        (λ r q h. row-Genuine e rows r q h) rows
        (any_self
          (λ r q. q.id == r.id && (q.event_id == r.event_id && (not r.is_adult || q.is_adult)))
          (λ r. rw (eq_refl r.id) (rw (eq_refl r.event_id) (ground arith))) rows))

map-Genuine :
    (e : String) (rows : List PatrolRow) (profiles : List Profile) (ms : List PatrolMemberRow)
    (ps : List PatrolRow)
    → All (λ r. Genuine e rows r.id r.is_adult) ps
    → All (λ p. Genuine e rows p.id p.is_adult) (map (with_members e profiles ms) ps)
unfolding with_members
map-Genuine e rows profiles ms [] h = tt
map-Genuine e rows profiles ms (p ∷ ps) h = (h.0, map-Genuine e rows profiles ms ps h.1)

list-Genuine :
    (e : String) (rows : List PatrolRow)
    → Ensures
        (λ t. t.patrols ≡ rows)
        (list_cooking_patrols e)
        (λ listed t. All (λ p. Genuine e rows p.id p.is_adult) listed)
unfolding list_cooking_patrols
list-Genuine e rows =
    Ensures-bind (λ ps t. All (λ r. Genuine e rows r.id r.is_adult) ps) _ _
      (Ensures-query _ (λ w ps h q.
        subst (All (λ r. Genuine e rows r.id r.is_adult)) (ok-injective _ _ q) (
          subst
            (λ rs.
              All (λ r. Genuine e rows r.id r.is_adult)
                (order_by patrol_le (where_ (λ r. r.event_id == e) rs)))
            (sym h) (rows-Genuine e rows))))
      (λ ps. Ensures-query _ (λ w listed h q.
        subst (All (λ p. Genuine e rows p.id p.is_adult)) (ok-injective _ _ q)
          (map-Genuine e rows w.profiles _ ps h)))

listed-adult :
    (e i : String) (rows : List PatrolRow) (listed : List CookingPatrol)
    → All (λ p. Genuine e rows p.id p.is_adult) listed
    → is_adult_patrol i listed ≡ true
    → adult_row e i rows ≡ true
unfolding is_adult_patrol
listed-adult e i rows [] h k = ground arith
listed-adult e i rows (p ∷ listed) h k = elim (Bool-cases (p.id == i)) [
  | inr q ↦ listed-adult e i rows listed h.1 (rw q at k)
  | inl q ↦ elim h.0 [
    | inl u ↦ ground arith
    | inr u ↦ subst (λ x. adult_row e x rows ≡ true) ((eq_iff p.id i).0 q) u
  ]
]

module _ (e i p : String) where
  -- The attendee is a youth, or the patrol is the adults'.
  abbrev pub Allowed : List PatrolRow → Profile → Type 0
  Allowed rows q = (member_type_eq q.member_type adult ≡ false) ⊎ (adult_row e i rows ≡ true)

  assign-Ensures :
      (rows : List PatrolRow) (profiles : List Profile)
      → Ensures
          (λ t. (t.patrols ≡ rows) × (t.profiles ≡ profiles))
          (assign_member e i p)
          (λ x t. (q : Profile) × (find (λ o. o.id == p) profiles ≡ some q) × Allowed rows q)
  unfolding assign_member get_profile_by_id
  assign-Ensures rows profiles =
      Ensures-bind (λ q t. (t.patrols ≡ rows) × (find (λ o. o.id == p) profiles ≡ some q)) _ _
        (Ensures-query _ (λ w q h k.
          (h.0, sym (ap (find (λ o. o.id == p)) h.1) ∙ first-ok _ profile_not_found q k)))
        (λ q.
          Ensures-if (member_type_eq q.member_type adult) _ _
            (λ u.
              Ensures-bind
                (λ listed t.
                  All (λ r. Genuine e rows r.id r.is_adult) listed
                  × (find (λ o. o.id == p) profiles ≡ some q))
                _ _
                (Ensures-both _ (Ensures-weaken _ (λ t h. h.0) (list-Genuine e rows))
                  (Ensures-fact (λ x. find (λ o. o.id == p) profiles ≡ some q) _ (λ t h x. h.1)))
                (λ listed.
                  Ensures-if (not (is_adult_patrol i listed)) _ _ (λ k. Ensures-fail _)
                    (λ k.
                      Ensures-fact
                        (λ x.
                          (r : Profile) × (find (λ o. o.id == p) profiles ≡ some r)
                          × Allowed rows r)
                        _
                        (λ t h x.
                          (q, h.1, inr (listed-adult e i rows listed h.0 (ground arith)))))))
            (λ u.
              Ensures-fact
                (λ x. (r : Profile) × (find (λ o. o.id == p) profiles ≡ some r) × Allowed rows r) _
                (λ t h x. (q, h.1, inl u))))

  -- AssignMember of the cooking service that succeeds has found the profile, and the profile is
  -- not an adult's or the patrol is one of the event's adult patrols.
  pub assign_member-adults :
      (w : World)
      → (assign_member e i p w).0 ≡ ok tt
      → (q : Profile) × (find (λ o. o.id == p) w.profiles ≡ some q) × Allowed w.patrols q
  assign_member-adults w h =
      result-Ensures _ w tt (assign-Ensures w.patrols w.profiles) (refl, refl) h
