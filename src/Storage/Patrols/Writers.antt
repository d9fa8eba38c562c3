-- ===== src/Storage/Patrols/Writers.antt =====
-- The single statements that write cooking patrols and their members, in internal/storage/
-- postgres/event_repository.go.
use scouting_app.Base.{
  String, ◌≡◌, refl, Bool, true, false, not, ◌&&◌, ◌||◌, List, [], ◌∷◌, ◌++◌, ◌==◌, eq_iff, ◌⊎◌,
  inl, inr, Bool-cases, All, All-map, All-passing, AllPairs-where, any-append, All-where,
  any-where_passing, All-every, any-false, any, where_, arith,
}
use scouting_app.Event.{PatrolRow, PatrolMemberRow}
use scouting_app.Db.{World, Tables, statement}
use scouting_app.Db.Keeps.{Keeps, Keeps-statement}
use scouting_app.Storage.Patrols.{
  insert_patrol, remove_patrol, delete_cooking_patrol, assign_cooking_patrol_member, write_member,
  disable_cooking, is_member_row, remove_cooking_patrol_member, clear_cooking_patrol_cook, clashes,
}
use scouting_app.Storage.Patrols.Invariants.{Apart, Fed, patrol_exists, upsert_member-Fed}
use scouting_app.Storage.Patrols.Cook.{uncooked-Fed}

pub insert_patrol-Fed : (p : PatrolRow) (w : World) → Fed w.tables → Fed (insert_patrol p w).1
unfolding insert_patrol
insert_patrol-Fed p w (apart, homes) =
    elim (Bool-cases (clashes p w.patrols || not (any (λ e. e.id == p.event_id) w.events))) [
      | inl q ↦ rw q (apart, homes)
      | inr q ↦ rw q (
        apart,
        All-map (λ m. patrol_exists w.patrols m ≡ true)
            (λ m. patrol_exists (w.patrols ++ p ∷ []) m ≡ true)
            (λ m h.
              any-append (λ u. u.id == m.patrol_id && u.event_id == m.event_id) w.patrols (p ∷ [])
                h)
            w.patrol_members homes,
      )
    ]

-- Where patrols go with the members whose patrol they are, the rest is as it was.
abbrev pub Stays : (PatrolRow → Bool) → PatrolMemberRow → PatrolRow → Type 0
Stays gone m p = ((p.id == m.patrol_id && p.event_id == m.event_id) ≡ false) ⊎ (not (gone p) ≡ true)

-- Where patrols go with the members whose patrol they are, the rest is as it was.
pub without-Fed :
    (gone : PatrolRow → Bool) (leaves : PatrolMemberRow → Bool) (t : Tables)
    → ((m : PatrolMemberRow) → not (leaves m) ≡ true → All (Stays gone m) t.patrols)
    → Fed t
    → Fed (record t {
      patrols = where_ (λ p. not (gone p)) t.patrols;
      patrol_members = where_ (λ m. not (leaves m)) t.patrol_members;
    })
without-Fed gone leaves t stays (apart, homes) = (
  AllPairs-where Apart (λ m. not (leaves m)) t.patrol_members apart,
  All-passing (λ m. patrol_exists t.patrols m ≡ true)
      (λ m. patrol_exists (where_ (λ p. not (gone p)) t.patrols) m ≡ true) (λ m. not (leaves m))
      (λ m k h.
        any-where_passing (λ p. p.id == m.patrol_id && p.event_id == m.event_id) (λ p. not (gone p))
          t.patrols (stays m k) h)
      t.patrol_members homes,
)

removed-Stays :
    (i : String) (m : PatrolMemberRow) (p : PatrolRow)
    → not (m.patrol_id == i) ≡ true
    → Stays (λ q. q.id == i) m p
removed-Stays i m p k = elim (Bool-cases (p.id == m.patrol_id && p.event_id == m.event_id)) [
  | inr q ↦ inl q
  | inl q ↦ inr (rw ((eq_iff p.id m.patrol_id).0 (ground arith)) k)
]

remove_patrol-Fed : (i : String) (w : World) → Fed w.tables → Fed (remove_patrol i w).1
unfolding remove_patrol
remove_patrol-Fed i w h = elim (Bool-cases (any (λ p. p.id == i) w.patrols)) [
  | inr q ↦ rw q h
  | inl q ↦ rw q (
      without-Fed (λ p. p.id == i) (λ m. m.patrol_id == i) w.tables
        (λ m k. All-every (Stays (λ q. q.id == i) m) (λ p. removed-Stays i m p k) w.patrols) h)
]

pub disabled-Stays :
    (e : String) (m : PatrolMemberRow) (patrols : List PatrolRow)
    → not (any (λ p. p.id == m.patrol_id && p.event_id == e) patrols) ≡ true
    → All (Stays (λ q. q.event_id == e) m) patrols
disabled-Stays e m patrols h =
    All-map (λ p. (p.id == m.patrol_id && p.event_id == e) ≡ false) (Stays (λ q. q.event_id == e) m)
      (λ p k. elim (Bool-cases (p.event_id == e)) [
        | inr q ↦ inr (ground arith)
        | inl q ↦ inl (ground arith)
      ])
      patrols (any-false (λ p. p.id == m.patrol_id && p.event_id == e) patrols (ground arith))

pub disable_cooking-Fed : (e : String) → Keeps Fed (disable_cooking e)
unfolding disable_cooking
disable_cooking-Fed e = Keeps-statement _ (λ w h.
    without-Fed (λ p. p.event_id == e)
      (λ m. any (λ p. p.id == m.patrol_id && p.event_id == e) w.patrols) w.tables
      (λ m k. disabled-Stays e m w.patrols k) h)

write_member-Fed : (e i p : String) (w : World) → Fed w.tables → Fed (write_member e i p w).1
unfolding write_member
write_member-Fed e i p w h = elim (Bool-cases (any (λ q. q.id == i && q.event_id == e) w.patrols)) [
  | inr q ↦ rw q h
  | inl q ↦ rw q (
      upsert_member-Fed e p i (λ m. record m { patrol_id = i; is_cook = false }) (λ m. refl)
        (λ m. refl) (λ m. refl) w q h)
]

pub writers-Fed :
    (e i p : String) (w : World)
    → Fed w.tables
    → Fed (assign_cooking_patrol_member e i p w).1.tables
      × Fed (remove_cooking_patrol_member e p w).1.tables
      × Fed (delete_cooking_patrol i w).1.tables
      × Fed (clear_cooking_patrol_cook i w).1.tables
unfolding assign_cooking_patrol_member remove_cooking_patrol_member delete_cooking_patrol
    clear_cooking_patrol_cook statement write_member
writers-Fed e i p w h = elim (Bool-cases (w.fault w.count)) [
  | inl q ↦ rw q (h, h, h, h)
  | inr q ↦ rw q (
    write_member-Fed e i p w h,
    (
      AllPairs-where Apart (λ m. not (is_member_row e p m)) w.patrol_members h.0,
      All-where (λ m. patrol_exists w.patrols m ≡ true) (λ m. not (is_member_row e p m))
          w.patrol_members h.1,
    ),
    remove_patrol-Fed i w h,
    uncooked-Fed (λ m. m.patrol_id == i) w.tables h,
  )
]
