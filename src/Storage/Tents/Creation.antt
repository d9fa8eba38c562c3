-- ===== src/Storage/Tents/Creation.antt =====
-- A new tent: CreateTent of internal/storage/postgres/event_repository.go.
use scouting_app.Base.{
  ◌+◌, ◌^◌, ◌<◌, String, ◌≡◌, refl, sym, ap, ◌∙◌, Bool, false, not, ◌&&◌, ◌||◌, List, [], ◌∷◌, ◌++◌,
  ◌==◌, inl, inr, Bool-cases, All, AllPairs, AllPairs-append, any, arith,
}
use mathlib.Core.Path.{subst}
use scouting_app.Text.{has_key}
use scouting_app.Naming.{tent_next_name, tent_number, next_number, highest_number}
use scouting_app.Naming.Fresh.{tent_next_name-fresh}
use scouting_app.Event.{TentRow, Tent}
use scouting_app.Db.{World, Tables, Error, ok, err}
use scouting_app.Db.Keeps.{
  Keeps, Keeps-transaction, Keeps-bind, Keeps-query, Keeps-new_uuid, Keeps-statement, Keeps-pure,
  transaction_atomic,
}
use scouting_app.Db.Ensures.{
  Ensures, Ensures-transaction, Ensures-bind, Ensures-query, Ensures-new_uuid, Ensures-statement,
  Ensures-pure, result-Ensures,
}
use scouting_app.Db.Runs.{ok-injective, Result-cases}
use scouting_app.Storage.Tents.{insert_tent, tent_names, create_tent}
use scouting_app.Storage.Tents.Invariants.{Housed, insert_tent-Housed}

pub create_tent-Housed : (e : String) → Keeps Housed (create_tent e)
unfolding create_tent
create_tent-Housed e = Keeps-transaction _ (
    Keeps-bind _ _ (Keeps-query _) (λ names. Keeps-bind _ _ Keeps-new_uuid (λ id.
      Keeps-bind _ _ (Keeps-statement _ (λ w h. insert_tent-Housed _ w h)) (λ row. Keeps-pure _))))

insert_tent-ok :
    (t : TentRow) (w : World) (a : TentRow)
    → (insert_tent t w).0 ≡ ok a
    → (t ≡ a) × ((insert_tent t w).1.tents ≡ w.tents ++ t ∷ [])
unfolding insert_tent
insert_tent-ok t w a h =
    elim (Bool-cases
      (any (λ u. u.id == t.id) w.tents || not (any (λ e. e.id == t.event_id) w.events))) [
        | inl q ↦ ground arith
        | inr q ↦ (ground arith, rw q refl)
      ]

abbrev pub row_of : Tent → TentRow
row_of t = record { id = t.id; event_id = t.event_id; name = t.name; created_at = t.created_at }

abbrev pub fresh_tent_name : String → List TentRow → String
fresh_tent_name e tents = tent_next_name (next_number tent_number (tent_names e tents))

-- From the tables with these tents, the tent is made and its row stands at the end.
abbrev pub Created : String → List TentRow → Tent → Tables → Type 0
Created e tents t after =
    (t.name ≡ fresh_tent_name e tents)
    × (t.event_id ≡ e)
    × (t.members ≡ [])
    × (after.tents ≡ tents ++ row_of t ∷ [])

create_tent-Ensures :
    (e : String) (tents : List TentRow)
    → Ensures (λ t. t.tents ≡ tents) (create_tent e) (Created e tents)
unfolding create_tent
create_tent-Ensures e tents = Ensures-transaction _ (
    Ensures-bind (λ names t. (names ≡ tent_names e tents) × (t.tents ≡ tents)) _ _
      (Ensures-query _ (λ w names h q. (sym (ok-injective _ _ q) ∙ ap (tent_names e) h, h)))
      (λ names.
        Ensures-bind (λ id t. (names ≡ tent_names e tents) × (t.tents ≡ tents)) _ _ Ensures-new_uuid
          (λ id.
            Ensures-bind
              (λ row t.
                (row.name ≡ fresh_tent_name e tents)
                × (row.event_id ≡ e)
                × (t.tents ≡ tents ++ row ∷ []))
              _ _
              (Ensures-statement _ (λ w row h r.
                let (it, there) = insert_tent-ok _ w row r in
                (
                  ap (λ x. x.name) (sym it)
                      ∙ ap (λ ns. tent_next_name (next_number tent_number ns)) h.0,
                  ap (λ x. x.event_id) (sym it),
                  there ∙ ap (λ x. w.tents ++ x ∷ []) it ∙ ap (λ ts. ts ++ row ∷ []) h.1,
                )))
              (λ row. Ensures-pure _ (λ t h. (h.0, h.1, refl, h.2))))))

abbrev pub same_name : TentRow → TentRow → Bool
same_name t u = t.event_id == u.event_id && t.name == u.name

-- The tents of an event have different names.
abbrev pub DistinctNames : Tables → Type 0
DistinctNames t = AllPairs (λ a b. same_name a b ≡ false) t.tents

unnamed :
    (e : String) (n : TentRow) (tents : List TentRow)
    → n.event_id ≡ e
    → has_key n.name (tent_names e tents) ≡ false
    → All (λ t. same_name t n ≡ false) tents
unfolding tent_names has_key
unnamed e n [] h k = tt
unnamed e n (t ∷ tents) h k = elim (Bool-cases (t.event_id == e)) [
  | inl q ↦ (rw h (ground arith), unnamed e n tents h (ground arith))
  | inr q ↦ (rw h (ground arith), unnamed e n tents h (rw q at k))
]

-- CreateTent that returns a tent has added one row at the end, of that event, without members,
-- with a name that no tent of the event had, provided that the numbers in the names are below 2^63
-- - 1.
pub create_tent-adds :
    (e : String) (w : World) (t : Tent)
    → highest_number tent_number 0 (tent_names e w.tents) + 1 < 2 ^ 63
    → (create_tent e w).0 ≡ ok t
    → Created e w.tents t (create_tent e w).1.tables
      × (has_key t.name (tent_names e w.tents) ≡ false)
create_tent-adds e w t small h =
    let created = result-Ensures (create_tent e) w t (create_tent-Ensures e w.tents) refl h in
    (created, rw created.0 (tent_next_name-fresh (tent_names e w.tents) small))

create_tent-atomic :
    (e : String) (w : World) (x : Error)
    → (create_tent e w).0 ≡ err x
    → (create_tent e w).1.tables ≡ w.tables
unfolding create_tent
create_tent-atomic e w x h = transaction_atomic _ w x h

-- Whatever CreateTent returns, the tents of each event still have different names afterwards,
-- provided that the numbers in the event's names are below 2^63 - 1.
pub create_tent-DistinctNames :
    (e : String) (w : World)
    → highest_number tent_number 0 (tent_names e w.tents) + 1 < 2 ^ 63
    → DistinctNames w.tables
    → DistinctNames (create_tent e w).1.tables
create_tent-DistinctNames e w small distinct = elim (Result-cases (create_tent e w).0) [
  | inr (x, h) ↦ subst DistinctNames (sym (create_tent-atomic e w x h)) distinct
  | inl (t, h) ↦
      let (created, fresh) = create_tent-adds e w t small h in
      subst (AllPairs (λ a b. same_name a b ≡ false)) (sym created.3) (
        AllPairs-append (λ a b. same_name a b ≡ false) w.tents (row_of t)
          (unnamed e (row_of t) w.tents created.1 fresh) distinct)
]
