-- ===== src/Sync/Roster.antt =====
-- The members that a sync visits: deduplicateMembers of internal/domain/sync/service.go.
use mathlib.Core.Path.{subst}
use scouting_app.Base.{
  String, ◌≡◌, refl, sym, ap, ◌∙◌, Bool, true, false, List, [], ◌∷◌, ◌++◌, Option, none, some, ◌==◌,
  eq_iff, inl, inr, Bool-cases, Option-cases, arith, if◌then◌else◌,
}
use scouting_app.Sync.{Member, find_member, put_member, put_adults, put_youths, deduplicate}

-- What a roster says of an id: the last adult with it, or else the first youth.
pub last_member : Option Member → String → List Member → Option Member
last_member found id [] = found
last_member found id (m ∷ members) =
    last_member (if m.member_id == id then some m else found) id members

abbrev pub or_else : Option Member → Option Member → Option Member
or_else none other = other
or_else (some m) other = some m

or_else-none : (o : Option Member) → or_else o none ≡ o
or_else-none none = refl
or_else-none (some m) = refl

or_else-if :
    (o : Option Member) (m : Member) (b : Bool) (rest : Option Member)
    → or_else (or_else o (if b then some m else none)) rest ≡ or_else o (if b then some m else rest)
or_else-if (some n) m b rest = refl
or_else-if none m true rest = refl
or_else-if none m false rest = refl

or_else-known :
    (o : Option Member) (m n : Member) (b : Bool) (rest : Option Member)
    → (b ≡ true → o ≡ some n)
    → or_else o rest ≡ or_else o (if b then some m else rest)
or_else-known o m n true rest h = rw (h refl) refl
or_else-known o m n false rest h = refl

module _ (id : String) where
  find_member-append :
      (seen : List Member) (m : Member)
      → find_member id (seen ++ m ∷ [])
        ≡ or_else (find_member id seen) (if m.member_id == id then some m else none)
  unfolding find_member
  find_member-append [] m = refl
  find_member-append (n ∷ seen) m = elim (Bool-cases (n.member_id == id)) [
    | inl q ↦ rw q refl
    | inr q ↦ rw q (find_member-append seen m)
  ]

  find_member-put_member :
      (m : Member) (seen : List Member)
      → find_member id (put_member m seen)
        ≡ (if m.member_id == id then some m else find_member id seen)
  unfolding find_member put_member
  find_member-put_member m [] = refl
  find_member-put_member m (n ∷ seen) = elim (Bool-cases (n.member_id == m.member_id)) [
    | inl q ↦ elim (Bool-cases (m.member_id == id)) [
      | inl u ↦ rw q (rw u refl)
      | inr u ↦ rw q (rw ((eq_iff n.member_id m.member_id).0 q) (rw u refl))
    ]
    | inr q ↦ elim (Bool-cases (n.member_id == id)) [
      | inl u ↦ rw q (
          rw u (elim (Bool-cases (m.member_id == id)) [
            | inl v ↦ absurd (
                ground (
                  arith,
                  (eq_iff n.member_id m.member_id).1
                      ((eq_iff n.member_id id).0 u ∙ sym ((eq_iff m.member_id id).0 v)),
                ))
            | inr v ↦ rw v refl
          ]))
      | inr u ↦ rw q (rw u (find_member-put_member m seen))
    ]
  ]

  find_member-put_adults :
      (seen adults : List Member)
      → find_member id (put_adults seen adults) ≡ last_member (find_member id seen) id adults
  unfolding put_adults last_member
  find_member-put_adults seen [] = refl
  find_member-put_adults seen (m ∷ adults) =
      find_member-put_adults (put_member m seen) adults
      ∙ ap (λ o. last_member o id adults) (find_member-put_member m seen)

  find_member-put_youths :
      (seen youths : List Member)
      → find_member id (put_youths seen youths)
        ≡ or_else (find_member id seen) (find_member id youths)
  unfolding put_youths find_member
  find_member-put_youths seen [] = sym (or_else-none (find_member id seen))
  find_member-put_youths seen (m ∷ youths) = elim (Option-cases (find_member m.member_id seen)) [
    | inl q ↦ rw q (
        find_member-put_youths (seen ++ m ∷ []) youths
        ∙ ap (λ o. or_else o (find_member id youths)) (find_member-append seen m)
        ∙ or_else-if (find_member id seen) m (m.member_id == id) (find_member id youths))
    | inr (n, q) ↦ rw q (
        find_member-put_youths seen youths
        ∙ or_else-known (find_member id seen) m n (m.member_id == id) (find_member id youths)
            (λ h. subst (λ x. find_member x seen ≡ some n) ((eq_iff m.member_id id).0 h) q))
  ]

  -- The members that a sync visits have, for each id, the adult roster's last member with that id,
  -- or, where no adult has it, the youth roster's first.
  pub find_member-deduplicate :
      (adults youths : List Member)
      → find_member id (deduplicate adults youths)
        ≡ or_else (last_member none id adults) (find_member id youths)
  unfolding deduplicate
  find_member-deduplicate adults youths =
      find_member-put_youths (put_adults [] adults) youths
      ∙ ap (λ o. or_else o (find_member id youths))
          (find_member-put_adults [] adults ∙ unfold find_member in refl)
