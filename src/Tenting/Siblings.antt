-- ===== src/Tenting/Siblings.antt =====
-- SiblingPairs holds the pairs of scouts with a common parent, whatever the order of a pair.
use scouting_app.Base.{
  String, ◌≡◌, ◌≢◌, refl, sym, ◌∙◌, ◌⊎◌, ◌↔◌, inl, inr, Bool, true, false, ◌&&◌, ◌||◌, List, [],
  ◌∷◌, ◌++◌, arith, ◌==◌, eq_iff, Bool-cases, if◌then◌else◌,
}
use scouting_app.Text.{has_key}
use scouting_app.Text.Ordering.{str_le_total, str_le_antisymm}
use scouting_app.Tenting.{
  ApprovedParentLink, ScoutPair, normalize_pair, pair_eq, is_sibling, append_youth, parent_to_youth,
  pairs_with, youth_pairs, group_pairs, sibling_pairs,
}

-- The pair is normalised, so a lookup does not depend on the order of the two.
pub normalize_pair_comm : (a b : String) → normalize_pair a b ≡ normalize_pair b a
unfolding normalize_pair
normalize_pair_comm a b = ground (arith, str_le_total a b, str_le_total b a, str_le_antisymm a b)

-- One of the links is from the parent to the youth.
pub linked : List ApprovedParentLink → String → String → Bool
linked [] parent youth = false
linked (l ∷ links) parent youth =
    (l.parent_profile_id == parent && l.youth_profile_id == youth) || linked links parent youth

pair_eq-normalize :
    (a b c d : String)
    → pair_eq (normalize_pair a b) (normalize_pair c d) ≡ ((a == c && b == d) || (a == d && b == c))
unfolding normalize_pair
pair_eq-normalize a b c d = ground (
  arith,
  eq_iff a c,
  eq_iff b d,
  eq_iff a d,
  eq_iff b c,
  str_le_antisymm a b,
  str_le_total a b,
  str_le_total c d,
)

is_sibling-append :
    (p : ScoutPair) (xs ys : List ScoutPair)
    → is_sibling (xs ++ ys) p ≡ (is_sibling xs p || is_sibling ys p)
unfolding is_sibling
is_sibling-append p [] ys = refl
is_sibling-append p (x ∷ xs) ys = ground (arith, is_sibling-append p xs ys)

pairs_with-lem :
    (a b y : String) (zs : List String)
    → is_sibling (pairs_with y zs) (normalize_pair a b)
      ≡ ((a == y && has_key b zs) || (b == y && has_key a zs))
unfolding is_sibling pairs_with has_key
pairs_with-lem a b y [] = ground arith
pairs_with-lem a b y (z ∷ zs) = ground (
  arith,
  pairs_with-lem a b y zs,
  pair_eq-normalize a b y z,
  eq_iff z b,
  eq_iff z a,
  eq_iff b z,
  eq_iff a z,
)

module _ (a b : String) (distinct : a ≢ b) where
  youth_pairs-lem :
      (ys : List String)
      → is_sibling (youth_pairs ys) (normalize_pair a b) ≡ (has_key a ys && has_key b ys)
  unfolding youth_pairs has_key
  youth_pairs-lem [] = unfold is_sibling in refl
  youth_pairs-lem (y ∷ ys) = ground (
    arith,
    is_sibling-append (normalize_pair a b) (pairs_with y ys) (youth_pairs ys),
    pairs_with-lem a b y ys,
    youth_pairs-lem ys,
    eq_iff a y,
    eq_iff y a,
    eq_iff b y,
    eq_iff y b,
    distinct,
  )

-- One group has both.
in_group : String → String → List (String × List String) → Bool
in_group a b [] = false
in_group a b ((p, ys) ∷ groups) = (has_key a ys && has_key b ys) || in_group a b groups

youths_of : String → List (String × List String) → List String
youths_of parent [] = []
youths_of parent ((p, ys) ∷ groups) =
    let rest = youths_of parent groups in if p == parent then ys else rest

has_key-snoc :
    (k y : String) (ys : List String) → has_key k (ys ++ y ∷ []) ≡ (has_key k ys || y == k)
unfolding has_key
has_key-snoc k y [] = ground arith
has_key-snoc k y (z ∷ ys) = ground (arith, has_key-snoc k y ys)

youths_of-append :
    (p y q k : String) (groups : List (String × List String))
    → has_key k (youths_of q (append_youth p y groups))
      ≡ (has_key k (youths_of q groups) || (p == q && y == k))
unfolding youths_of append_youth
youths_of-append p y q k [] = unfold has_key in ground arith
youths_of-append p y q k ((r, ys) ∷ groups) = ground (
  arith,
  youths_of-append p y q k groups,
  has_key-snoc k y ys,
  eq_iff r p,
  eq_iff r q,
  eq_iff p q,
)

youths_of-group :
    (links : List ApprovedParentLink) (q k : String) (groups : List (String × List String))
    → has_key k (youths_of q (parent_to_youth groups links))
      ≡ (has_key k (youths_of q groups) || linked links q k)
unfolding parent_to_youth linked
youths_of-group [] q k groups = ground arith
youths_of-group (l ∷ links) q k groups =
    let step = append_youth l.parent_profile_id l.youth_profile_id groups in
    ground (
      arith,
      youths_of-group links q k step,
      youths_of-append l.parent_profile_id l.youth_profile_id q k groups,
    )

in_group_of :
    (a b p : String) (groups : List (String × List String))
    → has_key a (youths_of p groups) ≡ true
    → has_key b (youths_of p groups) ≡ true
    → in_group a b groups ≡ true
unfolding youths_of in_group
in_group_of a b p [] h k = unfold has_key in cc
in_group_of a b p ((q, ys) ∷ groups) h k = ground (arith, in_group_of a b p groups)

module _ (a b : String) (distinct : a ≢ b) where
  group_pairs-lem :
      (groups : List (String × List String))
      → is_sibling (group_pairs groups) (normalize_pair a b) ≡ in_group a b groups
  unfolding group_pairs in_group
  group_pairs-lem [] = unfold is_sibling in refl
  group_pairs-lem ((p, ys) ∷ groups) = ground (
    arith,
    is_sibling-append (normalize_pair a b) (youth_pairs ys) (group_pairs groups),
    youth_pairs-lem a b distinct ys,
    group_pairs-lem groups,
  )

  in_group-append :
      (p y : String) (groups : List (String × List String))
      → in_group a b (append_youth p y groups) ≡ (
          in_group a b groups
          || ((y == a && has_key b (youths_of p groups))
              || (y == b && has_key a (youths_of p groups))))
  unfolding in_group append_youth youths_of
  in_group-append p y [] = unfold has_key in ground (arith, eq_iff y a, eq_iff y b, distinct)
  in_group-append p y ((q, ys) ∷ groups) = ground (
    arith,
    in_group-append p y groups,
    has_key-snoc a y ys,
    has_key-snoc b y ys,
    eq_iff y a,
    eq_iff y b,
    distinct,
  )

  abbrev Both : List (String × List String) → List ApprovedParentLink → String → Type 0
  Both groups links p =
      ((has_key a (youths_of p groups) || linked links p a) ≡ true)
      × ((has_key b (youths_of p groups) || linked links p b) ≡ true)

  grouped :
      (links : List ApprovedParentLink) (groups : List (String × List String))
      → in_group a b (parent_to_youth groups links) ≡ true
      → (in_group a b groups ≡ true) ⊎ ((p : String) × Both groups links p)
  unfolding parent_to_youth linked
  grouped [] groups h = inl h
  grouped (l ∷ links) groups h =
      let parent = l.parent_profile_id in
      let youth = l.youth_profile_id in
      elim (grouped links (append_youth parent youth groups) h) [
        | inl e ↦ elim (Bool-cases (in_group a b groups)) [
          | inl k ↦ inl k
          | inr k ↦
              let new = in_group-append parent youth groups in
              inr (
                parent,
                (
                  ground (arith, new, eq_iff parent parent),
                  ground (arith, new, eq_iff parent parent),
                ),
              )
        ]
        | inr (p, (u, v)) ↦ inr (
          p,
          (
            ground (arith, u, youths_of-append parent youth p a groups),
            ground (arith, v, youths_of-append parent youth p b groups),
          ),
        )
      ]

-- Two scouts are in the set of siblings exactly when some parent is linked to both.
pub sibling_pairs-lem :
    (links : List ApprovedParentLink) (a b : String)
    → a ≢ b
    → (is_sibling (sibling_pairs links) (normalize_pair a b) ≡ true)
      ↔ ((parent : String) × (linked links parent a ≡ true) × (linked links parent b ≡ true))
unfolding sibling_pairs
sibling_pairs-lem links a b distinct =
    let groups = parent_to_youth [] links in
    (
      λ h. elim (grouped a b distinct links [] (sym (group_pairs-lem a b distinct groups) ∙ h)) [
        | inl e ↦ absurd (unfold in_group in cc e)
        | inr (p, (u, v)) ↦ (p, unfold youths_of has_key in u, unfold youths_of has_key in v)
      ],
      λ (p, u, v).
          group_pairs-lem a b distinct groups
          ∙ in_group_of a b p groups (youths_of-group links p a [] ∙ unfold youths_of has_key in u)
              (youths_of-group links p b [] ∙ unfold youths_of has_key in v),
    )
