-- ===== src/Naming/Fresh.antt =====
-- A new name reads back as its number, and no tent or patrol of the event has it yet.
use scouting_app.Base.{
  ℕ, ◌+◌, ◌^◌, ◌≤◌, ◌<◌, String, ◌≡◌, ap, ◌∙◌, inl, inr, true, false, List, [], ◌∷◌, Option, some,
  arith, eq_iff, Bool-cases, ◌==◌,
}
use scouting_app.Base.Int.{ℤ, pos}
use scouting_app.Text.{has_key, after_prefix-append}
use scouting_app.Text.Decimal.{itoa, atoi-itoa, wrap_int}
use scouting_app.Naming.{
  tent_name_prefix, cooking_patrol_youth_name_prefix, tent_next_name, tent_number,
  cooking_patrol_next_name, cooking_patrol_number, highest_number, next_number, number_after,
  higher,
}

-- The number of a tent's name is the one that it was made from, if it is below 2^63.
pub tent_number-tent_next_name :
    (n : ℕ) → n < 2 ^ 63 → tent_number (tent_next_name (pos n)) ≡ some (pos n)
unfolding tent_number tent_next_name
tent_number-tent_next_name n h =
    ap number_after (after_prefix-append tent_name_prefix (itoa (pos n))) ∙ atoi-itoa n h

-- The number of a youth patrol's name is the one that it was made from, if it is below 2^63.
pub cooking_patrol_number-cooking_patrol_next_name :
    (n : ℕ) → n < 2 ^ 63 → cooking_patrol_number (cooking_patrol_next_name (pos n)) ≡ some (pos n)
unfolding cooking_patrol_number cooking_patrol_next_name
cooking_patrol_number-cooking_patrol_next_name n h =
    ap number_after (after_prefix-append cooking_patrol_youth_name_prefix (itoa (pos n)))
    ∙ atoi-itoa n h

higher-le : (h : ℕ) (o : Option ℤ) → h ≤ higher h o
higher-le h o = ground arith

highest_number-le :
    (number : String → Option ℤ) (h : ℕ) (names : List String) → h ≤ highest_number number h names
unfolding highest_number
highest_number-le number h [] = omega arith
highest_number-le number h (x ∷ names) =
    omega (arith, highest_number-le number (higher h (number x)) names, higher-le h (number x))

known-le :
    (number : String → Option ℤ) (h : ℕ) (names : List String) (name : String) (k : ℕ)
    → has_key name names ≡ true
    → number name ≡ some (pos k)
    → k ≤ highest_number number h names
unfolding highest_number
known-le number h [] name k m e = unfold has_key in cc
known-le number h (x ∷ names) name k m e = elim (Bool-cases (x == name)) [
  | inl q ↦
      let lower : k ≤ higher h (number x) = rw ((eq_iff x name).0 q, e) (ground arith) in
      omega (arith, lower, highest_number-le number (higher h (number x)) names)
  | inr q ↦ known-le number (higher h (number x)) names name k (unfold has_key in ground arith) e
]

wrap_int-small : (n : ℕ) → n < 2 ^ 63 → wrap_int n ≡ pos n
wrap_int-small n h = ground arith

module _ (number : String → Option ℤ) (next_name : ℤ → String)
    (read_back : (n : ℕ) → n < 2 ^ 63 → number (next_name (pos n)) ≡ some (pos n)) where
  fresh_name :
      (names : List String)
      → highest_number number 0 names + 1 < 2 ^ 63
      → has_key (next_name (next_number number names)) names ≡ false
  fresh_name names h =
      let n : ℕ = highest_number number 0 names + 1 in
      rw (wrap_int-small n h) (elim (Bool-cases (has_key (next_name (pos n)) names)) [
        | inl taken ↦
            absurd
              (omega (arith, known-le number 0 names (next_name (pos n)) n taken (read_back n h)))
        | inr free ↦ free
      ])

-- The name of a new tent differs from those of the event's tents, provided that the highest number
-- among them is below 2^63 - 1.
pub tent_next_name-fresh :
    (names : List String)
    → highest_number tent_number 0 names + 1 < 2 ^ 63
    → has_key (tent_next_name (next_number tent_number names)) names ≡ false
tent_next_name-fresh = fresh_name tent_number tent_next_name tent_number-tent_next_name

-- The name of a new youth patrol differs from those of the event's youth patrols, provided that
-- the highest number among them is below 2^63 - 1.
pub cooking_patrol_next_name-fresh :
    (names : List String)
    → highest_number cooking_patrol_number 0 names + 1 < 2 ^ 63
    → has_key (cooking_patrol_next_name (next_number cooking_patrol_number names)) names ≡ false
cooking_patrol_next_name-fresh =
    fresh_name cooking_patrol_number cooking_patrol_next_name
      cooking_patrol_number-cooking_patrol_next_name
