-- ===== src/Tenting/Soundness.antt =====
-- What an arrangement without violations looks like, described without the code's loops.
use scouting_app.Base.{
  ◌≤◌, String, ◌≡◌, refl, ◌↔◌, ◌⊎◌, ◌≢◌, inl, Bool, true, List, [], ◌∷◌, arith, eq_iff, length, All,
  AllPairs, All-map, AllPairs-map, AllPairs-zip, AllPairs-where, append-eq-nil, where_,
  if◌then◌else◌,
}
use scouting_app.Base.Int.{ℤ, pos, ◌-ℤ◌, ◌≤ℤ◌, ltb_ℤ, leb_ℤ}
use scouting_app.Text.{has_key}
use scouting_app.Calendar.{Time}
use scouting_app.Tenting.{
  ScoutPair, TentScout, is_sibling, normalize_pair, age_whole_years, genders, gender_violations,
  pair_violations, violations_with, age_violations, validate_arrangement, validate_tent,
  blocking_violations,
}

abbrev pub SameGender : TentScout → TentScout → Type 0
SameGender a b = a.gender ≡ b.gender

module _ (event_start : Time) (max_age_gap : ℤ) (siblings : List ScoutPair) where
  -- Two scouts are siblings, or neither is older than the other by more than the gap.
  abbrev pub WithinAgeGap : TentScout → TentScout → Type 0
  WithinAgeGap a b =
      let age_a = age_whole_years a.birthdate event_start in
      let age_b = age_whole_years b.birthdate event_start in
      (is_sibling siblings (normalize_pair a.id b.id) ≡ true)
      ⊎ (age_a -ℤ age_b ≤ℤ max_age_gap) × (age_b -ℤ age_a ≤ℤ max_age_gap)

  abbrev pub MayShare : TentScout → TentScout → Type 0
  MayShare a b = SameGender a b × WithinAgeGap a b

has_key-genders : (s : TentScout) (r : List TentScout) → has_key s.gender (genders (s ∷ r)) ≡ true
unfolding genders
has_key-genders s r = ground (arith, eq_iff s.gender s.gender)

genders_mono :
    (g : String) (s : TentScout) (r : List TentScout)
    → has_key g (genders r) ≡ true
    → has_key g (genders (s ∷ r)) ≡ true
unfolding genders
genders_mono g s r h = ground arith

All-has_key : (xs : List TentScout) → All (λ s. has_key s.gender (genders xs) ≡ true) xs
All-has_key [] = tt
All-has_key (s ∷ r) = (
  has_key-genders s r,
  All-map (λ t. has_key t.gender (genders r) ≡ true)
      (λ t. has_key t.gender (genders (s ∷ r)) ≡ true) (λ t. genders_mono t.gender s r) r
      (All-has_key r),
)

one_key :
    (keys : List String) (g h : String)
    → length keys ≤ 1
    → has_key g keys ≡ true
    → has_key h keys ≡ true
    → g ≡ h
unfolding has_key
one_key [] g h l p q = cc
one_key (k ∷ []) g h l p q = ground (arith, eq_iff k g, eq_iff k h)
one_key (k ∷ j ∷ keys) g h l p q = absurd (omega arith)

same_of_one :
    (keys : List String) (xs : List TentScout)
    → length keys ≤ 1
    → All (λ s. has_key s.gender keys ≡ true) xs
    → AllPairs SameGender xs
same_of_one keys [] l h = tt
same_of_one keys (x ∷ xs) l h = (
  All-map (λ s. has_key s.gender keys ≡ true) (SameGender x)
      (λ s k. one_key keys x.gender s.gender l h.0 k) xs h.1,
  same_of_one keys xs l h.1,
)

-- With one gender alone the map has that key or none.
genders_shape :
    (g : String) (xs : List TentScout)
    → All (λ s. g ≡ s.gender) xs
    → (genders xs ≡ []) ⊎ (genders xs ≡ g ∷ [])
unfolding genders
genders_shape g [] h = inl refl
genders_shape g (x ∷ xs) h = ground (arith, genders_shape g xs h.1, eq_iff g x.gender)

one_of_same : (xs : List TentScout) → AllPairs SameGender xs → length (genders xs) ≤ 1
unfolding genders
one_of_same [] h = omega arith
one_of_same (x ∷ xs) h = ground (arith, genders_shape x.gender (x ∷ xs) (refl, h.0))

gender_violations-nil : (xs : List TentScout) → (gender_violations xs ≡ []) ↔ AllPairs SameGender xs
unfolding gender_violations
gender_violations-nil xs = (
  λ h. same_of_one (genders xs) xs (ground arith) (All-has_key xs),
  λ h. ground (arith, one_of_same xs h),
)

distance_within :
    (a b m : ℤ)
    → let d = a -ℤ b in
      (leb_ℤ (if ltb_ℤ d (pos 0) then pos 0 -ℤ d else d) m ≡ true) ↔ ((a -ℤ b ≤ℤ m) × (b -ℤ a ≤ℤ m))
unfolding ◌-ℤ◌
distance_within a b m = (λ h. ground arith, λ h. ground arith)

module _ (event_start : Time) (max_age_gap : ℤ) (siblings : List ScoutPair) where
  pair_violations-nil :
      (a b : TentScout)
      → (pair_violations event_start max_age_gap siblings a b ≡ [])
        ↔ WithinAgeGap event_start max_age_gap siblings a b
  unfolding pair_violations
  pair_violations-nil a b =
      let within =
        distance_within (age_whole_years a.birthdate event_start)
          (age_whole_years b.birthdate event_start) max_age_gap in
      (λ h. ground (arith, within), λ h. ground (arith, within))

  violations_with-nil :
      (a : TentScout) (xs : List TentScout)
      → (violations_with event_start max_age_gap siblings a xs ≡ [])
        ↔ All (WithinAgeGap event_start max_age_gap siblings a) xs
  unfolding violations_with
  violations_with-nil a [] = (λ h. tt, λ h. refl)
  violations_with-nil a (b ∷ xs) =
      let split =
        append-eq-nil (pair_violations event_start max_age_gap siblings a b)
          (violations_with event_start max_age_gap siblings a xs) in
      (
        λ h.
            ((pair_violations-nil a b).0 (split.0 h).0, (violations_with-nil a xs).0 (split.0 h).1),
        λ h. split.1 ((pair_violations-nil a b).1 h.0, (violations_with-nil a xs).1 h.1),
      )

  age_violations-nil :
      (xs : List TentScout)
      → (age_violations event_start max_age_gap siblings xs ≡ [])
        ↔ AllPairs (WithinAgeGap event_start max_age_gap siblings) xs
  unfolding age_violations
  age_violations-nil [] = (λ h. tt, λ h. refl)
  age_violations-nil (a ∷ xs) =
      let split =
        append-eq-nil (violations_with event_start max_age_gap siblings a xs)
          (age_violations event_start max_age_gap siblings xs) in
      (
        λ h. ((violations_with-nil a xs).0 (split.0 h).0, (age_violations-nil xs).0 (split.0 h).1),
        λ h. split.1 ((violations_with-nil a xs).1 h.0, (age_violations-nil xs).1 h.1),
      )

  -- `blocking_violations` is empty exactly when every two scouts have the same gender, and are
  -- siblings or at most the gap apart in age.
  pub blocking_violations-nil :
      (scouts : List TentScout)
      → (blocking_violations scouts event_start max_age_gap siblings ≡ [])
        ↔ AllPairs (MayShare event_start max_age_gap siblings) scouts
  unfolding blocking_violations validate_arrangement
  blocking_violations-nil [] = (λ h. tt, λ h. refl)
  blocking_violations-nil (s ∷ []) = (λ h. (tt, tt), λ h. refl)
  blocking_violations-nil (s ∷ t ∷ r) =
      let xs = s ∷ t ∷ r in
      let split =
        append-eq-nil (gender_violations xs) (age_violations event_start max_age_gap siblings xs) in
      (
        λ h.
            AllPairs-zip SameGender (WithinAgeGap event_start max_age_gap siblings) xs
              ((gender_violations-nil xs).0 (split.0 h).0)
              ((age_violations-nil xs).0 (split.0 h).1),
        λ h. split.1 (
          (gender_violations-nil xs).1 (
              AllPairs-map (MayShare event_start max_age_gap siblings) SameGender (λ a b k. k.0) xs
                h),
          (age_violations-nil xs).1 (
              AllPairs-map (MayShare event_start max_age_gap siblings)
                (WithinAgeGap event_start max_age_gap siblings) (λ a b k. k.1) xs h),
        ),
      )

  -- `validate_tent` is empty exactly when moreover the tent does not hold a single scout.
  pub validate_tent-nil :
      (scouts : List TentScout)
      → (validate_tent scouts event_start max_age_gap siblings ≡ [])
        ↔ ((length scouts ≢ 1) × AllPairs (MayShare event_start max_age_gap siblings) scouts)
  unfolding validate_tent validate_arrangement
  validate_tent-nil [] = (λ h. (omega arith, tt), λ h. refl)
  validate_tent-nil (s ∷ []) = (λ h. absurd (cc h), λ h. absurd (h.0 refl))
  validate_tent-nil (s ∷ t ∷ r) =
      let same = blocking_violations-nil (s ∷ t ∷ r) in
      (
        λ h. (omega arith, same.0 (unfold blocking_violations in h)),
        λ h. unfold blocking_violations in same.1 h.1,
      )

  -- Whoever leaves a tent without blocking violations, those who stay have none.
  pub blocking_violations-where :
      (stays : TentScout → Bool) (scouts : List TentScout)
      → blocking_violations scouts event_start max_age_gap siblings ≡ []
      → blocking_violations (where_ stays scouts) event_start max_age_gap siblings ≡ []
  blocking_violations-where stays scouts h = (blocking_violations-nil (where_ stays scouts)).1 (
      AllPairs-where (MayShare event_start max_age_gap siblings) stays scouts
        ((blocking_violations-nil scouts).0 h))
