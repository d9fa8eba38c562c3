-- ===== src/Base/Lists.antt =====
-- Lists measured by native numbers, and the searches and updates by a Boolean test that the
-- queries on tables are made of.
use Prim.Native.Nat.{ℕ, suc, ◌+◌}
use mathlib.Core.Path.{◌≡◌, refl}
use mathlib.Core.Logic.{◌↔◌, ◌⊎◌, inl, inr}
use mathlib.Core.List.{List, [], ◌∷◌, ◌++◌}
use mathlib.Core.Bool.{Bool, true, false, ◌||◌}
use mathlib.Core.Option.{Option, none, some}
use native.Mathlib.Omega.{arith}
use scouting_app.Base.Tests.{Bool-cases, if◌then◌else◌}

module _ {ℓ} {A : Type ℓ} where
  abbrev pub length : List A → ℕ
  length [] = 0
  length (x ∷ xs) = suc (length xs)

  pub length-append : (xs ys : List A) → length (xs ++ ys) ≡ length xs + length ys
  length-append [] ys = omega arith
  length-append (x ∷ xs) ys = omega (arith, length-append xs ys)

  -- The rows that pass a test.
  abbrev pub where_ : (A → Bool) → List A → List A
  where_ p [] = []
  where_ p (x ∷ xs) = let rest = where_ p xs in if p x then x ∷ rest else rest

  -- The first row that passes a test.
  abbrev pub find : (A → Bool) → List A → Option A
  find p [] = none
  find p (x ∷ xs) = let rest = find p xs in if p x then some x else rest

  abbrev pub any : (A → Bool) → List A → Bool
  any p [] = false
  any p (x ∷ xs) = p x || any p xs

  -- The rows that pass a test are changed, the others stay.
  abbrev pub update_where : (A → Bool) → (A → A) → List A → List A
  update_where p f [] = []
  update_where p f (x ∷ xs) = (if p x then f x else x) ∷ update_where p f xs

  abbrev pub All {κ} : (A → Type κ) → List A → Type κ
  All P [] = Unit
  All P (x ∷ xs) = P x × All P xs

  -- A relation holds of each entry and every later one.
  abbrev pub AllPairs {κ} : (A → A → Type κ) → List A → Type κ
  AllPairs R [] = Unit
  AllPairs R (x ∷ xs) = All (R x) xs × AllPairs R xs

module _ {ℓ} {A : Type ℓ} where
  -- ORDER BY, with the comparison "not after": an insertion sort.
  unfoldable pub insert_by : (A → A → Bool) → A → List A → List A
  insert_by le x [] = x ∷ []
  insert_by le x (y ∷ ys) = let rest = insert_by le x ys in if le x y then x ∷ y ∷ ys else y ∷ rest

  unfoldable pub order_by : (A → A → Bool) → List A → List A
  unfolding insert_by
  order_by le [] = []
  order_by le (x ∷ xs) = insert_by le x (order_by le xs)

module _ {ℓ} {A : Type ℓ} where
  pub All-map {κ μ} :
      (P : A → Type κ) (Q : A → Type μ)
      → ((x : A) → P x → Q x)
      → (xs : List A) → All P xs
      → All Q xs
  All-map P Q f [] h = tt
  All-map P Q f (x ∷ xs) h = (f x h.0, All-map P Q f xs h.1)

  pub All-zip {κ μ} :
      (P : A → Type κ) (Q : A → Type μ) (xs : List A)
      → All P xs
      → All Q xs
      → All (λ x. P x × Q x) xs
  All-zip P Q [] h k = tt
  All-zip P Q (x ∷ xs) h k = ((h.0, k.0), All-zip P Q xs h.1 k.1)

  pub All-where {κ} : (P : A → Type κ) (p : A → Bool) (xs : List A) → All P xs → All P (where_ p xs)
  All-where P p [] h = tt
  All-where P p (x ∷ xs) h = elim (Bool-cases (p x)) [
    | inl e ↦ rw e (h.0, All-where P p xs h.1)
    | inr e ↦ rw e (All-where P p xs h.1)
  ]

  pub AllPairs-where {κ} :
      (R : A → A → Type κ) (p : A → Bool) (xs : List A) → AllPairs R xs → AllPairs R (where_ p xs)
  AllPairs-where R p [] h = tt
  AllPairs-where R p (x ∷ xs) h = elim (Bool-cases (p x)) [
    | inl e ↦ rw e (All-where (R x) p xs h.0, AllPairs-where R p xs h.1)
    | inr e ↦ rw e (AllPairs-where R p xs h.1)
  ]

  pub AllPairs-map {κ μ} :
      (R : A → A → Type κ) (S : A → A → Type μ)
      → ((x y : A) → R x y → S x y)
      → (xs : List A) → AllPairs R xs
      → AllPairs S xs
  AllPairs-map R S f [] h = tt
  AllPairs-map R S f (x ∷ xs) h = (All-map (R x) (S x) (f x) xs h.0, AllPairs-map R S f xs h.1)

  pub AllPairs-zip {κ μ} :
      (R : A → A → Type κ) (S : A → A → Type μ) (xs : List A)
      → AllPairs R xs
      → AllPairs S xs
      → AllPairs (λ x y. R x y × S x y) xs
  AllPairs-zip R S [] h k = tt
  AllPairs-zip R S (x ∷ xs) h k = (All-zip (R x) (S x) xs h.0 k.0, AllPairs-zip R S xs h.1 k.1)

  pub append-eq-nil : (xs ys : List A) → (xs ++ ys ≡ []) ↔ ((xs ≡ []) × (ys ≡ []))
  append-eq-nil [] ys = (λ h. (refl, h), λ h. h.1)
  append-eq-nil (x ∷ xs) ys = (λ h. cc, λ h. cc)

  pub All-append {κ} : (P : A → Type κ) (xs ys : List A) → All P xs → All P ys → All P (xs ++ ys)
  All-append P [] ys h k = k
  All-append P (x ∷ xs) ys h k = (h.0, All-append P xs ys h.1 k)

  pub AllPairs-append {κ} :
      (R : A → A → Type κ) (xs : List A) (x : A)
      → All (λ y. R y x) xs
      → AllPairs R xs
      → AllPairs R (xs ++ x ∷ [])
  AllPairs-append R [] x h k = (tt, tt)
  AllPairs-append R (y ∷ xs) x h k =
      (All-append (R y) xs (x ∷ []) k.0 (h.0, tt), AllPairs-append R xs x h.1 k.1)

  -- What passes the test has more of a property.
  pub All-passing {κ μ} :
      (P : A → Type κ) (Q : A → Type μ) (p : A → Bool)
      → ((x : A) → p x ≡ true → P x → Q x)
      → (xs : List A) → All P xs
      → All Q (where_ p xs)
  All-passing P Q p f [] h = tt
  All-passing P Q p f (x ∷ xs) h = elim (Bool-cases (p x)) [
    | inl e ↦ rw e (f x e h.0, All-passing P Q p f xs h.1)
    | inr e ↦ rw e (All-passing P Q p f xs h.1)
  ]

  pub any-append : (p : A → Bool) (xs ys : List A) → any p xs ≡ true → any p (xs ++ ys) ≡ true
  any-append p [] ys h = cc
  any-append p (x ∷ xs) ys h = elim (Bool-cases (p x)) [
    | inl e ↦ rw e refl
    | inr e ↦ rw e (any-append p xs ys (rw e at h))
  ]

  pub any-where :
      (p q : A → Bool)
      → ((x : A) → p x ≡ true → q x ≡ true)
      → (xs : List A) → any p xs ≡ true
      → any p (where_ q xs) ≡ true
  any-where p q f [] h = h
  any-where p q f (x ∷ xs) h = elim (Bool-cases (p x)) [
    | inl e ↦ rw (f x e) (rw e refl)
    | inr e ↦ elim (Bool-cases (q x)) [
      | inl u ↦ rw u (rw e (any-where p q f xs (rw e at h)))
      | inr u ↦ rw u (any-where p q f xs (rw e at h))
    ]
  ]

  pub AllPairs-both {κ μ} :
      (P : A → Type κ) (R : A → A → Type μ) (xs : List A)
      → All P xs
      → AllPairs R xs
      → AllPairs (λ x y. P x × P y × R x y) xs
  AllPairs-both P R [] h k = tt
  AllPairs-both P R (x ∷ xs) h k = (
    All-map (λ y. P y × R x y) (λ y. P x × P y × R x y) (λ y z. (h.0, z.0, z.1)) xs
        (All-zip P (R x) xs h.1 k.0),
    AllPairs-both P R xs h.1 k.1,
  )

  pub any-false : (p : A → Bool) (xs : List A) → any p xs ≡ false → All (λ x. p x ≡ false) xs
  any-false p [] h = tt
  any-false p (x ∷ xs) h = elim (Bool-cases (p x)) [
    | inl e ↦ ground arith
    | inr e ↦ (e, any-false p xs (rw e at h))
  ]

  pub All-every {κ} : (P : A → Type κ) → ((x : A) → P x) → (xs : List A) → All P xs
  All-every P f [] = tt
  All-every P f (x ∷ xs) = (f x, All-every P f xs)

  pub find-passes : (p : A → Bool) (xs : List A) (x : A) → find p xs ≡ some x → p x ≡ true
  find-passes p [] x h = ground arith
  find-passes p (y ∷ xs) x h = elim (Bool-cases (p y)) [
    | inl e ↦ ground arith
    | inr e ↦ find-passes p xs x (rw e at h)
  ]

  pub find-any :
      (p q : A → Bool) (xs : List A) (x : A) → find p xs ≡ some x → q x ≡ true → any q xs ≡ true
  find-any p q [] x h k = ground arith
  find-any p q (y ∷ xs) x h k = elim (Bool-cases (p y)) [
    | inl e ↦ ground arith
    | inr e ↦ elim (Bool-cases (q y)) [
      | inl u ↦ rw u refl
      | inr u ↦ rw u (find-any p q xs x (rw e at h) k)
    ]
  ]

  -- Where each entry fails the one test or passes the other.
  pub any-where_passing :
      (p q : A → Bool) (xs : List A)
      → All (λ x. (p x ≡ false) ⊎ (q x ≡ true)) xs
      → any p xs ≡ true
      → any p (where_ q xs) ≡ true
  any-where_passing p q [] f h = h
  any-where_passing p q (x ∷ xs) (inl e, f) h = elim (Bool-cases (q x)) [
    | inl u ↦ rw u (rw e (any-where_passing p q xs f (rw e at h)))
    | inr u ↦ rw u (any-where_passing p q xs f (rw e at h))
  ]
  any-where_passing p q (x ∷ xs) (inr u, f) h = elim (Bool-cases (p x)) [
    | inl e ↦ rw u (rw e refl)
    | inr e ↦ rw u (rw e (any-where_passing p q xs f (rw e at h)))
  ]

  pub any-last : (p : A → Bool) (xs : List A) (x : A) → p x ≡ true → any p (xs ++ x ∷ []) ≡ true
  any-last p [] x h = rw h refl
  any-last p (y ∷ xs) x h = elim (Bool-cases (p y)) [
    | inl e ↦ rw e refl
    | inr e ↦ rw e (any-last p xs x h)
  ]

  pub any_mono :
      (p q : A → Bool)
      → ((x : A) → p x ≡ true → q x ≡ true)
      → (xs : List A) → any p xs ≡ true
      → any q xs ≡ true
  any_mono p q f [] h = h
  any_mono p q f (x ∷ xs) h = elim (Bool-cases (p x)) [
    | inl e ↦ rw (f x e) refl
    | inr e ↦ elim (Bool-cases (q x)) [
      | inl u ↦ rw u refl
      | inr u ↦ rw u (any_mono p q f xs (rw e at h))
    ]
  ]

  insert_by-All {κ} :
      (P : A → Type κ) (le : A → A → Bool) (x : A) (xs : List A)
      → P x
      → All P xs
      → All P (insert_by le x xs)
  unfolding insert_by
  insert_by-All P le x [] h k = (h, tt)
  insert_by-All P le x (y ∷ ys) h k = elim (Bool-cases (le x y)) [
    | inl e ↦ rw e (h, k)
    | inr e ↦ rw e (k.0, insert_by-All P le x ys h k.1)
  ]

  -- What holds of the rows holds of them in another order.
  pub order_by-All {κ} :
      (P : A → Type κ) (le : A → A → Bool) (xs : List A) → All P xs → All P (order_by le xs)
  unfolding order_by
  order_by-All P le [] h = tt
  order_by-All P le (x ∷ xs) h =
      insert_by-All P le x (order_by le xs) h.0 (order_by-All P le xs h.1)

  pub any_self :
      (r : A → A → Bool)
      → ((x : A) → r x x ≡ true)
      → (xs : List A) → All (λ x. any (r x) xs ≡ true) xs
  any_self r f [] = tt
  any_self r f (x ∷ xs) = (
    rw (f x) refl,
    All-map (λ y. any (r y) xs ≡ true) (λ y. (r y x || any (r y) xs) ≡ true) (λ y h. ground arith)
        xs (any_self r f xs),
  )

  pub any_mono_each :
      (p q : A → Bool) (xs : List A)
      → All (λ x. p x ≡ true → q x ≡ true) xs
      → any p xs ≡ true
      → any q xs ≡ true
  any_mono_each p q [] f h = h
  any_mono_each p q (x ∷ xs) f h = elim (Bool-cases (p x)) [
    | inl e ↦ rw (f.0 e) refl
    | inr e ↦ elim (Bool-cases (q x)) [
      | inl u ↦ rw u refl
      | inr u ↦ rw u (any_mono_each p q xs f.1 (rw e at h))
    ]
  ]

  pub none_passes : (p : A → Bool) (xs : List A) → All (λ x. p x ≡ false) xs → any p xs ≡ false
  none_passes p [] h = refl
  none_passes p (x ∷ xs) h = rw h.0 (none_passes p xs h.1)
