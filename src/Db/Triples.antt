-- ===== src/Db/Triples.antt =====
-- What holds of the result, a value or an error, and of the world after an action, given what held
-- before: one rule for each way to build one. The world has the clock too.
use mathlib.Core.Path.{subst}
use scouting_app.Base.{
  ℕ, suc, String, ◌≡◌, refl, sym, Bool, true, false, inl, inr, Bool-cases, if◌then◌else◌,
}
use scouting_app.Db.Errors.{Reads}
use scouting_app.Db.{
  Tables, World, Error, Result, ok, err, Db, pure, fail, attempt, statement, query, continue,
  time_now, new_uuid, ◌>>=◌, tick, driver_error,
}

pub record Triple {A : Type 0} (P : World → Type 0) (m : Db A) (Q : Result A → World → Type 0)
    : Type 0 where
  pub at : (w : World) → P w → Q (m w).0 (m w).1

-- A value is returned, and `Q` holds of it.
abbrev pub Returns : {A : Type 0} → (A → World → Type 0) → Result A → World → Type 0
Returns Q (ok a) w = Q a w
Returns Q (err e) w = ⊥

-- `R` of a value, `E` after an error.
abbrev pub Either :
    {A : Type 0} → (A → World → Type 0) → (World → Type 0) → Result A → World → Type 0
Either R E (ok a) w = R a w
Either R E (err e) w = E w

module _ {A : Type 0} {P : World → Type 0} {Q : Result A → World → Type 0} where
  pub Triple-pure : (a : A) → ((w : World) → P w → Q (ok a) w) → Triple P (pure a) Q
  unfolding pure
  Triple-pure a k = record { at = λ w h. k w h }

  pub Triple-fail : (e : Error) → ((w : World) → P w → Q (err e) w) → Triple P (fail e) Q
  unfolding fail
  Triple-fail e k = record { at = λ w h. k w h }

  pub Triple-query :
      (f : World → Result A)
      → ((w : World) → P w → Q (f w) (tick w))
      → ((w : World) → P w → Q (err driver_error) (tick w))
      → Triple P (query f) Q
  unfolding query
  Triple-query f k l = record {
    at = λ w h. elim (Bool-cases (w.fault w.count)) [ inl q ↦ rw q (l w h) | inr q ↦ rw q (k w h) ];
  }

  pub Triple-statement :
      (f : World → Result A × Tables)
      → ((w : World) → P w → Q (f w).0 (record (tick w) { tables = (f w).1 }))
      → ((w : World) → P w → Q (err driver_error) (tick w))
      → Triple P (statement f) Q
  unfolding statement
  Triple-statement f k l = record {
    at = λ w h. elim (Bool-cases (w.fault w.count)) [ inl q ↦ rw q (l w h) | inr q ↦ rw q (k w h) ];
  }

  pub Triple-if :
      (b : Bool) (m n : Db A)
      → (b ≡ true → Triple P m Q)
      → (b ≡ false → Triple P n Q)
      → Triple P (if b then m else n) Q
  Triple-if true m n k l = k refl
  Triple-if false m n k l = l refl

  pub Triple-before :
      (R : World → Type 0) (m : Db A) → ((w : World) → P w → R w) → Triple R m Q → Triple P m Q
  Triple-before R m f k = record { at = λ w h. k.at w (f w h) }

  -- A fact that does not speak of the world is a hypothesis.
  pub Triple-given : {C : Type 0} (m : Db A) → (C → Triple P m Q) → Triple (λ w. P w × C) m Q
  Triple-given m k = record { at = λ w h. (k h.1).at w h.0 }

pub Triple-attempt :
    {A : Type 0} {P : World → Type 0} {Q : Result (Result A) → World → Type 0} (m : Db A)
    → Triple P m (λ r. Q (ok r))
    → Triple P (attempt m) Q
unfolding attempt
Triple-attempt m k = record { at = λ w h. k.at w h }

-- What holds after any result holds after either kind.
pub Triple-Either :
    {A : Type 0} {P S : World → Type 0} (m : Db A)
    → Triple P m (λ r. S)
    → Triple P m (Either (λ a. S) S)
Triple-Either {A} {P} {S} m k = record { at = λ w h. extended (m w).0 (m w).1 (k.at w h) }
  where
    extended : (r : Result A) (w : World) → S w → Either (λ a. S) S r w
    extended (ok a) w h = h
    extended (err e) w h = h

module _ {A B : Type 0} {Q : Result B → World → Type 0} where
  continue-Triple :
      (R : A → World → Type 0) (r : Result A) (f : A → Db B) (w : World)
      → ((a : A) → Triple (R a) (f a) Q)
      → ((e : Error) → Either R (Q (err e)) r w)
      → Q (continue r f w).0 (continue r f w).1
  continue-Triple R (ok a) f w k h = (k a).at w (h driver_error)
  continue-Triple R (err e) f w k h = h e

module _ {A B : Type 0} {P : World → Type 0} {Q : Result B → World → Type 0} where
  -- The first action is one that always returns a value.
  pub Triple-bind :
      (R : A → World → Type 0) (m : Db A) (f : A → Db B)
      → Triple P m (Returns R)
      → ((a : A) → Triple (R a) (f a) Q)
      → Triple P (m >>= f) Q
  unfolding ◌>>=◌
  Triple-bind R m f k l = record {
    at = λ w h. continue-Triple R (m w).0 f (m w).1 l (λ e. settled e (m w).0 (m w).1 (k.at w h));
  }
    where
      settled : (e : Error) (r : Result A) (w : World) → Returns R r w → Either R (Q (err e)) r w
      settled e (ok a) w h = h
      settled e (err x) w h = absurd h

pub Triple-time_now :
    {P : World → Type 0} {Q : Result ℕ → World → Type 0}
    → ((w : World) → P w → Q (ok w.now) w)
    → Triple P time_now Q
unfolding time_now
Triple-time_now k = record { at = λ w h. k w h }

pub Triple-new_uuid :
    {P : World → Type 0} {Q : Result String → World → Type 0}
    → ((w : World) → P w → Q (ok (w.uuid w.uuids)) (record w { uuids = suc w.uuids }))
    → Triple P new_uuid Q
unfolding new_uuid
Triple-new_uuid k = record { at = λ w h. k w h }

-- The value that is returned.
pub result-Triple :
    {A : Type 0} {P : World → Type 0} (Q : A → World → Type 0) (m : Db A) (w : World)
    → Triple P m (Returns Q)
    → P w
    → (a : A) × ((m w).0 ≡ ok a) × Q a (m w).1
result-Triple {A} Q m w k h = returned (m w).0 (m w).1 (k.at w h)
  where
    returned : (r : Result A) (v : World) → Returns Q r v → (a : A) × (r ≡ ok a) × Q a v
    returned (ok a) v h = (a, refl, h)
    returned (err e) v h = absurd h

-- After an error there is more to say, that does not depend on what happened.
pub Triple-ended :
    {A : Type 0} {P E : World → Type 0} {R : A → World → Type 0} {m : Db A}
    → ((w : World) → E w)
    → Triple P m (Either R (λ w. Unit {0}))
    → Triple P m (Either R E)
Triple-ended {A} {P} {E} {R} {m} e k = record { at = λ w h. extended (m w).0 (m w).1 (k.at w h) }
  where
    extended : (r : Result A) (w : World) → Either R (λ w. Unit {0}) r w → Either R E r w
    extended (ok a) w h = h
    extended (err x) w h = e w

pub Triple-Reads :
    {A : Type 0} (S : Tables → Type 0) (m : Db A)
    → Reads m
    → Triple (λ w. S w.tables) m (λ r w. S w.tables)
Triple-Reads S m k = record { at = λ w h. subst S (sym (k.at w)) h }

-- What is known in the end is known after an error of the first action, too.
pub Triple-bind_Either :
    {A B : Type 0} {P E : World → Type 0} {Q : B → World → Type 0} (R : A → World → Type 0)
    (m : Db A) (f : A → Db B)
    → Triple P m (Either R E)
    → ((a : A) → Triple (R a) (f a) (Either Q E))
    → Triple P (m >>= f) (Either Q E)
unfolding ◌>>=◌
Triple-bind_Either {A} {B} {P} {E} {Q} R m f k l = record {
  at = λ w h. continue-Triple R (m w).0 f (m w).1 l (λ e. known e (m w).0 (m w).1 (k.at w h));
}
  where
    known : (e : Error) (r : Result A) (w : World) → Either R E r w → Either R E r w
    known e r w h = h

-- Nothing is said of an error.
pub Triple-forget :
    {A : Type 0} {P E : World → Type 0} {R : A → World → Type 0} {m : Db A}
    → Triple P m (Either R E)
    → Triple P m (Either R (λ w. Unit {0}))
Triple-forget {A} {P} {E} {R} {m} k = record { at = λ w h. forgotten (m w).0 (m w).1 (k.at w h) }
  where
    forgotten : (r : Result A) (w : World) → Either R E r w → Either R (λ w. Unit {0}) r w
    forgotten (ok a) w h = h
    forgotten (err e) w h = tt
