-- ===== src/Db/Errors.antt =====
-- Actions that only read, and actions that change no table when they return an error.
use mathlib.Core.Path.{subst}
use scouting_app.Base.{
  ◌≡◌, refl, sym, ap, ◌∙◌, Bool, true, false, inl, inr, Bool-cases, arith, if◌then◌else◌,
}
use scouting_app.Db.{
  Tables, World, Error, Result, ok, err, Db, pure, fail, lift, attempt, time_now, statement, query,
  transaction, continue, ◌>>=◌,
}
use scouting_app.Db.Keeps.{Keeps, query_tables, transaction_atomic}
use scouting_app.Db.Ensures.{Ensures}

pub record Reads {A : Type 0} (m : Db A) : Type 0 where
  pub at : (w : World) → (m w).1.tables ≡ w.tables

pub record Cautious {A : Type 0} (m : Db A) : Type 0 where
  pub at : (w : World) (e : Error) → (m w).0 ≡ err e → (m w).1.tables ≡ w.tables

module _ {A : Type 0} where
  pub Reads-pure : (a : A) → Reads (pure a)
  unfolding pure
  Reads-pure a = record { at = λ w. refl }

  pub Reads-fail : (e : Error) → Reads (fail {A = A} e)
  unfolding fail
  Reads-fail e = record { at = λ w. refl }

  pub Reads-lift : (r : Result A) → Reads (lift r)
  unfolding lift
  Reads-lift r = record { at = λ w. refl }

  pub Reads-attempt : (m : Db A) → Reads m → Reads (attempt m)
  unfolding attempt
  Reads-attempt m k = record { at = λ w. k.at w }

  pub Reads-query : (f : World → Result A) → Reads (query f)
  Reads-query f = record { at = λ w. query_tables f w }

  pub Reads-if :
      (b : Bool) (m n : Db A)
      → (b ≡ true → Reads m)
      → (b ≡ false → Reads n)
      → Reads (if b then m else n)
  Reads-if true m n km kn = km refl
  Reads-if false m n km kn = kn refl

  pub Cautious-Reads : (m : Db A) → Reads m → Cautious m
  Cautious-Reads m k = record { at = λ w e h. k.at w }

  pub Cautious-transaction : (m : Db A) → Cautious (transaction m)
  Cautious-transaction m = record { at = λ w e h. transaction_atomic m w e h }

  pub Cautious-statement :
      (f : World → Result A × Tables)
      → ((w : World) (e : Error) → (f w).0 ≡ err e → (f w).1 ≡ w.tables)
      → Cautious (statement f)
  unfolding statement
  Cautious-statement f k = record {
    at = λ w e h. elim (Bool-cases (w.fault w.count)) [
      | inl q ↦ rw q refl
      | inr q ↦ rw q (k w e (rw q at h))
    ];
  }

  pub Cautious-if :
      (b : Bool) (m n : Db A)
      → (b ≡ true → Cautious m)
      → (b ≡ false → Cautious n)
      → Cautious (if b then m else n)
  Cautious-if true m n km kn = km refl
  Cautious-if false m n km kn = kn refl

pub Reads-time_now : Reads time_now
unfolding time_now
Reads-time_now = record { at = λ w. refl }

module _ {A B : Type 0} where
  continue-Reads :
      (r : Result A) (f : A → Db B) (w : World)
      → ((a : A) → Reads (f a))
      → (continue r f w).1.tables ≡ w.tables
  continue-Reads (ok a) f w k = (k a).at w
  continue-Reads (err e) f w k = refl

  pub Reads-bind : (m : Db A) (f : A → Db B) → Reads m → ((a : A) → Reads (f a)) → Reads (m >>= f)
  unfolding ◌>>=◌
  Reads-bind m f k l = record { at = λ w. continue-Reads (m w).0 f (m w).1 l ∙ k.at w }

  continue-Cautious :
      (r : Result A) (f : A → Db B) (w : World) (e : Error)
      → ((a : A) → Cautious (f a))
      → (continue r f w).0 ≡ err e
      → (continue r f w).1.tables ≡ w.tables
  continue-Cautious (ok a) f w e k h = (k a).at w e h
  continue-Cautious (err x) f w e k h = refl

  -- What comes before the change only reads.
  pub Cautious-bind :
      (m : Db A) (f : A → Db B) → Reads m → ((a : A) → Cautious (f a)) → Cautious (m >>= f)
  unfolding ◌>>=◌
  Cautious-bind m f k l = record {
    at = λ w e h. continue-Cautious (m w).0 f (m w).1 e l h ∙ k.at w;
  }

  continue-pure :
      (r : Result A) (f : A → B) (w : World) (e : Error)
      → (continue r (λ a. pure (f a)) w).0 ≡ err e
      → r ≡ err e
  unfolding pure
  continue-pure (ok a) f w e h = ground arith
  continue-pure (err x) f w e h = ground arith

  -- A value that is made from a result cannot fail any more.
  pub Cautious-then_pure : (m : Db A) (f : A → B) → Cautious m → Cautious (m >>= λ a. pure (f a))
  unfolding ◌>>=◌
  Cautious-then_pure m f k = record {
    at = λ w e h. let r = continue-pure (m w).0 f (m w).1 e h in rw r (k.at w e r);
  }

pub Reads-Ensures : {A : Type 0} {P : Tables → Type 0} (m : Db A) → Reads m → Ensures P m (λ a. P)
Reads-Ensures {P} m k = record {
  at = λ w a v h r. subst P (sym (ap (λ x. x.1.tables) (sym r) ∙ k.at w)) h;
}

pub Keeps-Reads : {A : Type 0} {P : Tables → Type 0} (m : Db A) → Reads m → Keeps P m
Keeps-Reads {P} m k = record { at = λ w h. subst P (sym (k.at w)) h }

pub ruleset reads_rules = (
  Reads-pure, Reads-fail, Reads-lift, Reads-attempt, Reads-query, Reads-if, Reads-time_now,
  Reads-bind,
)
