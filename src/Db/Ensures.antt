-- ===== src/Db/Ensures.antt =====
-- What holds when an action has returned a value, given what held of the tables before it: one rule
-- for each way to build an action. An action that returns an error ensures anything.
use scouting_app.Base.{◌≡◌, refl, sym, Bool, true, false, inl, inr, Bool-cases, if◌then◌else◌}
use mathlib.Core.Path.{subst}
use scouting_app.Db.Keeps.{Keeps, transaction_atomic}
use scouting_app.Db.{
  Tables, World, Error, Result, ok, err, Db, pure, fail, attempt, statement, query, transaction,
  new_uuid, time_now, ◌>>=◌, tick, driver_error,
}
use scouting_app.Db.Runs.{
  Runs, bind-Runs, pure-Runs, fail-Runs, query-Runs, statement-Runs, transaction-Runs,
  new_uuid-Runs, time_now-Runs, attempt-Runs, result-Runs, Result-cases,
}

pub record Ensures {A : Type 0} (P : Tables → Type 0) (m : Db A) (Q : A → Tables → Type 0)
    : Type 0 where
  pub at : (w : World) (a : A) (v : World) → P w.tables → Runs m w a v → Q a v.tables

module _ {A : Type 0} {P : Tables → Type 0} {Q : A → Tables → Type 0} where
  pub Ensures-pure : (b : A) → ((t : Tables) → P t → Q b t) → Ensures P (pure b) Q
  Ensures-pure b k = record {
    at = λ w a v h r.
        let (e, u) = pure-Runs w a v b r in
        subst (λ x. Q x v.tables) e (subst (λ x. Q b x.tables) u (k w.tables h));
  }

  pub Ensures-fail : (e : Error) → Ensures P (fail e) Q
  Ensures-fail e = record { at = λ w a v h r. absurd (fail-Runs w a v e r) }

  pub Ensures-query :
      (f : World → Result A)
      → ((w : World) (a : A) → P w.tables → f w ≡ ok a → Q a w.tables)
      → Ensures P (query f) Q
  Ensures-query f k = record {
    at = λ w a v h r. let (e, t) = query-Runs w a v f r in subst (Q a) (sym t) (k w a h e);
  }

  pub Ensures-statement :
      (f : World → Result A × Tables)
      → ((w : World) (a : A) → P w.tables → (f w).0 ≡ ok a → Q a (f w).1)
      → Ensures P (statement f) Q
  Ensures-statement f k = record {
    at = λ w a v h r. let (e, t) = statement-Runs w a v f r in subst (Q a) (sym t) (k w a h e);
  }

  pub Ensures-transaction : (m : Db A) → Ensures P m Q → Ensures P (transaction m) Q
  Ensures-transaction m k = record {
    at = λ w a v h r.
        let (u, s, t) = transaction-Runs w a v m r in subst (Q a) (sym t) (k.at (tick w) a u h s);
  }

  pub Ensures-if :
      (b : Bool) (m n : Db A)
      → (b ≡ true → Ensures P m Q)
      → (b ≡ false → Ensures P n Q)
      → Ensures P (if b then m else n) Q
  Ensures-if true m n k l = k refl
  Ensures-if false m n k l = l refl

  -- The value and the tables that are there in the end.
  pub result-Ensures :
      (m : Db A) (w : World) (a : A)
      → Ensures P m Q
      → P w.tables
      → (m w).0 ≡ ok a
      → Q a (m w).1.tables
  result-Ensures m w a k h r = k.at w a (m w).1 h (result-Runs m w a r)

pub Ensures-bind :
    {A B : Type 0} {P : Tables → Type 0} {Q : B → Tables → Type 0} (R : A → Tables → Type 0)
    (m : Db A) (f : A → Db B)
    → Ensures P m R
    → ((a : A) → Ensures (R a) (f a) Q)
    → Ensures P (m >>= f) Q
Ensures-bind R m f k l = record {
  at = λ w b v h r. let (a, u, s, t) = bind-Runs m f w b v r in (l a).at u b v (k.at w a u h s) t;
}

pub Ensures-new_uuid : {P : Tables → Type 0} → Ensures P new_uuid (λ id. P)
Ensures-new_uuid {P} = record { at = λ w a v h r. subst P (sym (new_uuid-Runs w a v r)) h }

pub Ensures-time_now : {P : Tables → Type 0} → Ensures P time_now (λ now. P)
Ensures-time_now {P} = record {
  at = λ w a v h r. let (e, t) = time_now-Runs w a v r in subst (λ x. P x.tables) (sym t) h;
}

-- A query whose error the code looks at: its result, or the driver's error.
pub Ensures-attempt_query :
    {A : Type 0} {P : Tables → Type 0} {Q : Result A → Tables → Type 0} (f : World → Result A)
    → ((w : World) → P w.tables → Q (f w) w.tables)
    → ((w : World) → P w.tables → Q (err driver_error) w.tables)
    → Ensures P (attempt (query f)) Q
unfolding query
Ensures-attempt_query {Q} f k l = record {
  at = λ w r v h s.
      let e = attempt-Runs (query f) w r v s in
      elim (Bool-cases (w.fault w.count)) [
        | inl q ↦ subst (λ x. Q x.0 x.1.tables) e (rw q (l w h))
        | inr q ↦ subst (λ x. Q x.0 x.1.tables) e (rw q (k w h))
      ];
}

-- A transaction ends as its body does, or leaves the tables as they were.
pub Ensures-Keeps :
    {A : Type 0} {P : Tables → Type 0} (m : Db A) → Ensures P m (λ a. P) → Keeps P (transaction m)
Ensures-Keeps {P} m k = record {
  at = λ w h. elim (Result-cases (transaction m w).0) [
    | inl (a, r) ↦ result-Ensures (transaction m) w a (Ensures-transaction m k) h r
    | inr (e, r) ↦ subst P (sym (transaction_atomic m w e r)) h
  ];
}

pub Ensures-weaken :
    {A : Type 0} {P R : Tables → Type 0} {Q : A → Tables → Type 0} (m : Db A)
    → ((t : Tables) → P t → R t)
    → Ensures R m Q
    → Ensures P m Q
Ensures-weaken m f k = record { at = λ w a v h r. k.at w a v (f w.tables h) r }

pub Ensures-after :
    {A : Type 0} {P : Tables → Type 0} {Q R : A → Tables → Type 0} (m : Db A)
    → Ensures P m Q
    → ((a : A) (t : Tables) → Q a t → R a t)
    → Ensures P m R
Ensures-after m k f = record { at = λ w a v h r. f a v.tables (k.at w a v h r) }

pub Keeps-Ensures : {A : Type 0} {P : Tables → Type 0} (m : Db A) → Keeps P m → Ensures P m (λ a. P)
Keeps-Ensures {P} m k = record { at = λ w a v h r. subst (λ x. P x.1.tables) r (k.at w h) }

pub Ensures-any : {A : Type 0} {P : Tables → Type 0} (m : Db A) → Ensures P m (λ a t. Unit {0})
Ensures-any m = record { at = λ w a v h r. tt }

-- What does not speak of the tables stays.
pub Ensures-fact :
    {A : Type 0} {P : Tables → Type 0} (C : A → Type 0) (m : Db A)
    → ((t : Tables) → P t → (a : A) → C a)
    → Ensures P m (λ a t. C a)
Ensures-fact C m f = record { at = λ w a v h r. f w.tables h a }

pub Ensures-both :
    {A : Type 0} {P : Tables → Type 0} {Q R : A → Tables → Type 0} (m : Db A)
    → Ensures P m Q
    → Ensures P m R
    → Ensures P m (λ a t. Q a t × R a t)
Ensures-both m k l = record { at = λ w a v h r. (k.at w a v h r, l.at w a v h r) }

-- A fact that does not speak of the tables is a hypothesis.
pub Ensures-given :
    {A : Type 0} {P : Tables → Type 0} {C : Type 0} {m : Db A} {Q : A → Tables → Type 0}
    → (C → Ensures P m Q)
    → Ensures (λ t. P t × C) m Q
Ensures-given k = record { at = λ w a v h r. (k h.1).at w a v h.0 r }

-- What the first action keeps and what its value tells about the tables carry over to the second.
pub Keeps-bind_knowing :
    {A B : Type 0} {P : Tables → Type 0} (C : A → Type 0) (m : Db A) (f : A → Db B)
    → Keeps P m
    → Ensures P m (λ a t. C a)
    → ((a : A) → C a → Keeps P (f a))
    → Keeps P (m >>= f)
unfolding ◌>>=◌
Keeps-bind_knowing {P} C m f km e kf = record {
  at = λ w h. elim (Result-cases (m w).0) [
    | inl (a, r) ↦ rw r ((kf a (result-Ensures m w a e h r)).at (m w).1 (km.at w h))
    | inr (x, r) ↦ rw r (km.at w h)
  ];
}
