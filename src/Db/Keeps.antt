-- ===== src/Db/Keeps.antt =====
-- What the tables keep under an action, one rule for each way to build one.
use scouting_app.Base.{◌≡◌, refl, Bool, true, false, inl, inr, Bool-cases, arith, if◌then◌else◌}
use scouting_app.Db.{
  finish, tick, Tables, World, Error, Result, ok, err, Db, pure, fail, lift, attempt, statement,
  query, transaction, new_uuid, time_now, continue, ◌>>=◌,
}

-- Whether the action returns a value or an error, `P` still holds of the tables.
pub record Keeps {A : Type 0} (P : Tables → Type 0) (m : Db A) : Type 0 where
  pub at : (w : World) → P w.tables → P (m w).1.tables

module _ {A : Type 0} {P : Tables → Type 0} where
  pub Keeps-pure : (a : A) → Keeps P (pure a)
  unfolding pure
  Keeps-pure a = record { at = λ w h. h }

  pub Keeps-fail : (e : Error) → Keeps P (fail {A = A} e)
  unfolding fail
  Keeps-fail e = record { at = λ w h. h }

  pub Keeps-lift : (r : Result A) → Keeps P (lift r)
  unfolding lift
  Keeps-lift r = record { at = λ w h. h }

  pub Keeps-attempt : (m : Db A) → Keeps P m → Keeps P (attempt m)
  unfolding attempt
  Keeps-attempt m k = record { at = λ w h. k.at w h }

  pub Keeps-query : (f : World → Result A) → Keeps P (query f)
  unfolding query
  Keeps-query f = record {
    at = λ w h. elim (Bool-cases (w.fault w.count)) [ inl e ↦ rw e h | inr e ↦ rw e h ];
  }

  pub Keeps-statement :
      (f : World → Result A × Tables)
      → ((w : World) → P w.tables → P (f w).1)
      → Keeps P (statement f)
  unfolding statement
  Keeps-statement f k = record {
    at = λ w h. elim (Bool-cases (w.fault w.count)) [ inl e ↦ rw e h | inr e ↦ rw e (k w h) ];
  }

  -- Both branches keep it, each where its test says so.
  pub Keeps-if :
      (test : Bool) (taken other : Db A)
      → (test ≡ true → Keeps P taken)
      → (test ≡ false → Keeps P other)
      → Keeps P (if test then taken else other)
  Keeps-if true taken other k l = k refl
  Keeps-if false taken other k l = l refl

pub Keeps-new_uuid : {P : Tables → Type 0} → Keeps P new_uuid
unfolding new_uuid
Keeps-new_uuid = record { at = λ w h. h }

pub Keeps-time_now : {P : Tables → Type 0} → Keeps P time_now
unfolding time_now
Keeps-time_now = record { at = λ w h. h }

module _ {A B : Type 0} {P : Tables → Type 0} where
  Keeps-continue :
      (r : Result A) (f : A → Db B) (w : World)
      → ((a : A) → Keeps P (f a))
      → P w.tables
      → P (continue r f w).1.tables
  Keeps-continue (ok a) f w k h = (k a).at w h
  Keeps-continue (err e) f w k h = h

  pub Keeps-bind :
      (m : Db A) (f : A → Db B) → Keeps P m → ((a : A) → Keeps P (f a)) → Keeps P (m >>= f)
  unfolding ◌>>=◌
  Keeps-bind m f km kf = record { at = λ w h. Keeps-continue (m w).0 f (m w).1 kf (km.at w h) }

finish_keeps :
    {A : Type 0} (P : Tables → Type 0) (t : Tables) (r : Result A) (w : World)
    → P t
    → P w.tables
    → P (finish t (r, w)).1.tables
finish_keeps P t (err e) w h k = h
finish_keeps P t (ok a) w h k = elim (Bool-cases (w.fault w.count)) [
  | inl e ↦ rw e h
  | inr e ↦ rw e k
]

module _ {A : Type 0} {P : Tables → Type 0} where
  pub Keeps-transaction : (m : Db A) → Keeps P m → Keeps P (transaction m)
  unfolding transaction
  Keeps-transaction m k = record {
    at = λ w h. elim (Bool-cases (w.fault w.count)) [
      | inl e ↦ rw e h
      | inr e ↦ rw e (finish_keeps P w.tables (m (tick w)).0 (m (tick w)).1 h (k.at (tick w) h))
    ];
  }

pub ruleset keeps_rules = (
  Keeps-pure, Keeps-fail, Keeps-lift, Keeps-attempt, Keeps-query, Keeps-if, Keeps-new_uuid,
  Keeps-time_now, Keeps-bind, Keeps-transaction,
)

finish_atomic :
    {A : Type 0} (t : Tables) (r : Result A) (w : World) (e : Error)
    → (finish t (r, w)).0 ≡ err e
    → (finish t (r, w)).1.tables ≡ t
finish_atomic t (err d) w e h = refl
finish_atomic t (ok a) w e h = ground arith

-- A transaction that returns an error has changed no table.
pub transaction_atomic :
    {A : Type 0} (m : Db A) (w : World) (e : Error)
    → (transaction m w).0 ≡ err e
    → (transaction m w).1.tables ≡ w.tables
unfolding transaction
transaction_atomic m w e h = elim (Bool-cases (w.fault w.count)) [
  | inl f ↦ rw f refl
  | inr f ↦ rw f (finish_atomic w.tables (m (tick w)).0 (m (tick w)).1 e (rw f at h))
]

-- A query changes no table.
pub query_tables : {A : Type 0} (f : World → Result A) (w : World) → (query f w).1.tables ≡ w.tables
unfolding query
query_tables f w = elim (Bool-cases (w.fault w.count)) [ inl e ↦ rw e refl | inr e ↦ rw e refl ]
