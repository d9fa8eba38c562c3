-- ===== src/Db/Runs.antt =====
-- What an action did that returned a value, one lemma for each way to build one.
use scouting_app.Base.{
  ℕ, String, ◌≡◌, refl, sym, ap, ◌⊎◌, inl, inr, Bool-cases, Option, none, some, arith,
}
use scouting_app.Db.{
  Tables, World, Error, Result, ok, err, Db, pure, fail, attempt, statement, query, transaction,
  new_uuid, time_now, continue, ◌>>=◌, tick, finish, first,
}

-- In the world `w`, the action returns `a` and leaves the world `v`.
abbrev pub Runs : {A : Type 0} → Db A → World → A → World → Type 0
Runs m w a v = m w ≡ (ok a, v)

module _ {A B : Type 0} where
  continue-Runs :
      (r : Result A) (f : A → Db B) (w : World) (b : B) (v : World)
      → continue r f w ≡ (ok b, v)
      → (a : A) × (r ≡ ok a) × Runs (f a) w b v
  continue-Runs (ok a) f w b v h = (a, refl, h)
  continue-Runs (err e) f w b v h = ground arith

  pub bind-Runs :
      (m : Db A) (f : A → Db B) (w : World) (b : B) (v : World)
      → Runs (m >>= f) w b v
      → (a : A) × (u : World) × Runs m w a u × Runs (f a) u b v
  unfolding ◌>>=◌
  bind-Runs m f w b v h =
      let (a, r, k) = continue-Runs (m w).0 f (m w).1 b v h in
      (a, (m w).1, ap (λ x. (x, (m w).1)) r, k)

module _ {A : Type 0} (w : World) (a : A) (v : World) where
  pub pure-Runs : (b : A) → Runs (pure b) w a v → (b ≡ a) × (w ≡ v)
  unfolding pure
  pure-Runs b h = (ground arith, ap (λ x. x.1) h)

  pub fail-Runs : (e : Error) → Runs (fail e) w a v → ⊥
  unfolding fail
  fail-Runs e h = ground arith

  pub query-Runs :
      (f : World → Result A) → Runs (query f) w a v → (f w ≡ ok a) × (v.tables ≡ w.tables)
  unfolding query
  query-Runs f h = elim (Bool-cases (w.fault w.count)) [
    | inl q ↦ ground arith
    | inr q ↦ (ap (λ x. x.0) (rw q at h), ap (λ x. x.1.tables) (sym (rw q at h)))
  ]

  pub statement-Runs :
      (f : World → Result A × Tables)
      → Runs (statement f) w a v
      → ((f w).0 ≡ ok a) × (v.tables ≡ (f w).1)
  unfolding statement
  statement-Runs f h = elim (Bool-cases (w.fault w.count)) [
    | inl q ↦ ground arith
    | inr q ↦ (ap (λ x. x.0) (rw q at h), ap (λ x. x.1.tables) (sym (rw q at h)))
  ]

  finish-Runs :
      (t : Tables) (r : Result A) (u : World)
      → finish t (r, u) ≡ (ok a, v)
      → (r ≡ ok a) × (v.tables ≡ u.tables)
  finish-Runs t (err e) u h = ground arith
  finish-Runs t (ok b) u h = elim (Bool-cases (u.fault u.count)) [
    | inl q ↦ ground arith
    | inr q ↦ (ap (λ x. x.0) (rw q at h), ap (λ x. x.1.tables) (sym (rw q at h)))
  ]

  pub transaction-Runs :
      (m : Db A)
      → Runs (transaction m) w a v
      → (u : World) × Runs m (tick w) a u × (v.tables ≡ u.tables)
  unfolding transaction
  transaction-Runs m h = elim (Bool-cases (w.fault w.count)) [
    | inl q ↦ ground arith
    | inr q ↦
        let (r, t) = finish-Runs w.tables (m (tick w)).0 (m (tick w)).1 (rw q at h) in
        ((m (tick w)).1, ap (λ x. (x, (m (tick w)).1)) r, t)
  ]

pub new_uuid-Runs : (w : World) (a : String) (v : World) → Runs new_uuid w a v → v.tables ≡ w.tables
unfolding new_uuid
new_uuid-Runs w a v h = ap (λ x. x.1.tables) (sym h)

pub time_now-Runs : (w : World) (a : ℕ) (v : World) → Runs time_now w a v → (w.now ≡ a) × (v ≡ w)
unfolding time_now
time_now-Runs w a v h = (ground arith, ap (λ x. x.1) (sym h))

abbrev unwrap : {A : Type 0} → Result A → A → A
unwrap (ok a) b = a
unwrap (err e) b = b

-- `attempt` goes on with a result of either kind.
pub attempt-Runs :
    {A : Type 0} (m : Db A) (w : World) (r : Result A) (v : World)
    → Runs (attempt m) w r v
    → m w ≡ (r, v)
unfolding attempt
attempt-Runs m w r v h = ap (λ x. (unwrap x.0 r, x.1)) h

pub ok-injective : {A : Type 0} (a b : A) → ok a ≡ ok b → a ≡ b
ok-injective a b h = ap (λ x. unwrap x b) h

pub Result-cases :
    {A : Type 0} (r : Result A) → ((a : A) × (r ≡ ok a)) ⊎ ((e : Error) × (r ≡ err e))
Result-cases (ok a) = inl (a, refl)
Result-cases (err e) = inr (e, refl)

-- A value and a world apart.
pub result-Runs : {A : Type 0} (m : Db A) (w : World) (a : A) → (m w).0 ≡ ok a → Runs m w a (m w).1
result-Runs m w a h = ap (λ x. (x, (m w).1)) h

pub first-ok : {A : Type 0} (o : Option A) (e : Error) (a : A) → first o e ≡ ok a → o ≡ some a
first-ok none e a h = ground arith
first-ok (some b) e a h = ap (λ x. some x) (ok-injective b a h)

-- What a lookup whose error is looked at has found.
abbrev pub Found : {A : Type 0} → Option A → Result A → Type 0
Found o (ok a) = o ≡ some a
Found o (err e) = Unit {0}

pub first-Found : {A : Type 0} (o : Option A) (e : Error) → Found o (first o e)
first-Found none e = tt
first-Found (some a) e = refl
