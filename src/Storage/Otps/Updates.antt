-- ===== src/Storage/Otps/Updates.antt =====
-- What the updates of internal/storage/postgres/otpcode_repository.go keep of each code.
use mathlib.Core.Path.{subst}
use scouting_app.Base.{
  ℕ, ◌+◌, ◌≤◌, String, ◌≡◌, refl, sym, ap, ◌∙◌, true, false, not, ◌&&◌, List, [], ◌∷◌, map, none,
  some, ◌==◌, eq_iff, inl, inr, Bool-cases, ltb, All, AllPairs, arith, if◌then◌else◌,
}
use scouting_app.Db.{OtpCode}
use scouting_app.Storage.Otps.{find_otp, count_since, mark_used, add_attempt, invalidate}

-- What no update of a code changes.
abbrev pub Key : Type 0
Key = String × String × ℕ

abbrev pub key : OtpCode → Key
key o = (o.id, o.email, o.created_at)

count_keys : String → ℕ → List Key → ℕ
count_keys email since [] = 0
count_keys email since ((_, address, at) ∷ keys) =
    (if address == email && ltb since at then 1 else 0) + count_keys email since keys

count_since-keys :
    (email : String) (since : ℕ) (otps : List OtpCode)
    → count_since email since otps ≡ count_keys email since (map key otps)
unfolding count_since count_keys
count_since-keys email since [] = refl
count_since-keys email since (o ∷ otps) =
    ap (λ n. (if o.email == email && ltb since o.created_at then 1 else 0) + n)
      (count_since-keys email since otps)

-- The primary key.
abbrev pub IsApart : List OtpCode → Type 0
IsApart otps = AllPairs (λ k l. (k.0 == l.0) ≡ false) (map key otps)

-- No code has been tried more often than five times.
abbrev pub AreFewTries : List OtpCode → Type 0
AreFewTries otps = All (λ o. o.attempts ≤ 5) otps

-- No address has got more than five codes since the moment.
abbrev pub AreFewCodes : ℕ → List OtpCode → Type 0
AreFewCodes since otps = (email : String) → count_since email since otps ≤ 5

-- Codes with the same keys.
pub same_keys-IsApart :
    (otps others : List OtpCode) → map key others ≡ map key otps → IsApart otps → IsApart others
same_keys-IsApart otps others e h = subst (AllPairs (λ k l. (k.0 == l.0) ≡ false)) (sym e) h

pub same_keys_count :
    (email : String) (since : ℕ) (otps others : List OtpCode)
    → map key others ≡ map key otps
    → count_since email since others ≡ count_since email since otps
same_keys_count email since otps others e =
    count_since-keys email since others
    ∙ ap (count_keys email since) e
    ∙ sym (count_since-keys email since otps)

pub mark_used-key : (id : String) (otps : List OtpCode) → map key (mark_used id otps) ≡ map key otps
unfolding mark_used
mark_used-key id [] = refl
mark_used-key id (o ∷ otps) = elim (Bool-cases (o.id == id && not o.used)) [
  | inl q ↦ rw q (ap (λ l. key o ∷ l) (mark_used-key id otps))
  | inr q ↦ rw q (ap (λ l. key o ∷ l) (mark_used-key id otps))
]

pub add_attempt-key :
    (id : String) (otps : List OtpCode) → map key (add_attempt id otps) ≡ map key otps
unfolding add_attempt
add_attempt-key id [] = refl
add_attempt-key id (o ∷ otps) = elim (Bool-cases (o.id == id)) [
  | inl q ↦ rw q (ap (λ l. key o ∷ l) (add_attempt-key id otps))
  | inr q ↦ rw q (ap (λ l. key o ∷ l) (add_attempt-key id otps))
]

pub invalidate-key :
    (email : String) (now : ℕ) (otps : List OtpCode)
    → map key (invalidate email now otps) ≡ map key otps
unfolding invalidate
invalidate-key email now [] = refl
invalidate-key email now (o ∷ otps) =
    elim (Bool-cases (o.email == email && (not o.used && ltb now o.expires_at))) [
      | inl q ↦ rw q (ap (λ l. key o ∷ l) (invalidate-key email now otps))
      | inr q ↦ rw q (ap (λ l. key o ∷ l) (invalidate-key email now otps))
    ]

pub mark_used-AreFewTries :
    (id : String) (otps : List OtpCode) → AreFewTries otps → AreFewTries (mark_used id otps)
unfolding mark_used
mark_used-AreFewTries id [] h = tt
mark_used-AreFewTries id (o ∷ otps) (h, k) = elim (Bool-cases (o.id == id && not o.used)) [
  | inl q ↦ rw q (h, mark_used-AreFewTries id otps k)
  | inr q ↦ rw q (h, mark_used-AreFewTries id otps k)
]

pub invalidate-AreFewTries :
    (email : String) (now : ℕ) (otps : List OtpCode)
    → AreFewTries otps
    → AreFewTries (invalidate email now otps)
unfolding invalidate
invalidate-AreFewTries email now [] h = tt
invalidate-AreFewTries email now (o ∷ otps) (h, k) =
    elim (Bool-cases (o.email == email && (not o.used && ltb now o.expires_at))) [
      | inl q ↦ rw q (h, invalidate-AreFewTries email now otps k)
      | inr q ↦ rw q (h, invalidate-AreFewTries email now otps k)
    ]

-- No other code has the id.
add_attempt-absent :
    (i id : String) (otps : List OtpCode)
    → i ≡ id
    → All (λ k. (i == k.0) ≡ false) (map key otps)
    → AreFewTries otps
    → AreFewTries (add_attempt id otps)
unfolding add_attempt
add_attempt-absent i id [] e h k = tt
add_attempt-absent i id (o ∷ otps) e (h, hs) (k, ks) =
    let other : (o.id == id) ≡ false =
      ground (arith, ap (λ x. x == o.id) e, h, eq_iff id o.id, eq_iff o.id id) in
    rw other (k, add_attempt-absent i id otps e hs ks)

-- A code that was tried less than five times may be tried once more.
pub add_attempt-AreFewTries :
    (id : String) (o : OtpCode) (otps : List OtpCode)
    → find_otp id otps ≡ some o
    → ltb o.attempts 5 ≡ true
    → IsApart otps
    → AreFewTries otps
    → AreFewTries (add_attempt id otps)
unfolding add_attempt find_otp
add_attempt-AreFewTries id o [] f l a h = tt
add_attempt-AreFewTries id o (q ∷ otps) f l (a, apart) (h, hs) = elim (Bool-cases (q.id == id)) [
  | inl e ↦
      let few : ltb q.attempts 5 ≡ true =
        ap (λ x. elim x [ none ↦ ltb q.attempts 5 | some y ↦ ltb y.attempts 5 ]) (rw e at f) ∙ l in
      rw e (ground (arith, few), add_attempt-absent q.id id otps ((eq_iff q.id id).0 e) a hs)
  | inr e ↦ rw e (h, add_attempt-AreFewTries id o otps (rw e at f) l apart hs)
]
