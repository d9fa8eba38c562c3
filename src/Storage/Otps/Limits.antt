-- ===== src/Storage/Otps/Limits.antt =====
-- How many codes an address gets and how often one is tried: what the statements of internal/
-- storage/postgres/otpcode_repository.go keep.
use scouting_app.Storage.Otps.Updates.{
  IsApart, AreFewTries, AreFewCodes, key, same_keys-IsApart, same_keys_count, mark_used-key,
  add_attempt-key, invalidate-key, mark_used-AreFewTries, invalidate-AreFewTries,
  add_attempt-AreFewTries,
}
use mathlib.Core.Path.{subst}
use scouting_app.Base.{
  ℕ, ◌+◌, ◌≤◌, String, ◌≡◌, refl, sym, ap, true, false, ◌&&◌, List, [], ◌∷◌, ◌++◌, map, some, ◌==◌,
  eq_iff, inl, inr, Bool-cases, ltb, leb, any, All, AllPairs, All-append, AllPairs-append, arith,
  if◌then◌else◌,
}
use scouting_app.Db.{OtpCode}
use scouting_app.Storage.Otps.{find_otp, count_since, mark_used, add_attempt, invalidate}

-- The id of a new code is not taken.
any-fresh :
    (o : OtpCode) (otps : List OtpCode)
    → any (λ q. q.id == o.id) otps ≡ false
    → All (λ k. (k.0 == o.id) ≡ false) (map key otps)
any-fresh o [] h = tt
any-fresh o (q ∷ otps) h = (ground arith, any-fresh o otps (ground arith))

map-last :
    (otps : List OtpCode) (o : OtpCode) → map key (otps ++ o ∷ []) ≡ map key otps ++ key o ∷ []
map-last [] o = refl
map-last (q ∷ otps) o = ap (λ l. key q ∷ l) (map-last otps o)

insert-IsApart :
    (o : OtpCode) (otps : List OtpCode)
    → any (λ q. q.id == o.id) otps ≡ false
    → IsApart otps
    → IsApart (otps ++ o ∷ [])
insert-IsApart o otps h k =
    subst (AllPairs (λ k l. (k.0 == l.0) ≡ false)) (sym (map-last otps o))
      (AllPairs-append (λ k l. (k.0 == l.0) ≡ false) (map key otps) (key o) (any-fresh o otps h) k)

count_since-last :
    (email : String) (since : ℕ) (otps : List OtpCode) (o : OtpCode)
    → count_since email since (otps ++ o ∷ [])
      ≡ count_since email since otps + (if o.email == email && ltb since o.created_at then 1 else 0)
unfolding count_since
count_since-last email since [] o = omega arith
count_since-last email since (q ∷ otps) o = omega (arith, count_since-last email since otps o)

-- One more code for an address that has got fewer than five.
pub insert-AreFewCodes :
    (since : ℕ) (otps : List OtpCode) (o : OtpCode)
    → leb 5 (count_since o.email since otps) ≡ false
    → AreFewCodes since otps
    → AreFewCodes since (otps ++ o ∷ [])
insert-AreFewCodes since otps o room h email = elim (Bool-cases (o.email == email)) [
  | inl q ↦
      let e : count_since o.email since otps ≡ count_since email since otps =
        ap (λ x. count_since x since otps) ((eq_iff o.email email).0 q) in
      rw (count_since-last email since otps o) (elim (Bool-cases (ltb since o.created_at)) [
        | inl l ↦ rw (q, l) (ground (arith, room, e))
        | inr l ↦ rw (q, l) (ground (arith, room, e))
      ])
  | inr q ↦ rw (count_since-last email since otps o) (rw q (ground (arith, h email)))
]

-- Later there are fewer codes that are younger.
pub count_since-later :
    (email : String) (since later : ℕ) (otps : List OtpCode)
    → since ≤ later
    → count_since email later otps ≤ count_since email since otps
unfolding count_since
count_since-later email since later [] h = omega arith
count_since-later email since later (o ∷ otps) h =
    ground (arith, count_since-later email since later otps h)

-- The limits, with the codes since a moment.
abbrev pub Within : ℕ → List OtpCode → Type 0
Within since otps = IsApart otps × AreFewTries otps × AreFewCodes since otps

same_keys-Within :
    (since : ℕ) (otps others : List OtpCode)
    → map key others ≡ map key otps
    → AreFewTries others
    → Within since otps
    → Within since others
same_keys-Within since otps others e t (apart, tries, few) = (
  same_keys-IsApart otps others e apart,
  t,
  λ email. rw (same_keys_count email since otps others e) (few email),
)

pub mark_used-Within :
    (since : ℕ) (id : String) (otps : List OtpCode)
    → Within since otps
    → Within since (mark_used id otps)
mark_used-Within since id otps h =
    same_keys-Within since otps _ (mark_used-key id otps) (mark_used-AreFewTries id otps h.1) h

pub invalidate-Within :
    (since : ℕ) (email : String) (now : ℕ) (otps : List OtpCode)
    → Within since otps
    → Within since (invalidate email now otps)
invalidate-Within since email now otps h =
    same_keys-Within since otps _ (invalidate-key email now otps)
      (invalidate-AreFewTries email now otps h.1) h

pub count_since-invalidate :
    (address : String) (since : ℕ) (email : String) (now : ℕ) (otps : List OtpCode)
    → count_since address since (invalidate email now otps) ≡ count_since address since otps
count_since-invalidate address since email now otps =
    same_keys_count address since otps _ (invalidate-key email now otps)

pub add_attempt-Within :
    (since : ℕ) (id : String) (o : OtpCode) (otps : List OtpCode)
    → find_otp id otps ≡ some o
    → ltb o.attempts 5 ≡ true
    → Within since otps
    → Within since (add_attempt id otps)
add_attempt-Within since id o otps f l h =
    same_keys-Within since otps _ (add_attempt-key id otps)
      (add_attempt-AreFewTries id o otps f l h.0 h.1) h

pub insert-Within :
    (since : ℕ) (otps : List OtpCode) (o : OtpCode)
    → any (λ q. q.id == o.id) otps ≡ false
    → o.attempts ≡ 0
    → leb 5 (count_since o.email since otps) ≡ false
    → Within since otps
    → Within since (otps ++ o ∷ [])
insert-Within since otps o new zero_tries room (apart, tries, few) = (
  insert-IsApart o otps new apart,
  All-append (λ q. q.attempts ≤ 5) otps (o ∷ []) tries (omega (arith, zero_tries), tt),
  insert-AreFewCodes since otps o room few,
)

pub Within-later :
    (since later : ℕ) (otps : List OtpCode) → since ≤ later → Within since otps → Within later otps
Within-later since later otps h (apart, tries, few) =
    (apart, tries, λ email. omega (arith, count_since-later email since later otps h, few email))
