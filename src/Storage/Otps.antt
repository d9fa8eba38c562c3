-- ===== src/Storage/Otps.antt =====
-- internal/storage/postgres/otpcode_repository.go
pub mod Updates
pub mod Limits
pub mod Keeping
pub mod Once
pub mod Storing
pub mod Tests
use scouting_app.Base.{
  ℕ, suc, ◌+◌, String, Bool, true, false, not, ◌&&◌, ◌||◌, List, [], ◌∷◌, ◌++◌, Option, none, some,
  ◌==◌, ltb, length, any, find, where_, update_where, if◌then◌else◌,
}
use scouting_app.Db.{
  World, Tables, OtpCode, Result, ok, err, constraint, no_rows, otp_not_found, Db, pure, statement,
  query, new_uuid, ◌>>=◌, first,
}
use scouting_app.Storage.Profiles.{coalesce_time}

unfoldable pub find_otp : String → List OtpCode → Option OtpCode
find_otp id [] = none
find_otp id (o ∷ otps) = let rest = find_otp id otps in if o.id == id then some o else rest

insert_otp : OtpCode → World → Result OtpCode × Tables
insert_otp o w = if any (λ q. q.id == o.id) w.otp_codes then (err constraint, w.tables) else (
  ok o,
  record w.tables {
    otp_codes = w.otp_codes ++ record o { created_at = coalesce_time o.created_at w } ∷ [];
  },
)

unfoldable pub create_otp : OtpCode → Db OtpCode
unfolding insert_otp
create_otp o = do
  id ← if o.id == "" then new_uuid else pure o.id
  statement (insert_otp (record o { id = id }))

unfoldable pub get_otp_by_id : String → Db OtpCode
unfolding find_otp
get_otp_by_id id = query (λ w. first (find_otp id w.otp_codes) otp_not_found)

unfoldable pub count_since : String → ℕ → List OtpCode → ℕ
count_since email since [] = 0
count_since email since (o ∷ otps) =
    (if o.email == email && ltb since o.created_at then 1 else 0) + count_since email since otps

unfoldable pub count_by_email_since : String → ℕ → Db ℕ
unfolding count_since
count_by_email_since email since = query (λ w. ok (count_since email since w.otp_codes))

-- UPDATE … SET used = true WHERE id = $1 AND used = false
unfoldable pub mark_used : String → List OtpCode → List OtpCode
mark_used id [] = []
mark_used id (o ∷ otps) =
    (if o.id == id && not o.used then record o { used = true } else o) ∷ mark_used id otps

unfoldable pub unused : String → List OtpCode → Bool
unused id [] = false
unused id (o ∷ otps) = (o.id == id && not o.used) || unused id otps

-- The result says whether a row was changed.
unfoldable pub mark_used_if_unused : String → Db Bool
unfolding mark_used unused
mark_used_if_unused id =
    statement
      (λ w. (ok (unused id w.otp_codes), record w.tables { otp_codes = mark_used id w.otp_codes }))

unfoldable pub add_attempt : String → List OtpCode → List OtpCode
add_attempt id [] = []
add_attempt id (o ∷ otps) =
    (if o.id == id then record o { attempts = o.attempts + 1 } else o) ∷ add_attempt id otps

attempts_of : String → List OtpCode → Result ℕ
attempts_of id [] = err no_rows
attempts_of id (o ∷ otps) =
    let rest = attempts_of id otps in if o.id == id then ok o.attempts else rest

-- RETURNING attempts: the new number, or sql.ErrNoRows.
unfoldable pub increment_attempts : String → Db ℕ
unfolding add_attempt attempts_of
increment_attempts id = statement (λ w.
    let otps = add_attempt id w.otp_codes in
    (attempts_of id otps, record w.tables { otp_codes = otps }))

unfoldable pub invalidate : String → ℕ → List OtpCode → List OtpCode
invalidate email now [] = []
invalidate email now (o ∷ otps) =
    (if o.email == email && (not o.used && ltb now o.expires_at)
      then record o { used = true }
      else o)
    ∷ invalidate email now otps

unfoldable pub invalidate_by_email : String → Db (Unit {0})
unfolding invalidate
invalidate_by_email email =
    statement (λ w. (ok tt, record w.tables { otp_codes = invalidate email w.now w.otp_codes }))

unfoldable pub delete_expired : Db (Unit {0})
delete_expired = statement (λ w.
    (ok tt, record w.tables { otp_codes = where_ (λ o. not (ltb o.expires_at w.now)) w.otp_codes }))
