-- ===== src/Storage/Otps/Keeping.antt =====
-- The operations of internal/storage/postgres/otpcode_repository.go keep the limits on codes.
use scouting_app.Base.{
  ℕ, String, ◌≡◌, ap, ◌∙◌, true, false, some, ◌==◌, inl, inr, Bool-cases, any, ltb, leb,
}
use scouting_app.Db.{World, OtpCode, tick}
use scouting_app.Db.Triples.{
  Triple, Triple-pure, Triple-bind, Triple-statement, Triple-if, Triple-new_uuid,
}
use scouting_app.Storage.Otps.{
  insert_otp, create_otp, find_otp, count_since, mark_used_if_unused, increment_attempts,
  invalidate_by_email,
}
use scouting_app.Storage.Otps.Limits.{
  Within, mark_used-Within, invalidate-Within, add_attempt-Within, insert-Within,
  count_since-invalidate,
}

module _ (now since : ℕ) where
  -- The clock's time, and the limits.
  abbrev pub At : World → Type 0
  At w = (w.now ≡ now) × Within since w.otp_codes

  -- There is room for one more code of the address.
  abbrev pub HasRoom : String → World → Type 0
  HasRoom email w = At w × (leb 5 (count_since email since w.otp_codes) ≡ false)

  -- A code that was found has been tried less than five times.
  abbrev pub MayBeTried : String → OtpCode → World → Type 0
  MayBeTried id o w = At w × (find_otp id w.otp_codes ≡ some o) × (ltb o.attempts 5 ≡ true)

  insert-At :
      (o : OtpCode) (w : World)
      → o.attempts ≡ 0
      → HasRoom o.email w
      → At (record (tick w) { tables = (insert_otp o w).1 })
  unfolding insert_otp
  insert-At o w z ((t, k), room) = elim (Bool-cases (any (λ q. q.id == o.id) w.otp_codes)) [
    | inl q ↦ rw q (t, k)
    | inr q ↦ rw q (t, insert-Within since w.otp_codes _ q z room k)
  ]

  pub create_otp-Kept :
      (o : OtpCode) → o.attempts ≡ 0 → Triple (HasRoom o.email) (create_otp o) (λ r. At)
  unfolding create_otp
  create_otp-Kept o z =
      Triple-bind (λ id. HasRoom o.email) _ _
        (Triple-if (o.id == "") _ _ (λ q. Triple-new_uuid (λ w h. h))
          (λ q. Triple-pure _ (λ w h. h)))
        (λ id. Triple-statement _ (λ w h. insert-At (record o { id = id }) w z h) (λ w h. h.0))

  pub mark_used_if_unused-Kept : (id : String) → Triple At (mark_used_if_unused id) (λ r. At)
  unfolding mark_used_if_unused
  mark_used_if_unused-Kept id =
      Triple-statement _ (λ w h. (h.0, mark_used-Within since id w.otp_codes h.1)) (λ w h. h)

  pub increment_attempts-Kept :
      (id : String) (o : OtpCode) → Triple (MayBeTried id o) (increment_attempts id) (λ r. At)
  unfolding increment_attempts
  increment_attempts-Kept id o =
      Triple-statement _
        (λ w h.
          let (t, found, few) = h in (t.0, add_attempt-Within since id o w.otp_codes found few t.1))
        (λ w h. h.0)

  pub invalidate_by_email-Kept :
      (email : String) → Triple (HasRoom email) (invalidate_by_email email) (λ r. HasRoom email)
  unfolding invalidate_by_email
  invalidate_by_email-Kept email =
      Triple-statement _
        (λ w h. (
          (h.0.0, invalidate-Within since email w.now w.otp_codes h.0.1),
          ap (λ n. leb 5 n) (count_since-invalidate email since email w.now w.otp_codes) ∙ h.1,
        ))
        (λ w h. h)
