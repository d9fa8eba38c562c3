-- ===== src/Storage/Otps/Storing.antt =====
-- What Create of internal/storage/postgres/otpcode_repository.go stores is found under its id.
use scouting_app.Base.{
  ℕ, String, ◌≡◌, refl, false, List, [], ◌∷◌, ◌++◌, some, ◌==◌, eq_refl, inl, inr, Bool-cases, any,
  arith,
}
use scouting_app.Db.{World, OtpCode, tick}
use scouting_app.Db.Triples.{
  Triple, Either, Triple-pure, Triple-bind, Triple-statement, Triple-if, Triple-new_uuid,
  Triple-given,
}
use scouting_app.Storage.Otps.{find_otp, insert_otp, create_otp}

find_otp-last :
    (o : OtpCode) (otps : List OtpCode)
    → any (λ q. q.id == o.id) otps ≡ false
    → find_otp o.id (otps ++ o ∷ []) ≡ some o
unfolding find_otp
find_otp-last o [] h = rw (eq_refl o.id) refl
find_otp-last o (q ∷ otps) h = elim (Bool-cases (q.id == o.id)) [
  | inl e ↦ ground arith
  | inr e ↦ rw e (find_otp-last o otps (rw e at h))
]

module _ (now : ℕ) where
  -- The clock's time, and the next uuid is not empty.
  abbrev pub HasNewId : World → Type 0
  HasNewId w = (w.now ≡ now) × ((w.uuid w.uuids == "") ≡ false)

  -- The code is stored as it was made, with an id and the moment of its creation.
  abbrev pub Stored : OtpCode → OtpCode → World → Type 0
  Stored made o w =
      ((o.id == "") ≡ false)
      × (t : ℕ) × (find_otp o.id w.otp_codes ≡ some (record made { id = o.id; created_at = t }))

  insert_otp-Stored :
      (made : OtpCode) (id : String) (w : World)
      → (id == "") ≡ false
      → Either
          (Stored made)
          (λ w. Unit {0})
          (insert_otp (record made { id = id }) w).0
          (record (tick w) { tables = (insert_otp (record made { id = id }) w).1 })
  unfolding insert_otp
  insert_otp-Stored made id w h = elim (Bool-cases (any (λ q. q.id == id) w.otp_codes)) [
    | inl q ↦ rw q tt
    | inr q ↦ rw q (h, _, find_otp-last _ w.otp_codes q)
  ]

  pub create_otp-Stored :
      (made : OtpCode) → Triple HasNewId (create_otp made) (Either (Stored made) (λ w. Unit {0}))
  unfolding create_otp
  create_otp-Stored made =
      Triple-bind (λ id w. Unit {0} × ((id == "") ≡ false)) _ _
        (Triple-if (made.id == "") _ _ (λ q. Triple-new_uuid (λ w h. (tt, h.1)))
          (λ q. Triple-pure _ (λ w h. (tt, q))))
        (λ id.
          Triple-given _
            (λ h. Triple-statement _ (λ w k. insert_otp-Stored made id w h) (λ w k. tt)))
