-- ===== src/Storage/Otps/Once.antt =====
-- A one-time code is redeemed once: MarkUsedIfUnused of internal/storage/postgres/
-- otpcode_repository.go.
use scouting_app.Base.{
  String, ◌≡◌, ◌≢◌, refl, sym, ap, ◌∙◌, Bool, true, false, not, ◌&&◌, List, [], ◌∷◌, ◌==◌, inl, inr,
  Bool-cases, arith,
}
use scouting_app.Db.{World, OtpCode, ok}
use scouting_app.Db.Runs.{ok-injective}
use scouting_app.Db.Ensures.{Ensures, Ensures-statement, result-Ensures}
use scouting_app.Storage.Otps.{mark_used_if_unused, mark_used, unused}

pub unused-mark_used : (id : String) (otps : List OtpCode) → unused id (mark_used id otps) ≡ false
unfolding unused mark_used
unused-mark_used id [] = refl
unused-mark_used id (o ∷ otps) = elim (Bool-cases (o.id == id && not o.used)) [
  | inl q ↦ rw q (ground (arith, unused-mark_used id otps))
  | inr q ↦ rw q (rw q (unused-mark_used id otps))
]

mark-Ensures :
    (id : String)
    → Ensures (λ t. Unit {0}) (mark_used_if_unused id) (λ b t. unused id t.otp_codes ≡ false)
unfolding mark_used_if_unused
mark-Ensures id = Ensures-statement _ (λ w b h r. unused-mark_used id w.otp_codes)

spent-Ensures :
    (id : String)
    → Ensures (λ t. unused id t.otp_codes ≡ false) (mark_used_if_unused id) (λ b t. b ≡ false)
unfolding mark_used_if_unused
spent-Ensures id = Ensures-statement _ (λ w b h r. sym (ok-injective _ _ r) ∙ h)

-- After a call of MarkUsedIfUnused that returned no error, a call for the same code in a world
-- with the tables that it left, whatever the clock and the connection do, does not return true.
pub mark_used_if_unused-once :
    (id : String) (w v : World) (b : Bool)
    → (mark_used_if_unused id w).0 ≡ ok b
    → v.tables ≡ (mark_used_if_unused id w).1.tables
    → (mark_used_if_unused id v).0 ≢ ok true
mark_used_if_unused-once id w v b h same k =
    let spent : unused id v.otp_codes ≡ false =
      ap (λ t. unused id t.otp_codes) same ∙ result-Ensures _ w b (mark-Ensures id) tt h in
    ground (arith, result-Ensures _ v true (spent-Ensures id) spent k)
