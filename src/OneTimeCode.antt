-- ===== src/OneTimeCode.antt =====
-- internal/domain/otpcode/otpcode.go. The draws of rand.Int, whose limit is 10, and sha256.Sum256 are
-- arguments; a failed draw is `none`.
pub mod Drawing
use scouting_app.Base.{
  ℕ, zero, suc, ◌+◌, ◌*◌, String, Bool, false, not, ◌&&◌, Option, none, some, ltb,
}
use Prim.Native.String.{◌∷◌, [], ◌++◌}
use scouting_app.Db.{OtpCode, Db, pure, time_now, ◌>>=◌}

abbrev pub nanoseconds : ℕ → ℕ
nanoseconds seconds = seconds * 1000000000

abbrev pub code_length : ℕ
code_length = 6

abbrev pub code_expiry : ℕ
code_expiry = nanoseconds 600

abbrev pub max_attempts : ℕ
max_attempts = 5

-- digits[n]
nth_digit : String → ℕ → String
nth_digit [] n = ""
nth_digit (c ∷ s) zero = c ∷ ""
nth_digit (c ∷ s) (suc n) = nth_digit s n

-- The loop over the places of the code, from the i-th draw on.
draw_digits : (ℕ → Option ℕ) → ℕ → ℕ → Option String
unfolding nth_digit
draw_digits draw i zero = some ""
draw_digits draw i (suc n) =
    let rest = draw_digits draw (suc i) n in
    elim (draw i) [
      | none ↦ none
      | some d ↦ elim rest [ none ↦ none | some code ↦ some (nth_digit "0123456789" d ++ code) ]
    ]

unfoldable pub generate_code : (ℕ → Option ℕ) → Option String
unfolding draw_digits
generate_code draw = draw_digits draw 0 code_length

unfoldable pub new_otp_code :
    (String → String) → (ℕ → Option ℕ) → String → ℕ → Option (String × OtpCode)
unfolding generate_code
new_otp_code sum256 draw email now = elim (generate_code draw) [
  | none ↦ none
  | some code ↦ some (
    code,
    record {
      id = "";
      email = email;
      code_hash = sum256 code;
      expires_at = now + code_expiry;
      used = false;
      attempts = 0;
      created_at = now;
    },
  )
]

unfoldable pub is_expired : OtpCode → Db Bool
is_expired o = do now ← time_now; pure (ltb o.expires_at now)

unfoldable pub is_valid : OtpCode → Db Bool
unfolding is_expired
is_valid o = do
  expired ← is_expired o
  pure (not expired && (not o.used && ltb o.attempts max_attempts))
