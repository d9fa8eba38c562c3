-- ===== src/Text/Decimal.antt =====
-- strconv.Itoa, the %d of fmt, and strconv.Atoi, on the int of a 64-bit machine.
use Prim.Native.Char.{Char, code}
use Prim.Native.String.{◌∷◌, []}
use mathlib.Core.Logic.{dite, dif_pos, dif_neg}
use mathlib.Core.WellFounded.{Acc, WellFounded}
use native.Mathlib.Decide.{dec_lt}
use native.Mathlib.Bridge.{le_prop}
use scouting_app.Base.{
  ℕ, zero, suc, ◌+◌, ◌-◌, ◌*◌, ◌/◌, ◌%◌, ◌^◌, ◌≤◌, ◌<◌, String, ◌≡◌, refl, ap, ◌∙◌, true, false,
  ◌||◌, Option, none, some, arith, ltb, nat_eq, if◌then◌else◌,
}
use scouting_app.Base.Int.{ℤ, pos, negsuc}

below-Acc : (k n : ℕ) → n < k → Acc ◌<◌ n
below-Acc zero n h = elim h [ ]
below-Acc (suc k) n h = Acc.intro n (λ m hm. below-Acc k m (omega arith))

lt_wf : WellFounded ◌<◌
unfolding below-Acc
lt_wf = record { apply = λ n. below-Acc (suc n) n (omega arith) }

abbrev pub digit : ℕ → Char
digit d =
    if nat_eq d 0
    then "0"
    else if nat_eq d 1
    then "1"
    else if nat_eq d 2
    then "2"
    else if nat_eq d 3
    then "3"
    else if nat_eq d 4
    then "4"
    else if nat_eq d 5
    then "5"
    else if nat_eq d 6
    then "6"
    else if nat_eq d 7
    then "7"
    else if nat_eq d 8
    then "8"
    else "9"

emit : (n : ℕ) → Acc ◌<◌ n → String → String
emit n (Acc.intro _ smaller) out =
    dite (dec_lt 9 n) (λ h. emit (n / 10) (smaller (n / 10) (omega arith)) (digit (n % 10) ∷ out))
      (λ _. digit n ∷ out)

unfoldable pub format_nat : ℕ → String
unfolding emit lt_wf dec_lt below-Acc
format_nat n = emit n (lt_wf.apply n) []

unfoldable pub itoa : ℤ → String
unfolding format_nat
itoa (pos n) = format_nat n
itoa (negsuc n) = "-" ∷ format_nat (suc n)

-- An int result out of range wraps around.
abbrev pub wrap_int : ℕ → ℤ
wrap_int n = let m = n % 2 ^ 64 in if ltb m (2 ^ 63) then pos m else negsuc (2 ^ 64 - m - 1)

scan : String → ℕ → Option ℕ
scan [] n = some n
scan (c ∷ s) n =
    let rest = scan s (n * 10 + (code c - b'0')) in
    if ltb (code c) b'0' || ltb b'9' (code c) then none else rest

parse_nat : String → Option ℕ
unfolding scan
parse_nat [] = none
parse_nat (c ∷ s) = scan (c ∷ s) 0

abbrev bounded_pos : Option ℕ → Option ℤ
bounded_pos none = none
bounded_pos (some n) = if ltb n (2 ^ 63) then some (pos n) else none

abbrev bounded_neg : Option ℕ → Option ℤ
bounded_neg none = none
bounded_neg (some zero) = some (pos 0)
bounded_neg (some (suc n)) = if ltb n (2 ^ 63) then some (negsuc n) else none

-- An error, of the syntax or of the range, is `none`.
unfoldable pub atoi : String → Option ℤ
unfolding parse_nat
atoi [] = none
atoi (c ∷ s) =
    if nat_eq (code c) b'-'
    then bounded_neg (parse_nat s)
    else if nat_eq (code c) b'+'
    then bounded_pos (parse_nat s)
    else bounded_pos (parse_nat (c ∷ s))

digit_code : (d : ℕ) → d < 10 → code (digit d) ≡ d + b'0'
digit_code zero h = refl
digit_code (suc zero) h = refl
digit_code (suc (suc zero)) h = refl
digit_code (suc (suc (suc zero))) h = refl
digit_code (suc (suc (suc (suc zero)))) h = refl
digit_code (suc (suc (suc (suc (suc zero))))) h = refl
digit_code (suc (suc (suc (suc (suc (suc zero)))))) h = refl
digit_code (suc (suc (suc (suc (suc (suc (suc zero))))))) h = refl
digit_code (suc (suc (suc (suc (suc (suc (suc (suc zero)))))))) h = refl
digit_code (suc (suc (suc (suc (suc (suc (suc (suc (suc zero))))))))) h = refl
digit_code (suc (suc (suc (suc (suc (suc (suc (suc (suc (suc n)))))))))) h = absurd (omega arith)

lt_low : (d : ℕ) → ltb (d + b'0') b'0' ≡ false
lt_low d = ground arith

lt_high : (d : ℕ) → d < 10 → ltb b'9' (d + b'0') ≡ false
lt_high d h = ground arith

digit_in_range : (d : ℕ) → d < 10 → (ltb (d + b'0') b'0' || ltb b'9' (d + b'0')) ≡ false
digit_in_range d h = rw (lt_low d, lt_high d h) refl

cancel : (d : ℕ) → d + b'0' - b'0' ≡ d
cancel d = omega arith

scan-digit :
    (d : ℕ) (out : String) (m : ℕ) → d < 10 → scan (digit d ∷ out) m ≡ scan out (m * 10 + d)
unfolding scan
scan-digit d out m h = rw (digit_code d h, digit_in_range d h, cancel d) refl

-- Reading back what `emit` wrote for `n`, after a prefix that read as `m`.
scan-emit :
    (n : ℕ) (w : Acc ◌<◌ n) (out : String) (m : ℕ)
    → (p : ℕ) × (scan (emit n w out) m ≡ scan out (m * p + n))
unfolding emit
scan-emit n (Acc.intro _ smaller) out m = elim (dec_lt 9 n) [
  | yes h ↦
      let r = scan-emit (n / 10) (smaller (n / 10) (omega arith)) (digit (n % 10) ∷ out) m in
      (
        r.0 * 10,
        rw (dif_pos _ le_prop h)
            (r.1 ∙ scan-digit (n % 10) out _ (omega arith) ∙ ap (scan out) (omega arith)),
      )
  | no h ↦ (10, rw (dif_neg _ h) (scan-digit n out m (omega arith)))
]

scan-format_nat : (n : ℕ) → scan (format_nat n) 0 ≡ some n
unfolding format_nat
scan-format_nat n =
    let r = scan-emit n (lt_wf.apply n) [] 0 in r.1 ∙ last (0 * r.0 + n) n (omega arith)
  where
    last : (a b : ℕ) → a ≡ b → scan [] a ≡ some b
    last a b e = unfold scan in ap some e

-- The first character that `emit` leaves is a digit.
abbrev StartsWithDigit : String → Type 0
StartsWithDigit [] = ⊥
StartsWithDigit (c ∷ s) = (b'0' ≤ code c) × (code c ≤ b'9')

emit-StartsWithDigit : (n : ℕ) (w : Acc ◌<◌ n) (out : String) → StartsWithDigit (emit n w out)
unfolding emit
emit-StartsWithDigit n (Acc.intro _ smaller) out = elim (dec_lt 9 n) [
  | yes h ↦
      rw (dif_pos _ le_prop h)
        (emit-StartsWithDigit (n / 10) (smaller (n / 10) (omega arith)) (digit (n % 10) ∷ out))
  | no h ↦
      rw (dif_neg _ h)
        (omega (arith, digit_code n (omega arith)), omega (arith, digit_code n (omega arith)))
]

atoi-digits :
    (s : String) (n : ℕ)
    → StartsWithDigit s
    → scan s 0 ≡ some n
    → n < 2 ^ 63
    → atoi s ≡ some (pos n)
unfolding atoi
atoi-digits [] n d e h = absurd d
atoi-digits (c ∷ s) n d e h = rw (not_minus, not_plus, e) (rw below refl)
  where
    not_minus : nat_eq (code c) b'-' ≡ false
    not_minus = ground arith

    not_plus : nat_eq (code c) b'+' ≡ false
    not_plus = ground arith

    below : ltb n (2 ^ 63) ≡ true
    below = ground arith

-- strconv.Atoi reads back what %d prints, for each int that is not negative.
pub atoi-itoa : (n : ℕ) → n < 2 ^ 63 → atoi (itoa (pos n)) ≡ some (pos n)
unfolding itoa
atoi-itoa n h =
    atoi-digits (format_nat n) n (emit-StartsWithDigit n (lt_wf.apply n) []) (scan-format_nat n) h
