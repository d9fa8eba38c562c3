-- ===== src/OneTimeCode/Drawing.antt =====
-- The codes that GenerateCode of internal/domain/otpcode/otpcode.go draws are not empty.
use text.Mathlib.TextLemmas.{append-eq-nil_iff, cons≢nil}
use scouting_app.Base.{
  ℕ, zero, suc, ◌<◌, String, ◌≡◌, refl, sym, ◌∙◌, false, Option, none, some, ◌==◌, eq_iff, inl, inr,
  Option-cases, Bool-cases, arith,
}
use mathlib.Core.Path.{subst}
use Prim.Native.String.{◌∷◌, [], ◌++◌}
use Prim.Native.Char.{Char}
use scouting_app.OneTimeCode.{nth_digit, draw_digits, generate_code}

abbrev size : String → ℕ
size [] = 0
size (c ∷ s) = suc (size s)

nth_digit-char : (s : String) (d : ℕ) → d < size s → (c : Char) × (nth_digit s d ≡ c ∷ "")
unfolding nth_digit
nth_digit-char [] d h = absurd (omega arith)
nth_digit-char (c ∷ s) zero h = (c, refl)
nth_digit-char (c ∷ s) (suc d) h = nth_digit-char s d (omega arith)

begun : (d : ℕ) (code : String) → d < 10 → ((nth_digit "0123456789" d ++ code) == "") ≡ false
begun d code h = elim (Bool-cases ((nth_digit "0123456789" d ++ code) == "")) [
  | inl q ↦
      let (c, e) = nth_digit-char "0123456789" d h in
      absurd (cons≢nil (sym e ∙ (append-eq-nil_iff.0 ((eq_iff _ _).0 q)).0))
  | inr q ↦ q
]

abbrev Filled : Option String → Type 0
Filled none = Unit {0}
Filled (some code) = (code == "") ≡ false

module _ (draw : ℕ → Option ℕ) (digits : (n d : ℕ) → draw n ≡ some d → d < 10) where
  generate_code-Filled : Filled (generate_code draw)
  unfolding generate_code draw_digits
  generate_code-Filled = elim (Option-cases (draw 0)) [
    | inl q ↦ rw q tt
    | inr (d, q) ↦ elim (Option-cases (draw_digits draw 1 5)) [
      | inl r ↦ rw (q, r) tt
      | inr (code, r) ↦ rw (q, r) (begun d code (digits 0 d q))
    ]
  ]

  pub generate_code-filled : (code : String) → generate_code draw ≡ some code → (code == "") ≡ false
  generate_code-filled code h = subst Filled h generate_code-Filled
