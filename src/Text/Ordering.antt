-- ===== src/Text/Ordering.antt =====
-- The order of Go strings is total and antisymmetric.
use Prim.Native.Nat.{ℕ, Ordering, compare as compare_nat}
use Prim.Native.Char.{code}
use Prim.Native.String.{String, ◌∷◌, [], compare, then}
use Prim.Native.String.compare
use mathlib.Core.Path.{◌≡◌, refl}
use mathlib.Core.Bool.{true, false}
use native.Mathlib.Omega.{arith}
use text.Mathlib.TextEquality.{path_by_compare}
use scouting_app.Text.{str_le}

abbrev flip : Ordering → Ordering
flip Ordering.lt = Ordering.gt
flip Ordering.eq = Ordering.eq
flip Ordering.gt = Ordering.lt

flip-then : (o r : Ordering) → flip (then o r) ≡ then (flip o) (flip r)
flip-then Ordering.lt r = refl
flip-then Ordering.eq r = refl
flip-then Ordering.gt r = refl

flip-compare_nat : (m n : ℕ) → compare_nat n m ≡ flip (compare_nat m n)
flip-compare_nat m n = ground arith

flip-compare : (s t : String) → compare t s ≡ flip (compare s t)
flip-compare [] [] = refl
flip-compare [] (d ∷ t) = rw (compare.nil-cons d t, compare.cons-nil d t)
flip-compare (c ∷ s) [] = rw (compare.nil-cons c s, compare.cons-nil c s)
flip-compare (c ∷ s) (d ∷ t) =
    rw (compare.cons-cons c d s t, compare.cons-cons d c t s, flip-then)
      (cc (flip-compare_nat (code c) (code d), flip-compare s t))

pub str_le_total : (s t : String) → str_le s t ≡ false → str_le t s ≡ true
str_le_total s t h = ground (arith, flip-compare s t)

pub str_le_antisymm : (s t : String) → str_le s t ≡ true → str_le t s ≡ true → s ≡ t
str_le_antisymm s t h k = ground (arith, flip-compare s t, path_by_compare s t)
