-- ===== src/Text.antt =====
-- The functions of Go's strings, strconv and fmt that the program calls, over the native texts.
-- A Go string is a sequence of bytes; the texts here are sequences of characters, and none of
-- these functions cuts a character of several bytes.
pub mod Casing
pub mod Decimal
pub mod Ordering
pub mod Splitting
pub mod Tests
use Prim.Native.Char.{code}
use Prim.Native.String.{String, ◌∷◌, [], ◌++◌, compare}
use mathlib.Core.List
use mathlib.Core.Path.{◌≡◌, refl, sym, ◌∙◌}
use mathlib.Core.Logic.{inl, inr}
use text.Mathlib.TextEquality.{eq_iff}
use mathlib.Core.Bool.{Bool, true, false, ◌&&◌, ◌||◌}
use mathlib.Core.Option.{Option, none, some}
use native.Mathlib.Omega.{arith}
use text.Mathlib.Text.{is_le, ◌==◌}
use text.Mathlib.TextLemmas.{nil-append, cons-append}
use scouting_app.Base.Tests.{Bool-cases, nat_eq, nat_eq_iff, if◌then◌else◌}

-- a <= b on Go strings: by the bytes of the UTF-8, which is the order by characters.
abbrev pub str_le : String → String → Bool
str_le a b = is_le (compare a b)

-- A format without verbs but %s: the pieces one after another.
abbrev pub concat : List.List String → String
concat List.[] = ""
concat (List.◌∷◌ s rest) = s ++ concat rest

-- strings.Join
unfoldable pub join : String → List.List String → String
join sep List.[] = ""
join sep (List.◌∷◌ s List.[]) = s
join sep (List.◌∷◌ s (List.◌∷◌ t rest)) = s ++ (sep ++ join sep (List.◌∷◌ t rest))

-- strings.HasPrefix and strings.TrimPrefix at once: what follows the prefix.
unfoldable pub after_prefix : String → String → Option String
after_prefix [] s = some s
after_prefix (c ∷ p) [] = none
after_prefix (c ∷ p) (d ∷ s) =
    let rest = after_prefix p s in if nat_eq (code c) (code d) then rest else none

unfoldable pub has_prefix : String → String → Bool
has_prefix s [] = true
has_prefix [] (c ∷ p) = false
has_prefix (d ∷ s) (c ∷ p) = nat_eq (code d) (code c) && has_prefix s p

-- strings.Contains
unfoldable pub contains : String → String → Bool
unfolding has_prefix
contains [] p = has_prefix [] p
contains (c ∷ s) p = has_prefix (c ∷ s) p || contains s p

pub after_prefix-append : (p s : String) → after_prefix p (p ++ s) ≡ some s
unfolding after_prefix
after_prefix-append [] s = rw (nil-append s)
after_prefix-append (c ∷ p) s =
    rw (cons-append c p s)
      (ground (arith, after_prefix-append p s, (nat_eq_iff (code c) (code c)).1 refl))

-- A Go map with text keys that is used as a set, seen as the list of its keys.
unfoldable pub has_key : String → List.List String → Bool
has_key k List.[] = false
has_key k (List.◌∷◌ j keys) = j == k || has_key k keys

pub eq_comm : (a b : String) → (a == b) ≡ (b == a)
eq_comm a b = elim (Bool-cases (a == b)) [
  | inl q ↦ q ∙ sym ((eq_iff b a).1 (sym ((eq_iff a b).0 q)))
  | inr q ↦ elim (Bool-cases (b == a)) [
    | inl u ↦ absurd (ground (arith, (eq_iff a b).1 (sym ((eq_iff b a).0 u))))
    | inr u ↦ q ∙ sym u
  ]
]
