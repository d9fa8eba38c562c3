-- ===== src/Text/Casing.antt =====
-- strings.ToLower, of the letters of ASCII (Go knows the lower case of other letters too), and
-- strings.TrimSpace; len.
use Prim.Native.Char.{Char, code}
use Prim.Native.String.{◌∷◌, []}
use scouting_app.Base.{
  ℕ, zero, suc, ◌+◌, ◌-◌, String, Bool, ◌&&◌, ◌||◌, ltb, leb, nat_eq, ◌==◌, if◌then◌else◌,
}

nth_char : String → ℕ → Char → Char
nth_char [] n default = default
nth_char (c ∷ s) zero default = c
nth_char (c ∷ s) (suc n) default = nth_char s n default

lower : Char → Char
unfolding nth_char
lower c =
    if leb b'A' (code c) && leb (code c) b'Z'
    then nth_char "abcdefghijklmnopqrstuvwxyz" (code c - b'A') c
    else c

unfoldable pub to_lower : String → String
unfolding lower
to_lower [] = []
to_lower (c ∷ s) = lower c ∷ to_lower s

-- unicode.IsSpace
is_space : ℕ → Bool
is_space n =
    (leb 9 n && leb n 13)
    || (nat_eq n 32
        || (nat_eq n 0x85
            || (nat_eq n 0xa0
                || (nat_eq n 0x1680
                    || ((leb 0x2000 n && leb n 0x200a)
                        || (nat_eq n 0x2028
                            || (nat_eq n 0x2029
                                || (nat_eq n 0x202f || (nat_eq n 0x205f || nat_eq n 0x3000)))))))))

trim_left : String → String
unfolding is_space
trim_left [] = []
trim_left (c ∷ s) = let rest = trim_left s in if is_space (code c) then rest else c ∷ s

trim_right : String → String
unfolding is_space
trim_right [] = []
trim_right (c ∷ s) =
    let rest = trim_right s in if is_space (code c) && rest == "" then [] else c ∷ rest

unfoldable pub trim_space : String → String
unfolding trim_left trim_right
trim_space s = trim_right (trim_left s)

-- len(s): the bytes of the UTF-8.
unfoldable pub byte_length : String → ℕ
byte_length [] = 0
byte_length (c ∷ s) =
    (if ltb (code c) 0x80
      then 1
      else if ltb (code c) 0x800
      then 2
      else if ltb (code c) 0x10000
      then 3
      else 4)
    + byte_length s
