-- ===== src/Text/Splitting.antt =====
-- strings.Split by the separator ", ".
use Prim.Native.Char.{Char, code}
use Prim.Native.String.{◌∷◌, []}
use mathlib.Core.List
use scouting_app.Base.{String, ◌&&◌, nat_eq, if◌then◌else◌}

-- A character in front of the first piece.
abbrev onto_first : Char → List.List String → List.List String
onto_first c List.[] = List.◌∷◌ (c ∷ []) List.[]
onto_first c (List.◌∷◌ s rest) = List.◌∷◌ (c ∷ s) rest

unfoldable pub split_comma_space : String → List.List String
split_comma_space [] = List.◌∷◌ [] List.[]
split_comma_space (c ∷ []) = List.◌∷◌ (c ∷ []) List.[]
split_comma_space (c ∷ d ∷ s) =
    let here = List.◌∷◌ [] (split_comma_space s) in
    let later = onto_first c (split_comma_space (d ∷ s)) in
    if nat_eq (code c) b',' && nat_eq (code d) b' ' then here else later
