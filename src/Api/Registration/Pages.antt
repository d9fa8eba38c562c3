-- ===== src/Api/Registration/Pages.antt =====
-- maskEmail of internal/api/registration.go, on addresses of ASCII characters.
use Prim.Native.Char.{code}
use Prim.Native.String.{◌∷◌, [], ◌++◌}
use scouting_app.Base.{ℕ, String, Option, none, some, nat_eq, if◌then◌else◌}

-- What stands before the first character with a code, and from it on.
break_at : ℕ → String → Option (String × String)
break_at n [] = none
break_at n (c ∷ s) =
    let rest = break_at n s in
    if nat_eq (code c) n
    then some ("", c ∷ s)
    else elim rest [ none ↦ none | some (before, after) ↦ some (c ∷ before, after) ]

-- strings.Repeat("*", len(s))
stars : String → String
stars [] = ""
stars (c ∷ s) = "*" ++ stars s

mask_domain : String → Option (String × String) → String
unfolding stars
mask_domain s none = s
mask_domain s (some ([], after)) = s
mask_domain s (some (c ∷ before, after)) = stars (c ∷ before) ++ after

-- The part from the @ on.
mask_suffix : String → String
unfolding mask_domain break_at
mask_suffix [] = []
mask_suffix (c ∷ s) = c ∷ mask_domain s (break_at b'.' s)

mask_parts : String → Option (String × String) → String
unfolding mask_suffix stars
mask_parts email none = email
mask_parts email (some ([], suffix)) = email
mask_parts email (some (c ∷ [], suffix)) = email
mask_parts email (some (c ∷ d ∷ prefix, suffix)) = c ∷ (stars (d ∷ prefix) ++ mask_suffix suffix)

unfoldable pub mask_email : String → String
unfolding mask_parts break_at
mask_email email = mask_parts email (break_at b'@' email)
