-- ===== src/Text/Tests.antt =====
-- Texts and numbers at work.
use scouting_app.Base.{◌≡◌, refl, [], ◌∷◌, some}
use scouting_app.Base.Int.{pos, negsuc}
use scouting_app.Text.Decimal.{itoa, atoi}
use scouting_app.Text.Splitting.{split_comma_space}

atoi_negative : atoi "-12" ≡ some (negsuc 11)
unfolding atoi
atoi_negative = refl

itoa_small : itoa (pos 1203) ≡ "1203"
unfolding itoa
itoa_small = refl

split_two : split_comma_space "Scribe, Patrol Leader" ≡ "Scribe" ∷ "Patrol Leader" ∷ []
unfolding split_comma_space
split_two = refl
