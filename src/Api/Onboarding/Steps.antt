-- ===== src/Api/Onboarding/Steps.antt =====
-- The steps of the onboarding form (internal/api/onboarding.go), one request after another: what
-- the cookie holds.
use scouting_app.Base.{
  String, ◌≡◌, refl, Bool, true, false, not, ◌&&◌, ◌||◌, List, [], ◌∷◌, ◌++◌, ◌==◌, inl, inr,
  Bool-cases, All, arith,
}
use scouting_app.Text.Casing.{to_lower, trim_space}
use scouting_app.Db.{World, Result, ok, err, pure}
use scouting_app.Pages.{Answers}
use scouting_app.Api.{Write, Handler, redirect, save_onboarding, clear_onboarding}
use scouting_app.Api.Onboarding.{
  no_answers, load_form, lacks_unit, lacks_timezone, save_form, clear_form, welcome_page, personal,
  unit, timezone,
}

-- The cookie that the browser has after a response.
unfoldable pub cookie_after : Answers → List Write → Answers
cookie_after a [] = a
cookie_after a (save_onboarding b ∷ writes) = cookie_after b writes
cookie_after a (clear_onboarding ∷ writes) = cookie_after no_answers writes
cookie_after a (_ ∷ writes) = cookie_after a writes

unfoldable pub cookie_from : Answers → Result (List Write) → Answers
unfolding cookie_after
cookie_from a (ok writes) = cookie_after a writes
cookie_from a (err e) = a

pub data Step : Type 0 where
  get_welcome : Step
  post_personal : String → String → String → String → Step
  post_unit : String → String → String → Step
  post_timezone : String → Step

abbrev pub filled : String → Bool
filled s = not (s == "")

-- A step is filled in as a whole or not at all.
abbrev pub AreWhole : Answers → Type 0
AreWhole a =
    ((a.first_name == "" || (filled a.last_name && (filled a.email && filled a.bsa_id))) ≡ true)
    × ((a.unit_type == "" || (filled a.unit_number && filled a.org_guid)) ≡ true)

-- All eight answers are given.
abbrev pub AreFilled : Answers → Type 0
AreFilled a =
    All (λ s. filled s ≡ true)
      (a.first_name ∷ a.last_name ∷ a.email ∷ a.bsa_id ∷ a.unit_type ∷ a.unit_number ∷ a.org_guid
        ∷ a.timezone ∷ [])

whole-AreFilled : (a : Answers) → lacks_timezone a ≡ false → AreWhole a → AreFilled a
whole-AreFilled a h (k, l) = (
  ground arith,
  (
    ground arith,
    (
      ground arith,
      (ground arith, (ground arith, (ground arith, (ground arith, (ground arith, tt))))),
    ),
  ),
)

module _ (save : Answers → Bool) where
  abbrev pub answer_step : Answers → Step → Handler
  answer_step a get_welcome = welcome_page (ok a) save
  answer_step a (post_personal first last email bsa_id) =
      personal (ok a) save first last email bsa_id
  answer_step a (post_unit type number guid) = unit (ok a) save type number guid
  answer_step a (post_timezone zone) = timezone (ok a) save zone

  unfoldable pub after : List Step → Answers → World → Answers
  unfolding cookie_from
  after [] a w = a
  after (s ∷ steps) a w = after steps (cookie_from a (answer_step a s w).0) (answer_step a s w).1

  saved-AreWhole :
      (a b : Answers) (t : String)
      → AreWhole a
      → AreWhole b
      → AreWhole (cookie_after a (save_form (ok a) save b ++ redirect t ∷ []))
  unfolding cookie_after save_form
  saved-AreWhole a b t h k = elim (Bool-cases (save b)) [ inl q ↦ rw q k | inr q ↦ rw q h ]

  welcome-AreWhole :
      (a : Answers) (w : World)
      → AreWhole a
      → AreWhole (cookie_from a (welcome_page (ok a) save w).0)
  unfolding cookie_from cookie_after welcome_page clear_form pure
  welcome-AreWhole a w h = elim (Bool-cases (save a)) [ inl q ↦ rw q (refl, refl) | inr q ↦ rw q h ]

  personal-AreWhole :
      (a : Answers) (first last email bsa_id : String) (w : World)
      → AreWhole a
      → AreWhole (cookie_from a (personal (ok a) save first last email bsa_id w).0)
  unfolding cookie_from personal pure
  personal-AreWhole a first last email bsa_id w h =
      elim (Bool-cases (
        trim_space first == ""
        || (trim_space last == ""
            || (trim_space (to_lower email) == "" || trim_space bsa_id == "")))) [
              | inl q ↦ rw q h
              | inr q ↦ rw q (saved-AreWhole a _ "/onboard/unit" h (ground arith, refl))
            ]

  unit-AreWhole :
      (a : Answers) (type number guid : String) (w : World)
      → AreWhole a
      → AreWhole (cookie_from a (unit (ok a) save type number guid w).0)
  unfolding cookie_from unit load_form pure cookie_after
  unit-AreWhole a type number guid w h = elim (Bool-cases (a.first_name == "")) [
    | inl q ↦ rw q h
    | inr q ↦
        rw q
          (elim (Bool-cases
            (trim_space type == "" || (trim_space number == "" || trim_space guid == ""))) [
              | inl k ↦ rw k h
              | inr k ↦ rw k (saved-AreWhole a _ "/onboard/timezone" h (h.0, ground arith))
            ])
  ]

  timezone-AreWhole :
      (a : Answers) (zone : String) (w : World)
      → AreWhole a
      → AreWhole (cookie_from a (timezone (ok a) save zone w).0)
  unfolding cookie_from timezone load_form pure cookie_after
  timezone-AreWhole a zone w h = elim (Bool-cases (lacks_unit a)) [
    | inl q ↦ rw q h
    | inr q ↦ rw q (elim (Bool-cases (trim_space zone == "")) [
      | inl k ↦ rw k h
      | inr k ↦ rw k (saved-AreWhole a _ "/onboard/password" h h)
    ])
  ]

  step-AreWhole :
      (a : Answers) (s : Step) (w : World)
      → AreWhole a
      → AreWhole (cookie_from a (answer_step a s w).0)
  step-AreWhole a get_welcome w h = welcome-AreWhole a w h
  step-AreWhole a (post_personal first last email bsa_id) w h =
      personal-AreWhole a first last email bsa_id w h
  step-AreWhole a (post_unit type number guid) w h = unit-AreWhole a type number guid w h
  step-AreWhole a (post_timezone zone) w h = timezone-AreWhole a zone w h

  after-AreWhole :
      (steps : List Step) (a : Answers) (w : World) → AreWhole a → AreWhole (after steps a w)
  unfolding after
  after-AreWhole [] a w h = h
  after-AreWhole (s ∷ steps) a w h = after-AreWhole steps _ _ (step-AreWhole a s w h)

  -- After any sequence of requests to the steps of the onboarding form, starting with an empty
  -- cookie, if the cookie is one that the password step lets pass, then all eight answers are
  -- given.
  pub after-AreFilled :
      (steps : List Step) (w : World)
      → lacks_timezone (after steps no_answers w) ≡ false
      → AreFilled (after steps no_answers w)
  after-AreFilled steps w h =
      whole-AreFilled (after steps no_answers w) h (after-AreWhole steps no_answers w (refl, refl))
