-- ===== src/Api/Settings/Gap.antt =====
-- The gap in age that the settings allow: what SettingsSave of internal/api/admin_settings.go stores
-- is what tentMaxAgeGap of internal/api/events.go reads.
use mathlib.Core.Path.{subst}
use scouting_app.Base.{
  ℕ, String, ◌≡◌, refl, sym, ap, ◌∙◌, Bool, true, false, not, List, [], ◌∷◌, Option, none, some,
  ◌==◌, eq_iff, inl, inr, Bool-cases, arith,
}
use scouting_app.Base.Int.{ℤ, pos, negsuc}
use scouting_app.Text.Decimal.{atoi}
use scouting_app.Profile.{User}
use scouting_app.Db.{World, Tables, Result, ok, pure, attempt, query, ◌>>=◌}
use scouting_app.Db.Errors.{Reads, Reads-pure, Reads-bind, Reads-attempt, Reads-query}
use scouting_app.Db.Triples.{
  Triple, Either, Triple-Either, Triple-forget, Triple-Reads, Triple-bind_Either, Triple-pure,
  Triple-if, Triple-before,
}
use scouting_app.Storage.Rbac.{get_user_permissions}
use scouting_app.AppConfig.{max_tent_age_gap, setting, get_config, get_with_hierarchy, in_hierarchy}
use scouting_app.Auth.{Session}
use scouting_app.Api.Rules.{get_authenticated_user-Reads}
use scouting_app.Api.Admin.{perms_of, perms_of_user, compute_admin_perms}
use scouting_app.Api.{Write, view, settings_view, internal_error}
use scouting_app.Api.Sections.{tent_max_age_gap}
use scouting_app.Api.Onboarding.Storing.{
  Stored, AreFresh, are_fresh-AreFresh, all_of, set_settings-Stored,
}
use scouting_app.Api.Settings.{
  Form, with_defaults, is_gap, settings_of, settings_page_of, show_settings, store_settings,
  settings_save,
}

-- The page says that the settings were saved.
unfoldable pub has_saved : List Write → Bool
has_saved (view (settings_view layout p) ∷ writes) = not (p.flash_success == "")
has_saved _ = false

perms_of-Reads : (cookie : Result Session) → Reads (perms_of cookie)
unfolding perms_of compute_admin_perms get_user_permissions perms_of_user
perms_of-Reads cookie = Reads-bind _ _ (get_authenticated_user-Reads cookie) shown
  where
    shown : (o : Option User) → Reads (perms_of_user o)
    shown none = Reads-pure _
    shown (some u) = Reads-bind _ _ (Reads-attempt _ (Reads-query _)) (λ r. Reads-pure _)

module _ (env : String → Option String) (cookie : Result Session) (form : Form) where
  -- The gap of the form is stored, and is a whole number of years.
  abbrev HasGap : Tables → Type 0
  HasGap t =
      (setting max_tent_age_gap t.app_config ≡ (with_defaults form).max_tent_age_gap)
      × (is_gap (atoi (with_defaults form).max_tent_age_gap) ≡ true)

  abbrev Shown : List Write → World → Type 0
  Shown writes w = has_saved writes ≡ true → HasGap w.tables

  abbrev Any : World → Type 0
  Any w = Unit {0}

  show-Shown :
      {S : Tables → Type 0} (f : Form) (flash error : String)
      → ((t : Tables) → S t → not (flash == "") ≡ true → HasGap t)
      → Triple (λ w. S w.tables) (show_settings env cookie f flash error) (Either Shown Any)
  unfolding show_settings has_saved settings_page_of
  show-Shown {S} f flash error k =
      Triple-bind_Either (λ p w. S w.tables) _ _
        (Triple-forget (Triple-Either _ (Triple-Reads S _ (perms_of-Reads cookie))))
        (λ p. Triple-pure _ (λ w h. k w.tables h))

  fresh : AreFresh [] (settings_of (with_defaults form))
  unfolding settings_of
  fresh =
      are_fresh-AreFresh [] (settings_of (with_defaults form))
        (elim (Bool-cases ((with_defaults form).smtp_pass == "")) [
          | inl q ↦ rw q refl
          | inr q ↦ rw q refl
        ])

  gap-Stored :
      (rows : List (String × String))
      → Stored (all_of [] (settings_of (with_defaults form))) rows
      → setting max_tent_age_gap rows ≡ (with_defaults form).max_tent_age_gap
  unfolding settings_of
  gap-Stored rows h = elim (Bool-cases ((with_defaults form).smtp_pass == "")) [
    | inl q ↦ (rw q at h).0
    | inr q ↦ (rw q at h).0
  ]

  save-Shown : Triple Any (settings_save env cookie form) (Either Shown Any)
  unfolding settings_save store_settings has_saved
  save-Shown =
      Triple-if (is_gap (atoi (with_defaults form).max_tent_age_gap)) _ _
        (λ q.
          Triple-before (λ w. Unit {0} × Unit {0}) _ (λ w h. (tt, tt))
            (set_settings-Stored (λ t. Unit {0}) (Either Shown Any) (λ t rows h. h) []
              (settings_of (with_defaults form)) internal_error _ fresh (λ w k. ground arith)
              (show-Shown (with_defaults form) "Settings saved successfully!" ""
                (λ t h k. (gap-Stored t.app_config h.1, q)))))
        (λ q. show-Shown (with_defaults form) "" _ (λ t h k. ground arith))

-- strconv.Atoi refuses the empty text.
gap_filled : (s : String) (n : ℕ) → atoi s ≡ some (pos n) → (s == "") ≡ false
unfolding atoi
gap_filled s n h = elim (Bool-cases (s == "")) [
  | inl q ↦ absurd (ground (arith, sym (ap atoi ((eq_iff s "").0 q)) ∙ h))
  | inr q ↦ q
]

gap_pos : (o : Option ℤ) → is_gap o ≡ true → (n : ℕ) × (o ≡ some (pos n))
unfolding is_gap
gap_pos none h = ground arith
gap_pos (some (pos n)) h = (n, refl)
gap_pos (some (negsuc n)) h = ground arith

-- What is stored is read.
stored_gap_read :
    (env : String → Option String) (s : String) (n : ℕ) (v : World)
    → env "MAX_TENT_AGE_GAP" ≡ none
    → v.fault v.count ≡ false
    → setting max_tent_age_gap v.app_config ≡ s
    → atoi s ≡ some (pos n)
    → (tent_max_age_gap env v).0 ≡ ok (pos n)
unfolding tent_max_age_gap get_with_hierarchy in_hierarchy get_config attempt query pure ◌>>=◌
stored_gap_read env s n v e f h k = rw (e, f, h, gap_filled s n k, k) refl

-- After SettingsSave has answered that the settings were saved, the form's gap (2 if it was empty)
-- is a whole number of years, and tentMaxAgeGap reads this number in a world with these tables, if
-- no environment variable sets it and the query does not fail.
pub settings_save-tent_max_age_gap :
    (env : String → Option String) (cookie : Result Session) (form : Form) (w v : World)
    (writes : List Write)
    → (settings_save env cookie form w).0 ≡ ok writes
    → has_saved writes ≡ true
    → env "MAX_TENT_AGE_GAP" ≡ none
    → v.tables ≡ (settings_save env cookie form w).1.tables
    → v.fault v.count ≡ false
    → (n : ℕ) × (atoi (with_defaults form).max_tent_age_gap ≡ some (pos n))
      × ((tent_max_age_gap env v).0 ≡ ok (pos n))
settings_save-tent_max_age_gap env cookie form w v writes r k e t f =
    let (stored, whole) =
      subst
        (λ x.
          Either (Shown env cookie form) (Any env cookie form) x
            (settings_save env cookie form w).1)
        r ((save-Shown env cookie form).at w tt) k in
    let (n, q) = gap_pos _ whole in
    (
      n,
      q,
      stored_gap_read env _ n v e f (ap (λ t. setting max_tent_age_gap t.app_config) t ∙ stored) q,
    )
