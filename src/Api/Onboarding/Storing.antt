-- ===== src/Api/Onboarding/Storing.antt =====
-- What a sequence of calls of Set leaves (internal/api/onboarding.go and admin_settings.go).
use scouting_app.Base.{
  String, ◌≡◌, refl, ◌∙◌, Bool, true, false, not, ◌&&◌, List, [], ◌∷◌, ◌==◌, eq_refl, any, All,
  arith,
}
use scouting_app.Db.{World, Tables, Result, ok}
use scouting_app.Db.Triples.{Triple, Triple-statement}
use scouting_app.AppConfig.{setting, put_setting, set_config, setting-put_setting}
use scouting_app.Api.{Write, Handler}
use scouting_app.Api.Rules.{Triple-on_error}
use scouting_app.Api.Onboarding.{set_settings}

-- The settings have the values.
abbrev pub Stored : List (String × String) → List (String × String) → Type 0
Stored kvs rows = All (λ kv. setting kv.0 rows ≡ kv.1) kvs

-- The keys of the second list are apart from each other and from those of the first.
abbrev pub AreFresh : List (String × String) → List (String × String) → Type 0
AreFresh ps [] = Unit {0}
AreFresh ps (kv ∷ kvs) = All (λ p. (kv.0 == p.0) ≡ false) ps × AreFresh (kv ∷ ps) kvs

abbrev is_new : String → List (String × String) → Bool
is_new key ps = not (any (λ p. key == p.0) ps)

-- The same as a test.
abbrev pub are_fresh : List (String × String) → List (String × String) → Bool
are_fresh ps [] = true
are_fresh ps (kv ∷ kvs) = is_new kv.0 ps && are_fresh (kv ∷ ps) kvs

is_new-All :
    (key : String) (ps : List (String × String))
    → is_new key ps ≡ true
    → All (λ p. (key == p.0) ≡ false) ps
is_new-All key [] h = tt
is_new-All key (p ∷ ps) h = (ground arith, is_new-All key ps (ground arith))

pub are_fresh-AreFresh :
    (ps kvs : List (String × String)) → are_fresh ps kvs ≡ true → AreFresh ps kvs
are_fresh-AreFresh ps [] h = tt
are_fresh-AreFresh ps (kv ∷ kvs) h =
    (is_new-All kv.0 ps (ground arith), are_fresh-AreFresh (kv ∷ ps) kvs (ground arith))

abbrev pub all_of : List (String × String) → List (String × String) → List (String × String)
all_of ps [] = ps
all_of ps (kv ∷ kvs) = all_of (kv ∷ ps) kvs

put-Stored :
    (key value : String) (ps rows : List (String × String))
    → All (λ p. (key == p.0) ≡ false) ps
    → Stored ps rows
    → Stored ps (put_setting key value rows)
put-Stored key value [] rows f h = tt
put-Stored key value (p ∷ ps) rows (f, fs) (h, hs) =
    (setting-put_setting key p.0 value rows ∙ rw f h, put-Stored key value ps rows fs hs)

put_new-Stored :
    (key value : String) (ps rows : List (String × String))
    → All (λ p. (key == p.0) ≡ false) ps
    → Stored ps rows
    → Stored ((key, value) ∷ ps) (put_setting key value rows)
put_new-Stored key value ps rows f h = (
  setting-put_setting key key value rows ∙ rw (eq_refl key) refl,
  put-Stored key value ps rows f h,
)

module _ (F : Tables → Type 0) (Q : Result (List Write) → World → Type 0)
    (kept : (t : Tables) (rows : List (String × String))
      → F t
      → F (record t { app_config = rows })) where
  pub set_settings-Stored :
      (ps kvs : List (String × String)) (refused : List Write) (next : Handler)
      → AreFresh ps kvs
      → ((w : World) → Q (ok refused) w)
      → Triple (λ w. F w.tables × Stored (all_of ps kvs) w.app_config) next Q
      → Triple (λ w. F w.tables × Stored ps w.app_config) (set_settings kvs refused next) Q
  unfolding set_settings set_config
  set_settings-Stored ps [] refused next f r k = k
  set_settings-Stored ps ((key, value) ∷ kvs) refused next (f, fs) r k =
      Triple-on_error refused (λ d w. F w.tables × Stored ((key, value) ∷ ps) w.app_config) _ _
        (Triple-statement _
          (λ w h. (kept w.tables _ h.0, put_new-Stored key value ps w.app_config f h.1))
          (λ w h. r _))
        (λ d. set_settings-Stored ((key, value) ∷ ps) kvs refused next fs r k)
