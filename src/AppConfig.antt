-- ===== src/AppConfig.antt =====
-- Settings: internal/storage/postgres/appconfig_repository.go and GetWithHierarchy of
-- internal/domain/appconfig/appconfig.go. The environment's variables are an argument.
use scouting_app.Base.{
  String, List, [], ◌∷◌, Option, none, some, ◌==◌, ◌≡◌, refl, arith, eq_iff, if◌then◌else◌,
}
use scouting_app.Db.{Result, ok, err, Db, pure, attempt, statement, query, ◌>>=◌}

abbrev pub onboarding_complete : String
onboarding_complete = "ONBOARDING_COMPLETE"

abbrev pub scoutbook_org_guid : String
scoutbook_org_guid = "SCOUTBOOK_ORG_GUID"

abbrev pub unit_type : String
unit_type = "UNIT_TYPE"

abbrev pub unit_number : String
unit_number = "UNIT_NUMBER"

abbrev pub default_timezone : String
default_timezone = "DEFAULT_TIMEZONE"

abbrev pub smtp_host : String
smtp_host = "SMTP_HOST"

abbrev pub smtp_port : String
smtp_port = "SMTP_PORT"

abbrev pub smtp_user : String
smtp_user = "SMTP_USER"

abbrev pub smtp_pass : String
smtp_pass = "SMTP_PASS"

abbrev pub smtp_from : String
smtp_from = "SMTP_FROM"

abbrev pub max_tent_age_gap : String
max_tent_age_gap = "MAX_TENT_AGE_GAP"

-- No row is the empty text.
unfoldable pub setting : String → List (String × String) → String
setting key [] = ""
setting key ((k, v) ∷ rows) = let rest = setting key rows in if k == key then v else rest

unfoldable pub put_setting : String → String → List (String × String) → List (String × String)
put_setting key value [] = (key, value) ∷ []
put_setting key value ((k, v) ∷ rows) =
    let rest = put_setting key value rows in if k == key then (k, value) ∷ rows else (k, v) ∷ rest

unfoldable pub get_config : String → Db String
unfolding setting
get_config key = query (λ w. ok (setting key w.app_config))

unfoldable pub set_config : String → String → Db (Unit {0})
unfolding put_setting
set_config key value =
    statement (λ w. (ok tt, record w.tables { app_config = put_setting key value w.app_config }))

unfoldable pub all_config : Db (List (String × String))
all_config = query (λ w. ok w.app_config)

or_default : String → Result String → String
or_default default (err e) = default
or_default default (ok v) = if v == "" then default else v

unfoldable pub in_hierarchy : Option String → String → String → Db String
unfolding or_default
in_hierarchy (some v) config_key default = pure v
in_hierarchy none config_key default =
    attempt (get_config config_key) >>= λ r. pure (or_default default r)

-- `env` is os.LookupEnv.
unfoldable pub get_with_hierarchy : (String → Option String) → String → String → String → Db String
unfolding in_hierarchy
get_with_hierarchy env env_key config_key default = in_hierarchy (env env_key) config_key default

pub setting-put_setting :
    (key other value : String) (rows : List (String × String))
    → setting other (put_setting key value rows)
      ≡ (if key == other then value else setting other rows)
unfolding setting put_setting
setting-put_setting key other value [] = refl
setting-put_setting key other value ((k, v) ∷ rows) = ground (
  arith,
  eq_iff k key,
  eq_iff k other,
  eq_iff key other,
  setting-put_setting key other value rows,
)
