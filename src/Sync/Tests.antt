-- ===== src/Sync/Tests.antt =====
-- The sync's theorems at work.
use scouting_app.Base.{String, ◌≡◌, refl, List, [], ◌∷◌, Option, none}
use scouting_app.Calendar.{Time}
use scouting_app.Profile.{youth}
use scouting_app.Db.{World, Result, ok, err, ◌>>=◌}
use scouting_app.Storage.Profiles.{
  get_profile_by_bsa_id, create_profile, update_profile, list_profiles_by_status,
}
use scouting_app.Examples.{camp, world, profile, date}
use scouting_app.Reconcile.{MapRange}
use scouting_app.Sync.{
  Endpoint, endpoint_adults, endpoint_youths, Member, MemberRange, Outcome, find_member,
  deduplicate, compute_counters, sync,
}
use scouting_app.Sync.Roster.{find_member-deduplicate, last_member, or_else}
use scouting_app.Sync.Totals.{Totals, sync-Totals}

abbrev member : String → String → Member
member id first_name = record {
  member_id = id;
  first_name = first_name;
  last_name = "";
  nickname = "";
  gender = "";
  person_guid = "";
  email = "";
  phone = "";
  birth_date = "";
  positions = "";
}

find_member-deduplicate_example :
    find_member "1" (deduplicate (member "1" "Ann" ∷ []) (member "1" "Bo" ∷ member "2" "Cy" ∷ []))
    ≡ or_else
        (last_member none "1" (member "1" "Ann" ∷ []))
        (find_member "1" (member "1" "Bo" ∷ member "2" "Cy" ∷ []))
find_member-deduplicate_example =
    find_member-deduplicate "1" (member "1" "Ann" ∷ []) (member "1" "Bo" ∷ member "2" "Cy" ∷ [])

abbrev no_date : String → Option Time
no_date text = none

abbrev in_order : MapRange
in_order = record { range = λ keys. keys; has_key-range = λ k keys. refl }

abbrev members_in_order : MemberRange
members_in_order = record { range = λ members. members; find_member-range = λ id members. refl }

-- "Ann" is new, "Bo" is known under another name, and who has the id "9" is not on the roster.
abbrev roster : Endpoint → Result (List Member)
roster endpoint_adults = ok (member "1" "Ann" ∷ [])
roster endpoint_youths = ok (member "2" "Bo" ∷ [])

abbrev before_sync : World
before_sync = world (record camp {
  profiles =
      record (profile "b" youth (date 3000 2012 3 4)) { bsa_id = "2" }
      ∷ record (profile "c" youth (date 3000 2012 3 4)) { bsa_id = "9" }
      ∷ [];
})

abbrev after_sync : Result Outcome × World
after_sync = sync no_date in_order members_in_order roster before_sync

abbrev outcome_of : Result Outcome → Outcome
outcome_of (ok outcome) = outcome
outcome_of (err e) = compute_counters []

synced : after_sync.0 ≡ ok (outcome_of after_sync.0)
unfolding sync ◌>>=◌ get_profile_by_bsa_id create_profile update_profile list_profiles_by_status
synced = refl

counted :
    ((outcome_of after_sync.0).created ≡ 1)
    × ((outcome_of after_sync.0).updated ≡ 1)
    × ((outcome_of after_sync.0).deactivated ≡ 1)
unfolding sync ◌>>=◌ get_profile_by_bsa_id create_profile update_profile list_profiles_by_status
counted = (refl, refl, refl)

sync-Totals_example : Totals 2 (outcome_of after_sync.0) after_sync.1.tables
sync-Totals_example =
    sync-Totals no_date in_order members_in_order roster before_sync (outcome_of after_sync.0)
      synced
