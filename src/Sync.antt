-- ===== src/Sync.antt =====
-- The Scoutbook sync: internal/domain/sync/service.go and types.go. The client's FetchRoster and
-- time.Parse are arguments; Go's order of a range over a map is an argument too.
pub mod Roster
pub mod Counters
pub mod Totals
pub mod Tests
use scouting_app.Base.{
  ℕ, suc, ◌+◌, String, Bool, true, false, not, ◌&&◌, ◌||◌, List, [], ◌∷◌, ◌++◌, map, Option, none,
  some, ◌==◌, ◌≡◌, ltb, nat_eq, length, order_by, if◌then◌else◌,
}
use scouting_app.Text.{has_key, str_le}
use scouting_app.Calendar.{Time}
use scouting_app.Profile.{
  Profile, MemberType, adult, youth, Status, active, inactive, member_type_eq, status_eq,
  display_name,
}
use scouting_app.Db.{
  Result, ok, err, Db, pure, lift, attempt, statement, query, time_now, ◌>>=◌, ◌>>◌,
}
use scouting_app.Storage.Profiles.{
  create_profile, get_profile_by_bsa_id, list_profiles_by_status, update_profile,
}
use scouting_app.Storage.Rbac.{
  create_role, assign_role_to_user, remove_role_from_user, get_role_by_name,
}
use scouting_app.Reconcile.{MapRange, reconcile_roles, give_role, drop_role}

pub data Endpoint : Type 0 where
  endpoint_adults endpoint_youths : Endpoint

pub record Member : Type 0 where
  pub member_id : String
  pub first_name : String
  pub last_name : String
  pub nickname : String
  pub gender : String
  pub person_guid : String
  pub email : String
  pub phone : String
  pub birth_date : String
  pub positions : String

pub record ProfileSnapshot : Type 0 where
  pub bsa_id : String
  pub first_name : String
  pub last_name : String
  pub nickname : String
  pub gender : String
  pub email : String
  pub phone : String
  pub birthdate : Time
  pub member_type : MemberType
  pub status : Status
  pub positions : String
  pub user_id : Option String

pub record ProfileReport : Type 0 where
  pub profile_id : String
  pub member_id : String
  pub name : String
  pub status : String
  pub old : Option ProfileSnapshot
  pub new : ProfileSnapshot
  pub roles_added : List String
  pub roles_removed : List String

pub record Outcome : Type 0 where
  pub created : ℕ
  pub updated : ℕ
  pub deactivated : ℕ
  pub roles_added : ℕ
  pub roles_removed : ℕ
  pub profiles : List ProfileReport

pub snapshot_from_profile : Profile → ProfileSnapshot
snapshot_from_profile p = record {
  bsa_id = p.bsa_id;
  first_name = p.first_name;
  last_name = p.last_name;
  nickname = p.nickname;
  gender = p.gender;
  email = p.email;
  phone = p.phone;
  birthdate = p.birthdate;
  member_type = p.member_type;
  status = p.status;
  positions = p.positions;
  user_id = p.user_id;
}

unfoldable pub find_member : String → List Member → Option Member
find_member id [] = none
find_member id (m ∷ members) =
    let rest = find_member id members in if m.member_id == id then some m else rest

-- seen[m.MemberID] = m
unfoldable pub put_member : Member → List Member → List Member
put_member m [] = m ∷ []
put_member m (n ∷ members) =
    let rest = put_member m members in if n.member_id == m.member_id then m ∷ members else n ∷ rest

unfoldable pub put_adults : List Member → List Member → List Member
unfolding put_member
put_adults seen [] = seen
put_adults seen (m ∷ adults) = put_adults (put_member m seen) adults

abbrev pub put_absent : Member → Option Member → List Member → List Member
put_absent m none seen = seen ++ m ∷ []
put_absent m (some n) seen = seen

unfoldable pub put_youths : List Member → List Member → List Member
unfolding find_member
put_youths seen [] = seen
put_youths seen (m ∷ youths) = put_youths (put_absent m (find_member m.member_id seen) seen) youths

-- A range over the map visits each member of it.
pub record MemberRange : Type 0 where
  pub range : List Member → List Member
  pub find_member-range :
      (id : String) (members : List Member)
      → find_member id (range members) ≡ find_member id members

unfoldable pub deduplicate : List Member → List Member → List Member
unfolding put_adults put_youths
deduplicate adults youths = put_youths (put_adults [] adults) youths

unfoldable pub member_type_of : String → List Member → MemberType
member_type_of bsa_id [] = youth
member_type_of bsa_id (a ∷ adults) =
    let rest = member_type_of bsa_id adults in if a.member_id == bsa_id then adult else rest

module _ (parse_date : String → Option Time) where
  apply_birth_date : String → Profile → Profile
  apply_birth_date text p =
      if not (text == "")
      then (elim (parse_date text) [ none ↦ p | some t ↦ record p { birthdate = t } ])
      else p

  apply_roster_data : Member → Profile → Profile
  unfolding apply_birth_date
  apply_roster_data m p =
      let p1 = if not (m.email == "") then record p { email = m.email } else p in
      let p2 = if not (m.phone == "") then record p1 { phone = m.phone } else p1 in
      apply_birth_date m.birth_date p2

abbrev zero_time : Time
zero_time = record { instant = 0; year = 1; month = 1; day = 1 }

abbrev new_profile : Member → MemberType → Profile
new_profile m mt = record {
  id = "";
  bsa_id = m.member_id;
  first_name = m.first_name;
  last_name = m.last_name;
  nickname = m.nickname;
  gender = m.gender;
  email = "";
  phone = "";
  birthdate = zero_time;
  member_type = mt;
  status = active;
  user_id = none;
  positions = m.positions;
  created_at = 0;
  updated_at = 0;
}

-- if the test holds { change the field; updated = true }
abbrev change_if : Bool → Profile → Profile × Bool → Profile × Bool
change_if b q (p, u) = if b then (q, true) else (p, u)

module _ (parse_date : String → Option Time) (m : Member) (mt : MemberType) where
  refresh_names : Profile × Bool → Profile × Bool
  refresh_names (p, u) =
      let (p1, u1) =
        change_if (not (p.first_name == m.first_name)) (record p { first_name = m.first_name })
          (p, u) in
      let (p2, u2) =
        change_if (not (p1.last_name == m.last_name)) (record p1 { last_name = m.last_name })
          (p1, u1) in
      change_if (not (p2.nickname == m.nickname)) (record p2 { nickname = m.nickname }) (p2, u2)

  refresh_membership : Profile × Bool → Profile × Bool
  refresh_membership (p, u) =
      let (p1, u1) =
        change_if (not (p.gender == m.gender)) (record p { gender = m.gender }) (p, u) in
      let (p2, u2) =
        change_if (not (p1.positions == m.positions)) (record p1 { positions = m.positions })
          (p1, u1) in
      let (p3, u3) =
        change_if (not (member_type_eq p2.member_type mt)) (record p2 { member_type = mt })
          (p2, u2) in
      change_if (not (status_eq p3.status active)) (record p3 { status = active }) (p3, u3)

  refresh_birthdate : Option Time → Profile × Bool → Profile × Bool
  refresh_birthdate none (p, u) = (p, u)
  refresh_birthdate (some t) (p, u) =
      change_if (not (nat_eq t.instant p.birthdate.instant)) (record p { birthdate = t }) (p, u)

  refresh_contact : Profile × Bool → Profile × Bool
  unfolding refresh_birthdate
  refresh_contact (p, u) =
      let (p1, u1) =
        change_if (not (m.email == "") && not (m.email == p.email)) (record p { email = m.email })
          (p, u) in
      let (p2, u2) =
        change_if (not (m.phone == "") && not (m.phone == p1.phone)) (record p1 { phone = m.phone })
          (p1, u1) in
      if not (m.birth_date == "")
      then refresh_birthdate (parse_date m.birth_date) (p2, u2)
      else (p2, u2)

  -- The profile with the roster's data, and whether anything changed.
  refresh : Profile → Profile × Bool
  unfolding refresh_names refresh_membership refresh_contact
  refresh p = refresh_contact (refresh_membership (refresh_names (p, false)))

reconcile_linked : MapRange → Option String → String → Db (List String × List String)
reconcile_linked order none positions = pure ([], [])
reconcile_linked order (some user_id) positions = reconcile_roles order user_id positions

is_empty : List String → Bool
is_empty [] = true
is_empty (x ∷ xs) = false

unfoldable report :
    Profile → String → String → Option ProfileSnapshot → List String × List String → ProfileReport
unfolding display_name snapshot_from_profile
report p member_id status old (added, removed) = record {
  profile_id = p.id;
  member_id = member_id;
  name = display_name p;
  status = status;
  old = old;
  new = snapshot_from_profile p;
  roles_added = added;
  roles_removed = removed;
}

module _ (parse_date : String → Option Time) (order : MapRange) where
  create_member : Member → MemberType → Db (List ProfileReport)
  unfolding apply_roster_data reconcile_linked report
  create_member m mt = do
    p ← create_profile (apply_roster_data parse_date m (new_profile m mt))
    names ← reconcile_linked order p.user_id p.positions
    pure (report p m.member_id "created" none names ∷ [])

  -- From the refreshed profile on.
  save_refreshed : Member → Profile → Profile × Bool → Db (List ProfileReport)
  unfolding reconcile_linked is_empty report
  save_refreshed m old (p, u) = do
    names ← reconcile_linked order p.user_id p.positions
    if not u && (is_empty names.0 && is_empty names.1)
        then pure []
        else (if u
            then (do
              now ← time_now
              update_profile (record p { updated_at = now })
              pure (report p m.member_id "updated" (some (snapshot_from_profile old)) names ∷ []))
            else pure (
                report p m.member_id "skipped-with-role-changes" (some (snapshot_from_profile old))
                  names
                ∷ []))

  sync_found : Member → MemberType → Result Profile → Db (List ProfileReport)
  unfolding create_member save_refreshed refresh
  sync_found m mt (err e) = create_member m mt
  sync_found m mt (ok existing) = save_refreshed m existing (refresh parse_date m mt existing)

  -- The body of the loop over the members.
  sync_member : List Member → Member → Db (List ProfileReport)
  unfolding sync_found member_type_of
  sync_member adults m = do
    existing ← attempt (get_profile_by_bsa_id m.member_id)
    sync_found m (member_type_of m.member_id adults) existing

  sync_members : List Member → List Member → Db (List ProfileReport)
  unfolding sync_member
  sync_members adults [] = pure []
  sync_members adults (m ∷ members) = do
    reports ← sync_member adults m
    rest ← sync_members adults members
    pure (reports ++ rest)

unfoldable pub member_ids : List Member → List String
member_ids = map (λ m. m.member_id)

deactivate : Profile → Db (List ProfileReport)
unfolding report
deactivate p = do
  now ← time_now
  let q = record p { status = inactive; updated_at = now }
  update_profile q
  pure (report q q.bsa_id "deactivated" (some (snapshot_from_profile p)) ([], []) ∷ [])

-- The loop over the active profiles.
deactivate_missing : List String → List Profile → Db (List ProfileReport)
unfolding deactivate has_key
deactivate_missing active_ids [] = pure []
deactivate_missing active_ids (p ∷ profiles) =
    let rest = deactivate_missing active_ids profiles in
    if has_key p.bsa_id active_ids || p.bsa_id == ""
    then rest
    else (do reports ← deactivate p; others ← rest; pure (reports ++ others))

-- The switch of computeCounters.
unfoldable pub count_status : String → Outcome → Outcome
count_status status r =
    if status == "created"
    then record r { created = r.created + 1 }
    else if status == "updated" || status == "skipped-with-role-changes"
    then record r { updated = r.updated + 1 }
    else if status == "deactivated"
    then record r { deactivated = r.deactivated + 1 }
    else r

unfoldable pub count_reports : List ProfileReport → Outcome → Outcome
unfolding count_status
count_reports [] r = r
count_reports (p ∷ profiles) r =
    let s = count_status p.status r in
    count_reports profiles (record s {
      roles_added = s.roles_added + length p.roles_added;
      roles_removed = s.roles_removed + length p.roles_removed;
    })

unfoldable pub compute_counters : List ProfileReport → Outcome
unfolding count_reports
compute_counters reports = count_reports reports (record {
  created = 0;
  updated = 0;
  deactivated = 0;
  roles_added = 0;
  roles_removed = 0;
  profiles = reports;
})

abbrev report_le : ProfileReport → ProfileReport → Bool
report_le p q =
    if not (p.name == q.name) then str_le p.name q.name else str_le p.member_id q.member_id

module _ (parse_date : String → Option Time) (order : MapRange) (members_order : MemberRange) where
  unfoldable pub sync_roster : List Member → List Member → Db Outcome
  unfolding deduplicate sync_members deactivate_missing compute_counters order_by member_ids
  sync_roster adults youths = do
    let members = members_order.range (deduplicate adults youths)
    reports ← sync_members parse_date order adults members
    all_active ← list_profiles_by_status active
    gone ← deactivate_missing (member_ids members) all_active
    let outcome = compute_counters (reports ++ gone)
    pure (record outcome { profiles = order_by report_le outcome.profiles })

  unfoldable pub sync : (Endpoint → Result (List Member)) → Db Outcome
  unfolding sync_roster
  sync fetch_roster = do
    adult_members ← lift (fetch_roster endpoint_adults)
    youth_members ← lift (fetch_roster endpoint_youths)
    sync_roster adult_members youth_members

-- The fields that Revert copies; the BSA id and the user stay.
unfoldable pub restore : ProfileSnapshot → Profile → Profile
restore old p = record p {
  first_name = old.first_name;
  last_name = old.last_name;
  nickname = old.nickname;
  gender = old.gender;
  email = old.email;
  phone = old.phone;
  birthdate = old.birthdate;
  member_type = old.member_type;
  status = old.status;
  positions = old.positions;
}

take_back : String → List String → Db (Unit {0})
take_back user_id [] = pure tt
take_back user_id (name ∷ names) = do drop_role user_id name; take_back user_id names

give_back : String → List String → Db (Unit {0})
give_back user_id [] = pure tt
give_back user_id (name ∷ names) = do give_role user_id name; give_back user_id names

revert_roles : Option String → List String → List String → Db (Unit {0})
unfolding take_back give_back
revert_roles none roles_added roles_removed = pure tt
revert_roles (some user_id) roles_added roles_removed =
    take_back user_id roles_added >> give_back user_id roles_removed

unfoldable pub revert : ProfileSnapshot → List String → List String → Db (Unit {0})
unfolding restore revert_roles
revert old roles_added roles_removed = do
  p ← get_profile_by_bsa_id old.bsa_id
  now ← time_now
  update_profile (record (restore old p) { updated_at = now })
  revert_roles p.user_id roles_added roles_removed
