-- ===== src/Sync/Totals.antt =====
-- What the counters of an outcome of Sync, internal/domain/sync/service.go, say of the profiles.
use scouting_app.Base.{
  ℕ, ◌+◌, String, ◌≡◌, refl, sym, ap, ◌∙◌, Bool, not, ◌&&◌, ◌||◌, List, [], ◌∷◌, ◌++◌, Option, none,
  some, length, ◌==◌, arith, if◌then◌else◌,
}
use scouting_app.Profile.{Profile, MemberType}
use scouting_app.Base.{order_by, insert_by, length-append}
use scouting_app.Text.{has_key}
use scouting_app.Storage.Profiles.Counting.{create_profile-length, update_profile-length}
use scouting_app.Reconcile.Frame.{reconcile_roles-Kept}
use scouting_app.Calendar.{Time}
use scouting_app.Db.{World, Tables, Result, ok, err, Db, pure, ◌>>=◌}
use scouting_app.Db.Keeps.{
  Keeps, Keeps-attempt, Keeps-pure, Keeps-if, Keeps-query, Keeps-fail, Keeps-lift,
}
use scouting_app.Db.Ensures.{
  Ensures, Ensures-pure, Ensures-if, Ensures-bind, Ensures-time_now, Keeps-Ensures, Ensures-given,
  result-Ensures,
}
use scouting_app.Storage.Profiles.{get_profile_by_bsa_id, list_profiles_by_status}
use scouting_app.Reconcile.{MapRange}
use scouting_app.Sync.{
  is_empty, refresh, Endpoint, Member, MemberRange, ProfileReport, Outcome, compute_counters,
  report_le, report, reconcile_linked, create_member, save_refreshed, sync_found, sync_member,
  sync_members, deactivate, deactivate_missing, sync_roster, sync,
}
use scouting_app.Sync.Counters.{sum_of, tally, Counts, compute_counters-Counts}

module _ (f : ProfileReport → ℕ) where
  sum_of-insert_by :
      (le : ProfileReport → ProfileReport → Bool) (p : ProfileReport) (reports : List ProfileReport)
      → sum_of f (insert_by le p reports) ≡ f p + sum_of f reports
  unfolding insert_by
  sum_of-insert_by le p [] = refl
  sum_of-insert_by le p (q ∷ reports) = ground (arith, sum_of-insert_by le p reports)

  sum_of-order_by :
      (le : ProfileReport → ProfileReport → Bool) (reports : List ProfileReport)
      → sum_of f (order_by le reports) ≡ sum_of f reports
  unfolding order_by
  sum_of-order_by le [] = refl
  sum_of-order_by le (p ∷ reports) =
      sum_of-insert_by le p (order_by le reports) ∙ ap (λ n. f p + n) (sum_of-order_by le reports)

  sum_of-append :
      (reports others : List ProfileReport)
      → sum_of f (reports ++ others) ≡ sum_of f reports + sum_of f others
  sum_of-append [] others = omega arith
  sum_of-append (p ∷ reports) others = omega (arith, sum_of-append reports others)

length-insert_by :
    (le : ProfileReport → ProfileReport → Bool) (p : ProfileReport) (reports : List ProfileReport)
    → length (insert_by le p reports) ≡ length reports + 1
unfolding insert_by
length-insert_by le p [] = refl
length-insert_by le p (q ∷ reports) = ground (arith, length-insert_by le p reports)

length-order_by :
    (le : ProfileReport → ProfileReport → Bool) (reports : List ProfileReport)
    → length (order_by le reports) ≡ length reports
unfolding order_by
length-order_by le [] = refl
length-order_by le (p ∷ reports) =
    omega (arith, length-insert_by le p (order_by le reports), length-order_by le reports)

-- The reports whose status is one of the four.
abbrev known : List ProfileReport → ℕ
known reports =
    tally "created" reports
    + (tally "updated" reports + tally "skipped-with-role-changes" reports)
    + tally "deactivated" reports

abbrev Many : ℕ → Tables → Type 0
Many n t = length t.profiles ≡ n

-- From n profiles on, as many rows are new as there are reports of created profiles, and each report
-- has one of the four statuses.
abbrev Booked : ℕ → List ProfileReport → Tables → Type 0
Booked n reports t =
    (length t.profiles ≡ n + tally "created" reports) × (known reports ≡ length reports)

Booked-append :
    (n : ℕ) (reports others : List ProfileReport) (t : Tables)
    → known reports ≡ length reports
    → Booked (n + tally "created" reports) others t
    → Booked n (reports ++ others) t
Booked-append n reports others t k (rows, l) = (
  omega (arith, rows, sum_of-append (λ p. if p.status == "created" then 1 else 0) reports others),
  omega (
    arith,
    k,
    l,
    sum_of-append (λ p. if p.status == "created" then 1 else 0) reports others,
    sum_of-append (λ p. if p.status == "updated" then 1 else 0) reports others,
    sum_of-append (λ p. if p.status == "skipped-with-role-changes" then 1 else 0) reports others,
    sum_of-append (λ p. if p.status == "deactivated" then 1 else 0) reports others,
    length-append reports others,
  ),
)

Ensures-append :
    (n : ℕ) (first rest : Db (List ProfileReport))
    → Ensures (Many n) first (Booked n)
    → ((m : ℕ) → Ensures (Many m) rest (Booked m))
    → Ensures (Many n) (do reports ← first; others ← rest; pure (reports ++ others)) (Booked n)
Ensures-append n first rest k l = Ensures-bind (Booked n) _ _ k (λ reports. Ensures-given (λ known.
    Ensures-bind (Booked (n + tally "created" reports)) _ _ (l (n + tally "created" reports))
      (λ others. Ensures-pure _ (λ t h. Booked-append n reports others t known h))))

reconcile_linked-Many :
    (n : ℕ) (order : MapRange) (user_id : Option String) (positions : String)
    → Keeps (Many n) (reconcile_linked order user_id positions)
unfolding reconcile_linked
reconcile_linked-Many n order none positions = Keeps-pure _
reconcile_linked-Many n order (some id) positions =
    reconcile_roles-Kept (λ profiles. length profiles ≡ n) order id positions

deactivate-Booked : (n : ℕ) (p : Profile) → Ensures (Many n) (deactivate p) (Booked n)
unfolding deactivate report
deactivate-Booked n p =
    Ensures-bind (λ now. Many n) _ _ Ensures-time_now
      (λ now.
        Ensures-bind (λ u. Many n) _ _ (Keeps-Ensures _ (update_profile-length n _))
          (λ u. Ensures-pure _ (λ t h. (omega (arith, h), refl))))

deactivate_missing-Booked :
    (n : ℕ) (ids : List String) (profiles : List Profile)
    → Ensures (Many n) (deactivate_missing ids profiles) (Booked n)
unfolding deactivate_missing
deactivate_missing-Booked n ids [] = Ensures-pure _ (λ t h. (omega (arith, h), refl))
deactivate_missing-Booked n ids (p ∷ profiles) =
    Ensures-if (has_key p.bsa_id ids || p.bsa_id == "") _ _
      (λ q. deactivate_missing-Booked n ids profiles)
      (λ q.
        Ensures-append n _ _ (deactivate-Booked n p)
          (λ m. deactivate_missing-Booked m ids profiles))

module _ (parse_date : String → Option Time) (order : MapRange) where
  create_member-Booked :
      (n : ℕ) (m : Member) (mt : MemberType)
      → Ensures (Many n) (create_member parse_date order m mt) (Booked n)
  unfolding create_member report
  create_member-Booked n m mt =
      Ensures-bind (λ p. Many (n + 1)) _ _ (create_profile-length n _)
        (λ p.
          Ensures-bind (λ names. Many (n + 1)) _ _
            (Keeps-Ensures _ (reconcile_linked-Many (n + 1) order p.user_id p.positions))
            (λ names. Ensures-pure _ (λ t h. (omega (arith, h), refl))))

  save_refreshed-Booked :
      (n : ℕ) (m : Member) (old : Profile) (r : Profile × Bool)
      → Ensures (Many n) (save_refreshed parse_date order m old r) (Booked n)
  unfolding save_refreshed report
  save_refreshed-Booked n m old (p, u) =
      Ensures-bind (λ names. Many n) _ _
        (Keeps-Ensures _ (reconcile_linked-Many n order p.user_id p.positions))
        (λ names.
          Ensures-if (not u && (is_empty names.0 && is_empty names.1)) _ _
            (λ q. Ensures-pure _ (λ t h. (omega (arith, h), refl)))
            (λ q.
              Ensures-if u _ _
                (λ v.
                  Ensures-bind (λ now. Many n) _ _ Ensures-time_now
                    (λ now.
                      Ensures-bind (λ u. Many n) _ _ (Keeps-Ensures _ (update_profile-length n _))
                        (λ u. Ensures-pure _ (λ t h. (omega (arith, h), refl)))))
                (λ v. Ensures-pure _ (λ t h. (omega (arith, h), refl)))))

  sync_found-Booked :
      (n : ℕ) (m : Member) (mt : MemberType) (found : Result Profile)
      → Ensures (Many n) (sync_found parse_date order m mt found) (Booked n)
  unfolding sync_found
  sync_found-Booked n m mt (err e) = create_member-Booked n m mt
  sync_found-Booked n m mt (ok p) = save_refreshed-Booked n m p (refresh parse_date m mt p)

  get_profile-Many : (n : ℕ) (bsa_id : String) → Keeps (Many n) (get_profile_by_bsa_id bsa_id)
  unfolding get_profile_by_bsa_id
  get_profile-Many n bsa_id = Keeps-if (bsa_id == "") _ _ (λ q. Keeps-fail _) (λ q. Keeps-query _)

  sync_members-Booked :
      (n : ℕ) (adults members : List Member)
      → Ensures (Many n) (sync_members parse_date order adults members) (Booked n)
  unfolding sync_members sync_member
  sync_members-Booked n adults [] = Ensures-pure _ (λ t h. (omega (arith, h), refl))
  sync_members-Booked n adults (m ∷ members) =
      Ensures-append n _ _
        (Ensures-bind (λ found. Many n) _ _
          (Keeps-Ensures _ (Keeps-attempt _ (get_profile-Many n m.member_id)))
          (sync_found-Booked n m _))
        (λ k. sync_members-Booked k adults members)

-- The counters are those of the reports, which they add up to, and as many profiles are new, after n,
-- as are counted as created.
abbrev pub Totals : ℕ → Outcome → Tables → Type 0
Totals n outcome t =
    Counts outcome
    × (outcome.created + outcome.updated + outcome.deactivated ≡ length outcome.profiles)
    × (length t.profiles ≡ n + outcome.created)

Totals-order_by :
    (n : ℕ) (reports : List ProfileReport) (t : Tables)
    → Booked n reports t
    → Totals n
        (record (compute_counters reports) {
          profiles = order_by report_le (compute_counters reports).profiles;
        })
        t
Totals-order_by n reports t (rows, k) =
    let (counts, same) = compute_counters-Counts reports in
    let (a, b, c, d, e) = rw same at counts in
    rw same (
      (
        a ∙ sym (ordered (λ p. if p.status == "created" then 1 else 0)),
        omega (
          arith,
          b,
          ordered (λ p. if p.status == "updated" then 1 else 0),
          ordered (λ p. if p.status == "skipped-with-role-changes" then 1 else 0),
        ),
        c ∙ sym (ordered (λ p. if p.status == "deactivated" then 1 else 0)),
        d ∙ sym (ordered (λ p. length p.roles_added)),
        e ∙ sym (ordered (λ p. length p.roles_removed)),
      ),
      omega (arith, a, b, c, k, length-order_by report_le reports),
      omega (arith, a, rows),
    )
  where
    ordered : (f : ProfileReport → ℕ) → sum_of f (order_by report_le reports) ≡ sum_of f reports
    ordered f = sum_of-order_by f report_le reports

module _ (parse_date : String → Option Time) (order : MapRange) (members_order : MemberRange) where
  sync_roster-Totals :
      (n : ℕ) (adults youths : List Member)
      → Ensures (Many n) (sync_roster parse_date order members_order adults youths) (Totals n)
  unfolding sync_roster list_profiles_by_status
  sync_roster-Totals n adults youths =
      Ensures-bind (Booked n) _ _ (sync_members-Booked parse_date order n adults _) (λ reports.
        Ensures-given (λ known.
          Ensures-bind (λ active. Many (n + tally "created" reports)) _ _
            (Keeps-Ensures _ (Keeps-query _))
            (λ active.
              Ensures-bind (Booked (n + tally "created" reports)) _ _
                (deactivate_missing-Booked (n + tally "created" reports) _ active)
                (λ gone. Ensures-pure _ (λ t h.
                  Totals-order_by n (reports ++ gone) t
                    (Booked-append n reports gone t known h))))))

  -- If Sync returns an outcome, the table of profiles has grown by as many rows as the outcome
  -- counts as created; the counters of created, updated and deactivated profiles are each the
  -- number of its reports with the status, where the status skipped-with-role-changes counts as
  -- updated; these three make up all reports; and the counters of added and removed roles are the
  -- numbers of roles that the reports name as added and as removed.
  pub sync-Totals :
      (fetch_roster : Endpoint → Result (List Member)) (w : World) (outcome : Outcome)
      → (sync parse_date order members_order fetch_roster w).0 ≡ ok outcome
      → Totals
          (length w.profiles)
          outcome
          (sync parse_date order members_order fetch_roster w).1.tables
  unfolding sync
  sync-Totals fetch_roster w outcome h = result-Ensures _ w outcome fetched refl h
    where
      fetched :
          Ensures
            (Many (length w.profiles))
            (sync parse_date order members_order fetch_roster)
            (Totals (length w.profiles))
      fetched =
          Ensures-bind (λ adults. Many (length w.profiles)) _ _ (Keeps-Ensures _ (Keeps-lift _))
            (λ adults.
              Ensures-bind (λ youths. Many (length w.profiles)) _ _ (Keeps-Ensures _ (Keeps-lift _))
                (λ youths. sync_roster-Totals (length w.profiles) adults youths))
