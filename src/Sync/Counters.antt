-- ===== src/Sync/Counters.antt =====
-- The counters of an outcome: computeCounters of internal/domain/sync/service.go.
use scouting_app.Base.{
  ℕ, ◌+◌, String, ◌≡◌, refl, ◌∙◌, List, [], ◌∷◌, length, ◌==◌, eq_iff, inl, inr, Bool-cases, arith,
  if◌then◌else◌,
}
use scouting_app.Sync.{ProfileReport, Outcome, compute_counters, count_reports, count_status}

abbrev pub sum_of : (ProfileReport → ℕ) → List ProfileReport → ℕ
sum_of f [] = 0
sum_of f (p ∷ reports) = f p + sum_of f reports

-- How many reports have the status.
abbrev pub tally : String → List ProfileReport → ℕ
tally status = sum_of (λ p. if p.status == status then 1 else 0)

-- How many roles the reports name.
abbrev pub named : (ProfileReport → List String) → List ProfileReport → ℕ
named roles = sum_of (λ p. length (roles p))

-- Each counter of `after` is that of `before` and what the reports add to it.
abbrev Added : List ProfileReport → Outcome → Outcome → Type 0
Added reports before after =
    (after.created ≡ before.created + tally "created" reports)
    × (after.updated
        ≡ before.updated + (tally "updated" reports + tally "skipped-with-role-changes" reports))
    × (after.deactivated ≡ before.deactivated + tally "deactivated" reports)
    × (after.roles_added ≡ before.roles_added + named (λ p. p.roles_added) reports)
    × (after.roles_removed ≡ before.roles_removed + named (λ p. p.roles_removed) reports)
    × (after.profiles ≡ before.profiles)

count_status-Added :
    (p : ProfileReport) (r : Outcome)
    → Added (p ∷ []) r (record (count_status p.status r) {
      roles_added = (count_status p.status r).roles_added + length p.roles_added;
      roles_removed = (count_status p.status r).roles_removed + length p.roles_removed;
    })
unfolding count_status
count_status-Added p r = elim (Bool-cases (p.status == "created")) [
  | inl e ↦
      rw ((eq_iff p.status "created").0 e)
        (omega arith, omega arith, omega arith, omega arith, omega arith, refl)
  | inr e ↦ elim (Bool-cases (p.status == "updated")) [
    | inl u ↦
        rw ((eq_iff p.status "updated").0 u)
          (omega arith, omega arith, omega arith, omega arith, omega arith, refl)
    | inr u ↦ elim (Bool-cases (p.status == "skipped-with-role-changes")) [
      | inl v ↦
          rw ((eq_iff p.status "skipped-with-role-changes").0 v)
            (omega arith, omega arith, omega arith, omega arith, omega arith, refl)
      | inr v ↦ elim (Bool-cases (p.status == "deactivated")) [
        | inl x ↦
            rw ((eq_iff p.status "deactivated").0 x)
              (omega arith, omega arith, omega arith, omega arith, omega arith, refl)
        | inr x ↦
            rw (e, u, v, x) (omega arith, omega arith, omega arith, omega arith, omega arith, refl)
      ]
    ]
  ]
]

Added-cons :
    (p : ProfileReport) (reports : List ProfileReport) (q r s : Outcome)
    → Added (p ∷ []) q r
    → Added reports r s
    → Added (p ∷ reports) q s
Added-cons p reports q r s (a, b, c, d, e, f) (u, v, w, x, y, z) = (
  omega (arith, a, u),
  omega (arith, b, v),
  omega (arith, c, w),
  omega (arith, d, x),
  omega (arith, e, y),
  z ∙ f,
)

count_reports-Added :
    (reports : List ProfileReport) (r : Outcome) → Added reports r (count_reports reports r)
unfolding count_reports
count_reports-Added [] r = (omega arith, omega arith, omega arith, omega arith, omega arith, refl)
count_reports-Added (p ∷ reports) r =
    Added-cons p reports r _ _ (count_status-Added p r) (count_reports-Added reports _)

-- Each counter is that of its reports: of those with a status, two for the updates, or of the roles
-- that they name.
abbrev pub Counts : Outcome → Type 0
Counts r =
    (r.created ≡ tally "created" r.profiles)
    × (r.updated ≡ tally "updated" r.profiles + tally "skipped-with-role-changes" r.profiles)
    × (r.deactivated ≡ tally "deactivated" r.profiles)
    × (r.roles_added ≡ named (λ p. p.roles_added) r.profiles)
    × (r.roles_removed ≡ named (λ p. p.roles_removed) r.profiles)

pub compute_counters-Counts :
    (reports : List ProfileReport)
    → Counts (compute_counters reports) × ((compute_counters reports).profiles ≡ reports)
unfolding compute_counters
compute_counters-Counts reports =
    let (a, b, c, d, e, f) = count_reports-Added reports (record {
      created = 0;
      updated = 0;
      deactivated = 0;
      roles_added = 0;
      roles_removed = 0;
      profiles = reports;
    }) in
    (
      rw f (
        omega (arith, a),
        omega (arith, b),
        omega (arith, c),
        omega (arith, d),
        omega (arith, e),
      ),
      f,
    )
