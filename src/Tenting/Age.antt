-- ===== src/Tenting/Age.antt =====
-- AgeWholeYears of internal/domain/event/tent_rules.go counts birthdays, which the calendar defines.
use scouting_app.Base.{
  ℕ, zero, suc, ◌+◌, ◌-◌, ◌%◌, ◌≤◌, ◌<◌, ◌≡◌, refl, sym, ap, ◌⊎◌, inl, inr, true, false, ◌||◌,
  arith, leb, ltb, nat_eq, Bool-cases, if◌then◌else◌,
}
use scouting_app.Base.Int.{pos, ◌-ℤ◌}
use scouting_app.Calendar.{Time, before, is_leap_year}
use scouting_app.Tenting.{age_whole_years, birthday_day, birthday_passed}

-- The length of a month in the Gregorian calendar.
abbrev pub days_in_month : ℕ → ℕ → ℕ
days_in_month year month =
    if nat_eq month 2
    then (if nat_eq (year % 400) 0
        then 29
        else if nat_eq (year % 100) 0
        then 28
        else if nat_eq (year % 4) 0
        then 29
        else 28)
    else if nat_eq month 4 || nat_eq month 6 || nat_eq month 9 || nat_eq month 11
    then 30
    else 31

-- The n-th birthday: the day of birth n years later, or the last day of that month if it is shorter.
-- Only its date counts.
abbrev pub birthday : Time → ℕ → Time
birthday birthdate n =
    let last = days_in_month (birthdate.year + n) birthdate.month in
    record birthdate {
      year = birthdate.year + n;
      day = if leb birthdate.day last then birthdate.day else last;
    }

-- The date of `t` is an earlier one than that of `u`.
abbrev pub DateLt : Time → Time → Type 0
DateLt t u =
    (t.year < u.year)
    ⊎ (t.year ≡ u.year) × ((t.month < u.month) ⊎ (t.month ≡ u.month) × (t.day < u.day))

-- The date of `t` is that of `u` or an earlier one.
abbrev pub DateLe : Time → Time → Type 0
DateLe t u =
    (t.year < u.year)
    ⊎ (t.year ≡ u.year) × ((t.month < u.month) ⊎ (t.month ≡ u.month) × (t.day ≤ u.day))

-- The birthday in the year of the code is that of the calendar.
birthday_day-birthday :
    (b : Time) (n : ℕ)
    → b.day ≤ days_in_month b.year b.month
    → birthday_day b (b.year + n) ≡ (birthday b n).day
unfolding birthday_day is_leap_year
birthday_day-birthday b n valid = ground arith

birthday_day-le : (b : Time) (year : ℕ) → birthday_day b year ≤ b.day
unfolding birthday_day
birthday_day-le b year = ground arith

passed-DateLe :
    (b at : Time) (n : ℕ)
    → b.day ≤ days_in_month b.year b.month
    → b.year + n ≡ at.year
    → birthday_passed b at ≡ true
    → DateLe (birthday b n) at
unfolding birthday_passed
passed-DateLe b at n valid e passed = elim (Bool-cases (ltb b.month at.month)) [
  | inl q ↦ inr (e, inl (ground arith))
  | inr q ↦ inr (
    e,
    inr (ground arith, ground (arith, birthday_day-birthday b n valid, ap (birthday_day b) e)),
  )
]

missed-DateLt :
    (b at : Time) (n : ℕ)
    → b.day ≤ days_in_month b.year b.month
    → b.year + n ≡ at.year
    → birthday_passed b at ≡ false
    → DateLt at (birthday b n)
unfolding birthday_passed
missed-DateLt b at n valid e missed = elim (Bool-cases (ltb at.month b.month)) [
  | inl q ↦ inr (sym e, inl (ground arith))
  | inr q ↦ inr (
    sym e,
    inr (ground arith, ground (arith, birthday_day-birthday b n valid, ap (birthday_day b) e)),
  )
]

born_this_year : (b at : Time) → b.year ≡ at.year → DateLe b at → birthday_passed b at ≡ true
unfolding birthday_passed
born_this_year b at e (inl h) = absurd (omega arith)
born_this_year b at e (inr h) = ground (arith, birthday_day-le b at.year)

age-passed :
    (b at : Time) (n : ℕ)
    → before at b ≡ false
    → b.year + n ≡ at.year
    → birthday_passed b at ≡ true
    → age_whole_years b at ≡ pos n
unfolding age_whole_years ◌-ℤ◌
age-passed b at n h e passed = ground arith

age-missed :
    (b at : Time) (n : ℕ)
    → before at b ≡ false
    → b.year + suc n ≡ at.year
    → birthday_passed b at ≡ false
    → age_whole_years b at ≡ pos n
unfolding age_whole_years ◌-ℤ◌
age-missed b at n h e missed = ground arith

-- For a birth on a date of the calendar that is not after `at`, neither as a moment nor by its
-- date, the age is the n for which the n-th birthday has come and the next one has not. The n-th
-- birthday is n years after the birth, in the same month and on the same day, or on the last day
-- of that month where it is shorter, as the Gregorian calendar has it.
pub age_whole_years-birthdays :
    (birthdate at : Time)
    → birthdate.day ≤ days_in_month birthdate.year birthdate.month
    → before at birthdate ≡ false
    → DateLe birthdate at
    → (n : ℕ) × (age_whole_years birthdate at ≡ pos n)
      × DateLe (birthday birthdate n) at
      × DateLt at (birthday birthdate (suc n))
age_whole_years-birthdays b at valid h d = elim (Bool-cases (birthday_passed b at)) [
  | inl passed ↦
      let e : b.year + (at.year - b.year) ≡ at.year = omega arith in
      (
        at.year - b.year,
        age-passed b at _ h e passed,
        passed-DateLe b at _ valid e passed,
        inl (omega arith),
      )
  | inr missed ↦ by_years (at.year - b.year) refl missed
]
  where
    by_years :
        (n : ℕ)
        → at.year - b.year ≡ n
        → birthday_passed b at ≡ false
        → (n : ℕ) × (age_whole_years b at ≡ pos n)
          × DateLe (birthday b n) at
          × DateLt at (birthday b (suc n))
    by_years zero e missed = absurd (ground (arith, born_this_year b at (omega arith) d))
    by_years (suc n) e missed =
        let f : b.year + suc n ≡ at.year = omega arith in
        (
          n,
          age-missed b at n h f missed,
          inl (omega arith),
          missed-DateLt b at (suc n) valid f missed,
        )
