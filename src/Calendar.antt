-- ===== src/Calendar.antt =====
-- Go's time.Time as the program reads it. A moment that is only stored and compared is a number of
-- nanoseconds; one whose date is read as well is a `Time`: the moment, and the date that it has in
-- its location. How moments and dates belong together is the time package's business, and no
-- definition here depends on it.
use scouting_app.Base.{ℕ, ◌%◌, Bool, ◌&&◌, ◌||◌, not, nat_eq, ltb}

pub record Time : Type 0 where
  pub instant : ℕ
  pub year : ℕ
  pub month : ℕ
  pub day : ℕ

-- Time.Before
abbrev pub before : Time → Time → Bool
before t u = ltb t.instant u.instant

abbrev pub february : ℕ
february = 2

-- isLeapYear of tent_rules.go
unfoldable pub is_leap_year : ℕ → Bool
is_leap_year y = nat_eq (y % 4) 0 && (not (nat_eq (y % 100) 0) || nat_eq (y % 400) 0)
