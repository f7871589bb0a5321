-- ===== src/Encoding/Julian.antt =====
-- driver/internal/protocol/julian/julian.go: Julian day numbers. The model is of days from the year 1 on,
-- where nothing that is subtracted is too great; a time is the date of its midnight in UTC.
pub mod Days
use go_hdb.Prelude.{ℕ, ◌+◌, ◌-◌, ◌*◌, ◌/◌, ◌%◌, Bool, ◌&&◌, ◌||◌, not, ltb, ◌==◌, if◌then◌else◌}

pub record Date : Type 0 where
  pub year : ℕ
  pub month : ℕ
  pub day : ℕ

abbrev pub gregorian_day : ℕ
gregorian_day = 2299161

-- `Before` the date of that day, 15 October 1582.
abbrev pub before_gregorian : Date → Bool
before_gregorian t =
    ltb t.year 1582 || (t.year == 1582 && (ltb t.month 10 || (t.month == 10 && ltb t.day 15)))

unfoldable pub time_to_day : Date → ℕ
time_to_day t =
    let a = (14 - t.month) / 12 in
    let y = t.year + 4800 - a in
    let m = t.month + 12 * a - 3 in
    if before_gregorian t
    then t.day + (153 * m + 2) / 5 + 365 * y + y / 4 - 32083
    else t.day + (153 * m + 2) / 5 + 365 * y + y / 4 - y / 100 + y / 400 - 32045

abbrev pub is_leap : ℕ → Bool
is_leap year = year % 4 == 0 && (not (year % 100 == 0) || year % 400 == 0)

-- time.Date, which has the Gregorian calendar: the 29 February of a year that is no leap year is 1 March.
-- The days that come here are in their month but for that one.
abbrev pub date : ℕ → ℕ → ℕ → Date
date year month day =
    if month == 2 && day == 29 && not (is_leap year)
    then record { year = year; month = 3; day = 1 }
    else record { year = year; month = month; day = day }

-- The steps of `DayToTime` behind f.
abbrev pub day_of : ℕ → ℕ
day_of h = h % 153 / 5 + 1

abbrev pub month_of : ℕ → ℕ
month_of h = (h / 153 + 2) % 12 + 1

abbrev pub from_days : ℕ → Date
from_days f =
    let e = 4 * f + 3 in
    let g = e % 1461 / 4 in
    let h = 5 * g + 2 in date (e / 1461 - 4716 + (14 - month_of h) / 12) (month_of h) (day_of h)

unfoldable pub day_to_time : ℕ → Date
day_to_time jd =
    if ltb jd gregorian_day
    then from_days (jd + 1401)
    else from_days (jd + 1401 + (4 * jd + 274277) / 146097 * 3 / 4 - 38)
