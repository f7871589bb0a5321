-- ===== src/Encoding/Julian/Days.antt =====
-- julian.go: the day number of a date that was made of a day number.
use go_hdb.Prelude.{
  ℕ, ◌+◌, ◌-◌, ◌*◌, ◌/◌, ◌%◌, ◌≤◌, ◌<◌, ◌≡◌, refl, arith, true, false, ◌&&◌, ltb, ◌==◌, Bool-cases,
  inl, inr,
}
use go_hdb.Encoding.Julian.{
  Date, gregorian_day, before_gregorian, time_to_day, is_leap, date, day_of, month_of, from_days,
  day_to_time,
}

day_lem : (g : ℕ) → day_of (5 * g + 2) + (153 * ((5 * g + 2) / 153) + 2) / 5 ≡ g + 1
day_lem g = omega arith

year_lem :
    (f : ℕ) → (4 * f + 3) % 1461 / 4 + 365 * ((4 * f + 3) / 1461) + (4 * f + 3) / 1461 / 4 ≡ f
year_lem f = omega arith

-- The leap days that centuries leave out.
century_lem :
    (jd c y f : ℕ)
    → 2299161 ≤ jd
    → c ≡ (4 * jd + 274277) / 146097
    → f + 38 ≡ jd + 1401 + c * 3 / 4
    → y ≡ (4 * f + 3) / 1461 + 84
    → c * 3 / 4 + y / 400 ≡ y / 100
century_lem jd c y f h hc hf hy = omega (arith, h, hc, hf, hy)

-- The month as `TimeToDay` counts it, from March on.
month_lem :
    (g : ℕ)
    → g ≤ 365
    → month_of (5 * g + 2) + 12 * ((14 - month_of (5 * g + 2)) / 12) - 3 ≡ (5 * g + 2) / 153
month_lem g h = omega (arith, h)

-- The date of f, as it comes out where no day is moved.
abbrev raw : ℕ → Date
raw f =
    let e = 4 * f + 3 in
    let h = 5 * (e % 1461 / 4) + 2 in
    record { year = e / 1461 - 4716 + (14 - month_of h) / 12; month = month_of h; day = day_of h }

year_back : (y a : ℕ) → 4716 ≤ y → y - 4716 + a + 4800 - a ≡ y + 84
year_back y a h = omega (arith, h)

raw-days :
    (f : ℕ)
    → 1722825 ≤ f
    → let t = raw f in
      let a = (14 - t.month) / 12 in
      let y = t.year + 4800 - a in
      let m = t.month + 12 * a - 3 in
      (t.day + (153 * m + 2) / 5 + 365 * y + y / 4 ≡ f + 30682) × (y ≡ (4 * f + 3) / 1461 + 84)
raw-days f h =
    let y = (4 * f + 3) / 1461 in
    let g = (4 * f + 3) % 1461 / 4 in
    let small : g ≤ 365 = omega arith in
    let late : 4716 ≤ y = omega (arith, h) in
    let back = year_back y ((14 - month_of (5 * g + 2)) / 12) late in
    (rw (back, month_lem g small) (omega (arith, day_lem g, year_lem f)), back)

-- From the day on on which the Gregorian calendar starts.
not_before : (f : ℕ) → 2300572 ≤ f → before_gregorian (raw f) ≡ false
not_before f h = ground (arith, h)

date-raw :
    (y m d : ℕ)
    → (m ≡ 2 → d ≡ 29 → is_leap y ≡ true)
    → date y m d ≡ record { year = y; month = m; day = d }
date-raw y m d h = elim (Bool-cases (m == 2 && d == 29)) [
  | inl e ↦
      let second : m ≡ 2 = ground (arith, e) in
      let last : d ≡ 29 = ground (arith, e) in rw (h second last) (ground (arith, e))
  | inr e ↦ ground (arith, e)
]

-- The 29 February of the Gregorian calendar.
leap_lem :
    (jd c f : ℕ)
    → 2299161 ≤ jd
    → c ≡ (4 * jd + 274277) / 146097
    → f + 38 ≡ jd + 1401 + c * 3 / 4
    → (raw f).month ≡ 2
    → (raw f).day ≡ 29
    → is_leap (raw f).year ≡ true
leap_lem jd c f h hc hf hm hd =
    let y = (4 * f + 3) / 1461 in
    let year = y - 4715 in
    let same : (raw f).year ≡ year = omega (arith, hm, h, hf) in
    let four : year % 4 ≡ 0 = omega (arith, hm, hd, h, hf) in
    rw same (elim (Bool-cases (year % 100 == 0)) [
      | inl e ↦
          let hundred : year % 100 ≡ 0 = ground (arith, e) in
          let century : year % 400 ≡ 0 = omega (arith, hm, hd, h, hc, hf, hundred) in
          ground (arith, four, century)
      | inr e ↦ ground (arith, four, e)
    ])

-- From the first day of the Gregorian calendar on, a day number becomes a date of that day number.
pub time_to_day-day_to_time : (jd : ℕ) → 2299161 ≤ jd → time_to_day (day_to_time jd) ≡ jd
unfolding time_to_day day_to_time
time_to_day-day_to_time jd h =
    let c = (4 * jd + 274277) / 146097 in
    let f = jd + 1401 + c * 3 / 4 - 38 in
    let late : ltb jd gregorian_day ≡ false = ground (arith, h) in
    let hf : f + 38 ≡ jd + 1401 + c * 3 / 4 = omega (arith, h) in
    let first : 2300572 ≤ f = omega (arith, h) in
    let y = (4 * f + 3) / 1461 + 84 in
    let (sum, year) = raw-days f (omega (arith, first)) in
    let leap = date-raw (raw f).year (raw f).month (raw f).day (leap_lem jd c f h refl hf) in
    rw (late, leap, not_before f first, sum, year)
      (omega (arith, century_lem jd c y f h refl hf refl, hf, first))

before : (f : ℕ) → 1722825 ≤ f → f < 2300562 → before_gregorian (raw f) ≡ true
before f h k = ground (arith, h, k)

-- A day of the Julian calendar, from the year 1 on, that is a day of the Gregorian calendar too.
pub time_to_day-day_to_time_julian :
    (jd : ℕ)
    → 1721424 ≤ jd
    → jd < 2299161
    → from_days (jd + 1401) ≡ raw (jd + 1401)
    → time_to_day (day_to_time jd) ≡ jd
unfolding time_to_day day_to_time
time_to_day-day_to_time_julian jd h k e =
    let f = jd + 1401 in
    let early : ltb jd gregorian_day ≡ true = ground (arith, k) in
    let (sum, year) = raw-days f (omega (arith, h)) in
    rw (early, e, before f (omega (arith, h)) (omega (arith, k)), sum) (omega (arith, h))

moved :
    (k : ℕ)
    → 1 ≤ k
    → 0 < k % 4
    → date (100 * k + 4715 - 4716 + 1) 2 29 ≡ date (100 * k + 4716 - 4716 + 0) 3 1
moved k h m =
    let y : 100 * k + 4715 - 4716 + 1 ≡ 100 * k = omega (arith, h) in
    let z : 100 * k + 4716 - 4716 + 0 ≡ 100 * k = omega arith in
    let common : is_leap (100 * k) ≡ false = ground (arith, m) in rw (y, z, common) refl

-- The 29 February of a year 100 k that is a leap year of the Julian calendar only, and the day behind it,
-- become one date.
pub day_to_time-collision :
    (k : ℕ)
    → 1 ≤ k
    → k ≤ 15
    → 0 < k % 4
    → day_to_time (36525 * k + 1721117) ≡ day_to_time (36525 * k + 1721118)
unfolding day_to_time
day_to_time-collision k h l m =
    let early : ltb (36525 * k + 1721117) gregorian_day ≡ true = ground (arith, l) in
    let next : ltb (36525 * k + 1721118) gregorian_day ≡ true = ground (arith, l) in
    let q : (4 * (36525 * k + 1721117 + 1401) + 3) / 1461 ≡ 100 * k + 4715 = omega arith in
    let r : (4 * (36525 * k + 1721117 + 1401) + 3) % 1461 ≡ 1460 = omega arith in
    let q' : (4 * (36525 * k + 1721118 + 1401) + 3) / 1461 ≡ 100 * k + 4716 = omega arith in
    let r' : (4 * (36525 * k + 1721118 + 1401) + 3) % 1461 ≡ 3 = omega arith in
    rw (early, next, q, r, q', r') (moved k h m)
