-- ===== src/Encoding/Datetime.antt =====
-- driver/internal/protocol/encoding/datetime.go: days, seconds and tenths of microseconds as numbers, of
-- the years from 1 on, where nothing that is subtracted is too great.
use go_hdb.Prelude.{
  ℕ, suc, ◌^◌, Option, none, some, ◌+◌, ◌-◌, ◌*◌, ◌/◌, ◌%◌, ◌≤◌, ◌<◌, ◌≡◌, refl, sym, ap, ◌∙◌,
  arith,
}
use go_hdb.Prelude.Int.{ℤ, pos, convert, convert-pos}
use go_hdb.Encoding.Julian.{Date, time_to_day, day_to_time}
use go_hdb.Encoding.Julian.Days.{time_to_day-day_to_time}

-- A time.Time in UTC: its date and its clock.
pub record DayTime : Type 0 where
  pub date : Date
  pub hour : ℕ
  pub minute : ℕ
  pub second : ℕ
  pub nanosecond : ℕ

-- `Add` of nanoseconds of less than a day to a midnight.
abbrev add_clock : Date → ℕ → DayTime
add_clock date d = record {
  date = date;
  hour = d / (3600 * 1000000000);
  minute = d / (60 * 1000000000) % 60;
  second = d / 1000000000 % 60;
  nanosecond = d % 1000000000;
}

abbrev julian_hdb : ℕ
julian_hdb = 1721423

unfoldable pub convert_daydate_to_time : ℕ → Date
convert_daydate_to_time daydate = day_to_time (daydate + julian_hdb)

unfoldable pub convert_time_to_day_date : Date → ℕ
convert_time_to_day_date t = time_to_day t - julian_hdb

-- Of a time before the year 1 the number is 0 or negative: none here.
unfoldable pub convert_seconddate_to_time : ℤ → Option DayTime
convert_seconddate_to_time (pos (suc s)) =
    some (add_clock (convert_daydate_to_time (s / 86400 + 1)) (s % 86400 * 1000000000))
convert_seconddate_to_time _ = none

-- Sums and products of an int64 wrap around.
unfoldable pub convert_time_to_seconddate : DayTime → ℤ
convert_time_to_seconddate t = convert (2 ^ 63) (
    pos
      ((((convert_time_to_day_date t.date - 1) * 24 + t.hour) * 60 + t.minute) * 60 + t.second + 1))

unfoldable pub convert_longdate_to_time : ℤ → Option DayTime
convert_longdate_to_time (pos (suc l)) =
    some (add_clock (convert_daydate_to_time (l / 864000000000 + 1)) (l % 864000000000 * 100))
convert_longdate_to_time _ = none

unfoldable pub convert_time_to_longdate : DayTime → ℤ
convert_time_to_longdate t = convert (2 ^ 63) (
    pos (
      ((((convert_time_to_day_date t.date - 1) * 24 + t.hour) * 60 + t.minute) * 60 + t.second)
        * 10000000
      + t.nanosecond / 100
      + 1))

-- Seconds of the first day of the year 1; a number of a day's seconds is from 1 on.
unfoldable pub convert_secondtime_to_time : ℕ → DayTime
convert_secondtime_to_time secondtime =
    add_clock (record { year = 1; month = 1; day = 1 }) ((secondtime - 1) * 1000000000)

unfoldable pub convert_time_to_secondtime : DayTime → ℕ
convert_time_to_secondtime t = (t.hour * 60 + t.minute) * 60 + t.second + 1

-- A number of a day's seconds comes back from its time.
pub secondtime_roundtrip :
    (s : ℕ) → s < 86400 → convert_time_to_secondtime (convert_secondtime_to_time (s + 1)) ≡ s + 1
unfolding convert_secondtime_to_time convert_time_to_secondtime
secondtime_roundtrip s h = omega (arith, h)

-- A day from the Gregorian calendar's first one on, up to the last whose longdate is an int64, in the
-- year 29228, and a clock.
pub record InRange (jd : ℕ) (t : DayTime) : Type 0 where
  pub is_gregorian : 2299161 ≤ jd
  pub in_int64 : jd ≤ 12396622
  pub date_is : t.date ≡ day_to_time jd
  pub hour_in : t.hour < 24
  pub minute_in : t.minute < 60
  pub second_in : t.second < 60
  pub nanosecond_in : t.nanosecond < 1000000000

day-convert :
    (jd : ℕ) (t : DayTime) → InRange jd t → convert_time_to_day_date t.date ≡ jd - julian_hdb
unfolding convert_time_to_day_date
day-convert jd t r = rw (r.date_is, time_to_day-day_to_time jd r.is_gregorian) refl

module _ (jd : ℕ) (t : DayTime) (r : InRange jd t) where
  abbrev seconds : ℕ
  seconds = (((jd - julian_hdb - 1) * 24 + t.hour) * 60 + t.minute) * 60 + t.second

  with_nanosecond :
      (n : ℕ)
      → ◌≡◌ {A = DayTime}
          (record {
            date = day_to_time jd;
            hour = t.hour;
            minute = t.minute;
            second = t.second;
            nanosecond = n;
          })
          (record t { nanosecond = n })
  with_nanosecond n =
      ap
        (λ (d : Date). record {
          date = d;
          hour = t.hour;
          minute = t.minute;
          second = t.second;
          nanosecond = n;
        })
        (sym r.date_is)

  seconddate_is : convert_time_to_seconddate t ≡ pos (suc seconds)
  unfolding convert_time_to_seconddate
  seconddate_is = rw (day-convert jd t r) (
      convert-pos (2 ^ 63) (seconds + 1)
        (omega (arith, r.in_int64, r.hour_in, r.minute_in, r.second_in))
      ∙ ap pos (omega arith))

  longdate_is : convert_time_to_longdate t ≡ pos (suc (seconds * 10000000 + t.nanosecond / 100))
  unfolding convert_time_to_longdate
  longdate_is = rw (day-convert jd t r) (
      convert-pos (2 ^ 63) (seconds * 10000000 + t.nanosecond / 100 + 1)
        (omega (arith, r.in_int64, r.hour_in, r.minute_in, r.second_in, r.nanosecond_in))
      ∙ ap pos (omega arith))

  seconddate_lem :
      convert_seconddate_to_time (convert_time_to_seconddate t) ≡ some (record t { nanosecond = 0 })
  unfolding convert_seconddate_to_time convert_daydate_to_time
  seconddate_lem =
      let s = seconds in
      let day : s / 86400 + 1 + julian_hdb ≡ jd =
        omega (arith, r.is_gregorian, r.hour_in, r.minute_in, r.second_in) in
      let hour : s % 86400 * 1000000000 / (3600 * 1000000000) ≡ t.hour =
        omega (arith, r.hour_in, r.minute_in, r.second_in) in
      let minute : s % 86400 * 1000000000 / (60 * 1000000000) % 60 ≡ t.minute =
        omega (arith, r.hour_in, r.minute_in, r.second_in) in
      let second : s % 86400 * 1000000000 / 1000000000 % 60 ≡ t.second =
        omega (arith, r.hour_in, r.minute_in, r.second_in) in
      let nano : s % 86400 * 1000000000 % 1000000000 ≡ 0 = omega arith in
      rw seconddate_is (rw (day, hour, minute, second, nano) (ap some (with_nanosecond 0)))

  longdate_lem :
      convert_longdate_to_time (convert_time_to_longdate t)
      ≡ some (record t { nanosecond = t.nanosecond / 100 * 100 })
  unfolding convert_longdate_to_time convert_daydate_to_time
  longdate_lem =
      let n = t.nanosecond / 100 in
      let small : n < 10000000 = omega (arith, r.nanosecond_in) in
      let l = seconds * 10000000 + n in
      let of_day = l % 864000000000 * 100 in
      let day : l / 864000000000 + 1 + julian_hdb ≡ jd =
        omega (arith, r.is_gregorian, r.hour_in, r.minute_in, r.second_in, small) in
      let hour : of_day / (3600 * 1000000000) ≡ t.hour =
        omega (arith, r.hour_in, r.minute_in, r.second_in, small) in
      let minute : of_day / (60 * 1000000000) % 60 ≡ t.minute =
        omega (arith, r.hour_in, r.minute_in, r.second_in, small) in
      let second : of_day / 1000000000 % 60 ≡ t.second =
        omega (arith, r.hour_in, r.minute_in, r.second_in, small) in
      let nano : of_day % 1000000000 ≡ n * 100 =
        omega (arith, r.hour_in, r.minute_in, r.second_in, small) in
      rw longdate_is (rw (day, hour, minute, second, nano) (ap some (with_nanosecond (n * 100))))

-- A time of a day from the Gregorian calendar's first one on, up to the last one whose longdate is an
-- int64, comes back from its seconddate without the part of a second, and from its longdate without
-- what is below 100 nanoseconds.
pub datetime_roundtrip :
    (jd : ℕ) (t : DayTime)
    → InRange jd t
    → (convert_seconddate_to_time (convert_time_to_seconddate t)
        ≡ some (record t { nanosecond = 0 }))
      × (convert_longdate_to_time (convert_time_to_longdate t)
          ≡ some (record t { nanosecond = t.nanosecond / 100 * 100 }))
datetime_roundtrip jd t r = (seconddate_lem jd t r, longdate_lem jd t r)
