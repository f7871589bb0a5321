-- ===== src/Tests/Dates.antt =====
-- Dates as numbers.
use go_hdb.Prelude.{◌≡◌, refl, arith, some}
use go_hdb.Encoding.Julian.{time_to_day, day_to_time}
use go_hdb.Encoding.Julian.Days.{time_to_day-day_to_time, day_to_time-collision}
use go_hdb.Encoding.Datetime.{
  DayTime, InRange, convert_seconddate_to_time, convert_time_to_seconddate,
  convert_longdate_to_time, convert_time_to_longdate, datetime_roundtrip,
}

-- 1 January 2000.
new_year : day_to_time 2451545 ≡ record { year = 2000; month = 1; day = 1 }
unfolding day_to_time
new_year = refl

time_to_day-day_to_time_example : time_to_day (day_to_time 2451545) ≡ 2451545
time_to_day-day_to_time_example = time_to_day-day_to_time 2451545 (omega arith)

-- 29 February 1500 and 1 March 1500.
day_to_time-collision_example : day_to_time 2268992 ≡ day_to_time 2268993
day_to_time-collision_example = day_to_time-collision 15 (omega arith) (omega arith) (omega arith)

abbrev some_time : DayTime
some_time = record {
  date = day_to_time 2451545;
  hour = 13;
  minute = 14;
  second = 15;
  nanosecond = 1234567;
}

some_time-InRange : InRange 2451545 some_time
some_time-InRange = record {
  is_gregorian = omega arith;
  in_int64 = omega arith;
  date_is = refl;
  hour_in = omega arith;
  minute_in = omega arith;
  second_in = omega arith;
  nanosecond_in = omega arith;
}

datetime_roundtrip_example :
    (convert_seconddate_to_time (convert_time_to_seconddate some_time)
      ≡ some (record some_time { nanosecond = 0 }))
    × (convert_longdate_to_time (convert_time_to_longdate some_time)
        ≡ some (record some_time { nanosecond = 1234500 }))
datetime_roundtrip_example = datetime_roundtrip 2451545 some_time some_time-InRange
