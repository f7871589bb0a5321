-- ===== src/Encoding/Fields/Decode.antt =====
-- decode.go: `BooleanField`, `DateField`, `TimeField` and `TimestampField`; their error is always nil.
use go_hdb.Prelude.{ℕ, ◌*◌, ◌/◌, ◌%◌, ◌^◌, Bool, true, false, ◌||◌, ltb, ◌==◌, if◌then◌else◌}
use go_hdb.Prelude.Int.{ℤ, pos, convert, ◌+ℤ◌}
use go_hdb.Encoding.Decoder.{Decoding, ◌>>=◌, pure, byte, int8, uint16}
use go_hdb.Encoding.Fields.{
  Value, nil, bool_value, time_value, boolean_false_value, boolean_null_value,
}

unfoldable pub boolean_field : Decoding Value
boolean_field = do
  b ← byte
  pure (
      if b == boolean_null_value
      then nil
      else if b == boolean_false_value
      then bool_value false
      else bool_value true)

-- Year, month, day, and whether the most significant bit is unset.
unfoldable pub decode_date : Decoding (ℤ × ℤ × ℤ × Bool)
decode_date = do
  year ← uint16
  month ← int8
  day ← int8
  pure (pos (year % 2 ^ 14), convert (2 ^ 7) (month +ℤ pos 1), day, ltb year (2 ^ 15))

-- Hour, minute, second, nanosecond, and whether the most significant bit is unset.
unfoldable pub decode_time : Decoding (ℕ × ℤ × ℕ × ℕ × Bool)
decode_time = do
  hour ← byte
  minute ← int8
  msec ← uint16
  pure (hour % 2 ^ 7, minute, msec / 1000, msec % 1000 * 1000000, ltb hour (2 ^ 7))

unfoldable pub date_field : Decoding Value
date_field = do
  (year, month, day, null) ← decode_date
  pure (
      if null
      then nil
      else time_value (record {
        year = year;
        month = month;
        day = day;
        hour = 0;
        minute = pos 0;
        second = 0;
        nanosecond = 0;
      }))

unfoldable pub time_field : Decoding Value
time_field = do
  (hour, minute, second, nanosecond, null) ← decode_time
  pure (
      if null
      then nil
      else time_value (record {
        year = pos 1;
        month = pos 1;
        day = pos 1;
        hour = hour;
        minute = minute;
        second = second;
        nanosecond = nanosecond;
      }))

unfoldable pub timestamp_field : Decoding Value
timestamp_field = do
  (year, month, day, date_null) ← decode_date
  (hour, minute, second, nanosecond, time_null) ← decode_time
  pure (
      if date_null || time_null
      then nil
      else time_value (record {
        year = year;
        month = month;
        day = day;
        hour = hour;
        minute = minute;
        second = second;
        nanosecond = nanosecond;
      }))
