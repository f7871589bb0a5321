-- ===== src/Encoding/Fields/Encode.antt =====
-- encode.go: `BooleanField`, `DateField`, `TimeField` and `TimestampField`. A value of another type
-- panics; the error that is returned is always nil.
use go_hdb.Prelude.{ℕ, ◌+◌, ◌*◌, ◌/◌, ◌%◌, ◌^◌, ltb, if◌then◌else◌, Outcome, ok, panic, map_ok}
use go_hdb.Prelude.Int.{pos, wrap, convert, ◌-ℤ◌}
use go_hdb.Encoding.Encoder.{Encoder, ◌>>◌, byte, int8, uint16}
use go_hdb.Encoding.Fields.{
  Time, Value, nil, bool_value, time_value, other_value, boolean_false_value, boolean_null_value,
  boolean_true_value,
}

unfoldable pub boolean_field : Value → Encoder → Outcome Encoder
boolean_field nil e = ok (byte boolean_null_value e)
boolean_field (bool_value b) e =
    ok (if b then byte boolean_true_value e else byte boolean_false_value e)
boolean_field (time_value t) e = panic
boolean_field other_value e = panic

-- `asTime`
unfoldable pub as_time : Value → Outcome Time
as_time nil = panic
as_time (bool_value b) = panic
as_time (time_value t) = ok t
as_time other_value = panic

-- `v | 1 << w`, for v below 2 ^ (w + 1).
unfoldable pub set_top : ℕ → ℕ → ℕ
set_top w v = if ltb v (2 ^ w) then v + 2 ^ w else v

unfoldable pub encode_date : Time → Encoder → Encoder
encode_date t = do
  uint16 (set_top 15 (wrap (2 ^ 16) t.year))
  int8 (convert (2 ^ 7) (convert (2 ^ 7) t.month -ℤ pos 1))
  int8 (convert (2 ^ 7) t.day)

unfoldable pub encode_time : Time → Encoder → Encoder
encode_time t = do
  byte (set_top 7 (t.hour % 2 ^ 8))
  int8 (convert (2 ^ 7) t.minute)
  uint16 ((t.second * 1000 + t.nanosecond / 1000000) % 2 ^ 16)

unfoldable pub date_field : Value → Encoder → Outcome Encoder
date_field v e = map_ok (λ t. encode_date t e) (as_time v)

unfoldable pub time_field : Value → Encoder → Outcome Encoder
time_field v e = map_ok (λ t. encode_time t e) (as_time v)

unfoldable pub timestamp_field : Value → Encoder → Outcome Encoder
timestamp_field v e = map_ok (λ t. encode_time t (encode_date t e)) (as_time v)
