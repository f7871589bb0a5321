-- ===== src/Tests/Fields.antt =====
-- Fields of truth values, dates and times.
use go_hdb.Prelude.{◌+◌, ◌≡◌, [], ◌∷◌, ◌++◌, arith, ok, Bytes}
use go_hdb.Encoding.Decoder.Ready.{ready}
use go_hdb.Encoding.Fields.{time_value}
use go_hdb.Encoding.Fields.Encode
use go_hdb.Encoding.Fields.Decode
use go_hdb.Encoding.Fields.RoundTrip.{Instant, time, millis, timestamp_field_roundtrip}
use go_hdb.Tests.Values.{fresh_decoder}

abbrev an_instant : Instant
an_instant = record {
  year = 2024;
  month = 2;
  day = 29;
  hour = 23;
  minute = 59;
  second = 58;
  nanosecond = 123456789;
  year_in = omega arith;
  month_in = (omega arith, omega arith);
  day_in = omega arith;
  hour_in = omega arith;
  minute_in = omega arith;
  second_in = omega arith;
  nanosecond_in = omega arith;
}

timestamp_field_roundtrip_example :
    (bytes : Bytes) × (Encode.timestamp_field (time_value (time an_instant)) [] ≡ ok bytes)
    × (Decode.timestamp_field (ready fresh_decoder (bytes ++ 9 ∷ []) 0)
        ≡ (time_value (millis (time an_instant)), ready fresh_decoder (9 ∷ []) (0 + 8)))
timestamp_field_roundtrip_example = timestamp_field_roundtrip fresh_decoder an_instant (9 ∷ []) 0
