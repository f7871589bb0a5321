-- ===== src/Encoding/Fields/RoundTrip.antt =====
-- Dates and times are decoded to what was encoded, up to the precision of the field.
use go_hdb.Prelude.{
  ℕ, ◌+◌, ◌-◌, ◌*◌, ◌/◌, ◌%◌, ◌^◌, ◌<◌, ◌≤◌, ◌≡◌, refl, ap, ◌∙◌, Bool, true, false, [], ◌∷◌, ◌++◌,
  arith, Bytes, ok, ltb,
}
use go_hdb.Prelude.Int.{
  pos, wrap, convert, ◌-ℤ◌, ◌+ℤ◌, wrap-pos, convert-pos, mod_small, +ℤ-pos, -ℤ-pos,
}
use go_hdb.Prelude.Words.{le_bytes}
use go_hdb.Encoding.Encoder
use go_hdb.Encoding.Decoder.{Decoder}
use go_hdb.Encoding.Decoder.Ready.{ready, byte-ready, int8-ready, uint16-ready}
use go_hdb.Encoding.Fields.{
  Time, Value, nil, bool_value, time_value, boolean_true_value, boolean_false_value,
  boolean_null_value, other_value,
}
use go_hdb.Encoding.Fields.Encode
use go_hdb.Encoding.Fields.Encode.{set_top, encode_date, encode_time, as_time}
use go_hdb.Encoding.Fields.Decode
use go_hdb.Encoding.Fields.Decode.{decode_date, decode_time}
use mathlib.Core.List.{append_assoc}
use native.Mathlib.Nat.{add_assoc}

-- A day and a time of day that exist or nearly so, in years that the field can say.
pub record Instant : Type 0 where
  pub year : ℕ
  pub month : ℕ
  pub day : ℕ
  pub hour : ℕ
  pub minute : ℕ
  pub second : ℕ
  pub nanosecond : ℕ
  pub year_in : year < 2 ^ 14
  pub month_in : (1 ≤ month) × (month ≤ 12)
  pub day_in : day ≤ 31
  pub hour_in : hour < 24
  pub minute_in : minute < 60
  pub second_in : second < 60
  pub nanosecond_in : nanosecond < 1000000000

abbrev pub time : Instant → Time
time i = record {
  year = pos i.year;
  month = pos i.month;
  day = pos i.day;
  hour = i.hour;
  minute = pos i.minute;
  second = i.second;
  nanosecond = i.nanosecond;
}

-- A time is sent in milliseconds.
abbrev pub millis : Time → Time
millis t = record t { nanosecond = t.nanosecond / 1000000 * 1000000 }

-- The numbers on the wire.
date_bytes : Instant → Bytes → Bytes
date_bytes i rest =
    le_bytes 2 (i.year + 2 ^ 15)
    ++ (wrap (2 ^ 8) (pos (i.month - 1)) ∷ (wrap (2 ^ 8) (pos i.day) ∷ rest))

time_bytes : Instant → Bytes → Bytes
time_bytes i rest =
    (i.hour + 2 ^ 7)
    ∷ (wrap (2 ^ 8) (pos i.minute)
        ∷ (le_bytes 2 (i.second * 1000 + i.nanosecond / 1000000) ++ rest))

set_top_low : (w v : ℕ) → v < 2 ^ w → set_top w v ≡ v + 2 ^ w
unfolding set_top
set_top_low w v h = ground arith

wire_month :
    (m : ℕ) → 1 ≤ m → m ≤ 12 → convert (2 ^ 7) (convert (2 ^ 7) (pos m) -ℤ pos 1) ≡ pos (m - 1)
wire_month m h k =
    rw (convert-pos (2 ^ 7) m (omega arith), -ℤ-pos m 1 h)
      (convert-pos (2 ^ 7) (m - 1) (omega arith))

calendar_month : (m : ℕ) → 1 ≤ m → m ≤ 12 → convert (2 ^ 7) (pos (m - 1) +ℤ pos 1) ≡ pos m
calendar_month m h k =
    rw (+ℤ-pos (m - 1) 1)
      (convert-pos (2 ^ 7) (m - 1 + 1) (omega arith) ∙ ap pos {x = m - 1 + 1} {y = m} (omega arith))

year_masked : (y : ℕ) → y < 2 ^ 14 → (y + 2 ^ 15) % 2 ^ 14 ≡ y
year_masked y h = omega (arith, h)

hour_masked : (h : ℕ) → h < 2 ^ 7 → (h + 2 ^ 7) % 2 ^ 7 ≡ h
hour_masked h k = omega (arith, k)

top_is_set : (w v : ℕ) → ltb (v + w) w ≡ false
top_is_set w v = ground arith

msec_second : (s m : ℕ) → m < 1000 → (s * 1000 + m) / 1000 ≡ s
msec_second s m h = omega (arith, h)

msec_rest : (s m : ℕ) → m < 1000 → (s * 1000 + m) % 1000 ≡ m
msec_rest s m h = omega (arith, h)

encode_date-append :
    (i : Instant) (e rest : Bytes) → encode_date (time i) e ++ rest ≡ e ++ date_bytes i rest
unfolding encode_date date_bytes Encoder.uint16 Encoder.int8
encode_date-append i e rest =
    rw
      (
        wrap-pos (2 ^ 16) i.year (omega (arith, i.year_in)),
        set_top_low 15 i.year (omega (arith, i.year_in)),
        wire_month i.month (i.month_in.0) (i.month_in.1),
        convert-pos (2 ^ 7) i.day (omega (arith, i.day_in)),
      )
      (simp append_assoc)

encode_time-append :
    (i : Instant) (e rest : Bytes) → encode_time (time i) e ++ rest ≡ e ++ time_bytes i rest
unfolding encode_time time_bytes Encoder.uint16 Encoder.int8 Encoder.byte
encode_time-append i e rest =
    rw
      (
        mod_small i.hour (2 ^ 8) (omega (arith, i.hour_in)),
        set_top_low 7 i.hour (omega (arith, i.hour_in)),
        convert-pos (2 ^ 7) i.minute (omega (arith, i.minute_in)),
        mod_small (i.second * 1000 + i.nanosecond / 1000000) (2 ^ 16)
            (omega (arith, i.second_in, i.nanosecond_in)),
      )
      (simp append_assoc)

module _ (d : Decoder) (i : Instant) (rest : Bytes) (cnt : ℕ) where
  decode_date-ready :
      decode_date (ready d (date_bytes i rest) cnt)
      ≡ ((pos i.year, pos i.month, pos i.day, false), ready d rest (cnt + 4))
  unfolding decode_date date_bytes
  decode_date-ready = rw (uint16-ready d _ cnt (i.year + 2 ^ 15) (omega (arith, i.year_in))) (
      rw (int8-ready d _ (cnt + 2) (pos (i.month - 1)) (omega (arith, i.month_in.1))) (
        rw (int8-ready d rest (cnt + 2 + 1) (pos i.day) (omega (arith, i.day_in))) (
          rw
            (
              year_masked i.year i.year_in,
              calendar_month i.month (i.month_in.0) (i.month_in.1),
              top_is_set (2 ^ 15) i.year,
            )
            (simp add_assoc))))

  decode_time-ready : decode_time (ready d (time_bytes i rest) cnt) ≡ (
    (i.hour, pos i.minute, i.second, i.nanosecond / 1000000 * 1000000, false),
    ready d rest (cnt + 4),
  )
  unfolding decode_time time_bytes
  decode_time-ready =
      let msec = i.second * 1000 + i.nanosecond / 1000000 in
      rw (byte-ready d _ cnt (i.hour + 2 ^ 7)) (
        rw (int8-ready d _ (cnt + 1) (pos i.minute) (omega (arith, i.minute_in))) (
          rw (uint16-ready d rest (cnt + 1 + 1) msec (omega (arith, i.second_in, i.nanosecond_in)))
            (rw
              (
                hour_masked i.hour (omega (arith, i.hour_in)),
                msec_second i.second (i.nanosecond / 1000000) (omega (arith, i.nanosecond_in)),
                msec_rest i.second (i.nanosecond / 1000000) (omega (arith, i.nanosecond_in)),
                top_is_set (2 ^ 7) i.hour,
              )
              (simp add_assoc))))

-- A date and time in the range of the field is encoded in 8 bytes without a panic, and decoded to itself
-- without what is below a millisecond.
pub timestamp_field_roundtrip :
    (d : Decoder) (i : Instant) (rest : Bytes) (cnt : ℕ)
    → (bytes : Bytes) × (Encode.timestamp_field (time_value (time i)) [] ≡ ok bytes)
      × (Decode.timestamp_field (ready d (bytes ++ rest) cnt)
          ≡ (time_value (millis (time i)), ready d rest (cnt + 8)))
unfolding Encode.timestamp_field Decode.timestamp_field as_time
timestamp_field_roundtrip d i rest cnt = (
  encode_time (time i) (encode_date (time i) []),
  refl,
  rw
      (
        encode_time-append i (encode_date (time i) []) rest,
        encode_date-append i [] (time_bytes i rest),
      )
      (rw (decode_date-ready d i (time_bytes i rest) cnt)
        (rw (decode_time-ready d i rest (cnt + 4)) (simp add_assoc))),
)

-- A date is decoded to itself at midnight, and a time of day to itself on the first day of the year 1
-- without what is below a millisecond, each from the 4 bytes that it was encoded to without a panic.
pub date_and_time_field_roundtrip :
    (d : Decoder) (i : Instant) (rest : Bytes) (cnt : ℕ)
    → ((bytes : Bytes) × (Encode.date_field (time_value (time i)) [] ≡ ok bytes)
        × (Decode.date_field (ready d (bytes ++ rest) cnt) ≡ (
          time_value (record (time i) { hour = 0; minute = pos 0; second = 0; nanosecond = 0 }),
          ready d rest (cnt + 4),
        )))
      × ((bytes : Bytes) × (Encode.time_field (time_value (time i)) [] ≡ ok bytes)
          × (Decode.time_field (ready d (bytes ++ rest) cnt) ≡ (
            time_value (record (millis (time i)) { year = pos 1; month = pos 1; day = pos 1 }),
            ready d rest (cnt + 4),
          )))
unfolding Encode.date_field Decode.date_field Encode.time_field Decode.time_field as_time
date_and_time_field_roundtrip d i rest cnt = (
  (
    encode_date (time i) [],
    refl,
    rw (encode_date-append i [] rest) (rw (decode_date-ready d i rest cnt)),
  ),
  (
    encode_time (time i) [],
    refl,
    rw (encode_time-append i [] rest) (rw (decode_time-ready d i rest cnt)),
  ),
)

-- What a truth value, or nil, becomes on the wire.
abbrev pub boolean_byte : Value → ℕ
boolean_byte nil = boolean_null_value
boolean_byte (bool_value true) = boolean_true_value
boolean_byte (bool_value false) = boolean_false_value
boolean_byte (time_value t) = boolean_false_value
boolean_byte other_value = boolean_false_value

-- nil, true and false are each encoded in one byte without a panic, behind what was written, and decoded
-- to themselves.
pub boolean_field_roundtrip :
    (d : Decoder) (b : Bool) (e rest : Bytes) (cnt : ℕ)
    → (Encode.boolean_field nil e ≡ ok (e ++ boolean_null_value ∷ []))
      × (Decode.boolean_field (ready d (boolean_null_value ∷ rest) cnt)
          ≡ (nil, ready d rest (cnt + 1)))
      × (Encode.boolean_field (bool_value b) e ≡ ok (e ++ boolean_byte (bool_value b) ∷ []))
      × (Decode.boolean_field (ready d (boolean_byte (bool_value b) ∷ rest) cnt)
          ≡ (bool_value b, ready d rest (cnt + 1)))
unfolding Encode.boolean_field Decode.boolean_field Encoder.byte
boolean_field_roundtrip d true e rest cnt = (
  refl,
  rw (byte-ready d rest cnt boolean_null_value),
  refl,
  rw (byte-ready d rest cnt boolean_true_value),
)
boolean_field_roundtrip d false e rest cnt = (
  refl,
  rw (byte-ready d rest cnt boolean_null_value),
  refl,
  rw (byte-ready d rest cnt boolean_false_value),
)
