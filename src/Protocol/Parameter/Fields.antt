-- ===== src/Protocol/Parameter/Fields.antt =====
-- driver/internal/protocol/encoding/encode.go and field.go: the fields of parameters by their types. The
-- conversion to float32, package hex, the error handler of the transformer and the float division of
-- `digits10` are the record `Runtime`; the transformer is that of package cesu8. `stuck` stands for a loop
-- over a transformer that makes no progress.
use go_hdb.Prelude.{
  ℕ, zero, suc, ◌/◌, ◌%◌, ◌^◌, Bool, true, false, Option, none, some, [], ◌∷◌, Outcome, ok, panic,
  ◌==◌, if◌then◌else◌, length, drop, Bytes,
}
use go_hdb.Prelude.Int.{ℤ, pos, pos_part, convert, wrap}
use go_hdb.Encoding.Encoder
use go_hdb.Encoding.Encoder.{Encoder, write_scratch_size}
use go_hdb.Encoding.VarField.{LengthError, var_size, put_var_field_ind, put_li_bytes}
use go_hdb.Encoding.Fields
use go_hdb.Encoding.Fields.{Time}
use go_hdb.Encoding.Fields.Encode.{encode_date, encode_time}
use go_hdb.Encoding.Datetime.{
  DayTime, convert_time_to_longdate, convert_time_to_seconddate, convert_time_to_day_date,
  convert_time_to_secondtime,
}
use go_hdb.Encoding.Decimal
use go_hdb.Encoding.Decimal.Fractions.{
  Decimal128, convert_rat_to_decimal, convert_rat_to_fixed, dec128_digits, dec128_min_exp,
  dec128_max_exp,
}
use go_hdb.Unicode.Cesu8
use go_hdb.Unicode.Cesu8.{size_of_string}
use go_hdb.Unicode.Cesu8.Transform.{Handler, Transformed, returned, short_dst, encoder, transform}
use go_hdb.Protocol.Convert.Values.{Value, nil, bool, int64, float64, time, rat, string, bytes}

pub data FieldError : Type 0 where
  decimal_out_of_range hex_error transform_error : FieldError
  too_long : LengthError → FieldError

-- What a field that is encoded comes to, with the encoder.
pub data Written : Type 0 where
  done : Encoder → Written
  failed : FieldError → Encoder → Written
  panicked stuck : Written

pub record Runtime : Type 0 where
  -- float32(f)
  pub float32_of_float64 : ℕ → ℕ
  -- int(float64(k) / lg10)
  pub low_digits : ℕ → ℕ
  -- hex.DecodeString
  pub decode_hex : Bytes → Option Bytes
  -- The error handler of the transformer, whose errors are texts.
  pub handler : Handler Bytes

-- A date with its clock, for the years from 1 on.
abbrev pub day_time : Time → DayTime
day_time t = record {
  date = record { year = pos_part t.year; month = pos_part t.month; day = pos_part t.day };
  hour = t.hour;
  minute = pos_part t.minute;
  second = t.second;
  nanosecond = t.nanosecond;
}

-- `asInt` and `asTime`, and a field of what they return.
unfoldable pub int_field : (ℤ → Encoder → Encoder) → Value → Encoder → Written
int_field put (int64 z) e = done (put z e)
int_field put _ e = panicked

unfoldable pub time_value_field : (Time → Encoder → Encoder) → Value → Encoder → Written
time_value_field put (time t) e = done (put t e)
time_value_field put _ e = panicked

unfoldable pub boolean : Value → Encoder → Written
boolean nil e = done (Encoder.byte Fields.boolean_null_value e)
boolean (bool b) e = done (
    if b
    then Encoder.byte Fields.boolean_true_value e
    else Encoder.byte Fields.boolean_false_value e)
boolean _ e = panicked

-- `E(i64)` wraps around.
abbrev pub tinyint : Value → Encoder → Written
tinyint = int_field (λ z e. Encoder.byte (wrap (2 ^ 8) z) e)

abbrev pub smallint : Value → Encoder → Written
smallint = int_field (λ z e. Encoder.int16 (convert (2 ^ 15) z) e)

abbrev pub integer : Value → Encoder → Written
integer = int_field (λ z e. Encoder.int32 (convert (2 ^ 31) z) e)

abbrev pub bigint : Value → Encoder → Written
bigint = int_field (λ z e. Encoder.int64 z e)

unfoldable pub double : Value → Encoder → Written
double (float64 f) e = done (Encoder.float64 f e)
double _ e = panicked

abbrev pub date : Value → Encoder → Written
date = time_value_field encode_date

abbrev pub time_field : Value → Encoder → Written
time_field = time_value_field encode_time

abbrev pub timestamp : Value → Encoder → Written
timestamp = time_value_field (λ t e. encode_time t (encode_date t e))

abbrev pub longdate : Value → Encoder → Written
longdate = time_value_field (λ t e. Encoder.int64 (convert_time_to_longdate (day_time t)) e)

abbrev pub seconddate : Value → Encoder → Written
seconddate = time_value_field (λ t e. Encoder.int64 (convert_time_to_seconddate (day_time t)) e)

abbrev pub daydate : Value → Encoder → Written
daydate =
    time_value_field
      λ t e. Encoder.int32 (convert (2 ^ 31) (pos (convert_time_to_day_date (day_time t).date))) e

abbrev pub secondtime_null_value : ℤ
secondtime_null_value = pos 86402

unfoldable pub secondtime : Value → Encoder → Written
unfolding time_value_field
secondtime nil e = done (Encoder.int32 secondtime_null_value e)
secondtime v e =
    time_value_field
      (λ t e. Encoder.int32 (convert (2 ^ 31) (pos (convert_time_to_secondtime (day_time t)))) e) v
      e

abbrev pub written : Option LengthError × Encoder → Written
written (none, e) = done e
written (some x, e) = failed (too_long x) e

-- `VarField`
unfoldable pub var_field : Value → Encoder → Written
var_field (bytes p) e = written (put_li_bytes p e)
var_field (string p) e = written (put_li_bytes p e)
var_field _ e = panicked

abbrev pub fixed_result : ℕ → Encoder → Outcome (ℤ × Bool) → Written
fixed_result size e panic = panicked
fixed_result size e (ok (m, true)) = failed decimal_out_of_range e
fixed_result size e (ok (m, false)) = done (Decimal.fixed m size e)

-- `encodeFixed`; a negative precision has no power of ten.
unfoldable pub encode_fixed : Value → ℕ → ℤ → ℤ → Encoder → Written
encode_fixed (rat r) size (pos prec) scale e =
    fixed_result size e (convert_rat_to_fixed r prec scale)
encode_fixed _ size _ scale e = panicked

abbrev pub outcome : Outcome Encoder → Written
outcome panic = panicked
outcome (ok e) = done e

abbrev pub decimal_result : Decimal128 → Encoder → Written
decimal_result d e =
    if d.df.overflow
    then failed decimal_out_of_range e
    else if d.df.underflow
    then outcome (Decimal.decimal (pos 0) (pos 0) e)
    else outcome (Decimal.decimal d.m d.exp e)

-- The text of a value of bytes.
abbrev pub text_of : Value → Option Bytes
text_of (bytes p) = some p
text_of (string p) = some p
text_of _ = none

-- `VarFieldSize`, `Cesu8FieldSize` and `HexFieldSize`.
unfoldable pub var_field_size : Value → Outcome ℤ
var_field_size v = elim (text_of v) [ none ↦ panic | some p ↦ ok (var_size (length p)) ]

-- The size of bytes is `Size`, that of a string `StringSize`; `cesu8_field` writes it again.
unfoldable pub cesu8_field_size : Value → Outcome ℤ
cesu8_field_size (bytes p) = ok (var_size (pos_part (Cesu8.size p)))
cesu8_field_size (string p) = ok (var_size (pos_part (size_of_string p)))
cesu8_field_size _ = panic

abbrev pub hex_size : ℕ → Outcome ℤ
hex_size l = if l % 2 == 0 then ok (var_size (l / 2)) else panic

unfoldable pub hex_field_size : Value → Outcome ℤ
hex_field_size v = elim (text_of v) [ none ↦ panic | some p ↦ hex_size (length p) ]

module _ (r : Runtime) where
  unfoldable pub real : Value → Encoder → Written
  real (float64 f) e = done (Encoder.uint32 (r.float32_of_float64 f) e)
  real _ e = panicked

  unfoldable pub decimal_field : Value → Encoder → Written
  decimal_field (rat q) e =
      decimal_result
        (convert_rat_to_decimal r.low_digits q dec128_digits dec128_min_exp dec128_max_exp) e
  decimal_field _ e = panicked

  abbrev pub hex_bytes : Encoder → Option Bytes → Written
  hex_bytes e none = failed hex_error e
  hex_bytes e (some b) = written (put_li_bytes b e)

  unfoldable pub hex_field : Value → Encoder → Written
  hex_field v e = elim (text_of v) [ none ↦ panicked | some p ↦ hex_bytes e (r.decode_hex p) ]

  -- One round of `CESU8Bytes`.
  abbrev pub transformed :
      (Bytes → Encoder → Written) → Bytes → Encoder → Transformed Bytes → Written
  transformed again p e (returned out n none) = again (drop n p) (Encoder.bytes out e)
  transformed again p e (returned out n (some short_dst)) = again (drop n p) (Encoder.bytes out e)
  transformed again p e (returned out n (some _)) = failed transform_error (Encoder.bytes out e)
  transformed again p e Transformed.panicked = panicked
  transformed again p e Transformed.stuck = stuck

  -- The fuel is the number of bytes: a round that takes none is taken again without an end.
  unfoldable pub cesu8_bytes : ℕ → Bytes → Encoder → Written
  cesu8_bytes fuel [] e = done e
  cesu8_bytes zero (b ∷ p) e = stuck
  cesu8_bytes (suc fuel) (b ∷ p) e =
      transformed (cesu8_bytes fuel) (b ∷ p) e
        (transform encoder r.handler write_scratch_size (b ∷ p) true)

  -- `CESU8LIBytes` and `CESU8LIString` behind the size.
  abbrev pub cesu8_after : Bytes → Option LengthError × Encoder → Written
  cesu8_after p (some x, e) = failed (too_long x) e
  cesu8_after p (none, e) = cesu8_bytes (length p) p e

  unfoldable pub cesu8_field : Value → Encoder → Written
  cesu8_field (bytes p) e = cesu8_after p (put_var_field_ind (pos_part (Cesu8.size p)) e)
  cesu8_field (string p) e = cesu8_after p (put_var_field_ind (pos_part (size_of_string p)) e)
  cesu8_field _ e = panicked
