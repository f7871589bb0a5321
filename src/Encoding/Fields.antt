-- ===== src/Encoding/Fields.antt =====
-- driver/internal/protocol/encoding: the fields of truth values, dates and times.
pub mod Encode
pub mod Decode
pub mod RoundTrip
use go_hdb.Prelude.{ℕ, Bool}
use go_hdb.Prelude.Int.{ℤ, pos}

-- The calendar fields of a time.Time in UTC. time.Date keeps the fields that it is given when there is
-- such a day and time, and they stand for its result.
pub record Time : Type 0 where
  pub year : ℤ
  pub month : ℤ
  pub day : ℤ
  pub hour : ℕ
  pub minute : ℤ
  pub second : ℕ
  pub nanosecond : ℕ

-- The values of type any that reach these fields.
pub data Value : Type 0 where
  nil : Value
  bool_value : Bool → Value
  time_value : Time → Value
  other_value : Value

abbrev pub boolean_false_value : ℕ
boolean_false_value = 0

abbrev pub boolean_null_value : ℕ
boolean_null_value = 1

abbrev pub boolean_true_value : ℕ
boolean_true_value = 2
