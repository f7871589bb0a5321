-- ===== src/Protocol/Convert/Values.antt =====
-- The values of type any that a caller hands over, as the type switches and package reflect tell them
-- apart, and the values that the conversions return.
use go_hdb.Prelude.{ℕ, Bool, Option, Bytes}
use go_hdb.Prelude.Int.{ℤ}
use go_hdb.Encoding.Fields.{Time}
use go_hdb.Encoding.Decimal.Fractions.{Rat}
use go_hdb.Protocol.Lob.{Source, LobInDescr}

pub data SignedType : Type 0 where
  int int8 int16 int32 int64 : SignedType

pub data UnsignedType : Type 0 where
  uint uint8 uint16 uint32 uint64 : UnsignedType

-- A value of a type that is no pointer. Slices of runes are given by the text that they are converted
-- to, a big.Float by its fraction, an infinite one by none. `struct_value` is a value that is neither
-- a number nor a text and is convertible to no type that is asked for.
pub data Plain : Type 0 where
  bool_value : Bool → Plain
  int_value : SignedType → ℤ → Plain
  uint_value : UnsignedType → ℕ → Plain
  float32_value : ℕ → Plain
  float64_value : ℕ → Plain
  string_value : Bytes → Plain
  bytes_value : Bytes → Plain
  runes_value : Bytes → Plain
  time_value : Time → Plain
  rat_value : Rat → Plain
  big_int_value : ℤ → Plain
  big_float_value : Option Rat → Plain
  struct_value : Plain

-- The type that a nil pointer points to.
pub data Pointee : Type 0 where
  to_rat to_big_int to_big_float to_other : Pointee

-- `plain` has a type of Go or its library, `named` a declared type with such an underlying one. A
-- reader has a method Read, a provider a method Reader, which may return nil; behind their pointers
-- stands a struct.
pub data Any : Type 0 where
  nil : Any
  plain : Plain → Any
  named : Plain → Any
  pointer : Any → Any
  nil_pointer : Pointee → Any
  reader : Source → Any
  provider : Option Source → Any

-- What is returned as any. `rat` is a *big.Rat, `nil_rat` one that is nil, and `rat_struct` a big.Rat.
pub data Value : Type 0 where
  nil : Value
  bool : Bool → Value
  int64 : ℤ → Value
  float64 : ℕ → Value
  time : Time → Value
  rat : Rat → Value
  nil_rat : Value
  rat_struct : Rat → Value
  string : Bytes → Value
  bytes : Bytes → Value
  lob : LobInDescr → Value

-- `syntax_error` stands for the errors of strconv.
pub data ConversionError : Type 0 where
  conversion_not_supported uint64_out_of_range integer_out_of_range float_out_of_range :
      ConversionError
  syntax_error : ConversionError

pub data Converted : Type 0 where
  ok : Value → Converted
  err : ConversionError → Converted
  panic : Converted

-- Go's conversions and comparisons of floats, the functions of strconv and math/big, and
-- transform.NewReader with the CESU-8 encoder.
pub record Runtime : Type 0 where
  -- int64(f)
  pub int64_of_float32 : ℕ → ℤ
  pub int64_of_float64 : ℕ → ℤ
  -- float32(i), float64(i), float64(u), float64(f)
  pub float32_of_int64 : ℤ → ℕ
  pub float64_of_int64 : ℤ → ℕ
  pub float64_of_uint64 : ℕ → ℕ
  pub float64_of_float32 : ℕ → ℕ
  -- ==, and math.Abs(f) > max
  pub eq32 : ℕ → ℕ → Bool
  pub eq64 : ℕ → ℕ → Bool
  pub abs_gt : ℕ → ℕ → Bool
  -- strconv.ParseBool(s), strconv.ParseInt(s, 10, 64), strconv.ParseFloat(s, 64)
  pub parse_bool : Bytes → Option Bool
  pub parse_int : Bytes → Option ℤ
  pub parse_float : Bytes → Option ℕ
  -- SetFloat64 and SetString of a big.Rat
  pub rat_of_float64 : ℕ → Option Rat
  pub rat_of_string : Bytes → Option Rat
  pub cesu8_reader : Source → Source
