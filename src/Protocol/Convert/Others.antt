-- ===== src/Protocol/Convert/Others.antt =====
-- convert.go: `convertTime`, `convertDecimal`, `convertBytes`, `convertLob` and `convertField`.
use go_hdb.Prelude.{Bool, true, false, Option, none, some, [], if◌then◌else◌, ◌^◌, ◌-◌}
use go_hdb.Prelude.Int.{ℤ, pos, negsuc}
use go_hdb.Protocol.Lob.{Source}
use go_hdb.Encoding.Decimal.Fractions.{Rat}
use go_hdb.Protocol.TypeCode.{TypeCode}
use go_hdb.Protocol.Convert.Numbers.{
  convert_bool, convert_integer, convert_float, max_real, max_double,
}
use go_hdb.Protocol.Convert.Values.{
  Plain, Pointee, to_rat, to_big_int, to_big_float, to_other, Any, pointer, plain, named,
  nil_pointer, reader, provider, bool_value, int_value, uint_value, float32_value, float64_value,
  string_value, bytes_value, runes_value, time_value, rat_value, big_int_value, big_float_value,
  struct_value, Value, conversion_not_supported, Converted, ok, err, panic, Runtime,
}

unfoldable pub time_plain : Plain → Converted
time_plain (time_value t) = ok (Value.time t)
time_plain _ = err conversion_not_supported

unfoldable pub convert_time : Any → Converted
unfolding time_plain
convert_time Any.nil = panic
convert_time (plain p) = time_plain p
convert_time (named p) = time_plain p
convert_time (pointer v) = convert_time v
convert_time (nil_pointer t) = ok Value.nil
convert_time (reader s) = err conversion_not_supported
convert_time (provider s) = err conversion_not_supported

-- `SetInt`
abbrev pub int_rat : ℤ → Rat
int_rat z = record { num = z; denom = 1 }

abbrev rat_zero : Rat
rat_zero = int_rat (pos 0)

abbrev rat_one : Rat
rat_one = int_rat (pos 1)

-- `if r == nil`
abbrev some_rat : Option Rat → Converted
some_rat none = err conversion_not_supported
some_rat (some q) = ok (Value.rat q)

-- A *big.Int or *big.Float that is nil has no value to take.
unfoldable pub decimal_nil : Pointee → Converted
decimal_nil to_rat = ok Value.nil_rat
decimal_nil to_big_int = panic
decimal_nil to_big_float = panic
decimal_nil to_other = ok Value.nil

unfoldable pub bytes_plain : Plain → Converted
bytes_plain (string_value s) = ok (Value.string s)
bytes_plain (bytes_value s) = ok (Value.bytes s)
bytes_plain _ = err conversion_not_supported

unfoldable pub convert_bytes : Any → Converted
unfolding bytes_plain
convert_bytes Any.nil = panic
convert_bytes (plain p) = bytes_plain p
convert_bytes (named p) = bytes_plain p
convert_bytes (pointer v) = convert_bytes v
convert_bytes (nil_pointer t) = ok Value.nil
convert_bytes (reader s) = err conversion_not_supported
convert_bytes (provider s) = err conversion_not_supported

module _ (r : Runtime) where
  -- The type switch, and the cases by kind, which do the same.
  unfoldable pub decimal_plain : Plain → Converted
  decimal_plain (bool_value b) = ok (Value.rat (if b then rat_one else rat_zero))
  decimal_plain (int_value t z) = ok (Value.rat (int_rat z))
  decimal_plain (uint_value t n) = ok (Value.rat (int_rat (pos n)))
  decimal_plain (float32_value f) = some_rat (r.rat_of_float64 (r.float64_of_float32 f))
  decimal_plain (float64_value f) = some_rat (r.rat_of_float64 f)
  decimal_plain (string_value s) = some_rat (r.rat_of_string s)
  decimal_plain (bytes_value s) = err conversion_not_supported
  decimal_plain (runes_value s) = err conversion_not_supported
  decimal_plain (time_value t) = err conversion_not_supported
  decimal_plain (rat_value q) = ok (Value.rat_struct q)
  decimal_plain (big_int_value z) = err conversion_not_supported
  decimal_plain (big_float_value q) = err conversion_not_supported
  decimal_plain struct_value = err conversion_not_supported

  -- *big.Rat, *big.Int and *big.Float; of an infinite big.Float `Rat` returns a nil *big.Rat.
  unfoldable pub decimal_pointer : Plain → Converted
  unfolding decimal_plain
  decimal_pointer (rat_value q) = ok (Value.rat q)
  decimal_pointer (big_int_value z) = ok (Value.rat (int_rat z))
  decimal_pointer (big_float_value (some q)) = ok (Value.rat q)
  decimal_pointer (big_float_value none) = ok Value.nil_rat
  decimal_pointer p = decimal_plain p

  unfoldable pub convert_decimal : Any → Converted
  unfolding decimal_plain decimal_pointer decimal_nil
  convert_decimal Any.nil = panic
  convert_decimal (plain p) = decimal_plain p
  convert_decimal (named p) = decimal_plain p
  convert_decimal (pointer (plain p)) = decimal_pointer p
  convert_decimal (pointer v) = convert_decimal v
  convert_decimal (nil_pointer t) = decimal_nil t
  convert_decimal (reader s) = err conversion_not_supported
  convert_decimal (provider s) = err conversion_not_supported

  -- `if cesu8Encoder != nil`; then a descriptor of the reader.
  unfoldable pub lob_of : Bool → Source → Converted
  lob_of cesu8 rd = ok (
      Value.lob (record {
        rd = if cesu8 then r.cesu8_reader rd else rd;
        opt = pos 0;
        position = 0;
        buf = [];
      }))

  -- `strings.NewReader` or `bytes.NewReader` of what `convertBytes` returned, or what comes behind.
  unfoldable pub lob_bytes : Bool → Converted → Converted → Converted
  unfolding lob_of
  lob_bytes cesu8 (ok (Value.string s)) rest = lob_of cesu8 (record { bytes = s; fault = none })
  lob_bytes cesu8 (ok (Value.bytes s)) rest = lob_of cesu8 (record { bytes = s; fault = none })
  lob_bytes cesu8 panic rest = panic
  lob_bytes cesu8 _ rest = rest

  unfoldable pub convert_lob : Bool → Any → Converted
  unfolding lob_of lob_bytes
  convert_lob cesu8 Any.nil = lob_bytes cesu8 (convert_bytes Any.nil) (err conversion_not_supported)
  convert_lob cesu8 (plain p) =
      lob_bytes cesu8 (convert_bytes (plain p)) (err conversion_not_supported)
  convert_lob cesu8 (named p) =
      lob_bytes cesu8 (convert_bytes (named p)) (err conversion_not_supported)
  convert_lob cesu8 (pointer v) = lob_bytes cesu8 (convert_bytes (pointer v)) (convert_lob cesu8 v)
  convert_lob cesu8 (nil_pointer t) = lob_bytes cesu8 (convert_bytes (nil_pointer t)) (ok Value.nil)
  convert_lob cesu8 (reader s) = lob_of cesu8 s
  convert_lob cesu8 (provider (some s)) = lob_of cesu8 s
  convert_lob cesu8 (provider none) =
      lob_bytes cesu8 (convert_bytes (provider none)) (err conversion_not_supported)

  -- `tc` is a code that is handled and v is not nil.
  unfoldable pub convert_code : TypeCode → Any → Converted
  unfolding convert_time convert_decimal convert_bytes convert_lob
  convert_code TypeCode.boolean v = convert_bool r v
  convert_code TypeCode.tinyint v = convert_integer r (pos 0) (pos (2 ^ 8 - 1)) v
  convert_code TypeCode.smallint v = convert_integer r (negsuc (2 ^ 15 - 1)) (pos (2 ^ 15 - 1)) v
  convert_code TypeCode.integer v = convert_integer r (negsuc (2 ^ 31 - 1)) (pos (2 ^ 31 - 1)) v
  convert_code TypeCode.bigint v = convert_integer r (negsuc (2 ^ 63 - 1)) (pos (2 ^ 63 - 1)) v
  convert_code TypeCode.real v = convert_float r max_real v
  convert_code TypeCode.double v = convert_float r max_double v
  convert_code TypeCode.date v = convert_time v
  convert_code TypeCode.time v = convert_time v
  convert_code TypeCode.timestamp v = convert_time v
  convert_code TypeCode.longdate v = convert_time v
  convert_code TypeCode.seconddate v = convert_time v
  convert_code TypeCode.daydate v = convert_time v
  convert_code TypeCode.secondtime v = convert_time v
  convert_code TypeCode.decimal v = convert_decimal v
  convert_code TypeCode.fixed8 v = convert_decimal v
  convert_code TypeCode.fixed12 v = convert_decimal v
  convert_code TypeCode.fixed16 v = convert_decimal v
  convert_code TypeCode.char v = convert_bytes v
  convert_code TypeCode.varchar v = convert_bytes v
  convert_code TypeCode.string v = convert_bytes v
  convert_code TypeCode.bstring v = convert_bytes v
  convert_code TypeCode.alphanum v = convert_bytes v
  convert_code TypeCode.nchar v = convert_bytes v
  convert_code TypeCode.nvarchar v = convert_bytes v
  convert_code TypeCode.nstring v = convert_bytes v
  convert_code TypeCode.shorttext v = convert_bytes v
  convert_code TypeCode.binary v = convert_bytes v
  convert_code TypeCode.varbinary v = convert_bytes v
  convert_code TypeCode.st_point v = convert_bytes v
  convert_code TypeCode.st_geometry v = convert_bytes v
  convert_code TypeCode.blob v = convert_lob false v
  convert_code TypeCode.clob v = convert_lob false v
  convert_code TypeCode.locator v = convert_lob false v
  convert_code TypeCode.nclob v = convert_lob true v
  convert_code TypeCode.text v = convert_lob true v
  convert_code TypeCode.nlocator v = convert_lob true v
  convert_code TypeCode.bintext v = convert_lob false v
  convert_code _ v = panic

  unfoldable pub convert_field : TypeCode → Any → Converted
  unfolding convert_code
  convert_field tc Any.nil = ok Value.nil
  convert_field tc v = convert_code tc v
