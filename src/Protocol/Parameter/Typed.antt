-- ===== src/Protocol/Parameter/Typed.antt =====
-- parameter.go and convert.go: what `Convert` returns has the type that `encodePrm` asserts.
use go_hdb.Prelude.{◌^◌, arith, true, false, ◌-◌}
use go_hdb.Prelude.Int.{pos, negsuc}
use go_hdb.Protocol.TypeCode.{TypeCode}
use go_hdb.Protocol.Convert.Values.{
  Any, pointer, plain, named, nil_pointer, reader, provider, nil, Runtime,
}
use go_hdb.Protocol.Convert.Numbers.{max_real, max_double}
use go_hdb.Protocol.Convert.Others.{convert_code, convert_field}
use go_hdb.Protocol.Parameter.Types.{HasType, Yields, Solids, Convertible, IsParameterType}
use go_hdb.Protocol.Parameter.Conversions.{
  convert_time-IsTime, convert_bytes-IsText, convert_bool-IsBool, integer-IsInt,
  convert_float-IsFloat, convert_decimal-IsRat, convert_lob-IsLob,
}

module _ (r : Runtime) where
  code-HasType :
      (tc : TypeCode) (v : Any)
      → IsParameterType tc
      → Solids tc v
      → Yields (HasType tc) (convert_code r tc v)
  unfolding convert_code
  code-HasType TypeCode.boolean v k h = convert_bool-IsBool r v h
  code-HasType TypeCode.tinyint v k h =
      integer-IsInt r (pos 0) (pos (2 ^ 8 - 1)) v (omega arith) (omega arith) h
  code-HasType TypeCode.smallint v k h =
      integer-IsInt r (negsuc (2 ^ 15 - 1)) (pos (2 ^ 15 - 1)) v (omega arith) (omega arith) h
  code-HasType TypeCode.integer v k h =
      integer-IsInt r (negsuc (2 ^ 31 - 1)) (pos (2 ^ 31 - 1)) v (omega arith) (omega arith) h
  code-HasType TypeCode.bigint v k h =
      integer-IsInt r (negsuc (2 ^ 63 - 1)) (pos (2 ^ 63 - 1)) v (omega arith) (omega arith) h
  code-HasType TypeCode.real v k h = convert_float-IsFloat r max_real v h
  code-HasType TypeCode.double v k h = convert_float-IsFloat r max_double v h
  code-HasType TypeCode.date v k h = convert_time-IsTime v h
  code-HasType TypeCode.time v k h = convert_time-IsTime v h
  code-HasType TypeCode.timestamp v k h = convert_time-IsTime v h
  code-HasType TypeCode.longdate v k h = convert_time-IsTime v h
  code-HasType TypeCode.seconddate v k h = convert_time-IsTime v h
  code-HasType TypeCode.daydate v k h = convert_time-IsTime v h
  code-HasType TypeCode.secondtime v k h = convert_time-IsTime v h
  code-HasType TypeCode.decimal v k h = convert_decimal-IsRat r v h
  code-HasType TypeCode.fixed8 v k h = convert_decimal-IsRat r v h
  code-HasType TypeCode.fixed12 v k h = convert_decimal-IsRat r v h
  code-HasType TypeCode.fixed16 v k h = convert_decimal-IsRat r v h
  code-HasType TypeCode.char v k h = convert_bytes-IsText v h
  code-HasType TypeCode.varchar v k h = convert_bytes-IsText v h
  code-HasType TypeCode.string v k h = convert_bytes-IsText v h
  code-HasType TypeCode.bstring v k h = convert_bytes-IsText v h
  code-HasType TypeCode.alphanum v k h = convert_bytes-IsText v h
  code-HasType TypeCode.nchar v k h = convert_bytes-IsText v h
  code-HasType TypeCode.nvarchar v k h = convert_bytes-IsText v h
  code-HasType TypeCode.nstring v k h = convert_bytes-IsText v h
  code-HasType TypeCode.shorttext v k h = convert_bytes-IsText v h
  code-HasType TypeCode.binary v k h = convert_bytes-IsText v h
  code-HasType TypeCode.varbinary v k h = convert_bytes-IsText v h
  code-HasType TypeCode.st_point v k h = convert_bytes-IsText v h
  code-HasType TypeCode.st_geometry v k h = convert_bytes-IsText v h
  code-HasType TypeCode.blob v k h = convert_lob-IsLob r false v h
  code-HasType TypeCode.clob v k h = convert_lob-IsLob r false v h
  code-HasType TypeCode.locator v k h = convert_lob-IsLob r false v h
  code-HasType TypeCode.nclob v k h = convert_lob-IsLob r true v h
  code-HasType TypeCode.text v k h = convert_lob-IsLob r true v h
  code-HasType TypeCode.nlocator v k h = convert_lob-IsLob r true v h
  code-HasType TypeCode.bintext v k h = convert_lob-IsLob r false v h
  code-HasType _ v k h = absurd k

  nil-HasType : (tc : TypeCode) → IsParameterType tc → HasType tc nil
  nil-HasType TypeCode.boolean k = tt
  nil-HasType TypeCode.tinyint k = tt
  nil-HasType TypeCode.smallint k = tt
  nil-HasType TypeCode.integer k = tt
  nil-HasType TypeCode.bigint k = tt
  nil-HasType TypeCode.real k = tt
  nil-HasType TypeCode.double k = tt
  nil-HasType TypeCode.date k = tt
  nil-HasType TypeCode.time k = tt
  nil-HasType TypeCode.timestamp k = tt
  nil-HasType TypeCode.longdate k = tt
  nil-HasType TypeCode.seconddate k = tt
  nil-HasType TypeCode.daydate k = tt
  nil-HasType TypeCode.secondtime k = tt
  nil-HasType TypeCode.decimal k = tt
  nil-HasType TypeCode.fixed8 k = tt
  nil-HasType TypeCode.fixed12 k = tt
  nil-HasType TypeCode.fixed16 k = tt
  nil-HasType TypeCode.char k = tt
  nil-HasType TypeCode.varchar k = tt
  nil-HasType TypeCode.string k = tt
  nil-HasType TypeCode.bstring k = tt
  nil-HasType TypeCode.alphanum k = tt
  nil-HasType TypeCode.nchar k = tt
  nil-HasType TypeCode.nvarchar k = tt
  nil-HasType TypeCode.nstring k = tt
  nil-HasType TypeCode.shorttext k = tt
  nil-HasType TypeCode.binary k = tt
  nil-HasType TypeCode.varbinary k = tt
  nil-HasType TypeCode.st_point k = tt
  nil-HasType TypeCode.st_geometry k = tt
  nil-HasType TypeCode.blob k = tt
  nil-HasType TypeCode.clob k = tt
  nil-HasType TypeCode.locator k = tt
  nil-HasType TypeCode.nclob k = tt
  nil-HasType TypeCode.text k = tt
  nil-HasType TypeCode.nlocator k = tt
  nil-HasType TypeCode.bintext k = tt
  nil-HasType _ k = absurd k

  -- For a code that parameters have: Convert does not panic, and it returns an error or a value of the
  -- type that the code is encoded from. No pointer leads to a nil interface; for a decimal the value is
  -- also no big.Rat, or value of a declared type of it, unless it is a plain big.Rat behind a pointer, no
  -- nil pointer of package big and no pointer to an infinite big.Float.
  pub convert_field-HasType :
      (tc : TypeCode) (v : Any)
      → IsParameterType tc
      → Convertible tc v
      → Yields (HasType tc) (convert_field r tc v)
  unfolding convert_field
  convert_field-HasType tc Any.nil k h = nil-HasType tc k
  convert_field-HasType tc (plain p) k h = code-HasType tc (plain p) k h
  convert_field-HasType tc (named p) k h = code-HasType tc (named p) k h
  convert_field-HasType tc (pointer v) k h = code-HasType tc (pointer v) k h
  convert_field-HasType tc (nil_pointer t) k h = code-HasType tc (nil_pointer t) k h
  convert_field-HasType tc (reader s) k h = code-HasType tc (reader s) k h
  convert_field-HasType tc (provider s) k h = code-HasType tc (provider s) k h
