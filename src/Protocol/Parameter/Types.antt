-- ===== src/Protocol/Parameter/Types.antt =====
-- parameter.go and convert.go: the types of the values that the type codes are encoded from.
use go_hdb.Prelude.{none}
use go_hdb.Protocol.TypeCode.{TypeCode}
use go_hdb.Protocol.Convert.Values.{
  Plain, Any, pointer, plain, named, nil_pointer, reader, provider, to_other, rat_value,
  big_float_value, Value, nil, bool, int64, float64, time, rat, string, bytes, lob, Converted, ok,
  err, panic,
}
use go_hdb.Protocol.Convert.Integers.{Solid}

abbrev pub IsBool : Value → Type 0
IsBool nil = Unit
IsBool (bool x) = Unit
IsBool _ = ⊥

abbrev pub IsInt : Value → Type 0
IsInt nil = Unit
IsInt (int64 x) = Unit
IsInt _ = ⊥

abbrev pub IsFloat : Value → Type 0
IsFloat nil = Unit
IsFloat (float64 x) = Unit
IsFloat _ = ⊥

abbrev pub IsTime : Value → Type 0
IsTime nil = Unit
IsTime (time x) = Unit
IsTime _ = ⊥

abbrev pub IsRat : Value → Type 0
IsRat nil = Unit
IsRat (rat x) = Unit
IsRat _ = ⊥

abbrev pub IsText : Value → Type 0
IsText nil = Unit
IsText (string x) = Unit
IsText (bytes x) = Unit
IsText _ = ⊥

abbrev pub IsLob : Value → Type 0
IsLob nil = Unit
IsLob (lob x) = Unit
IsLob _ = ⊥

-- The type of the values of a code that a parameter may have; nil is of each.
abbrev pub HasType : TypeCode → Value → Type 0
HasType TypeCode.boolean v = IsBool v
HasType TypeCode.tinyint v = IsInt v
HasType TypeCode.smallint v = IsInt v
HasType TypeCode.integer v = IsInt v
HasType TypeCode.bigint v = IsInt v
HasType TypeCode.real v = IsFloat v
HasType TypeCode.double v = IsFloat v
HasType TypeCode.date v = IsTime v
HasType TypeCode.time v = IsTime v
HasType TypeCode.timestamp v = IsTime v
HasType TypeCode.longdate v = IsTime v
HasType TypeCode.seconddate v = IsTime v
HasType TypeCode.daydate v = IsTime v
HasType TypeCode.secondtime v = IsTime v
HasType TypeCode.decimal v = IsRat v
HasType TypeCode.fixed8 v = IsRat v
HasType TypeCode.fixed12 v = IsRat v
HasType TypeCode.fixed16 v = IsRat v
HasType TypeCode.char v = IsText v
HasType TypeCode.varchar v = IsText v
HasType TypeCode.string v = IsText v
HasType TypeCode.bstring v = IsText v
HasType TypeCode.alphanum v = IsText v
HasType TypeCode.nchar v = IsText v
HasType TypeCode.nvarchar v = IsText v
HasType TypeCode.nstring v = IsText v
HasType TypeCode.shorttext v = IsText v
HasType TypeCode.binary v = IsText v
HasType TypeCode.varbinary v = IsText v
HasType TypeCode.st_point v = IsText v
HasType TypeCode.st_geometry v = IsText v
HasType TypeCode.blob v = IsLob v
HasType TypeCode.clob v = IsLob v
HasType TypeCode.locator v = IsLob v
HasType TypeCode.nclob v = IsLob v
HasType TypeCode.text v = IsLob v
HasType TypeCode.nlocator v = IsLob v
HasType TypeCode.bintext v = IsLob v
HasType _ v = ⊥

-- A conversion does not panic, and what it returns satisfies P.
abbrev pub Yields : (Value → Type 0) → Converted → Type 0
Yields P (ok v) = P v
Yields P (err e) = Unit
Yields P panic = ⊥

-- A decimal is no big.Rat that is not behind a pointer, no pointer to a declared type of it, no nil
-- pointer of package big and no infinite big.Float; no pointer leads to a nil interface.
abbrev pub PlainDecimal : Plain → Type 0
PlainDecimal (rat_value q) = ⊥
PlainDecimal _ = Unit

abbrev pub PointedDecimal : Plain → Type 0
PointedDecimal (big_float_value none) = ⊥
PointedDecimal _ = Unit

abbrev pub SolidDecimal : Any → Type 0
SolidDecimal Any.nil = ⊥
SolidDecimal (plain p) = PlainDecimal p
SolidDecimal (named p) = PlainDecimal p
SolidDecimal (pointer (plain p)) = PointedDecimal p
SolidDecimal (pointer v) = SolidDecimal v
SolidDecimal (nil_pointer to_other) = Unit
SolidDecimal (nil_pointer t) = ⊥
SolidDecimal (reader s) = Unit
SolidDecimal (provider s) = Unit

-- What a value that is not nil has to be for a code.
abbrev pub Solids : TypeCode → Any → Type 0
Solids TypeCode.decimal v = SolidDecimal v
Solids TypeCode.fixed8 v = SolidDecimal v
Solids TypeCode.fixed12 v = SolidDecimal v
Solids TypeCode.fixed16 v = SolidDecimal v
Solids tc v = Solid v

abbrev pub Convertible : TypeCode → Any → Type 0
Convertible tc Any.nil = Unit
Convertible tc v = Solids tc v

-- The codes that parameters have.
abbrev pub IsParameterType : TypeCode → Type 0
IsParameterType TypeCode.boolean = Unit
IsParameterType TypeCode.tinyint = Unit
IsParameterType TypeCode.smallint = Unit
IsParameterType TypeCode.integer = Unit
IsParameterType TypeCode.bigint = Unit
IsParameterType TypeCode.real = Unit
IsParameterType TypeCode.double = Unit
IsParameterType TypeCode.date = Unit
IsParameterType TypeCode.time = Unit
IsParameterType TypeCode.timestamp = Unit
IsParameterType TypeCode.longdate = Unit
IsParameterType TypeCode.seconddate = Unit
IsParameterType TypeCode.daydate = Unit
IsParameterType TypeCode.secondtime = Unit
IsParameterType TypeCode.decimal = Unit
IsParameterType TypeCode.fixed8 = Unit
IsParameterType TypeCode.fixed12 = Unit
IsParameterType TypeCode.fixed16 = Unit
IsParameterType TypeCode.char = Unit
IsParameterType TypeCode.varchar = Unit
IsParameterType TypeCode.string = Unit
IsParameterType TypeCode.bstring = Unit
IsParameterType TypeCode.alphanum = Unit
IsParameterType TypeCode.nchar = Unit
IsParameterType TypeCode.nvarchar = Unit
IsParameterType TypeCode.nstring = Unit
IsParameterType TypeCode.shorttext = Unit
IsParameterType TypeCode.binary = Unit
IsParameterType TypeCode.varbinary = Unit
IsParameterType TypeCode.st_point = Unit
IsParameterType TypeCode.st_geometry = Unit
IsParameterType TypeCode.blob = Unit
IsParameterType TypeCode.clob = Unit
IsParameterType TypeCode.locator = Unit
IsParameterType TypeCode.nclob = Unit
IsParameterType TypeCode.text = Unit
IsParameterType TypeCode.nlocator = Unit
IsParameterType TypeCode.bintext = Unit
IsParameterType _ = ⊥
