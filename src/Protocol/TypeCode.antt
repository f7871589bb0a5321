-- ===== src/Protocol/TypeCode.antt =====
-- driver/internal/protocol/typecode.go: the codes of types. Their names, and the reflection types of
-- `dataType`, are not part of this.
use go_hdb.Prelude.{
  ℕ, ◌+◌, Bool, true, false, List, [], ◌∷◌, Outcome, ok, panic, ltb, ◌==◌, if◌then◌else◌,
}

-- `other` is a code that the source does not name, and TcTableRows is `table_rows`.
pub data TypeCode : Type 0 where
  null tinyint smallint integer bigint decimal real double char varchar nchar nvarchar : TypeCode
  binary varbinary date time timestamp timetz timeltz timestamp_tz timestamp_ltz : TypeCode
  interval_ym interval_ds rowid urowid clob nclob blob boolean string nstring locator : TypeCode
  nlocator bstring decimal_digit_array varchar2 table smalldecimal abapstream abapstruct : TypeCode
  aarray text shorttext bintext alphanum longdate seconddate daydate secondtime clocator : TypeCode
  blob_disk_reserved clob_disk_reserved nclob_disk_reserved st_geometry st_point fixed16 : TypeCode
  abap_itab record_row_store record_column_store fixed8 fixed12 ciphertext : TypeCode
  secondtime_null table_rows : TypeCode
  other : ℕ → TypeCode

-- The value of a constant.
unfoldable pub to_byte : TypeCode → ℕ
to_byte null = 0x00
to_byte tinyint = 0x01
to_byte smallint = 0x02
to_byte integer = 0x03
to_byte bigint = 0x04
to_byte decimal = 0x05
to_byte real = 0x06
to_byte double = 0x07
to_byte char = 0x08
to_byte varchar = 0x09
to_byte nchar = 0x0A
to_byte nvarchar = 0x0B
to_byte binary = 0x0C
to_byte varbinary = 0x0D
to_byte date = 0x0E
to_byte time = 0x0F
to_byte timestamp = 0x10
to_byte timetz = 0x11
to_byte timeltz = 0x12
to_byte timestamp_tz = 0x13
to_byte timestamp_ltz = 0x14
to_byte interval_ym = 0x15
to_byte interval_ds = 0x16
to_byte rowid = 0x17
to_byte urowid = 0x18
to_byte clob = 0x19
to_byte nclob = 0x1A
to_byte blob = 0x1B
to_byte boolean = 0x1C
to_byte string = 0x1D
to_byte nstring = 0x1E
to_byte locator = 0x1F
to_byte nlocator = 0x20
to_byte bstring = 0x21
to_byte decimal_digit_array = 0x22
to_byte varchar2 = 0x23
to_byte table = 0x2D
to_byte smalldecimal = 0x2f
to_byte abapstream = 0x30
to_byte abapstruct = 0x31
to_byte aarray = 0x32
to_byte text = 0x33
to_byte shorttext = 0x34
to_byte bintext = 0x35
to_byte alphanum = 0x37
to_byte longdate = 0x3D
to_byte seconddate = 0x3E
to_byte daydate = 0x3F
to_byte secondtime = 0x40
to_byte clocator = 0x46
to_byte blob_disk_reserved = 0x47
to_byte clob_disk_reserved = 0x48
to_byte nclob_disk_reserved = 0x49
to_byte st_geometry = 0x4A
to_byte st_point = 0x4B
to_byte fixed16 = 0x4C
to_byte abap_itab = 0x4D
to_byte record_row_store = 0x4E
to_byte record_column_store = 0x4F
to_byte fixed8 = 0x51
to_byte fixed12 = 0x52
to_byte ciphertext = 0x5A
to_byte secondtime_null = 0xB0
to_byte table_rows = 0x7f
to_byte (other b) = b

abbrev all_codes : List TypeCode
all_codes =
    null ∷ tinyint ∷ smallint ∷ integer ∷ bigint ∷ decimal ∷ real ∷ double ∷ char ∷ varchar ∷ nchar
    ∷ nvarchar ∷ binary ∷ varbinary ∷ date ∷ time ∷ timestamp ∷ timetz ∷ timeltz ∷ timestamp_tz
    ∷ timestamp_ltz ∷ interval_ym ∷ interval_ds ∷ rowid ∷ urowid ∷ clob ∷ nclob ∷ blob ∷ boolean
    ∷ string ∷ nstring ∷ locator ∷ nlocator ∷ bstring ∷ decimal_digit_array ∷ varchar2 ∷ table
    ∷ smalldecimal ∷ abapstream ∷ abapstruct ∷ aarray ∷ text ∷ shorttext ∷ bintext ∷ alphanum
    ∷ longdate ∷ seconddate ∷ daydate ∷ secondtime ∷ clocator ∷ blob_disk_reserved
    ∷ clob_disk_reserved ∷ nclob_disk_reserved ∷ st_geometry ∷ st_point ∷ fixed16 ∷ abap_itab
    ∷ record_row_store ∷ record_column_store ∷ fixed8 ∷ fixed12 ∷ ciphertext ∷ secondtime_null
    ∷ table_rows ∷ []

unfoldable pub find_code : ℕ → List TypeCode → TypeCode
unfolding to_byte
find_code b [] = other b
find_code b (t ∷ ts) = if to_byte t == b then t else find_code b ts

-- The code with a value.
unfoldable pub of_byte : ℕ → TypeCode
unfolding find_code
of_byte b = find_code b all_codes

unfoldable pub is_lob : TypeCode → Bool
is_lob clob = true
is_lob nclob = true
is_lob blob = true
is_lob text = true
is_lob bintext = true
is_lob locator = true
is_lob nlocator = true
is_lob _ = false

unfoldable pub is_variable_length : TypeCode → Bool
is_variable_length char = true
is_variable_length nchar = true
is_variable_length varchar = true
is_variable_length nvarchar = true
is_variable_length binary = true
is_variable_length varbinary = true
is_variable_length shorttext = true
is_variable_length alphanum = true
is_variable_length _ = false

unfoldable pub is_decimal_type : TypeCode → Bool
is_decimal_type smalldecimal = true
is_decimal_type decimal = true
is_decimal_type fixed8 = true
is_decimal_type fixed12 = true
is_decimal_type fixed16 = true
is_decimal_type _ = false

unfoldable pub support_null_value : TypeCode → Bool
support_null_value boolean = false
support_null_value _ = true

-- `nullValue` as a byte; `tc | 0x80` sets the high bit.
unfoldable pub null_value : TypeCode → ℕ
unfolding to_byte
null_value secondtime = to_byte secondtime_null
null_value tc = if ltb (to_byte tc) 128 then to_byte tc + 128 else to_byte tc

unfoldable pub enc_tc : TypeCode → TypeCode
enc_tc text = nclob
enc_tc bintext = nclob
enc_tc locator = nclob
enc_tc tc = tc

-- The data types that `dataType` tells apart.
pub data DataType : Type 0 where
  dt_boolean dt_tinyint dt_smallint dt_integer dt_bigint dt_real dt_double dt_decimal : DataType
  dt_time dt_string dt_bytes dt_lob dt_rows : DataType

unfoldable pub data_type : TypeCode → Outcome DataType
data_type boolean = ok dt_boolean
data_type tinyint = ok dt_tinyint
data_type smallint = ok dt_smallint
data_type integer = ok dt_integer
data_type bigint = ok dt_bigint
data_type real = ok dt_real
data_type double = ok dt_double
data_type date = ok dt_time
data_type time = ok dt_time
data_type timestamp = ok dt_time
data_type longdate = ok dt_time
data_type seconddate = ok dt_time
data_type daydate = ok dt_time
data_type secondtime = ok dt_time
data_type decimal = ok dt_decimal
data_type fixed8 = ok dt_decimal
data_type fixed12 = ok dt_decimal
data_type fixed16 = ok dt_decimal
data_type char = ok dt_string
data_type varchar = ok dt_string
data_type string = ok dt_string
data_type alphanum = ok dt_string
data_type nchar = ok dt_string
data_type nvarchar = ok dt_string
data_type nstring = ok dt_string
data_type shorttext = ok dt_string
data_type st_point = ok dt_string
data_type st_geometry = ok dt_string
data_type binary = ok dt_bytes
data_type varbinary = ok dt_bytes
data_type bstring = ok dt_bytes
data_type blob = ok dt_lob
data_type clob = ok dt_lob
data_type nclob = ok dt_lob
data_type text = ok dt_lob
data_type bintext = ok dt_lob
data_type table_rows = ok dt_rows
data_type _ = panic
