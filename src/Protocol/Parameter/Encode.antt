-- ===== src/Protocol/Parameter/Encode.antt =====
-- parameter.go: `prmSize` and `encodePrm`.
use go_hdb.Prelude.{◌^◌, Outcome, ok, panic, length, if◌then◌else◌}
use go_hdb.Prelude.Int.{ℤ, pos, wrap, convert}
use go_hdb.Encoding.Encoder
use go_hdb.Encoding.Encoder.{Encoder}
use go_hdb.Protocol.TypeCode.{TypeCode, to_byte, enc_tc, null_value, support_null_value}
use go_hdb.Protocol.Convert.Values.{Value, nil, lob}
use go_hdb.Protocol.Parameter.Metadata.{ParameterField}
use go_hdb.Protocol.Parameter.Fields
use go_hdb.Protocol.Parameter.Fields.{
  Written, done, panicked, Runtime, encode_fixed, var_field_size, cesu8_field_size, hex_field_size,
}

unfoldable pub lob_field : Value → Encoder → Written
lob_field (lob d) e = done (
    Encoder.int32 (convert (2 ^ 31) (pos d.position))
      (Encoder.int32 (convert (2 ^ 31) (pos (length d.buf))) (Encoder.byte (wrap (2 ^ 8) d.opt) e)))
lob_field _ e = panicked

-- The size of a field that is not null, without its type code.
unfoldable pub type_size : TypeCode → Value → Outcome ℤ
type_size TypeCode.boolean v = ok (pos 1)
type_size TypeCode.tinyint v = ok (pos 1)
type_size TypeCode.smallint v = ok (pos 2)
type_size TypeCode.integer v = ok (pos 4)
type_size TypeCode.bigint v = ok (pos 8)
type_size TypeCode.real v = ok (pos 4)
type_size TypeCode.double v = ok (pos 8)
type_size TypeCode.date v = ok (pos 4)
type_size TypeCode.time v = ok (pos 4)
type_size TypeCode.timestamp v = ok (pos 8)
type_size TypeCode.longdate v = ok (pos 8)
type_size TypeCode.seconddate v = ok (pos 8)
type_size TypeCode.daydate v = ok (pos 4)
type_size TypeCode.secondtime v = ok (pos 4)
type_size TypeCode.decimal v = ok (pos 16)
type_size TypeCode.fixed8 v = ok (pos 8)
type_size TypeCode.fixed12 v = ok (pos 12)
type_size TypeCode.fixed16 v = ok (pos 16)
type_size TypeCode.char v = var_field_size v
type_size TypeCode.varchar v = var_field_size v
type_size TypeCode.string v = var_field_size v
type_size TypeCode.bstring v = var_field_size v
type_size TypeCode.alphanum v = var_field_size v
type_size TypeCode.binary v = var_field_size v
type_size TypeCode.varbinary v = var_field_size v
type_size TypeCode.nchar v = cesu8_field_size v
type_size TypeCode.nvarchar v = cesu8_field_size v
type_size TypeCode.nstring v = cesu8_field_size v
type_size TypeCode.shorttext v = cesu8_field_size v
type_size TypeCode.st_point v = hex_field_size v
type_size TypeCode.st_geometry v = hex_field_size v
type_size TypeCode.blob v = ok (pos 9)
type_size TypeCode.clob v = ok (pos 9)
type_size TypeCode.locator v = ok (pos 9)
type_size TypeCode.nclob v = ok (pos 9)
type_size TypeCode.text v = ok (pos 9)
type_size TypeCode.nlocator v = ok (pos 9)
type_size TypeCode.bintext v = ok (pos 9)
type_size _ v = panic

-- `prmSize`: a null value has no more than its code.
unfoldable pub prm_size : ParameterField → Value → Outcome ℤ
unfolding type_size
prm_size f nil = if support_null_value f.tc then ok (pos 0) else type_size f.tc nil
prm_size f v = type_size f.tc v

module _ (r : Runtime) where
  unfoldable pub type_field : TypeCode → ℤ → ℤ → Value → Encoder → Written
  unfolding lob_field
  type_field TypeCode.boolean prec scale v e = Fields.boolean v e
  type_field TypeCode.tinyint prec scale v e = Fields.tinyint v e
  type_field TypeCode.smallint prec scale v e = Fields.smallint v e
  type_field TypeCode.integer prec scale v e = Fields.integer v e
  type_field TypeCode.bigint prec scale v e = Fields.bigint v e
  type_field TypeCode.real prec scale v e = Fields.real r v e
  type_field TypeCode.double prec scale v e = Fields.double v e
  type_field TypeCode.date prec scale v e = Fields.date v e
  type_field TypeCode.time prec scale v e = Fields.time_field v e
  type_field TypeCode.timestamp prec scale v e = Fields.timestamp v e
  type_field TypeCode.longdate prec scale v e = Fields.longdate v e
  type_field TypeCode.seconddate prec scale v e = Fields.seconddate v e
  type_field TypeCode.daydate prec scale v e = Fields.daydate v e
  type_field TypeCode.secondtime prec scale v e = Fields.secondtime v e
  type_field TypeCode.decimal prec scale v e = Fields.decimal_field r v e
  type_field TypeCode.fixed8 prec scale v e = encode_fixed v 8 prec scale e
  type_field TypeCode.fixed12 prec scale v e = encode_fixed v 12 prec scale e
  type_field TypeCode.fixed16 prec scale v e = encode_fixed v 16 prec scale e
  type_field TypeCode.char prec scale v e = Fields.var_field v e
  type_field TypeCode.varchar prec scale v e = Fields.var_field v e
  type_field TypeCode.string prec scale v e = Fields.var_field v e
  type_field TypeCode.bstring prec scale v e = Fields.var_field v e
  type_field TypeCode.alphanum prec scale v e = Fields.var_field v e
  type_field TypeCode.binary prec scale v e = Fields.var_field v e
  type_field TypeCode.varbinary prec scale v e = Fields.var_field v e
  type_field TypeCode.nchar prec scale v e = Fields.cesu8_field r v e
  type_field TypeCode.nvarchar prec scale v e = Fields.cesu8_field r v e
  type_field TypeCode.nstring prec scale v e = Fields.cesu8_field r v e
  type_field TypeCode.shorttext prec scale v e = Fields.cesu8_field r v e
  type_field TypeCode.st_point prec scale v e = Fields.hex_field r v e
  type_field TypeCode.st_geometry prec scale v e = Fields.hex_field r v e
  type_field TypeCode.blob prec scale v e = lob_field v e
  type_field TypeCode.clob prec scale v e = lob_field v e
  type_field TypeCode.locator prec scale v e = lob_field v e
  type_field TypeCode.nclob prec scale v e = lob_field v e
  type_field TypeCode.text prec scale v e = lob_field v e
  type_field TypeCode.nlocator prec scale v e = lob_field v e
  type_field TypeCode.bintext prec scale v e = lob_field v e
  type_field _ prec scale v e = panicked

  abbrev type_code_field : ParameterField → Value → Encoder → Written
  type_code_field f v e = type_field f.tc f.prec f.scale v (Encoder.byte (to_byte (enc_tc f.tc)) e)

  -- `encodePrm`
  unfoldable pub encode_prm : ParameterField → Value → Encoder → Written
  unfolding type_field
  encode_prm f nil e =
      if support_null_value f.tc
      then done (Encoder.byte (null_value f.tc) e)
      else type_code_field f nil e
  encode_prm f v e = type_code_field f v e
