-- ===== src/Protocol/Parameter/PrmSizes.antt =====
-- parameter.go: `prmSize` foretells how many bytes `encodePrm` writes, and `size` how many `encode` does.
use mathlib.Core.Path.{subst}
use go_hdb.Prelude.{ℕ, ◌+◌, ◌^◌, ◌≡◌, Outcome, ok, panic, arith, length, if◌then◌else◌}
use go_hdb.Prelude.Int.{ℤ, pos, negsuc, convert, wrap}
use go_hdb.Encoding.Encoder
use go_hdb.Encoding.Encoder.{Encoder}
use go_hdb.Encoding.Fields.{Time}
use go_hdb.Encoding.Fields.Encode.{encode_date, encode_time}
use go_hdb.Encoding.Datetime.{
  convert_time_to_longdate, convert_time_to_seconddate, convert_time_to_day_date,
}
use go_hdb.Protocol.TypeCode.{TypeCode, to_byte, enc_tc, null_value, support_null_value}
use go_hdb.Protocol.Convert.Values.{Value, nil, lob}
use go_hdb.Protocol.Parameter.Metadata.{ParameterField}
use go_hdb.Protocol.Parameter.Types.{HasType, IsLob}
use go_hdb.Protocol.Parameter.Fields.{Written, done, Runtime, day_time}
use go_hdb.Protocol.Parameter.Encode.{lob_field, type_size, prm_size, type_field, encode_prm}
use go_hdb.Protocol.Parameter.Sizes.{
  Encodes, Encodes-shift, Matches, length-byte, length-int16, length-int32, length-int64,
  length-encode_date, length-encode_time,
}
use go_hdb.Protocol.Parameter.FieldSizes.{
  NotNil, IsNat, DecimalFits, int_field-Encodes, time_field-Encodes, secondtime-Encodes,
  boolean-Encodes, double-Encodes, real-Encodes, fixed-Encodes, decimal_field-Encodes,
}
use go_hdb.Protocol.Parameter.TextSizes.{
  TextFits, HexFits, Utf8Fits, var_field-Matches, hex_field-Matches, cesu8_field-Matches,
}

-- A value that is not nil fits into the field of a code.
abbrev pub FitsCode : Runtime → TypeCode → ℤ → ℤ → Value → Type 0
FitsCode r TypeCode.decimal prec scale v = DecimalFits r v
FitsCode r TypeCode.fixed8 prec scale v = IsNat prec × IsNat scale
FitsCode r TypeCode.fixed12 prec scale v = IsNat prec × IsNat scale
FitsCode r TypeCode.fixed16 prec scale v = IsNat prec × IsNat scale
FitsCode r TypeCode.char prec scale v = TextFits v
FitsCode r TypeCode.varchar prec scale v = TextFits v
FitsCode r TypeCode.string prec scale v = TextFits v
FitsCode r TypeCode.bstring prec scale v = TextFits v
FitsCode r TypeCode.alphanum prec scale v = TextFits v
FitsCode r TypeCode.binary prec scale v = TextFits v
FitsCode r TypeCode.varbinary prec scale v = TextFits v
FitsCode r TypeCode.nchar prec scale v = Utf8Fits v
FitsCode r TypeCode.nvarchar prec scale v = Utf8Fits v
FitsCode r TypeCode.nstring prec scale v = Utf8Fits v
FitsCode r TypeCode.shorttext prec scale v = Utf8Fits v
FitsCode r TypeCode.st_point prec scale v = HexFits r v
FitsCode r TypeCode.st_geometry prec scale v = HexFits r v
FitsCode r _ prec scale v = Unit

lob_field-Encodes : (v : Value) (e : Encoder) → NotNil v → IsLob v → Encodes 9 e (lob_field v e)
unfolding lob_field
lob_field-Encodes (lob d) e k t = rw (length-int32, length-int32, length-byte) (omega arith)
lob_field-Encodes nil e k t = absurd k
lob_field-Encodes _ e k t = absurd t

length-timestamp :
    (t : Time) (e : Encoder) → length (encode_time t (encode_date t e)) ≡ length e + 8
length-timestamp t e = rw (length-encode_time, length-encode_date) (omega arith)

-- The field of a value that is not nil.
type_field-Matches :
    (r : Runtime) (tc : TypeCode) (prec scale : ℤ) (v : Value) (e : Encoder)
    → NotNil v
    → HasType tc v
    → FitsCode r tc prec scale v
    → Matches 0 (type_size tc v) e (type_field r tc prec scale v e)
unfolding type_field type_size
type_field-Matches r TypeCode.boolean prec scale v e k t h = boolean-Encodes v e t
type_field-Matches r TypeCode.tinyint prec scale v e k t h =
    int_field-Encodes 1 (λ z e. Encoder.byte (wrap (2 ^ 8) z) e) v e (λ z. length-byte e _) k t
type_field-Matches r TypeCode.smallint prec scale v e k t h =
    int_field-Encodes 2 (λ z e. Encoder.int16 (convert (2 ^ 15) z) e) v e (λ z. length-int16 e _) k
      t
type_field-Matches r TypeCode.integer prec scale v e k t h =
    int_field-Encodes 4 (λ z e. Encoder.int32 (convert (2 ^ 31) z) e) v e (λ z. length-int32 e _) k
      t
type_field-Matches r TypeCode.bigint prec scale v e k t h =
    int_field-Encodes 8 (λ z e. Encoder.int64 z e) v e (λ z. length-int64 e _) k t
type_field-Matches r TypeCode.real prec scale v e k t h = real-Encodes r v e k t
type_field-Matches r TypeCode.double prec scale v e k t h = double-Encodes v e k t
type_field-Matches r TypeCode.date prec scale v e k t h =
    time_field-Encodes 4 (encode_date) v e (λ z. length-encode_date z e) k t
type_field-Matches r TypeCode.time prec scale v e k t h =
    time_field-Encodes 4 (encode_time) v e (λ z. length-encode_time z e) k t
type_field-Matches r TypeCode.timestamp prec scale v e k t h =
    time_field-Encodes 8 (λ t e. encode_time t (encode_date t e)) v e (λ z. length-timestamp z e) k
      t
type_field-Matches r TypeCode.longdate prec scale v e k t h =
    time_field-Encodes 8 (λ t e. Encoder.int64 (convert_time_to_longdate (day_time t)) e) v e
      (λ z. length-int64 e _) k t
type_field-Matches r TypeCode.seconddate prec scale v e k t h =
    time_field-Encodes 8 (λ t e. Encoder.int64 (convert_time_to_seconddate (day_time t)) e) v e
      (λ z. length-int64 e _) k t
type_field-Matches r TypeCode.daydate prec scale v e k t h =
    time_field-Encodes 4
      (λ t e. Encoder.int32 (convert (2 ^ 31) (pos (convert_time_to_day_date (day_time t).date))) e)
      v e (λ z. length-int32 e _) k t
type_field-Matches r TypeCode.secondtime prec scale v e k t h = secondtime-Encodes v e t
type_field-Matches r TypeCode.decimal prec scale v e k t h = decimal_field-Encodes r v e k t h
type_field-Matches r TypeCode.fixed8 prec scale v e k t h =
    fixed-Encodes 8 prec scale v e h.0 h.1 k t
type_field-Matches r TypeCode.fixed12 prec scale v e k t h =
    fixed-Encodes 12 prec scale v e h.0 h.1 k t
type_field-Matches r TypeCode.fixed16 prec scale v e k t h =
    fixed-Encodes 16 prec scale v e h.0 h.1 k t
type_field-Matches r TypeCode.char prec scale v e k t h = var_field-Matches v e k t h
type_field-Matches r TypeCode.varchar prec scale v e k t h = var_field-Matches v e k t h
type_field-Matches r TypeCode.string prec scale v e k t h = var_field-Matches v e k t h
type_field-Matches r TypeCode.bstring prec scale v e k t h = var_field-Matches v e k t h
type_field-Matches r TypeCode.alphanum prec scale v e k t h = var_field-Matches v e k t h
type_field-Matches r TypeCode.binary prec scale v e k t h = var_field-Matches v e k t h
type_field-Matches r TypeCode.varbinary prec scale v e k t h = var_field-Matches v e k t h
type_field-Matches r TypeCode.nchar prec scale v e k t h = cesu8_field-Matches r v e k t h
type_field-Matches r TypeCode.nvarchar prec scale v e k t h = cesu8_field-Matches r v e k t h
type_field-Matches r TypeCode.nstring prec scale v e k t h = cesu8_field-Matches r v e k t h
type_field-Matches r TypeCode.shorttext prec scale v e k t h = cesu8_field-Matches r v e k t h
type_field-Matches r TypeCode.st_point prec scale v e k t h = hex_field-Matches r v e k t h
type_field-Matches r TypeCode.st_geometry prec scale v e k t h = hex_field-Matches r v e k t h
type_field-Matches r TypeCode.blob prec scale v e k t h = lob_field-Encodes v e k t
type_field-Matches r TypeCode.clob prec scale v e k t h = lob_field-Encodes v e k t
type_field-Matches r TypeCode.locator prec scale v e k t h = lob_field-Encodes v e k t
type_field-Matches r TypeCode.nclob prec scale v e k t h = lob_field-Encodes v e k t
type_field-Matches r TypeCode.text prec scale v e k t h = lob_field-Encodes v e k t
type_field-Matches r TypeCode.nlocator prec scale v e k t h = lob_field-Encodes v e k t
type_field-Matches r TypeCode.bintext prec scale v e k t h = lob_field-Encodes v e k t
type_field-Matches r _ prec scale v e k t h = absurd t

Matches-shift :
    (c : Outcome ℤ) (e e' : Encoder) (w : Written)
    → length e' ≡ length e + 1
    → Matches 0 c e' w
    → Matches 1 c e w
Matches-shift (ok (pos n)) e e' w h g =
    Encodes-shift 1 n e e' w h (subst (λ (k : ℕ). Encodes k e' w) (omega arith) g)
Matches-shift (ok (negsuc n)) e e' w h g = absurd g
Matches-shift panic e e' w h g = absurd g

nil-Matches :
    (r : Runtime) (tc : TypeCode) (prec scale : ℤ) (e : Encoder)
    → HasType tc nil
    → Matches 1 (if support_null_value tc then ok (pos 0) else type_size tc nil) e (
        if support_null_value tc
        then done (Encoder.byte (null_value tc) e)
        else type_field r tc prec scale nil (Encoder.byte (to_byte (enc_tc tc)) e))
unfolding support_null_value type_size type_field to_byte enc_tc
nil-Matches r TypeCode.boolean prec scale e h =
    Encodes-shift 1 1 e (Encoder.byte 28 e) _ (length-byte e 28)
      (boolean-Encodes nil (Encoder.byte 28 e) tt)
nil-Matches r tc prec scale e h = length-byte e (null_value tc)

-- A value fits into a field: it is nil, or it has the type and the size of the field.
abbrev pub Fits : Runtime → ParameterField → Value → Type 0
Fits r f nil = HasType f.tc nil
Fits r f v = HasType f.tc v × FitsCode r f.tc f.prec f.scale v

NotNil-Matches :
    (r : Runtime) (f : ParameterField) (v : Value) (e : Encoder)
    → NotNil v
    → HasType f.tc v
    → FitsCode r f.tc f.prec f.scale v
    → Matches 1
        (type_size f.tc v)
        e
        (type_field r f.tc f.prec f.scale v (Encoder.byte (to_byte (enc_tc f.tc)) e))
NotNil-Matches r f v e k t h =
    Matches-shift (type_size f.tc v) e (Encoder.byte (to_byte (enc_tc f.tc)) e)
      (type_field r f.tc f.prec f.scale v (Encoder.byte (to_byte (enc_tc f.tc)) e))
      (length-byte e (to_byte (enc_tc f.tc)))
      (type_field-Matches r f.tc f.prec f.scale v (Encoder.byte (to_byte (enc_tc f.tc)) e) k t h)

-- A value that fits: `encodePrm` does not panic, and unless a decimal is out of range it writes the
-- type code and as many bytes as `prmSize` says.
pub encode_prm-Matches :
    (r : Runtime) (f : ParameterField) (v : Value) (e : Encoder)
    → Fits r f v
    → Matches 1 (prm_size f v) e (encode_prm r f v e)
unfolding prm_size encode_prm
encode_prm-Matches r f nil e h = nil-Matches r f.tc f.prec f.scale e h
encode_prm-Matches r f v e (t, h) = NotNil-Matches r f v e tt t h
