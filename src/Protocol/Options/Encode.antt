-- ===== src/Protocol/Options/Encode.antt =====
-- optiontype.go and optionsparts.go: how options are written.
use go_hdb.Prelude.{◌^◌, [], ◌∷◌, length}
use go_hdb.Prelude.Int.{pos, convert}
use go_hdb.Encoding.Encoder.{Encoder, ◌>>◌, bytes, bool, int8, int16, int32, int64, float64}
use go_hdb.Protocol.Options.{
  OptValue, boolean, tinyint, integer, bigint, double, string, bstring, Options, type_code,
  opt_type_via_type,
}

unfoldable pub encode_value : OptValue → Encoder → Encoder
encode_value (boolean v) = bool v
encode_value (tinyint v) = int8 v
encode_value (integer v) = int32 v
encode_value (bigint v) = int64 v
encode_value (double v) = float64 v
encode_value (string v) = int16 (convert (2 ^ 15) (pos (length v))) >> bytes v
encode_value (bstring v) = int16 (convert (2 ^ 15) (pos (length v))) >> bytes v

-- `options.encode`.
unfoldable pub encode_options : Options → Encoder → Encoder
encode_options [] e = e
encode_options ((k, v) ∷ ops) e =
    encode_options ops (
      (int8 k >> int8 (convert (2 ^ 7) (pos (type_code (opt_type_via_type v)))) >> encode_value v)
        e)
