-- ===== src/Protocol/Parameter/Metadata.antt =====
-- parameter.go: `ParameterField`, what it tells of itself, and `ParameterMetadata`. The name of a field is
-- looked up in the field names, whose own decoding is not part of this.
use go_hdb.Prelude.{ℕ, zero, suc, Bool, ◌||◌, Option, none, some, List, [], ◌∷◌, ◌^◌, if◌then◌else◌}
use go_hdb.Prelude.Int.{ℤ, pos, eq_ℤ, wrap}
use go_hdb.Encoding.Decoder
use go_hdb.Encoding.Decoder.{Decoding, ◌>>=◌, ◌>>◌, pure}
use go_hdb.Protocol.TypeCode.{TypeCode, is_lob, is_decimal_type, is_variable_length, of_byte}
use go_hdb.Protocol.FieldNames.{OfsHandle, Search, insert_ofs}

-- parameterOptions and ParameterMode
abbrev pub po_optional : ℤ
po_optional = pos 2

abbrev pub pm_in : ℤ
pm_in = pos 1

abbrev pub pm_inout : ℤ
pm_inout = pos 2

abbrev pub pm_out : ℤ
pm_out = pos 4

-- The names, which all fields share, stand beside the fields.
pub record ParameterField : Type 0 where
  pub ofs : ℕ
  pub prec : ℤ
  pub scale : ℤ
  pub parameter_options : ℤ
  pub tc : TypeCode
  pub mode : ℤ

unfoldable pub new_table_rows_parameter_field : ℕ → ParameterField
new_table_rows_parameter_field idx = record {
  ofs = idx;
  prec = pos 0;
  scale = pos 0;
  parameter_options = pos 0;
  tc = TypeCode.table_rows;
  mode = pm_out;
}

unfoldable pub is_nullable : ParameterField → Bool
is_nullable f = eq_ℤ f.parameter_options po_optional

unfoldable pub is_lob_field : ParameterField → Bool
is_lob_field f = is_lob f.tc

unfoldable pub decimal_size : ParameterField → Option (ℤ × ℤ)
decimal_size f = if is_decimal_type f.tc then some (f.prec, f.scale) else none

unfoldable pub field_length : ParameterField → Option ℤ
field_length f = if is_variable_length f.tc then some f.prec else none

unfoldable pub is_in : ParameterField → Bool
is_in f = eq_ℤ f.mode pm_inout || eq_ℤ f.mode pm_in

unfoldable pub is_out : ParameterField → Bool
is_out f = eq_ℤ f.mode pm_inout || eq_ℤ f.mode pm_out

unfoldable pub is_in_out : ParameterField → Bool
is_in_out f = eq_ℤ f.mode pm_inout

module _ (search : Search) where
  -- `decode`: the field, and the names with its offset.
  unfoldable pub decode_field : List OfsHandle → Decoding (ParameterField × List OfsHandle)
  decode_field names = do
    options ← Decoder.int8
    tc ← Decoder.int8
    mode ← Decoder.int8
    Decoder.skip 1
    ofs ← Decoder.uint32
    prec ← Decoder.int16
    scale ← Decoder.int16
    Decoder.skip 4
    pure (
      record {
        ofs = ofs;
        prec = prec;
        scale = scale;
        parameter_options = options;
        tc = of_byte (wrap (2 ^ 8) tc);
        mode = mode;
      },
      insert_ofs search ofs names,
    )

  -- The loop of `decodeNumArg`.
  unfoldable pub decode_fields :
      ℕ → List OfsHandle → Decoding (List ParameterField × List OfsHandle)
  decode_fields zero names = pure ([], names)
  decode_fields (suc n) names = do
    (f, names) ← decode_field names
    (fs, names) ← decode_fields n names
    pure (f ∷ fs, names)
