-- ===== src/Tests/Parameters.antt =====
-- Values of a caller become parameters, and these are counted and written.
use go_hdb.Prelude.{
  ℕ, ◌+◌, ◌*◌, ◌/◌, ◌-◌, ◌^◌, ◌≡◌, arith, none, some, List, [], ◌∷◌, ok, length, ◌==◌, ltb, Bytes,
  refl, inl, inr, ◌++◌,
}
use go_hdb.Prelude.Int.{pos, negsuc, pos_part, ◌-ℤ◌, ◌+ℤ◌}
use go_hdb.Protocol.Lob.{LobInDescr}
use go_hdb.Protocol.TypeCode.{TypeCode}
use go_hdb.Protocol.Convert.Values
use go_hdb.Protocol.Convert.Values.{
  Any, plain, named, pointer, int_value, uint_value, big_int_value, big_float_value, int32, uint,
  uint16, Value, int64, lob, string, bytes, rat,
}
use go_hdb.Protocol.Convert.Numbers.{convert_integer}
use go_hdb.Protocol.Convert.Integers.{
  InRange, behind, plain_uint, number_in, convert_integer-number_in, convert_integer-wraps,
  convert_integer-InRange,
}
use go_hdb.Protocol.Convert.Others.{convert_field}
use go_hdb.Protocol.Parameter.Metadata.{ParameterField}
use go_hdb.Protocol.Parameter.Fields
use go_hdb.Protocol.Parameter.Types.{HasType, Yields}
use go_hdb.Protocol.Parameter.Typed.{convert_field-HasType}
use go_hdb.Protocol.Parameter.Input.{size, encode, num_rows}
use go_hdb.Protocol.Parameter.Sizes.{Encodes}
use go_hdb.Unicode.Cesu8.Transform.Loop.{text}
use go_hdb.Protocol.Parameter.Fields.{cesu8_bytes, done}
use go_hdb.Protocol.Parameter.TextRounds.{cesu8_bytes-text}
use go_hdb.Protocol.Parameter.TextSizes.{IsUtf8}
use go_hdb.Protocol.Parameter.FieldSizes.{DecimalFits}
use go_hdb.Encoding.Decimal.Fractions.{convert_rat_to_decimal}
use go_hdb.Unicode.Utf8
use go_hdb.Unicode.Utf8.{encode_valid}
use go_hdb.Unicode.Cesu8
use go_hdb.Protocol.Parameter.RowSizes.{encode-size}

-- Floats are whole numbers here, and no text is a number.
abbrev whole : Values.Runtime
whole = record {
  int64_of_float32 = λ f. pos f;
  int64_of_float64 = λ f. pos f;
  float32_of_int64 = λ z. pos_part z;
  float64_of_int64 = λ z. pos_part z;
  float64_of_uint64 = λ u. u;
  float64_of_float32 = λ f. f;
  eq32 = λ a b. a == b;
  eq64 = λ a b. a == b;
  abs_gt = λ a b. ltb b a;
  parse_bool = λ s. none;
  parse_int = λ s. none;
  parse_float = λ s. none;
  rat_of_float64 = λ f. some (record { num = pos f; denom = 1 });
  rat_of_string = λ s. none;
  cesu8_reader = λ s. s;
}

-- A pointer to an uint16.
convert_integer-number_in_example :
    convert_integer whole (pos 0) (pos 255) (pointer (plain (uint_value uint16 300)))
    ≡ number_in (pos 0) (pos 255) (pos 300)
convert_integer-number_in_example =
    convert_integer-number_in whole (pos 0) (pos 255) (pointer (plain (uint_value uint16 300)))
      (pos 300)
      (behind (plain (uint_value uint16 300)) (pos 300) (plain_uint uint16 300 (omega arith)))
      (omega arith)

-- The greatest uint of a declared type becomes -1.
convert_integer-wraps_example :
    convert_integer whole
      (negsuc (2 ^ 63 - 1))
      (pos (2 ^ 63 - 1))
      (named (uint_value uint (2 ^ 63 + (2 ^ 63 - 1))))
    ≡ Values.ok (int64 (negsuc (2 ^ 63 - 1 - (2 ^ 63 - 1))))
convert_integer-wraps_example = convert_integer-wraps whole (2 ^ 63 - 1) (omega arith)

convert_integer-InRange_example :
    InRange
      (pos 0)
      (pos 255)
      (convert_integer whole (pos 0) (pos 255) (plain (int_value int32 (negsuc 4))))
convert_integer-InRange_example =
    convert_integer-InRange whole (pos 0) (pos 255) (omega arith) (omega arith)
      (plain (int_value int32 (negsuc 4))) tt

convert_field-HasType_example :
    Yields
      (HasType TypeCode.decimal)
      (convert_field whole TypeCode.decimal (pointer (plain (big_int_value (pos 7)))))
convert_field-HasType_example =
    convert_field-HasType whole TypeCode.decimal (pointer (plain (big_int_value (pos 7)))) tt tt

abbrev no_handler : Fields.Runtime
no_handler = record {
  float32_of_float64 = λ f. f;
  low_digits = λ k. k * 30103 / 100000;
  decode_hex = λ s. none;
  handler = none;
}

abbrev parameter : TypeCode → ParameterField
parameter tc = record {
  ofs = 0;
  prec = pos 0;
  scale = pos 0;
  parameter_options = pos 2;
  tc = tc;
  mode = pos 1;
}

abbrev fields : List ParameterField
fields =
    parameter TypeCode.integer
    ∷ parameter TypeCode.nvarchar
    ∷ parameter TypeCode.decimal
    ∷ parameter TypeCode.blob
    ∷ []

abbrev chunk : LobInDescr
chunk = record {
  rd = record { bytes = []; fault = none };
  opt = pos 6;
  position = 0;
  buf = 1 ∷ 2 ∷ 3 ∷ [];
}

-- An "a" and an "e" with an acute.
abbrev accented : Bytes
accented = 97 ∷ 195 ∷ 169 ∷ []

accented-IsUtf8 : IsUtf8 accented
unfolding Utf8.encode_rune Cesu8.encode_rune encode_valid
accented-IsUtf8 = (
  97 ∷ 233 ∷ [],
  refl,
  ((omega arith, inl (omega arith)), ((omega arith, inl (omega arith)), tt)),
  omega arith,
)

half-Fits : DecimalFits no_handler (rat (record { num = pos 1; denom = 2 }))
unfolding convert_rat_to_decimal ◌-ℤ◌ ◌+ℤ◌
half-Fits = refl

-- Two rows; the last value has none beside it.
abbrev values : List Value
values =
    int64 (pos 5)
    ∷ string accented
    ∷ rat (record { num = pos 1; denom = 2 })
    ∷ lob chunk
    ∷ Value.nil
    ∷ bytes accented
    ∷ Value.nil
    ∷ lob chunk
    ∷ int64 (pos 6)
    ∷ []

encode-size_example :
    (n : ℕ) × (ws : List Value) × (size fields values ≡ ok (pos n, ws))
    × (length ws ≡ length values)
    × Encodes n [] (encode no_handler fields ws [])
unfolding num_rows
encode-size_example = encode-size no_handler fields values [] (
  ((tt, tt), ((tt, accented-IsUtf8), ((tt, half-Fits), ((tt, tt), tt)))),
  ((tt, ((tt, accented-IsUtf8), (tt, ((tt, tt), tt)))), tt),
)

cesu8_bytes-text_example :
    cesu8_bytes no_handler
      (length (text Utf8.encode_rune (97 ∷ 65536 ∷ [])))
      (text Utf8.encode_rune (97 ∷ 65536 ∷ []))
      (1 ∷ [])
    ≡ done ((1 ∷ []) ++ text Cesu8.encode_rune (97 ∷ 65536 ∷ []))
cesu8_bytes-text_example =
    cesu8_bytes-text no_handler (97 ∷ 65536 ∷ []) (1 ∷ [])
      ((omega arith, inl (omega arith)), ((omega arith, inr (omega arith)), tt))
