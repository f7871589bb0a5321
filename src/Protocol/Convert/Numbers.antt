-- ===== src/Protocol/Convert/Numbers.antt =====
-- convert.go: `convertBool`, `convertInteger` and `convertFloat`.
use go_hdb.Prelude.{
  ℕ, zero, suc, ◌-◌, ◌^◌, Bool, true, false, not, ◌||◌, Option, none, some, Bytes, ltb,
  if◌then◌else◌,
}
use go_hdb.Prelude.Int.{ℤ, pos, negsuc, ltb_ℤ, convert}
use go_hdb.Protocol.Convert.Values.{
  UnsignedType, uint, uint64, Plain, Any, pointer, plain, named, nil_pointer, reader, provider,
  bool_value, int_value, uint_value, float32_value, float64_value, string_value, bytes_value,
  runes_value, time_value, rat_value, big_int_value, big_float_value, struct_value, Value,
  ConversionError, conversion_not_supported, uint64_out_of_range, integer_out_of_range,
  float_out_of_range, syntax_error, Converted, ok, err, panic, Runtime,
}

-- `return strconv.ParseX(v)`
abbrev parsed {ℓ} : {A : Type ℓ} → ConversionError → (A → Converted) → Option A → Converted
parsed e f none = err e
parsed e f (some a) = f a

abbrev max_int64 : ℕ
max_int64 = 2 ^ 63 - 1

-- float64 0, 1, MaxFloat32 and MaxFloat64
abbrev pub f64_zero : ℕ
f64_zero = 0

abbrev pub f64_one : ℕ
f64_one = 0x3FF0000000000000

abbrev pub max_real : ℕ
max_real = 0x47EFFFFFE0000000

abbrev pub max_double : ℕ
max_double = 0x7FEFFFFFFFFFFFFF

module _ (r : Runtime) where
  unfoldable pub bool_text : Bytes → Converted
  bool_text s = parsed syntax_error (λ b. ok (Value.bool b)) (r.parse_bool s)

  -- `v != 0`
  abbrev is_not_zero : ℤ → Bool
  is_not_zero (pos zero) = false
  is_not_zero (pos (suc n)) = true
  is_not_zero (negsuc n) = true

  -- The type switch of `convertBool` and its cases by kind do the same; a slice is converted to text.
  unfoldable pub bool_plain : Plain → Converted
  unfolding bool_text
  bool_plain (bool_value b) = ok (Value.bool b)
  bool_plain (int_value t z) = ok (Value.bool (is_not_zero z))
  bool_plain (uint_value t n) = ok (Value.bool (is_not_zero (pos n)))
  bool_plain (float32_value f) = ok (Value.bool (not (r.eq32 f 0)))
  bool_plain (float64_value f) = ok (Value.bool (not (r.eq64 f f64_zero)))
  bool_plain (string_value s) = bool_text s
  bool_plain (bytes_value s) = bool_text s
  bool_plain (runes_value s) = bool_text s
  bool_plain (time_value t) = err conversion_not_supported
  bool_plain (rat_value q) = err conversion_not_supported
  bool_plain (big_int_value z) = err conversion_not_supported
  bool_plain (big_float_value q) = err conversion_not_supported
  bool_plain struct_value = err conversion_not_supported

  -- Of a declared type, a float32 is widened first.
  unfoldable pub bool_named : Plain → Converted
  unfolding bool_plain
  bool_named (float32_value f) = ok (Value.bool (not (r.eq64 (r.float64_of_float32 f) f64_zero)))
  bool_named p = bool_plain p

  unfoldable pub convert_bool : Any → Converted
  unfolding bool_plain bool_named
  convert_bool Any.nil = panic
  convert_bool (plain p) = bool_plain p
  convert_bool (named p) = bool_named p
  convert_bool (pointer v) = convert_bool v
  convert_bool (nil_pointer t) = ok Value.nil
  convert_bool (reader s) = err conversion_not_supported
  convert_bool (provider s) = err conversion_not_supported

  module _ (min_i64 max_i64 : ℤ) where
    -- `if i64 > maxI64 || i64 < minI64`
    unfoldable pub in_range : ConversionError → ℤ → Converted
    in_range e i64 = if ltb_ℤ max_i64 i64 || ltb_ℤ i64 min_i64 then err e else ok (Value.int64 i64)

    unfoldable pub integer_bool : Bool → Converted
    integer_bool b = ok (Value.int64 (if b then pos 1 else pos 0))

    unfoldable pub integer_uint64 : ℕ → Converted
    unfolding in_range
    integer_uint64 u64 =
        if ltb max_int64 u64
        then err uint64_out_of_range
        else in_range integer_out_of_range (pos u64)

    unfoldable pub integer_uint : UnsignedType → ℕ → Converted
    unfolding in_range integer_uint64
    integer_uint uint u = integer_uint64 u
    integer_uint uint64 u = integer_uint64 u
    integer_uint t u = in_range integer_out_of_range (pos u)

    -- A float32 out of range is not supported, a float64 is out of range.
    unfoldable pub integer_float32 : ℕ → Converted
    unfolding in_range
    integer_float32 f =
        let i64 = r.int64_of_float32 f in
        if r.eq32 f (r.float32_of_int64 i64)
        then in_range conversion_not_supported i64
        else err conversion_not_supported

    unfoldable pub integer_float64 : ℕ → Converted
    unfolding in_range
    integer_float64 f =
        let i64 = r.int64_of_float64 f in
        if r.eq64 f (r.float64_of_int64 i64)
        then in_range integer_out_of_range i64
        else err conversion_not_supported

    unfoldable pub integer_text : ConversionError → Bytes → Converted
    unfolding in_range
    integer_text e s = parsed e (in_range integer_out_of_range) (r.parse_int s)

    -- The type switch, and what is left to the default case by kind.
    unfoldable pub integer_plain : Plain → Converted
    unfolding integer_bool in_range integer_uint integer_float32 integer_float64 integer_text
    integer_plain (bool_value b) = integer_bool b
    integer_plain (int_value t z) = in_range integer_out_of_range z
    integer_plain (uint_value t n) = integer_uint t n
    integer_plain (float32_value f) = integer_float32 f
    integer_plain (float64_value f) = integer_float64 f
    integer_plain (string_value s) = integer_text syntax_error s
    integer_plain (bytes_value s) = integer_text syntax_error s
    integer_plain (runes_value s) = integer_text syntax_error s
    integer_plain (time_value t) = err conversion_not_supported
    integer_plain (rat_value q) = err conversion_not_supported
    integer_plain (big_int_value z) = err conversion_not_supported
    integer_plain (big_float_value q) = err conversion_not_supported
    integer_plain struct_value = err conversion_not_supported

    -- `int64(rv.Uint())` for all kinds but Uint64.
    unfoldable pub integer_named_uint : UnsignedType → ℕ → Converted
    unfolding in_range integer_uint64
    integer_named_uint uint64 u = integer_uint64 u
    integer_named_uint t u = in_range integer_out_of_range (convert (2 ^ 63) (pos u))

    -- The cases by kind.
    unfoldable pub integer_named : Plain → Converted
    unfolding integer_plain integer_named_uint integer_float64 integer_text
    integer_named (uint_value t n) = integer_named_uint t n
    integer_named (float32_value f) = integer_float64 (r.float64_of_float32 f)
    integer_named (string_value s) = integer_text conversion_not_supported s
    integer_named p = integer_plain p

    unfoldable pub convert_integer : Any → Converted
    unfolding integer_plain integer_named
    convert_integer Any.nil = panic
    convert_integer (plain p) = integer_plain p
    convert_integer (named p) = integer_named p
    convert_integer (pointer v) = convert_integer v
    convert_integer (nil_pointer t) = ok Value.nil
    convert_integer (reader s) = err conversion_not_supported
    convert_integer (provider s) = err conversion_not_supported

  module _ (max_f64 : ℕ) where
    -- `if math.Abs(f64) > maxF64`
    unfoldable pub float_in_range : ℕ → Converted
    float_in_range f64 =
        if r.abs_gt f64 max_f64 then err float_out_of_range else ok (Value.float64 f64)

    unfoldable pub float_bool : Bool → Converted
    float_bool b = ok (Value.float64 (if b then f64_one else f64_zero))

    unfoldable pub float_text : Bytes → Converted
    unfolding float_in_range
    float_text s = parsed syntax_error float_in_range (r.parse_float s)

    -- The type switch and the cases by kind do the same.
    unfoldable pub float_plain : Plain → Converted
    unfolding float_bool float_in_range float_text
    float_plain (bool_value b) = float_bool b
    float_plain (int_value t z) = float_in_range (r.float64_of_int64 z)
    float_plain (uint_value t n) = float_in_range (r.float64_of_uint64 n)
    float_plain (float32_value f) = float_in_range (r.float64_of_float32 f)
    float_plain (float64_value f) = float_in_range f
    float_plain (string_value s) = float_text s
    float_plain (bytes_value s) = float_text s
    float_plain (runes_value s) = float_text s
    float_plain (time_value t) = err conversion_not_supported
    float_plain (rat_value q) = err conversion_not_supported
    float_plain (big_int_value z) = err conversion_not_supported
    float_plain (big_float_value q) = err conversion_not_supported
    float_plain struct_value = err conversion_not_supported

    unfoldable pub convert_float : Any → Converted
    unfolding float_plain
    convert_float Any.nil = panic
    convert_float (plain p) = float_plain p
    convert_float (named p) = float_plain p
    convert_float (pointer v) = convert_float v
    convert_float (nil_pointer t) = ok Value.nil
    convert_float (reader s) = err conversion_not_supported
    convert_float (provider s) = err conversion_not_supported
