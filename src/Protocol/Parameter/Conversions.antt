-- ===== src/Protocol/Parameter/Conversions.antt =====
-- convert.go: the type of what each conversion returns.
use go_hdb.Prelude.{ℕ, List, Bool, true, false, Option, none, some, if◌then◌else◌}
use go_hdb.Prelude.Int.{ℤ, pos, ◌≤ℤ◌}
use go_hdb.Encoding.Decimal.Fractions.{Rat}
use go_hdb.Protocol.Convert.Values
use go_hdb.Protocol.Convert.Values.{
  Plain, Any, pointer, plain, named, nil_pointer, reader, provider, to_rat, to_big_int,
  to_big_float, to_other, bool_value, int_value, uint_value, float32_value, float64_value,
  string_value, bytes_value, runes_value, time_value, rat_value, big_int_value, big_float_value,
  struct_value, Value, nil, bool, int64, float64, time, rat, string, bytes, lob, Converted, ok, err,
  panic, Runtime,
}
use go_hdb.Protocol.Convert.Numbers.{
  convert_bool, bool_plain, bool_named, bool_text, convert_integer, convert_float, float_plain,
  float_text, float_in_range, float_bool,
}
use go_hdb.Protocol.Convert.Integers.{Solid, InRange, convert_integer-InRange}
use go_hdb.Protocol.Convert.Others.{
  convert_time, time_plain, convert_decimal, decimal_plain, decimal_pointer, decimal_nil,
  convert_bytes, bytes_plain, convert_lob, lob_of, lob_bytes,
}
use go_hdb.Protocol.Parameter.Types.{
  IsBool, IsInt, IsFloat, IsTime, IsRat, IsText, IsLob, Yields, PlainDecimal, PointedDecimal,
  SolidDecimal,
}

InRange-Yields : (lo hi : ℤ) (c : Converted) → InRange lo hi c → Yields IsInt c
InRange-Yields lo hi (ok nil) h = tt
InRange-Yields lo hi (ok (int64 z)) h = tt
InRange-Yields lo hi (err e) h = tt
InRange-Yields lo hi panic h = absurd h
InRange-Yields lo hi (ok (bool z)) h = absurd h
InRange-Yields lo hi (ok (float64 z)) h = absurd h
InRange-Yields lo hi (ok (time z)) h = absurd h
InRange-Yields lo hi (ok (rat z)) h = absurd h
InRange-Yields lo hi (ok Values.nil_rat) h = absurd h
InRange-Yields lo hi (ok (Values.rat_struct z)) h = absurd h
InRange-Yields lo hi (ok (string z)) h = absurd h
InRange-Yields lo hi (ok (bytes z)) h = absurd h
InRange-Yields lo hi (ok (lob z)) h = absurd h

time_plain-IsTime : (p : Plain) → Yields IsTime (time_plain p)
unfolding time_plain
time_plain-IsTime (time_value t) = tt
time_plain-IsTime _ = tt

pub convert_time-IsTime : (v : Any) → Solid v → Yields IsTime (convert_time v)
unfolding convert_time
convert_time-IsTime (plain p) h = time_plain-IsTime p
convert_time-IsTime (named p) h = time_plain-IsTime p
convert_time-IsTime (pointer v) h = convert_time-IsTime v h
convert_time-IsTime (nil_pointer t) h = tt
convert_time-IsTime (reader s) h = tt
convert_time-IsTime (provider s) h = tt
convert_time-IsTime Any.nil h = absurd h

bytes_plain-IsText : (p : Plain) → Yields IsText (bytes_plain p)
unfolding bytes_plain
bytes_plain-IsText (string_value t) = tt
bytes_plain-IsText (bytes_value t) = tt
bytes_plain-IsText _ = tt

pub convert_bytes-IsText : (v : Any) → Solid v → Yields IsText (convert_bytes v)
unfolding convert_bytes
convert_bytes-IsText (plain p) h = bytes_plain-IsText p
convert_bytes-IsText (named p) h = bytes_plain-IsText p
convert_bytes-IsText (pointer v) h = convert_bytes-IsText v h
convert_bytes-IsText (nil_pointer t) h = tt
convert_bytes-IsText (reader s) h = tt
convert_bytes-IsText (provider s) h = tt
convert_bytes-IsText Any.nil h = absurd h

module _ (r : Runtime) where
  bool_text-IsBool : (s : List ℕ) → Yields IsBool (bool_text r s)
  unfolding bool_text
  bool_text-IsBool s =
      elim (r.parse_bool s)
        as (λ o. Yields IsBool (elim o [ none ↦ err Values.syntax_error | some b ↦ ok (bool b) ])) [
          | none ↦ tt
          | some b ↦ tt
        ]

  bool_plain-IsBool : (p : Plain) → Yields IsBool (bool_plain r p)
  unfolding bool_plain
  bool_plain-IsBool (string_value s) = bool_text-IsBool s
  bool_plain-IsBool (bytes_value s) = bool_text-IsBool s
  bool_plain-IsBool (runes_value s) = bool_text-IsBool s
  bool_plain-IsBool _ = tt

  bool_named-IsBool : (p : Plain) → Yields IsBool (bool_named r p)
  unfolding bool_named
  bool_named-IsBool (float32_value s) = tt
  bool_named-IsBool p = bool_plain-IsBool p

  pub convert_bool-IsBool : (v : Any) → Solid v → Yields IsBool (convert_bool r v)
  unfolding convert_bool
  convert_bool-IsBool (plain p) h = bool_plain-IsBool p
  convert_bool-IsBool (named p) h = bool_named-IsBool p
  convert_bool-IsBool (pointer v) h = convert_bool-IsBool v h
  convert_bool-IsBool (nil_pointer t) h = tt
  convert_bool-IsBool (reader s) h = tt
  convert_bool-IsBool (provider s) h = tt
  convert_bool-IsBool Any.nil h = absurd h

  pub integer-IsInt :
      (lo hi : ℤ) (v : Any)
      → lo ≤ℤ pos 0
      → pos 1 ≤ℤ hi
      → Solid v
      → Yields IsInt (convert_integer r lo hi v)
  integer-IsInt lo hi v low high h =
      InRange-Yields lo hi (convert_integer r lo hi v)
        (convert_integer-InRange r lo hi low high v h)

  module _ (max_f64 : ℕ) where
    in_range-IsFloat : (f : ℕ) → Yields IsFloat (float_in_range r max_f64 f)
    unfolding float_in_range
    in_range-IsFloat f =
        elim (r.abs_gt f max_f64)
          as (λ b. Yields IsFloat (if b then err Values.float_out_of_range else ok (float64 f))) [
            | true ↦ tt
            | false ↦ tt
          ]

    text-IsFloat : (s : List ℕ) → Yields IsFloat (float_text r max_f64 s)
    unfolding float_text
    text-IsFloat s =
        elim (r.parse_float s)
          as (λ o.
            Yields IsFloat
              (elim o [ none ↦ err Values.syntax_error | some f ↦ float_in_range r max_f64 f ])) [
                | none ↦ tt
                | some f ↦ in_range-IsFloat f
              ]

    plain-IsFloat : (p : Plain) → Yields IsFloat (float_plain r max_f64 p)
    unfolding float_plain float_bool
    plain-IsFloat (bool_value b) = tt
    plain-IsFloat (int_value t z) = in_range-IsFloat (r.float64_of_int64 z)
    plain-IsFloat (uint_value t n) = in_range-IsFloat (r.float64_of_uint64 n)
    plain-IsFloat (float32_value f) = in_range-IsFloat (r.float64_of_float32 f)
    plain-IsFloat (float64_value f) = in_range-IsFloat f
    plain-IsFloat (string_value s) = text-IsFloat s
    plain-IsFloat (bytes_value s) = text-IsFloat s
    plain-IsFloat (runes_value s) = text-IsFloat s
    plain-IsFloat _ = tt

    pub convert_float-IsFloat : (v : Any) → Solid v → Yields IsFloat (convert_float r max_f64 v)
    unfolding convert_float
    convert_float-IsFloat (plain p) h = plain-IsFloat p
    convert_float-IsFloat (named p) h = plain-IsFloat p
    convert_float-IsFloat (pointer v) h = convert_float-IsFloat v h
    convert_float-IsFloat (nil_pointer t) h = tt
    convert_float-IsFloat (reader s) h = tt
    convert_float-IsFloat (provider s) h = tt
    convert_float-IsFloat Any.nil h = absurd h

  option-IsRat :
      (o : Option Rat)
      → Yields IsRat (elim o [ none ↦ err Values.conversion_not_supported | some q ↦ ok (rat q) ])
  option-IsRat none = tt
  option-IsRat (some q) = tt

  decimal_plain-IsRat : (p : Plain) → PlainDecimal p → Yields IsRat (decimal_plain r p)
  unfolding decimal_plain
  decimal_plain-IsRat (float32_value f) h = option-IsRat (r.rat_of_float64 (r.float64_of_float32 f))
  decimal_plain-IsRat (float64_value f) h = option-IsRat (r.rat_of_float64 f)
  decimal_plain-IsRat (string_value s) h = option-IsRat (r.rat_of_string s)
  decimal_plain-IsRat (rat_value q) h = absurd h
  decimal_plain-IsRat _ h = tt

  decimal_pointer-IsRat : (p : Plain) → PointedDecimal p → Yields IsRat (decimal_pointer r p)
  unfolding decimal_pointer
  decimal_pointer-IsRat (big_float_value none) h = absurd h
  decimal_pointer-IsRat (big_float_value (some q)) h = tt
  decimal_pointer-IsRat (rat_value q) h = tt
  decimal_pointer-IsRat (big_int_value q) h = tt
  decimal_pointer-IsRat p h = decimal_plain-IsRat p tt

  pub convert_decimal-IsRat : (v : Any) → SolidDecimal v → Yields IsRat (convert_decimal r v)
  unfolding convert_decimal decimal_nil
  convert_decimal-IsRat (plain p) h = decimal_plain-IsRat p h
  convert_decimal-IsRat (named p) h = decimal_plain-IsRat p h
  convert_decimal-IsRat (pointer (plain p)) h = decimal_pointer-IsRat p h
  convert_decimal-IsRat (pointer (named p)) h = decimal_plain-IsRat p h
  convert_decimal-IsRat (pointer (pointer v)) h = convert_decimal-IsRat (pointer v) h
  convert_decimal-IsRat (pointer (nil_pointer to_other)) h = tt
  convert_decimal-IsRat (pointer (nil_pointer t)) h = absurd h
  convert_decimal-IsRat (pointer (reader s)) h = tt
  convert_decimal-IsRat (pointer (provider s)) h = tt
  convert_decimal-IsRat (pointer Any.nil) h = absurd h
  convert_decimal-IsRat (nil_pointer to_other) h = tt
  convert_decimal-IsRat (nil_pointer t) h = absurd h
  convert_decimal-IsRat (reader s) h = tt
  convert_decimal-IsRat (provider s) h = tt
  convert_decimal-IsRat Any.nil h = absurd h

  lob_bytes-IsLob :
      (b : Bool) (c rest : Converted)
      → Yields IsText c
      → Yields IsLob rest
      → Yields IsLob (lob_bytes r b c rest)
  unfolding lob_bytes lob_of
  lob_bytes-IsLob b (ok (string s)) rest h k = tt
  lob_bytes-IsLob b (ok (bytes s)) rest h k = tt
  lob_bytes-IsLob b panic rest h k = absurd h
  lob_bytes-IsLob b (ok nil) rest h k = k
  lob_bytes-IsLob b (err e) rest h k = k
  lob_bytes-IsLob b (ok _) rest h k = absurd h

  pub convert_lob-IsLob : (b : Bool) (v : Any) → Solid v → Yields IsLob (convert_lob r b v)
  unfolding convert_lob lob_of
  convert_lob-IsLob b (plain p) h = lob_bytes-IsLob b _ _ (convert_bytes-IsText (plain p) tt) tt
  convert_lob-IsLob b (named p) h = lob_bytes-IsLob b _ _ (convert_bytes-IsText (named p) tt) tt
  convert_lob-IsLob b (pointer v) h =
      lob_bytes-IsLob b _ _ (convert_bytes-IsText (pointer v) h) (convert_lob-IsLob b v h)
  convert_lob-IsLob b (nil_pointer t) h =
      lob_bytes-IsLob b _ _ (convert_bytes-IsText (nil_pointer t) tt) tt
  convert_lob-IsLob b (reader s) h = tt
  convert_lob-IsLob b (provider (some s)) h = tt
  convert_lob-IsLob b (provider none) h =
      lob_bytes-IsLob b _ _ (convert_bytes-IsText (provider none) tt) tt
  convert_lob-IsLob b Any.nil h = absurd h
