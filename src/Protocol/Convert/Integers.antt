-- ===== src/Protocol/Convert/Integers.antt =====
-- convert.go: what `convertInteger` makes of the values of integer types.
use go_hdb.Prelude.{
  ℕ, ◌+◌, ◌-◌, ◌^◌, ◌<◌, ◌≡◌, true, false, arith, ltb, if◌then◌else◌, some, none, Bytes,
}
use go_hdb.Prelude.Int.{ℤ, pos, negsuc, leb_ℤ, ◌≤ℤ◌, IsInt64, convert, convert-pos, signed, wrap}
use go_hdb.Protocol.Convert.Values.{
  SignedType, UnsignedType, uint, uint8, uint16, uint32, uint64, Plain, Any, pointer, plain, named,
  nil_pointer, reader, provider, bool_value, int_value, uint_value, float32_value, float64_value,
  string_value, bytes_value, runes_value, time_value, rat_value, big_int_value, big_float_value,
  struct_value, Value, ConversionError, conversion_not_supported, uint64_out_of_range,
  integer_out_of_range, syntax_error, Converted, ok, err, panic, Runtime,
}
use go_hdb.Protocol.Convert.Numbers.{
  convert_integer, integer_plain, integer_named, in_range, integer_uint, integer_uint64,
  integer_named_uint, integer_bool, integer_float32, integer_float64, integer_text,
}

-- The numbers of an unsigned type.
abbrev pub unsigned_values : UnsignedType → ℕ
unsigned_values uint = 2 ^ 64
unsigned_values uint8 = 2 ^ 8
unsigned_values uint16 = 2 ^ 16
unsigned_values uint32 = 2 ^ 32
unsigned_values uint64 = 2 ^ 64

-- v is the number z, of an integer type, or a pointer to it. Of a declared type the unsigned numbers
-- are below 2^63, but for those of uint64.
pub data Integral : Any → ℤ → Type 0 where
  plain_int : (t : SignedType) (z : ℤ) → IsInt64 z → Integral (plain (int_value t z)) z
  plain_uint :
      (t : UnsignedType) (u : ℕ) → u < unsigned_values t → Integral (plain (uint_value t u)) (pos u)
  named_int : (t : SignedType) (z : ℤ) → IsInt64 z → Integral (named (int_value t z)) z
  named_uint : (t : UnsignedType) (u : ℕ) → u < 2 ^ 63 → Integral (named (uint_value t u)) (pos u)
  named_uint64 : (u : ℕ) → Integral (named (uint_value uint64 u)) (pos u)
  behind : (v : Any) (z : ℤ) → Integral v z → Integral (pointer v) z

-- The number, if it is in the range; above all int64, and otherwise, it is one of two errors.
abbrev pub number_in : ℤ → ℤ → ℤ → Converted
number_in min_i64 max_i64 z =
    if leb_ℤ (pos (2 ^ 63)) z
    then err uint64_out_of_range
    else if leb_ℤ min_i64 z
    then if leb_ℤ z max_i64 then ok (Value.int64 z) else err integer_out_of_range
    else err integer_out_of_range

module _ (r : Runtime) (lo hi : ℤ) where
  in_range-int : (z : ℤ) → IsInt64 z → in_range r lo hi integer_out_of_range z ≡ number_in lo hi z
  unfolding in_range
  in_range-int z h = ground arith

  uint64_lem : (u : ℕ) → hi ≤ℤ pos (2 ^ 63 - 1) → integer_uint64 r lo hi u ≡ number_in lo hi (pos u)
  unfolding integer_uint64 in_range
  uint64_lem u h = ground arith

  named_lem :
      (u : ℕ)
      → u < 2 ^ 63
      → in_range r lo hi integer_out_of_range (convert (2 ^ 63) (pos u)) ≡ number_in lo hi (pos u)
  named_lem u h = rw (convert-pos (2 ^ 63) u h) (in_range-int (pos u) (omega arith))

  -- A number of an integer type is converted to itself, if it is in the range; from 2^63 on the error
  -- is that of the high bit, otherwise that of the range. Pointers are followed. This holds for ranges
  -- of int64 and, of declared types, for unsigned numbers below 2^63 and for those of uint64.
  pub convert_integer-number_in :
      (v : Any) (z : ℤ)
      → Integral v z
      → hi ≤ℤ pos (2 ^ 63 - 1)
      → convert_integer r lo hi v ≡ number_in lo hi z
  unfolding convert_integer integer_plain integer_named integer_uint integer_named_uint
  convert_integer-number_in _ _ (plain_int t z h) k = in_range-int z h
  convert_integer-number_in _ _ (plain_uint uint u h) k = uint64_lem u k
  convert_integer-number_in _ _ (plain_uint uint8 u h) k = in_range-int (pos u) (omega arith)
  convert_integer-number_in _ _ (plain_uint uint16 u h) k = in_range-int (pos u) (omega arith)
  convert_integer-number_in _ _ (plain_uint uint32 u h) k = in_range-int (pos u) (omega arith)
  convert_integer-number_in _ _ (plain_uint uint64 u h) k = uint64_lem u k
  convert_integer-number_in _ _ (named_int t z h) k = in_range-int z h
  convert_integer-number_in _ _ (named_uint uint64 u h) k = uint64_lem u k
  convert_integer-number_in _ _ (named_uint uint u h) k = named_lem u h
  convert_integer-number_in _ _ (named_uint uint8 u h) k = named_lem u h
  convert_integer-number_in _ _ (named_uint uint16 u h) k = named_lem u h
  convert_integer-number_in _ _ (named_uint uint32 u h) k = named_lem u h
  convert_integer-number_in _ _ (named_uint64 u) k = uint64_lem u k
  convert_integer-number_in _ _ (behind v z h) k = convert_integer-number_in v z h k

-- A number from 2^63 on, of a type that is declared as an uint, is converted without an error to a
-- BIGINT that is less by 2^64.
pub convert_integer-wraps :
    (r : Runtime) (n : ℕ)
    → n < 2 ^ 63
    → convert_integer r
        (negsuc (2 ^ 63 - 1))
        (pos (2 ^ 63 - 1))
        (named (uint_value uint (2 ^ 63 + n)))
      ≡ ok (Value.int64 (negsuc (2 ^ 63 - 1 - n)))
unfolding convert_integer integer_named integer_named_uint in_range signed wrap
convert_integer-wraps r n h = ground arith

-- What is returned as a number lies in the range.
abbrev pub InRange : ℤ → ℤ → Converted → Type 0
InRange lo hi (ok (Value.int64 z)) = (lo ≤ℤ z) × (z ≤ℤ hi)
InRange lo hi (ok Value.nil) = Unit
InRange lo hi (ok _) = ⊥
InRange lo hi (err e) = Unit
InRange lo hi panic = ⊥

-- A pointer points to something that is no nil interface.
abbrev pub Solid : Any → Type 0
Solid Any.nil = ⊥
Solid (plain p) = Unit
Solid (named p) = Unit
Solid (pointer v) = Solid v
Solid (nil_pointer t) = Unit
Solid (reader s) = Unit
Solid (provider s) = Unit

module _ (r : Runtime) (lo hi : ℤ) where
  in_range-InRange : (e : ConversionError) (z : ℤ) → InRange lo hi (in_range r lo hi e z)
  unfolding in_range
  in_range-InRange e z = ground arith

  uint64-InRange : (u : ℕ) → InRange lo hi (integer_uint64 r lo hi u)
  unfolding integer_uint64
  uint64-InRange u =
      elim (ltb (2 ^ 63 - 1) u)
        as (λ b.
          InRange lo hi (
            if b then err uint64_out_of_range else in_range r lo hi integer_out_of_range (pos u))) [
              | true ↦ tt
              | false ↦ in_range-InRange integer_out_of_range (pos u)
            ]

  uint-InRange : (t : UnsignedType) (u : ℕ) → InRange lo hi (integer_uint r lo hi t u)
  unfolding integer_uint
  uint-InRange uint u = uint64-InRange u
  uint-InRange uint64 u = uint64-InRange u
  uint-InRange uint8 u = in_range-InRange integer_out_of_range (pos u)
  uint-InRange uint16 u = in_range-InRange integer_out_of_range (pos u)
  uint-InRange uint32 u = in_range-InRange integer_out_of_range (pos u)

  named_uint-InRange : (t : UnsignedType) (u : ℕ) → InRange lo hi (integer_named_uint r lo hi t u)
  unfolding integer_named_uint
  named_uint-InRange uint64 u = uint64-InRange u
  named_uint-InRange uint u = in_range-InRange integer_out_of_range (convert (2 ^ 63) (pos u))
  named_uint-InRange uint8 u = in_range-InRange integer_out_of_range (convert (2 ^ 63) (pos u))
  named_uint-InRange uint16 u = in_range-InRange integer_out_of_range (convert (2 ^ 63) (pos u))
  named_uint-InRange uint32 u = in_range-InRange integer_out_of_range (convert (2 ^ 63) (pos u))

  float32-InRange : (f : ℕ) → InRange lo hi (integer_float32 r lo hi f)
  unfolding integer_float32
  float32-InRange f =
      elim (r.eq32 f (r.float32_of_int64 (r.int64_of_float32 f)))
        as (λ b. InRange lo hi (
          if b
          then in_range r lo hi conversion_not_supported (r.int64_of_float32 f)
          else err conversion_not_supported)) [
            | true ↦ in_range-InRange conversion_not_supported (r.int64_of_float32 f)
            | false ↦ tt
          ]

  float64-InRange : (f : ℕ) → InRange lo hi (integer_float64 r lo hi f)
  unfolding integer_float64
  float64-InRange f =
      elim (r.eq64 f (r.float64_of_int64 (r.int64_of_float64 f)))
        as (λ b. InRange lo hi (
          if b
          then in_range r lo hi integer_out_of_range (r.int64_of_float64 f)
          else err conversion_not_supported)) [
            | true ↦ in_range-InRange integer_out_of_range (r.int64_of_float64 f)
            | false ↦ tt
          ]

  text-InRange : (e : ConversionError) (s : Bytes) → InRange lo hi (integer_text r lo hi e s)
  unfolding integer_text
  text-InRange e s =
      elim (r.parse_int s)
        as (λ o.
          InRange lo hi
            (elim o [ none ↦ err e | some z ↦ in_range r lo hi integer_out_of_range z ])) [
              | none ↦ tt
              | some z ↦ in_range-InRange integer_out_of_range z
            ]

  module _ (low : lo ≤ℤ pos 0) (high : pos 1 ≤ℤ hi) where
    plain-InRange : (p : Plain) → InRange lo hi (integer_plain r lo hi p)
    unfolding integer_plain integer_bool
    plain-InRange (bool_value true) = omega arith
    plain-InRange (bool_value false) = omega arith
    plain-InRange (int_value t z) = in_range-InRange integer_out_of_range z
    plain-InRange (uint_value t n) = uint-InRange t n
    plain-InRange (float32_value f) = float32-InRange f
    plain-InRange (float64_value f) = float64-InRange f
    plain-InRange (string_value s) = text-InRange syntax_error s
    plain-InRange (bytes_value s) = text-InRange syntax_error s
    plain-InRange (runes_value s) = text-InRange syntax_error s
    plain-InRange (time_value t) = tt
    plain-InRange (rat_value q) = tt
    plain-InRange (big_int_value z) = tt
    plain-InRange (big_float_value q) = tt
    plain-InRange struct_value = tt

    named-InRange : (p : Plain) → InRange lo hi (integer_named r lo hi p)
    unfolding integer_named
    named-InRange (uint_value t n) = named_uint-InRange t n
    named-InRange (float32_value f) = float64-InRange (r.float64_of_float32 f)
    named-InRange (string_value s) = text-InRange conversion_not_supported s
    named-InRange (bool_value b) = plain-InRange (bool_value b)
    named-InRange (int_value t z) = plain-InRange (int_value t z)
    named-InRange (float64_value f) = plain-InRange (float64_value f)
    named-InRange (bytes_value s) = plain-InRange (bytes_value s)
    named-InRange (runes_value s) = plain-InRange (runes_value s)
    named-InRange (time_value t) = tt
    named-InRange (rat_value q) = tt
    named-InRange (big_int_value z) = tt
    named-InRange (big_float_value q) = tt
    named-InRange struct_value = tt

    -- For a range with 0 and 1 in it: for any value but the nil interface and a pointer that leads to
    -- one, there is no panic, and what is returned is nil, an error or an int64 of the range.
    pub convert_integer-InRange : (v : Any) → Solid v → InRange lo hi (convert_integer r lo hi v)
    unfolding convert_integer
    convert_integer-InRange (plain p) h = plain-InRange p
    convert_integer-InRange (named p) h = named-InRange p
    convert_integer-InRange (pointer v) h = convert_integer-InRange v h
    convert_integer-InRange (nil_pointer t) h = tt
    convert_integer-InRange (reader s) h = tt
    convert_integer-InRange (provider s) h = tt
    convert_integer-InRange Any.nil h = absurd h
