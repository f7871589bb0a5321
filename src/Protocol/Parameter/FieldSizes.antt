-- ===== src/Protocol/Parameter/FieldSizes.antt =====
-- encode.go: each field of a type writes as many bytes as its size says.
use Prim.Native.Nat.{bit_or}
use go_hdb.Prelude.{
  ℕ, suc, ◌+◌, ◌-◌, ◌*◌, ◌/◌, ◌%◌, ◌^◌, ◌≡◌, refl, ◌∙◌, Bool, true, false, none, some, ok, arith,
  length, length-append, length-replicate, length-take, length-set, take, set, get_elem?, replicate,
  Bytes, if◌then◌else◌, leb,
}
use go_hdb.Prelude.Int.{ℤ, pos, negsuc, ◌+ℤ◌, wrap}
use go_hdb.Prelude.Words.{le_bytes, length-le_bytes}
use go_hdb.Encoding.Encoder
use go_hdb.Encoding.Encoder.{Encoder}
use go_hdb.Encoding.Fields.{Time}
use go_hdb.Encoding.Decimal
use go_hdb.Encoding.Decimal.Fractions.{
  is_neg, Decimal128, abs_ℤ, convert_rat_to_decimal, convert_rat_to_fixed, dec128_digits,
  dec128_min_exp, dec128_max_exp,
}
use go_hdb.Encoding.Decimal.{fill_words, words_loop}
use go_hdb.Protocol.Convert.Values.{Value, nil, bool, int64, float64, time, rat}
use go_hdb.Protocol.Parameter.Types.{IsInt, IsTime, IsBool, IsFloat, IsRat}
use go_hdb.Protocol.Parameter.Fields
use go_hdb.Protocol.Parameter.Fields.{
  Written, done, failed, panicked, stuck, Runtime, FieldError, decimal_out_of_range, text_of,
  int_field, time_value_field, encode_fixed, var_field_size, cesu8_field_size, hex_field_size,
  cesu8_bytes,
}
use go_hdb.Protocol.Parameter.Sizes.{
  Encodes, length-bytes, length-byte, length-int32, length-uint32, length-float64,
}

-- A value that is not nil.
abbrev pub NotNil : Value → Type 0
NotNil nil = ⊥
NotNil _ = Unit

pub int_field-Encodes :
    (n : ℕ) (put : ℤ → Encoder → Encoder) (v : Value) (e : Encoder)
    → ((z : ℤ) → length (put z e) ≡ length e + n)
    → NotNil v
    → IsInt v
    → Encodes n e (int_field put v e)
unfolding int_field
int_field-Encodes n put (int64 z) e h k t = h z
int_field-Encodes n put nil e h k t = absurd k
int_field-Encodes n put _ e h k t = absurd t

pub time_field-Encodes :
    (n : ℕ) (put : Time → Encoder → Encoder) (v : Value) (e : Encoder)
    → ((z : Time) → length (put z e) ≡ length e + n)
    → NotNil v
    → IsTime v
    → Encodes n e (time_value_field put v e)
unfolding time_value_field
time_field-Encodes n put (time z) e h k t = h z
time_field-Encodes n put nil e h k t = absurd k
time_field-Encodes n put _ e h k t = absurd t

pub secondtime-Encodes : (v : Value) (e : Encoder) → IsTime v → Encodes 4 e (Fields.secondtime v e)
unfolding Fields.secondtime time_value_field
secondtime-Encodes nil e t = length-int32 e (pos 86402)
secondtime-Encodes (time z) e t = length-int32 e _
secondtime-Encodes _ e t = absurd t

pub boolean-Encodes : (v : Value) (e : Encoder) → IsBool v → Encodes 1 e (Fields.boolean v e)
unfolding Fields.boolean
boolean-Encodes nil e t = length-byte e 1
boolean-Encodes (bool true) e t = length-byte e 2
boolean-Encodes (bool false) e t = length-byte e 0
boolean-Encodes _ e t = absurd t

pub double-Encodes :
    (v : Value) (e : Encoder) → NotNil v → IsFloat v → Encodes 8 e (Fields.double v e)
unfolding Fields.double
double-Encodes (float64 f) e k t = length-float64 e f
double-Encodes nil e k t = absurd k
double-Encodes _ e k t = absurd t

pub real-Encodes :
    (r : Runtime) (v : Value) (e : Encoder) → NotNil v → IsFloat v → Encodes 4 e (Fields.real r v e)
unfolding Fields.real
real-Encodes r (float64 f) e k t = length-uint32 e (r.float32_of_float64 f)
real-Encodes r nil e k t = absurd k
real-Encodes r _ e k t = absurd t

length-fill_words : (size fill n : ℕ) → length (fill_words size fill n) ≡ size
unfolding fill_words
length-fill_words size fill n = omega (
  arith,
  length-append (take size (le_bytes (8 * words_loop n n) n))
      (replicate (size - 8 * words_loop n n) fill),
  length-take size (le_bytes (8 * words_loop n n) n),
  length-le_bytes (8 * words_loop n n) n,
  length-replicate (size - 8 * words_loop n n) fill,
)

length-fixed : (m : ℤ) (size : ℕ) (e : Encoder) → length (Decimal.fixed m size e) ≡ length e + size
unfolding Decimal.fixed
length-fixed (pos n) size e = length-bytes e (fill_words size 0 n) size (length-fill_words size 0 n)
length-fixed (negsuc n) size e =
    length-bytes e (fill_words size 255 (256 ^ (8 * words_loop (suc n) (suc n)) - suc n)) size
      (length-fill_words size 255 (256 ^ (8 * words_loop (suc n) (suc n)) - suc n))

-- Neither precision nor scale is negative.
abbrev pub IsNat : ℤ → Type 0
IsNat (pos n) = Unit
IsNat (negsuc n) = ⊥

fixed_result-Encodes :
    (size : ℕ) (e : Encoder) (m : ℤ) (over : Bool)
    → Encodes size e (Fields.fixed_result size e (ok (m, over)))
fixed_result-Encodes size e m true = tt
fixed_result-Encodes size e m false = length-fixed m size e

pub fixed-Encodes :
    (size : ℕ) (prec scale : ℤ) (v : Value) (e : Encoder)
    → IsNat prec
    → IsNat scale
    → NotNil v
    → IsRat v
    → Encodes size e (encode_fixed v size prec scale e)
unfolding encode_fixed convert_rat_to_fixed
fixed-Encodes size (pos p) (pos s) (rat q) e hp hs k t = fixed_result-Encodes size e _ _
fixed-Encodes size (negsuc p) scale v e hp hs k t = absurd hp
fixed-Encodes size (pos p) (negsuc s) v e hp hs k t = absurd hs
fixed-Encodes size (pos p) (pos s) nil e hp hs k t = absurd k
fixed-Encodes size (pos p) (pos s) _ e hp hs k t = absurd t

length-or_at : (i v : ℕ) (b : Bytes) → length (Decimal.or_at i v b) ≡ length b
length-or_at i v b =
    elim (get_elem? b i)
      as (λ o. length (elim o [ none ↦ b | some x ↦ set b i (bit_or x v) ]) ≡ length b) [
        | none ↦ refl
        | some x ↦ length-set b i (bit_or x v)
      ]

-- The bytes of a decimal before the sign.
abbrev exponent_bytes : ℤ → ℤ → Bytes
exponent_bytes m exp =
    set (Decimal.or_at 14 (wrap (2 ^ 8) (exp +ℤ pos 6176) * 2 % 256) (le_bytes 16 (abs_ℤ m))) 15
      (wrap (2 ^ 16) (exp +ℤ pos 6176) / 128 % 256)

length-exponent_bytes : (m exp : ℤ) → length (exponent_bytes m exp) ≡ 16
length-exponent_bytes m exp =
    length-set _ 15 _
    ∙ length-or_at 14 (wrap (2 ^ 8) (exp +ℤ pos 6176) * 2 % 256) (le_bytes 16 (abs_ℤ m))
    ∙ length-le_bytes 16 (abs_ℤ m)

decimal-Encodes :
    (m exp : ℤ) (e : Encoder)
    → leb (2 ^ 128) (abs_ℤ m) ≡ false
    → Encodes 16 e (Fields.outcome (Decimal.decimal m exp e))
unfolding Decimal.decimal
decimal-Encodes m exp e h =
    rw h
      (elim (is_neg m)
        as (λ b.
          length (
            Encoder.bytes
              (if b then Decimal.or_at 15 128 (exponent_bytes m exp) else exponent_bytes m exp) e)
          ≡ length e + 16) [
            | true ↦
                length-bytes e _ 16
                  (length-or_at 15 128 (exponent_bytes m exp) ∙ length-exponent_bytes m exp)
            | false ↦ length-bytes e _ 16 (length-exponent_bytes m exp)
          ])

-- The digits of a decimal fit into two words.
abbrev pub DecimalFits : Runtime → Value → Type 0
DecimalFits r (rat q) =
    leb (2 ^ 128)
      (abs_ℤ (convert_rat_to_decimal r.low_digits q dec128_digits dec128_min_exp dec128_max_exp).m)
    ≡ false
DecimalFits r _ = Unit

decimal_result-Encodes :
    (d : Decimal128) (e : Encoder)
    → leb (2 ^ 128) (abs_ℤ d.m) ≡ false
    → Encodes 16 e (Fields.decimal_result d e)
decimal_result-Encodes d e h =
    elim d.df.overflow
      as (λ b. Encodes 16 e (
        if b
        then failed decimal_out_of_range e
        else if d.df.underflow
        then Fields.outcome (Decimal.decimal (pos 0) (pos 0) e)
        else Fields.outcome (Decimal.decimal d.m d.exp e))) [
          | true ↦ tt
          | false ↦
              elim d.df.underflow
                as (λ b. Encodes 16 e (
                  if b
                  then Fields.outcome (Decimal.decimal (pos 0) (pos 0) e)
                  else Fields.outcome (Decimal.decimal d.m d.exp e))) [
                    | true ↦ decimal-Encodes (pos 0) (pos 0) e refl
                    | false ↦ decimal-Encodes d.m d.exp e h
                  ]
        ]

pub decimal_field-Encodes :
    (r : Runtime) (v : Value) (e : Encoder)
    → NotNil v
    → IsRat v
    → DecimalFits r v
    → Encodes 16 e (Fields.decimal_field r v e)
unfolding Fields.decimal_field
decimal_field-Encodes r (rat q) e k t h =
    decimal_result-Encodes
      (convert_rat_to_decimal r.low_digits q dec128_digits dec128_min_exp dec128_max_exp) e h
decimal_field-Encodes r nil e k t h = absurd k
decimal_field-Encodes r _ e k t h = absurd t
