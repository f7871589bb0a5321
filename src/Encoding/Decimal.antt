-- ===== src/Encoding/Decimal.antt =====
-- driver/internal/protocol/encoding/encode.go and decode.go: the bytes of decimals and of fixed numbers, and
-- the fractions that they stand for. The words of 64 bits of a big.Int are written as their bytes.
pub mod Fractions
pub mod Rounding
use go_hdb.Prelude.{
  ℕ, zero, suc, ◌+◌, ◌-◌, ◌*◌, ◌/◌, ◌%◌, ◌^◌, Bool, true, false, ◌||◌, Option, none, some, List, [],
  ◌∷◌, ◌++◌, Outcome, ok, panic, ltb, leb, ◌==◌, if◌then◌else◌, length, take, drop, replicate, map,
  get_elem?, set, Bytes,
}
use Prim.Native.Nat.{bit_or}
use go_hdb.Prelude.Int.{ℤ, pos, negsuc, pos_part, neg_part, ltb_ℤ, leb_ℤ, eq_ℤ, ◌+ℤ◌, ◌-ℤ◌, wrap}
use go_hdb.Prelude.Words.{le_bytes, le_value}
use go_hdb.Encoding.Encoder
use go_hdb.Encoding.Encoder.{Encoder}
use go_hdb.Encoding.Decoder
use go_hdb.Encoding.Decoder.{Decoding, IoError, ◌>>=◌, pure}
use go_hdb.Encoding.Decimal.Fractions.{Rat, dec128_bias, abs_ℤ, is_neg, neg_ℕ, mul_ℕ, exp10}

abbrev pub dec_size : ℕ
dec_size = 16

-- `b[i] |= v`
abbrev pub or_at : ℕ → ℕ → Bytes → Bytes
or_at i v b = elim (get_elem? b i) [ none ↦ b | some x ↦ set b i (bit_or x v) ]

-- `Encoder.Decimal`: more than two words do not fit into the buffer.
unfoldable pub decimal : ℤ → ℤ → Encoder → Outcome Encoder
decimal m exp e =
    if leb (2 ^ 128) (abs_ℤ m)
    then panic
    else (let biased = exp +ℤ pos dec128_bias in
        let b14 = or_at 14 (wrap (2 ^ 8) biased * 2 % 256) (le_bytes dec_size (abs_ℤ m)) in
        let b15 = set b14 15 (wrap (2 ^ 16) biased / 128 % 256) in
        ok (Encoder.bytes (if is_neg m then or_at 15 128 b15 else b15) e))

-- The number of words of 64 bits of a number; the fuel is the number.
unfoldable pub words_loop : ℕ → ℕ → ℕ
words_loop zero n = 0
words_loop (suc f) n = let rest = words_loop f (n / 2 ^ 64) in if n == 0 then 0 else suc rest

abbrev word_bytes : ℕ → ℕ
word_bytes n = 8 * words_loop n n

-- The words of n, and fill behind them, on size bytes.
unfoldable pub fill_words : ℕ → ℕ → ℕ → Bytes
unfolding words_loop
fill_words size fill n =
    take size (le_bytes (word_bytes n) n) ++ replicate (size - word_bytes n) fill

-- `Encoder.Fixed`: all words of a negative number are inverted, and 1 is added.
unfoldable pub fixed : ℤ → ℕ → Encoder → Encoder
unfolding fill_words words_loop
fixed (pos n) size e = Encoder.bytes (fill_words size 0 n) e
fixed (negsuc n) size e = Encoder.bytes (fill_words size 255 (256 ^ word_bytes (suc n) - suc n)) e

abbrev last_byte : Bytes → ℕ
last_byte [] = 0
last_byte (b ∷ []) = b
last_byte (b ∷ c ∷ bs) = last_byte (c ∷ bs)

-- `Decoder.Fixed` on the bytes: the zero bytes at the end, of which a negative number has none, do
-- not change the words.
unfoldable pub fixed_value : Bytes → ℤ
fixed_value bs =
    if leb 128 (last_byte bs)
    then negsuc (le_value (map (λ (b : ℕ). 255 - b) bs))
    else pos (le_value bs)

-- nil on an error.
abbrev unless_error {ℓ} : {A : Type ℓ} → Option IoError → A → Option A
unless_error none a = some a
unless_error (some x) a = none

unfoldable pub decode_fixed : ℕ → Decoding (Option ℤ)
unfolding fixed_value
decode_fixed size = do
  (bs, e) ← Decoder.read_full (replicate size 0)
  pure (unless_error e (fixed_value bs))

-- `convertFixedToRat`, not reduced.
unfoldable pub convert_fixed_to_rat : ℤ → ℤ → Outcome Rat
convert_fixed_to_rat m (negsuc s) = panic
convert_fixed_to_rat m (pos s) = ok (record { num = m; denom = exp10 s })

-- `convertDecimalToRat`
unfoldable pub convert_decimal_to_rat : ℤ → ℤ → Rat
convert_decimal_to_rat m (pos e) = record { num = mul_ℕ m (exp10 e); denom = 1 }
convert_decimal_to_rat m (negsuc e) = record { num = m; denom = exp10 (suc e) }

pub data DecimalResult : Type 0 where
  nil_decimal : DecimalResult
  not_supported : DecimalResult
  decimal_value : ℤ → ℤ → DecimalResult

-- `Decoder.Decimal` on the 16 bytes: null, infinite, or the number with its exponent.
unfoldable pub decimal_of_bytes : Bytes → DecimalResult
decimal_of_bytes bs =
    let b15 = last_byte bs in
    let w = le_value (drop 14 bs) in
    let n = le_value (take 14 bs) + 256 ^ 14 * (w % 2) in
    if b15 / 16 % 8 == 7
    then nil_decimal
    else if b15 / 32 % 4 == 3
    then not_supported
    else decimal_value (if leb 128 b15 then neg_ℕ n else pos n)
        (pos (w * 2 % 2 ^ 16 / 4) -ℤ pos dec128_bias)

abbrev decimal_result : Option IoError → DecimalResult → DecimalResult
decimal_result none r = r
decimal_result (some x) r = nil_decimal

unfoldable pub decode_decimal : Decoding DecimalResult
unfolding decimal_of_bytes
decode_decimal = do
  (bs, e) ← Decoder.read_full (replicate dec_size 0)
  pure (decimal_result e (decimal_of_bytes bs))
