-- ===== src/Tests/Decimals.antt =====
-- driver/internal/protocol/encoding/decimal.go at concrete numbers.
use go_hdb.Prelude.{ℕ, ◌*◌, ◌/◌, ◌≡◌, refl, arith, ok, panic, []}
use go_hdb.Prelude.Int.{pos, negsuc, ◌-ℤ◌, ◌+ℤ◌, wrap}
use go_hdb.Prelude.Words.{le_bytes, le_value}
use go_hdb.Encoding.Encoder.{bytes}
use go_hdb.Encoding.Decimal.Rounding.{IsRounded, round_fixed-rounds}
use go_hdb.Encoding.Decimal.Fractions.{
  round_fixed, neg_ℕ, Rat, convert_rat_to_decimal, dec128_min_exp, dec128_max_exp,
}
use go_hdb.Encoding.Decimal.{decimal, decimal_of_bytes, decimal_value, decimal_value, DecimalResult}

-- int(float64(k) / lg10)
abbrev low_digits : ℕ → ℕ
low_digits k = k * 30103 / 100000

-- The bytes of a fraction.
abbrev sent : Rat → DecimalResult
sent q =
    let d = convert_rat_to_decimal low_digits q 34 dec128_min_exp dec128_max_exp in
    elim (decimal d.m d.exp []) [ ok b ↦ decimal_of_bytes b | panic ↦ DecimalResult.nil_decimal ]

four_thirds :
    sent (record { num = pos 4; denom = 3 })
    ≡ decimal_value (pos 1333333333333333333333333333333333) (negsuc 32)
unfolding convert_rat_to_decimal decimal decimal_of_bytes ◌-ℤ◌ ◌+ℤ◌ bytes le_bytes wrap le_value
four_thirds = refl

-- A negative fraction gets a digit too many, which runs into the exponent: about -2.9 is sent.
minus_four_thirds :
    sent (record { num = negsuc 3; denom = 3 })
    ≡ decimal_value (negsuc 2948739616263678076272340674893140) (negsuc 32)
unfolding convert_rat_to_decimal decimal decimal_of_bytes ◌-ℤ◌ ◌+ℤ◌ bytes le_bytes wrap le_value
minus_four_thirds = refl

minus_twelve_and_a_half :
    sent (record { num = negsuc 24; denom = 2 }) ≡ decimal_value (negsuc 124) (negsuc 0)
unfolding convert_rat_to_decimal decimal decimal_of_bytes ◌-ℤ◌ ◌+ℤ◌ bytes le_bytes wrap le_value
minus_twelve_and_a_half = refl

-- 19 / 10 and -19 / 10.
round_fixed-rounds_example :
    ((k : ℕ) × (round_fixed (pos 18) 10 ≡ pos k) × IsRounded 18 10 k)
    × (round_fixed (negsuc 18) 10 ≡ neg_ℕ (19 / 10))
round_fixed-rounds_example = round_fixed-rounds 18 10 (omega arith)
