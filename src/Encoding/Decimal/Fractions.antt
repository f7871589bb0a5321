-- ===== src/Encoding/Decimal/Fractions.antt =====
-- driver/internal/protocol/encoding/decimal.go: fractions as decimals and as fixed numbers. A big.Int is
-- an integer.
use go_hdb.Prelude.{
  ℕ, zero, suc, ◌+◌, ◌-◌, ◌*◌, ◌/◌, ◌%◌, ◌^◌, Bool, true, false, ◌||◌, Outcome, ok, panic, ltb,
  ◌==◌, if◌then◌else◌,
}
use go_hdb.Prelude.Int.{ℤ, pos, negsuc, pos_part, neg_part, ltb_ℤ, leb_ℤ, eq_ℤ, ◌+ℤ◌, ◌-ℤ◌}

-- The fraction of a big.Rat, in lowest terms.
pub record Rat : Type 0 where
  pub num : ℤ
  pub denom : ℕ

abbrev pub dec128_bias : ℕ
dec128_bias = 6176

abbrev pub dec128_digits : ℕ
dec128_digits = 34

abbrev pub dec128_min_exp : ℤ
dec128_min_exp = negsuc 6175

abbrev pub dec128_max_exp : ℤ
dec128_max_exp = pos 6111

abbrev pub abs_ℤ : ℤ → ℕ
abs_ℤ z = pos_part z + neg_part z

abbrev pub is_neg : ℤ → Bool
is_neg (pos n) = false
is_neg (negsuc n) = true

abbrev pub neg_ℕ : ℕ → ℤ
neg_ℕ zero = pos 0
neg_ℕ (suc n) = negsuc n

abbrev pub mul_ℕ : ℤ → ℕ → ℤ
mul_ℕ (pos n) k = pos (n * k)
mul_ℕ (negsuc n) k = neg_ℕ (suc n * k)

-- `QuoRem` by a positive number; both are rounded towards zero.
abbrev pub quo_rem : ℤ → ℕ → ℤ × ℤ
quo_rem (pos n) b = (pos (n / b), pos (n % b))
quo_rem (negsuc n) b = (neg_ℕ (suc n / b), neg_ℕ (suc n % b))

-- `exp10`; its table holds the first powers.
abbrev pub exp10 : ℕ → ℕ
exp10 n = 10 ^ n

-- `BitLen`: the fuel is the number itself.
unfoldable pub bit_len_loop : ℕ → ℕ → ℕ
bit_len_loop zero n = 0
bit_len_loop (suc f) n = let rest = bit_len_loop f (n / 2) in if n == 0 then 0 else suc rest

unfoldable pub bit_len : ℤ → ℕ
unfolding bit_len_loop
bit_len p = bit_len_loop (abs_ℤ p) (abs_ℤ p)

-- The loop of `digits10`, from i on; its fuel is the number of bits, as 10^i is above 2^i.
unfoldable pub digits_loop : ℕ → ℤ → ℕ → ℕ
digits_loop zero p i = i
digits_loop (suc f) p i =
    let rest = digits_loop f p (i + 1) in if ltb_ℤ p (pos (exp10 i)) then i else rest

-- An exponent that is not above 0 multiplies by a power of ten.
abbrev scale : ℤ → ℤ → ℤ
scale a shift = mul_ℕ a (exp10 (neg_part shift))

pub record DecimalFlags : Type 0 where
  pub not_exact : Bool
  pub overflow : Bool
  pub underflow : Bool

-- What `convertRatToDecimal` returns and sets m to.
pub record Decimal128 : Type 0 where
  pub m : ℤ
  pub exp : ℤ
  pub df : DecimalFlags

abbrev max_ℤ : ℤ → ℤ → ℤ
max_ℤ a b = if ltb_ℤ a b then b else a

-- `min(digits, maxExp-exp)`, and 1 where it is less.
abbrev carry_shift : ℕ → ℤ → ℕ
carry_shift digits room =
    if leb_ℤ (pos digits) room then digits else if ltb_ℤ room (pos 1) then 1 else pos_part room

-- The number is taken tens out of until exp is maxExp; the fuel is what exp may grow.
unfoldable pub norm_loop : ℕ → ℤ → ℤ → ℤ × ℤ
norm_loop zero m exp = (m, exp)
norm_loop (suc f) m exp =
    let (q, rest) = quo_rem m 10 in
    let more = norm_loop f q (exp +ℤ pos 1) in if eq_ℤ rest (pos 0) then more else (m, exp)

unfoldable pub norm : ℤ → Decimal128 → Decimal128
unfolding norm_loop
norm max_exp d =
    let (m, exp) = norm_loop (pos_part (max_exp -ℤ d.exp)) d.m d.exp in
    record d { m = m; exp = exp }

-- `m.Cmp(exp10(digits)) == 0`: one digit more than there may be.
unfoldable pub carry : ℕ → ℤ → Decimal128 → Decimal128
carry digits max_exp d =
    if eq_ℤ d.m (pos (exp10 digits))
    then (let shift = carry_shift digits (max_exp -ℤ d.exp) in
        record {
          m = pos (exp10 (digits - shift));
          exp = d.exp +ℤ pos shift;
          df = record d.df { overflow = d.df.overflow || ltb_ℤ (max_exp -ℤ d.exp) (pos 1) };
        })
    else d

-- The rest of the division rounds up from a half of b on.
unfoldable pub round : ℕ → ℤ → ℤ → ℕ → Decimal128 → Decimal128
unfolding carry
round digits max_exp rest b d =
    if eq_ℤ rest (pos 0)
    then d
    else (let e = record d { df = record d.df { not_exact = true } } in
        if leb_ℤ (pos b) (rest +ℤ rest)
        then carry digits max_exp (record e { m = d.m +ℤ pos 1 })
        else e)

-- From `shift = exp - shift` on.
unfoldable pub divide : ℕ → ℤ → ℤ → ℕ → ℤ → Decimal128 → Decimal128
unfolding round norm
divide digits max_exp a b shift d =
    let a' = if ltb_ℤ shift (pos 0) then scale a shift else a in
    let b' =
      if ltb_ℤ shift (pos 0)
      then b
      else if ltb_ℤ (pos 0) d.exp
      then b * exp10 (pos_part shift)
      else b in
    let (m, rest) = quo_rem a' b' in
    norm max_exp (round digits max_exp rest b' (record d { m = m }))

-- The exponent of m, from that of the first digit.
unfoldable pub limit_exp : ℕ → ℤ → ℤ → ℤ → Decimal128
limit_exp digits min_exp max_exp exp =
    let low = exp -ℤ pos digits +ℤ pos 1 in
    let e = if ltb_ℤ exp min_exp then low else max_ℤ low min_exp in
    record {
      m = pos 0;
      exp = e;
      df = record { not_exact = false; overflow = ltb_ℤ max_exp e; underflow = ltb_ℤ exp min_exp };
    }

-- int(float64(k) / lg10) is the parameter `low_digits`.
module _ (low_digits : ℕ → ℕ) where
  unfoldable pub digits10 : ℤ → ℕ
  unfolding bit_len digits_loop
  digits10 p =
      let i = low_digits (bit_len p) in digits_loop (bit_len p + 1) p (if ltb i 1 then 1 else i)

  unfoldable pub convert_rat_to_decimal : Rat → ℕ → ℤ → ℤ → Decimal128
  unfolding digits10 divide limit_exp
  convert_rat_to_decimal x digits min_exp max_exp =
      let shift = pos (digits10 x.num) -ℤ pos (digits10 (pos x.denom)) in
      let a = if ltb_ℤ shift (pos 0) then scale x.num shift else x.num in
      let b = if ltb_ℤ (pos 0) shift then x.denom * exp10 (pos_part shift) else x.denom in
      let exp = if ltb_ℤ a (pos b) then shift -ℤ pos 1 else shift in
      let whole = limit_exp digits min_exp max_exp (pos (digits10 x.num) -ℤ pos 1) in
      let part = limit_exp digits min_exp max_exp exp in
      if eq_ℤ x.num (pos 0)
      then record {
        m = pos 0;
        exp = pos 0;
        df = record { not_exact = false; overflow = false; underflow = false };
      }
      else if x.denom == 1
      then divide digits max_exp x.num x.denom whole.exp whole
      else divide digits max_exp a b (part.exp -ℤ shift) part

-- `convertRatToFixed`: a negative scale panics.
unfoldable pub round_fixed : ℤ → ℕ → ℤ
round_fixed a b =
    let (m, rest) = quo_rem a b in
    if eq_ℤ rest (pos 0) then m else if leb_ℤ (pos b) (rest +ℤ rest) then m +ℤ pos 1 else m

-- m, and whether it has more than prec digits. The fraction is not reduced, as that changes neither
-- the quotient nor what it is rounded to.
unfoldable pub convert_rat_to_fixed : Rat → ℕ → ℤ → Outcome (ℤ × Bool)
unfolding round_fixed
convert_rat_to_fixed r prec (negsuc s) = panic
convert_rat_to_fixed r prec (pos s) =
    let m = round_fixed (mul_ℕ r.num (exp10 s)) r.denom in
    ok (m, leb_ℤ m (neg_ℕ (exp10 prec)) || leb_ℤ (pos (exp10 prec)) m)
