-- ===== src/Prelude/Int.antt =====
-- Go's signed integers as integers over the native numbers, with the range of each width.
use go_hdb.Prelude.{
  ℕ, suc, ◌+◌, ◌-◌, ◌*◌, ◌%◌, ◌^◌, ◌≤◌, ◌<◌, ◌≡◌, Bool, arith, ltb, leb, ◌==◌, if◌then◌else◌,
}
use native.Mathlib.Nat.{mod-eq_of_lt, mod-lt}

-- `negsuc n` is -(n + 1).
pub data ℤ : Type 0 where
  pos : ℕ → ℤ
  negsuc : ℕ → ℤ

abbrev pub pos_part : ℤ → ℕ
pos_part (pos n) = n
pos_part (negsuc n) = 0

abbrev pub neg_part : ℤ → ℕ
neg_part (pos n) = 0
neg_part (negsuc n) = suc n

-- a - b, as an integer.
abbrev pub sub_ℕ : ℕ → ℕ → ℤ
sub_ℕ a b = if leb b a then pos (a - b) else negsuc (b - a - 1)

infixl 65 ◌+ℤ◌ ◌-ℤ◌
infix 50 ◌≤ℤ◌
unfoldable pub ◌+ℤ◌ : ℤ → ℤ → ℤ
a +ℤ b = sub_ℕ (pos_part a + pos_part b) (neg_part a + neg_part b)

unfoldable pub ◌-ℤ◌ : ℤ → ℤ → ℤ
a -ℤ b = sub_ℕ (pos_part a + neg_part b) (neg_part a + pos_part b)

abbrev pub ◌≤ℤ◌ : ℤ → ℤ → Type 0
a ≤ℤ b = pos_part a + neg_part b ≤ pos_part b + neg_part a

abbrev pub leb_ℤ : ℤ → ℤ → Bool
leb_ℤ a b = leb (pos_part a + neg_part b) (pos_part b + neg_part a)

abbrev pub ltb_ℤ : ℤ → ℤ → Bool
ltb_ℤ a b = ltb (pos_part a + neg_part b) (pos_part b + neg_part a)

abbrev pub eq_ℤ : ℤ → ℤ → Bool
eq_ℤ a b = (pos_part a + neg_part b) == (pos_part b + neg_part a)

-- The values of a signed integer whose least value is -half.
abbrev pub IsSigned : ℕ → ℤ → Type 0
IsSigned half z = (pos_part z < half) × (neg_part z ≤ half)

abbrev pub IsInt8 : ℤ → Type 0
IsInt8 = IsSigned (2 ^ 7)

abbrev pub IsInt16 : ℤ → Type 0
IsInt16 = IsSigned (2 ^ 15)

abbrev pub IsInt32 : ℤ → Type 0
IsInt32 = IsSigned (2 ^ 31)

abbrev pub IsInt64 : ℤ → Type 0
IsInt64 = IsSigned (2 ^ 63)

-- The two's complement conversions of Go: `wrap m` is a conversion to the unsigned type with `m`
-- values, `signed half` reads a bit pattern below `2 * half` as a signed number.
unfoldable pub wrap : ℕ → ℤ → ℕ
wrap m (pos n) = n % m
wrap m (negsuc n) = m - 1 - n % m

unfoldable pub signed : ℕ → ℕ → ℤ
signed half u = if ltb u half then pos u else negsuc (2 * half - 1 - u)

-- A conversion from a signed type to a signed type with `half` values of each sign.
abbrev pub convert : ℕ → ℤ → ℤ
convert half z = signed half (wrap (2 * half) z)

pub mod_small : (a m : ℕ) → a < m → a % m ≡ a
mod_small a m h = mod-eq_of_lt h

pub wrap-lt : (m : ℕ) (z : ℤ) → 0 < m → wrap m z < m
unfolding wrap
wrap-lt m (pos n) h = mod-lt n h
wrap-lt m (negsuc n) h = omega arith

pub signed-wrap : (half : ℕ) (z : ℤ) → IsSigned half z → signed half (wrap (2 * half) z) ≡ z
unfolding wrap signed
signed-wrap half (pos n) h = ground (arith, mod_small n (2 * half))
signed-wrap half (negsuc n) h = ground (arith, mod_small n (2 * half))

pub wrap-signed : (half u : ℕ) → u < 2 * half → wrap (2 * half) (signed half u) ≡ u
unfolding wrap signed
wrap-signed half u h =
    ground (arith, mod_small u (2 * half), mod_small (2 * half - 1 - u) (2 * half))

pub signed-IsSigned : (half u : ℕ) → u < 2 * half → IsSigned half (signed half u)
unfolding signed
signed-IsSigned half u h = ground arith

-- A conversion to a signed type keeps the bit pattern.
pub wrap-convert :
    (half : ℕ) (z : ℤ) → 0 < half → wrap (2 * half) (convert half z) ≡ wrap (2 * half) z
wrap-convert half z h = wrap-signed half (wrap (2 * half) z) (wrap-lt (2 * half) z (omega arith))

pub wrap-pos : (m n : ℕ) → n < m → wrap m (pos n) ≡ n
unfolding wrap
wrap-pos m n h = mod_small n m h

-- A value that fits is kept.
pub convert-pos : (half n : ℕ) → n < half → convert half (pos n) ≡ pos n
unfolding signed wrap
convert-pos half n h = ground (arith, mod_small n (2 * half))

pub +ℤ-pos : (m n : ℕ) → pos m +ℤ pos n ≡ pos (m + n)
unfolding ◌+ℤ◌
+ℤ-pos m n = ground arith

pub -ℤ-pos : (m n : ℕ) → n ≤ m → pos m -ℤ pos n ≡ pos (m - n)
unfolding ◌-ℤ◌
-ℤ-pos m n h = ground arith
