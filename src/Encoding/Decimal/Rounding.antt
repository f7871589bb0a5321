-- ===== src/Encoding/Decimal/Rounding.antt =====
-- decimal.go: how `convertRatToFixed` rounds.
use go_hdb.Prelude.{
  ℕ, zero, suc, ◌+◌, ◌*◌, ◌/◌, ◌%◌, ◌≤◌, ◌<◌, ◌≡◌, refl, arith, Bool-cases, inl, inr, if◌then◌else◌,
  leb,
}
use native.Mathlib.Nat.{div-add-mod, mod-lt}
use go_hdb.Prelude.Int.{ℤ, pos, negsuc, ◌+ℤ◌, leb_ℤ, eq_ℤ}
use go_hdb.Encoding.Decimal.Fractions.{round_fixed, neg_ℕ}

-- k is a / b, rounded to the nearest number, and up from a half on.
abbrev pub IsRounded : ℕ → ℕ → ℕ → Type 0
IsRounded a b k = (2 * (k * b) ≤ 2 * a + b) × (2 * a + b < 2 * (k * b) + 2 * b)

rounded : ℕ → ℕ → ℕ
rounded a b = if leb b (a % b + a % b) then a / b + 1 else a / b

round_fixed-rounded : (a b : ℕ) → 0 < b → round_fixed (pos a) b ≡ pos (rounded a b)
unfolding round_fixed ◌+ℤ◌ rounded
round_fixed-rounded a b h = ground arith

rounded-IsRounded : (a b : ℕ) → 0 < b → IsRounded a b (rounded a b)
unfolding rounded
rounded-IsRounded a b h = elim (Bool-cases (leb b (a % b + a % b))) [
  | inl e ↦ rw e (grind (arith, mod-lt a h, div-add-mod a b))
  | inr e ↦ rw e (grind (arith, mod-lt a h, div-add-mod a b))
]

negative_lem :
    (q : ℤ) (r b : ℕ)
    → 0 < b
    → (if eq_ℤ (neg_ℕ r) (pos 0)
        then q
        else if leb_ℤ (pos b) (neg_ℕ r +ℤ neg_ℕ r)
        then q +ℤ pos 1
        else q)
      ≡ q
unfolding ◌+ℤ◌
negative_lem q zero b h = refl
negative_lem q (suc r) b h = ground arith

-- Decimals of a positive denominator: a number that is not negative is rounded to the nearest, up from a
-- half on; a negative one is rounded towards zero, however great its fraction is.
pub round_fixed-rounds :
    (a b : ℕ)
    → 0 < b
    → ((k : ℕ) × (round_fixed (pos a) b ≡ pos k) × IsRounded a b k)
      × (round_fixed (negsuc a) b ≡ neg_ℕ (suc a / b))
unfolding round_fixed
round_fixed-rounds a b h = (
  (rounded a b, round_fixed-rounded a b h, rounded-IsRounded a b h),
  negative_lem (neg_ℕ (suc a / b)) (suc a % b) b h,
)
