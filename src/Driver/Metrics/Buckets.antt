-- ===== src/Driver/Metrics/Buckets.antt =====
-- driver/metrics.go: what a histogram says of the values that were added to it.
use go_hdb.Prelude.{
  ℕ, ◌+◌, ◌%◌, ◌^◌, ◌≡◌, true, false, List, [], ◌∷◌, map, if◌then◌else◌, length, take, drop, All,
  Outcome, ok, panic,
}
use go_hdb.Driver.Metrics.{Histogram, Floats, new_histogram, clamp, add}

module _ {F : Type 0} (fl : Floats F) where
  abbrev pub IsSorted : List F → Type 0
  IsSorted [] = Unit {0}
  IsSorted (u ∷ us) = All (λ (w : F). fl.less_f u w ≡ true) us × IsSorted us

  -- slices.BinarySearch in a sorted slice: the position where v is, or where it would stand.
  pub record IsBinarySearch : Type 0 where
    pub below :
        (us : List F) (v : F)
        → IsSorted us
        → All (λ (u : F). fl.less_f u v ≡ true) (take (fl.search us v) us)
    pub above :
        (us : List F) (v : F)
        → IsSorted us
        → All (λ (u : F). fl.less_f u v ≡ false) (drop (fl.search us v) us)

  -- How many values are not above a bound, and how many are negative.
  abbrev pub at_most : List F → F → ℕ
  at_most [] u = 0
  at_most (v ∷ vs) u = let n = at_most vs u in if fl.less_f u (clamp fl v) then n else n + 1

  abbrev pub negatives : List F → ℕ
  negatives [] = 0
  negatives (v ∷ vs) = let n = negatives vs in if fl.less_f v fl.zero_f then n + 1 else n

  abbrev pub and_add : F → Outcome (Histogram F) → Outcome (Histogram F)
  and_add v (ok h) = add fl v h
  and_add v panic = panic

  -- The histogram behind the values, of which the last stands first.
  unfoldable pub measured : List F → List F → Outcome (Histogram F)
  measured us [] = ok (new_histogram fl us)
  measured us (v ∷ vs) = and_add v (measured us vs)

  -- A bound counts the values up to it; numbers wrap around.
  pub record IsHistogram (us vs : List F) (h : Histogram F) : Type 0 where
    pub bounds : h.upper_bounds ≡ us
    pub counts : h.bound_counts ≡ map (λ (u : F). at_most vs u % 2 ^ 64) us
    pub count : h.count ≡ length vs % 2 ^ 64
    pub underflow : h.underflow_count ≡ negatives vs % 2 ^ 64
